-- ===== src/Lib.antt =====
-- leta: a search engine's server, up to its first milestones: indexes are created and documents
-- ingested over HTTP, kept in memory, and found by exact words.
--
-- The parts, and how they call one another. A request reaches adapters/http/httplib_server through
-- the HTTP library; it settles the request id and the content type and calls a route's handler
-- (system_routes, index_routes, document_routes). A handler reads the body with the JSON library into
-- a command, calls a service of src/application, and writes the outcome or an error as JSON. A
-- service reads the clock once and calls the IndexRepository port, which
-- adapters/storage/in_memory_index_repository implements with one lock over a map from uid to an
-- index, an ExactMatchIndex of src/core, which splits texts with split_on_whitespace.
--
-- The files:
--   Prelude            the names and lemmas shared: numbers, lists, text searches, decimal numbers
--   Core               src/core: Error, IndexUid, WhitespaceTokenizer, Map (std::map),
--                      ExactMatchIndex, IndexMetadata. Words is the one-pass reference of the
--                      tokenizer; Postings and Refinement are the specification of the index
--   Application        src/application: the services, the IndexRepository port as a record of
--                      operations and laws, and History, runs of calls on any such repository
--   Storage            src/adapters/storage: the in-memory repository, which fills the port; and
--                      Threads, the same calls statement by statement under the mutex, by threads
--                      that take turns on any schedule
--   Http               src/adapters/http: one module per source file. Simdjson and Httplib are the
--                      two libraries, as records of the calls that the sources make
--   Server             src/main.cpp, serve: the three routes registered with the adapter, over one
--                      repository and one readiness flag; a reference for what is answered (Answers,
--                      by Meets), what sequences of requests leave (Runs, Search), what a client reads
--                      in the bodies (Client), what a failed request leaves (Failures), and the
--                      handlers on worker threads that take turns within the repository (Workers)
--   Startup            src/main.cpp and src/adapters/config: the clock (Clock), main and serve over the
--                      HttpServer port (Serving), the process from its start to its end, with the
--                      requests that it serves meanwhile (Lifetime), by its arguments (Arguments)
--   Tests              the theorems and the definitions at concrete inputs
--
-- How the code is read. A string is the list of its bytes, a position a native number, `npos` is
-- `none`. A Result is ok or err. State is passed explicitly: an operation that changes the
-- repository returns the next state. The services and handlers take each operation of the repository as
-- one step, and concurrent callers as a sequence of steps in any order; Storage/Threads splits the
-- operations at their accesses to the mutex and the map, with a log of the calls that the code does
-- not have and the theorems compare with. The clock's reading, the elapsed time and the random words of
-- a request id are arguments. A C++ exception is a value of the outcome of what it leaves: a handler,
-- the construction of the server, `run`. A simdjson container, read forward once, is the list of what
-- its loop meets. std::map is an association list behind its laws; no code iterates over one. Document
-- ids keep the cast to 32 bits, and the theorems that need ids to be distinct ask for at most 2^32
-- documents.
--
-- The HTTP library's dispatch is a parameter, Http/HttplibServer/Dispatch.Dispatcher: of a parsed GET
-- or POST it runs the one registered handler whose pattern takes the path, with a fresh response, then
-- the exception handler if that threw, the error handler if the status is 400 or more, and the
-- post-routing handler; a pattern's `:name` takes one segment that is not empty. Tests/Dispatch has a
-- concrete one. What the library does with the stream of serve_raw is a parameter as well, a
-- Conversation of Http/HttplibServer/Stream/Serve, whose steps may depend on what it has read. And so
-- is its listener, Http/HttplibServer/Port.Listener: what its calls answer, and any list of requests
-- that it serves within listen_after_bind, in the order in which their handlers take effect.
--
-- Instants are any integers of milliseconds. The calendar of append_json_timestamp counts from the
-- year -40000, before every year of std::chrono::year.
--
-- Fuel: split_loop takes one more than the length of the text, and each round consumes a
-- character; validate_value takes 128, and the source's own depth test ends the recursion first.
-- A schedule of Storage/Threads is any list of turns; a round is one with a turn for each thread, and
-- as many rounds are asked for as the calls have turns to take.
--
-- Not modelled: the sockets and the worker pool behind the HTTP library, its parser of requests, the
-- methods other than GET and POST, and what it does after a handler with the header Range, which no
-- source reads: a Dispatcher is the library on requests without it; the random engine; the values that
-- the build generates; allocation failure; the vendored tl::expected, of which Result is the part in
-- use; build files and tests.
pub mod Prelude
pub mod Core
pub mod Application
pub mod Storage
pub mod Http
pub mod Server
pub mod Startup
pub mod Tests

-- ===== src/Http/HttplibServer/Dispatch.antt =====
-- What the HTTP library does with a request between its parser and the wire. It is outside the
-- repository: a parameter, with what it is documented to do. It runs the one registered handler whose
-- method and pattern match, or answers 404; an exception goes to the exception handler; a status of
-- 400 or more goes through the error handler; and every response goes through the post-routing
-- handler. Requests of other methods than GET and POST, and those that the library's parser refuses,
-- reach no handler. A Dispatcher is the library on requests without the header Range.
use leta.Prelude.{
  ℕ, ◌≡◌, ◌≢◌, ◌⊎◌, Bool, Option, none, some, List, [], ◌∷◌, ◌++◌, leb, if◌then◌else◌, Bytes, All,
  ltb, ◌&&◌, ◌||◌, equal, all_of, ◌==◌, true,
}
use leta.Application.HttpServer.{Exception, HttpMethod, Readings}
use leta.Http.Httplib.{Httplib}
use leta.Http.HttplibServer.{fill_library_error, report_handler_exception, ensure_request_id}
use leta.Http.HttplibServer.Registration.{Registered}

-- A character of a path that no pattern syntax gives a meaning: a letter, a digit or `/`.
abbrev pub is_plain : ℕ → Bool
is_plain c =
    (leb b'a' c && leb c b'z')
    || (leb b'A' c && leb c b'Z')
    || (leb b'0' c && leb c b'9')
    || c == b'/'

abbrev pub has_no_slash : ℕ → Bool
has_no_slash c = ltb c b'/' || ltb b'/' c

-- The texts `before` and `behind`, with a segment between them.
abbrev pub with_segment : Bytes → Bytes → Bytes → Bytes
with_segment before segment behind = before ++ (b'/' ∷ (segment ++ (b'/' ∷ behind)))

-- One request, and what is read outside it while it is answered.
pub record Exchange (library : Httplib) : Type 0 where
  pub readings : Readings
  pub method : HttpMethod
  pub request : Httplib.Request library

module _ (library : Httplib) where
  open library use {
    Request, Response, path, request_body, path_params, request_header, status, body, header,
  }

  -- A handler's outcome, through the exception handler if it threw.
  unfoldable pub settle : Option Exception × Response → Response
  unfolding report_handler_exception
  settle (none, response) = response
  settle (some exception, response) = (report_handler_exception library response exception).1

  -- The error handler where the status asks for it, and then the post-routing handler.
  unfoldable pub finish : ℕ × ℕ → Request → Response → Response
  unfolding fill_library_error ensure_request_id
  finish words request response =
      ensure_request_id library words request
        (if leb 400 (status response) then (fill_library_error library response).1 else response)

  -- A route that does not take a request, by its method or by its path.
  abbrev pub Misses :
      (Bytes → Bytes → Option (List (Bytes × Bytes)))
      → {S : Type 0} → HttpMethod
      → Bytes
      → Registered library S
      → Type 0
  Misses matches method requested route =
      (route.method ≢ method) ⊎ (matches route.pattern requested ≡ none)

  pub record Dispatcher : Type 1 where
    -- whether a pattern matches a path, with the parameters that it captures
    pub matches : Bytes → Bytes → Option (List (Bytes × Bytes))
    pub with_params : List (Bytes × Bytes) → Request → Request
    -- the response that a handler gets
    pub fresh : Response
    pub process :
        {S : Type 0}
        → List (Registered library S)
        → Readings
        → HttpMethod
        → Request
        → S
        → Response × S
    pub path-with_params :
        (ps : List (Bytes × Bytes)) (r : Request) → path (with_params ps r) ≡ path r
    pub request_body-with_params :
        (ps : List (Bytes × Bytes)) (r : Request) → request_body (with_params ps r) ≡ request_body r
    pub request_header-with_params :
        (ps : List (Bytes × Bytes)) (r : Request) (name : Bytes)
        → request_header (with_params ps r) name ≡ request_header r name
    pub path_params-with_params :
        (ps : List (Bytes × Bytes)) (r : Request) → path_params (with_params ps r) ≡ ps
    pub body-fresh : body fresh ≡ []
    pub header-fresh : (name : Bytes) → header fresh name ≡ none
    -- a plain pattern matches itself alone
    pub matches_plain :
        (pattern requested : Bytes)
        → all_of is_plain pattern ≡ true
        → matches pattern requested ≡ (if equal pattern requested then some [] else none)
    -- a segment `:name` captures the one segment that stands in its place, and takes every one that
    -- is not empty
    pub captures :
        (before name behind requested : Bytes) (params : List (Bytes × Bytes))
        → all_of is_plain (before ++ behind) ≡ true
        → all_of (λ c. is_plain c && has_no_slash c) name ≡ true
        → matches (with_segment before (b':' ∷ name) behind) requested ≡ some params
        → (value : Bytes) × (requested ≡ with_segment before value behind)
          × (all_of has_no_slash value ≡ true)
          × (params ≡ (name, value) ∷ [])
    pub captures_every :
        (before name behind value : Bytes)
        → all_of is_plain (before ++ behind) ≡ true
        → all_of (λ c. is_plain c && has_no_slash c) name ≡ true
        → value ≢ []
        → all_of has_no_slash value ≡ true
        → matches (with_segment before (b':' ∷ name) behind) (with_segment before value behind)
          ≡ some ((name, value) ∷ [])
    -- the one route that takes the request answers it
    pub process_routed :
        {S : Type 0} (readings : Readings) (request : Request) (s : S)
        (before : List (Registered library S)) (route : Registered library S)
        (after : List (Registered library S)) (params : List (Bytes × Bytes))
        → All (Misses matches route.method (path request)) before
        → All (Misses matches route.method (path request)) after
        → matches route.pattern (path request) ≡ some params
        → let routed = with_params params request in
          let answer = route.handler readings routed fresh s in
          process (before ++ (route ∷ after)) readings route.method request s
          ≡ (finish readings.words routed (settle answer.0), answer.1)
    -- with no route that takes it, a request is answered with 404
    pub process_unrouted :
        {S : Type 0} (routes : List (Registered library S)) (readings : Readings)
        (method : HttpMethod) (request : Request) (s : S)
        → All (Misses matches method (path request)) routes
        → process routes readings method request s
          ≡ (finish readings.words request (Httplib.set_status library 404 fresh), s)

-- ===== src/Http/HttplibServer/Stream/Serve.antt =====
-- InProcessServer::serve of src/adapters/http/httplib_server.cpp, and serve_raw. What the library's
-- process_request does with the stream is a parameter: a conversation, whose every step may depend on
-- what it has read.
use leta.Prelude.{
  true, none, codes, ℕ, zero, suc, ◌≡◌, refl, ap, sym, ◌∙◌, [], ◌∷◌, ◌++◌, append_assoc, append-nil,
  Bytes, length, take, drop,
}
use leta.Prelude.Text.{drop_add}
use leta.Http.HttplibServer.Stream.{
  MemoryStream, Answers, answers, opened, read, write, take_output,
}

pub data Conversation : Type 0 where
  finished : Conversation
  -- a read of at most so many bytes, and what is done with those that it gives
  receiving : ℕ → (Bytes → Conversation) → Conversation
  sending : Bytes → Conversation → Conversation
  -- a look at the stream, and what is done with its answers
  asking : (Answers → Conversation) → Conversation

-- process_request, on a stream
unfoldable pub process_request : Conversation → MemoryStream → MemoryStream
unfolding read write answers
process_request finished stream = stream
process_request (receiving size next) stream =
    let (buffer, stream') = read size stream in process_request (next buffer) stream'
process_request (sending bytes next) stream = process_request next (write bytes stream).1
process_request (asking next) stream = process_request (next (answers stream)) stream

-- HttplibServer::serve_raw, by InProcessServer::serve
unfoldable pub serve_raw : Conversation → Bytes → Bytes
unfolding process_request take_output
serve_raw conversation request_bytes =
    (take_output (process_request conversation (opened request_bytes))).0

-- A peer at this machine that never keeps the library waiting.
abbrev pub local_peer : Answers
local_peer = record {
  is_readable = true;
  wait_readable = true;
  wait_writable = true;
  remote_ip_and_port = (codes "127.0.0.1", 0);
  local_ip_and_port = (codes "127.0.0.1", 0);
  socket = none;
  duration = 0;
}

-- The reference: a conversation with the bytes that are left to read and with such a peer, and all
-- that it sends.
unfoldable pub sent : Conversation → Bytes → Bytes
sent finished input = []
sent (receiving size next) input = sent (next (take size input)) (drop size input)
sent (sending bytes next) input = bytes ++ sent next input
sent (asking next) input = sent (next local_peer) input

drop-length-take : (n : ℕ) (xs : Bytes) → drop (length (take n xs)) xs ≡ drop n xs
drop-length-take zero xs = refl
drop-length-take (suc n) [] = refl
drop-length-take (suc n) (x ∷ xs) = drop-length-take n xs

process_request-sent :
    (conversation : Conversation) (stream : MemoryStream)
    → (process_request conversation stream).output
      ≡ stream.output ++ sent conversation (drop stream.read_position stream.input)
unfolding process_request read write answers sent
process_request-sent finished stream = sym (append-nil stream.output)
process_request-sent (receiving size next) stream =
    process_request-sent (next (take size unread)) (read size stream).1
    ∙ ap (λ left. stream.output ++ sent (next (take size unread)) left)
        (drop_add stream.read_position (length (take size unread)) stream.input
          ∙ drop-length-take size unread)
  where
    unread : Bytes
    unread = drop stream.read_position stream.input
process_request-sent (sending bytes next) stream =
    process_request-sent next (write bytes stream).1
    ∙ append_assoc stream.output bytes (sent next (drop stream.read_position stream.input))
process_request-sent (asking next) stream = process_request-sent (next local_peer) stream

-- Whatever the library does with the request that it is given, however it splits it into reads and
-- whatever it decides by them and by the stream's other answers: each read gives the next bytes of the
-- request, every look finds a peer at this machine that is ready, and `serve_raw` returns all that was
-- sent, in order, and nothing else.
pub serve_raw_lem :
    (conversation : Conversation) (request_bytes : Bytes)
    → serve_raw conversation request_bytes ≡ sent conversation request_bytes
unfolding serve_raw take_output
serve_raw_lem conversation request_bytes = process_request-sent conversation (opened request_bytes)

-- ===== src/Http/HttplibServer/Stream.antt =====
-- MemoryStream of src/adapters/http/httplib_server.cpp: one request's bytes in, the response's bytes
-- out. The buffer that a read fills is its result.
pub mod Serve
use leta.Prelude.{
  Bool, true, Option, none, codes, ℕ, zero, suc, ◌+◌, ◌≡◌, refl, ap, sym, ◌∙◌, List, [], ◌∷◌, ◌++◌,
  append_assoc, append-nil, Bytes, length, take, drop,
}
use leta.Prelude.Text.{drop_add}

pub record MemoryStream : Type 0 where
  pub input : Bytes
  pub read_position : ℕ
  pub output : Bytes

abbrev pub opened : Bytes → MemoryStream
opened input = record { input = input; read_position = 0; output = [] }

-- MemoryStream::read
unfoldable pub read : ℕ → MemoryStream → Bytes × MemoryStream
read size stream =
    let buffer = take size (drop stream.read_position stream.input) in
    (buffer, record stream { read_position = stream.read_position + length buffer })

-- MemoryStream::write
unfoldable pub write : Bytes → MemoryStream → ℕ × MemoryStream
write bytes stream = (length bytes, record stream { output = stream.output ++ bytes })

-- What the stream answers without being read or written: MemoryStream::is_readable, wait_readable,
-- wait_writable, the addresses of get_remote_ip_and_port and get_local_ip_and_port, socket, which has
-- none, and duration.
pub record Answers : Type 0 where
  pub is_readable : Bool
  pub wait_readable : Bool
  pub wait_writable : Bool
  pub remote_ip_and_port : Bytes × ℕ
  pub local_ip_and_port : Bytes × ℕ
  pub socket : Option ℕ
  pub duration : ℕ

unfoldable pub answers : MemoryStream → Answers
answers stream = record {
  is_readable = true;
  wait_readable = true;
  wait_writable = true;
  remote_ip_and_port = (codes "127.0.0.1", 0);
  local_ip_and_port = (codes "127.0.0.1", 0);
  socket = none;
  duration = 0;
}

-- MemoryStream::take_output
unfoldable pub take_output : MemoryStream → Bytes × MemoryStream
take_output stream = (stream.output, record stream { output = [] })

-- What the library does with a stream: reads of given sizes and writes, in any order.
pub data Access : Type 0 where
  reading : ℕ → Access
  writing : Bytes → Access

-- All that the reads returned, put together, and the stream after them.
unfoldable pub accessed : List Access → MemoryStream → Bytes × MemoryStream
unfolding read write
accessed [] stream = ([], stream)
accessed (reading size ∷ rest) stream =
    let (buffer, stream') = read size stream in
    let (buffers, stream'') = accessed rest stream' in (buffer ++ buffers, stream'')
accessed (writing bytes ∷ rest) stream = accessed rest (write bytes stream).1

unfoldable pub written : List Access → Bytes
written [] = []
written (reading size ∷ rest) = written rest
written (writing bytes ∷ rest) = bytes ++ written rest

take-drop :
    (n p : ℕ) (xs : Bytes)
    → take n (drop p xs) ++ drop (p + length (take n (drop p xs))) xs ≡ drop p xs
take-drop n p xs =
    ap (◌++◌ (take n (drop p xs))) (drop_add p (length (take n (drop p xs))) xs)
    ∙ whole n (drop p xs)
  where
    whole : (n : ℕ) (xs : Bytes) → take n xs ++ drop (length (take n xs)) xs ≡ xs
    whole zero xs = refl
    whole (suc n) [] = refl
    whole (suc n) (x ∷ xs) = ap (◌∷◌ x) (whole n xs)

-- Whatever the sizes of the reads and however writes fall between them, the bytes read so far and
-- those still unread are the input, in order; and the output is what it was and then all that was
-- written, in order.
pub accessed_lem :
    (accesses : List Access) (stream : MemoryStream)
    → let (buffers, after) = accessed accesses stream in
      (buffers ++ drop after.read_position stream.input ≡ drop stream.read_position stream.input)
      × (after.output ≡ stream.output ++ written accesses)
unfolding accessed read write written
accessed_lem [] stream = (refl, sym (append-nil stream.output))
accessed_lem (reading size ∷ rest) stream =
    let (reads, writes) = accessed_lem rest (read size stream).1 in
    (
      append_assoc (take size (drop stream.read_position stream.input)) _ _
          ∙ ap (◌++◌ (take size (drop stream.read_position stream.input))) reads
          ∙ take-drop size stream.read_position stream.input,
      writes,
    )
accessed_lem (writing bytes ∷ rest) stream =
    let (reads, writes) = accessed_lem rest (write bytes stream).1 in
    (reads, writes ∙ append_assoc _ bytes _)

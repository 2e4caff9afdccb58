-- ===== src/Http/Httplib.antt =====
-- The HTTP library that the server stands on, cpp-httplib. It is outside the repository, so it is a
-- parameter: the types of its requests and responses, the calls that the server makes on them, and
-- what those calls are documented to do: a header set is there, other headers and the body stay as
-- they were, and a body set is the body.
use leta.Prelude.{ℕ, ◌≡◌, ◌≢◌, Option, some, List, Bytes, codes}

pub record Httplib : Type 1 where
  pub Request : Type 0
  pub Response : Type 0
  -- request.path, request.body, request.path_params
  pub path : Request → Bytes
  pub request_body : Request → Bytes
  pub path_params : Request → List (Bytes × Bytes)
  -- request.get_header_value(name), which is empty where there is none
  pub request_header : Request → Bytes → Bytes
  -- response.status, response.body, and the header of a name, if there is one
  pub status : Response → ℕ
  pub body : Response → Bytes
  pub header : Response → Bytes → Option Bytes
  -- response.status = …, response.set_content(body, content_type), response.set_header(name, value)
  pub set_status : ℕ → Response → Response
  pub set_content : Bytes → Bytes → Response → Response
  pub set_header : Bytes → Bytes → Response → Response
  pub status-set_status : (n : ℕ) (r : Response) → status (set_status n r) ≡ n
  pub header-set_status :
      (n : ℕ) (r : Response) (name : Bytes) → header (set_status n r) name ≡ header r name
  pub body-set_status : (n : ℕ) (r : Response) → body (set_status n r) ≡ body r
  pub status-set_content : (b t : Bytes) (r : Response) → status (set_content b t r) ≡ status r
  pub body-set_content : (b t : Bytes) (r : Response) → body (set_content b t r) ≡ b
  -- set_content writes the Content-Type header only
  pub header-set_content :
      (b t : Bytes) (r : Response) (name : Bytes)
      → name ≢ codes "Content-Type"
      → header (set_content b t r) name ≡ header r name
  pub header-set_header :
      (name value : Bytes) (r : Response) → header (set_header name value r) name ≡ some value
  pub body-set_header :
      (name value : Bytes) (r : Response) → body (set_header name value r) ≡ body r
  pub status-set_header :
      (name value : Bytes) (r : Response) → status (set_header name value r) ≡ status r

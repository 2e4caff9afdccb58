-- ===== src/Http/HttplibServer/Lifecycle.antt =====
-- src/adapters/http/httplib_server.cpp: construction, `bind` and `run`. What the library answers to
-- bind_to_any_port, bind_to_port and listen_after_bind is an argument.
use mathlib.Core.Bool.{false≢true}
use leta.Prelude.{
  ◌≢◌, ◌≡◌, sym, ◌∙◌, refl, ==_iff, Bool-cases, true, false, ℕ, ◌%◌, ◌^◌, ℤ, pos, negsuc, Bool, not,
  ◌++◌, ◌==◌, if◌then◌else◌, Bytes, codes, ◌⊎◌, inl, inr,
}
use leta.Prelude.Decimal.{to_string}
use leta.Core.Error.{Result, ok, err, failure, error_type}
use leta.Core.Error as Core
use leta.Application.HttpServer.{HttpServerOptions}

-- The settings that the constructor makes in the library.
pub record Settings : Type 0 where
  pub base_threads : ℕ
  pub max_threads : ℕ
  pub payload_max_length : ℕ
  pub read_timeout : ℕ
  pub write_timeout : ℕ

-- configure_worker_pool and configure_limits, as HttplibServer::HttplibServer calls them: the `what()`
-- of the exception, or the settings
unfoldable pub configure : HttpServerOptions → Bytes ⊎ Settings
configure options =
    if options.worker_threads == 0
    then inl (codes "worker_threads must be at least 1")
    else inr (record {
      base_threads = options.worker_threads;
      max_threads = options.worker_threads;
      payload_max_length = options.max_body_bytes;
      read_timeout = options.read_timeout;
      write_timeout = options.write_timeout;
    })

-- cannot_listen_message
unfoldable pub cannot_listen_message : Bytes → ℕ → Bytes
cannot_listen_message host port =
    codes "Cannot listen on " ++ (host ++ (codes ":" ++ (to_string port ++ codes ".")))

-- static_cast<std::uint16_t>
abbrev pub to_uint16 : ℕ → ℕ
to_uint16 n = n % 2 ^ 16

-- HttplibServer::bind
unfoldable pub bind : (Bytes → ℤ) → (Bytes → ℕ → Bool) → Bytes → ℕ → Result ℕ
bind bind_to_any_port bind_to_port host port =
    if port == 0
    then any (bind_to_any_port host)
    else if not (bind_to_port host port)
    then failure Core.ErrorCode.internal (cannot_listen_message host port)
    else ok port
  where
    any : ℤ → Result ℕ
    any (negsuc n) = failure Core.ErrorCode.internal (cannot_listen_message host port)
    any (pos bound_port) = ok (to_uint16 bound_port)

-- HttplibServer::run
unfoldable pub run : Bool → Result (Unit {0})
run listened =
    if not listened
    then failure Core.ErrorCode.internal
        (codes "The HTTP listener failed while accepting connections.")
    else ok tt

module _ (bind_to_any_port : Bytes → ℤ) (bind_to_port : Bytes → ℕ → Bool) (host : Bytes)
    (port : ℕ) where
  -- What `bind` returns, by what was asked for and what the library answers.
  pub data Bound (result : Result ℕ) : Type 0 where
    requested : port ≢ 0 → bind_to_port host port ≡ true → result ≡ ok port → Bound result
    chosen :
        (bound_port : ℕ)
        → port ≡ 0
        → bind_to_any_port host ≡ pos bound_port
        → result ≡ ok (to_uint16 bound_port)
        → Bound result
    refused :
        (port ≢ 0 → bind_to_port host port ≡ false)
        → (port ≡ 0 → (n : ℕ) × (bind_to_any_port host ≡ negsuc n))
        → result ≡ failure Core.ErrorCode.internal (cannot_listen_message host port)
        → Bound result

  -- `bind` returns the port asked for if the library has bound it; for port 0, the port that the
  -- library chose, as a 16-bit number; and otherwise `internal` with the message that names the
  -- address.
  bind_lem : Bound (bind bind_to_any_port bind_to_port host port)
  unfolding bind
  bind_lem = elim (Bool-cases (port == 0)) [
    | inl any ↦ elim (answered (bind_to_any_port host)) [
      | inl (n, none_bound) ↦
          refused (λ other. absurd (other ((==_iff port 0).0 any))) (λ zero_port. (n, none_bound))
            (rw any (rw none_bound refl))
      | inr (n, bound) ↦ chosen n ((==_iff port 0).0 any) bound (rw any (rw bound refl))
    ]
    | inr given ↦
        let other : port ≢ 0 = λ e. absurd (false≢true (sym given ∙ (==_iff port 0).1 e)) in
        elim (Bool-cases (bind_to_port host port)) [
          | inl bound ↦ requested other bound (rw (given, bound) refl)
          | inr busy ↦
              refused (λ given. busy) (λ zero_port. absurd (other zero_port))
                (rw (given, busy) refl)
        ]
  ]
    where
      answered : (z : ℤ) → ((n : ℕ) × (z ≡ negsuc n)) ⊎ ((n : ℕ) × (z ≡ pos n))
      answered (negsuc n) = inl (n, refl)
      answered (pos n) = inr (n, refl)

-- ===== src/Startup/Arguments.antt =====
-- src/main.cpp, `main`: what the arguments of the process decide.
use mathlib.Core.Bool.{false≢true}
use leta.Prelude.{
  ap, ◌≡◌, refl, sym, ◌∙◌, Bool, true, false, List, [], ◌∷◌, Bytes, ◌⊎◌, inl, inr, arith, equal,
  equal_iff, Bool-cases,
}
use leta.Http.Simdjson.{Simdjson}
use leta.Http.Httplib.{Httplib}
use leta.Http.HttplibServer.Dispatch.{Dispatcher}
use leta.Http.HttplibServer.Port.{Listener}
use leta.Startup.{BuildInfo, version_flag}
use leta.Startup.Serving.{Exited, main}
use leta.Startup.Lifetime.{is_bound, listened, said, serve_lem, ready_while_serving}

-- The arguments that ask for the version.
abbrev pub AsksVersion : List Bytes → Type 0
AsksVersion argv = (program : Bytes) × (argv ≡ program ∷ version_flag ∷ [])

-- No argument but the program's name.
abbrev pub IsBare : List Bytes → Type 0
IsBare argv = (program : Bytes) × (argv ≡ program ∷ [])

stopped_only :
    (bound : Bool) (end : Bytes ⊎ Bool) → (said bound end).0 ≡ 0 → (bound ≡ true) × (end ≡ inr true)
stopped_only false end zero_status = absurd (omega arith)
stopped_only true (inr true) zero_status = (refl, refl)
stopped_only true (inr false) zero_status = absurd (omega arith)
stopped_only true (inl what) zero_status = absurd (omega arith)

module _ (json : Simdjson) (library : Httplib) (dispatcher : Dispatcher library)
    (listener : Listener library) (socket : Listener.Socket listener) where
  -- The service is ready in the end only in a process without arguments whose server has bound its port;
  -- and the exit status is 0 only if the version was asked for, or if such a server was stopped without
  -- an error.
  pub main_lem :
      (info : BuildInfo) (argv : List Bytes)
      → let exited = main json library dispatcher listener info argv socket in
        (exited.services.health.is_available ≡ true
          → IsBare argv × (is_bound json library dispatcher listener socket ≡ true))
        × (exited.status ≡ 0
            → AsksVersion argv
              ⊎ (IsBare argv
                  × (is_bound json library dispatcher listener socket ≡ true)
                  × (listened json library dispatcher listener socket ≡ inr true)))
  unfolding main
  main_lem info [] = (λ up. absurd (false≢true up), λ zero_status. absurd (omega arith))
  main_lem info (program ∷ []) =
      let whole = serve_lem json library dispatcher listener socket in
      (
        λ up. (
          (program, refl),
          sym (ready_while_serving json library dispatcher listener socket).0 ∙ up,
        ),
        λ zero_status.
            let (bound, stopped) =
              stopped_only _ _ (sym (ap (λ (e : Exited). e.status) whole) ∙ zero_status) in
            inr ((program, refl), bound, stopped),
      )
  main_lem info (program ∷ argument ∷ []) = elim (Bool-cases (equal argument version_flag)) [
    | inl same ↦ rw same (
      λ up. absurd (false≢true up),
      λ zero_status.
          inl (program, ap (λ a. program ∷ a ∷ []) ((equal_iff argument version_flag).0 same)),
    )
    | inr other ↦ rw other (λ up. absurd (false≢true up), λ zero_status. absurd (omega arith))
  ]
  main_lem info (program ∷ argument ∷ more ∷ rest) =
      (λ up. absurd (false≢true up), λ zero_status. absurd (omega arith))

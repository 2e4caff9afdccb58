-- ===== src/Tests/Dispatch.antt =====
-- A concrete dispatcher: patterns matched character by character, and the first route that takes a
-- request.
use leta.Prelude.{
  ◌≡◌, ◌≢◌, inl, inr, refl, ap, sym, ◌∙◌, Bool, true, false, Option, none, some, List, [], ◌∷◌,
  ◌++◌, append-nil, if◌then◌else◌, Bytes, All, Bool-cases,
}
use leta.Application.HttpServer.{HttpMethod, get, post, Readings}
use leta.Http.HttplibServer.Registration.{Registered}
use leta.Http.HttplibServer.Dispatch.{settle, finish, Misses, Dispatcher}
use leta.Tests.Toy.{ToyRequest, ToyResponse, toy_library, fresh_response}
use leta.Tests.Patterns.{Params, match_plain, matches, matches_captures, matches_every}

abbrev is_same : HttpMethod → HttpMethod → Bool
is_same get get = true
is_same post post = true
is_same _ _ = false

is_same_refl : (m : HttpMethod) → is_same m m ≡ true
is_same_refl get = refl
is_same_refl post = refl

is_same-ne : (m n : HttpMethod) → m ≢ n → is_same m n ≡ false
is_same-ne get get differ = absurd (differ refl)
is_same-ne post post differ = absurd (differ refl)
is_same-ne get post differ = refl
is_same-ne post get differ = refl

module _ (S : Type 0) (method : HttpMethod) (requested : Bytes) where
  abbrev pub Route : Type 0
  Route = Registered toy_library S

  pub select : List Route → Option (Route × Params)
  select [] = none
  select (route ∷ rest) =
      let later = select rest in
      if is_same route.method method
      then elim (matches route.pattern requested) [
        | none ↦ later
        | some params ↦ some (route, params)
      ]
      else later

  select-Misses :
      (missed rest : List Route)
      → All (Misses toy_library matches method requested) missed
      → select (missed ++ rest) ≡ select rest
  unfolding select
  select-Misses [] rest h = refl
  select-Misses (route ∷ missed) rest h = elim h.0 [
    | inl other ↦ rw (is_same-ne route.method method other) (select-Misses missed rest h.1)
    | inr no_match ↦ elim (Bool-cases (is_same route.method method)) [
      | inl same ↦ rw same (rw no_match (select-Misses missed rest h.1))
      | inr other ↦ rw other (select-Misses missed rest h.1)
    ]
  ]

abbrev pub with_captured : Params → ToyRequest → ToyRequest
with_captured params request = record request { params = params }

abbrev pub answered :
    {S : Type 0}
    → Option (Registered toy_library S × Params)
    → Readings
    → ToyRequest
    → S
    → ToyResponse × S
answered none readings request s =
    (finish toy_library readings.words request (record fresh_response { status = 404 }), s)
answered (some (route, params)) readings request s =
    let routed = with_captured params request in
    let answer = route.handler readings routed fresh_response s in
    (finish toy_library readings.words routed (settle toy_library answer.0), answer.1)

pub routed :
    {S : Type 0} (readings : Readings) (request : ToyRequest) (s : S)
    (before : List (Registered toy_library S)) (route : Registered toy_library S)
    (after : List (Registered toy_library S)) (params : Params)
    → All (Misses toy_library matches route.method request.path) before
    → All (Misses toy_library matches route.method request.path) after
    → matches route.pattern request.path ≡ some params
    → answered (select S route.method request.path (before ++ (route ∷ after))) readings request s
      ≡ answered (some (route, params)) readings request s
unfolding select
routed readings request s before route after params missed_before missed_after matched =
    rw
      (
        select-Misses _ route.method request.path before (route ∷ after) missed_before,
        is_same_refl route.method,
      )
      (rw matched refl)

pub unrouted :
    {S : Type 0} (routes : List (Registered toy_library S)) (readings : Readings)
    (method : HttpMethod) (request : ToyRequest) (s : S)
    → All (Misses toy_library matches method request.path) routes
    → answered (select S method request.path routes) readings request s
      ≡ answered none readings request s
unfolding select
unrouted routes readings method request s missed =
    ap (λ found. answered found readings request s)
      (ap (select _ method request.path) (sym (append-nil routes))
        ∙ select-Misses _ method request.path routes [] missed)

abbrev pub toy_dispatcher : Dispatcher toy_library
toy_dispatcher = record {
  matches = matches;
  with_params = with_captured;
  fresh = fresh_response;
  process = λ routes readings method request s.
      answered (select _ method request.path routes) readings request s;
  path-with_params = λ ps r. refl;
  request_body-with_params = λ ps r. refl;
  request_header-with_params = λ ps r name. refl;
  path_params-with_params = λ ps r. refl;
  body-fresh = refl;
  header-fresh = λ name. refl;
  matches_plain = match_plain;
  captures = matches_captures;
  captures_every = matches_every;
  process_routed = routed;
  process_unrouted = unrouted;
}

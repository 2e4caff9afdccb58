-- ===== src/Application/HealthService.antt =====
-- src/application/health_service.hpp and health_service.cpp: the readiness flag. A step of any thread
-- reads it or sets it; none clears it.
use leta.Prelude.{◌≡◌, refl, Bool, true, false, List, [], ◌∷◌, Bool-cases, ◌⊎◌, inl, inr}

-- enum class Readiness
pub data Readiness : Type 0 where
  starting available : Readiness

pub record HealthService : Type 0 where
  pub is_available : Bool

-- a new service
abbrev pub initial : HealthService
initial = record { is_available = false }

-- HealthService::readiness
unfoldable pub readiness : HealthService → Readiness
readiness health = elim health.is_available [ true ↦ available | false ↦ starting ]

-- HealthService::mark_available
unfoldable pub mark_available : HealthService → HealthService
mark_available health = record health { is_available = true }

-- The calls that any threads make on one service, in the order in which they take effect.
pub data Call : Type 0 where
  read_readiness mark : Call

-- The answers of the reads, from first to last.
unfoldable pub answers : HealthService → List Call → List Readiness
answers health [] = []
answers health (read_readiness ∷ calls) = readiness health ∷ answers health calls
answers health (mark ∷ calls) = answers (mark_available health) calls

-- Once a read has answered `available`, every later read does.
abbrev pub AllAvailable : List Readiness → Type 0
AllAvailable [] = Unit
AllAvailable (r ∷ rest) = (r ≡ available) × AllAvailable rest

abbrev pub NeverReverts : List Readiness → Type 0
NeverReverts [] = Unit
NeverReverts (starting ∷ rest) = NeverReverts rest
NeverReverts (available ∷ rest) = AllAvailable rest

marked_available :
    (health : HealthService) (calls : List Call)
    → health.is_available ≡ true
    → AllAvailable (answers health calls)
unfolding answers readiness mark_available
marked_available health [] h = tt
marked_available health (read_readiness ∷ calls) h = (rw h refl, marked_available health calls h)
marked_available health (mark ∷ calls) h = marked_available (mark_available health) calls refl

readiness-cases :
    (health : HealthService)
    → ((readiness health ≡ available) × (health.is_available ≡ true))
      ⊎ (readiness health ≡ starting)
unfolding readiness
readiness-cases health = elim (Bool-cases health.is_available) [
  | inl up ↦ inl (rw up refl, up)
  | inr down ↦ inr (rw down refl)
]

never : (health : HealthService) (calls : List Call) → NeverReverts (answers health calls)
unfolding answers
never health [] = tt
never health (mark ∷ calls) = never (mark_available health) calls
never health (read_readiness ∷ calls) = elim (readiness-cases health) [
  | inl (answered, up) ↦ rw answered (marked_available health calls up)
  | inr answered ↦ rw answered (never health calls)
]

-- However the reads and the marks of the threads interleave, once a read of the readiness answers
-- `available`, no later read answers `starting`; and from a mark on every read answers `available`.
pub readiness-NeverReverts :
    (health : HealthService) (calls : List Call)
    → NeverReverts (answers health calls) × AllAvailable (answers (mark_available health) calls)
readiness-NeverReverts health calls = (
  never health calls,
  marked_available (mark_available health) calls (unfold mark_available in refl),
)

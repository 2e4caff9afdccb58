-- ===== src/Startup/Clock.antt =====
-- src/main.cpp, `system_clock_now`. The reading of std::chrono::system_clock, in its ticks since
-- 1970-01-01, is an argument, and so is how many of them make a millisecond.
use native.Mathlib.Nat.{le-div_iff_mul-le, div-mul-le_self}
use leta.Prelude.{ℕ, ◌/◌, ◌≤◌, ◌<◌, ℤ, pos, negsuc, arith}
use leta.Core.IndexMetadata.{Timestamp}

-- std::chrono::floor<milliseconds>, which rounds instants before 1970 down as well
unfoldable pub system_clock_now : ℕ → ℤ → Timestamp
system_clock_now ticks (pos t) = pos (t / ticks)
system_clock_now ticks (negsuc t) = negsuc (t / ticks)

-- The order of instants.
abbrev IsBefore : ℤ → ℤ → Type 0
IsBefore (pos m) (pos n) = m ≤ n
IsBefore (pos m) (negsuc n) = ⊥
IsBefore (negsuc m) (pos n) = Unit
IsBefore (negsuc m) (negsuc n) = n ≤ m

div_mono : (ticks m n : ℕ) → 0 < ticks → m ≤ n → m / ticks ≤ n / ticks
div_mono ticks m n positive h =
    (le-div_iff_mul-le positive).1 (omega (arith, div-mul-le_self m ticks, h))

-- A clock that does not go back gives timestamps that do not go back.
system_clock_now-IsBefore :
    (ticks : ℕ) (earlier later : ℤ)
    → 0 < ticks
    → IsBefore earlier later
    → IsBefore (system_clock_now ticks earlier) (system_clock_now ticks later)
unfolding system_clock_now
system_clock_now-IsBefore ticks (pos m) (pos n) positive h = div_mono ticks m n positive h
system_clock_now-IsBefore ticks (pos m) (negsuc n) positive h = elim h [ ]
system_clock_now-IsBefore ticks (negsuc m) (pos n) positive h = tt
system_clock_now-IsBefore ticks (negsuc m) (negsuc n) positive h = div_mono ticks n m positive h

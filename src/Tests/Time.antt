-- ===== src/Tests/Time.antt =====
-- A cooldown of a minute, its keys numbers.
use mathlib.Core.Logic.{ite}
use mathlib.Core.Path.{subst}
use native.Mathlib.Decide.{ℕ_discrete}
use voltmod.Time.Cooldown.{
  Cooldown, left_of, seconds_left, seconds_left_of, start, try_start, try_start_of, reset,
  without_expired, remove_expired,
}
use voltmod.Time.Cooldown.Answers.{InTime, Time}
use voltmod.Time.Cooldown.Apart.{Try, run_tries, TooSoon, try_start_apart}
use voltmod.Common.{
  ◌≡◌, refl, true, false, ◌||◌, none, some, [], ◌∷◌, arith, All, ℤ, pos, negsuc, ◌+ℤ◌, ◌-ℤ◌, ltb_ℤ,
  leb_ℤ, find_key, erase_key,
}

abbrev minute : Cooldown ℕ_discrete
minute = record { seconds = pos 60; started_at = (7, pos 100) ∷ [] }

still_running : seconds_left_of ℕ_discrete minute 7 (pos 130) ≡ some (pos 30)
unfolding ℕ_discrete seconds_left_of seconds_left left_of find_key ◌-ℤ◌
still_running = refl

blocked : try_start_of ℕ_discrete minute 7 (pos 130) ≡ some (minute, false)
unfolding ℕ_discrete try_start_of try_start seconds_left left_of find_key ◌-ℤ◌
blocked = refl

-- A time and a start whose difference no `int64_t` holds.
overflown : try_start_of ℕ_discrete minute 7 (negsuc 9223372036854775807) ≡ none
unfolding ℕ_discrete try_start_of try_start seconds_left left_of find_key ◌-ℤ◌
overflown = refl

expired :
    remove_expired ℕ_discrete minute (pos 1000) (pos 60) ≡ some (record minute { started_at = [] })
unfolding remove_expired without_expired ◌-ℤ◌
expired = refl

forgotten : (reset ℕ_discrete minute 7).started_at ≡ []
unfolding ℕ_discrete reset erase_key
forgotten = refl

-- ---- a try that passes, one of the key and one of another key behind it, and a late one
abbrev restarted : Cooldown ℕ_discrete
restarted = start ℕ_discrete minute 7 (pos 200)

only_start : {P : Type 0} (d : Dec P) {t : ℤ} → ite d (some (pos 100)) none ≡ some t → Time t
only_start (yes h) {t} e = let same : pos 100 ≡ t = cc in subst Time same (omega arith, omega arith)
only_start (no h) e = cc

minute-InTime : InTime ℕ_discrete minute
unfolding find_key
minute-InTime k t e = only_start (ℕ_discrete 7 k) e

passes : try_start ℕ_discrete minute 7 (pos 200) (pos 60) ≡ some (restarted, true)
unfolding ℕ_discrete try_start seconds_left left_of find_key ◌-ℤ◌
passes = refl

abbrev early : Try ℕ_discrete
early = record { key = 7; now = pos 230; seconds = pos 60 }

abbrev elsewhere : Try ℕ_discrete
elsewhere = record { key = 8; now = pos 240; seconds = pos 60 }

too_soon : All (TooSoon ℕ_discrete 7 (pos 200)) (early ∷ elsewhere ∷ [])
unfolding ◌+ℤ◌
too_soon = (((omega arith, omega arith), λ e. refl), (((omega arith, omega arith), λ e. refl), tt))

try_start_apart_example :
    (c1 : Cooldown ℕ_discrete) × (c2 : Cooldown ℕ_discrete) × (run_tries ℕ_discrete
        (early ∷ elsewhere ∷ [])
        restarted
      ≡ some c1)
    × (try_start ℕ_discrete c1 7 (pos 259) (pos 60)
        ≡ some (c2, ltb_ℤ (pos 259) (pos 200) || leb_ℤ (pos 200 +ℤ pos 60) (pos 259)))
try_start_apart_example =
    try_start_apart ℕ_discrete minute restarted 7 (pos 200) (pos 60) (early ∷ elsewhere ∷ [])
      (pos 259) (pos 60) minute-InTime (omega arith, omega arith) (omega arith, omega arith) passes
      too_soon

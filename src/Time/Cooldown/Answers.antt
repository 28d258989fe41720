-- ===== src/Time/Cooldown/Answers.antt =====
-- What a try of include/VoltMod/Core/Time/Cooldown.hpp answers, by what has started.
use voltmod.Time.Cooldown.{Cooldown, sub_int64, left_of, seconds_left, start, try_start}
use voltmod.Strings.Numbers.{int64_max}
use mathlib.Core.Path.{subst}
use voltmod.Common.{
  ◌≡◌, refl, sym, ap, ◌∙◌, ◌≢◌, ◌⊎◌, inl, inr, Bool, true, false, not, ◌||◌, Option, none, some,
  arith, if◌then◌else◌, Bool-cases, Option-cases, ℤ, pos, ◌+ℤ◌, ◌-ℤ◌, ◌≤ℤ◌, ltb_ℤ, leb_ℤ, find_key,
  find_key_put,
}

-- A time from 0 to the last second of an `int64_t`.
abbrev pub Time : ℤ → Type 0
Time t = (pos 0 ≤ℤ t) × (t ≤ℤ pos int64_max)

sub_int64_fits : (a b : ℤ) → Time a → Time b → sub_int64 a b ≡ some (a -ℤ b)
unfolding ◌-ℤ◌
sub_int64_fits a b h h' = ground arith

-- Whether a length behind a start is over, or the clock is back before the start.
abbrev pub is_free : ℤ → ℤ → ℤ → Bool
is_free seconds started now = ltb_ℤ now started || leb_ℤ (started +ℤ seconds) now

gone :
    (seconds started now : ℤ)
    → is_free seconds started now ≡ true
    → (ltb_ℤ (now -ℤ started) (pos 0) || leb_ℤ seconds (now -ℤ started)) ≡ true
unfolding ◌-ℤ◌ ◌+ℤ◌
gone seconds started now q = ground arith

stays :
    (seconds started now : ℤ)
    → is_free seconds started now ≡ false
    → (ltb_ℤ (now -ℤ started) (pos 0) || leb_ℤ seconds (now -ℤ started)) ≡ false
unfolding ◌-ℤ◌ ◌+ℤ◌
stays seconds started now q = ground arith

above :
    (seconds started now : ℤ)
    → is_free seconds started now ≡ false
    → ltb_ℤ (pos 0) (seconds -ℤ (now -ℤ started)) ≡ true
unfolding ◌-ℤ◌ ◌+ℤ◌
above seconds started now q = ground arith

module _ {K : Type 0} (dec : Discrete K) where
  -- Every start is a time.
  abbrev pub InTime : Cooldown dec → Type 0
  InTime c = (k : K) (t : ℤ) → find_key dec k c.started_at ≡ some t → Time t

  left_positive :
      (seconds started now : ℤ)
      → Time started
      → Time now
      → leb_ℤ seconds (pos 0) ≡ false
      → (left : ℤ) × (left_of seconds (sub_int64 now started) ≡ some left)
        × (ltb_ℤ (pos 0) left ≡ not (is_free seconds started now))
  unfolding left_of
  left_positive seconds started now h h' s =
      let fits = sub_int64_fits now started h' h in
      elim (Bool-cases (is_free seconds started now)) [
        | inl q ↦
            let over : (ltb_ℤ (now -ℤ started) (pos 0) || leb_ℤ seconds (now -ℤ started)) ≡ true =
              gone seconds started now q in
            (pos 0, rw (fits, over), rw q)
        | inr q ↦
            let runs : (ltb_ℤ (now -ℤ started) (pos 0) || leb_ℤ seconds (now -ℤ started)) ≡ false =
              stays seconds started now q in
            (seconds -ℤ (now -ℤ started), rw (fits, runs), rw q (above seconds started now q))
      ]

  free_any :
      (seconds started now : ℤ) → leb_ℤ seconds (pos 0) ≡ true → is_free seconds started now ≡ true
  unfolding ◌+ℤ◌
  free_any seconds started now h = ground arith

  -- What a try of a key that has started gives.
  abbrev pub answer : Cooldown dec → K → ℤ → Bool → Option (Cooldown dec × Bool)
  answer c key now free = if free then some (start dec c key now, true) else some (c, false)

  pub try_start_later :
      (c : Cooldown dec) (key : K) (started now seconds : ℤ)
      → Time started
      → Time now
      → find_key dec key c.started_at ≡ some started
      → try_start dec c key now seconds ≡ answer c key now (is_free seconds started now)
  unfolding try_start seconds_left
  try_start_later c key started now seconds t n e = elim (Bool-cases (leb_ℤ seconds (pos 0))) [
    | inl q ↦ simp (q, free_any seconds started now q) refl
    | inr q ↦
        let (left, l, p) = left_positive seconds started now t n q in
        elim (Bool-cases (is_free seconds started now)) [
          | inl f ↦
              let over : ltb_ℤ (pos 0) left ≡ false = p ∙ ap not f in simp (q, e, l, over, f) refl
          | inr f ↦
              let runs : ltb_ℤ (pos 0) left ≡ true = p ∙ ap not f in simp (q, e, l, runs, f) refl
        ]
  ]

  pub try_start_first :
      (c : Cooldown dec) (key : K) (now seconds : ℤ)
      → find_key dec key c.started_at ≡ none
      → try_start dec c key now seconds ≡ some (start dec c key now, true)
  unfolding try_start seconds_left
  try_start_first c key now seconds e = elim (Bool-cases (leb_ℤ seconds (pos 0))) [
    | inl q ↦ simp q refl
    | inr q ↦ simp (q, e) refl
  ]

  -- A try answers, and changes nothing or starts its key.
  unfoldable pub Answers : Cooldown dec → K → ℤ → Option (Cooldown dec × Bool) → Type 0
  Answers c key now o =
      (c' : Cooldown dec) × (passed : Bool) × (o ≡ some (c', passed))
      × ((c' ≡ c) ⊎ (c' ≡ start dec c key now))

  answer-Answers :
      (c : Cooldown dec) (key : K) (now : ℤ) (free : Bool)
      → Answers c key now (answer c key now free)
  unfolding Answers
  answer-Answers c key now true = (start dec c key now, true, refl, inr refl)
  answer-Answers c key now false = (c, false, refl, inl refl)

  pub try_start-Answers :
      (c : Cooldown dec) (key : K) (now seconds : ℤ)
      → InTime c
      → Time now
      → Answers c key now (try_start dec c key now seconds)
  try_start-Answers c key now seconds h n = elim (Option-cases (find_key dec key c.started_at)) [
    | inl e ↦ rw (try_start_first c key now seconds e) (answer-Answers c key now true)
    | inr (t, e) ↦
        rw (try_start_later c key t now seconds (h key t e) n e)
          (answer-Answers c key now (is_free seconds t now))
  ]

  pub start-InTime :
      (c : Cooldown dec) (key : K) (now : ℤ) → InTime c → Time now → InTime (start dec c key now)
  unfolding start
  start-InTime c key now h n k t e = elim (find_key_put dec key k now c.started_at) [
    | inl q ↦ let same : now ≡ t = cc in subst Time same n
    | inr q ↦ h k t (sym (q.1) ∙ e)
  ]

  pub start_other :
      (c : Cooldown dec) (key k : K) (now : ℤ) {o : Option ℤ}
      → (key ≢ k)
      → find_key dec k c.started_at ≡ o
      → find_key dec k (start dec c key now).started_at ≡ o
  unfolding start
  start_other c key k now n e = elim (find_key_put dec key k now c.started_at) [
    | inl q ↦ absurd (n (q.0))
    | inr q ↦ q.1 ∙ e
  ]

  pub start_same :
      (c : Cooldown dec) (key : K) (now : ℤ)
      → find_key dec key (start dec c key now).started_at ≡ some now
  unfolding start
  start_same c key now = elim (find_key_put dec key key now c.started_at) [
    | inl q ↦ q.1
    | inr q ↦ absurd (q.0 refl)
  ]

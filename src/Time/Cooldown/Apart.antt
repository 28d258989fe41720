-- ===== src/Time/Cooldown/Apart.antt =====
-- How far apart include/VoltMod/Core/Time/Cooldown.hpp keeps the starts of a key.
use voltmod.Time.Cooldown.{Cooldown, start, try_start}
use mathlib.Core.Path.{subst}
use voltmod.Time.Cooldown.Answers.{
  Time, is_free, InTime, answer, try_start_later, try_start_first, Answers, try_start-Answers,
  start-InTime, start_other, start_same,
}
use voltmod.Common.{
  ◌≡◌, refl, sym, ap, ◌∙◌, inl, inr, Bool, true, false, ◌||◌, Option, none, some, List, [], ◌∷◌,
  Option-cases, All, ℤ, ◌+ℤ◌, ltb_ℤ, leb_ℤ, find_key,
}

module _ {K : Type 0} (dec : Discrete K) where
  -- A call of `TryStart`.
  pub record Try : Type 0 where
    pub key : K
    pub now : ℤ
    pub seconds : ℤ

  abbrev pub run_after :
      Option (Cooldown dec × Bool) → (Cooldown dec → Option (Cooldown dec)) → Option (Cooldown dec)
  run_after none f = none
  run_after (some (c, passed)) f = f c

  unfoldable pub run_tries : List Try → Cooldown dec → Option (Cooldown dec)
  run_tries [] c = some c
  run_tries (t ∷ ts) c = run_after (try_start dec c t.key t.now t.seconds) (run_tries ts)

  -- A try of the key comes while the cooldown that started then runs, and not before it.
  abbrev pub TooSoon : K → ℤ → Try → Type 0
  TooSoon key started t = Time t.now × (t.key ≡ key → is_free t.seconds started t.now ≡ false)

  -- The key has started, and every start is a time.
  abbrev Running : K → ℤ → Cooldown dec → Type 0
  Running key started c = InTime dec c × (find_key dec key c.started_at ≡ some started)

  Next : K → ℤ → Option (Cooldown dec × Bool) → Type 0
  Next key started o =
      (c : Cooldown dec) × (passed : Bool) × (o ≡ some (c, passed)) × Running key started c

  try_start-Next :
      (c : Cooldown dec) (key : K) (started : ℤ) (t : Try)
      → Time started
      → TooSoon key started t
      → Running key started c
      → Next key started (try_start dec c t.key t.now t.seconds)
  unfolding Next Answers
  try_start-Next c key started t s h r = elim (dec t.key key) [
    | yes same ↦
        let found : find_key dec t.key c.started_at ≡ some started =
          ap (λ k. find_key dec k c.started_at) same ∙ r.1 in
        let refused = h.1 same in
        (
          c,
          false,
          try_start_later dec c t.key started t.now t.seconds s (h.0) found
              ∙ ap (answer dec c t.key t.now) refused,
          r,
        )
    | no other ↦
        let (c', passed, e, either) = try_start-Answers dec c t.key t.now t.seconds (r.0) (h.0) in
        elim either [
          | inl q ↦ (c', passed, e, subst (Running key started) (sym q) r)
          | inr q ↦ (
            c',
            passed,
            e,
            subst (Running key started) (sym q) (
              start-InTime dec c t.key t.now (r.0) (h.0),
              start_other dec c t.key key t.now other (r.1),
            ),
          )
        ]
  ]

  run_tries-Running :
      (ts : List Try) (c : Cooldown dec) (key : K) (started : ℤ)
      → Time started
      → All (TooSoon key started) ts
      → Running key started c
      → (c' : Cooldown dec) × (run_tries ts c ≡ some c') × Running key started c'
  unfolding run_tries Next
  run_tries-Running [] c key started s h r = (c, refl, r)
  run_tries-Running (t ∷ ts) c key started s h r =
      let (c', passed, e, r') = try_start-Next c key started t s (h.0) r in
      let (c'', e', r'') = run_tries-Running ts c' key started s (h.1) r' in (c'', rw e e', r'')

  answer_passed :
      (c c' : Cooldown dec) (key : K) (now : ℤ) (free : Bool)
      → answer dec c key now free ≡ some (c', true)
      → c' ≡ start dec c key now
  answer_passed c c' key now true e = cc
  answer_passed c c' key now false e = cc

  started_when_passed :
      (c c' : Cooldown dec) (key : K) (now seconds : ℤ)
      → InTime dec c
      → Time now
      → try_start dec c key now seconds ≡ some (c', true)
      → c' ≡ start dec c key now
  started_when_passed c c' key now seconds h n e =
      elim (Option-cases (find_key dec key c.started_at)) [
        | inl q ↦
            answer_passed c c' key now true (sym (try_start_first dec c key now seconds q) ∙ e)
        | inr (t, q) ↦
            answer_passed c c' key now (is_free seconds t now)
              (sym (try_start_later dec c key t now seconds (h key t q) n q) ∙ e)
      ]

  passed-Running :
      (c c' : Cooldown dec) (key : K) (now seconds : ℤ)
      → InTime dec c
      → Time now
      → try_start dec c key now seconds ≡ some (c', true)
      → Running key now c'
  passed-Running c c' key now seconds h n e =
      let same = started_when_passed c c' key now seconds h n e in
      subst (Running key now) (sym same) (start-InTime dec c key now h n, start_same dec c key now)

  -- A try of a key that passes at the time `started` blocks the key for the length that is asked for: behind tries of any keys, of
  -- which those of the key itself come while their own length runs, a try of the key passes exactly when the clock has
  -- reached the end of its length or is back before the start. Every time, those held before among them, is from 0 to
  -- the end of an `int64_t`, and then nothing overflows.
  pub try_start_apart :
      (c c' : Cooldown dec) (key : K) (started seconds : ℤ) (ts : List Try) (now length_asked : ℤ)
      → InTime dec c
      → Time started
      → Time now
      → try_start dec c key started seconds ≡ some (c', true)
      → All (TooSoon key started) ts
      → (c1 : Cooldown dec) × (c2 : Cooldown dec) × (run_tries ts c' ≡ some c1)
        × (try_start dec c1 key now length_asked
            ≡ some (c2, ltb_ℤ now started || leb_ℤ (started +ℤ length_asked) now))
  unfolding Answers
  try_start_apart c c' key started seconds ts now length_asked h s n passed soon =
      let (c1, e, r) = run_tries-Running ts c' key started s soon first in
      let (c2, e2) = answer_of c1 (is_free length_asked started now) in
      (c1, c2, e, try_start_later dec c1 key started now length_asked s n (r.1) ∙ e2)
    where
      answer_of :
          (c1 : Cooldown dec) (free : Bool)
          → (c2 : Cooldown dec) × (answer dec c1 key now free ≡ some (c2, free))
      answer_of c1 true = (start dec c1 key now, refl)
      answer_of c1 false = (c1, refl)

      first : Running key started c'
      first = passed-Running c c' key started seconds h s passed

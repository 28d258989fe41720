-- ===== src/Memory/BytePattern/Search.antt =====
-- The anchored search finds what a search that tries every offset finds.
use voltmod.Memory.BytePattern.{value_at}
use voltmod.Strings.Chars.{is_empty}
use voltmod.Memory.BytePattern.{PatternByte, matches, memchr, find_loop, find_first}
use voltmod.Common.{
  ℕ, zero, suc, ◌+◌, ◌-◌, ◌≤◌, ◌<◌, ◌≡◌, refl, sym, ap, ◌∙◌, inl, inr, true, false, Option, none,
  some, List, [], ◌∷◌, arith, ltb, leb, ◌==◌, if◌then◌else◌, Bool-cases, length, get_elem?, get_or,
  Bytes,
}

-- The first of `n` offsets from `at` on where the pattern matches.
unfoldable pub first_match : Bytes → List PatternByte → ℕ → ℕ → Option ℕ
first_match memory pattern zero at = none
first_match memory pattern (suc n) at =
    if matches memory at pattern then some at else first_match memory pattern n (at + 1)

matches_at :
    (memory : Bytes) (pattern : List PatternByte) (i at : ℕ) {p : PatternByte}
    → get_elem? pattern i ≡ some p
    → p.wildcard ≡ false
    → matches memory at pattern ≡ true
    → (get_or memory (at + i) 0 == p.value) ≡ true
unfolding matches
matches_at memory [] i at e w m = cc
matches_at memory (q ∷ ps) zero at e w m =
    let here : at + 0 ≡ at = omega arith in rw here (ground arith)
matches_at memory (q ∷ ps) (suc i) at e w m =
    let there : at + suc i ≡ at + 1 + i = omega arith in
    rw there (matches_at memory ps i (at + 1) e w (ground arith))

module _ (memory : Bytes) (pattern : List PatternByte) (anchor : ℕ) (p : PatternByte)
    (at_anchor : get_elem? pattern anchor ≡ some p) (fixed : p.wildcard ≡ false) where
  -- Where the anchor's byte is not, the pattern is not.
  skip_one :
      (n at : ℕ)
      → (get_or memory (at + anchor) 0 == p.value) ≡ false
      → first_match memory pattern (suc n) at ≡ first_match memory pattern n (at + 1)
  unfolding first_match
  skip_one n at h = elim (Bool-cases (matches memory at pattern)) [
    | inl m ↦ absurd (ground (arith, matches_at memory pattern anchor at at_anchor fixed m))
    | inr m ↦ rw m
  ]

  -- What `memchr` skips cannot match: it names the next offset worth a test, or there is no match.
  abbrev Skips : ℕ → ℕ → Option ℕ → Type 0
  Skips n at none = first_match memory pattern n at ≡ none
  Skips n at (some f) =
      (j : ℕ) × (m : ℕ) × (n ≡ j + suc m)
      × (f ≡ at + j + anchor)
      × (first_match memory pattern n at ≡ first_match memory pattern (suc m) (at + j))

  Skips-later :
      (n at : ℕ) (o : Option ℕ)
      → first_match memory pattern (suc n) at ≡ first_match memory pattern n (at + 1)
      → Skips n (at + 1) o
      → Skips (suc n) at o
  Skips-later n at none e s = e ∙ s
  Skips-later n at (some f) e (j, m, a, b, c) =
      let there : at + suc j ≡ at + 1 + j = omega arith in
      (
        suc j,
        m,
        omega arith,
        omega arith,
        e ∙ c ∙ ap (first_match memory pattern (suc m)) (sym there),
      )

  memchr-Skips : (n at : ℕ) → Skips n at (memchr memory (at + anchor) p.value n)
  unfolding memchr first_match
  memchr-Skips zero at = refl
  memchr-Skips (suc n) at = elim (Bool-cases (get_or memory (at + anchor) 0 == p.value)) [
    | inl e ↦
        let here : at + 0 ≡ at = omega arith in
        rw e (0, n, omega arith, omega arith, ap (first_match memory pattern (suc n)) (sym here))
    | inr e ↦
        let there : at + anchor + 1 ≡ at + 1 + anchor = omega arith in
        rw (e, there)
          (Skips-later n at (memchr memory (at + 1 + anchor) p.value n) (skip_one n at e)
            (memchr-Skips n (at + 1)))
  ]

  -- The rest of the loop from the candidate `c` on, given what it finds behind it.
  test_candidate :
      (c m : ℕ) (rest : Option ℕ)
      → rest ≡ first_match memory pattern m (c + 1)
      → (if matches memory c pattern then some c else rest) ≡ first_match memory pattern (suc m) c
  unfolding first_match
  test_candidate c m rest e = rw e

  Finds : ℕ → Type 0
  Finds fuel =
      (last at : ℕ)
      → last + 1 - at ≤ fuel
      → find_loop fuel memory pattern anchor p.value last at
        ≡ first_match memory pattern (last + 1 - at) at

  find_round :
      (fuel last at : ℕ) (o : Option ℕ)
      → Finds fuel
      → last + 1 - at ≤ suc fuel
      → at ≤ last
      → memchr memory (at + anchor) p.value (last - at + 1) ≡ o
      → Skips (last - at + 1) at o
      → find_loop (suc fuel) memory pattern anchor p.value last at
        ≡ first_match memory pattern (last - at + 1) at
  unfolding find_loop Finds
  find_round fuel last at none ih h l e s =
      let inside : ltb last at ≡ false = ground arith in rw (inside, e, find_loop) (sym s)
  find_round fuel last at (some f) ih h l e (j, m, a, b, c) =
      let inside : ltb last at ≡ false = ground arith in
      let candidate : f - anchor ≡ at + j = omega arith in
      let left : last + 1 - (at + j + 1) ≡ m = omega arith in
      let tail =
        ih last (at + j + 1) (omega arith)
        ∙ ap (λ k. first_match memory pattern k (at + j + 1)) left in
      rw (inside, e, find_loop, candidate)
        (test_candidate (at + j) m (find_loop fuel memory pattern anchor p.value last (at + j + 1))
            tail
          ∙ sym c)

  find_loop-first_match : (fuel : ℕ) → Finds fuel
  unfolding find_loop Finds first_match
  find_loop-first_match zero last at h =
      let none_left : last + 1 - at ≡ 0 = omega arith in rw none_left
  find_loop-first_match (suc fuel) last at h = elim (Bool-cases (ltb last at)) [
    | inl e ↦ let none_left : last + 1 - at ≡ 0 = ground arith in rw (e, none_left)
    | inr e ↦
        let count : last + 1 - at ≡ last - at + 1 = ground arith in
        rw count (
          find_round fuel last at (memchr memory (at + anchor) p.value (last - at + 1))
            (find_loop-first_match fuel) h (ground arith) refl (memchr-Skips (last - at + 1) at))
  ]

get_elem?_within {ℓ} :
    {A : Type ℓ} (xs : List A) (i : ℕ) {x : A} → get_elem? xs i ≡ some x → i < length xs
get_elem?_within [] i e = cc
get_elem?_within (x ∷ xs) zero e = omega arith
get_elem?_within (x ∷ xs) (suc i) e = omega (arith, get_elem?_within xs i e)

nonempty {ℓ} : {A : Type ℓ} (xs : List A) → 0 < length xs → is_empty xs ≡ false
nonempty [] h = elim h [ ]
nonempty (x ∷ xs) h = refl

-- Anchored on any byte of the pattern that is no wildcard, `FindFirst` returns the first offset of the
-- buffer at which the pattern matches, or nothing where there is none: which byte is taken for the
-- anchor does not change the answer.
pub find_first-first_match :
    (memory : Bytes) (pattern : List PatternByte) (anchor : ℕ) (p : PatternByte)
    → get_elem? pattern anchor ≡ some p
    → p.wildcard ≡ false
    → length pattern ≤ length memory
    → find_first (some memory) pattern anchor
      ≡ first_match memory pattern (length memory - length pattern + 1) 0
unfolding find_first Finds
find_first-first_match memory pattern anchor p e w l =
    let i = get_elem?_within pattern anchor e in
    let some_bytes : is_empty pattern ≡ false = nonempty pattern (omega arith) in
    let fits : ltb (length memory) (length pattern) ≡ false = ground arith in
    let anchored : leb (length pattern) anchor ≡ false = ground arith in
    let all_of : length memory - length pattern + 1 - 0 ≡ length memory - length pattern + 1 =
      omega arith in
    rw (some_bytes, fits, anchored, e, value_at)
      (find_loop-first_match memory pattern anchor p e w (length memory - length pattern + 1)
          (length memory - length pattern) 0 (omega arith)
        ∙ ap (λ k. first_match memory pattern k 0) all_of)

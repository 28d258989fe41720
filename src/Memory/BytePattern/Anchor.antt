-- ===== src/Memory/BytePattern/Anchor.antt =====
-- The anchor that `AnchorOf` chooses.
use voltmod.Memory.BytePattern.Search.{find_first-first_match}
use voltmod.Memory.BytePattern.Search.{first_match}
use voltmod.Memory.BytePattern.{matches}
use voltmod.Memory.BytePattern.{anchor_of}
use voltmod.Memory.BytePattern.{find_first}
use voltmod.Memory.BytePattern.{PatternByte, ByteHistogram, anchor_loop, size_max}
use voltmod.Common.{
  ℕ, suc, ◌+◌, ◌-◌, ◌≤◌, ◌<◌, ◌≡◌, refl, sym, ◌≢◌, ◌⊎◌, inl, inr, true, false, not, ◌&&◌, some,
  List, [], ◌∷◌, arith, ltb, leb, Bool-cases, length, get_elem?, All, Bytes,
}

-- The byte at an index is fixed, and no fixed byte of the pattern is rarer.
pub record IsRarest (pattern : List PatternByte) (frequencies : ByteHistogram) (i : ℕ)
    : Type 0 where
  pub byte : PatternByte
  pub held : get_elem? pattern i ≡ some byte
  pub fixed : byte.wildcard ≡ false
  pub rarest : All (λ p. p.wildcard ≡ false → frequencies byte.value ≤ frequencies p.value) pattern

-- Every byte's count can be told from the largest `size_t`.
abbrev pub Counted : ByteHistogram → Type 0
Counted frequencies = (v : ℕ) → frequencies v < size_max

abbrev Wild : PatternByte → Type 0
Wild p = p.wildcard ≡ true

module _ (frequencies : ByteHistogram) where
  -- What the loop returns, over the bytes left, with the best so far `anchor`, whose count is `rarest`.
  abbrev Chosen : List PatternByte → ℕ → ℕ → ℕ → ℕ → Type 0
  Chosen ps i rarest anchor result =
      ((result ≡ anchor) × All (λ p. p.wildcard ≡ false → rarest ≤ frequencies p.value) ps)
      ⊎ ((j : ℕ) × (p : PatternByte) × (result ≡ i + j)
          × (get_elem? ps j ≡ some p)
          × (p.wildcard ≡ false)
          × (frequencies p.value < rarest)
          × All (λ q. q.wildcard ≡ false → frequencies p.value ≤ frequencies q.value) ps)

  anchor_loop-Chosen :
      (ps : List PatternByte) (i rarest anchor : ℕ)
      → Chosen ps i rarest anchor (anchor_loop ps frequencies i rarest anchor)
  unfolding anchor_loop
  anchor_loop-Chosen [] i rarest anchor = inl (refl, tt)
  anchor_loop-Chosen (p ∷ ps) i rarest anchor =
      elim (Bool-cases (not p.wildcard && ltb (frequencies p.value) rarest)) [
        | inl e ↦ rw e (elim (anchor_loop-Chosen ps (i + 1) (frequencies p.value) i) [
          | inl (r, h) ↦
              inr (0, p, omega arith, refl, ground arith, ground arith, (λ w. omega arith, h))
          | inr (j, q, r, g, w, l, h) ↦
              inr (suc j, q, omega arith, g, w, ground arith, (λ v. omega arith, h))
        ])
        | inr e ↦ rw e (elim (anchor_loop-Chosen ps (i + 1) rarest anchor) [
          | inl (r, h) ↦ inl (r, (λ w. ground arith, h))
          | inr (j, q, r, g, w, l, h) ↦ inr (suc j, q, omega arith, g, w, l, (λ v. ground arith, h))
        ])
      ]

  All-Wild :
      Counted frequencies
      → (ps : List PatternByte) → All (λ p. p.wildcard ≡ false → size_max ≤ frequencies p.value) ps
      → All Wild ps
  All-Wild c [] h = tt
  All-Wild c (p ∷ ps) h = elim (Bool-cases p.wildcard) [
    | inl w ↦ (w, All-Wild c ps h.1)
    | inr w ↦ absurd (omega (arith, h.0 w, c p.value))
  ]

  -- `AnchorOf` returns the index of a byte that is no wildcard and than which no such byte of the
  -- pattern is rarer, or the pattern's size where all of it is wildcards.
  pub anchor_of-IsRarest :
      (pattern : List PatternByte)
      → Counted frequencies
      → ((anchor_of pattern frequencies ≡ length pattern) × All Wild pattern)
        ⊎ IsRarest pattern frequencies (anchor_of pattern frequencies)
  unfolding anchor_of
  anchor_of-IsRarest pattern c = elim (anchor_loop-Chosen pattern 0 size_max (length pattern)) [
    | inl (r, h) ↦ inl (r, All-Wild c pattern h)
    | inr (j, p, r, g, w, l, h) ↦
        let at : anchor_loop pattern frequencies 0 size_max (length pattern) ≡ j =
          omega (arith, r) in
        inr (rw at (record { byte = p; held = g; fixed = w; rarest = h }))
  ]

matches-Wild :
    (memory : Bytes) (at : ℕ) (ps : List PatternByte) → All Wild ps → matches memory at ps ≡ true
unfolding matches
matches-Wild memory at [] h = refl
matches-Wild memory at (p ∷ ps) h = rw h.0 (matches-Wild memory (at + 1) ps h.1)

first_match_here :
    (memory : Bytes) (ps : List PatternByte) (n at : ℕ)
    → matches memory at ps ≡ true
    → first_match memory ps (suc n) at ≡ some at
unfolding first_match
first_match_here memory ps n at h = rw h

find_first-Wild :
    (memory : Bytes) (pattern : List PatternByte)
    → pattern ≢ []
    → length pattern ≤ length memory
    → All Wild pattern
    → find_first (some memory) pattern (length pattern)
      ≡ first_match memory pattern (length memory - length pattern + 1) 0
unfolding find_first
find_first-Wild memory [] n l h = absurd (n refl)
find_first-Wild memory (p ∷ ps) n l h =
    let hit = matches-Wild memory 0 (p ∷ ps) h in
    let whole : leb (length (p ∷ ps)) (length (p ∷ ps)) ≡ true = ground arith in
    let fits : ltb (length memory) (length (p ∷ ps)) ≡ false = ground arith in
    let count : length memory - length (p ∷ ps) + 1 ≡ suc (length memory - length (p ∷ ps)) =
      omega arith in
    rw (fits, whole, count) (sym (first_match_here memory (p ∷ ps) _ 0 hit))

-- A scan anchored by `AnchorOf`, whatever frequencies below the largest `size_t` it is given, returns the first
-- offset at which a pattern of a byte or more, not longer than the memory, matches, or nothing where there is none.
pub find_first-anchor_of :
    (memory : Bytes) (pattern : List PatternByte) (frequencies : ByteHistogram)
    → Counted frequencies
    → pattern ≢ []
    → length pattern ≤ length memory
    → find_first (some memory) pattern (anchor_of pattern frequencies)
      ≡ first_match memory pattern (length memory - length pattern + 1) 0
find_first-anchor_of memory pattern frequencies c n l =
    elim (anchor_of-IsRarest frequencies pattern c) [
      | inl (e, h) ↦ rw e (find_first-Wild memory pattern n l h)
      | inr r ↦
          find_first-first_match memory pattern (anchor_of pattern frequencies) r.byte r.held
            r.fixed l
    ]

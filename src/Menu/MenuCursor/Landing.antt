-- ===== src/Menu/MenuCursor/Landing.antt =====
-- Where the menu cursor lands.
use voltmod.Menu.MenuCursor.{CursorRows, rem_ℤ, wrap_index, is_selectable, step_loop, step, first}
use voltmod.Common.{
  ℕ, zero, suc, ◌+◌, ◌-◌, ◌%◌, ◌≤◌, ◌<◌, ◌≡◌, refl, ap, ◌∙◌, ◌⊎◌, inl, inr, true, false, arith, ltb,
  ◌==◌, tests, Bool-cases, ℤ, pos, negsuc, sub_ℕ, ◌+ℤ◌, ltb_ℤ, leb_ℤ,
}
use native.Mathlib.Nat.{mod-lt, mod-eq_of_lt, mod_self, mod-mod, add-mod_right}

pub add_pos : (a b : ℕ) → pos a +ℤ pos b ≡ pos (a + b)
unfolding ◌+ℤ◌
add_pos a b = ground arith

add_rem : (a n : ℕ) → a < n → sub_ℕ 0 a +ℤ pos n ≡ pos (n - a)
unfolding ◌+ℤ◌
add_rem a n h = ground arith

wrap_index_sum :
    (n s : ℕ) (v : ℤ) → 0 < n → rem_ℤ v n +ℤ pos n ≡ pos s → wrap_index v (pos n) ≡ pos (s % n)
unfolding wrap_index rem_ℤ
wrap_index_sum zero s v h e = elim h [ ]
wrap_index_sum (suc n) s v h e =
    let z : leb_ℤ (pos (suc n)) (pos 0) ≡ false = ground arith in rw (z, e)

wrap_index_pos : (n a : ℕ) → 0 < n → wrap_index (pos a) (pos n) ≡ pos (a % n)
unfolding rem_ℤ
wrap_index_pos n a h =
    wrap_index_sum n (a % n + n) (pos a) h (add_pos (a % n) n)
    ∙ ap pos (add-mod_right (a % n) n ∙ mod-mod a n)

pub wrap_index_range : (n : ℕ) (v : ℤ) → 0 < n → (r : ℕ) × (wrap_index v (pos n) ≡ pos r) × r < n
unfolding rem_ℤ
wrap_index_range n (pos a) h = (a % n, wrap_index_pos n a h, mod-lt a h)
wrap_index_range n (negsuc a) h = (
  (n - suc a % n) % n,
  wrap_index_sum n (n - suc a % n) (negsuc a) h (add_rem (suc a % n) n (mod-lt (suc a) h)),
  mod-lt (n - suc a % n) h,
)

wrap_index_next : (n i : ℕ) → suc i < n → wrap_index (pos i +ℤ pos 1) (pos n) ≡ pos (suc i)
wrap_index_next n i h =
    rw (add_pos i 1, wrap_index_pos n (i + 1) (omega arith))
      (ap pos (mod-eq_of_lt (omega arith) ∙ omega arith))

wrap_index_last : (n i : ℕ) → suc i ≡ n → wrap_index (pos i +ℤ pos 1) (pos n) ≡ pos 0
wrap_index_last n i h =
    rw (add_pos i 1, wrap_index_pos n (i + 1) (omega arith))
      (ap pos (ap (λ k. k % n) (omega arith) ∙ mod_self n))

-- ---- steps
selectable_range :
    (rows : CursorRows) (n i : ℕ) → rows.count ≡ pos n → n ≤ i → is_selectable rows (pos i) ≡ false
unfolding is_selectable
selectable_range rows n i e h =
    let c : leb_ℤ rows.count (pos i) ≡ true = simp e (ground arith) in
    let d : ltb_ℤ (pos i) (pos 0) ≡ false = ground arith in simp (c, d)

-- Where a search upwards lands: the first row that takes the cursor, or row 0 when none does.
pub First : CursorRows → ℤ → Type 0
First rows landed =
    ((i : ℕ) × (landed ≡ pos i)
      × (is_selectable rows (pos i) ≡ true)
      × ((j : ℕ) → j < i → is_selectable rows (pos j) ≡ false))
    ⊎ ((landed ≡ pos 0) × ((j : ℕ) → is_selectable rows (pos j) ≡ false))

below_next :
    (rows : CursorRows) (i : ℕ)
    → ((j : ℕ) → j < suc i → is_selectable rows (pos j) ≡ false)
    → is_selectable rows (pos (suc i)) ≡ false
    → (j : ℕ) → j < suc (suc i)
    → is_selectable rows (pos j) ≡ false
below_next rows i below e j h = elim (Bool-cases (j == suc i)) [
  | inl q ↦ let same : j ≡ suc i = ground arith in rw same e
  | inr q ↦ below j (ground arith)
]

step_loop_hit :
    (k : ℕ) (rows : CursorRows) (index by next : ℤ)
    → wrap_index (index +ℤ by) rows.count ≡ next
    → is_selectable rows next ≡ true
    → step_loop (suc k) rows index by ≡ next
unfolding step_loop
step_loop_hit k rows index by next at q = rw (at, q)

step_loop_miss :
    (k : ℕ) (rows : CursorRows) (index by next : ℤ)
    → wrap_index (index +ℤ by) rows.count ≡ next
    → is_selectable rows next ≡ false
    → step_loop (suc k) rows index by ≡ step_loop k rows next by
unfolding step_loop
step_loop_miss k rows index by next at q = rw (at, q)

step_loop_end : (rows : CursorRows) (index by : ℤ) → step_loop 0 rows index by ≡ index
unfolding step_loop
step_loop_end rows index by = refl

step_loop-First :
    (k n i : ℕ) (rows : CursorRows)
    → rows.count ≡ pos n
    → i + k ≡ n
    → i < n
    → ((j : ℕ) → j < suc i → is_selectable rows (pos j) ≡ false)
    → First rows (step_loop k rows (pos i) (pos 1))
unfolding First
step_loop-First zero n i rows e h lt below = absurd (omega arith)
step_loop-First (suc zero) n i rows e h lt below =
    let none_at : (j : ℕ) → is_selectable rows (pos j) ≡ false = λ j. elim (Bool-cases (ltb j n)) [
      | inl q ↦ below j (omega (tests, q))
      | inr q ↦ selectable_range rows n j e (ground arith)
    ] in
    let at : wrap_index (pos i +ℤ pos 1) rows.count ≡ pos 0 =
      simp e (wrap_index_last n i (omega arith)) in
    inr (
      step_loop_miss 0 rows (pos i) (pos 1) (pos 0) at (none_at 0)
          ∙ step_loop_end rows (pos 0) (pos 1),
      none_at,
    )
step_loop-First (suc (suc k)) n i rows e h lt below =
    let at : wrap_index (pos i +ℤ pos 1) rows.count ≡ pos (suc i) =
      simp e (wrap_index_next n i (omega arith)) in
    elim (Bool-cases (is_selectable rows (pos (suc i)))) [
      | inl q ↦ inl (suc i, step_loop_hit (suc k) rows (pos i) (pos 1) (pos (suc i)) at q, q, below)
      | inr q ↦ rw (step_loop_miss (suc k) rows (pos i) (pos 1) (pos (suc i)) at q) (
          step_loop-First (suc k) n (suc i) rows e (omega arith) (omega arith)
            (below_next rows i below q))
    ]

-- `First` lands on the first row that takes the cursor, and on row 0 when there is none.
pub first-lands : (rows : CursorRows) (n : ℕ) → rows.count ≡ pos n → First rows (first rows)
unfolding first step First
first-lands rows zero e = inr (simp e, λ j. selectable_range rows 0 j e (omega arith))
first-lands rows (suc n) e =
    let z : leb_ℤ rows.count (pos 0) ≡ false = simp e (ground arith) in
    let z' : leb_ℤ (pos (suc n)) (pos 0) ≡ false = ground arith in
    elim (Bool-cases (is_selectable rows (pos 0))) [
      | inl q ↦ inl (0, simp (z, q), q, λ j h. absurd (omega arith))
      | inr q ↦
          simp (q, e, z')
            (step_loop-First (suc n) (suc n) 0 rows e (omega arith) (omega arith)
              (λ j h. let same : j ≡ 0 = omega arith in rw same q))
    ]

step_loop-range :
    (k n : ℕ) (rows : CursorRows) (index by : ℤ)
    → rows.count ≡ pos n
    → 0 < n
    → 0 < k
    → (r : ℕ) × (step_loop k rows index by ≡ pos r) × r < n
step_loop-range zero n rows index by e h hk = absurd (omega arith)
step_loop-range (suc zero) n rows index by e h hk =
    let (r, at, lt) = wrap_index_range n (index +ℤ by) h in
    let at' : wrap_index (index +ℤ by) rows.count ≡ pos r = simp e at in
    elim (Bool-cases (is_selectable rows (pos r))) [
      | inl q ↦ (r, step_loop_hit 0 rows index by (pos r) at' q, lt)
      | inr q ↦
          (r, step_loop_miss 0 rows index by (pos r) at' q ∙ step_loop_end rows (pos r) by, lt)
    ]
step_loop-range (suc (suc k)) n rows index by e h hk =
    let (r, at, lt) = wrap_index_range n (index +ℤ by) h in
    let at' : wrap_index (index +ℤ by) rows.count ≡ pos r = simp e at in
    elim (Bool-cases (is_selectable rows (pos r))) [
      | inl q ↦ (r, step_loop_hit (suc k) rows index by (pos r) at' q, lt)
      | inr q ↦
          rw (step_loop_miss (suc k) rows index by (pos r) at' q)
            (step_loop-range (suc k) n rows (pos r) by e h (omega arith))
    ]

-- `Step` lands on a row of the menu.
pub step-range :
    (rows : CursorRows) (n : ℕ) (index by : ℤ)
    → rows.count ≡ pos n
    → 0 < n
    → (r : ℕ) × (step rows index by ≡ pos r) × r < n
unfolding step
step-range rows n index by e h =
    let z : leb_ℤ (pos n) (pos 0) ≡ false = ground arith in
    simp (e, z) (step_loop-range n n rows index by e h h)

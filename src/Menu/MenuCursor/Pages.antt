-- ===== src/Menu/MenuCursor/Pages.antt =====
-- Where the menu cursor lands when it jumps a page.
use voltmod.Menu.MenuCursor.{
  CursorRows, rem_ℤ, quot_ℤ, wrap_index, page_count, is_selectable, settle, jump_page, min_ℤ,
}
use voltmod.Menu.MenuCursor.Landing.{add_pos, wrap_index_range}
use voltmod.Common.{
  ℕ, zero, suc, ◌+◌, ◌-◌, ◌*◌, ◌/◌, ◌%◌, ◌≤◌, ◌<◌, ◌≡◌, refl, inl, inr, false, arith, Bool-cases, ℤ,
  pos, pos_part, ◌+ℤ◌, ◌-ℤ◌, ltb_ℤ, leb_ℤ,
}
use native.Mathlib.Nat.{mul-le-mul_right, le-div_iff_mul-le}

settle-range :
    (k a b l : ℕ) (rows : CursorRows)
    → a ≤ l
    → l < b
    → (r : ℕ) × (settle k rows (pos a) (pos b) (pos l) ≡ pos r) × a ≤ r × r < b
unfolding settle
settle-range zero a b l rows h h' = (l, refl, h, h')
settle-range (suc k) a b l rows h h' = elim (Bool-cases (is_selectable rows (pos l))) [
  | inl q ↦ simp q (l, refl, h, h')
  | inr q ↦ elim (Bool-cases (ltb_ℤ (pos (l + 1)) (pos b))) [
    | inl q' ↦
        simp (q, add_pos l 1, q') (settle-range k a b (l + 1) rows (omega arith) (ground arith))
    | inr q' ↦ simp (q, add_pos l 1, q') (settle-range k a b a rows (omega arith) (omega arith))
  ]
]

page_end :
    (n s per : ℕ)
    → s < n
    → 0 < per
    → (e : ℕ) × (min_ℤ (pos n) (pos s +ℤ pos per) ≡ pos e) × s < e × e ≤ n × e ≤ s + per
page_end n s per h h' = elim (Bool-cases (ltb_ℤ (pos (s + per)) (pos n))) [
  | inl q ↦ rw (add_pos s per, q) (s + per, refl, omega arith, ground arith, omega arith)
  | inr q ↦ rw (add_pos s per, q) (n, refl, h, omega arith, ground arith)
]

sub_one : (e : ℕ) → 0 < e → pos e -ℤ pos 1 ≡ pos (e - 1)
unfolding ◌-ℤ◌
sub_one e h = ground arith

page_row :
    (e s o : ℕ)
    → s < e
    → (l : ℕ) × (min_ℤ (pos s +ℤ pos o) (pos e -ℤ pos 1) ≡ pos l) × s ≤ l × l < e
page_row e s o h = elim (Bool-cases (ltb_ℤ (pos (e - 1)) (pos (s + o)))) [
  | inl q ↦ rw (add_pos s o, sub_one e (omega arith), q) (e - 1, refl, omega arith, omega arith)
  | inr q ↦ rw (add_pos s o, sub_one e (omega arith), q) (s + o, refl, omega arith, ground arith)
]

page_count_pos : (n per : ℕ) → 0 < n → page_count (pos n) (pos per) ≡ pos ((n + per - 1) / per)
unfolding page_count quot_ℤ
page_count_pos n per h =
    let z : leb_ℤ (pos n) (pos 0) ≡ false = ground arith in
    rw (z, add_pos n per, sub_one (n + per) (omega arith))

div-mul_le : (a b : ℕ) → 0 < b → a / b * b ≤ a
div-mul_le a b h = omega arith

page_start : (n per p : ℕ) → 0 < per → p < (n + per - 1) / per → p * per < n
page_start n per p h h' =
    let m : suc p * per ≤ (n + per - 1) / per * per = mul-le-mul_right per h' in
    omega (arith, m, div-mul_le (n + per - 1) per h)

page_count_above : (n per : ℕ) → 0 < n → 0 < per → 0 < (n + per - 1) / per
page_count_above n per h h' =
    let (f, g) = le-div_iff_mul-le {k = per} {x = 1} {y = n + per - 1} h' in g (omega arith)

-- `JumpPage` lands on a row of the page it jumps to.
pub jump_page-lands :
    (rows : CursorRows) (n index per : ℕ) (delta : ℤ)
    → rows.count ≡ pos n
    → 0 < n
    → 0 < per
    → (page r : ℕ) × (jump_page rows (pos index) (pos per) delta ≡ pos r)
      × (wrap_index (pos (index / per) +ℤ delta) (page_count (pos n) (pos per)) ≡ pos page)
      × page * per ≤ r
      × r < page * per + per
      × r < n
unfolding jump_page quot_ℤ rem_ℤ
jump_page-lands rows n index per delta e h h' =
    let z : leb_ℤ (pos n) (pos 0) ≡ false = ground arith in
    let z' : leb_ℤ (pos per) (pos 0) ≡ false = ground arith in
    let count = page_count_pos n per h in
    let (p, at, lt) =
      wrap_index_range ((n + per - 1) / per) (pos (index / per) +ℤ delta)
        (page_count_above n per h h') in
    let (e', end, e'_above, e'_le, e'_page) =
      page_end n (p * per) per (page_start n per p h' lt) h' in
    let (l, row, l_from, l_below) = page_row e' (p * per) (index % per) e'_above in
    let (r, lands, from, below) =
      settle-range (pos_part (pos e' -ℤ pos (p * per))) (p * per) e' l rows l_from l_below in
    (p, r, simp (e, z, z', count, at, end, row) lands, rw count at, from, omega arith, omega arith)

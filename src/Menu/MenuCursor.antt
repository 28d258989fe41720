-- ===== src/Menu/MenuCursor.antt =====
-- src/Menu/MenuCursor.cpp, with `WrapIndex` and `PageCount` of include/VoltMod/Menu/MenuModel.hpp. An `int`
-- is an integer: rows and pages are few, so that no sum leaves its range.
pub mod Landing
pub mod Pages
use voltmod.Common.{
  ℕ, zero, suc, ◌*◌, ◌/◌, ◌%◌, Bool, true, false, ◌||◌, Option, none, some, if◌then◌else◌, ℤ, pos,
  negsuc, pos_part, sub_ℕ, ◌+ℤ◌, ◌-ℤ◌, ltb_ℤ, leb_ℤ,
}

-- C++'s `%`: the remainder has the sign of the dividend.
unfoldable pub rem_ℤ : ℤ → ℕ → ℤ
rem_ℤ (pos a) b = pos (a % b)
rem_ℤ (negsuc a) b = sub_ℕ 0 (suc a % b)

-- C++'s `/`, of a divisor above zero.
unfoldable pub quot_ℤ : ℤ → ℕ → ℤ
quot_ℤ (pos a) b = pos (a / b)
quot_ℤ (negsuc a) b = sub_ℕ 0 (suc a / b)

unfoldable pub wrap_index : ℤ → ℤ → ℤ
wrap_index value count =
    if leb_ℤ count (pos 0)
    then pos 0
    else rem_ℤ (rem_ℤ value (pos_part count) +ℤ count) (pos_part count)

unfoldable pub page_count : ℤ → ℤ → ℤ
page_count items per_page =
    if leb_ℤ items (pos 0) then pos 1 else quot_ℤ (items +ℤ per_page -ℤ pos 1) (pos_part per_page)

pub record CursorRows : Type 0 where
  pub count : ℤ
  -- `std::function`, none when it is unset.
  pub selectable : Option (ℤ → Bool)

unfoldable pub is_selectable : CursorRows → ℤ → Bool
is_selectable rows index =
    if ltb_ℤ index (pos 0) || leb_ℤ rows.count index
    then false
    else (elim rows.selectable [ none ↦ true | some selectable ↦ selectable index ])

-- The `do` loop with the attempts that are left, at least one.
unfoldable pub step_loop : ℕ → CursorRows → ℤ → ℤ → ℤ
step_loop zero rows index step = index
step_loop (suc attempts) rows index step =
    let next = wrap_index (index +ℤ step) rows.count in
    let rest = step_loop attempts rows next step in if is_selectable rows next then next else rest

unfoldable pub step : CursorRows → ℤ → ℤ → ℤ
step rows index by =
    if leb_ℤ rows.count (pos 0) then index else step_loop (pos_part rows.count) rows index by

unfoldable pub first : CursorRows → ℤ
first rows =
    if leb_ℤ rows.count (pos 0) || is_selectable rows (pos 0)
    then pos 0
    else step rows (pos 0) (pos 1)

-- The `for` loop of `JumpPage` within the page.
unfoldable pub settle : ℕ → CursorRows → ℤ → ℤ → ℤ → ℤ
settle zero rows start end landed = landed
settle (suc attempts) rows start end landed =
    let next = if ltb_ℤ (landed +ℤ pos 1) end then landed +ℤ pos 1 else start in
    let rest = settle attempts rows start end next in
    if is_selectable rows landed then landed else rest

abbrev pub min_ℤ : ℤ → ℤ → ℤ
min_ℤ a b = if ltb_ℤ b a then b else a

abbrev pub times : ℤ → ℕ → ℤ
times (pos a) b = pos (a * b)
times (negsuc a) b = sub_ℕ 0 (suc a * b)

unfoldable pub jump_page : CursorRows → ℤ → ℤ → ℤ → ℤ
jump_page rows index rows_per_page delta =
    let per = pos_part rows_per_page in
    let page = wrap_index (quot_ℤ index per +ℤ delta) (page_count rows.count rows_per_page) in
    let start = times page per in
    let end = min_ℤ rows.count (start +ℤ rows_per_page) in
    let landed = min_ℤ (start +ℤ rem_ℤ index per) (end -ℤ pos 1) in
    if leb_ℤ rows.count (pos 0) || leb_ℤ rows_per_page (pos 0)
    then index
    else settle (pos_part (end -ℤ start)) rows start end landed

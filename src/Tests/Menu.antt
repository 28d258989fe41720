-- ===== src/Tests/Menu.antt =====
-- The menu cursor over rows of which some are not selectable.
use voltmod.Menu.MenuCursor.{
  CursorRows, wrap_index, page_count, is_selectable, step_loop, step, first, settle, jump_page,
  rem_ℤ, quot_ℤ,
}
use voltmod.Menu.MenuCursor.Pages.{jump_page-lands}
use voltmod.Common.{
  ℕ, ◌+◌, ◌*◌, ◌/◌, ◌≤◌, ◌<◌, ◌≡◌, refl, not, ◌||◌, some, arith, pos, negsuc, ◌+ℤ◌, ◌-ℤ◌, eqb_ℤ,
}

abbrev five_rows : CursorRows
five_rows = record {
  count = pos 5;
  selectable = some (λ i. not (eqb_ℤ i (pos 0) || eqb_ℤ i (pos 3)));
}

jump_page-lands_example :
    (page r : ℕ) × (jump_page five_rows (pos 1) (pos 2) (pos 1) ≡ pos r)
    × (wrap_index (pos (1 / 2) +ℤ pos 1) (page_count (pos 5) (pos 2)) ≡ pos page)
    × page * 2 ≤ r
    × r < page * 2 + 2
    × r < 5
jump_page-lands_example = jump_page-lands five_rows 5 1 2 (pos 1) refl (omega arith) (omega arith)

first_of_five : first five_rows ≡ pos 1
unfolding first is_selectable step step_loop wrap_index rem_ℤ ◌+ℤ◌
first_of_five = refl

step_up : step five_rows (pos 2) (pos 1) ≡ pos 4
unfolding is_selectable step step_loop wrap_index rem_ℤ ◌+ℤ◌
step_up = refl

step_wraps : step five_rows (pos 1) (negsuc 0) ≡ pos 4
unfolding is_selectable step step_loop wrap_index rem_ℤ ◌+ℤ◌
step_wraps = refl

page_down : jump_page five_rows (pos 1) (pos 2) (pos 1) ≡ pos 2
unfolding jump_page is_selectable settle wrap_index page_count rem_ℤ quot_ℤ ◌+ℤ◌ ◌-ℤ◌
page_down = refl

-- ===== src/Menu/MenuStack/Acting.antt =====
-- The operations of src/Menu/MenuStack.cpp and src/Menu/PendingCommit.cpp that run callbacks.
use voltmod.Menu.MenuStack.{
  MenuItem, Menu, Menus, Handlers, no_menus, no_entry, state_of, entry_of, set_state, set_state_if,
  set_entry, current, is_pending, drop_pending, pop_state, keep_root, item_of,
}
use voltmod.Strings.Chars.{is_empty}
use voltmod.Slots.{is_valid_slot}
use voltmod.Common.{
  ℕ, Bool, true, false, not, ◌&&◌, Option, none, some, ◌==◌, if◌then◌else◌, ℤ, eqb_ℤ,
}

abbrev pub same_menu : Option Menu → Option Menu → Bool
same_menu (some a) (some b) = a.id == b.id
same_menu _ _ = false

module _ (on : Handlers) where
  abbrev pub run_commit : Option ℕ → ℤ → Menus → Menus
  run_commit none slot m = m
  run_commit (some c) slot m = on.committed slot (on.commit c slot m)

  unfoldable pub apply : Menus → ℤ → Menus
  apply m slot =
      if is_valid_slot slot
      then run_commit (entry_of m slot).commit slot (set_entry slot no_entry m)
      else m

  -- A different row's commit is run before.
  unfoldable pub settle_other : Menus → ℤ → ℤ → Menus
  settle_other m slot index = if eqb_ℤ (entry_of m slot).index index then m else apply m slot

  unfoldable pub hold : Menus → ℤ → ℤ → ℕ → Menus
  hold m slot index commit =
      if is_valid_slot slot
      then set_entry slot (record { index = index; commit = some commit })
          (settle_other m slot index)
      else m

  -- None: undefined, since the commit left no menu.
  unfoldable pub pop : Menus → ℤ → Option Menus
  pop m slot =
      let applied = apply m slot in
      let s = state_of applied slot in
      if is_valid_slot slot && not (is_empty (state_of m slot).menus)
      then set_state_if slot (pop_state s.menus s) applied
      else some m

  unfoldable pub clear : Menus → ℤ → Menus
  clear m slot = if is_valid_slot slot then set_state slot no_menus (apply m slot) else m

  unfoldable pub pop_to_root : Menus → ℤ → Option Menus
  pop_to_root m slot =
      let applied = apply m slot in
      let s = state_of applied slot in
      if is_valid_slot slot && not (is_empty (state_of m slot).menus)
      then set_state_if slot (keep_root s) applied
      else some m

  abbrev pub run_activate : Option ℕ → ℤ → Menus → Menus
  run_activate none slot m = m
  run_activate (some a) slot m = on.activate a slot m

  unfoldable pub is_row_actionable : Option ℕ → ℤ → Bool
  is_row_actionable none slot = false
  is_row_actionable (some d) slot = let row = on.describe d slot in row.enabled && row.selectable

  unfoldable pub activate_item : Option MenuItem → ℤ → Menus → Menus
  activate_item none slot m = m
  activate_item (some item) slot m =
      if is_row_actionable item.describe slot then run_activate item.activate slot m else m

  unfoldable pub activate : Menus → ℤ → ℤ → Menus
  activate m slot index =
      let settled = if is_pending m slot index then drop_pending m slot else apply m slot in
      if is_valid_slot slot
      then activate_item (item_of (current settled slot) index) slot settled
      else m

  abbrev pub is_enabled : Option ℕ → ℤ → Bool
  is_enabled none slot = false
  is_enabled (some d) slot = (on.describe d slot).enabled

  -- A step that was consumed is held, unless it replaced the menu.
  unfoldable pub hold_step : Option Menu → ℤ → ℤ → Option ℕ → Menus × Bool → Menus × Bool
  hold_step held slot index commit (m, false) = (m, false)
  hold_step held slot index none (m, true) = (m, true)
  hold_step held slot index (some c) (m, true) =
      ((if same_menu (current m slot) held then hold m slot index c else m), true)

  abbrev pub run_step : Option ℕ → ℤ → ℤ → Menus → Menus × Bool
  run_step none slot direction m = (m, false)
  run_step (some f) slot direction m = on.step f slot direction m

  unfoldable pub step_item : Option Menu → Option MenuItem → ℤ → ℤ → ℤ → Menus → Menus × Bool
  step_item held none slot index direction m = (m, false)
  step_item held (some item) slot index direction m =
      if is_enabled item.describe slot
      then hold_step held slot index item.commit (run_step item.step slot direction m)
      else (m, false)

  unfoldable pub step : Menus → ℤ → ℤ → ℤ → Menus × Bool
  step m slot index direction =
      let held = current m slot in step_item held (item_of held index) slot index direction m

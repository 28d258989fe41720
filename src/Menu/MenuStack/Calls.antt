-- ===== src/Menu/MenuStack/Calls.antt =====
-- The calls of src/Menu/MenuStack.cpp, with callbacks of rows that use the menus.
use voltmod.Slots.{is_valid_slot}
use voltmod.Strings.Chars.{is_empty}
use voltmod.Menu.MenuStack.{
  set_state, pop_state, keep_root, reset_slot, MenuItem, Menu, Menus, Handlers, no_menus, no_entry,
  state_of, entry_of, set_entry, current, push, is_pending, drop_pending, item_of,
}
use voltmod.Menu.MenuStack.Rows.{describe}
use voltmod.Menu.MenuStack.Acting.{
  run_commit, apply, settle_other, hold, pop, clear, pop_to_root, run_activate, is_row_actionable,
  activate_item, activate, is_enabled, hold_step, run_step, step_item, step, same_menu,
}
use voltmod.Menu.MenuStack.Derived.{
  InOrder, set_state-InOrder, set_entry-InOrder, either-InOrder, push-Gives, pop_state-Gives, Gives,
  either-Gives, set_state_if-Gives, no_menus-IsDerived, keep_root-Gives, describe-InOrder,
}
use voltmod.Common.{
  ℕ, ◌≡◌, refl, ◌≢◌, inl, inr, Bool, true, false, not, ◌&&◌, Option, none, some, [], if◌then◌else◌,
  Bool-cases, ℤ, eqb_ℤ,
}

-- Callbacks that leave the menus in order, as every one does that only uses them.
pub record Keeps (on : Handlers) : Type 0 where
  pub activate : (a : ℕ) (slot : ℤ) (m : Menus) → InOrder m → InOrder (on.activate a slot m)
  pub step :
      (f : ℕ) (slot direction : ℤ) (m : Menus) → InOrder m → InOrder (on.step f slot direction m).0
  pub commit : (c : ℕ) (slot : ℤ) (m : Menus) → InOrder m → InOrder (on.commit c slot m)
  pub committed : (slot : ℤ) (m : Menus) → InOrder m → InOrder (on.committed slot m)

-- Where a menu of the slot was open, the commit that the slot holds leaves one.
abbrev pub StaysOpen : Handlers → Menus → ℤ → Type 0
StaysOpen on m slot =
    (is_valid_slot slot && not (is_empty (state_of m slot).menus)) ≡ true
    → (state_of (apply on m slot) slot).menus ≢ []

module _ (on : Handlers) (keeps : Keeps on) where
  run_commit-InOrder :
      (c : Option ℕ) (slot : ℤ) (m : Menus) → InOrder m → InOrder (run_commit on c slot m)
  run_commit-InOrder none slot m h = h
  run_commit-InOrder (some c) slot m h =
      keeps.committed slot (on.commit c slot m) (keeps.commit c slot m h)

  apply-InOrder : (m : Menus) (slot : ℤ) → InOrder m → InOrder (apply on m slot)
  unfolding apply
  apply-InOrder m slot h =
      either-InOrder (is_valid_slot slot) _ m
        (run_commit-InOrder (entry_of m slot).commit slot (set_entry slot no_entry m)
          (set_entry-InOrder slot no_entry m h))
        h

  hold-InOrder : (m : Menus) (slot index : ℤ) (c : ℕ) → InOrder m → InOrder (hold on m slot index c)
  unfolding hold settle_other
  hold-InOrder m slot index c h =
      either-InOrder (is_valid_slot slot) _ m
        (set_entry-InOrder slot _ _
          (either-InOrder (eqb_ℤ (entry_of m slot).index index) m _ h (apply-InOrder m slot h)))
        h

  pop-Gives :
      (m : Menus) (slot : ℤ) → StaysOpen on m slot → InOrder m → Gives InOrder (pop on m slot)
  unfolding pop
  pop-Gives m slot opened h =
      let a = apply-InOrder m slot h in
      let s = state_of (apply on m slot) slot in
      either-Gives (is_valid_slot slot && not (is_empty (state_of m slot).menus)) _ m
        (λ v.
          set_state_if-Gives slot (pop_state s.menus s) (apply on m slot)
            (pop_state-Gives s.menus s (opened v) (a slot).0) a)
        h

  clear-InOrder : (m : Menus) (slot : ℤ) → InOrder m → InOrder (clear on m slot)
  unfolding clear
  clear-InOrder m slot h =
      either-InOrder (is_valid_slot slot) _ m
        (set_state-InOrder slot no_menus (apply on m slot) no_menus-IsDerived
          (apply-InOrder m slot h))
        h

  pop_to_root-Gives :
      (m : Menus) (slot : ℤ)
      → StaysOpen on m slot
      → InOrder m
      → Gives InOrder (pop_to_root on m slot)
  unfolding pop_to_root
  pop_to_root-Gives m slot opened h =
      let a = apply-InOrder m slot h in
      let s = state_of (apply on m slot) slot in
      either-Gives (is_valid_slot slot && not (is_empty (state_of m slot).menus)) _ m
        (λ v.
          set_state_if-Gives slot (keep_root s) (apply on m slot)
            (keep_root-Gives s (opened v) (a slot).0) a)
        h

  activate_item-InOrder :
      (item : Option MenuItem) (slot : ℤ) (m : Menus)
      → InOrder m
      → InOrder (activate_item on item slot m)
  unfolding activate_item
  activate_item-InOrder none slot m h = h
  activate_item-InOrder (some item) slot m h =
      either-InOrder (is_row_actionable on item.describe slot) _ m
        (run_activate-InOrder item.activate slot m h) h
    where
      run_activate-InOrder :
          (a : Option ℕ) (slot : ℤ) (m : Menus) → InOrder m → InOrder (run_activate on a slot m)
      run_activate-InOrder none slot m h = h
      run_activate-InOrder (some a) slot m h = keeps.activate a slot m h

  drop_pending-InOrder : (m : Menus) (slot : ℤ) → InOrder m → InOrder (drop_pending m slot)
  unfolding drop_pending
  drop_pending-InOrder m slot h =
      either-InOrder (is_valid_slot slot) _ m (set_entry-InOrder slot no_entry m h) h

  activate-InOrder : (m : Menus) (slot index : ℤ) → InOrder m → InOrder (activate on m slot index)
  unfolding activate
  activate-InOrder m slot index h =
      let settled = if is_pending m slot index then drop_pending m slot else apply on m slot in
      either-InOrder (is_valid_slot slot) _ m
        (activate_item-InOrder (item_of (current settled slot) index) slot settled (
          either-InOrder (is_pending m slot index) (drop_pending m slot) (apply on m slot)
            (drop_pending-InOrder m slot h) (apply-InOrder m slot h)))
        h

  hold_step-InOrder :
      (held : Option Menu) (slot index : ℤ) (c : Option ℕ) (m : Menus) (used : Bool)
      → InOrder m
      → InOrder (hold_step on held slot index c (m, used)).0
  unfolding hold_step
  hold_step-InOrder held slot index c m false h = h
  hold_step-InOrder held slot index none m true h = h
  hold_step-InOrder held slot index (some c) m true h =
      either-InOrder (same_menu (current m slot) held) (hold on m slot index c) m
        (hold-InOrder m slot index c h) h

  run_step-InOrder :
      (f : Option ℕ) (slot direction : ℤ) (m : Menus)
      → InOrder m
      → InOrder (run_step on f slot direction m).0
  run_step-InOrder none slot direction m h = h
  run_step-InOrder (some f) slot direction m h = keeps.step f slot direction m h

  step_item-InOrder :
      (held : Option Menu) (item : Option MenuItem) (slot index direction : ℤ) (m : Menus)
      → InOrder m
      → InOrder (step_item on held item slot index direction m).0
  unfolding step_item
  step_item-InOrder held none slot index direction m h = h
  step_item-InOrder held (some item) slot index direction m h =
      let stepped = run_step on item.step slot direction m in
      elim (Bool-cases (is_enabled on item.describe slot)) [
        | inl e ↦ simp e (
            hold_step-InOrder held slot index item.commit stepped.0 stepped.1
              (run_step-InOrder item.step slot direction m h))
        | inr e ↦ simp e h
      ]

reset_slot-InOrder : (m : Menus) (slot : ℤ) → InOrder m → InOrder (reset_slot m slot)
unfolding reset_slot
reset_slot-InOrder m slot h =
    either-InOrder (is_valid_slot slot) _ m
      (set_entry-InOrder slot no_entry (set_state slot no_menus m)
        (set_state-InOrder slot no_menus m no_menus-IsDerived h))
      h

-- A call of a menu surface, of a timer or of the slot events.
pub data Call : Type 0 where
  push_menu : ℤ → Option Menu → Call
  pop_menu clear_menus back_to_root apply_pending change_hands : ℤ → Call
  activate_row : ℤ → ℤ → Call
  step_row draw_row : ℤ → ℤ → ℤ → Call

-- None: undefined.
unfoldable pub run : Handlers → Call → Menus → Option Menus
run on (push_menu slot menu) m = push m slot menu
run on (pop_menu slot) m = pop on m slot
run on (clear_menus slot) m = some (clear on m slot)
run on (back_to_root slot) m = pop_to_root on m slot
run on (apply_pending slot) m = some (apply on m slot)
run on (change_hands slot) m = some (reset_slot m slot)
run on (activate_row slot index) m = some (activate on m slot index)
run on (step_row slot index direction) m = some (step on m slot index direction).0
run on (draw_row slot index now) m = some (describe on m slot index now).0

-- What the source needs: the commit that a call of `Pop` or `PopToRoot` runs first leaves a menu open.
abbrev pub IsDefined : Handlers → Call → Menus → Type 0
IsDefined on (pop_menu slot) m = StaysOpen on m slot
IsDefined on (back_to_root slot) m = StaysOpen on m slot
IsDefined on _ m = Unit

-- Every call keeps the menus in order, and is defined, if the callbacks of rows keep them in order and, for a `Pop` or a `PopToRoot` of a
-- slot with a menu, the commit run first leaves a menu open in it: no menu is a null pointer, the breadcrumb of a slot is the
-- path of titles below its top menu, and there is nothing remembered of rows, or one memory for each row of the top menu.
pub run-InOrder :
    (on : Handlers) (call : Call) (m : Menus)
    → Keeps on
    → InOrder m
    → IsDefined on call m
    → (after : Menus) × (run on call m ≡ some after) × InOrder after
unfolding run step
run-InOrder on (push_menu slot menu) m keeps h d = push-Gives m slot menu h
run-InOrder on (pop_menu slot) m keeps h d = pop-Gives on keeps m slot d h
run-InOrder on (clear_menus slot) m keeps h d =
    (clear on m slot, refl, clear-InOrder on keeps m slot h)
run-InOrder on (back_to_root slot) m keeps h d = pop_to_root-Gives on keeps m slot d h
run-InOrder on (apply_pending slot) m keeps h d =
    (apply on m slot, refl, apply-InOrder on keeps m slot h)
run-InOrder on (change_hands slot) m keeps h d =
    (reset_slot m slot, refl, reset_slot-InOrder m slot h)
run-InOrder on (activate_row slot index) m keeps h d =
    (activate on m slot index, refl, activate-InOrder on keeps m slot index h)
run-InOrder on (step_row slot index direction) m keeps h d = (
  (step on m slot index direction).0,
  refl,
  step_item-InOrder on keeps (current m slot) (item_of (current m slot) index) slot index direction
      m h,
)
run-InOrder on (draw_row slot index now) m keeps h d =
    ((describe on m slot index now).0, refl, describe-InOrder on m slot index now h)

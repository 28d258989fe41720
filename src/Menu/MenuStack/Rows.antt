-- ===== src/Menu/MenuStack/Rows.antt =====
-- `MenuStack::Describe` of src/Menu/MenuStack.cpp: a row with its marks, and what is remembered of it.
use voltmod.Menu.MenuStack.{
  MenuRowKind, MenuRow, MenuItem, RowMemory, Menus, Handlers, state_of, set_state, current,
  is_pending, item_of, length_of, button, toggle,
}
use voltmod.Strings.Chars.{is_empty}
use voltmod.Common.{
  ℕ, Bool, true, false, not, ◌&&◌, Option, none, some, List, [], ◌==◌, if◌then◌else◌, length, set,
  get_or, replicate, ℤ, pos, pos_part, ◌-ℤ◌, ltb_ℤ, eqb_ℤ, Bytes, bytes, text_eq,
}

-- ---- `Describe`
abbrev pub forgotten : RowMemory
forgotten = record { value = []; changed_at = pos 0; drawn = false }

abbrev plain_row : MenuRow
plain_row = record {
  label = [];
  value = [];
  kind = button;
  enabled = true;
  selectable = true;
  steppable = false;
  state = none;
  icon = [];
  pending = false;
  changed = false;
}

abbrev no_row : MenuRow
no_row = record plain_row { enabled = false; selectable = false }

abbrev is_toggle : MenuRowKind → Bool
is_toggle toggle = true
is_toggle _ = false

-- `state.Rows.assign` where the menu has another number of rows.
unfoldable pub rows_for : ℕ → List RowMemory → List RowMemory
rows_for n rows = if length rows == n then rows else replicate n forgotten

unfoldable pub touch : RowMemory → Bytes → ℤ → RowMemory
touch memory value now = if text_eq memory.value value then memory else record {
  value = value;
  changed_at = (if memory.drawn then now else memory.changed_at);
  drawn = true;
}

abbrev is_recent : RowMemory → ℤ → Bool
is_recent memory now =
    not (eqb_ℤ memory.changed_at (pos 0)) && ltb_ℤ (now -ℤ memory.changed_at) (pos 150)

-- The memory of the row, and the row with its marks.
unfoldable pub remember : Menus → ℤ → ℕ → ℕ → ℤ → MenuRow → Menus × MenuRow
remember m slot items n now row =
    let s = state_of m slot in
    let rows = rows_for items s.rows in
    let memory = touch (get_or rows n forgotten) row.value now in
    (
      set_state slot (record s { rows = set rows n memory }) m,
      record row { changed = is_recent memory now; pending = is_pending m slot (pos n) },
    )

module _ (on : Handlers) where
  abbrev described : Option ℕ → ℤ → MenuRow
  described none slot = no_row
  described (some d) slot = on.describe d slot

  abbrev worded : Option Bool → ℤ → Bytes → Bytes
  worded none slot value = value
  worded (some true) slot value = on.translate (bytes "menu.on") slot (bytes "ON")
  worded (some false) slot value = on.translate (bytes "menu.off") slot (bytes "OFF")

  unfoldable pub spell_toggle : ℤ → MenuRow → MenuRow
  spell_toggle slot row =
      if is_toggle row.kind && is_empty row.value
      then record row { value = worded row.state slot row.value }
      else row

  unfoldable pub describe_item : Menus → ℤ → ℕ → ℤ → ℤ → Option MenuItem → Menus × MenuRow
  describe_item m slot items index now none = (m, no_row)
  describe_item m slot items index now (some item) =
      remember m slot items (pos_part index) now (spell_toggle slot (described item.describe slot))

  -- `now` is the clock's.
  unfoldable pub describe : Menus → ℤ → ℤ → ℤ → Menus × MenuRow
  describe m slot index now =
      let menu = current m slot in
      describe_item m slot (length_of menu) index now (item_of menu index)

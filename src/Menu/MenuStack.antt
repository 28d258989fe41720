-- ===== src/Menu/MenuStack.antt =====
-- src/Menu/MenuStack.cpp and src/Menu/PendingCommit.cpp: the open menus of each slot and the commit that a slot holds.
-- A menu has the number of its object. A callback of a row is a number too, and what the callbacks do are functions of
-- the menus, an argument, since they may open and close menus: callbacks whose own calls are undefined are left out. The
-- menus of a slot are listed from the top one down, a null pointer as none, which `resize` may put there. A call gives none
-- where the source has no meaning: `pop_back` of no menus, a null pointer's title. A timer that fires is a call of
-- `apply`. A map of the slots stands for an array, a slot that is missing for a default.
pub mod Rows
pub mod Acting
pub mod Derived
pub mod Calls
pub mod Bursts
use voltmod.Strings.Chars.{is_empty}
use voltmod.Slots.{is_valid_slot, max_players}
use voltmod.Common.{
  ℕ, zero, suc, ◌+◌, ◌-◌, ◌*◌, ◌/◌, ◌%◌, ◌^◌, ◌≤◌, ◌<◌, ◌≡◌, refl, sym, ap, ◌∙◌, ◌≢◌, ◌↔◌, ◌⊎◌, inl,
  inr, Bool, true, false, not, ◌&&◌, ◌||◌, Option, none, some, List, [], ◌∷◌, ◌++◌, map, arith, ltb,
  leb, ◌==◌, if◌then◌else◌, ltb→lt, lt→ltb, leb→le, ==_iff, tests, or_left, or_right, or_true,
  or_right_true, and_both, true_not-false, find_if-append_some, find_if-append_none, find_if-keep,
  find_if_holds, Bool-cases, Option-cases, List-cases, drop_nil, length, get_elem?, set,
  length-append, length-set, length-replicate, get_or, take, drop, replicate, take-append-drop,
  length-take, length-drop, length-map, take_of_length-le, keep, any, all, find_if, All, All-append,
  All-keep, All-keep_self, All-map, all_mono, All-keep_both, All-Mem, All-zip, get_elem?_lt,
  All-get_elem?, contains, ℤ, pos, negsuc, pos_part, neg_part, sub_ℕ, ◌+ℤ◌, ◌-ℤ◌, ◌≤ℤ◌, ltb_ℤ,
  leb_ℤ, eqb_ℤ, eqb_ℤ_iff, ℤ_discrete, Bytes, bytes, text_eq, text_eq_to, bytes_discrete,
  text_eq_refl, starts_with, starts_with-append, find_key, put_key, erase_key, find_key-put_key,
  find_key-erase_key, put_key_twice, Distinct, put_key-Distinct, erase_key-Distinct, Distinct-All,
  All-put_key, All-erase_key, find_key_put, find_key_erased,
}

pub data MenuRowKind : Type 0 where
  text button submenu toggle choice input : MenuRowKind

pub record MenuRow : Type 0 where
  pub label : Bytes
  pub value : Bytes
  pub kind : MenuRowKind
  pub enabled : Bool
  pub selectable : Bool
  pub steppable : Bool
  pub state : Option Bool
  pub icon : Bytes
  pub pending : Bool
  pub changed : Bool

pub record MenuItem : Type 0 where
  pub describe : Option ℕ
  pub activate : Option ℕ
  pub step : Option ℕ
  pub commit : Option ℕ

pub record Menu : Type 0 where
  pub id : ℕ
  pub title : Bytes
  pub items : List MenuItem

pub record RowMemory : Type 0 where
  pub value : Bytes
  pub changed_at : ℤ
  pub drawn : Bool

pub record State : Type 0 where
  pub menus : List (Option Menu)
  pub rows : List RowMemory
  pub breadcrumb : Bytes

-- `PendingCommit::Entry`.
pub record Entry : Type 0 where
  pub index : ℤ
  pub commit : Option ℕ

pub record Menus : Type 0 where
  pub states : List (ℤ × State)
  pub entries : List (ℤ × Entry)

pub record Handlers : Type 0 where
  pub describe : ℕ → ℤ → MenuRow
  pub activate : ℕ → ℤ → Menus → Menus
  pub step : ℕ → ℤ → ℤ → Menus → Menus × Bool
  pub commit : ℕ → ℤ → Menus → Menus
  -- `Committed.Raise`.
  pub committed : ℤ → Menus → Menus
  -- `Translations::GetOr`, of a key, a slot and a text to fall back on.
  pub translate : Bytes → ℤ → Bytes → Bytes

abbrev pub no_menus : State
no_menus = record { menus = []; rows = []; breadcrumb = [] }

abbrev pub no_entry : Entry
no_entry = record { index = negsuc 0; commit = none }

abbrev pub or_default {ℓ} : {A : Type ℓ} → A → Option A → A
or_default d none = d
or_default d (some a) = a

-- `_states[slot]` and `_entries[slot]`.
unfoldable pub state_of : Menus → ℤ → State
state_of m slot = or_default no_menus (find_key ℤ_discrete slot m.states)

unfoldable pub entry_of : Menus → ℤ → Entry
entry_of m slot = or_default no_entry (find_key ℤ_discrete slot m.entries)

abbrev pub set_state : ℤ → State → Menus → Menus
set_state slot s m = record m { states = put_key ℤ_discrete slot s m.states }

abbrev pub set_entry : ℤ → Entry → Menus → Menus
set_entry slot e m = record m { entries = put_key ℤ_discrete slot e m.entries }

abbrev pub top : List (Option Menu) → Option Menu
top [] = none
top (menu ∷ below) = menu

pub current : Menus → ℤ → Option Menu
current m slot = if is_valid_slot slot then top (state_of m slot).menus else none

unfoldable pub bottom : List (Option Menu) → Option Menu
bottom [] = none
bottom (menu ∷ []) = menu
bottom (menu ∷ below ∷ menus) = bottom (below ∷ menus)

unfoldable pub root : Menus → ℤ → Option Menu
root m slot = if is_valid_slot slot then bottom (state_of m slot).menus else none

unfoldable pub depth : Menus → ℤ → ℕ
depth m slot = if is_valid_slot slot then length (state_of m slot).menus else 0

-- " › ".
abbrev pub separator : Bytes
separator = 32 ∷ 226 ∷ 128 ∷ 186 ∷ 32 ∷ []

-- The loop of `Rebuild`, from the root up, over the menus from the top down. None: a null pointer's title is read.
unfoldable pub crumbs : List (Option Menu) → Option Bytes
crumbs [] = some []
crumbs (none ∷ below) = none
crumbs (some menu ∷ below) = elim (crumbs below) [
  | none ↦ none
  | some path ↦ some (path ++ (if is_empty path then [] else separator) ++ menu.title)
]

unfoldable pub path_below : List (Option Menu) → Option Bytes
path_below [] = some []
path_below (menu ∷ below) = crumbs below

abbrev pub with_path : State → Option Bytes → Option State
with_path s none = none
with_path s (some path) = some (record s { rows = []; breadcrumb = path })

unfoldable pub rebuild : State → Option State
rebuild s = with_path s (path_below s.menus)

-- None, that is undefined, where the state is.
abbrev pub set_state_if : ℤ → Option State → Menus → Option Menus
set_state_if slot none m = none
set_state_if slot (some s) m = some (set_state slot s m)

unfoldable pub push : Menus → ℤ → Option Menu → Option Menus
push m slot none = some m
push m slot (some menu) =
    let s = state_of m slot in
    if is_valid_slot slot
    then set_state_if slot (rebuild (record s { menus = some menu ∷ s.menus })) m
    else some m

-- `PendingCommit::IsPending`.
unfoldable pub is_pending : Menus → ℤ → ℤ → Bool
is_pending m slot index =
    leb_ℤ (pos 0) index
    && eqb_ℤ (if is_valid_slot slot then (entry_of m slot).index else negsuc 0) index

pub drop_pending : Menus → ℤ → Menus
drop_pending m slot = if is_valid_slot slot then set_entry slot no_entry m else m

-- The listeners of `SlotEvents::Changed`: nothing is left of a slot that changes hands.
pub reset_slot : Menus → ℤ → Menus
reset_slot m slot =
    if is_valid_slot slot then set_entry slot no_entry (set_state slot no_menus m) else m

unfoldable pub is_open : Menus → ℤ → Bool
is_open m slot = ltb 0 (depth m slot)

-- The loop over the slots, from the last one down.
unfoldable pub any_open_below : ℕ → Menus → Bool
any_open_below zero m = false
any_open_below (suc n) m = not (is_empty (state_of m (pos n)).menus) || any_open_below n m

unfoldable pub any_open : Menus → Bool
any_open m = any_open_below max_players m

-- The top menu taken off. `pop_back` of no menu, which a commit that closed them leaves, is undefined: none.
unfoldable pub pop_state : List (Option Menu) → State → Option State
pop_state [] s = none
pop_state (menu ∷ []) s = some no_menus
pop_state (menu ∷ below ∷ menus) s = rebuild (record s { menus = below ∷ menus })

-- `resize(1)`, with a null pointer where there is no menu.
unfoldable pub keep_root : State → Option State
keep_root s = rebuild (record s { menus = bottom s.menus ∷ [] })

abbrev pub item_of : Option Menu → ℤ → Option MenuItem
item_of none index = none
item_of (some menu) (pos n) = get_elem? menu.items n
item_of (some menu) (negsuc n) = none

abbrev pub length_of : Option Menu → ℕ
length_of none = 0
length_of (some menu) = length menu.items

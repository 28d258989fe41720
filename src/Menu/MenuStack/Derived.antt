-- ===== src/Menu/MenuStack/Derived.antt =====
-- What the operations of src/Menu/MenuStack.cpp keep of a slot's menus, whatever the callbacks of rows do with them.
use voltmod.Menu.MenuStack.{
  MenuItem, Menu, RowMemory, State, Entry, Menus, Handlers, no_menus, or_default, state_of,
  set_state, set_entry, top, current, bottom, path_below, rebuild, push, pop_state, keep_root,
  item_of, length_of, crumbs, separator, set_state_if, is_valid_slot, is_empty,
}
use voltmod.Menu.MenuStack.Rows.{rows_for, remember, describe_item, describe, forgotten}
use mathlib.Core.Path.{subst}
use voltmod.Common.{
  ℕ, ◌≡◌, refl, sym, ap, ◌∙◌, ◌≢◌, ◌⊎◌, inl, inr, Bool, true, false, Option, none, some, List, [],
  ◌∷◌, ◌++◌, arith, ◌==◌, if◌then◌else◌, Bool-cases, length, length-set, length-replicate, All, ℤ,
  pos_part, ℤ_discrete, Bytes, find_key_put,
}

-- Not a null pointer.
abbrev pub Opened : Option Menu → Type 0
Opened none = ⊥
Opened (some menu) = Unit

-- No menu is a null pointer, the breadcrumb is the path of titles to the top menu, and what is remembered is a row of that
-- menu each, or nothing.
abbrev pub IsDerived : State → Type 0
IsDerived s =
    All Opened s.menus
    × (path_below s.menus ≡ some s.breadcrumb)
    × ((s.rows ≡ []) ⊎ (length s.rows ≡ length_of (top s.menus)))

abbrev pub InOrder : Menus → Type 0
InOrder m = (slot : ℤ) → IsDerived (state_of m slot)

-- A result there is, with a property.
abbrev pub Gives {ℓ} : {A : Type ℓ} → (A → Type ℓ) → Option A → Type ℓ
Gives {A = A} P o = (a : A) × (o ≡ some a) × P a

crumbs_given :
    (menus : List (Option Menu)) → All Opened menus → (path : Bytes) × (crumbs menus ≡ some path)
unfolding crumbs
crumbs_given [] h = ([], refl)
crumbs_given (none ∷ menus) h = absurd (h.0)
crumbs_given (some menu ∷ menus) h =
    let (path, e) = crumbs_given menus (h.1) in
    (path ++ (if is_empty path then [] else separator) ++ menu.title, rw e refl)

path_given :
    (menus : List (Option Menu))
    → All Opened menus
    → (path : Bytes) × (path_below menus ≡ some path)
unfolding path_below
path_given [] h = ([], refl)
path_given (menu ∷ menus) h = crumbs_given menus (h.1)

rebuild-IsDerived : (s : State) → All Opened s.menus → Gives IsDerived (rebuild s)
unfolding rebuild
rebuild-IsDerived s h =
    let (path, e) = path_given s.menus h in
    (record s { rows = []; breadcrumb = path }, rw e refl, (h, e, inl refl))

pub no_menus-IsDerived : IsDerived no_menus
unfolding path_below
no_menus-IsDerived = (tt, refl, inl refl)

pub set_state-InOrder :
    (slot : ℤ) (s : State) (m : Menus) → IsDerived s → InOrder m → InOrder (set_state slot s m)
unfolding state_of
set_state-InOrder slot s m d h k = elim (find_key_put ℤ_discrete slot k s m.states) [
  | inl q ↦ subst (λ o. IsDerived (or_default no_menus o)) (sym q.1) d
  | inr q ↦ subst (λ o. IsDerived (or_default no_menus o)) (sym q.1) (h k)
]

pub set_entry-InOrder :
    (slot : ℤ) (e : Entry) (m : Menus) → InOrder m → InOrder (set_entry slot e m)
unfolding state_of
set_entry-InOrder slot e m h k = h k

-- A branch either way.
pub either-InOrder : (t : Bool) (m n : Menus) → InOrder m → InOrder n → InOrder (if t then m else n)
either-InOrder true m n h h' = h
either-InOrder false m n h h' = h'

-- The same of a branch that may be undefined.
pub either-Gives :
    (t : Bool) (o : Option Menus) (n : Menus)
    → (t ≡ true → Gives InOrder o)
    → InOrder n
    → Gives InOrder (if t then o else some n)
either-Gives true o n h h' = h refl
either-Gives false o n h h' = (n, refl, h')

pub set_state_if-Gives :
    (slot : ℤ) (o : Option State) (m : Menus)
    → Gives IsDerived o
    → InOrder m
    → Gives InOrder (set_state_if slot o m)
set_state_if-Gives slot o m (s, e, d) h =
    (set_state slot s m, rw e refl, set_state-InOrder slot s m d h)

pub push-Gives :
    (m : Menus) (slot : ℤ) (menu : Option Menu) → InOrder m → Gives InOrder (push m slot menu)
unfolding push
push-Gives m slot none h = (m, refl, h)
push-Gives m slot (some menu) h =
    let s = state_of m slot in
    either-Gives (is_valid_slot slot) _ m
      (λ v.
        set_state_if-Gives slot (rebuild (record s { menus = some menu ∷ s.menus })) m
          (rebuild-IsDerived (record s { menus = some menu ∷ s.menus }) (tt, (h slot).0)) h)
      h

pub pop_state-Gives :
    (menus : List (Option Menu)) (s : State)
    → menus ≢ []
    → All Opened menus
    → Gives IsDerived (pop_state menus s)
unfolding pop_state
pop_state-Gives [] s n h = absurd (n refl)
pop_state-Gives (menu ∷ []) s n h = (no_menus, refl, no_menus-IsDerived)
pop_state-Gives (menu ∷ below ∷ menus) s n h =
    rebuild-IsDerived (record s { menus = below ∷ menus }) (h.1)

bottom-Opened : (menus : List (Option Menu)) → menus ≢ [] → All Opened menus → Opened (bottom menus)
unfolding bottom
bottom-Opened [] n h = absurd (n refl)
bottom-Opened (menu ∷ []) n h = h.0
bottom-Opened (menu ∷ below ∷ menus) n h = bottom-Opened (below ∷ menus) (λ e. cc) (h.1)

pub keep_root-Gives :
    (s : State) → s.menus ≢ [] → All Opened s.menus → Gives IsDerived (keep_root s)
unfolding keep_root
keep_root-Gives s n h =
    rebuild-IsDerived (record s { menus = bottom s.menus ∷ [] }) (bottom-Opened s.menus n h, tt)

-- ---- rows
length-rows_for : (n : ℕ) (rows : List RowMemory) → length (rows_for n rows) ≡ n
unfolding rows_for
length-rows_for n rows = elim (Bool-cases (length rows == n)) [
  | inl e ↦ simp e (ground arith)
  | inr e ↦ simp e (length-replicate n forgotten)
]

describe_item-InOrder :
    (m : Menus) (slot : ℤ) (menu : Option Menu) (index now : ℤ) (row : Handlers)
    (item : Option MenuItem)
    → menu ≡ top (state_of m slot).menus
    → InOrder m
    → InOrder (describe_item row m slot (length_of menu) index now item).0
unfolding describe_item remember
describe_item-InOrder m slot menu index now on none e h = h
describe_item-InOrder m slot menu index now on (some item) e h =
    set_state-InOrder slot _ m
      (
        (h slot).0,
        (h slot).1,
        inr (
            length-set (rows_for (length_of menu) (state_of m slot).rows) (pos_part index) _
            ∙ length-rows_for (length_of menu) (state_of m slot).rows
            ∙ ap length_of e),
      )
      h

describe_none-InOrder :
    (on : Handlers) (m : Menus) (slot index now : ℤ)
    → InOrder m
    → InOrder (describe_item on m slot 0 index now none).0
unfolding describe_item
describe_none-InOrder on m slot index now h = h

current_cases :
    (m : Menus) (slot : ℤ)
    → (current m slot ≡ none) ⊎ (current m slot ≡ top (state_of m slot).menus)
unfolding current
current_cases m slot = elim (Bool-cases (is_valid_slot slot)) [
  | inl e ↦ rw e (inr refl)
  | inr e ↦ rw e (inl refl)
]

describe_menu-InOrder :
    (on : Handlers) (m : Menus) (slot index now : ℤ) (menu : Option Menu)
    → (menu ≡ none) ⊎ (menu ≡ top (state_of m slot).menus)
    → InOrder m
    → InOrder (describe_item on m slot (length_of menu) index now (item_of menu index)).0
describe_menu-InOrder on m slot index now none e h = describe_none-InOrder on m slot index now h
describe_menu-InOrder on m slot index now (some menu) (inl e) h = cc
describe_menu-InOrder on m slot index now (some menu) (inr e) h =
    describe_item-InOrder m slot (some menu) index now on (item_of (some menu) index) e h

pub describe-InOrder :
    (on : Handlers) (m : Menus) (slot index now : ℤ)
    → InOrder m
    → InOrder (describe on m slot index now).0
unfolding describe
describe-InOrder on m slot index now h =
    describe_menu-InOrder on m slot index now (current m slot) (current_cases m slot) h

-- ===== src/Signals/Registry.antt =====
-- include/VoltMod/Core/Signals/CallbackRegistry.hpp. A callback may use the registry that runs it, so it
-- is a function of the registry; the item that it is handed by reference is named by its handle.
-- Handles are 64 bits wide and do not run out.
pub mod Valid
pub mod Dispatch
pub mod Newcomers
use voltmod.Common.{
  ℕ, zero, suc, ◌+◌, ◌-◌, ◌*◌, ◌/◌, ◌%◌, ◌^◌, ◌≤◌, ◌<◌, ◌≡◌, refl, sym, ap, ◌∙◌, ◌≢◌, ◌↔◌, ◌⊎◌, inl,
  inr, Bool, true, false, not, ◌&&◌, ◌||◌, Option, none, some, List, [], ◌∷◌, ◌++◌, map, arith, ltb,
  leb, ◌==◌, if◌then◌else◌, ltb→lt, lt→ltb, leb→le, ==_iff, tests, Bool-cases, Option-cases,
  List-cases, drop_nil, length, get_elem?, set, length-append, get_or, take, drop, replicate,
  take-append-drop, length-take, length-drop, length-map, take_of_length-le, keep, any, all,
  find_if, All, All-append, All-keep, All-keep_self, All-map, all_mono, All-keep_both, All-Mem,
  get_elem?_lt, All-get_elem?, contains, ℤ, pos, negsuc, pos_part, neg_part, sub_ℕ, ◌+ℤ◌, ◌-ℤ◌,
  ◌≤ℤ◌, ltb_ℤ, leb_ℤ, eqb_ℤ, eqb_ℤ_iff, ℤ_discrete, Bytes, bytes, text_eq, text_eq_to, text_eq_refl,
  starts_with, starts_with-append, find_key, put_key, erase_key, find_key-put_key,
  find_key-erase_key,
}

pub record Entry (T : Type 0) : Type 0 where
  pub id : ℕ
  pub item : T
  pub removed : Bool

pub record Registry (T : Type 0) : Type 0 where
  pub entries : List (Entry T)
  pub live : ℕ
  pub depth : ℕ
  pub next_id : ℕ

module _ {T : Type 0} where
  -- A registry as it is constructed.
  abbrev pub empty_registry : Registry T
  empty_registry = record { entries = []; live = 0; depth = 0; next_id = 1 }

  unfoldable pub add : Registry T → T → Registry T × ℕ
  add r item = (
    record r {
      entries = r.entries ++ record { id = r.next_id; item = item; removed = false } ∷ [];
      live = r.live + 1;
      next_id = r.next_id + 1;
    },
    r.next_id,
  )

  -- `lower_bound` by id, and whether it found the id itself.
  unfoldable pub locate : ℕ → List (Entry T) → Option (Entry T)
  locate id [] = none
  locate id (e ∷ es) = if ltb e.id id then locate id es else if e.id == id then some e else none

  -- The located entry is marked.
  unfoldable pub mark : ℕ → List (Entry T) → List (Entry T)
  mark id [] = []
  mark id (e ∷ es) = if e.id == id then record e { removed = true } ∷ es else e ∷ mark id es

  -- The located entry is erased.
  unfoldable pub erase : ℕ → List (Entry T) → List (Entry T)
  erase id [] = []
  erase id (e ∷ es) = if e.id == id then es else e ∷ erase id es

  -- Past the guard of `Remove`.
  unfoldable pub drop_entry : Registry T → ℕ → Registry T
  unfolding mark erase
  drop_entry r id =
      if ltb 0 r.depth
      then record r { live = r.live - 1; entries = mark id r.entries }
      else record r { live = r.live - 1; entries = erase id r.entries }

  unfoldable pub remove : Registry T → ℕ → Registry T × Bool
  remove r id = elim (locate id r.entries) [
    | none ↦ (r, false)
    | some e ↦ if e.removed then (r, false) else (drop_entry r id, true)
  ]

  pub mark_all : List (Entry T) → List (Entry T)
  mark_all [] = []
  mark_all (e ∷ es) = record e { removed = true } ∷ mark_all es

  unfoldable pub clear : Registry T → Registry T
  unfolding mark_all
  clear r =
      if r.depth == 0
      then record r { live = 0; entries = [] }
      else record r { live = 0; entries = mark_all r.entries }

  -- `Find`: null once removed.
  unfoldable pub find : Registry T → ℕ → Option T
  unfolding locate
  find r id = elim (locate id r.entries) [
    | none ↦ none
    | some e ↦ if e.removed then none else some e.item
  ]

  abbrev pub size : Registry T → ℕ
  size r = r.live

  abbrev pub is_live : Entry T → Bool
  is_live e = not e.removed

  -- The destructor of `DispatchScope`.
  unfoldable pub end_scope : Registry T → Registry T
  end_scope r =
      if (r.depth - 1 == 0) && not (length r.entries == r.live)
      then record r { depth = r.depth - 1; entries = keep is_live r.entries }
      else record r { depth = r.depth - 1 }

  module _ (pred : T → Bool) (fn : ℕ → Registry T → Registry T) where
    -- The visit of the entry at the index `i`. There always is one: a dispatch erases nothing.
    unfoldable pub visit : ℕ → Registry T → Registry T
    visit i r = elim (get_elem? r.entries i) [
      | none ↦ r
      | some e ↦ if not e.removed && pred e.item then fn e.id r else r
    ]

    -- The loop over the `n` indices from `i` on.
    unfoldable pub visit_from : ℕ → ℕ → Registry T → Registry T
    visit_from zero i r = r
    visit_from (suc n) i r = visit_from n (i + 1) (visit i r)

    unfoldable pub dispatch_if : Registry T → Registry T
    dispatch_if r =
        if length r.entries == 0
        then r
        else end_scope (visit_from (length r.entries) 0 (record r { depth = r.depth + 1 }))

  -- `Dispatch`.
  unfoldable pub dispatch : (ℕ → Registry T → Registry T) → Registry T → Registry T
  unfolding dispatch_if
  dispatch fn r = dispatch_if (λ item. true) fn r

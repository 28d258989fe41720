-- ===== src/Host/CallbackList.antt =====
-- src/Host/Plugins/CallbackList.hpp. A callback with its context is of any type `C`; what a pass calls may use
-- the list that runs it, so it is a function of that list.
pub mod Ordered
use voltmod.Common.{
  ℕ, zero, suc, ◌+◌, ◌-◌, ◌*◌, ◌/◌, ◌%◌, ◌^◌, ◌≤◌, ◌<◌, ◌≡◌, refl, sym, ap, ◌∙◌, ◌≢◌, ◌↔◌, ◌⊎◌, inl,
  inr, Bool, true, false, not, ◌&&◌, ◌||◌, Option, none, some, List, [], ◌∷◌, ◌++◌, map, arith, ltb,
  leb, ◌==◌, if◌then◌else◌, ltb→lt, lt→ltb, leb→le, ==_iff, tests, Bool-cases, Option-cases,
  List-cases, drop_nil, length, get_elem?, set, length-append, get_or, take, drop, replicate,
  take-append-drop, length-take, length-drop, length-map, take_of_length-le, keep, any, all,
  find_if, All, All-append, All-keep, All-keep_self, All-map, all_mono, All-keep_both, All-Mem,
  get_elem?_lt, All-get_elem?, contains, ℤ, pos, negsuc, pos_part, neg_part, sub_ℕ, ◌+ℤ◌, ◌-ℤ◌,
  ◌≤ℤ◌, ltb_ℤ, leb_ℤ, eqb_ℤ, eqb_ℤ_iff, ℤ_discrete, Bytes, bytes, text_eq, text_eq_to, text_eq_refl,
  starts_with, starts_with-append, find_key, put_key, erase_key, find_key-put_key,
  find_key-erase_key,
}

pub record Entry (C : Type 0) : Type 0 where
  pub token : ℕ
  pub order : ℕ
  pub call : C
  pub removed : Bool

pub record CallbackList (C : Type 0) : Type 0 where
  pub entries : List (Entry C)
  pub pending : List (Entry C)
  pub depth : ℕ

module _ {C : Type 0} where
  -- Before the first entry of a later plugin.
  unfoldable pub insert : Entry C → List (Entry C) → List (Entry C)
  insert entry [] = entry ∷ []
  insert entry (held ∷ entries) =
      if ltb entry.order held.order then entry ∷ held ∷ entries else held ∷ insert entry entries

  unfoldable pub insert_all : List (Entry C) → List (Entry C) → List (Entry C)
  insert_all [] entries = entries
  insert_all (entry ∷ pending) entries = insert_all pending (insert entry entries)

  unfoldable pub apply_pending : CallbackList C → CallbackList C
  apply_pending l = record l {
    entries = insert_all l.pending (keep (λ e. not e.removed) l.entries);
    pending = [];
  }

  unfoldable pub add : CallbackList C → ℕ → ℕ → C → CallbackList C
  add l token order call =
      let entry : Entry C = record { token = token; order = order; call = call; removed = false } in
      if ltb 0 l.depth
      then record l { pending = l.pending ++ entry ∷ [] }
      else record l { entries = insert entry l.entries }

  unfoldable pub empty : CallbackList C → Bool
  empty l = (length l.pending == 0) && all (λ e. e.removed) l.entries

  unfoldable pub with_head : Entry C → Option (List (Entry C)) → Option (List (Entry C))
  with_head e none = none
  with_head e (some entries) = some (e ∷ entries)

  -- The entries with the first live one of the token marked, if there is one.
  unfoldable pub mark : ℕ → List (Entry C) → Option (List (Entry C))
  mark token [] = none
  mark token (e ∷ entries) =
      if not (e.token == token) || e.removed
      then with_head e (mark token entries)
      else some (record e { removed = true } ∷ entries)

  -- The entries without the first one of the token, if there is one.
  unfoldable pub erase : ℕ → List (Entry C) → Option (List (Entry C))
  erase token [] = none
  erase token (e ∷ entries) =
      if e.token == token then some entries else with_head e (erase token entries)

  -- The end of `Remove`, where the token may still wait.
  unfoldable pub remove_waiting : CallbackList C → Option (List (Entry C)) → CallbackList C × Bool
  remove_waiting l none = (l, false)
  remove_waiting l (some pending) = (record l { pending = pending }, true)

  unfoldable pub settle : CallbackList C → CallbackList C
  settle l = if l.depth == 0 then apply_pending l else l

  unfoldable pub remove_from : CallbackList C → ℕ → Option (List (Entry C)) → CallbackList C × Bool
  remove_from l token none = remove_waiting l (erase token l.pending)
  remove_from l token (some entries) = (settle (record l { entries = entries }), true)

  unfoldable pub remove : CallbackList C → ℕ → CallbackList C × Bool
  remove l token = remove_from l token (mark token l.entries)

  module _ (visit : Entry C → CallbackList C → CallbackList C × Bool) where
    -- The visit of an entry. There always is one: nothing is erased in a pass.
    unfoldable pub visit_entry : Option (Entry C) → CallbackList C → CallbackList C × Bool
    visit_entry none l = (l, false)
    visit_entry (some e) l = if e.removed then (l, false) else visit e l

    unfoldable pub visit_at : ℕ → CallbackList C → CallbackList C × Bool
    visit_at i l = visit_entry (get_elem? l.entries i) l

    -- The `for` loop over the `n` indices from `i` on, until a visit stops it.
    unfoldable pub walk_from : ℕ → ℕ → CallbackList C → CallbackList C × Bool
    walk_from zero i l = (l, false)
    walk_from (suc n) i l =
        let (l', stopped) = visit_at i l in
        let rest = walk_from n (i + 1) l' in if stopped then (l', true) else rest

    unfoldable pub walk : CallbackList C → CallbackList C × Bool
    walk l =
        let (l', stopped) = walk_from (length l.entries) 0 (record l { depth = l.depth + 1 }) in
        (settle (record l' { depth = l'.depth - 1 }), stopped)

  unfoldable pub dispatch :
      (C → CallbackList C → CallbackList C × Bool) → CallbackList C → CallbackList C × Bool
  dispatch visit l = walk (λ e. visit e.call) l

  unfoldable pub dispatch_to :
      ℕ → (C → CallbackList C → CallbackList C) → CallbackList C → CallbackList C
  dispatch_to order visit l =
      (walk (λ e l. if e.order == order then (visit e.call l, false) else (l, false)) l).0

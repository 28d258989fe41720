-- ===== src/Signals/Registry/Newcomers.antt =====
-- What a callback adds during a dispatch does not run in that dispatch.
use voltmod.Signals.Registry.{end_scope}
use voltmod.Signals.Registry.Valid.{Ordered-le}
use mathlib.Core.Path.{subst}
use voltmod.Signals.Registry.{Entry, Registry, visit, visit_from, dispatch_if}
use voltmod.Signals.Registry.Valid.{Ordered, Valid, ids}
use voltmod.Signals.Registry.Dispatch.{WellBehaved, visit-Running, begun}
use voltmod.Common.{
  ℕ, zero, suc, ◌+◌, ◌≤◌, ◌<◌, ◌≡◌, refl, sym, ap, ◌∙◌, inl, inr, Bool, some, List, [], ◌∷◌, ◌++◌,
  map, arith, ◌==◌, if◌then◌else◌, Option-cases, length, get_elem?, length-append, length-map,
}

-- The ids at the first `n` indices are below the bound.
abbrev Known : ℕ → ℕ → List ℕ → Type 0
Known bound n held = (i id : ℕ) → i < n → get_elem? held i ≡ some id → id < bound

get_elem?_append :
    (xs ys : List ℕ) (i : ℕ) → i < length xs → get_elem? (xs ++ ys) i ≡ get_elem? xs i
get_elem?_append [] ys i l = elim l [ ]
get_elem?_append (x ∷ xs) ys zero l = refl
get_elem?_append (x ∷ xs) ys (suc i) l = get_elem?_append xs ys i (omega arith)

Known-append :
    (bound n : ℕ) (held more : List ℕ)
    → n ≤ length held
    → Known bound n held
    → Known bound n (held ++ more)
Known-append bound n held more l k i id a b =
    k i id a (sym (get_elem?_append held more i (omega arith)) ∙ b)

module _ {T : Type 0} where
  get_elem?_ids :
      (es : List (Entry T)) (i : ℕ) (e : Entry T)
      → get_elem? es i ≡ some e
      → get_elem? (map (λ x. x.id) es) i ≡ some e.id
  get_elem?_ids [] i e h = cc
  get_elem?_ids (x ∷ es) zero e h = ground arith
  get_elem?_ids (x ∷ es) (suc i) e h = get_elem?_ids es i e h

  Ordered-Known :
      (low high : ℕ) (es : List (Entry T))
      → Ordered low high es
      → Known high (length es) (map (λ e. e.id) es)
  Ordered-Known low high [] o i id l h = cc
  Ordered-Known low high (e ∷ es) o zero id l h = ground (arith, Ordered-le (suc e.id) high es o.1)
  Ordered-Known low high (e ∷ es) o (suc i) id l h =
      Ordered-Known (suc e.id) high es o.1 i id (omega arith) h

  module _ (pred : T → Bool) (fn other : ℕ → Registry T → Registry T) (well : WellBehaved fn)
      (bound : ℕ) (agree : (id : ℕ) (r : Registry T) → id < bound → fn id r ≡ other id r) where
    visit_agree :
        (i n : ℕ) (r : Registry T)
        → Known bound n (ids r)
        → i < n
        → visit pred fn i r ≡ visit pred other i r
    unfolding visit
    visit_agree i n r k l = elim (Option-cases (get_elem? r.entries i)) [
      | inl h ↦ rw (h, visit)
      | inr (e, h) ↦
          let same = agree e.id r (k i e.id l (get_elem?_ids r.entries i e h)) in
          rw (h, visit, same)
    ]

    visit_from_agree :
        (n i total : ℕ) (r : Registry T)
        → Valid r
        → 0 < r.depth
        → Known bound total (ids r)
        → total ≤ length (ids r)
        → i + n ≤ total
        → visit_from pred fn n i r ≡ visit_from pred other n i r
    unfolding visit_from
    visit_from_agree zero i total r v d k t l = refl
    visit_from_agree (suc n) i total r v d k t l =
        let (v', d', x) = visit-Running pred fn well r i v d in
        let k' : Known bound total (ids (visit pred fn i r)) =
          subst (Known bound total) (sym x.ids_grow)
            (Known-append bound total (ids r) x.later t k) in
        let t' : total ≤ length (ids (visit pred fn i r)) =
          rw x.ids_grow (omega (arith, length-append (ids r) x.later)) in
        visit_from_agree n (i + 1) total (visit pred fn i r) v' d' k' t' (omega arith)
        ∙ ap (visit_from pred other n (i + 1)) (visit_agree i total r k (omega arith))

-- A dispatch does not depend on what the callbacks are under the handles that had not been handed out
-- when it began: an item that is added while it runs does not run in it.
pub dispatch_if_newcomers :
    {T : Type 0} (pred : T → Bool) (fn other : ℕ → Registry T → Registry T) (r : Registry T)
    → Valid r
    → WellBehaved fn
    → ((id : ℕ) (s : Registry T) → id < r.next_id → fn id s ≡ other id s)
    → dispatch_if pred fn r ≡ dispatch_if pred other r
unfolding dispatch_if
dispatch_if_newcomers pred fn other r v well agree =
    let s = record r { depth = r.depth + 1 } in
    let total = length r.entries in
    let held = length-map r.entries (λ e. e.id) in
    ap (λ t. if total == 0 then r else end_scope t)
      (visit_from_agree pred fn other well r.next_id agree total 0 total s (begun pred fn well r v)
        (omega arith) (Ordered-Known 1 r.next_id r.entries v.ordered) (omega (arith, held))
        (omega arith))

-- ===== src/Signals/Registry/Dispatch.antt =====
-- A dispatch, whatever its callbacks do to the registry.
use mathlib.Core.List.{append_assoc, append-nil}
use voltmod.Signals.Registry.{
  Entry, Registry, add, locate, mark, drop_entry, remove, mark_all, clear, is_live, end_scope,
  visit, visit_from, dispatch_if,
}
use voltmod.Signals.Registry.Valid.{Ordered, count_live, Valid, ids, Extends, Ordered-weaken}
use voltmod.Common.{
  ℕ, zero, suc, ◌+◌, ◌-◌, ◌<◌, ◌≡◌, refl, sym, ap, ◌∙◌, inl, inr, Bool, true, false, not, ◌&&◌,
  List, [], ◌∷◌, ◌++◌, map, arith, ltb, ◌==◌, lt→ltb, Bool-cases, Option-cases, length, get_elem?,
  keep,
}

module _ {T : Type 0} where
  pub Extends-refl : (r : Registry T) → Extends r r
  Extends-refl r = record { depth = refl; later = []; ids_grow = sym (append-nil (ids r)) }

  pub Extends-trans : (r s t : Registry T) → Extends r s → Extends s t → Extends r t
  Extends-trans r s t a b = record {
    depth = b.depth ∙ a.depth;
    later = a.later ++ b.later;
    ids_grow = b.ids_grow ∙ rw a.ids_grow (append_assoc (ids r) a.later b.later);
  }

  pub add-Extends : (r : Registry T) (item : T) → Extends r (add r item).0
  unfolding add
  add-Extends r item = record {
    depth = refl;
    later = r.next_id ∷ [];
    ids_grow = ids-append r.entries;
  }
    where
      ids-append :
          (es : List (Entry T))
          → map (λ e. e.id) (es ++ record { id = r.next_id; item = item; removed = false } ∷ [])
            ≡ map (λ e. e.id) es ++ r.next_id ∷ []
      ids-append [] = refl
      ids-append (e ∷ es) = ap (◌∷◌ e.id) (ids-append es)

  ids-mark : (id : ℕ) (es : List (Entry T)) → map (λ e. e.id) (mark id es) ≡ map (λ e. e.id) es
  unfolding mark
  ids-mark id [] = refl
  ids-mark id (e ∷ es) = ground (arith, ids-mark id es)

  ids-mark_all : (es : List (Entry T)) → map (λ e. e.id) (mark_all es) ≡ map (λ e. e.id) es
  unfolding mark_all
  ids-mark_all [] = refl
  ids-mark_all (e ∷ es) = ap (◌∷◌ e.id) (ids-mark_all es)

  same_ids : (r s : Registry T) → s.depth ≡ r.depth → ids s ≡ ids r → Extends r s
  same_ids r s d e = record { depth = d; later = []; ids_grow = e ∙ sym (append-nil (ids r)) }

  -- During a dispatch a removal only marks.
  pub remove-Extends : (r : Registry T) (id : ℕ) → 0 < r.depth → Extends r (remove r id).0
  unfolding remove drop_entry
  remove-Extends r id d = elim (Option-cases (locate id r.entries)) [
    | inl h ↦ rw (h, remove) (Extends-refl r)
    | inr (e, h) ↦ elim (Bool-cases e.removed) [
      | inl k ↦ rw (h, remove, k) (Extends-refl r)
      | inr k ↦
          let inside : ltb 0 r.depth ≡ true = lt→ltb 0 r.depth d in
          rw (h, remove, k) (simp (inside, drop_entry) (same_ids r _ refl (ids-mark id r.entries)))
    ]
  ]

  pub clear-Extends : (r : Registry T) → 0 < r.depth → Extends r (clear r)
  unfolding clear
  clear-Extends r d =
      let inside : (r.depth == 0) ≡ false = ground arith in
      simp inside (same_ids r _ refl (ids-mark_all r.entries))

  -- What a callback may do: anything that the registry's operations do during a dispatch.
  abbrev pub WellBehaved : (ℕ → Registry T → Registry T) → Type 0
  WellBehaved fn =
      (id : ℕ) (r : Registry T) → Valid r → 0 < r.depth → Valid (fn id r) × Extends r (fn id r)

  Ordered-keep :
      (p : Entry T → Bool) (low high : ℕ) (es : List (Entry T))
      → Ordered low high es
      → Ordered low high (keep p es)
  Ordered-keep p low high [] h = h
  Ordered-keep p low high (e ∷ es) h = ground (
    arith,
    Ordered-keep p (suc e.id) high es h.1,
    Ordered-weaken (suc e.id) low high (keep p es) (omega (arith, h.0)),
  )

  count_live-keep :
      (es : List (Entry T))
      → (count_live (keep is_live es) ≡ count_live es) × (length (keep is_live es) ≡ count_live es)
  count_live-keep [] = (refl, refl)
  count_live-keep (e ∷ es) = ground (arith, count_live-keep es)

  end_scope-Valid : (r : Registry T) → Valid r → Valid (end_scope r)
  unfolding end_scope
  end_scope-Valid r v = elim (Bool-cases ((r.depth - 1 == 0) && not (length r.entries == r.live))) [
    | inl e ↦ rw e (record {
      ordered = Ordered-keep is_live 1 r.next_id r.entries v.ordered;
      counted = omega (arith, v.counted, count_live-keep r.entries);
      settled = λ z. omega (arith, count_live-keep r.entries);
    })
    | inr e ↦ rw e (record {
      ordered = v.ordered;
      counted = v.counted;
      settled = λ z. ground (arith, v.counted);
    })
  ]

  end_scope-depth : (r : Registry T) → (end_scope r).depth ≡ r.depth - 1
  unfolding end_scope
  end_scope-depth r = ground arith

  -- A loop's state: the registry is valid, a dispatch is running, and entries have come only.
  abbrev pub Running : Registry T → Registry T → Type 0
  Running r s = Valid s × (0 < s.depth) × Extends r s

  module _ (pred : T → Bool) (fn : ℕ → Registry T → Registry T) (well : WellBehaved fn) where
    pub visit-Running :
        (r : Registry T) (i : ℕ) → Valid r → 0 < r.depth → Running r (visit pred fn i r)
    unfolding visit
    visit-Running r i v d = elim (Option-cases (get_elem? r.entries i)) [
      | inl h ↦ rw (h, visit) (v, d, Extends-refl r)
      | inr (e, h) ↦ elim (Bool-cases (not e.removed && pred e.item)) [
        | inl k ↦ let (v', x) = well e.id r v d in rw (h, visit, k) (v', omega (arith, x.depth), x)
        | inr k ↦ rw (h, visit, k) (v, d, Extends-refl r)
      ]
    ]

    visit_from-Running :
        (n i : ℕ) (r : Registry T) → Valid r → 0 < r.depth → Running r (visit_from pred fn n i r)
    unfolding visit_from
    visit_from-Running zero i r v d = (v, d, Extends-refl r)
    visit_from-Running (suc n) i r v d =
        let (v', d', x) = visit-Running r i v d in
        let (v'', d'', y) = visit_from-Running n (i + 1) (visit pred fn i r) v' d' in
        (
          v'',
          d'',
          Extends-trans r (visit pred fn i r) (visit_from pred fn n (i + 1) (visit pred fn i r)) x
              y,
        )

    pub begun : (r : Registry T) → Valid r → Valid (record r { depth = r.depth + 1 })
    begun r v = record {
      ordered = v.ordered;
      counted = v.counted;
      settled = λ z. absurd (omega arith);
    }

    -- A dispatch keeps the registry valid, at whatever depth it runs and whatever its callbacks add,
    -- remove, clear or dispatch again; so when the outermost one ends no marked entry is left. It ends
    -- at the depth at which it began.
    pub dispatch_if-Valid :
        (r : Registry T)
        → Valid r
        → Valid (dispatch_if pred fn r) × ((dispatch_if pred fn r).depth ≡ r.depth)
    unfolding dispatch_if
    dispatch_if-Valid r v = elim (Bool-cases (length r.entries == 0)) [
      | inl e ↦ rw e (v, refl)
      | inr e ↦
          let (v', d, x) =
            visit_from-Running (length r.entries) 0 (record r { depth = r.depth + 1 }) (begun r v)
              (omega arith) in
          rw e (end_scope-Valid _ v', end_scope-depth _ ∙ rw x.depth (omega arith))
    ]

    -- A dispatch inside a dispatch is itself something that a callback may do.
    pub dispatch_if-Extends :
        (r : Registry T) → Valid r → 0 < r.depth → Extends r (dispatch_if pred fn r)
    unfolding dispatch_if end_scope
    dispatch_if-Extends r v d = elim (Bool-cases (length r.entries == 0)) [
      | inl e ↦ rw e (Extends-refl r)
      | inr e ↦
          let (v', d', x) =
            visit_from-Running (length r.entries) 0 (record r { depth = r.depth + 1 }) (begun r v)
              (omega arith) in
          let nested : ((visit_from pred fn (length r.entries) 0
                    (record r { depth = r.depth + 1 })).depth
                  - 1
                == 0)
              ≡ false =
            ground (arith, x.depth) in
          rw (e, nested)
            (record { depth = omega (arith, x.depth); later = x.later; ids_grow = x.ids_grow })
    ]

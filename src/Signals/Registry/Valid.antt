-- ===== src/Signals/Registry/Valid.antt =====
-- The registry's invariant, and that every operation keeps it.
use voltmod.Signals.Registry.{
  Entry, Registry, empty_registry, add, locate, mark, erase, drop_entry, remove, mark_all, clear,
}
use voltmod.Common.{
  ℕ, suc, ◌+◌, ◌≤◌, ◌≡◌, refl, sym, inl, inr, false, some, List, [], ◌∷◌, ◌++◌, map, arith, ltb,
  ◌==◌, if◌then◌else◌, Bool-cases, Option-cases, length, length-append,
}

module _ {T : Type 0} where
  -- Ids grow along the list, from `low` on, and stay below `high`.
  abbrev pub Ordered : ℕ → ℕ → List (Entry T) → Type 0
  Ordered low high [] = low ≤ high
  Ordered low high (e ∷ es) = (low ≤ e.id) × Ordered (suc e.id) high es

  -- How many entries are not marked.
  abbrev pub count_live : List (Entry T) → ℕ
  count_live [] = 0
  count_live (e ∷ es) = (if e.removed then 0 else 1) + count_live es

  -- Ids are distinct, ordered and handed out already; the live count is right; and outside a dispatch
  -- nothing is marked.
  pub record Valid (r : Registry T) : Type 0 where
    pub ordered : Ordered 1 r.next_id r.entries
    pub counted : r.live ≡ count_live r.entries
    pub settled : r.depth ≡ 0 → count_live r.entries ≡ length r.entries

  -- The ids held, marked ones included.
  abbrev pub ids : Registry T → List ℕ
  ids r = map (λ e. e.id) r.entries

  -- What happens inside a dispatch: new entries come last, and none goes.
  pub record Extends (r s : Registry T) : Type 0 where
    pub depth : s.depth ≡ r.depth
    pub later : List ℕ
    pub ids_grow : ids s ≡ ids r ++ later

  Ordered-append :
      (low n : ℕ) (es : List (Entry T)) (item : T)
      → Ordered low n es
      → Ordered low (n + 1) (es ++ record { id = n; item = item; removed = false } ∷ [])
  Ordered-append low n [] item h = (h, omega arith)
  Ordered-append low n (e ∷ es) item h = (h.0, Ordered-append (suc e.id) n es item h.1)

  count_live-append :
      (es : List (Entry T)) (n : ℕ) (item : T)
      → count_live (es ++ record { id = n; item = item; removed = false } ∷ []) ≡ count_live es + 1
  count_live-append [] n item = omega arith
  count_live-append (e ∷ es) n item = omega (arith, count_live-append es n item)

  empty_registry-Valid : Valid (empty_registry {T = T})
  empty_registry-Valid = record { ordered = omega arith; counted = refl; settled = λ d. refl }

  pub add-Valid : (r : Registry T) (item : T) → Valid r → Valid (add r item).0
  unfolding add
  add-Valid r item v = record {
    ordered = Ordered-append 1 r.next_id r.entries item v.ordered;
    counted = omega (arith, v.counted, count_live-append r.entries r.next_id item);
    settled = λ d.
        let s = v.settled d in
        omega (
          arith,
          count_live-append r.entries r.next_id item,
          length-append r.entries (record { id = r.next_id; item = item; removed = false } ∷ []),
        );
  }

  Ordered-mark :
      (low high id : ℕ) (es : List (Entry T)) → Ordered low high es → Ordered low high (mark id es)
  unfolding mark
  Ordered-mark low high id [] h = h
  Ordered-mark low high id (e ∷ es) h = ground (arith, Ordered-mark (suc e.id) high id es h.1)

  pub Ordered-weaken :
      (low low' high : ℕ) (es : List (Entry T))
      → low' ≤ low
      → Ordered low high es
      → Ordered low' high es
  Ordered-weaken low low' high [] l h = omega arith
  Ordered-weaken low low' high (e ∷ es) l h = (omega (arith, h.0), h.1)

  Ordered-erase :
      (low high id : ℕ) (es : List (Entry T)) → Ordered low high es → Ordered low high (erase id es)
  unfolding erase
  Ordered-erase low high id [] h = h
  Ordered-erase low high id (e ∷ es) h = ground (
    arith,
    Ordered-erase (suc e.id) high id es h.1,
    Ordered-weaken (suc e.id) low high es (omega (arith, h.0)) h.1,
  )

  -- The located entry is there and unmarked: one live entry fewer.
  count_live-mark :
      (id : ℕ) (es : List (Entry T)) (e : Entry T)
      → locate id es ≡ some e
      → e.removed ≡ false
      → count_live (mark id es) + 1 ≡ count_live es
  unfolding mark locate
  count_live-mark id [] e h k = cc
  count_live-mark id (x ∷ es) e h k = ground (arith, count_live-mark id es e)

  count_live-erase :
      (id : ℕ) (es : List (Entry T)) (e : Entry T)
      → locate id es ≡ some e
      → e.removed ≡ false
      → (count_live (erase id es) + 1 ≡ count_live es) × (length (erase id es) + 1 ≡ length es)
  unfolding erase locate
  count_live-erase id [] e h k = cc
  count_live-erase id (x ∷ es) e h k = ground (arith, count_live-erase id es e)

  drop_entry-Valid :
      (r : Registry T) (id : ℕ) {e : Entry T}
      → locate id r.entries ≡ some e
      → e.removed ≡ false
      → Valid r
      → Valid (drop_entry r id)
  unfolding drop_entry
  drop_entry-Valid r id {e} h k v = elim (Bool-cases (ltb 0 r.depth)) [
    | inl d ↦ simp d (record {
      ordered = Ordered-mark 1 r.next_id id r.entries v.ordered;
      counted = omega (arith, v.counted, count_live-mark id r.entries e h k);
      settled = λ z. absurd (ground arith);
    })
    | inr d ↦ simp d (record {
      ordered = Ordered-erase 1 r.next_id id r.entries v.ordered;
      counted = omega (arith, v.counted, count_live-erase id r.entries e h k);
      settled = λ z. omega (arith, v.settled z, count_live-erase id r.entries e h k);
    })
  ]

  pub remove-Valid : (r : Registry T) (id : ℕ) → Valid r → Valid (remove r id).0
  unfolding remove
  remove-Valid r id v = elim (Option-cases (locate id r.entries)) [
    | inl h ↦ rw (h, remove) v
    | inr (e, h) ↦ elim (Bool-cases e.removed) [
      | inl k ↦ rw (h, remove, k) v
      | inr k ↦ rw (h, remove, k) (drop_entry-Valid r id h k v)
    ]
  ]

  Ordered-mark_all :
      (low high : ℕ) (es : List (Entry T)) → Ordered low high es → Ordered low high (mark_all es)
  unfolding mark_all
  Ordered-mark_all low high [] h = h
  Ordered-mark_all low high (e ∷ es) h = (h.0, Ordered-mark_all (suc e.id) high es h.1)

  count_live-mark_all : (es : List (Entry T)) → count_live (mark_all es) ≡ 0
  unfolding mark_all
  count_live-mark_all [] = refl
  count_live-mark_all (e ∷ es) = omega (arith, count_live-mark_all es)

  pub Ordered-le : (low high : ℕ) (es : List (Entry T)) → Ordered low high es → low ≤ high
  Ordered-le low high [] h = h
  Ordered-le low high (e ∷ es) h = omega (arith, h.0, Ordered-le (suc e.id) high es h.1)

  pub clear-Valid : (r : Registry T) → Valid r → Valid (clear r)
  unfolding clear
  clear-Valid r v = elim (Bool-cases (r.depth == 0)) [
    | inl d ↦ simp d (record {
      ordered = Ordered-le 1 r.next_id r.entries v.ordered;
      counted = refl;
      settled = λ z. refl;
    })
    | inr d ↦ simp d (record {
      ordered = Ordered-mark_all 1 r.next_id r.entries v.ordered;
      counted = sym (count_live-mark_all r.entries);
      settled = λ z. absurd (ground arith);
    })
  ]

  -- Adding, removing and clearing keep the registry valid, inside a dispatch and outside one.
  pub operations-Valid :
      (r : Registry T) (item : T) (id : ℕ)
      → Valid r
      → Valid (add r item).0 × Valid (remove r id).0 × Valid (clear r)
  operations-Valid r item id v = (add-Valid r item v, remove-Valid r id v, clear-Valid r v)

-- ===== src/Host/CallbackList/Ordered.antt =====
-- The order of the host's callbacks.
use voltmod.Host.CallbackList.{erase}
use voltmod.Host.CallbackList.{remove_from}
use voltmod.Host.CallbackList.{remove}
use voltmod.Host.CallbackList.{remove_waiting}
use voltmod.Host.CallbackList.{mark}
use voltmod.Host.CallbackList.{
  Entry, CallbackList, insert, insert_all, apply_pending, add, settle, with_head, visit_entry,
  visit_at, walk_from, walk,
}
use voltmod.Common.{
  ℕ, zero, suc, ◌+◌, ◌-◌, ◌≤◌, inl, inr, Bool, false, not, ◌||◌, Option, none, some, List, [], ◌∷◌,
  arith, ltb, ◌==◌, tests, Bool-cases, length, get_elem?, keep, All, All-keep, All-map,
}

module _ {C : Type 0} where
  -- Callbacks stand in the load order of their plugins.
  unfoldable pub IsOrdered : List (Entry C) → Type 0
  IsOrdered [] = Unit
  IsOrdered (e ∷ entries) = All (λ x. e.order ≤ x.order) entries × IsOrdered entries

  insert-All :
      (P : Entry C → Type 0) (e : Entry C) (entries : List (Entry C))
      → P e
      → All P entries
      → All P (insert e entries)
  unfolding insert
  insert-All P e [] p h = (p, tt)
  insert-All P e (x ∷ entries) p h = elim (Bool-cases (ltb e.order x.order)) [
    | inl q ↦ simp q (p, h)
    | inr q ↦ simp q (h.0, insert-All P e entries p h.1)
  ]

  insert-IsOrdered :
      (e : Entry C) (entries : List (Entry C)) → IsOrdered entries → IsOrdered (insert e entries)
  unfolding insert IsOrdered
  insert-IsOrdered e [] h = (tt, tt)
  insert-IsOrdered e (x ∷ entries) h = elim (Bool-cases (ltb e.order x.order)) [
    | inl q ↦
        let le : e.order ≤ x.order = omega (tests, q) in
        let above =
          All-map (λ y. x.order ≤ y.order) (λ y. e.order ≤ y.order) entries (λ y b. omega arith)
            h.0 in
        simp q ((le, above), h)
    | inr q ↦ simp q (
      insert-All (λ y. x.order ≤ y.order) e entries (ground arith) h.0,
      insert-IsOrdered e entries h.1,
    )
  ]

  insert_all-IsOrdered :
      (pending entries : List (Entry C))
      → IsOrdered entries
      → IsOrdered (insert_all pending entries)
  unfolding insert_all
  insert_all-IsOrdered [] entries h = h
  insert_all-IsOrdered (e ∷ pending) entries h =
      insert_all-IsOrdered pending (insert e entries) (insert-IsOrdered e entries h)

  keep-IsOrdered :
      (p : Entry C → Bool) (entries : List (Entry C))
      → IsOrdered entries
      → IsOrdered (keep p entries)
  unfolding IsOrdered
  keep-IsOrdered p [] h = tt
  keep-IsOrdered p (x ∷ entries) h = elim (Bool-cases (p x)) [
    | inl q ↦ simp q (All-keep (λ y. x.order ≤ y.order) p entries h.0, keep-IsOrdered p entries h.1)
    | inr q ↦ simp q (keep-IsOrdered p entries h.1)
  ]

  settle-IsOrdered : (l : CallbackList C) → IsOrdered l.entries → IsOrdered (settle l).entries
  unfolding settle apply_pending
  settle-IsOrdered l h = elim (Bool-cases (l.depth == 0)) [
    | inl q ↦ simp q (
        insert_all-IsOrdered l.pending (keep (λ e. not e.removed) l.entries)
          (keep-IsOrdered (λ e. not e.removed) l.entries h))
    | inr q ↦ simp q h
  ]

  -- What marking leaves: entries in order, of an order that is not below the one given.
  OrderedFrom : ℕ → Option (List (Entry C)) → Type 0
  OrderedFrom n none = Unit
  OrderedFrom n (some entries) = All (λ y. n ≤ y.order) entries × IsOrdered entries

  with_head-OrderedFrom :
      (n : ℕ) (e : Entry C) (o : Option (List (Entry C)))
      → n ≤ e.order
      → OrderedFrom e.order o
      → OrderedFrom n (with_head e o)
  unfolding with_head OrderedFrom IsOrdered
  with_head-OrderedFrom n e none le h = tt
  with_head-OrderedFrom n e (some entries) le h = (
    (le, All-map (λ y. e.order ≤ y.order) (λ y. n ≤ y.order) entries (λ y b. omega arith) h.0),
    h,
  )

  mark-OrderedFrom :
      (n token : ℕ) (entries : List (Entry C))
      → All (λ y. n ≤ y.order) entries
      → IsOrdered entries
      → OrderedFrom n (mark token entries)
  unfolding mark OrderedFrom IsOrdered
  mark-OrderedFrom n token [] a o = tt
  mark-OrderedFrom n token (x ∷ entries) a o =
      elim (Bool-cases (not (x.token == token) || x.removed)) [
        | inl q ↦ simp q (
            with_head-OrderedFrom n x (mark token entries) a.0
              (mark-OrderedFrom x.order token entries o.0 o.1))
        | inr q ↦ simp q (a, o)
      ]

  from_zero : (entries : List (Entry C)) → All (λ y. 0 ≤ y.order) entries
  from_zero [] = tt
  from_zero (e ∷ entries) = (omega arith, from_zero entries)

  remove_waiting-IsOrdered :
      (l : CallbackList C) (o : Option (List (Entry C)))
      → IsOrdered l.entries
      → IsOrdered (remove_waiting l o).0.entries
  unfolding remove_waiting
  remove_waiting-IsOrdered l none h = h
  remove_waiting-IsOrdered l (some pending) h = h

  remove_from-IsOrdered :
      (l : CallbackList C) (token : ℕ) (o : Option (List (Entry C)))
      → OrderedFrom 0 o
      → IsOrdered l.entries
      → IsOrdered (remove_from l token o).0.entries
  unfolding remove_from OrderedFrom
  remove_from-IsOrdered l token none m h = remove_waiting-IsOrdered l (erase token l.pending) h
  remove_from-IsOrdered l token (some entries) m h =
      settle-IsOrdered (record l { entries = entries }) m.1

  add-IsOrdered :
      (l : CallbackList C) (token order : ℕ) (call : C)
      → IsOrdered l.entries
      → IsOrdered (add l token order call).entries
  unfolding add
  add-IsOrdered l token order call h = elim (Bool-cases (ltb 0 l.depth)) [
    | inl q ↦ simp q h
    | inr q ↦ simp q (
        insert-IsOrdered (record { token = token; order = order; call = call; removed = false })
          l.entries h)
  ]

  -- `Add` and `Remove` keep the callbacks in the load order of their plugins, inside a pass and outside.
  pub operations-IsOrdered :
      (l : CallbackList C) (token order : ℕ) (call : C)
      → IsOrdered l.entries
      → IsOrdered (add l token order call).entries × IsOrdered (remove l token).0.entries
  unfolding remove
  operations-IsOrdered l token order call h = (
    add-IsOrdered l token order call h,
    remove_from-IsOrdered l token (mark token l.entries)
        (mark-OrderedFrom 0 token l.entries (from_zero l.entries) h) h,
  )

  visit_entry-IsOrdered :
      (visit : Entry C → CallbackList C → CallbackList C × Bool)
      → ((e : Entry C) (l : CallbackList C) → IsOrdered l.entries → IsOrdered (visit e l).0.entries)
      → (o : Option (Entry C)) (l : CallbackList C) → IsOrdered l.entries
      → IsOrdered (visit_entry visit o l).0.entries
  unfolding visit_entry
  visit_entry-IsOrdered visit keeps none l h = h
  visit_entry-IsOrdered visit keeps (some e) l h = elim (Bool-cases (e.removed)) [
    | inl r ↦ simp r h
    | inr r ↦ simp r (keeps e l h)
  ]

  visit_at-IsOrdered :
      (visit : Entry C → CallbackList C → CallbackList C × Bool)
      → ((e : Entry C) (l : CallbackList C) → IsOrdered l.entries → IsOrdered (visit e l).0.entries)
      → (i : ℕ) (l : CallbackList C) → IsOrdered l.entries
      → IsOrdered (visit_at visit i l).0.entries
  unfolding visit_at
  visit_at-IsOrdered visit keeps i l h =
      visit_entry-IsOrdered visit keeps (get_elem? l.entries i) l h

  walk_from-IsOrdered :
      (visit : Entry C → CallbackList C → CallbackList C × Bool)
      → ((e : Entry C) (l : CallbackList C) → IsOrdered l.entries → IsOrdered (visit e l).0.entries)
      → (n i : ℕ) (l : CallbackList C) → IsOrdered l.entries
      → IsOrdered (walk_from visit n i l).0.entries
  unfolding walk_from
  walk_from-IsOrdered visit keeps zero i l h = h
  walk_from-IsOrdered visit keeps (suc n) i l h =
      let h' = visit_at-IsOrdered visit keeps i l h in
      elim (Bool-cases ((visit_at visit i l).1)) [
        | inl q ↦ simp q h'
        | inr q ↦ simp q (walk_from-IsOrdered visit keeps n (i + 1) (visit_at visit i l).0 h')
      ]

  -- A pass over callbacks keeps them in the load order of their plugins, if each call does.
  pub walk-IsOrdered :
      (visit : Entry C → CallbackList C → CallbackList C × Bool)
      → ((e : Entry C) (l : CallbackList C) → IsOrdered l.entries → IsOrdered (visit e l).0.entries)
      → (l : CallbackList C) → IsOrdered l.entries
      → IsOrdered (walk visit l).0.entries
  unfolding walk
  walk-IsOrdered visit keeps l h =
      let (l', stopped) = walk_from visit (length l.entries) 0 (record l { depth = l.depth + 1 }) in
      settle-IsOrdered (record l' { depth = l'.depth - 1 })
        (walk_from-IsOrdered visit keeps (length l.entries) 0 (record l { depth = l.depth + 1 }) h)

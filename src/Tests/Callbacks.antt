-- ===== src/Tests/Callbacks.antt =====
-- A list of callbacks, which are numbers here, of two plugins.
use voltmod.Host.CallbackList.{
  Entry, CallbackList, insert, insert_all, apply_pending, add, empty, with_head, mark, erase,
  remove_waiting, settle, remove_from, remove, visit_entry, visit_at, walk_from, walk, dispatch,
  dispatch_to,
}
use voltmod.Host.CallbackList.Ordered.{IsOrdered, walk-IsOrdered, operations-IsOrdered}
use voltmod.Common.{ℕ, ◌≡◌, refl, Bool, true, false, [], ◌∷◌, arith, ◌==◌}

abbrev two : CallbackList ℕ
two = record {
  entries =
      record { token = 1; order = 0; call = 10; removed = false }
      ∷ record { token = 2; order = 4; call = 20; removed = false }
      ∷ [];
  pending = [];
  depth = 0;
}

two-IsOrdered : IsOrdered two.entries
unfolding IsOrdered
two-IsOrdered = ((omega arith, tt), (tt, tt))

-- Each call takes its own callback off.
abbrev once : Entry ℕ → CallbackList ℕ → CallbackList ℕ × Bool
once e l = ((remove l e.token).0, false)

once-IsOrdered :
    (e : Entry ℕ) (l : CallbackList ℕ) → IsOrdered l.entries → IsOrdered (once e l).0.entries
once-IsOrdered e l h = (operations-IsOrdered l e.token 0 0 h).1

walk-IsOrdered_example : IsOrdered (walk once two).0.entries
walk-IsOrdered_example = walk-IsOrdered once once-IsOrdered two two-IsOrdered

emptied : empty (walk once two).0 ≡ true
unfolding walk walk_from visit_at visit_entry remove remove_from mark with_head settle apply_pending
    insert_all empty
emptied = refl

-- A callback that is added in a pass comes in when the pass has ended.
added_late : dispatch (λ call l. (add l 3 2 30, call == 10)) two ≡ (add two 3 2 30, true)
unfolding dispatch walk walk_from visit_at visit_entry settle apply_pending insert_all insert add
added_late = refl

waiting :
    (remove
      (record two { pending = record { token = 5; order = 1; call = 50; removed = false } ∷ [] })
      5)
    ≡ (two, true)
unfolding remove remove_from remove_waiting mark with_head erase
waiting = refl

only_one : dispatch_to 4 (λ call l. (remove l 1).0) two ≡ (remove two 1).0
unfolding dispatch_to walk walk_from visit_at visit_entry remove remove_from mark with_head settle
    apply_pending insert_all
only_one = refl

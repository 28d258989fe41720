-- ===== src/Tests/Ui.antt =====
-- The write cache of a screen.
use voltmod.Ui.WriteCache.{
  WriteKind, text, WriteCache, nothing_sent, for_slot, store, key_for, is_sent, change_value,
  changed, change_cursor, cursor_changed, note_failure, is_first_failure, forget, invalidate,
  remove_slot,
}
use voltmod.Ui.WriteCache.Recall.{IsPlain, Same, seen, seen-changed}
use voltmod.Common.{
  ◌≡◌, refl, true, false, not, some, [], arith, ℤ, pos, ℤ_discrete, Bytes, bytes, bytes_discrete,
  find_key, put_key, erase_key,
}

abbrev fresh : WriteCache
fresh = record { slots = []; everyone = nothing_sent }

abbrev label : Bytes
label = bytes "ab"

label-IsPlain : IsPlain label
label-IsPlain = (λ e. absurd (omega (arith, e)), (λ e. absurd (omega (arith, e)), tt))

slot_known : for_slot fresh (pos 3) ≡ some nothing_sent
unfolding for_slot find_key
slot_known = refl

seen-changed_example :
    ((changed fresh (pos 3) text label (bytes "x") (bytes "5")).1
      ≡ not (is_sent (seen fresh (pos 3) text label (bytes "x")) (bytes "5")))
    × (seen
          (changed fresh (pos 3) text label (bytes "x") (bytes "5")).0
          (pos 3)
          text
          label
          (bytes "x")
        ≡ some (bytes "5"))
    × ((s : ℤ) (k : WriteKind) (e n : Bytes)
        → IsPlain e
        → ¬ Same (pos 3) text label (bytes "x") s k e n
        → seen (changed fresh (pos 3) text label (bytes "x") (bytes "5")).0 s k e n
          ≡ seen fresh s k e n)
seen-changed_example =
    seen-changed fresh (pos 3) text label (bytes "x") (bytes "5") nothing_sent slot_known
      label-IsPlain

-- The same value again is not sent again.
once :
    (changed
      (changed fresh (pos 3) text label (bytes "x") (bytes "5")).0
      (pos 3)
      text
      label
      (bytes "x")
      (bytes "5")).1
    ≡ false
unfolding changed change_value key_for is_sent for_slot store find_key put_key ℤ_discrete
    bytes_discrete
once = refl

-- A cursor and a failure are told once, a slot of nobody is told nothing.
cursor_once : (cursor_changed (cursor_changed fresh (pos 3) true).0 (pos 3) true).1 ≡ false
unfolding cursor_changed change_cursor for_slot store find_key put_key ℤ_discrete
cursor_once = refl

failure_again :
    (is_first_failure (invalidate (is_first_failure fresh (pos 3)).0 (pos 3)) (pos 3)).1 ≡ false
unfolding is_first_failure note_failure invalidate forget for_slot store find_key put_key ℤ_discrete
failure_again = refl

left : remove_slot (cursor_changed fresh (pos 3) true).0 (pos 3) ≡ fresh
unfolding remove_slot cursor_changed change_cursor for_slot store find_key put_key erase_key
    ℤ_discrete
left = refl

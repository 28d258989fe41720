-- ===== src/Menu/MenuStack/Bursts.antt =====
-- A burst of presses on a row of src/Menu/PendingCommit.cpp is one commit, the last.
use voltmod.Menu.MenuStack.{Entry, Menus, Handlers, no_entry, or_default, entry_of, set_entry}
use voltmod.Menu.MenuStack.Acting.{run_commit, apply, settle_other, hold}
use voltmod.Slots.{is_valid_slot}
use voltmod.Common.{
  ℕ, ◌≡◌, refl, ap, ◌∙◌, inl, inr, true, some, List, [], ◌∷◌, ℤ, eqb_ℤ, eqb_ℤ_iff, ℤ_discrete,
  put_key_twice, find_key_put,
}

-- `Hold` of one commit after the other for the same row.
abbrev pub hold_all : Handlers → Menus → ℤ → ℤ → List ℕ → Menus
hold_all on m slot index [] = m
hold_all on m slot index (c ∷ cs) = hold_all on (hold on m slot index c) slot index cs

entry_of-set_entry : (m : Menus) (slot : ℤ) (e : Entry) → entry_of (set_entry slot e m) slot ≡ e
unfolding entry_of
entry_of-set_entry m slot e = elim (find_key_put ℤ_discrete slot slot e m.entries) [
  | inl q ↦ ap (or_default no_entry) q.1
  | inr q ↦ absurd (q.0 refl)
]

set_entry_twice :
    (m : Menus) (slot : ℤ) (e f : Entry)
    → set_entry slot f (set_entry slot e m) ≡ set_entry slot f m
set_entry_twice m slot e f =
    ap (λ entries. record m { entries = entries }) (put_key_twice ℤ_discrete slot e f m.entries)

settle_own :
    (on : Handlers) (m : Menus) (slot index : ℤ) (e : Entry)
    → e.index ≡ index
    → settle_other on (set_entry slot e m) slot index ≡ set_entry slot e m
unfolding settle_other
settle_own on m slot index e h =
    let own : eqb_ℤ (entry_of (set_entry slot e m) slot).index index ≡ true =
      (eqb_ℤ_iff _ index).1 (ap (λ x. x.index) (entry_of-set_entry m slot e) ∙ h) in
    simp own refl

hold_twice :
    (on : Handlers) (m : Menus) (slot index : ℤ) (c d : ℕ)
    → is_valid_slot slot ≡ true
    → hold on (hold on m slot index c) slot index d ≡ hold on m slot index d
unfolding hold
hold_twice on m slot index c d v = simp v (
    ap (set_entry slot (record { index = index; commit = some d })) (
      settle_own on (settle_other on m slot index) slot index
        (record { index = index; commit = some c }) refl)
    ∙ set_entry_twice (settle_other on m slot index) slot
        (record { index = index; commit = some c }) (record { index = index; commit = some d }))

hold-hold_all :
    (on : Handlers) (m : Menus) (slot index : ℤ) (cs : List ℕ) (c : ℕ)
    → is_valid_slot slot ≡ true
    → hold on (hold_all on m slot index cs) slot index c ≡ hold on m slot index c
hold-hold_all on m slot index [] c v = refl
hold-hold_all on m slot index (d ∷ cs) c v =
    hold-hold_all on (hold on m slot index d) slot index cs c v ∙ hold_twice on m slot index d c v

-- Whatever was held of a row before, `Apply` behind the last `Hold` of the row runs the commit of the last one and no other of the
-- row, once the commit of another row has run. The slot holds nothing when that commit starts, which may hold one anew.
pub apply-hold_all :
    (on : Handlers) (m : Menus) (slot index : ℤ) (cs : List ℕ) (c : ℕ)
    → is_valid_slot slot ≡ true
    → apply on (hold on (hold_all on m slot index cs) slot index c) slot
      ≡ run_commit on (some c) slot (set_entry slot no_entry (settle_other on m slot index))
unfolding apply hold
apply-hold_all on m slot index cs c v =
    ap (λ x. apply on x slot) (hold-hold_all on m slot index cs c v) ∙ applied
  where
    applied :
        apply on (hold on m slot index c) slot
        ≡ run_commit on (some c) slot (set_entry slot no_entry (settle_other on m slot index))
    applied =
        let held = settle_other on m slot index in
        let e : Entry = record { index = index; commit = some c } in
        simp v (
          ap (λ x. run_commit on x.commit slot (set_entry slot no_entry (set_entry slot e held)))
            (entry_of-set_entry held slot e)
          ∙ ap (run_commit on (some c) slot) (set_entry_twice held slot e no_entry))

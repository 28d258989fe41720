-- ===== src/Players/Roster/Coherent.antt =====
-- The three views of the roster agree.
use voltmod.Players.Roster.{
  Player, Roster, is_bot, get, index_by_steam_id, unindex_found, unindex_by_steam_id, sort_ordered,
  reindex, drop_found, seat, by_steam_id_of,
}
use voltmod.Common.{
  ◌≡◌, refl, sym, ap, ◌∙◌, ◌≢◌, inl, inr, false, Option, none, some, arith, ◌==◌, true_not-false,
  Bool-cases, All, ℤ, ℤ_discrete, find_key, put_key, erase_key, Distinct, put_key-Distinct,
  erase_key-Distinct, All-put_key, All-erase_key, find_key_put, find_key_erased,
}

-- Who is found in a slot has that slot, which no other has; who is found by a SteamID has it, is no bot and is in his slot; and the list is
-- the players of the slots in order.
pub record Coherent (r : Roster) : Type 0 where
  pub seated : (s : ℤ) (p : Player) → get r s ≡ some p → p.slot ≡ s
  pub indexed :
      (i : ℤ) (p : Player)
      → by_steam_id_of r i ≡ some p
      → (p.steam_id ≡ i) × (is_bot p ≡ false) × (get r p.slot ≡ some p)
  pub keyed : All (λ e. e.1.slot ≡ e.0) r.by_slot
  pub distinct : Distinct ℤ_discrete r.by_slot
  pub listed : r.ordered ≡ sort_ordered r.by_slot

-- ---- a player leaves
unindex_found-by_slot :
    (p : Player) (r : Roster) (o : Option Player) → (unindex_found p r o).by_slot ≡ r.by_slot
unfolding unindex_found
unindex_found-by_slot p r none = refl
unindex_found-by_slot p r (some q) = elim (Bool-cases (q.id == p.id)) [
  | inl t ↦ simp t
  | inr t ↦ simp t
]

unindex-by_slot : (p : Player) (r : Roster) → (unindex_by_steam_id p r).by_slot ≡ r.by_slot
unfolding unindex_by_steam_id
unindex-by_slot p r = elim (Bool-cases (is_bot p)) [
  | inl t ↦ simp t
  | inr t ↦ simp t (unindex_found-by_slot p r (find_key ℤ_discrete p.steam_id r.by_steam_id))
]

unindex_found-by_steam_id_of :
    (p : Player) (r : Roster) (i : ℤ) (q : Player) (o : Option Player)
    → Coherent r
    → find_key ℤ_discrete p.steam_id r.by_steam_id ≡ o
    → by_steam_id_of (unindex_found p r o) i ≡ some q
    → (by_steam_id_of r i ≡ some q) × (q ≢ p)
unfolding unindex_found by_steam_id_of
unindex_found-by_steam_id_of p r i q none c e h = (
  h,
  λ f.
      let at : i ≡ p.steam_id = sym (c.indexed i q h).0 ∙ ap (λ x. x.steam_id) f in
      let there : find_key ℤ_discrete p.steam_id r.by_steam_id ≡ some q =
        ap (λ x. find_key ℤ_discrete x r.by_steam_id) (sym at) ∙ h in
      cc,
)
unindex_found-by_steam_id_of p r i q (some x) c e h = elim (Bool-cases (x.id == p.id)) [
  | inl t ↦
      let h' : find_key ℤ_discrete i (erase_key ℤ_discrete p.steam_id r.by_steam_id) ≡ some q =
        simp t at h in
      elim (find_key_erased ℤ_discrete p.steam_id i r.by_steam_id) [
        | inl gone ↦ let f : some q ≡ none = sym h' ∙ gone.1 in cc
        | inr kept ↦
            let h'' : find_key ℤ_discrete i r.by_steam_id ≡ some q = sym kept.1 ∙ h' in
            (h'', λ f. kept.0 (ap (λ y. y.steam_id) (sym f) ∙ (c.indexed i q h'').0))
      ]
  | inr t ↦
      let h' : find_key ℤ_discrete i r.by_steam_id ≡ some q = simp t at h in
      (
        h',
        λ f.
            let at : i ≡ p.steam_id = sym (c.indexed i q h').0 ∙ ap (λ y. y.steam_id) f in
            let there : find_key ℤ_discrete p.steam_id r.by_steam_id ≡ some q =
              ap (λ y. find_key ℤ_discrete y r.by_steam_id) (sym at) ∙ h' in
            let same : x ≡ q = cc in
            let ids : x.id ≡ p.id = ap (λ y. y.id) (same ∙ f) in absurd (ground arith),
      )
]

-- What the index has once a player is taken out of it is what it had, and is not that player.
unindex-by_steam_id_of :
    (p : Player) (r : Roster) (i : ℤ) (q : Player)
    → Coherent r
    → by_steam_id_of (unindex_by_steam_id p r) i ≡ some q
    → (by_steam_id_of r i ≡ some q) × (q ≢ p)
unfolding unindex_by_steam_id
unindex-by_steam_id_of p r i q c h = elim (Bool-cases (is_bot p)) [
  | inl t ↦
      let h' : by_steam_id_of r i ≡ some q = simp t at h in
      (h', λ f. true_not-false (is_bot q) (ap is_bot f ∙ t) (c.indexed i q h').1)
  | inr t ↦
      unindex_found-by_steam_id_of p r i q (find_key ℤ_discrete p.steam_id r.by_steam_id) c refl
        (simp t at h)
]

pub drop_found-Coherent :
    (slot : ℤ) (r : Roster) (o : Option Player)
    → get r slot ≡ o
    → Coherent r
    → Coherent (drop_found slot r o)
unfolding drop_found reindex get by_steam_id_of
drop_found-Coherent slot r none e c = c
drop_found-Coherent slot r (some p) e c = record {
  seated = λ s q h. elim (find_key_erased ℤ_discrete slot s (unindex_by_steam_id p r).by_slot) [
    | inl gone ↦ let f : some q ≡ none = sym h ∙ gone.1 in cc
    | inr kept ↦
        c.seated s q (ap (find_key ℤ_discrete s) (sym (unindex-by_slot p r)) ∙ sym kept.1 ∙ h)
  ];
  indexed = λ i q h.
      let (h', ne) = unindex-by_steam_id_of p r i q c h in
      let (a, b, g) = c.indexed i q h' in
      (
        a,
        b,
        elim (find_key_erased ℤ_discrete slot q.slot (unindex_by_steam_id p r).by_slot) [
          | inl gone ↦
              let there : find_key ℤ_discrete q.slot r.by_slot ≡ some p =
                ap (λ x. find_key ℤ_discrete x r.by_slot) (sym gone.0) ∙ e in
              let same : q ≡ p = cc in absurd (ne same)
          | inr kept ↦ kept.1 ∙ ap (find_key ℤ_discrete q.slot) (unindex-by_slot p r) ∙ g
        ],
      );
  keyed =
      All-erase_key ℤ_discrete (λ e. e.1.slot ≡ e.0) slot (unindex_by_steam_id p r).by_slot
        (rw (unindex-by_slot p r) c.keyed);
  distinct =
      erase_key-Distinct ℤ_discrete slot (unindex_by_steam_id p r).by_slot
        (rw (unindex-by_slot p r) c.distinct);
  listed = refl;
}

pub get-drop_found :
    (slot : ℤ) (r : Roster) (o : Option Player)
    → get r slot ≡ o
    → get (drop_found slot r o) slot ≡ none
unfolding drop_found reindex get
get-drop_found slot r none e = e
get-drop_found slot r (some p) e =
    elim (find_key_erased ℤ_discrete slot slot (unindex_by_steam_id p r).by_slot) [
      | inl gone ↦ gone.1
      | inr kept ↦ absurd (kept.0 refl)
    ]

-- ---- a player comes
pub seat-Coherent :
    (p : Player) (r : Roster) → get r p.slot ≡ none → Coherent r → Coherent (seat p r)
unfolding seat reindex index_by_steam_id get by_steam_id_of
seat-Coherent p r free c = elim (Bool-cases (is_bot p)) [
  | inl t ↦ simp t (record {
    seated = seated_put;
    indexed = λ i q h. kept_index i q h;
    keyed = keyed_put;
    distinct = put_key-Distinct ℤ_discrete p.slot p r.by_slot c.distinct;
    listed = refl;
  })
  | inr t ↦ simp t (record {
    seated = seated_put;
    indexed = λ i q h. elim (find_key_put ℤ_discrete p.steam_id i p r.by_steam_id) [
      | inl new ↦
          let same : p ≡ q = cc in
          (
            ap (λ x. x.steam_id) (sym same) ∙ new.0,
            ap is_bot (sym same) ∙ t,
            ap (λ x. find_key ℤ_discrete x.slot (put_key ℤ_discrete p.slot p r.by_slot)) (sym same)
                ∙ get_put
                ∙ ap some same,
          )
      | inr old ↦ kept_index i q (sym old.1 ∙ h)
    ];
    keyed = keyed_put;
    distinct = put_key-Distinct ℤ_discrete p.slot p r.by_slot c.distinct;
    listed = refl;
  })
]
  where
    seated_put :
        (s : ℤ) (q : Player)
        → find_key ℤ_discrete s (put_key ℤ_discrete p.slot p r.by_slot) ≡ some q
        → q.slot ≡ s
    seated_put s q h = elim (find_key_put ℤ_discrete p.slot s p r.by_slot) [
      | inl new ↦ let same : p ≡ q = cc in ap (λ x. x.slot) (sym same) ∙ new.0
      | inr old ↦ c.seated s q (sym old.1 ∙ h)
    ]

    keyed_put : All (λ e. e.1.slot ≡ e.0) (put_key ℤ_discrete p.slot p r.by_slot)
    keyed_put = All-put_key ℤ_discrete (λ e. e.1.slot ≡ e.0) p.slot p r.by_slot refl c.keyed

    get_put : find_key ℤ_discrete p.slot (put_key ℤ_discrete p.slot p r.by_slot) ≡ some p
    get_put = elim (find_key_put ℤ_discrete p.slot p.slot p r.by_slot) [
      | inl new ↦ new.1
      | inr old ↦ absurd (old.0 refl)
    ]

    kept_index :
        (i : ℤ) (q : Player)
        → find_key ℤ_discrete i r.by_steam_id ≡ some q
        → (q.steam_id ≡ i)
          × (is_bot q ≡ false)
          × (find_key ℤ_discrete q.slot (put_key ℤ_discrete p.slot p r.by_slot) ≡ some q)
    kept_index i q h =
        let (a, b, g) = c.indexed i q h in
        (
          a,
          b,
          elim (find_key_put ℤ_discrete p.slot q.slot p r.by_slot) [
            | inl new ↦
                let there : find_key ℤ_discrete q.slot r.by_slot ≡ none =
                  ap (λ x. find_key ℤ_discrete x r.by_slot) (sym new.0) ∙ free in
                cc
            | inr old ↦ old.1 ∙ g
          ],
        )

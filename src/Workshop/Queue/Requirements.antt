-- ===== src/Workshop/Queue/Requirements.antt =====
-- The requirements: well formed, counted, and what a client lacks of them.
use voltmod.Strings.Chars.{is_empty}
use voltmod.Workshop.Queue.{
  Requirement, DownloadQueue, hold, release, add, remove, find_client, missing_for, has_missing,
}
use voltmod.Common.{
  ℕ, ◌≤◌, ◌≡◌, refl, ap, ◌≢◌, inl, inr, false, not, ◌||◌, List, [], ◌∷◌, map, arith, ◌==◌,
  Bool-cases, Option-cases, keep, any, contains, ℤ,
}

-- Ids are not 0 and not repeated, and each has a holder.
abbrev pub WellFormed : List Requirement → Type 0
WellFormed [] = Unit {0}
WellFormed (r ∷ rs) =
    (1 ≤ r.holders) × (r.id ≢ 0) × (contains (map (λ q. q.id) rs) r.id ≡ false) × WellFormed rs

contains-hold :
    (id other : ℕ) (rs : List Requirement)
    → contains (map (λ q. q.id) (hold id rs)) other
      ≡ (contains (map (λ q. q.id) rs) other || (id == other))
unfolding hold
contains-hold id other [] = ground arith
contains-hold id other (r ∷ rs) = ground (arith, contains-hold id other rs)

hold-WellFormed :
    (id : ℕ) (rs : List Requirement) → id ≢ 0 → WellFormed rs → WellFormed (hold id rs)
unfolding hold
hold-WellFormed id [] h w = ground arith
hold-WellFormed id (r ∷ rs) h w = ground (arith, hold-WellFormed id rs h, contains-hold id r.id rs)

contains-release :
    (id other : ℕ) (rs : List Requirement)
    → contains (map (λ q. q.id) rs) other ≡ false
    → contains (map (λ q. q.id) (release id rs)) other ≡ false
unfolding release
contains-release id other [] h = refl
contains-release id other (r ∷ rs) h = ground (arith, contains-release id other rs)

release-WellFormed : (id : ℕ) (rs : List Requirement) → WellFormed rs → WellFormed (release id rs)
unfolding release
release-WellFormed id [] w = tt
release-WellFormed id (r ∷ rs) w =
    ground (arith, release-WellFormed id rs, contains-release id r.id rs)

release-hold : (id : ℕ) (rs : List Requirement) → WellFormed rs → release id (hold id rs) ≡ rs
unfolding hold release
release-hold id [] w = ground arith
release-hold id (r ∷ rs) w = ground (arith, release-hold id rs)

any-map :
    (d : List ℕ) (rs : List Requirement)
    → any (λ r. not (contains d r.id)) rs
      ≡ not (is_empty (keep (λ id. not (contains d id)) (map (λ r. r.id) rs)))
any-map d [] = refl
any-map d (r ∷ rs) = ground (arith, any-map d rs)

is_empty-map : (rs : List Requirement) → is_empty rs ≡ is_empty (map (λ r. r.id) rs)
is_empty-map [] = refl
is_empty-map (r ∷ rs) = refl

module _ {D : Type 0} (q : DownloadQueue D) where
  -- `Add` and `Remove` keep the requirements well formed.
  pub add-remove-WellFormed :
      (id : ℕ)
      → WellFormed q.required
      → WellFormed (add q id).0.required × WellFormed (remove q id).required
  unfolding add remove
  add-remove-WellFormed id w = elim (Bool-cases (id == 0)) [
    | inl e ↦ rw e (w, release-WellFormed id q.required w)
    | inr e ↦
        rw e (hold-WellFormed id q.required (ground arith) w, release-WellFormed id q.required w)
  ]

  -- On well-formed requirements a `Remove` takes back an `Add` of the same id, whether the id was
  -- required before or not.
  pub remove-add : (id : ℕ) → WellFormed q.required → id ≢ 0 → remove (add q id).0 id ≡ q
  unfolding add remove
  remove-add id w h =
      let other : (id == 0) ≡ false = ground arith in
      rw other (ap (λ rs. record q { required = rs }) (release-hold id q.required w))

  -- `HasMissing` says whether `MissingFor` lists anything, for every client, known or not.
  pub has_missing-missing_for :
      (steam_id : ℤ) → has_missing q steam_id ≡ not (is_empty (missing_for q steam_id))
  unfolding has_missing missing_for
  has_missing-missing_for steam_id = elim (Option-cases (find_client q steam_id)) [
    | inl e ↦ rw (e, has_missing) (ap not (is_empty-map q.required))
    | inr (c, e) ↦ rw (e, has_missing) (any-map c.downloaded q.required)
  ]

-- ===== src/Workshop/Queue/Sessions.antt =====
-- A client's way through its downloads: offers, reconnects, and the kick.
use mathlib.Core.Logic.{if_pos}
use voltmod.Workshop.Queue.Requirements.{WellFormed}
use voltmod.Workshop.Queue.{
  Seconds, Requirement, DownloadQueue, Client, required_ids, find_client, missing_for, client_at,
  put_client,
}
use voltmod.Common.{
  ℕ, ◌≡◌, refl, sym, ap, ◌∙◌, ◌≢◌, inl, inr, Bool, false, not, ◌||◌, some, List, [], ◌∷◌, ◌++◌, map,
  arith, ◌==◌, Option-cases, keep, contains, ℤ, ℤ_discrete, find_key-put_key,
}

-- No id is 0, and none is repeated.
abbrev pub Distinct : List ℕ → Type 0
Distinct [] = Unit {0}
Distinct (x ∷ xs) = (x ≢ 0) × (contains xs x ≡ false) × Distinct xs

WellFormed-Distinct : (rs : List Requirement) → WellFormed rs → Distinct (map (λ r. r.id) rs)
WellFormed-Distinct [] w = tt
WellFormed-Distinct (r ∷ rs) w = (w.1, w.2, WellFormed-Distinct rs w.3)

contains-keep :
    (p : ℕ → Bool) (ids : List ℕ) (x : ℕ) → contains ids x ≡ false → contains (keep p ids) x ≡ false
contains-keep p [] x h = refl
contains-keep p (y ∷ ids) x h = ground (arith, contains-keep p ids x)

Distinct-keep : (p : ℕ → Bool) (ids : List ℕ) → Distinct ids → Distinct (keep p ids)
Distinct-keep p [] d = tt
Distinct-keep p (x ∷ ids) d = ground (arith, contains-keep p ids x d.1, Distinct-keep p ids d.2)

keep_all : (ids : List ℕ) → keep (λ id. not (contains [] id)) ids ≡ ids
keep_all [] = refl
keep_all (x ∷ xs) = ap (◌∷◌ x) (keep_all xs)

contains-append_one : (d : List ℕ) (n x : ℕ) → contains (d ++ n ∷ []) x ≡ (contains d x || (n == x))
contains-append_one [] n x = ground arith
contains-append_one (y ∷ d) n x = ground (arith, contains-append_one d n x)

pub keep_absent :
    (n : ℕ) (ids : List ℕ) → contains ids n ≡ false → keep (λ x. not (n == x)) ids ≡ ids
keep_absent n [] h = refl
keep_absent n (x ∷ ids) h = ground (arith, keep_absent n ids)

-- To download one more id is to take it off what is missing.
pub keep-append_one :
    (d : List ℕ) (n : ℕ) (ids : List ℕ)
    → keep (λ x. not (contains (d ++ n ∷ []) x)) ids
      ≡ keep (λ x. not (n == x)) (keep (λ x. not (contains d x)) ids)
keep-append_one d n [] = refl
keep-append_one d n (x ∷ ids) = ground (arith, contains-append_one d n x, keep-append_one d n ids)

module _ {D : Type 0} (sec : Seconds D) (k : ℤ) where
  pub find_client-put_client :
      (q : DownloadQueue D) (c : Client D) → find_client (put_client sec q k c) k ≡ some c
  unfolding find_client put_client
  find_client-put_client q c =
      find_key-put_key ℤ_discrete k k c q.clients ∙ if_pos (ℤ_discrete k k) refl _ _

  pub client_at-put_client :
      (q : DownloadQueue D) (c : Client D) → client_at sec (put_client sec q k c) k ≡ c
  client_at-put_client q c = rw (find_client-put_client q c)

  pub required_ids-put_client :
      (q : DownloadQueue D) (c : Client D) → (put_client sec q k c).required ≡ q.required
  unfolding put_client
  required_ids-put_client q c = refl

  pub missing_for_at :
      (q : DownloadQueue D)
      → missing_for q k
        ≡ keep (λ id. not (contains (client_at sec q k).downloaded id)) (required_ids q)
  unfolding missing_for
  missing_for_at q = elim (Option-cases (find_client q k)) [
    | inl e ↦ rw e (sym (keep_all (required_ids q)))
    | inr (c, e) ↦ rw e refl
  ]

  pub missing_for-put_client :
      (q : DownloadQueue D) (c : Client D)
      → missing_for (put_client sec q k c) k
        ≡ keep (λ id. not (contains c.downloaded id)) (required_ids q)
  missing_for-put_client q c =
      missing_for_at (put_client sec q k c)
      ∙ rw (client_at-put_client q c, required_ids-put_client q c) refl

  pub missing_for-Distinct :
      (q : DownloadQueue D) → WellFormed q.required → Distinct (missing_for q k)
  missing_for-Distinct q w = rw (missing_for_at q) (
      Distinct-keep (λ id. not (contains (client_at sec q k).downloaded id)) (required_ids q)
        (WellFormed-Distinct q.required w))

-- ===== src/Hooks/PendingConVarQueries/Answers.antt =====
-- The answers to pending queries.
use voltmod.Slots.{is_valid_slot, max_players}
use voltmod.Hooks.PendingConVarQueries.{
  PendingConVarQuery, PendingConVarQueries, queries_of, with_queries, in_use, add, erase_cookie,
  take_query,
}
use voltmod.Common.{
  ℕ, zero, suc, ◌<◌, ◌≡◌, refl, ap, ◌∙◌, true, false, some, List, [], ◌∷◌, ◌++◌, arith, or_left,
  or_right, length, set, get_or, find_if, ℤ, pos, negsuc, pos_part, ltb_ℤ, eqb_ℤ, Bytes, text_eq,
  text_eq_refl,
}

get_or-set {ℓ} :
    {A : Type ℓ} (xs : List A) (i : ℕ) (v d : A) → i < length xs → get_or (set xs i v) i d ≡ v
get_or-set [] i v d h = absurd (omega arith)
get_or-set (x ∷ xs) zero v d h = refl
get_or-set (x ∷ xs) (suc i) v d h = get_or-set xs i v d (omega arith)

set-set {ℓ} : {A : Type ℓ} (xs : List A) (i : ℕ) (v w : A) → set (set xs i v) i w ≡ set xs i w
set-set [] i v w = refl
set-set (x ∷ xs) zero v w = refl
set-set (x ∷ xs) (suc i) v w = ap (◌∷◌ x) (set-set xs i v w)

set-get_or {ℓ} : {A : Type ℓ} (xs : List A) (i : ℕ) (d : A) → set xs i (get_or xs i d) ≡ xs
set-get_or [] i d = refl
set-get_or (x ∷ xs) zero d = refl
set-get_or (x ∷ xs) (suc i) d = ap (◌∷◌ x) (set-get_or xs i d)

eqb_ℤ_refl : (k : ℤ) → eqb_ℤ k k ≡ true
eqb_ℤ_refl (pos k) = ground arith
eqb_ℤ_refl (negsuc k) = ground arith

valid_slot_lt : (slot : ℤ) → is_valid_slot slot ≡ true → pos_part slot < max_players
valid_slot_lt (pos n) h = ground arith
valid_slot_lt (negsuc n) h = absurd (ground arith)

module _ {C T : Type 0} where
  find_last :
      (queries : List (PendingConVarQuery C T)) (query : PendingConVarQuery C T)
      → in_use queries query.cookie ≡ false
      → find_if (λ q. eqb_ℤ q.cookie query.cookie) (queries ++ query ∷ []) ≡ some query
  unfolding in_use
  find_last [] query h = simp (eqb_ℤ_refl query.cookie)
  find_last (q ∷ queries) query h =
      simp (or_left (eqb_ℤ q.cookie query.cookie) (in_use queries query.cookie) h) (
        find_last queries query
          (or_right (eqb_ℤ q.cookie query.cookie) (in_use queries query.cookie) h))

  erase_last :
      (queries : List (PendingConVarQuery C T)) (query : PendingConVarQuery C T)
      → in_use queries query.cookie ≡ false
      → erase_cookie query.cookie (queries ++ query ∷ []) ≡ queries
  unfolding in_use erase_cookie
  erase_last [] query h = simp (eqb_ℤ_refl query.cookie)
  erase_last (q ∷ queries) query h =
      simp (or_left (eqb_ℤ q.cookie query.cookie) (in_use queries query.cookie) h) (
        ap (◌∷◌ q) (
          erase_last queries query
            (or_right (eqb_ℤ q.cookie query.cookie) (in_use queries query.cookie) h)))

  queries_of-with_queries :
      (q : PendingConVarQueries C T) (slot : ℤ) (queries : List (PendingConVarQuery C T))
      → length q.slots ≡ max_players
      → is_valid_slot slot ≡ true
      → queries_of (with_queries q slot queries) slot ≡ queries
  queries_of-with_queries q slot queries e v =
      get_or-set q.slots (pos_part slot) queries []
        (let lt : pos_part slot < max_players = valid_slot_lt slot v in omega arith)

  add_valid :
      (q : PendingConVarQueries C T) (slot : ℤ) (cookie : ℕ) (name : Bytes) (callback : C) (now : T)
      → is_valid_slot slot ≡ true
      → add q slot (pos cookie) name callback now
        ≡ with_queries q slot (
            queries_of q slot
            ++ record { name = name; callback = callback; sent_at = now; cookie = pos cookie } ∷ [])
  unfolding add
  add_valid q slot cookie name callback now v =
      let z : ltb_ℤ (pos cookie) (pos 0) ≡ false = ground arith in rw (v, z)

  take_query_found :
      (q : PendingConVarQueries C T) (slot cookie : ℤ) (name : Bytes)
      (queries : List (PendingConVarQuery C T)) (query : PendingConVarQuery C T)
      → is_valid_slot slot ≡ true
      → queries_of q slot ≡ queries
      → find_if (λ x. eqb_ℤ x.cookie cookie) queries ≡ some query
      → text_eq query.name name ≡ true
      → take_query q slot cookie name
        ≡ (with_queries q slot (erase_cookie cookie queries), some query)
  unfolding take_query
  take_query_found q slot cookie name queries query v e f t =
      rw (v, e, f, t) (ap (λ s. (with_queries q slot (erase_cookie cookie s), some query)) e)

  -- A query that is added with a cookie of its own is what the answer with that cookie and its name takes, and the table is
  -- then what it was before.
  pub take_query-add :
      (q : PendingConVarQueries C T) (slot : ℤ) (cookie : ℕ) (name : Bytes) (callback : C) (now : T)
      → length q.slots ≡ max_players
      → is_valid_slot slot ≡ true
      → in_use (queries_of q slot) (pos cookie) ≡ false
      → take_query (add q slot (pos cookie) name callback now) slot (pos cookie) name ≡ (
        q,
        some (record { name = name; callback = callback; sent_at = now; cookie = pos cookie }),
      )
  take_query-add q slot cookie name callback now e v free =
      let query : PendingConVarQuery C T = record {
        name = name;
        callback = callback;
        sent_at = now;
        cookie = pos cookie;
      } in
      let queries = queries_of q slot ++ query ∷ [] in
      rw (add_valid q slot cookie name callback now v) (
        take_query_found (with_queries q slot queries) slot (pos cookie) name queries query v
          (queries_of-with_queries q slot queries e v) (find_last (queries_of q slot) query free)
          (text_eq_refl name)
        ∙ ap (λ s. (s, some query))
            (ap (λ s. with_queries (with_queries q slot queries) slot s)
                (erase_last (queries_of q slot) query free)
              ∙ ap (λ s. record q { slots = s })
                  (set-set q.slots (pos_part slot) queries (queries_of q slot)
                    ∙ set-get_or q.slots (pos_part slot) [])))

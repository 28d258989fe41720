-- ===== src/Hooks/PendingConVarQueries.antt =====
-- src/Hooks/PendingConVarQueries.cpp. A callback is of any type `C`. Times are `double`s, which are of any
-- type `T` here: the caller says whether a query sent at one time is too old at another.
pub mod Cookies
pub mod Answers
use voltmod.Slots.{is_valid_slot}
use voltmod.Common.{
  ℕ, zero, suc, ◌+◌, ◌%◌, ◌^◌, Bool, not, ◌||◌, Option, none, some, List, [], ◌∷◌, ◌++◌, map, ltb,
  leb, if◌then◌else◌, length, set, get_or, keep, any, find_if, ℤ, pos, negsuc, pos_part, ltb_ℤ,
  eqb_ℤ, Bytes, text_eq,
}

pub record PendingConVarQuery (C T : Type 0) : Type 0 where
  pub name : Bytes
  pub callback : C
  pub sent_at : T
  pub cookie : ℤ

pub record PendingConVarQueries (C T : Type 0) : Type 0 where
  pub slots : List (List (PendingConVarQuery C T))
  pub cookie_counter : ℕ

abbrev pub max_pending_per_slot : ℕ
max_pending_per_slot = 11

abbrev pub max_cookie : ℕ
max_cookie = 2147483647

-- The counter of a cookie, a `uint32_t`, moved on.
unfoldable pub next_counter : ℕ → ℕ
next_counter counter = let next = (counter + 1) % 2 ^ 32 in if ltb max_cookie next then 1 else next

module _ {C T : Type 0} where
  abbrev pub queries_of : PendingConVarQueries C T → ℤ → List (PendingConVarQuery C T)
  queries_of q slot = get_or q.slots (pos_part slot) []

  abbrev pub with_queries :
      PendingConVarQueries C T → ℤ → List (PendingConVarQuery C T) → PendingConVarQueries C T
  with_queries q slot queries = record q { slots = set q.slots (pos_part slot) queries }

  unfoldable pub prune :
      (T → T → Bool) → PendingConVarQueries C T → ℤ → T → PendingConVarQueries C T
  prune expired q slot now =
      if is_valid_slot slot
      then with_queries q slot (keep (λ query. not (expired now query.sent_at)) (queries_of q slot))
      else q

  unfoldable pub find : PendingConVarQueries C T → ℤ → Bytes → Option (PendingConVarQuery C T)
  find q slot name =
      if is_valid_slot slot
      then find_if (λ query. text_eq query.name name) (queries_of q slot)
      else none

  unfoldable pub count : PendingConVarQueries C T → ℤ → ℕ
  count q slot = if is_valid_slot slot then length (queries_of q slot) else 0

  unfoldable pub full : PendingConVarQueries C T → ℤ → Bool
  full q slot = leb max_pending_per_slot (count q slot)

  unfoldable pub in_use : List (PendingConVarQuery C T) → ℤ → Bool
  in_use queries cookie = any (λ query. eqb_ℤ query.cookie cookie) queries

  -- The attempts that are left, the counter and the cookie.
  unfoldable pub search_cookie : ℕ → ℕ → List (PendingConVarQuery C T) → ℕ × ℤ
  search_cookie zero counter queries = (counter, negsuc 0)
  search_cookie (suc attempts) counter queries =
      let next = next_counter counter in
      let rest = search_cookie attempts next queries in
      if in_use queries (pos next) then rest else (next, pos next)

  unfoldable pub next_cookie : PendingConVarQueries C T → ℤ → PendingConVarQueries C T × ℤ
  next_cookie q slot =
      let found = search_cookie (max_pending_per_slot + 1) q.cookie_counter (queries_of q slot) in
      if is_valid_slot slot then (record q { cookie_counter = found.0 }, found.1) else (q, negsuc 0)

  unfoldable pub add : PendingConVarQueries C T → ℤ → ℤ → Bytes → C → T → PendingConVarQueries C T
  add q slot cookie name callback now =
      if not (is_valid_slot slot) || ltb_ℤ cookie (pos 0)
      then q
      else with_queries q slot (
          queries_of q slot
          ++ record { name = name; callback = callback; sent_at = now; cookie = cookie } ∷ [])

  -- Without the first query of the cookie, which `erase` removes at the iterator.
  pub erase_cookie : ℤ → List (PendingConVarQuery C T) → List (PendingConVarQuery C T)
  erase_cookie cookie [] = []
  erase_cookie cookie (query ∷ queries) =
      if eqb_ℤ query.cookie cookie then queries else query ∷ erase_cookie cookie queries

  unfoldable pub take_query :
      PendingConVarQueries C T
      → ℤ
      → ℤ
      → Bytes
      → PendingConVarQueries C T × Option (PendingConVarQuery C T)
  take_query q slot cookie name =
      if is_valid_slot slot
      then (elim (find_if (λ query. eqb_ℤ query.cookie cookie) (queries_of q slot)) [
        | none ↦ (q, none)
        | some query ↦
            if text_eq query.name name
            then (with_queries q slot (erase_cookie cookie (queries_of q slot)), some query)
            else (q, none)
      ])
      else (q, none)

  unfoldable pub clear : PendingConVarQueries C T → ℤ → PendingConVarQueries C T
  clear q slot = if is_valid_slot slot then with_queries q slot [] else q

  unfoldable pub clear_all : PendingConVarQueries C T → PendingConVarQueries C T
  clear_all q = record q { slots = map (λ queries. []) q.slots }

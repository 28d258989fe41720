-- ===== src/Tests/Hooks.antt =====
-- Pending convar queries.
use voltmod.Hooks.PendingConVarQueries.{
  add, PendingConVarQuery, PendingConVarQueries, next_counter, queries_of, in_use, search_cookie,
  next_cookie, take_query, count, full, find, clear, clear_all, prune,
}
use voltmod.Hooks.PendingConVarQueries.Answers.{take_query-add}
use voltmod.Hooks.PendingConVarQueries.Cookies.{Fresh, next_cookie-Fresh}
use voltmod.Common.{
  ℕ, ◌-◌, ◌≡◌, refl, Bool, false, none, some, [], ◌∷◌, arith, leb, replicate, pos, bytes,
}

-- A callback is a number here, and a time a number of seconds.
abbrev asked : PendingConVarQuery ℕ ℕ
asked = record { name = bytes "cl_crosshair"; callback = 0; sent_at = 5; cookie = pos 1 }

abbrev one_slot : PendingConVarQueries ℕ ℕ
one_slot = record { slots = (asked ∷ []) ∷ []; cookie_counter = 2147483647 }

next_cookie-Fresh_example :
    Fresh
      (queries_of one_slot (pos 0))
      ((next_cookie one_slot (pos 0)).0.cookie_counter, (next_cookie one_slot (pos 0)).1)
next_cookie-Fresh_example = next_cookie-Fresh one_slot (pos 0) refl (omega arith) (omega arith)

abbrev table : PendingConVarQueries ℕ ℕ
table = record { slots = replicate 64 []; cookie_counter = 3 }

empty_slot : in_use (queries_of table (pos 2)) (pos 3) ≡ false
unfolding in_use
empty_slot = refl

take_query-add_example :
    take_query (add table (pos 2) (pos 3) (bytes "rate") 0 7) (pos 2) (pos 3) (bytes "rate")
    ≡ (table, some (record { name = bytes "rate"; callback = 0; sent_at = 7; cookie = pos 3 }))
take_query-add_example = take_query-add table (pos 2) 3 (bytes "rate") 0 7 refl refl empty_slot

wrapped : (next_cookie one_slot (pos 0)).1 ≡ pos 2
unfolding next_cookie search_cookie next_counter in_use
wrapped = refl

expired : ℕ → ℕ → Bool
expired now sent = leb 10 (now - sent)

pruned : count (prune expired one_slot (pos 0) 15) (pos 0) ≡ 0
unfolding prune count expired
pruned = refl

refused : (take_query one_slot (pos 0) (pos 1) (bytes "cl_bob")).1 ≡ none
unfolding take_query
refused = refl

not_full : full one_slot (pos 0) ≡ false
unfolding full count
not_full = refl

found : find one_slot (pos 0) (bytes "cl_crosshair") ≡ some asked
unfolding find
found = refl

cleared : clear_all one_slot ≡ clear one_slot (pos 0)
unfolding clear clear_all
cleared = refl

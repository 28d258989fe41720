-- ===== src/Tests/Workshop.antt =====
-- The download queue.
use voltmod.Workshop.Queue.{find_client}
use voltmod.Workshop.AddonList.{parse_entries}
use voltmod.Strings.Numbers.{parse_uint64}
use voltmod.Workshop.AddonList.{parse_entries}
use voltmod.Workshop.AddonList.{
  split_addon_list, parse_addon_list, append_to_addon_list, remove_from_addon_list,
}
use voltmod.Workshop.AddonList.Entries.{parse_addon_list-append_to_addon_list}
use voltmod.Workshop.Queue.{Seconds, DownloadQueue, add, remove, missing_for, next_to_send, kick}
use voltmod.Workshop.Queue.Requirements.{WellFormed, add-remove-WellFormed}
use voltmod.Workshop.Queue.Progress.{rounds, missing_for-rounds}
use voltmod.Workshop.Queue.Kick.{offers, next_to_send-offers}
use voltmod.Strings.Numbers.{digits_value, to_string}
use voltmod.Common.{ℕ, ◌-◌, ◌≡◌, refl, [], ◌∷◌, ◌++◌, arith, ltb, leb, drop, pos, bytes, find_key}

-- Whole seconds.
abbrev whole : Seconds ℕ
whole = record { zero_sec = 0; minus = λ a b. a - b; less = ltb; at_most = leb }

abbrev two_addons : DownloadQueue ℕ
two_addons = record {
  required = record { id = 7; holders = 1 } ∷ record { id = 9; holders = 2 } ∷ [];
  clients = [];
}

two_addons-WellFormed : WellFormed two_addons.required
two_addons-WellFormed =
    (omega arith, (λ e. omega arith), refl, (omega arith, (λ e. omega arith), refl, tt))

add-remove-WellFormed_example :
    WellFormed (add two_addons 5).0.required × WellFormed (remove two_addons 5).required
add-remove-WellFormed_example = add-remove-WellFormed two_addons 5 two_addons-WellFormed

missing_for-rounds_example :
    missing_for (rounds whole (pos 1) 3 60 two_addons ((100, 130) ∷ [])) (pos 1)
    ≡ drop 1 (missing_for two_addons (pos 1))
unfolding find_client find_key
missing_for-rounds_example =
    missing_for-rounds whole (pos 1) 3 60 ((100, 130) ∷ []) two_addons (omega arith)
      two_addons-WellFormed refl (refl, tt)

next_to_send-offers_example :
    (next_to_send whole (offers whole (pos 1) 100 3 3 two_addons) (pos 1) 100 3).1
    ≡ record { action = kick; id = 7; remaining = 0 }
unfolding missing_for find_client find_key
next_to_send-offers_example =
    next_to_send-offers whole (pos 1) 100 3 7 (9 ∷ []) 3 two_addons refl (omega arith)

parse_addon_list-append_to_addon_list_example :
    parse_addon_list (append_to_addon_list (bytes "7,x") (9 ∷ 7 ∷ [])).0
    ≡ parse_addon_list (bytes "7,x") ++ (append_to_addon_list (bytes "7,x") (9 ∷ 7 ∷ [])).1
parse_addon_list-append_to_addon_list_example =
    parse_addon_list-append_to_addon_list (bytes "7,x") (9 ∷ 7 ∷ [])
      (omega arith, (omega arith, tt))

append_run : (append_to_addon_list (bytes "7,x") (9 ∷ 7 ∷ [])).0 ≡ bytes "7,x,9"
unfolding append_to_addon_list split_addon_list parse_entries digits_value to_string parse_uint64
append_run = refl

remove_run : remove_from_addon_list (bytes "7,,x,9,7") (7 ∷ []) ≡ bytes ",x,9,7"
unfolding remove_from_addon_list digits_value parse_uint64
remove_run = refl

-- ===== src/Commands/Resolver.antt =====
-- src/Commands/TargetResolver.cpp: the players that a token names, out of those who are connected. The team of a slot and
-- whether its pawn is alive and the name of a player are the game's, and so are arguments, as is the function of random numbers.
pub mod Reach
use voltmod.Strings.Chars.{is_empty}
use voltmod.Players.Roster.{PlayerRef, Player, Roster, get, ref, is_bot}
use voltmod.Players.Policy.{Policy, Decision, authorized, refused, authorize}
use voltmod.Commands.Targeting.{Team, parse_target_token}
use voltmod.Commands.Targeting.Select.{
  TargetRules, PlayerView, Outcome, found, failed, filter_players, no_match,
}
use voltmod.Commands.Binding.{Resolved, players, unresolved}
use voltmod.Common.{
  ℕ, zero, suc, ◌+◌, ◌-◌, ◌*◌, ◌/◌, ◌%◌, ◌^◌, ◌≤◌, ◌<◌, ◌≡◌, refl, sym, ap, ◌∙◌, ◌≢◌, ◌↔◌, ◌⊎◌, inl,
  inr, Bool, true, false, not, ◌&&◌, ◌||◌, Option, none, some, List, [], ◌∷◌, ◌++◌, map, arith, ltb,
  leb, ◌==◌, if◌then◌else◌, ltb→lt, lt→ltb, leb→le, ==_iff, tests, or_left, or_right, or_true,
  or_right_true, and_both, true_not-false, find_if-append_some, find_if-append_none, find_if-keep,
  find_if_holds, Bool-cases, Option-cases, List-cases, drop_nil, length, get_elem?, set,
  length-append, length-set, length-replicate, get_or, take, drop, replicate, take-append-drop,
  length-take, length-drop, length-map, take_of_length-le, keep, any, all, find_if, All, All-append,
  All-keep, All-keep_self, All-map, all_mono, All-keep_both, All-Mem, All-zip, get_elem?_lt,
  All-get_elem?, contains, ℤ, pos, negsuc, pos_part, neg_part, sub_ℕ, ◌+ℤ◌, ◌-ℤ◌, ◌≤ℤ◌, ltb_ℤ,
  leb_ℤ, eqb_ℤ, eqb_ℤ_iff, ℤ_discrete, Bytes, bytes, text_eq, text_eq_to, bytes_discrete,
  text_eq_refl, starts_with, starts_with-append, find_key, put_key, erase_key, find_key-put_key,
  find_key-erase_key, put_key_twice, Distinct, put_key-Distinct, erase_key-Distinct, Distinct-All,
  All-put_key, All-erase_key, find_key_put, find_key_erased,
}

abbrev is_authorized : Decision → Bool
is_authorized (authorized caller target) = true
is_authorized (refused e) = false

-- `!caller || _policy.Authorize(…).has_value()`. No permission is asked for, so that the policy stays as it is.
unfoldable pub targetable_by : Policy → Roster → Option Player → Player → Bool
targetable_by policy r none p = true
targetable_by policy r (some caller) p =
    is_authorized (authorize policy r (ref caller) (some (ref p)) []).1

abbrev caller_slot : Option Player → ℤ
caller_slot none = negsuc 0
caller_slot (some p) = p.slot

-- The players of the slots, a slot that has none left out.
abbrev with_player : Option Player → List Player → List Player
with_player none ps = ps
with_player (some p) ps = p ∷ ps

unfoldable pub players_at : Roster → List ℤ → List Player
players_at r [] = []
players_at r (slot ∷ slots) = with_player (get r slot) (players_at r slots)

unfoldable pub resolved_of : Roster → Outcome → Resolved
resolved_of r (found slots) = players (players_at r slots)
resolved_of r (failed e count) = unresolved e count

module _ (team_of : ℤ → Team) (alive_of : ℤ → Bool) (name_of : Player → Bytes)
    (random_index : Option (ℕ → ℕ)) (policy : Policy) (r : Roster) where
  unfoldable pub view_of : Option Player → Player → PlayerView
  view_of caller p = record {
    slot = p.slot;
    steam_id = p.steam_id;
    name = name_of p;
    team = team_of p.slot;
    alive = alive_of p.slot;
    bot = is_bot p;
    targetable = targetable_by policy r caller p;
  }

  unfoldable pub resolve : Bytes → Option Player → TargetRules → Resolved
  resolve token caller rules =
      if is_empty token
      then unresolved no_match 0
      else resolved_of r (
          filter_players (map (view_of caller) r.ordered) (parse_target_token token) rules
            (caller_slot caller) random_index)

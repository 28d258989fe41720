-- ===== src/Tests/Router.antt =====
-- Arguments, the router, the resolver and a whole call of a command.
use voltmod.Tests.Players.{ann, bob, two, policy, quiet, quiet-Keeps}
use voltmod.Players.Roster.{
  Player, Roster, nobody, get, get_ref, same_player, add as add_player, drop_slot, drop_player,
  seat, reindex, index_by_steam_id, sort_ordered, insert_ordered,
}
use voltmod.Players.Policy.{
  ask_permission, check_permission, decide_target, decide, find_target, authorize_target,
  authorize_caller, authorize, key_of,
}
use voltmod.Commands.Resolver.{resolve, view_of, targetable_by, players_at, resolved_of}
use voltmod.Commands.Resolver.Reach.{InReach, resolve-InReach}
use voltmod.Players.Roster.Operations.{connect, run, run-Coherent, empty-Coherent}
use voltmod.Commands.Targeting.{Team, terrorist, parse_target_token}
use voltmod.Commands.Targeting.Select.{
  TargetRules, no_match, filter_players, candidates, settle, drop_protected, drop_dead, drop_bots,
}
use voltmod.Commands.Binding.Fitting.{IsTrailing, Fits, bind_args-Fits, required_args}
use voltmod.Commands.Binding.Range.{IsInRange, bind_args-IsInRange}
use voltmod.Commands.Router.Names.{IsRouting, add-IsRouting, find-add}
use voltmod.Commands.Router.Dispatch.{
  chat, dispatch, said, invoked, dispatch_gated, dispatch_allowed, gate, refusal, run_bound,
  invoke_with, answer_line, reply_line,
}
use voltmod.Commands.Router.Dispatch.Gates.{MayRun, Calls, dispatch-Calls}
use voltmod.Commands.Binding.{
  int, word, duration, u64, steam_id, bind_duration, bind_int, bind_int_of, bind_u64, bind_u64_of,
  bind_steam_id, bind_steam_id_of, BoundArg, bound_duration, bound_int, bound_u64, bound_steam_id,
  ArgDesc, omitted, bound_word, Resolved, players, unresolved, bound, one_target, store, bind_token,
  bind_args,
}
use voltmod.Commands.Router.{
  reply, players as players_only, has_rest, is_rest, find_else, find_alias, CommandDefinition,
  CommandRouter, add, find, alias_of, command_of,
}
use voltmod.Strings.Chars.{to_lower, trim, trim_front, trim_back, is_numeric, split_last}
use voltmod.Strings.Duration.{parse_duration, parse_lower, parse_amount, scaled, unit_seconds}
use voltmod.Strings.Numbers.{parse_int64, parse_uint64, parse_signed, parse_unsigned, digits_value}
use native.Mathlib.Decide.{ℕ_discrete}
use voltmod.Common.{
  ◌≤◌, ◌≡◌, refl, Bool, true, false, Option, none, some, List, [], ◌∷◌, arith, length, All, ℤ, pos,
  negsuc, ℤ_discrete, Bytes, bytes, bytes_discrete, find_key, put_key,
}

-- Nobody is found.
abbrev resolve_none : Bytes → Option Player → TargetRules → Resolved
resolve_none token caller rules = unresolved no_match 0

abbrev word_and_int : List ArgDesc
word_and_int =
    record { kind = word; optional = false } ∷ record { kind = int; optional = true } ∷ []

word_and_int-IsTrailing : IsTrailing word_and_int
unfolding IsTrailing
word_and_int-IsTrailing = (λ h. (refl, tt), λ h. absurd (ground arith), (λ h. tt, λ h. refl, tt))

bound_word_only :
    bind_args resolve_none none word_and_int (bytes "hi" ∷ [])
    ≡ bound (bound_word (bytes "hi") ∷ omitted ∷ [])
unfolding bind_args bind_token store
bound_word_only = refl

one_required : required_args word_and_int ≤ 1
unfolding required_args
one_required = omega arith

bind_args-Fits_example : Fits word_and_int (bound_word (bytes "hi") ∷ omitted ∷ [])
bind_args-Fits_example =
    bind_args-Fits resolve_none none word_and_int (bytes "hi" ∷ [])
      (bound_word (bytes "hi") ∷ omitted ∷ []) word_and_int-IsTrailing one_required bound_word_only

-- A length of time, two numbers at the ends of their ranges and a SteamID.
abbrev numbers : List ArgDesc
numbers =
    record { kind = duration; optional = false }
    ∷ record { kind = duration; optional = false }
    ∷ record { kind = int; optional = false }
    ∷ record { kind = u64; optional = false }
    ∷ record { kind = steam_id; optional = false }
    ∷ []

abbrev typed : List Bytes
typed =
    bytes "5m"
    ∷ bytes "90"
    ∷ bytes "-2147483648"
    ∷ bytes "18446744073709551615"
    ∷ bytes "76561197960265729"
    ∷ []

abbrev bound_numbers : List BoundArg
bound_numbers =
    bound_duration (pos 300)
    ∷ bound_duration (pos 5400)
    ∷ bound_int (negsuc 2147483647)
    ∷ bound_u64 18446744073709551615
    ∷ bound_steam_id (pos 76561197960265729)
    ∷ []

numbers_bound : bind_args resolve_none none numbers typed ≡ bound bound_numbers
unfolding bind_args bind_token store bind_duration bind_int bind_int_of bind_u64 bind_u64_of
    bind_steam_id bind_steam_id_of parse_duration parse_lower parse_amount scaled unit_seconds
    parse_int64 parse_uint64 parse_signed parse_unsigned digits_value trim trim_front trim_back
    to_lower is_numeric split_last
numbers_bound = refl

bind_args-IsInRange_example : All IsInRange bound_numbers
bind_args-IsInRange_example =
    bind_args-IsInRange resolve_none none numbers typed bound_numbers numbers_bound

abbrev kick : CommandDefinition
kick = record {
  name = bytes "Kick";
  aliases = bytes "k" ∷ [];
  description = [];
  permission_name = bytes "kick";
  usage_key = [];
  access = players_only;
  args = word_and_int;
  invoke = some (λ caller slot bs. ([], reply (bytes "done")));
}

abbrev no_commands : CommandRouter
no_commands = record { host = none; commands = []; aliases = [] }

no_commands-IsRouting : IsRouting no_commands
unfolding alias_of find_key
no_commands-IsRouting = record { apart = λ k n h. cc; stands = λ k n h. cc }

add-IsRouting_example : IsRouting (add no_commands kick []).0.0
add-IsRouting_example = add-IsRouting no_commands kick [] no_commands-IsRouting

abbrev one_command : CommandRouter
one_command = record no_commands { commands = (bytes "kick", kick) ∷ [] }

one_command-IsRouting : IsRouting one_command
unfolding alias_of find_key
one_command-IsRouting = record { apart = λ k n h. cc; stands = λ k n h. cc }

kick_found : find one_command (bytes "KICK") ≡ some kick
unfolding find to_lower command_of alias_of find_else find_alias find_key bytes_discrete ℕ_discrete
kick_found = refl

find-add_example : find (add one_command kick []).0.0 (bytes "KICK") ≡ some kick
find-add_example = find-add one_command kick [] (bytes "KICK") kick one_command-IsRouting kick_found

-- Every key is its own text.
abbrev translate : Bytes → ℤ → List (Bytes × Bytes) → Bytes
translate key slot tokens = key

dispatch-Calls_example :
    Calls
      (λ bs. MayRun policy two (some ann) kick.permission_name × Fits kick.args bs)
      (dispatch translate resolve_none policy two kick (some ann) (bytes "hi" ∷ []) chat).1
dispatch-Calls_example =
    dispatch-Calls translate resolve_none policy two kick (some ann) (bytes "hi" ∷ []) chat
      word_and_int-IsTrailing

-- ---- a whole call
said_done :
    (dispatch translate resolve_none policy two kick (some ann) (bytes "hi" ∷ []) chat).1
    ≡ invoked (bound_word (bytes "hi") ∷ omitted ∷ []) ∷ said (bytes "done") ∷ []
unfolding dispatch dispatch_gated dispatch_allowed gate refusal run_bound invoke_with answer_line
    reply_line has_rest is_rest required_args bind_args bind_token store ℤ_discrete ℕ_discrete
    find_key get get_ref same_player ask_permission check_permission decide_target decide
    find_target authorize_target authorize_caller authorize key_of
said_done = refl

bob_refused :
    (dispatch translate resolve_none policy two kick (some bob) (bytes "hi" ∷ []) chat).1
    ≡ said (bytes "cmd.noPermission") ∷ []
unfolding dispatch dispatch_gated dispatch_allowed gate refusal run_bound invoke_with answer_line
    reply_line has_rest is_rest required_args bind_args bind_token store ℤ_discrete ℕ_discrete
    find_key get get_ref same_player ask_permission check_permission decide_target decide
    find_target authorize_target authorize_caller authorize key_of
bob_refused = refl

-- ---- the resolver
abbrev team_of : ℤ → Team
team_of slot = terrorist

abbrev alive_of : ℤ → Bool
alive_of slot = true

abbrev name_of : Player → Bytes
name_of p = p.name

abbrev one_player : Roster
one_player = run quiet (connect (pos 3) (pos 77) (bytes "ann") []) nobody

ann_resolved :
    resolve team_of alive_of name_of none policy one_player (bytes "@all") none one_target
    ≡ players (ann ∷ [])
unfolding resolve view_of targetable_by players_at resolved_of filter_players candidates settle
    drop_protected drop_dead drop_bots parse_target_token run add_player drop_slot drop_player seat
    reindex index_by_steam_id sort_ordered insert_ordered get find_key put_key ℤ_discrete to_lower
ann_resolved = refl

resolve-InReach_example :
    All (InReach team_of alive_of name_of none policy one_player none one_target) (ann ∷ [])
    × (1 ≤ length (ann ∷ []))
    × (one_target.allow_multiple ≡ false → length (ann ∷ []) ≤ 1)
resolve-InReach_example =
    resolve-InReach team_of alive_of name_of none policy one_player (bytes "@all") none one_target
      (ann ∷ [])
      (run-Coherent quiet (connect (pos 3) (pos 77) (bytes "ann") []) nobody quiet-Keeps
        (empty-Coherent 0))
      ann_resolved

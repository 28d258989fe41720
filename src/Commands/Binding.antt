-- ===== src/Commands/Binding.antt =====
-- src/Commands/ArgBinding.cpp with the types of include/VoltMod/Commands/Args.hpp and ArgBinder of
-- src/Commands/ArgBinding.hpp. `Resolve` of the binder is an argument. The `front` of an empty vector has no
-- meaning; it is none here.
pub mod Fitting
pub mod Range
use voltmod.Strings.Chars.{is_numeric}
use voltmod.Strings.Parts.{join}
use voltmod.Strings.Duration.{parse_duration}
use voltmod.Strings.Numbers.{parse_int64, parse_uint64, to_string, int_max}
use voltmod.Players.Roster.{Player}
use voltmod.Commands.Targeting.Select.{
  TargetRules, TargetError, no_match, immune, ambiguous, multi_not_allowed, dead_not_allowed,
  bot_not_allowed,
}
use voltmod.Common.{
  ℕ, zero, suc, ◌+◌, ◌-◌, ◌*◌, ◌/◌, ◌%◌, ◌^◌, ◌≤◌, ◌<◌, ◌≡◌, refl, sym, ap, ◌∙◌, ◌≢◌, ◌↔◌, ◌⊎◌, inl,
  inr, Bool, true, false, not, ◌&&◌, ◌||◌, Option, none, some, List, [], ◌∷◌, ◌++◌, map, arith, ltb,
  leb, ◌==◌, if◌then◌else◌, ltb→lt, lt→ltb, leb→le, ==_iff, tests, or_left, or_right, or_true,
  or_right_true, and_both, true_not-false, find_if-append_some, find_if-append_none, find_if-keep,
  find_if_holds, Bool-cases, Option-cases, List-cases, drop_nil, length, get_elem?, set,
  length-append, get_or, take, drop, replicate, take-append-drop, length-take, length-drop,
  length-map, take_of_length-le, keep, any, all, find_if, All, All-append, All-keep, All-keep_self,
  All-map, all_mono, All-keep_both, All-Mem, get_elem?_lt, All-get_elem?, contains, ℤ, pos, negsuc,
  pos_part, neg_part, sub_ℕ, ◌+ℤ◌, ◌-ℤ◌, ◌≤ℤ◌, ltb_ℤ, leb_ℤ, eqb_ℤ, eqb_ℤ_iff, ℤ_discrete, Bytes,
  bytes, text_eq, text_eq_to, text_eq_refl, starts_with, starts_with-append, find_key, put_key,
  erase_key, find_key-put_key, find_key-erase_key,
}

pub data ArgKind : Type 0 where
  target targets duration steam_id player_or_steam_id int u64 word rest : ArgKind

pub record ArgDesc : Type 0 where
  pub kind : ArgKind
  pub optional : Bool

pub data BoundArg : Type 0 where
  -- `std::monostate`.
  omitted : BoundArg
  bound_target : Option Player → BoundArg
  bound_targets : List Player → BoundArg
  bound_duration : ℤ → BoundArg
  bound_steam_id : ℤ → BoundArg
  bound_player : Option Player → ℤ → BoundArg
  bound_int : ℤ → BoundArg
  bound_u64 : ℕ → BoundArg
  bound_word : Bytes → BoundArg
  bound_rest : Bytes → BoundArg

pub record ArgError : Type 0 where
  pub key : Bytes
  pub vars : List (Bytes × Bytes)

-- What `Resolve` gives, a failure with its count.
pub data Resolved : Type 0 where
  players : List Player → Resolved
  unresolved : TargetError → ℕ → Resolved

-- `std::expected` of an argument, and of all.
pub data Parsed : Type 0 where
  parsed : BoundArg → Parsed
  failed : ArgError → Parsed

pub data Bound : Type 0 where
  bound : List BoundArg → Bound
  unbound : ArgError → Bound

abbrev with_token : Bytes → Bytes → ArgError
with_token key token = record { key = key; vars = (bytes "token", token) ∷ [] }

unfoldable pub target_key : TargetError → ℕ → Bytes → ArgError
target_key immune count token = with_token (bytes "target.immune") token
target_key ambiguous count token = record {
  key = bytes "target.ambiguous";
  vars = (bytes "token", token) ∷ (bytes "count", to_string count) ∷ [];
}
target_key multi_not_allowed count token = record {
  key = bytes "target.ambiguous";
  vars = (bytes "token", token) ∷ (bytes "count", to_string count) ∷ [];
}
target_key dead_not_allowed count token = with_token (bytes "target.dead") token
target_key bot_not_allowed count token = with_token (bytes "target.bot") token
target_key no_match count token = with_token (bytes "target.noMatch") token

abbrev pub one_target : TargetRules
one_target = record { allow_multiple = false; allow_dead = true; allow_bots = true }

abbrev pub many_targets : TargetRules
many_targets = record one_target { allow_multiple = true }

abbrev front : List Player → Option Player
front [] = none
front (p ∷ ps) = some p

pub bind_target : Bytes → Resolved → Parsed
bind_target token (players ps) = parsed (bound_target (front ps))
bind_target token (unresolved e count) = failed (target_key e count token)

pub bind_targets : Bytes → Resolved → Parsed
bind_targets token (players ps) = parsed (bound_targets ps)
bind_targets token (unresolved e count) = failed (target_key e count token)

-- The SteamID of a player that `front` gives.
abbrev online : Option Player → BoundArg
online none = bound_player none (pos 0)
online (some p) = bound_player (some p) p.steam_id

abbrev offline : Parsed → Option ℤ → Parsed
offline otherwise none = otherwise
offline otherwise (some id) = parsed (bound_player none id)

pub bind_player_or_steam_id : Bytes → Resolved → Parsed
bind_player_or_steam_id token (players ps) = parsed (online (front ps))
bind_player_or_steam_id token (unresolved no_match count) =
    let otherwise = failed (target_key no_match count token) in
    if is_numeric token then offline otherwise (parse_int64 token) else otherwise
bind_player_or_steam_id token (unresolved e count) = failed (target_key e count token)

unfoldable pub bind_duration : Bytes → Parsed
bind_duration token =
    let seconds = parse_duration token in
    if ltb_ℤ seconds (pos 0)
    then failed (with_token (bytes "cmd.badDuration") token)
    else parsed (bound_duration (if is_numeric token then pos (pos_part seconds * 60) else seconds))

unfoldable pub bind_steam_id_of : Bytes → Option ℤ → Parsed
bind_steam_id_of token none = failed (with_token (bytes "cmd.badSteamId") token)
bind_steam_id_of token (some id) =
    if not (is_numeric token)
    then failed (with_token (bytes "cmd.badSteamId") token)
    else parsed (bound_steam_id id)

unfoldable pub bind_steam_id : Bytes → Parsed
bind_steam_id token = bind_steam_id_of token (parse_int64 token)

-- `std::in_range<int>`.
abbrev pub in_int : ℤ → Bool
in_int value = leb_ℤ (negsuc int_max) value && leb_ℤ value (pos int_max)

unfoldable pub bind_int_of : Bytes → Option ℤ → Parsed
bind_int_of token none = failed (with_token (bytes "cmd.badNumber") token)
bind_int_of token (some value) =
    if not (in_int value)
    then failed (with_token (bytes "cmd.badNumber") token)
    else parsed (bound_int value)

unfoldable pub bind_int : Bytes → Parsed
bind_int token = bind_int_of token (parse_int64 token)

unfoldable pub bind_u64_of : Bytes → Option ℕ → Parsed
bind_u64_of token none = failed (with_token (bytes "cmd.badNumber") token)
bind_u64_of token (some value) = parsed (bound_u64 value)

unfoldable pub bind_u64 : Bytes → Parsed
bind_u64 token = bind_u64_of token (parse_uint64 token)

-- `Store`, with what binding the other arguments gives.
unfoldable pub store : Parsed → Bound → Bound
store (failed e) others = unbound e
store (parsed b) (bound bs) = bound (b ∷ bs)
store (parsed b) (unbound e) = unbound e

-- The tokens left behind an argument.
abbrev left_after : ArgKind → List Bytes → List Bytes
left_after rest tokens = []
left_after _ tokens = tokens

module _ (resolve : Bytes → Option Player → TargetRules → Resolved) (caller : Option Player) where
  -- The `switch`, with the tokens behind.
  unfoldable pub bind_token : ArgKind → Bytes → List Bytes → Parsed
  bind_token target token behind = bind_target token (resolve token caller one_target)
  bind_token targets token behind = bind_targets token (resolve token caller many_targets)
  bind_token player_or_steam_id token behind =
      bind_player_or_steam_id token (resolve token caller one_target)
  bind_token duration token behind = bind_duration token
  bind_token steam_id token behind = bind_steam_id token
  bind_token int token behind = bind_int token
  bind_token u64 token behind = bind_u64 token
  bind_token word token behind = parsed (bound_word token)
  bind_token rest token behind = parsed (bound_rest (join (bytes " ") (token ∷ behind)))

  unfoldable pub bind_args : List ArgDesc → List Bytes → Bound
  bind_args [] tokens = bound []
  bind_args (a ∷ args) [] = store (parsed omitted) (bind_args args [])
  bind_args (a ∷ args) (token ∷ behind) =
      store (bind_token a.kind token behind) (bind_args args (left_after a.kind behind))

-- ===== src/Commands/Router/Dispatch.antt =====
-- `Dispatch` of src/Commands/CommandRouter.cpp and its usage lines. `translate` is `Translations::Get`, of a key, a slot and
-- tokens, and `resolve` is the binder's; they are arguments. What a call does is a list of effects: the lines it
-- says and the call of the handler.
pub mod Gates
use voltmod.Strings.Chars.{lower_char, is_empty}
use voltmod.Players.Roster.{Player, Roster, ref}
use voltmod.Players.Policy.{Policy, PolicyError, Decision, authorized, refused, authorize, key_of}
use voltmod.Commands.Syntax.{chat_prefix}
use voltmod.Commands.Binding.{
  ArgKind, target, targets, duration, steam_id, player_or_steam_id, int, u64, word, rest, ArgDesc,
  BoundArg, omitted, bound_target, bound_targets, bound_duration, bound_steam_id, bound_player,
  bound_int, bound_u64, bound_word, bound_rest, ArgError, Resolved, players, unresolved, Parsed,
  parsed, failed, Bound, bound, unbound, target_key, one_target, many_targets, bind_target,
  bind_targets, bind_player_or_steam_id, bind_duration, bind_steam_id_of, bind_steam_id, in_int,
  bind_int_of, bind_int, bind_u64_of, bind_u64, store, bind_token, bind_args,
}
use voltmod.Commands.Binding.Fitting.{required_args}
use voltmod.Commands.Targeting.Select.{TargetRules}
use voltmod.Commands.Router.{
  Answer, reply, error, CommandDefinition, Attached, CommandRouter, command_of, alias_of,
  register_name, is_some, put_alias, add_alias, add_aliases, put_command, add_registered, add,
  clear, find_alias, find_else, find, is_rest, has_rest, is_foreign,
}
use voltmod.Common.{
  ℕ, zero, suc, ◌+◌, ◌-◌, ◌*◌, ◌/◌, ◌%◌, ◌^◌, ◌≤◌, ◌<◌, ◌≡◌, refl, sym, ap, ◌∙◌, ◌≢◌, ◌↔◌, ◌⊎◌, inl,
  inr, Bool, true, false, not, ◌&&◌, ◌||◌, Option, none, some, List, [], ◌∷◌, ◌++◌, map, arith, ltb,
  leb, ◌==◌, if◌then◌else◌, ltb→lt, lt→ltb, leb→le, ==_iff, tests, or_left, or_right, or_true,
  or_right_true, and_both, true_not-false, find_if-append_some, find_if-append_none, find_if-keep,
  find_if_holds, Bool-cases, Option-cases, List-cases, drop_nil, length, get_elem?, set,
  length-append, get_or, take, drop, replicate, take-append-drop, length-take, length-drop,
  length-map, take_of_length-le, keep, any, all, find_if, All, All-append, All-keep, All-keep_self,
  All-map, all_mono, All-keep_both, All-Mem, get_elem?_lt, All-get_elem?, contains, ℤ, pos, negsuc,
  pos_part, neg_part, sub_ℕ, ◌+ℤ◌, ◌-ℤ◌, ◌≤ℤ◌, ltb_ℤ, leb_ℤ, eqb_ℤ, eqb_ℤ_iff, ℤ_discrete, Bytes,
  bytes, text_eq, text_eq_to, bytes_discrete, text_eq_refl, starts_with, starts_with-append,
  find_key, put_key, erase_key, find_key-put_key, find_key-erase_key, find_key_put, find_key_erased,
}

pub data Origin : Type 0 where
  chat console : Origin

pub data Effect : Type 0 where
  said : Bytes → Effect
  invoked : List BoundArg → Effect

-- `Name` of the enumerator.
unfoldable pub kind_name : ArgKind → Bytes
kind_name target = bytes "Target"
kind_name targets = bytes "Targets"
kind_name duration = bytes "Duration"
kind_name steam_id = bytes "SteamId"
kind_name player_or_steam_id = bytes "PlayerOrSteamId"
kind_name int = bytes "Int"
kind_name u64 = bytes "U64"
kind_name word = bytes "Word"
kind_name rest = bytes "Rest"

abbrev lower_first : Bytes → Bytes
lower_first [] = []
lower_first (c ∷ cs) = lower_char c ∷ cs

unfoldable pub usage_placeholder_key : ArgKind → Bytes
usage_placeholder_key kind = bytes "cmd.usage." ++ lower_first (kind_name kind)

-- A line that is not empty is said.
unfoldable pub reply_line : Bytes → List Effect
reply_line line = if is_empty line then [] else said line ∷ []

abbrev slot_of : Option Player → ℤ
slot_of none = negsuc 0
slot_of (some p) = p.slot

-- The permission of a caller who is a player: the policy, for its note of a warning, and the error if there is one.
unfoldable pub refusal : Policy × Decision → Policy × Option PolicyError
refusal (policy, authorized c t) = (policy, none)
refusal (policy, refused e) = (policy, some e)

unfoldable pub gate : Policy → Roster → Option Player → Bytes → Policy × Option PolicyError
gate policy r none permission = (policy, none)
gate policy r (some caller) permission =
    if is_empty permission
    then (policy, none)
    else refusal (authorize policy r (ref caller) none permission)

module _ (translate : Bytes → ℤ → List (Bytes × Bytes) → Bytes) where
  unfoldable pub failure_line : Bytes → Bytes → Bytes → ℤ → Bytes
  failure_line text key detail slot =
      if not (is_empty text)
      then text
      else if not (is_empty key)
      then translate key slot []
      else detail

  -- The loop over the arguments, with the text so far.
  unfoldable pub usage_args : ℤ → List ArgDesc → Bytes → Bytes
  usage_args slot [] args = args
  usage_args slot (a ∷ others) args = usage_args slot others (
      args
      ++ (if is_empty args then [] else bytes " ")
      ++ (if a.optional then bytes "[" else bytes "<")
      ++ translate (usage_placeholder_key a.kind) slot []
      ++ (if a.optional then bytes "]" else bytes ">"))

  abbrev prefix_of : Origin → Bytes
  prefix_of chat = chat_prefix
  prefix_of console = []

  unfoldable pub usage_tokens : CommandDefinition → ℤ → Origin → List (Bytes × Bytes)
  usage_tokens def slot origin =
      let args = usage_args slot def.args [] in
      let prefix = prefix_of origin in
      let line = prefix ++ def.name ++ (if is_empty args then [] else bytes " " ++ args) in
      (bytes "prefix", prefix)
      ∷ (bytes "command", def.name)
      ∷ (bytes "args", args)
      ∷ (bytes "usage", line)
      ∷ []

  unfoldable pub usage : CommandDefinition → ℤ → Origin → Bytes
  usage def slot origin =
      if not (is_empty def.usage_key)
      then translate def.usage_key slot []
      else translate (bytes "cmd.usage") slot (usage_tokens def slot origin)

  unfoldable pub answer_line : Answer → ℤ → Bytes
  answer_line (reply text) slot = text
  answer_line (error text key detail) slot = failure_line text key detail slot

  unfoldable pub invoke_with :
      Option (Option Player → ℤ → List BoundArg → List Bytes × Answer)
      → Option Player
      → List BoundArg
      → List Effect
  invoke_with none caller bs = []
  invoke_with (some handler) caller bs =
      let (lines, answer) = handler caller (slot_of caller) bs in
      invoked bs ∷ map said lines ++ reply_line (answer_line answer (slot_of caller))

  unfoldable pub run_bound : CommandDefinition → Option Player → Bound → List Effect
  run_bound def caller (bound bs) = invoke_with def.invoke caller bs
  run_bound def caller (unbound e) = reply_line (translate e.key (slot_of caller) e.vars)

  module _ (resolve : Bytes → Option Player → TargetRules → Resolved) where
    -- `Dispatch` past the permission.
    unfoldable pub dispatch_allowed :
        CommandDefinition → Option Player → List Bytes → Origin → List Effect
    dispatch_allowed def caller tokens origin =
        let slot = slot_of caller in
        if not (has_rest def.args) && ltb (length def.args) (length tokens)
        then reply_line (translate (bytes "cmd.tooManyArgs") slot (usage_tokens def slot origin))
        else if ltb (length tokens) (required_args def.args)
        then reply_line (usage def slot origin)
        else run_bound def caller (bind_args resolve caller def.args tokens)

    unfoldable pub dispatch_gated :
        CommandDefinition
        → Option Player
        → List Bytes
        → Origin
        → Policy × Option PolicyError
        → Policy × List Effect
    dispatch_gated def caller tokens origin (policy, none) =
        (policy, dispatch_allowed def caller tokens origin)
    dispatch_gated def caller tokens origin (policy, some e) =
        (policy, reply_line (translate (key_of e) (slot_of caller) []))

    unfoldable pub dispatch :
        Policy
        → Roster
        → CommandDefinition
        → Option Player
        → List Bytes
        → Origin
        → Policy × List Effect
    dispatch policy r def caller tokens origin =
        dispatch_gated def caller tokens origin (gate policy r caller def.permission_name)

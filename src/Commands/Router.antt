-- ===== src/Commands/Router.antt =====
-- src/Commands/CommandRouter.cpp: the commands by name and alias. The host that holds the names of all plugins is
-- CommandNames, under the number and the name of this plugin; none where the router has no host. A handler is a
-- function of the caller, its slot and the arguments, into the lines that it says and its result.
pub mod Names
pub mod Owned
pub mod Dispatch
use voltmod.Strings.Chars.{to_lower, lower_char, is_empty}
use voltmod.Players.Roster.{PlayerRef, Player, Roster, ref}
use voltmod.Players.Policy.{Policy, PolicyError, Decision, authorized, refused, authorize, key_of}
use voltmod.Commands.Binding.{
  ArgKind, target, targets, duration, steam_id, player_or_steam_id, int, u64, word, rest, ArgDesc,
  BoundArg, ArgError, Resolved, Bound, bound, unbound, bind_args,
}
use voltmod.Commands.Targeting.Select.{TargetRules}
use voltmod.Host.CommandNames.{Entry, register, owner_of}
use voltmod.Common.{
  ℕ, zero, suc, ◌+◌, ◌-◌, ◌*◌, ◌/◌, ◌%◌, ◌^◌, ◌≤◌, ◌<◌, ◌≡◌, refl, sym, ap, ◌∙◌, ◌≢◌, ◌↔◌, ◌⊎◌, inl,
  inr, Bool, true, false, not, ◌&&◌, ◌||◌, Option, none, some, List, [], ◌∷◌, ◌++◌, map, arith, ltb,
  leb, ◌==◌, if◌then◌else◌, ltb→lt, lt→ltb, leb→le, ==_iff, tests, or_left, or_right, or_true,
  or_right_true, and_both, true_not-false, find_if-append_some, find_if-append_none, find_if-keep,
  find_if_holds, Bool-cases, Option-cases, List-cases, drop_nil, length, get_elem?, set,
  length-append, length-set, length-replicate, get_or, take, drop, replicate, take-append-drop,
  length-take, length-drop, length-map, take_of_length-le, keep, any, all, find_if, All, All-append,
  All-keep, All-keep_self, All-map, all_mono, All-keep_both, All-Mem, All-zip, get_elem?_lt,
  All-get_elem?, contains, ℤ, pos, negsuc, pos_part, neg_part, sub_ℕ, ◌+ℤ◌, ◌-ℤ◌, ◌≤ℤ◌, ltb_ℤ,
  leb_ℤ, eqb_ℤ, eqb_ℤ_iff, ℤ_discrete, Bytes, bytes, text_eq, text_eq_to, bytes_discrete,
  text_eq_refl, starts_with, starts_with-append, find_key, put_key, erase_key, find_key-put_key,
  find_key-erase_key, put_key_twice, Distinct, put_key-Distinct, erase_key-Distinct, Distinct-All,
  All-put_key, All-erase_key, find_key_put, find_key_erased,
}

-- What a handler answers with: a reply or an `Error` with its line, its key and its detail.
pub data Answer : Type 0 where
  reply : Bytes → Answer
  error : Bytes → Bytes → Bytes → Answer

pub data CommandAccess : Type 0 where
  players anywhere server_only : CommandAccess

pub record CommandDefinition : Type 0 where
  pub name : Bytes
  pub aliases : List Bytes
  pub description : Bytes
  pub permission_name : Bytes
  pub usage_key : Bytes
  pub access : CommandAccess
  pub args : List ArgDesc
  pub invoke : Option (Option Player → ℤ → List BoundArg → List Bytes × Answer)

pub record Attached : Type 0 where
  pub owner : ℕ
  pub owner_name : Bytes

pub record CommandRouter : Type 0 where
  pub host : Option Attached
  pub commands : List (Bytes × CommandDefinition)
  pub aliases : List (Bytes × Bytes)

unfoldable pub command_of : CommandRouter → Bytes → Option CommandDefinition
command_of r name = find_key bytes_discrete name r.commands

unfoldable pub alias_of : CommandRouter → Bytes → Option Bytes
alias_of r name = find_key bytes_discrete name r.aliases

-- `!_host || _host->RegisterCommand(name)`, with the names of the host.
pub register_name : Option Attached → Bytes → List Entry → List Entry × Bool
register_name none name names = (names, true)
register_name (some host) name names = register names host.owner host.owner_name name

abbrev pub is_some {ℓ} : {A : Type ℓ} → Option A → Bool
is_some none = false
is_some (some a) = true

-- `_aliases.emplace` where the host lets it.
pub put_alias : CommandRouter → Bytes → Bytes → List Entry × Bool → CommandRouter × List Entry
put_alias r name key (names, false) = (r, names)
put_alias r name key (names, true) =
    (record r { aliases = put_key bytes_discrete key name r.aliases }, names)

-- One turn of the loop over the aliases.
pub add_alias : CommandRouter → Bytes → Bytes → List Entry → CommandRouter × List Entry
add_alias r name alias names =
    let key = to_lower alias in
    if is_empty key || text_eq key name
    then (r, names)
    else if is_some (command_of r key) || is_some (alias_of r key)
    then (r, names)
    else put_alias r name key (register_name r.host key names)

pub add_aliases : Bytes → List Bytes → CommandRouter × List Entry → CommandRouter × List Entry
add_aliases name [] (r, names) = (r, names)
add_aliases name (alias ∷ aliases) (r, names) =
    add_aliases name aliases (add_alias r name alias names)

abbrev put_command :
    Bytes → CommandDefinition → CommandRouter × List Entry → CommandRouter × List Entry
put_command name def (r, names) =
    (record r { commands = put_key bytes_discrete name def r.commands }, names)

-- `Add` behind the test of the host.
pub add_registered :
    CommandRouter
    → Bytes
    → CommandDefinition
    → List Entry × Bool
    → (CommandRouter × List Entry) × Option CommandDefinition
add_registered r name def (names, false) = ((r, names), none)
add_registered r name def (names, true) =
    (put_command name def (add_aliases name def.aliases (r, names)), some def)

-- The router and the names of the host, and the definition that was stored.
unfoldable pub add :
    CommandRouter
    → CommandDefinition
    → List Entry
    → (CommandRouter × List Entry) × Option CommandDefinition
add r def names =
    let name = to_lower def.name in
    if is_empty name
    then ((r, names), none)
    else if is_some (command_of r name) || is_some (alias_of r name)
    then ((r, names), none)
    else add_registered r name def (register_name r.host name names)

unfoldable pub attach : CommandRouter → Option Attached → CommandRouter
attach r host = record r { host = host }

unfoldable pub clear : CommandRouter → CommandRouter
clear r = record r { commands = []; aliases = [] }

unfoldable pub find_alias : CommandRouter → Option Bytes → Option CommandDefinition
find_alias r none = none
find_alias r (some name) = command_of r name

unfoldable pub find_else :
    Option CommandDefinition → Option CommandDefinition → Option CommandDefinition
find_else none other = other
find_else (some def) other = some def

unfoldable pub find : CommandRouter → Bytes → Option CommandDefinition
find r name =
    let key = to_lower name in find_else (command_of r key) (find_alias r (alias_of r key))

-- `RequiredArgs` and `HasRest`.
unfoldable pub is_rest : ArgKind → Bool
is_rest rest = true
is_rest _ = false

unfoldable pub has_rest : List ArgDesc → Bool
has_rest args = any (λ a. is_rest a.kind) args

-- `IsForeign`, with the names of the host.
unfoldable pub is_foreign : CommandRouter → List Entry → Bytes → Bool
is_foreign r names name =
    is_some r.host
    && (not (is_some (find r name)) && not (is_empty (owner_of names (to_lower name))))

-- ===== src/Players/Policy.antt =====
-- src/Players/Policy.cpp. The callbacks are a plugin's, none when they are unset. An error is the case that
-- gives it, with its key.
pub mod Decisions
use voltmod.Players.Roster.{PlayerRef, Player, Roster, get_ref}
use voltmod.Common.{
  ℕ, zero, suc, ◌+◌, ◌-◌, ◌*◌, ◌/◌, ◌%◌, ◌^◌, ◌≤◌, ◌<◌, ◌≡◌, refl, sym, ap, ◌∙◌, ◌≢◌, ◌↔◌, ◌⊎◌, inl,
  inr, Bool, true, false, not, ◌&&◌, ◌||◌, Option, none, some, List, [], ◌∷◌, ◌++◌, map, arith, ltb,
  leb, ◌==◌, if◌then◌else◌, ltb→lt, lt→ltb, leb→le, ==_iff, tests, or_left, or_right, or_true,
  or_right_true, and_both, true_not-false, find_if-append_some, find_if-append_none, find_if-keep,
  find_if_holds, Bool-cases, Option-cases, List-cases, drop_nil, length, get_elem?, set,
  length-append, get_or, take, drop, replicate, take-append-drop, length-take, length-drop,
  length-map, take_of_length-le, keep, any, all, find_if, All, All-append, All-keep, All-keep_self,
  All-map, all_mono, All-keep_both, All-Mem, get_elem?_lt, All-get_elem?, contains, ℤ, pos, negsuc,
  pos_part, neg_part, sub_ℕ, ◌+ℤ◌, ◌-ℤ◌, ◌≤ℤ◌, ltb_ℤ, leb_ℤ, eqb_ℤ, eqb_ℤ_iff, ℤ_discrete, Bytes,
  bytes, text_eq, text_eq_to, text_eq_refl, starts_with, starts_with-append, find_key, put_key,
  erase_key, find_key-put_key, find_key-erase_key,
}

pub record Policy : Type 0 where
  pub has_permission : Option (ℤ → Bytes → Bool)
  pub can_target : Option (ℤ → ℤ → Bool)
  pub missing_permission_warned : Bool

pub data PolicyError : Type 0 where
  caller_not_connected target_not_connected denied immune : PolicyError

-- The translation key of the reply.
unfoldable pub key_of : PolicyError → Bytes
key_of caller_not_connected = []
key_of target_not_connected = bytes "target.noMatch"
key_of denied = bytes "cmd.noPermission"
key_of immune = bytes "target.immune"

-- `Result<Authorized>`.
pub data Decision : Type 0 where
  authorized : Player → Option Player → Decision
  refused : PolicyError → Decision

abbrev is_empty : Bytes → Bool
is_empty [] = true
is_empty (c ∷ cs) = false

unfoldable pub ask_permission :
    Policy → Option (ℤ → Bytes → Bool) → ℤ → Bytes → Policy × Option PolicyError
ask_permission policy none caller permission =
    (record policy { missing_permission_warned = true }, some denied)
ask_permission policy (some has_permission) caller permission =
    (policy, (if has_permission caller permission then none else some denied))

-- The policy, for its note of the warning, and the error if there is one.
unfoldable pub check_permission : Policy → Player → Bytes → Policy × Option PolicyError
check_permission policy caller permission =
    if is_empty permission
    then (policy, none)
    else ask_permission policy policy.has_permission caller.steam_id permission

unfoldable pub ask_target : Option (ℤ → ℤ → Bool) → ℤ → ℤ → Option PolicyError
ask_target none caller target = none
ask_target (some can_target) caller target = if can_target caller target then none else some immune

unfoldable pub check_immunity : Policy → Player → ℤ → Option PolicyError
check_immunity policy caller target =
    if eqb_ℤ target caller.steam_id
    then none
    else ask_target policy.can_target caller.steam_id target

-- What `Authorize` returns for a target past the immunity check.
unfoldable pub decide_immune : Player → Player → Option PolicyError → Decision
decide_immune caller target none = authorized caller (some target)
decide_immune caller target (some e) = refused e

-- The end of `Authorize`, with its target if there is one.
unfoldable pub decide_target : Policy → Player → Option Player → Decision
decide_target policy caller none = authorized caller none
decide_target policy caller (some target) =
    decide_immune caller target (check_immunity policy caller target.steam_id)

unfoldable pub decide : Player → Option Player → Policy × Option PolicyError → Policy × Decision
decide caller target (policy, none) = (policy, decide_target policy caller target)
decide caller target (policy, some e) = (policy, refused e)

abbrev found : Option Player → Option (Option Player)
found none = none
found (some p) = some (some p)

-- The target asked for, by its reference: `none` where it is not connected.
unfoldable pub find_target : Roster → Option PlayerRef → Option (Option Player)
find_target r none = some none
find_target r (some want) = found (get_ref r want)

unfoldable pub authorize_target :
    Policy → Player → Option (Option Player) → Bytes → Policy × Decision
authorize_target policy caller none permission = (policy, refused target_not_connected)
authorize_target policy caller (some target) permission =
    decide caller target (check_permission policy caller permission)

unfoldable pub authorize_caller :
    Policy → Roster → Option Player → Option PlayerRef → Bytes → Policy × Decision
authorize_caller policy r none target permission = (policy, refused caller_not_connected)
authorize_caller policy r (some caller) target permission =
    authorize_target policy caller (find_target r target) permission

unfoldable pub authorize :
    Policy → Roster → PlayerRef → Option PlayerRef → Bytes → Policy × Decision
authorize policy r caller target permission =
    authorize_caller policy r (get_ref r caller) target permission

pub immune_after : Player → ℤ → Policy × Option PolicyError → Policy × Option PolicyError
immune_after caller target (policy, none) = (policy, check_immunity policy caller target)
immune_after caller target (policy, some e) = (policy, some e)

pub authorize_steam_id_caller : Policy → Option Player → ℤ → Bytes → Policy × Option PolicyError
authorize_steam_id_caller policy none target permission = (policy, some caller_not_connected)
authorize_steam_id_caller policy (some caller) target permission =
    immune_after caller target (check_permission policy caller permission)

pub authorize_steam_id : Policy → Roster → PlayerRef → ℤ → Bytes → Policy × Option PolicyError
authorize_steam_id policy r caller target permission =
    authorize_steam_id_caller policy (get_ref r caller) target permission

-- ===== src/Commands/Targeting.antt =====
-- src/Commands/Targeting.cpp: the target argument of a command, `@all`, `#3`, a SteamID or part of a
-- name, and the players that it selects. Randomness is the caller's function, an argument.
pub mod Select
use voltmod.Strings.Chars.{to_lower, has_sub, is_empty}
use voltmod.Strings.Numbers.{parse_int64, int_max}
use voltmod.Slots.SteamId.{is_valid, from_steam_id, from_steam_id3, prefix2, prefix3}
use voltmod.Common.{
  ℕ, zero, suc, ◌+◌, ◌-◌, ◌*◌, ◌/◌, ◌%◌, ◌^◌, ◌≤◌, ◌<◌, ◌≡◌, refl, sym, ap, ◌∙◌, ◌≢◌, ◌↔◌, ◌⊎◌, inl,
  inr, Bool, true, false, not, ◌&&◌, ◌||◌, Option, none, some, List, [], ◌∷◌, ◌++◌, map, arith, ltb,
  leb, ◌==◌, if◌then◌else◌, ltb→lt, lt→ltb, leb→le, ==_iff, tests, Bool-cases, Option-cases, length,
  get_elem?, set, length-append, get_or, take, drop, replicate, take-append-drop, length-take,
  length-drop, length-map, take_of_length-le, keep, any, all, find_if, All, All-append, All-keep,
  contains, ℤ, pos, negsuc, pos_part, neg_part, sub_ℕ, ◌+ℤ◌, ◌-ℤ◌, ◌≤ℤ◌, ltb_ℤ, leb_ℤ, eqb_ℤ,
  eqb_ℤ_iff, Bytes, bytes, text_eq, text_eq_to, text_eq_refl, starts_with, starts_with-append,
  find_key, put_key, erase_key, find_key-put_key, find_key-erase_key,
}

pub data Team : Type 0 where
  unassigned spectator terrorist counter_terrorist : Team

abbrev pub team_eq : Team → Team → Bool
team_eq unassigned unassigned = true
team_eq spectator spectator = true
team_eq terrorist terrorist = true
team_eq counter_terrorist counter_terrorist = true
team_eq _ _ = false

pub data TargetKind : Type 0 where
  everyone me not_me team dead alive bots humans random random_team slot steam_id name : TargetKind

pub record TargetQuery : Type 0 where
  pub kind : TargetKind
  pub team : Team
  pub slot : ℤ
  pub steam_id : ℤ
  pub needle : Bytes

-- The defaults of the other fields.
abbrev of_kind : TargetKind → TargetQuery
of_kind k = record { kind = k; team = unassigned; slot = negsuc 0; steam_id = pos 0; needle = [] }

abbrev of_team : TargetKind → Team → TargetQuery
of_team k t = record (of_kind k) { team = t }

-- The selectors that begin with `@`.
pub parse_selector : Bytes → Option TargetQuery
parse_selector lower =
    if text_eq lower (bytes "@all") || text_eq lower (bytes "@*")
    then some (of_kind everyone)
    else if text_eq lower (bytes "@me")
    then some (of_kind me)
    else if text_eq lower (bytes "@!me")
    then some (of_kind not_me)
    else if text_eq lower (bytes "@t")
    then some (of_team team terrorist)
    else if text_eq lower (bytes "@ct")
    then some (of_team team counter_terrorist)
    else if text_eq lower (bytes "@spec")
    then some (of_team team spectator)
    else if text_eq lower (bytes "@dead")
    then some (of_kind dead)
    else if text_eq lower (bytes "@alive")
    then some (of_kind alive)
    else if text_eq lower (bytes "@bot") || text_eq lower (bytes "@bots")
    then some (of_kind bots)
    else if text_eq lower (bytes "@human") || text_eq lower (bytes "@humans")
    then some (of_kind humans)
    else if text_eq lower (bytes "@random")
    then some (of_kind random)
    else if text_eq lower (bytes "@randomt")
    then some (of_team random_team terrorist)
    else if text_eq lower (bytes "@randomct")
    then some (of_team random_team counter_terrorist)
    else none

-- A number that a slot can hold: not negative, and within `int`.
abbrev as_slot : Option ℤ → Option TargetQuery
as_slot none = none
as_slot (some (negsuc n)) = none
as_slot (some (pos n)) =
    if leb n int_max then some (record (of_kind slot) { slot = pos n }) else none

-- `#` and a slot number.
pub parse_slot : Bytes → Option TargetQuery
parse_slot [] = none
parse_slot (c ∷ []) = none
parse_slot (c ∷ d ∷ ds) = if c == b'#' then as_slot (parse_int64 (d ∷ ds)) else none

abbrev as_steam_id : Option ℤ → Option TargetQuery
as_steam_id none = none
as_steam_id (some id) = some (record (of_kind steam_id) { steam_id = id })

abbrev only_valid : Option ℤ → Option ℤ
only_valid none = none
only_valid (some id) = if is_valid id then some id else none

abbrev or_else {ℓ} : {A : Type ℓ} → Option A → Option A → Option A
or_else none b = b
or_else (some a) b = some a

-- A SteamID in one of its three forms, tried in this order.
pub parse_steam_id : Bytes → Option TargetQuery
parse_steam_id raw =
    or_else (as_steam_id (if leb 15 (length raw) then only_valid (parse_int64 raw) else none)) (
      or_else (as_steam_id (if starts_with prefix3 raw then from_steam_id3 raw else none))
        (as_steam_id (if starts_with prefix2 raw then from_steam_id raw else none)))

abbrev pub get_query : Option TargetQuery → TargetQuery → TargetQuery
get_query none d = d
get_query (some q) d = q

-- `ParseTargetToken`.
unfoldable pub parse_target_token : Bytes → TargetQuery
unfolding to_lower parse_selector parse_slot parse_steam_id
parse_target_token raw =
    let lower = to_lower raw in
    get_query (or_else (parse_selector lower) (or_else (parse_slot raw) (parse_steam_id raw)))
      (record (of_kind name) { needle = lower })

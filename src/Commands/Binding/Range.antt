-- ===== src/Commands/Binding/Range.antt =====
-- The numbers that `BindArgs` of src/Commands/ArgBinding.cpp gives a handler.
use voltmod.Strings.Chars.{is_numeric}
use voltmod.Strings.Duration.{parse_duration, parse_duration-IsDuration, IsDuration}
use voltmod.Strings.Numbers.{parse_int64, parse_uint64, int_max, int64_max, uint64_max}
use voltmod.Strings.Numbers.Range.{Within, parse_int64-Within, parse_uint64_le}
use voltmod.Players.Roster.{Player}
use voltmod.Commands.Targeting.Select.{
  TargetRules, no_match, immune, ambiguous, multi_not_allowed, dead_not_allowed, bot_not_allowed,
}
use mathlib.Core.Path.{subst}
use voltmod.Commands.Binding.{
  ArgKind, target, targets, duration, steam_id, player_or_steam_id, int, u64, word, rest, ArgDesc,
  BoundArg, omitted, bound_duration, bound_steam_id, bound_player, bound_int, bound_u64, Resolved,
  players, unresolved, Parsed, parsed, failed, Bound, bound, unbound, target_key, one_target,
  many_targets, bind_target, bind_targets, offline, bind_player_or_steam_id, bind_duration,
  bind_steam_id_of, bind_steam_id, in_int, bind_int_of, bind_int, bind_u64_of, bind_u64, store,
  left_after, bind_token, bind_args,
}
use voltmod.Common.{
  ℕ, ◌*◌, ◌≤◌, ◌≡◌, refl, ◌⊎◌, inl, inr, true, false, Option, none, some, List, [], ◌∷◌, arith,
  if◌then◌else◌, Bool-cases, All, ℤ, pos, negsuc, pos_part, ltb_ℤ, Bytes, bytes,
}

-- Seconds from 0 to an `int` of minutes, an `int`, a `uint64_t`, an `int64_t` for the SteamID of nobody who is online.
abbrev pub IsInRange : BoundArg → Type 0
IsInRange (bound_duration d) = (n : ℕ) × (d ≡ pos n) × (n ≤ int_max * 60)
IsInRange (bound_int v) = Within int_max v
IsInRange (bound_u64 n) = n ≤ uint64_max
IsInRange (bound_steam_id v) = Within int64_max v
IsInRange (bound_player none v) = Within int64_max v ⊎ (v ≡ pos 0)
IsInRange _ = Unit

abbrev ParsedInRange : Parsed → Type 0
ParsedInRange (parsed b) = IsInRange b
ParsedInRange (failed e) = Unit

abbrev BoundInRange : Bound → Type 0
BoundInRange (bound bs) = All IsInRange bs
BoundInRange (unbound e) = Unit

store-InRange :
    (p : Parsed) (others : Bound)
    → ParsedInRange p
    → BoundInRange others
    → BoundInRange (store p others)
unfolding store
store-InRange (failed e) others h h' = tt
store-InRange (parsed b) (bound bs) h h' = (h, h')
store-InRange (parsed b) (unbound e) h h' = tt

duration_le : (n : ℕ) → IsDuration (pos n) → n ≤ int_max
duration_le n (inl e) = cc
duration_le n (inr (m, e, le)) = let same : n ≡ m = cc in rw same le

seconds-InRange :
    (token : Bytes) (d : ℤ)
    → IsDuration d
    → ParsedInRange (
        if ltb_ℤ d (pos 0)
        then failed (record { key = bytes "cmd.badDuration"; vars = (bytes "token", token) ∷ [] })
        else parsed (bound_duration (if is_numeric token then pos (pos_part d * 60) else d)))
seconds-InRange token (negsuc n) h =
    let below : ltb_ℤ (negsuc n) (pos 0) ≡ true = ground arith in simp below tt
seconds-InRange token (pos n) h =
    let above : ltb_ℤ (pos n) (pos 0) ≡ false = ground arith in
    let small : n ≤ int_max = duration_le n h in
    elim (Bool-cases (is_numeric token)) [
      | inl t ↦ simp (above, t) (n * 60, refl, omega arith)
      | inr t ↦ simp (above, t) (n, refl, omega arith)
    ]

bind_steam_id-InRange :
    (token : Bytes) (o : Option ℤ)
    → parse_int64 token ≡ o
    → ParsedInRange (bind_steam_id_of token o)
unfolding bind_steam_id_of
bind_steam_id-InRange token none h = tt
bind_steam_id-InRange token (some v) h = elim (Bool-cases (is_numeric token)) [
  | inl t ↦ rw t (parse_int64-Within token h)
  | inr t ↦ rw t tt
]

in_int-Within : (v : ℤ) → in_int v ≡ true → Within int_max v
in_int-Within v h = ground arith

bind_int-InRange : (token : Bytes) (o : Option ℤ) → ParsedInRange (bind_int_of token o)
unfolding bind_int_of
bind_int-InRange token none = tt
bind_int-InRange token (some v) = elim (Bool-cases (in_int v)) [
  | inl t ↦ simp t (in_int-Within v t)
  | inr t ↦ simp t tt
]

bind_u64-InRange :
    (token : Bytes) (o : Option ℕ) → parse_uint64 token ≡ o → ParsedInRange (bind_u64_of token o)
unfolding bind_u64_of
bind_u64-InRange token none h = tt
bind_u64-InRange token (some v) h = parse_uint64_le token h

offline-InRange :
    (token : Bytes) (e : Parsed) (o : Option ℤ)
    → ParsedInRange e
    → parse_int64 token ≡ o
    → ParsedInRange (offline e o)
offline-InRange token e none h h' = h
offline-InRange token e (some v) h h' = inl (parse_int64-Within token h')

bind_player-InRange :
    (token : Bytes) (r : Resolved) → ParsedInRange (bind_player_or_steam_id token r)
unfolding bind_player_or_steam_id
bind_player-InRange token (players []) = inr refl
bind_player-InRange token (players (p ∷ ps)) = tt
bind_player-InRange token (unresolved no_match count) = elim (Bool-cases (is_numeric token)) [
  | inl t ↦
      rw t (
        offline-InRange token (failed (target_key no_match count token)) (parse_int64 token) tt
          refl)
  | inr t ↦ rw t tt
]
bind_player-InRange token (unresolved immune count) = tt
bind_player-InRange token (unresolved ambiguous count) = tt
bind_player-InRange token (unresolved multi_not_allowed count) = tt
bind_player-InRange token (unresolved dead_not_allowed count) = tt
bind_player-InRange token (unresolved bot_not_allowed count) = tt

bind_target-InRange : (token : Bytes) (r : Resolved) → ParsedInRange (bind_target token r)
unfolding bind_target
bind_target-InRange token (players ps) = tt
bind_target-InRange token (unresolved e count) = tt

bind_targets-InRange : (token : Bytes) (r : Resolved) → ParsedInRange (bind_targets token r)
unfolding bind_targets
bind_targets-InRange token (players ps) = tt
bind_targets-InRange token (unresolved e count) = tt

module _ (resolve : Bytes → Option Player → TargetRules → Resolved) (caller : Option Player) where
  bind_token-InRange :
      (k : ArgKind) (token : Bytes) (behind : List Bytes)
      → ParsedInRange (bind_token resolve caller k token behind)
  unfolding bind_token bind_steam_id bind_int bind_u64 bind_duration
  bind_token-InRange target token behind =
      bind_target-InRange token (resolve token caller one_target)
  bind_token-InRange targets token behind =
      bind_targets-InRange token (resolve token caller many_targets)
  bind_token-InRange player_or_steam_id token behind =
      bind_player-InRange token (resolve token caller one_target)
  bind_token-InRange duration token behind =
      seconds-InRange token (parse_duration token) (parse_duration-IsDuration token)
  bind_token-InRange steam_id token behind = bind_steam_id-InRange token (parse_int64 token) refl
  bind_token-InRange int token behind = bind_int-InRange token (parse_int64 token)
  bind_token-InRange u64 token behind = bind_u64-InRange token (parse_uint64 token) refl
  bind_token-InRange word token behind = tt
  bind_token-InRange rest token behind = tt

  bind_args-BoundInRange :
      (args : List ArgDesc) (tokens : List Bytes)
      → BoundInRange (bind_args resolve caller args tokens)
  unfolding bind_args
  bind_args-BoundInRange [] tokens = tt
  bind_args-BoundInRange (a ∷ args) [] =
      store-InRange (parsed omitted) (bind_args resolve caller args []) tt
        (bind_args-BoundInRange args [])
  bind_args-BoundInRange (a ∷ args) (token ∷ behind) =
      store-InRange (bind_token resolve caller a.kind token behind) _
        (bind_token-InRange a.kind token behind)
        (bind_args-BoundInRange args (left_after a.kind behind))

  -- Whatever the tokens, the numbers that `BindArgs` gives are in range: a duration is from 0 seconds to the minutes that an `int`
  -- holds, an `Int` fits an `int`, a `U64` a `uint64_t` and a SteamID that was typed an `int64_t`.
  pub bind_args-IsInRange :
      (args : List ArgDesc) (tokens : List Bytes) (bs : List BoundArg)
      → bind_args resolve caller args tokens ≡ bound bs
      → All IsInRange bs
  bind_args-IsInRange args tokens bs h = subst BoundInRange h (bind_args-BoundInRange args tokens)

-- ===== src/Commands/Binding/Fitting.antt =====
-- What `BindArgs` gives a handler of src/Commands/ArgBinding.cpp.
use voltmod.Commands.Binding.{parse_uint64}
use voltmod.Commands.Binding.{parse_int64}
use voltmod.Commands.Binding.{is_numeric}
use voltmod.Commands.Binding.{parse_duration}
use voltmod.Players.Roster.{Player}
use voltmod.Commands.Targeting.Select.{
  TargetRules, no_match, immune, ambiguous, multi_not_allowed, dead_not_allowed, bot_not_allowed,
}
use mathlib.Core.Path.{subst}
use voltmod.Commands.Binding.{
  ArgKind, target, targets, duration, steam_id, player_or_steam_id, int, u64, word, rest, ArgDesc,
  BoundArg, omitted, bound_target, bound_targets, bound_duration, bound_steam_id, bound_player,
  bound_int, bound_u64, bound_word, bound_rest, ArgError, Resolved, players, unresolved, Parsed,
  parsed, failed, Bound, bound, unbound, target_key, one_target, many_targets, bind_target,
  bind_targets, offline, bind_player_or_steam_id, bind_duration, bind_steam_id_of, bind_steam_id,
  in_int, bind_int_of, bind_int, bind_u64_of, bind_u64, store, left_after, bind_token, bind_args,
}
use voltmod.Common.{
  ℕ, suc, ◌+◌, ◌≤◌, ◌≡◌, refl, ◌⊎◌, inl, inr, Bool, true, false, not, Option, none, some, List, [],
  ◌∷◌, arith, if◌then◌else◌, Bool-cases, length, All, ℤ, pos, ltb_ℤ, Bytes,
}

-- The kind that a value is of, none where it is omitted.
pub kind_of : BoundArg → Option ArgKind
kind_of omitted = none
kind_of (bound_target p) = some target
kind_of (bound_targets ps) = some targets
kind_of (bound_duration d) = some duration
kind_of (bound_steam_id i) = some steam_id
kind_of (bound_player p i) = some player_or_steam_id
kind_of (bound_int i) = some int
kind_of (bound_u64 n) = some u64
kind_of (bound_word t) = some word
kind_of (bound_rest t) = some rest

-- One value for each argument, of the kind of the argument, omitted only where the argument is optional.
pub Fits : List ArgDesc → List BoundArg → Type 0
Fits [] [] = Unit
Fits [] (b ∷ bs) = ⊥
Fits (a ∷ args) [] = ⊥
Fits (a ∷ args) (b ∷ bs) =
    ((kind_of b ≡ some a.kind) ⊎ ((b ≡ omitted) × (a.optional ≡ true))) × Fits args bs

-- The arguments that `CommandBuilder` lets a handler have: behind an optional one there are optional ones only, and behind a
-- `Rest` there is none.
unfoldable pub IsTrailing : List ArgDesc → Type 0
IsTrailing [] = Unit
IsTrailing (a ∷ args) =
    (a.optional ≡ true → All (λ b. b.optional ≡ true) args)
    × (a.kind ≡ rest → args ≡ [])
    × IsTrailing args

-- `RequiredArgs`.
unfoldable pub required_args : List ArgDesc → ℕ
required_args [] = 0
required_args (a ∷ args) = if a.optional then required_args args else 1 + required_args args

FitsBound : List ArgDesc → Bound → Type 0
FitsBound args (bound bs) = Fits args bs
FitsBound args (unbound e) = Unit

FitsParsed : ArgKind → Parsed → Type 0
FitsParsed k (parsed b) = kind_of b ≡ some k
FitsParsed k (failed e) = Unit

store-Fits :
    (a : ArgDesc) (args : List ArgDesc) (p : Parsed) (others : Bound)
    → FitsParsed a.kind p
    → FitsBound args others
    → FitsBound (a ∷ args) (store p others)
unfolding store FitsBound FitsParsed Fits
store-Fits a args (failed e) others h h' = tt
store-Fits a args (parsed b) (bound bs) h h' = (inl h, h')
store-Fits a args (parsed b) (unbound e) h h' = tt

offline-Fits :
    (o : Parsed) (id : Option ℤ)
    → FitsParsed player_or_steam_id o
    → FitsParsed player_or_steam_id (offline o id)
unfolding FitsParsed kind_of
offline-Fits o none h = h
offline-Fits o (some id) h = refl

bind_player-Fits :
    (token : Bytes) (r : Resolved) → FitsParsed player_or_steam_id (bind_player_or_steam_id token r)
unfolding FitsParsed kind_of bind_player_or_steam_id
bind_player-Fits token (players []) = refl
bind_player-Fits token (players (p ∷ ps)) = refl
bind_player-Fits token (unresolved no_match count) = elim (Bool-cases (is_numeric token)) [
  | inl e ↦ rw e (offline-Fits (failed (target_key no_match count token)) (parse_int64 token) tt)
  | inr e ↦ rw e tt
]
bind_player-Fits token (unresolved immune count) = tt
bind_player-Fits token (unresolved ambiguous count) = tt
bind_player-Fits token (unresolved multi_not_allowed count) = tt
bind_player-Fits token (unresolved dead_not_allowed count) = tt
bind_player-Fits token (unresolved bot_not_allowed count) = tt

bind_target-Fits : (token : Bytes) (r : Resolved) → FitsParsed target (bind_target token r)
unfolding FitsParsed kind_of bind_target
bind_target-Fits token (players ps) = refl
bind_target-Fits token (unresolved e count) = tt

bind_targets-Fits : (token : Bytes) (r : Resolved) → FitsParsed targets (bind_targets token r)
unfolding FitsParsed kind_of bind_targets
bind_targets-Fits token (players ps) = refl
bind_targets-Fits token (unresolved e count) = tt

-- A test that fails, or a value of the kind.
either-Fits :
    (k : ArgKind) (t : Bool) (e : ArgError) (b : BoundArg)
    → kind_of b ≡ some k
    → FitsParsed k (if t then failed e else parsed b)
unfolding FitsParsed
either-Fits k true e b h = tt
either-Fits k false e b h = h

bind_steam_id-Fits : (token : Bytes) (o : Option ℤ) → FitsParsed steam_id (bind_steam_id_of token o)
unfolding bind_steam_id_of kind_of FitsParsed
bind_steam_id-Fits token none = tt
bind_steam_id-Fits token (some id) = either-Fits steam_id (not (is_numeric token)) _ _ refl

bind_int-Fits : (token : Bytes) (o : Option ℤ) → FitsParsed int (bind_int_of token o)
unfolding bind_int_of kind_of FitsParsed
bind_int-Fits token none = tt
bind_int-Fits token (some v) = either-Fits int (not (in_int v)) _ _ refl

bind_u64-Fits : (token : Bytes) (o : Option ℕ) → FitsParsed u64 (bind_u64_of token o)
unfolding bind_u64_of kind_of FitsParsed
bind_u64-Fits token none = tt
bind_u64-Fits token (some v) = refl

bind_duration-Fits : (token : Bytes) → FitsParsed duration (bind_duration token)
unfolding bind_duration kind_of
bind_duration-Fits token = either-Fits duration (ltb_ℤ (parse_duration token) (pos 0)) _ _ refl

left_after_enough :
    (k : ArgKind) (args : List ArgDesc) (behind : List Bytes)
    → (k ≡ rest → args ≡ [])
    → required_args args ≤ length behind
    → required_args args ≤ length (left_after k behind)
unfolding required_args
left_after_enough rest args behind r h = rw (r refl) (omega arith)
left_after_enough target args behind r h = h
left_after_enough targets args behind r h = h
left_after_enough duration args behind r h = h
left_after_enough steam_id args behind r h = h
left_after_enough player_or_steam_id args behind r h = h
left_after_enough int args behind r h = h
left_after_enough u64 args behind r h = h
left_after_enough word args behind r h = h

store_omitted-Fits :
    (a : ArgDesc) (args : List ArgDesc) (others : Bound)
    → a.optional ≡ true
    → FitsBound args others
    → FitsBound (a ∷ args) (store (parsed omitted) others)
unfolding store FitsBound Fits
store_omitted-Fits a args (bound bs) o h = (inr (refl, o), h)
store_omitted-Fits a args (unbound e) o h = tt

required_none : (args : List ArgDesc) → required_args args ≤ 0 → All (λ a. a.optional ≡ true) args
unfolding required_args
required_none [] h = tt
required_none (a ∷ args) h = elim (Bool-cases a.optional) [
  | inl e ↦ (e, required_none args (simp e at h))
  | inr e ↦ let h' : 1 + required_args args ≤ 0 = simp e at h in absurd (omega arith)
]

required_optional :
    (args : List ArgDesc) → All (λ a. a.optional ≡ true) args → required_args args ≡ 0
unfolding required_args
required_optional [] h = refl
required_optional (a ∷ args) h = simp h.0 (required_optional args h.1)

-- The tokens behind an argument are enough for the others.
left_enough :
    (a : ArgDesc) (args : List ArgDesc) (behind : List Bytes)
    → (a.optional ≡ true → All (λ b. b.optional ≡ true) args)
    → (a.kind ≡ rest → args ≡ [])
    → required_args (a ∷ args) ≤ suc (length behind)
    → required_args args ≤ length (left_after a.kind behind)
unfolding required_args
left_enough a args behind o r h =
    let enough : required_args args ≤ length behind = elim (Bool-cases a.optional) [
      | inl e ↦ let none_left = required_optional args (o e) in omega arith
      | inr e ↦ let h' : 1 + required_args args ≤ suc (length behind) = simp e at h in omega arith
    ] in
    left_after_enough a.kind args behind r enough

module _ (resolve : Bytes → Option Player → TargetRules → Resolved) (caller : Option Player) where
  bind_token-Fits :
      (k : ArgKind) (token : Bytes) (behind : List Bytes)
      → FitsParsed k (bind_token resolve caller k token behind)
  unfolding bind_token FitsParsed kind_of bind_steam_id bind_int bind_u64
  bind_token-Fits target token behind = bind_target-Fits token (resolve token caller one_target)
  bind_token-Fits targets token behind = bind_targets-Fits token (resolve token caller many_targets)
  bind_token-Fits player_or_steam_id token behind =
      bind_player-Fits token (resolve token caller one_target)
  bind_token-Fits duration token behind = bind_duration-Fits token
  bind_token-Fits steam_id token behind = bind_steam_id-Fits token (parse_int64 token)
  bind_token-Fits int token behind = bind_int-Fits token (parse_int64 token)
  bind_token-Fits u64 token behind = bind_u64-Fits token (parse_uint64 token)
  bind_token-Fits word token behind = refl
  bind_token-Fits rest token behind = refl

  omitted-Fits :
      (args : List ArgDesc)
      → All (λ a. a.optional ≡ true) args
      → FitsBound args (bind_args resolve caller args [])
  unfolding bind_args FitsBound Fits
  omitted-Fits [] h = tt
  omitted-Fits (a ∷ args) h =
      store_omitted-Fits a args (bind_args resolve caller args []) h.0 (omitted-Fits args h.1)

  bind_args-FitsBound :
      (args : List ArgDesc) (tokens : List Bytes)
      → IsTrailing args
      → required_args args ≤ length tokens
      → FitsBound args (bind_args resolve caller args tokens)
  unfolding bind_args IsTrailing FitsBound Fits
  bind_args-FitsBound [] tokens t h = tt
  bind_args-FitsBound (a ∷ args) [] t h = omitted-Fits (a ∷ args) (required_none (a ∷ args) h)
  bind_args-FitsBound (a ∷ args) (token ∷ behind) t h =
      store-Fits a args (bind_token resolve caller a.kind token behind) _
        (bind_token-Fits a.kind token behind)
        (bind_args-FitsBound args (left_after a.kind behind) t.2
          (left_enough a args behind t.0 t.1 h))

  -- Where the tokens are as many as the arguments that are required, what `BindArgs` gives a handler has one value for each
  -- argument, of the kind of the argument, and omitted only for an optional one.
  pub bind_args-Fits :
      (args : List ArgDesc) (tokens : List Bytes) (bs : List BoundArg)
      → IsTrailing args
      → required_args args ≤ length tokens
      → bind_args resolve caller args tokens ≡ bound bs
      → Fits args bs
  unfolding FitsBound
  bind_args-Fits args tokens bs t h e =
      subst (FitsBound args) e (bind_args-FitsBound args tokens t h)

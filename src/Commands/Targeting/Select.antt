-- ===== src/Commands/Targeting/Select.antt =====
-- `FilterPlayers`.
pub mod Matching
pub mod Rules
use voltmod.Strings.Chars.{to_lower, has_sub, is_empty}
use voltmod.Commands.Targeting.{
  Team, team_eq, TargetKind, TargetQuery, everyone, me, not_me, team, dead, alive, bots, humans,
  random, random_team, slot, steam_id, name,
}
use voltmod.Common.{
  ℕ, zero, suc, ◌+◌, ◌-◌, ◌*◌, ◌/◌, ◌%◌, ◌^◌, ◌≤◌, ◌<◌, ◌≡◌, refl, sym, ap, ◌∙◌, ◌≢◌, ◌↔◌, ◌⊎◌, inl,
  inr, Bool, true, false, not, ◌&&◌, ◌||◌, Option, none, some, List, [], ◌∷◌, ◌++◌, map, arith, ltb,
  leb, ◌==◌, if◌then◌else◌, ltb→lt, lt→ltb, leb→le, ==_iff, tests, Bool-cases, Option-cases, length,
  get_elem?, set, length-append, get_or, take, drop, replicate, take-append-drop, length-take,
  length-drop, length-map, take_of_length-le, keep, any, all, find_if, All, All-append, All-keep,
  contains, ℤ, pos, negsuc, pos_part, neg_part, sub_ℕ, ◌+ℤ◌, ◌-ℤ◌, ◌≤ℤ◌, ltb_ℤ, leb_ℤ, eqb_ℤ,
  eqb_ℤ_iff, Bytes, bytes, text_eq, text_eq_to, text_eq_refl, starts_with, starts_with-append,
  find_key, put_key, erase_key, find_key-put_key, find_key-erase_key,
}

pub record TargetRules : Type 0 where
  pub allow_multiple : Bool
  pub allow_dead : Bool
  pub allow_bots : Bool

pub data TargetError : Type 0 where
  no_match immune ambiguous multi_not_allowed dead_not_allowed bot_not_allowed : TargetError

pub record PlayerView : Type 0 where
  pub slot : ℤ
  pub steam_id : ℤ
  pub name : Bytes
  pub team : Team
  pub alive : Bool
  pub bot : Bool
  pub targetable : Bool

-- `std::expected`, a failure with its count.
pub data Outcome : Type 0 where
  found : List ℤ → Outcome
  failed : TargetError → ℕ → Outcome

abbrev pub lower_name : PlayerView → Bytes
unfolding to_lower
lower_name p = to_lower p.name

-- Exact names, then prefixes, then substrings: the first tier that is not empty.
unfoldable pub by_name : List PlayerView → Bytes → List PlayerView
unfolding has_sub
by_name players needle =
    let exact = keep (λ p. text_eq (to_lower p.name) needle) players in
    let prefixed = keep (λ p. starts_with needle (to_lower p.name)) players in
    if not (is_empty exact)
    then exact
    else if not (is_empty prefixed)
    then prefixed
    else keep (λ p. has_sub needle (to_lower p.name)) players

-- The `switch` on the kind.
unfoldable pub candidates : List PlayerView → TargetQuery → ℤ → TargetKind → List PlayerView
unfolding by_name
candidates players q caller everyone = players
candidates players q caller random = players
candidates players q caller me = keep (λ p. eqb_ℤ p.slot caller) players
candidates players q caller not_me = keep (λ p. not (eqb_ℤ p.slot caller)) players
candidates players q caller team = keep (λ p. team_eq p.team q.team) players
candidates players q caller random_team = keep (λ p. team_eq p.team q.team) players
candidates players q caller dead = keep (λ p. not p.alive) players
candidates players q caller alive = keep (λ p. p.alive) players
candidates players q caller bots = keep (λ p. p.bot) players
candidates players q caller humans = keep (λ p. not p.bot) players
candidates players q caller slot = keep (λ p. eqb_ℤ p.slot q.slot) players
candidates players q caller steam_id = keep (λ p. eqb_ℤ p.steam_id q.steam_id) players
candidates players q caller name = by_name players q.needle

abbrev is_random : TargetKind → Bool
is_random random = true
is_random random_team = true
is_random _ = false

abbrev is_name : TargetKind → Bool
is_name name = true
is_name _ = false

-- The pick among `n` candidates; without a function it is the first.
abbrev pick : Option (ℕ → ℕ) → ℕ → ℕ
pick none n = 0
pick (some random_index) n = random_index n % n

abbrev one_of : List PlayerView → ℕ → List PlayerView
one_of ps i = elim (get_elem? ps i) [ none ↦ [] | some p ↦ p ∷ [] ]

-- From the random pick on.
unfoldable pub settle : TargetKind → TargetRules → Option (ℕ → ℕ) → List PlayerView → Outcome
settle kind rules random_index ps =
    let chosen = if is_random kind then one_of ps (pick random_index (length ps)) else ps in
    if ltb 1 (length chosen) && not rules.allow_multiple
    then failed (if is_name kind then ambiguous else multi_not_allowed) (length chosen)
    else found (map (λ p. p.slot) chosen)

-- The players that the caller's policy protects are dropped.
unfoldable pub drop_protected :
    TargetKind → TargetRules → Option (ℕ → ℕ) → List PlayerView → Outcome
drop_protected kind rules random_index ps =
    let left = keep (λ p. p.targetable) ps in
    if is_empty left then failed immune 0 else settle kind rules random_index left

unfoldable pub drop_dead : TargetKind → TargetRules → Option (ℕ → ℕ) → List PlayerView → Outcome
drop_dead kind rules random_index ps =
    if rules.allow_dead
    then drop_protected kind rules random_index ps
    else let left = keep (λ p. p.alive) ps in
      if is_empty left
      then failed dead_not_allowed 0
      else drop_protected kind rules random_index left

unfoldable pub drop_bots : TargetKind → TargetRules → Option (ℕ → ℕ) → List PlayerView → Outcome
drop_bots kind rules random_index ps =
    if rules.allow_bots
    then drop_dead kind rules random_index ps
    else let left = keep (λ p. not p.bot) ps in
      if is_empty left then failed bot_not_allowed 0 else drop_dead kind rules random_index left

unfoldable pub filter_players :
    List PlayerView → TargetQuery → TargetRules → ℤ → Option (ℕ → ℕ) → Outcome
filter_players players q rules caller random_index =
    let matching = candidates players q caller q.kind in
    if is_empty matching then failed no_match 0 else drop_bots q.kind rules random_index matching

-- ===== src/Commands/Targeting/Select/Matching.antt =====
-- The players that a query is about, tier by tier of a name's match.
use mathlib.Core.List.{append-nil}
use voltmod.Strings.Chars.{to_lower, has_sub, is_empty}
use voltmod.Commands.Targeting.{
  team_eq, TargetKind, TargetQuery, everyone, me, not_me, team, dead, alive, bots, humans, random,
  random_team, slot, steam_id, name,
}
use voltmod.Commands.Targeting.Select.{PlayerView, by_name, candidates}
use voltmod.Common.{
  ◌≡◌, refl, inl, inr, Bool, true, false, not, List, [], ◌∷◌, arith, Bool-cases, keep, all, All,
  All-keep, All-keep_self, All-map, all_mono, ℤ, eqb_ℤ, Bytes, text_eq, text_eq_to, starts_with,
  starts_with-append,
}

-- Whether a query is about a player: what the documentation of the selectors says.
pub selects : TargetQuery → ℤ → TargetKind → PlayerView → Bool
selects q caller everyone p = true
selects q caller random p = true
selects q caller me p = eqb_ℤ p.slot caller
selects q caller not_me p = not (eqb_ℤ p.slot caller)
selects q caller team p = team_eq p.team q.team
selects q caller random_team p = team_eq p.team q.team
selects q caller dead p = not p.alive
selects q caller alive p = p.alive
selects q caller bots p = p.bot
selects q caller humans p = not p.bot
selects q caller slot p = eqb_ℤ p.slot q.slot
selects q caller steam_id p = eqb_ℤ p.steam_id q.steam_id
selects q caller name p = has_sub q.needle (to_lower p.name)

has_sub-starts_with : (needle s : Bytes) → starts_with needle s ≡ true → has_sub needle s ≡ true
unfolding has_sub
has_sub-starts_with needle [] h = h
has_sub-starts_with needle (c ∷ cs) h = rw h

has_sub-text_eq : (needle s : Bytes) → text_eq s needle ≡ true → has_sub needle s ≡ true
has_sub-text_eq needle s h =
    rw (text_eq_to s needle h)
      (has_sub-starts_with needle needle (rw (append-nil needle) at (starts_with-append needle [])))

is_empty-keep {ℓ} :
    {A : Type ℓ} (p : A → Bool) (xs : List A) → is_empty (keep p xs) ≡ all (λ x. not (p x)) xs
is_empty-keep p [] = refl
is_empty-keep p (x ∷ xs) = ground (arith, is_empty-keep p xs)

not_mono : (a b : Bool) → (a ≡ true → b ≡ true) → not b ≡ true → not a ≡ true
not_mono a b f h = ground arith

abbrev names : Bytes → PlayerView → Bool
names needle p = has_sub needle (to_lower p.name)

nonempty_of :
    (needle : Bytes) (p : PlayerView → Bool) (players : List PlayerView)
    → ((x : PlayerView) → p x ≡ true → names needle x ≡ true)
    → is_empty (keep p players) ≡ false
    → all (λ x. not (names needle x)) players ≡ false
nonempty_of needle p players f h = elim (Bool-cases (all (λ x. not (names needle x)) players)) [
  | inl e ↦
      let r =
        all_mono (λ x. not (names needle x)) (λ x. not (p x)) players
          (λ x k. not_mono (p x) (names needle x) (f x) k) e in
      absurd (ground (arith, is_empty-keep p players))
  | inr e ↦ e
]

abbrev exactly : Bytes → PlayerView → Bool
exactly needle p = text_eq (to_lower p.name) needle

abbrev prefixed : Bytes → PlayerView → Bool
prefixed needle p = starts_with needle (to_lower p.name)

abbrev Named : Bytes → PlayerView → Type 0
Named needle p = names needle p ≡ true

exactly-names : (needle : Bytes) (p : PlayerView) → exactly needle p ≡ true → Named needle p
exactly-names needle p = has_sub-text_eq needle (to_lower p.name)

prefixed-names : (needle : Bytes) (p : PlayerView) → prefixed needle p ≡ true → Named needle p
prefixed-names needle p = has_sub-starts_with needle (to_lower p.name)

module _ (players : List PlayerView) (needle : Bytes) where
  is_empty-by_name : is_empty (by_name players needle) ≡ all (λ p. not (names needle p)) players
  unfolding by_name
  is_empty-by_name = elim (Bool-cases (is_empty (keep (exactly needle) players))) [
    | inr e ↦ rw (e, nonempty_of needle (exactly needle) players (exactly-names needle) e) e
    | inl e ↦ rw e (elim (Bool-cases (is_empty (keep (prefixed needle) players))) [
      | inr f ↦ rw (f, nonempty_of needle (prefixed needle) players (prefixed-names needle) f) f
      | inl f ↦ rw f (is_empty-keep (names needle) players)
    ])
  ]

  by_name-Named : All (Named needle) (by_name players needle)
  unfolding by_name
  by_name-Named = elim (Bool-cases (is_empty (keep (exactly needle) players))) [
    | inr e ↦ rw e (
        All-map (λ p. exactly needle p ≡ true) (Named needle) (keep (exactly needle) players)
          (exactly-names needle) (All-keep_self (exactly needle) players))
    | inl e ↦ rw e (elim (Bool-cases (is_empty (keep (prefixed needle) players))) [
      | inr f ↦ rw f (
          All-map (λ p. prefixed needle p ≡ true) (Named needle) (keep (prefixed needle) players)
            (prefixed-names needle) (All-keep_self (prefixed needle) players))
      | inl f ↦ rw f (All-keep_self (names needle) players)
    ])
  ]

is_empty-all {ℓ} : {A : Type ℓ} (xs : List A) → is_empty xs ≡ all (λ x. not true) xs
is_empty-all [] = refl
is_empty-all (x ∷ xs) = refl

All-trivial : (xs : List PlayerView) → All (λ x. ◌≡◌ {A = Bool} true true) xs
All-trivial [] = tt
All-trivial (x ∷ xs) = (refl, All-trivial xs)

-- No candidate is left exactly when the query is about none of the players.
pub is_empty-candidates :
    (players : List PlayerView) (q : TargetQuery) (caller : ℤ) (kind : TargetKind)
    → is_empty (candidates players q caller kind) ≡ all (λ p. not (selects q caller kind p)) players
unfolding candidates selects
is_empty-candidates players q caller everyone = is_empty-all players
is_empty-candidates players q caller random = is_empty-all players
is_empty-candidates players q caller name = is_empty-by_name players q.needle
is_empty-candidates players q caller kind = is_empty-keep (selects q caller kind) players

pub candidates-selects :
    (players : List PlayerView) (q : TargetQuery) (caller : ℤ) (kind : TargetKind)
    → All (λ p. selects q caller kind p ≡ true) (candidates players q caller kind)
unfolding candidates selects
candidates-selects players q caller everyone = All-trivial players
candidates-selects players q caller random = All-trivial players
candidates-selects players q caller name = by_name-Named players q.needle
candidates-selects players q caller kind = All-keep_self (selects q caller kind) players

pub All-candidates :
    (P : PlayerView → Type 0) (players : List PlayerView) (q : TargetQuery) (caller : ℤ)
    (kind : TargetKind)
    → All P players
    → All P (candidates players q caller kind)
unfolding candidates by_name selects
All-candidates P players q caller everyone h = h
All-candidates P players q caller random h = h
All-candidates P players q caller name h =
    let e = All-keep P (exactly q.needle) players h in
    let f = All-keep P (prefixed q.needle) players h in
    let g = All-keep P (names q.needle) players h in ground arith
All-candidates P players q caller kind h = All-keep P (selects q caller kind) players h

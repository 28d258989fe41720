-- ===== src/Commands/Targeting/Select/Rules.antt =====
-- What `FilterPlayers` promises of the players that it selects and of its errors.
use voltmod.Commands.Targeting.Select.Matching.{
  selects, is_empty-candidates, candidates-selects, All-candidates,
}
use mathlib.Core.Path.{subst}
use mathlib.Core.List.{Mem}
use voltmod.Commands.Targeting.Select.{multi_not_allowed}
use voltmod.Commands.Targeting.Select.{ambiguous}
use voltmod.Commands.Targeting.Select.{is_name}
use mathlib.Core.List.{Mem}
use voltmod.Strings.Chars.{is_empty}
use voltmod.Commands.Targeting.{TargetKind, TargetQuery}
use voltmod.Commands.Targeting.Select.{
  TargetRules, PlayerView, Outcome, found, failed, candidates, is_random, pick, one_of, settle,
  drop_protected, drop_dead, drop_bots, filter_players, no_match,
}
use voltmod.Common.{
  ℕ, ◌≤◌, ◌<◌, ◌≡◌, refl, sym, ◌∙◌, ◌≢◌, ◌↔◌, inl, inr, Bool, true, false, not, ◌&&◌, Option, none,
  some, List, [], ◌∷◌, map, arith, ltb, if◌then◌else◌, Bool-cases, length, get_elem?, keep, all,
  All, All-map, All-keep_both, All-Mem, All-zip, get_elem?_lt, All-get_elem?, ℤ,
}

-- What a selected player is: one that the query is about and the rules and the policy allow.
pub record Allowed (q : TargetQuery) (rules : TargetRules) (caller : ℤ) (players : List PlayerView)
    (p : PlayerView) : Type 0 where
  pub present : Mem p players
  pub selected : selects q caller q.kind p ≡ true
  pub targetable : p.targetable ≡ true
  pub living : rules.allow_dead ≡ false → p.alive ≡ true
  pub human : rules.allow_bots ≡ false → p.bot ≡ false

-- A success lists the slots of one player or more, all of which satisfy `P`, and of one only where
-- several are not allowed. A failure is not "no match".
abbrev Sound : (PlayerView → Type 0) → Bool → Outcome → Type 0
Sound P multiple (found slots) =
    (ps : List PlayerView) × (slots ≡ map (λ p. p.slot) ps)
    × All P ps
    × (1 ≤ length ps)
    × (multiple ≡ false → length ps ≤ 1)
Sound P multiple (failed e n) = e ≢ no_match

pick_lt : (random_index : Option (ℕ → ℕ)) (n : ℕ) → 1 ≤ n → pick random_index n < n
pick_lt none n h = h
pick_lt (some f) n h = grind arith

one_of-some :
    (ps : List PlayerView) (i : ℕ) {p : PlayerView} → get_elem? ps i ≡ some p → one_of ps i ≡ p ∷ []
one_of-some ps i e = ground arith

module _ (P : PlayerView → Type 0) (kind : TargetKind) (rules : TargetRules)
    (random_index : Option (ℕ → ℕ)) where
  settle_chosen :
      (ps : List PlayerView)
      → All P ps
      → 1 ≤ length ps
      → Sound P rules.allow_multiple (
          if ltb 1 (length ps) && not rules.allow_multiple
          then failed (if is_name kind then ambiguous else multi_not_allowed) (length ps)
          else found (map (λ p. p.slot) ps))
  settle_chosen ps h l = elim (Bool-cases (ltb 1 (length ps) && not rules.allow_multiple)) [
    | inl e ↦ rw e (ground arith)
    | inr e ↦ rw e (ps, refl, h, l, λ m. ground arith)
  ]

  settle-Sound :
      (ps : List PlayerView)
      → All P ps
      → 1 ≤ length ps
      → Sound P rules.allow_multiple (settle kind rules random_index ps)
  unfolding settle
  settle-Sound ps h l = elim (Bool-cases (is_random kind)) [
    | inl e ↦
        let (p, at) =
          get_elem?_lt ps (pick random_index (length ps)) (pick_lt random_index (length ps) l) in
        rw (e, one_of-some ps (pick random_index (length ps)) at)
          (settle_chosen (p ∷ []) (All-get_elem? P ps (pick random_index (length ps)) h at, tt)
            (omega arith))
    | inr e ↦ rw e (settle_chosen ps h l)
  ]

length_pos : (ps : List PlayerView) → is_empty ps ≡ false → 1 ≤ length ps
length_pos [] h = ground arith
length_pos (p ∷ ps) h = omega arith

module _ (P Q : PlayerView → Type 0) (kind : TargetKind) (rules : TargetRules)
    (random_index : Option (ℕ → ℕ)) where
  drop_protected-Sound :
      ((p : PlayerView) → P p → p.targetable ≡ true → Q p)
      → (ps : List PlayerView) → All P ps
      → Sound Q rules.allow_multiple (drop_protected kind rules random_index ps)
  unfolding drop_protected
  drop_protected-Sound f ps h =
      let left = keep (λ p. p.targetable) ps in
      elim (Bool-cases (is_empty left)) [
        | inl e ↦ rw e (ground arith)
        | inr e ↦ rw e (
            settle-Sound Q kind rules random_index left
              (All-map (λ p. P p × (p.targetable ≡ true)) Q left (λ p r. f p r.0 r.1)
                (All-keep_both P (λ p. p.targetable) ps h))
              (length_pos left e))
      ]

module _ (P Q : PlayerView → Type 0) (kind : TargetKind) (rules : TargetRules)
    (random_index : Option (ℕ → ℕ)) where
  drop_dead-Sound :
      ((p : PlayerView)
        → P p
        → (rules.allow_dead ≡ false → p.alive ≡ true)
        → p.targetable ≡ true
        → Q p)
      → (ps : List PlayerView) → All P ps
      → Sound Q rules.allow_multiple (drop_dead kind rules random_index ps)
  unfolding drop_dead
  drop_dead-Sound f ps h = elim (Bool-cases rules.allow_dead) [
    | inl a ↦
        simp a
          (drop_protected-Sound P Q kind rules random_index (λ p r. f p r (λ b. ground arith)) ps h)
    | inr a ↦
        let left = keep (λ p. p.alive) ps in
        simp a (elim (Bool-cases (is_empty left)) [
          | inl e ↦ rw e (ground arith)
          | inr e ↦ rw e (
              drop_protected-Sound (λ p. P p × (p.alive ≡ true)) Q kind rules random_index
                (λ p r. f p r.0 (λ b. r.1)) left (All-keep_both P (λ p. p.alive) ps h))
        ])
  ]

module _ (P Q : PlayerView → Type 0) (kind : TargetKind) (rules : TargetRules)
    (random_index : Option (ℕ → ℕ)) where
  drop_bots-Sound :
      ((p : PlayerView)
        → P p
        → (rules.allow_bots ≡ false → p.bot ≡ false)
        → (rules.allow_dead ≡ false → p.alive ≡ true)
        → p.targetable ≡ true
        → Q p)
      → (ps : List PlayerView) → All P ps
      → Sound Q rules.allow_multiple (drop_bots kind rules random_index ps)
  unfolding drop_bots
  drop_bots-Sound f ps h = elim (Bool-cases rules.allow_bots) [
    | inl a ↦
        simp a (drop_dead-Sound P Q kind rules random_index (λ p r. f p r (λ b. ground arith)) ps h)
    | inr a ↦
        let left = keep (λ p. not p.bot) ps in
        simp a (elim (Bool-cases (is_empty left)) [
          | inl e ↦ rw e (ground arith)
          | inr e ↦ rw e (
              drop_dead-Sound (λ p. P p × (not p.bot ≡ true)) Q kind rules random_index
                (λ p r. f p r.0 (λ b. ground arith)) left (All-keep_both P (λ p. not p.bot) ps h))
        ])
  ]

no_match_unsound :
    (P : PlayerView → Type 0) (m : Bool) (o : Outcome) → Sound P m o → o ≡ failed no_match 0 → ⊥
no_match_unsound P m (found slots) h e = cc
no_match_unsound P m (failed err n) h e = h (ground arith)

-- The players that a query is about.
abbrev Candidate : (PlayerView → Type 0) → TargetQuery → ℤ → PlayerView → Type 0
Candidate P q caller p = P p × (selects q caller q.kind p ≡ true)

-- The same of any predicate that holds of all the players given.
pub record Chosen (P : PlayerView → Type 0) (q : TargetQuery) (rules : TargetRules) (caller : ℤ)
    (p : PlayerView) : Type 0 where
  pub given : P p
  pub selected : selects q caller q.kind p ≡ true
  pub targetable : p.targetable ≡ true
  pub living : rules.allow_dead ≡ false → p.alive ≡ true
  pub human : rules.allow_bots ≡ false → p.bot ≡ false

module _ (players : List PlayerView) (q : TargetQuery) (rules : TargetRules) (caller : ℤ)
    (random_index : Option (ℕ → ℕ)) where
  matching-Sound :
      (P : PlayerView → Type 0)
      → All P players
      → Sound
          (Chosen P q rules caller)
          rules.allow_multiple
          (drop_bots q.kind rules random_index (candidates players q caller q.kind))
  matching-Sound P given =
      drop_bots-Sound (Candidate P q caller) (Chosen P q rules caller) q.kind rules random_index
        (λ p c human living targetable. record {
          given = c.0;
          selected = c.1;
          targetable = targetable;
          living = living;
          human = human;
        })
        (candidates players q caller q.kind)
        (All-zip P (λ p. selects q caller q.kind p ≡ true) (candidates players q caller q.kind)
          (All-candidates P players q caller q.kind given)
          (candidates-selects players q caller q.kind))

  -- `FilterPlayers` says "no match" exactly when the query is about none of the players.
  pub filter_players-no_match :
      (filter_players players q rules caller random_index ≡ failed no_match 0)
      ↔ (all (λ p. not (selects q caller q.kind p)) players ≡ true)
  unfolding filter_players
  filter_players-no_match = elim (Bool-cases (is_empty (candidates players q caller q.kind))) [
    | inl e ↦ rw e (λ h. sym (is_empty-candidates players q caller q.kind) ∙ e, λ h. refl)
    | inr e ↦ rw e (
      λ h. absurd (
          no_match_unsound (Chosen (λ p. Mem p players) q rules caller) rules.allow_multiple _
            (matching-Sound (λ p. Mem p players) (All-Mem players)) h),
      λ h. absurd (ground (arith, is_empty-candidates players q caller q.kind)),
    )
  ]

  pub filter_players-Chosen :
      (P : PlayerView → Type 0) (slots : List ℤ)
      → All P players
      → filter_players players q rules caller random_index ≡ found slots
      → (ps : List PlayerView) × (slots ≡ map (λ p. p.slot) ps)
        × All (Chosen P q rules caller) ps
        × (1 ≤ length ps)
        × (rules.allow_multiple ≡ false → length ps ≤ 1)
  unfolding filter_players
  filter_players-Chosen P slots given h =
      elim (Bool-cases (is_empty (candidates players q caller q.kind))) [
        | inl e ↦ absurd (ground arith)
        | inr e ↦
            subst (Sound (Chosen P q rules caller) rules.allow_multiple) (rw e at h)
              (matching-Sound P given)
      ]

  -- A success of `FilterPlayers` lists the slots of one or more of the players given, each of whom the
  -- query is about, the policy lets be targeted, and the rules on dead players and bots allow; and of
  -- one only, where the rules do not allow several.
  pub filter_players-Allowed :
      (slots : List ℤ)
      → filter_players players q rules caller random_index ≡ found slots
      → (ps : List PlayerView) × (slots ≡ map (λ p. p.slot) ps)
        × All (Allowed q rules caller players) ps
        × (1 ≤ length ps)
        × (rules.allow_multiple ≡ false → length ps ≤ 1)
  filter_players-Allowed slots h =
      let (ps, same, chosen, some_one, one) =
        filter_players-Chosen (λ p. Mem p players) slots (All-Mem players) h in
      (
        ps,
        same,
        All-map (Chosen (λ p. Mem p players) q rules caller) (Allowed q rules caller players) ps
            (λ p c. record {
              present = c.given;
              selected = c.selected;
              targetable = c.targetable;
              living = c.living;
              human = c.human;
            })
            chosen,
        some_one,
        one,
      )

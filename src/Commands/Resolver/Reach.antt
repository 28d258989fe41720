-- ===== src/Commands/Resolver/Reach.antt =====
-- Whom src/Commands/TargetResolver.cpp lets a command reach.
use voltmod.Strings.Chars.{is_empty}
use voltmod.Players.Roster.{Player, Roster, get, get_ref, same_player, ref, is_bot, sort_ordered}
use voltmod.Players.Roster.Coherent.{Coherent}
use voltmod.Players.Roster.Operations.{insert_ordered-All}
use voltmod.Players.Policy.{Policy, Decision, authorized, refused, authorize, find_target}
use voltmod.Players.Policy.Decisions.{Targetable, authorize-Sound}
use voltmod.Commands.Targeting.{Team, TargetQuery, parse_target_token}
use voltmod.Commands.Targeting.Select.{
  TargetRules, PlayerView, Outcome, found, failed, filter_players, no_match,
}
use voltmod.Commands.Targeting.Select.Rules.{Chosen, filter_players-Chosen}
use voltmod.Commands.Binding.{Resolved, players, unresolved}
use voltmod.Commands.Resolver.{
  is_authorized, targetable_by, caller_slot, players_at, resolved_of, view_of, resolve,
}
use mathlib.Core.Path.{subst}
use voltmod.Common.{
  ℕ, suc, ◌≤◌, ◌≡◌, refl, sym, ap, ◌∙◌, inl, inr, Bool, true, false, Option, none, some, List, [],
  ◌∷◌, map, arith, Bool-cases, length, All, All-map, All-zip, ℤ, eqb_ℤ, eqb_ℤ_iff, ℤ_discrete,
  Bytes, find_key, Distinct-All,
}

sort_ordered-All :
    (P : Player → Type 0) (es : List (ℤ × Player)) → All (λ e. P e.1) es → All P (sort_ordered es)
unfolding sort_ordered
sort_ordered-All P [] h = tt
sort_ordered-All P (e ∷ es) h =
    insert_ordered-All P e.1 (sort_ordered es) h.0 (sort_ordered-All P es h.1)

-- Everyone listed is found in his slot.
ordered-get : (r : Roster) → Coherent r → All (λ p. get r p.slot ≡ some p) r.ordered
unfolding get
ordered-get r c = rw c.listed (
    sort_ordered-All (λ p. get r p.slot ≡ some p) r.by_slot
      (All-map (λ e. (find_key ℤ_discrete e.0 r.by_slot ≡ some e.1) × (e.1.slot ≡ e.0))
        (λ e. get r e.1.slot ≡ some e.1) r.by_slot
        (λ e h. ap (λ s. find_key ℤ_discrete s r.by_slot) h.1 ∙ h.0)
        (All-zip (λ e. find_key ℤ_discrete e.0 r.by_slot ≡ some e.1) (λ e. e.1.slot ≡ e.0) r.by_slot
          (Distinct-All ℤ_discrete r.by_slot c.distinct) c.keyed)))

-- A command of the caller may act on the player: the policy says so of the caller who is connected, and the server may on all.
abbrev pub MayReach : Policy → Roster → Option Player → Player → Type 0
MayReach policy r none p = Unit
MayReach policy r (some c) p =
    (who : Player) × (get_ref r (ref c) ≡ some who) × Targetable policy who p.steam_id

authorized_of :
    (d : Decision)
    → is_authorized d ≡ true
    → (c : Player) × (t : Option Player) × (d ≡ authorized c t)
authorized_of (authorized c t) h = (c, t, refl)
authorized_of (refused e) h = absurd (ground arith)

find_target-ref :
    (r : Roster) (p : Player) → get r p.slot ≡ some p → find_target r (some (ref p)) ≡ some (some p)
unfolding find_target get_ref same_player
find_target-ref r p h =
    let same : eqb_ℤ p.steam_id p.steam_id ≡ true = (eqb_ℤ_iff p.steam_id p.steam_id).1 refl in
    rw h (simp same)

targetable_by-MayReach :
    (policy : Policy) (r : Roster) (caller : Option Player) (p : Player)
    → get r p.slot ≡ some p
    → targetable_by policy r caller p ≡ true
    → MayReach policy r caller p
unfolding targetable_by
targetable_by-MayReach policy r none p h t = tt
targetable_by-MayReach policy r (some caller) p h t =
    let (c, target, ok) = authorized_of (authorize policy r (ref caller) (some (ref p)) []).1 t in
    let sound = authorize-Sound policy r (ref caller) (some (ref p)) [] c target ok in
    let same : some target ≡ some (some p) = sym sound.1 ∙ find_target-ref r p h in
    let same_target : target ≡ some p = cc in (c, sound.0, sound.3 p same_target)

module _ (team_of : ℤ → Team) (alive_of : ℤ → Bool) (name_of : Player → Bytes)
    (random_index : Option (ℕ → ℕ)) (policy : Policy) (r : Roster) where
  -- Whom the rules let a command act on: a player in his slot, whom the policy lets the caller target, alive or no bot where the
  -- rules want it.
  abbrev pub InReach : Option Player → TargetRules → Player → Type 0
  InReach caller rules p =
      (get r p.slot ≡ some p)
      × MayReach policy r caller p
      × (rules.allow_dead ≡ false → alive_of p.slot ≡ true)
      × (rules.allow_bots ≡ false → is_bot p ≡ false)

  -- A view that is of a player in his slot.
  abbrev Seen : Option Player → PlayerView → Type 0
  Seen caller v =
      (p : Player) × (get r p.slot ≡ some p)
      × (v ≡ view_of team_of alive_of name_of random_index policy r caller p)

  views-Seen :
      (caller : Option Player) (ps : List Player)
      → All (λ p. get r p.slot ≡ some p) ps
      → All (Seen caller) (map (view_of team_of alive_of name_of random_index policy r caller) ps)
  views-Seen caller [] h = tt
  views-Seen caller (p ∷ ps) h = ((p, h.0, refl), views-Seen caller ps h.1)

  players_at-All :
      (Q : Player → Type 0) (vs : List PlayerView)
      → All (λ v. (p : Player) × (get r v.slot ≡ some p) × Q p) vs
      → All Q (players_at r (map (λ v. v.slot) vs))
        × (length (players_at r (map (λ v. v.slot) vs)) ≡ length vs)
  unfolding players_at
  players_at-All Q [] h = (tt, refl)
  players_at-All Q (v ∷ vs) h =
      let (p, at, q) = h.0 in
      let others = players_at-All Q vs h.1 in rw at ((q, others.0), ap suc others.1)

  Chosen-InReach :
      (caller : Option Player) (rules : TargetRules) (q : TargetQuery) (slot : ℤ) (v : PlayerView)
      → Chosen (Seen caller) q rules slot v
      → (p : Player) × (get r v.slot ≡ some p) × InReach caller rules p
  unfolding view_of
  Chosen-InReach caller rules q slot v c =
      let (p, at, seen) = c.given in
      (
        p,
        ap (λ x. get r x.slot) seen ∙ at,
        (
          at,
          targetable_by-MayReach policy r caller p at
              (ap (λ x. x.targetable) (sym seen) ∙ c.targetable),
          λ d. ap (λ x. x.alive) (sym seen) ∙ c.living d,
          λ b. ap (λ x. x.bot) (sym seen) ∙ c.human b,
        ),
      )

  -- What the players that are resolved are.
  abbrev Reached : Option Player → TargetRules → Resolved → Type 0
  Reached caller rules (unresolved e count) = Unit
  Reached caller rules (players ps) =
      All (InReach caller rules) ps
      × (1 ≤ length ps)
      × (rules.allow_multiple ≡ false → length ps ≤ 1)

  resolved_of-Reached :
      (caller : Option Player) (rules : TargetRules) (q : TargetQuery) (slot : ℤ) (o : Outcome)
      → Coherent r
      → filter_players
          (map (view_of team_of alive_of name_of random_index policy r caller) r.ordered)
          q
          rules
          slot
          random_index
        ≡ o
      → Reached caller rules (resolved_of r o)
  unfolding resolved_of
  resolved_of-Reached caller rules q slot (failed e count) c h = tt
  resolved_of-Reached caller rules q slot (found slots) c h =
      let (vs, same, chosen, some_one, one) =
        filter_players-Chosen
          (map (view_of team_of alive_of name_of random_index policy r caller) r.ordered) q rules
          slot random_index (Seen caller) slots (views-Seen caller r.ordered (ordered-get r c)) h in
      let (all_of, long) = players_at-All (InReach caller rules) vs (
        All-map (Chosen (Seen caller) q rules slot)
          (λ v. (p : Player) × (get r v.slot ≡ some p) × InReach caller rules p) vs
          (λ v. Chosen-InReach caller rules q slot v) chosen) in
      rw same (all_of, omega (arith, long), λ m. omega (arith, long, one m))

  -- The players that a token resolves to in a coherent roster: one or more, and one where the rules do not allow several; each is
  -- the one in his slot, whom the policy lets the caller act on, alive or no bot where the rules want it.
  pub resolve-InReach :
      (token : Bytes) (caller : Option Player) (rules : TargetRules) (ps : List Player)
      → Coherent r
      → resolve team_of alive_of name_of random_index policy r token caller rules ≡ players ps
      → All (InReach caller rules) ps
        × (1 ≤ length ps)
        × (rules.allow_multiple ≡ false → length ps ≤ 1)
  unfolding resolve
  resolve-InReach token caller rules ps c h = elim (Bool-cases (is_empty token)) [
    | inl e ↦ let h' : unresolved no_match 0 ≡ players ps = simp e at h in cc
    | inr e ↦
        subst (Reached caller rules) (simp e at h) (
          resolved_of-Reached caller rules (parse_target_token token) (caller_slot caller) _ c refl)
  ]

-- ===== src/Commands/Router/Dispatch/Gates.antt =====
-- What holds when `Dispatch` of src/Commands/CommandRouter.cpp calls a handler.
use voltmod.Strings.Chars.{is_empty}
use voltmod.Players.Roster.{Player, Roster, ref, get_ref}
use voltmod.Players.Policy.{Policy, PolicyError, Decision, authorized, refused, authorize}
use voltmod.Players.Policy.Decisions.{Permitted, authorize-Sound}
use voltmod.Commands.Targeting.Select.{TargetRules}
use voltmod.Commands.Binding.Fitting.{required_args, IsTrailing, Fits, bind_args-Fits}
use voltmod.Commands.Binding.{BoundArg, Resolved, Bound, bound, unbound, bind_args}
use voltmod.Commands.Router.{Answer, CommandDefinition, has_rest}
use voltmod.Commands.Router.Dispatch.{
  Origin, Effect, said, invoked, reply_line, slot_of, refusal, gate, answer_line, invoke_with,
  run_bound, dispatch_allowed, dispatch_gated, dispatch,
}
use voltmod.Common.{
  ◌≤◌, ◌≡◌, refl, ◌⊎◌, inl, inr, true, not, ◌&&◌, Option, none, some, List, [], ◌∷◌, ◌++◌, map,
  arith, ltb, Bool-cases, length, All, All-map, ℤ, Bytes,
}

-- The caller is the server, or the command has no permission, or the caller is connected and has it.
abbrev pub MayRun : Policy → Roster → Option Player → Bytes → Type 0
MayRun policy r caller permission =
    (caller ≡ none)
    ⊎ (permission ≡ [])
    ⊎ ((p : Player) × (c : Player) × (caller ≡ some p)
        × (get_ref r (ref p) ≡ some c)
        × Permitted policy c permission)

refusal-none :
    (answer : Policy × Decision)
    → (refusal answer).1 ≡ none
    → (c : Player) × (t : Option Player) × (answer.1 ≡ authorized c t)
unfolding refusal
refusal-none (policy, authorized c t) h = (c, t, refl)
refusal-none (policy, refused e) h = cc

empty_text : (text : Bytes) → is_empty text ≡ true → text ≡ []
empty_text [] h = refl
empty_text (c ∷ cs) h = absurd (ground arith)

gate-MayRun :
    (policy : Policy) (r : Roster) (caller : Option Player) (permission : Bytes)
    → (gate policy r caller permission).1 ≡ none
    → MayRun policy r caller permission
unfolding gate
gate-MayRun policy r none permission h = inl refl
gate-MayRun policy r (some p) permission h = elim (Bool-cases (is_empty permission)) [
  | inl e ↦ inr (inl (empty_text permission e))
  | inr e ↦
      let (c, t, ok) = refusal-none (authorize policy r (ref p) none permission) (simp e at h) in
      let sound = authorize-Sound policy r (ref p) none permission c t ok in
      inr (inr (p, c, refl, sound.0, sound.2))
]

-- A property of the handler's calls among effects.
abbrev pub At : (List BoundArg → Type 0) → Effect → Type 0
At P (said line) = Unit
At P (invoked bs) = P bs

abbrev pub Calls : (List BoundArg → Type 0) → List Effect → Type 0
Calls P effects = All (At P) effects

At-mono :
    (P Q : List BoundArg → Type 0) (e : Effect)
    → ((bs : List BoundArg) → P bs → Q bs)
    → At P e
    → At Q e
At-mono P Q (said line) f h = tt
At-mono P Q (invoked bs) f h = f bs h

reply_line-Calls : (P : List BoundArg → Type 0) (line : Bytes) → Calls P (reply_line line)
unfolding reply_line
reply_line-Calls P [] = tt
reply_line-Calls P (c ∷ cs) = (tt, tt)

said-Calls :
    (P : List BoundArg → Type 0) (lines : List Bytes) (effects : List Effect)
    → Calls P effects
    → Calls P (map said lines ++ effects)
said-Calls P [] effects h = h
said-Calls P (line ∷ lines) effects h = (tt, said-Calls P lines effects h)

-- The arguments that a handler gets fit the command.
abbrev Fitted : CommandDefinition → List BoundArg → Type 0
Fitted def bs = Fits def.args bs

module _ (translate : Bytes → ℤ → List (Bytes × Bytes) → Bytes) where
  invoke_with-Calls :
      (P : List BoundArg → Type 0)
      (handler : Option (Option Player → ℤ → List BoundArg → List Bytes × Answer))
      (caller : Option Player) (bs : List BoundArg)
      → P bs
      → Calls P (invoke_with translate handler caller bs)
  unfolding invoke_with
  invoke_with-Calls P none caller bs h = tt
  invoke_with-Calls P (some handler) caller bs h =
      let result = handler caller (slot_of caller) bs in
      (
        h,
        said-Calls P result.0 _
            (reply_line-Calls P (answer_line translate result.1 (slot_of caller))),
      )

  run_bound-Calls :
      (P : List BoundArg → Type 0) (def : CommandDefinition) (caller : Option Player) (b : Bound)
      → ((bs : List BoundArg) → b ≡ bound bs → P bs)
      → Calls P (run_bound translate def caller b)
  unfolding run_bound
  run_bound-Calls P def caller (bound bs) h = invoke_with-Calls P def.invoke caller bs (h bs refl)
  run_bound-Calls P def caller (unbound e) h =
      reply_line-Calls P (translate e.key (slot_of caller) e.vars)

  module _ (resolve : Bytes → Option Player → TargetRules → Resolved) where
    dispatch_allowed-Calls :
        (def : CommandDefinition) (caller : Option Player) (tokens : List Bytes) (origin : Origin)
        → IsTrailing def.args
        → Calls (Fitted def) (dispatch_allowed translate resolve def caller tokens origin)
    unfolding dispatch_allowed
    dispatch_allowed-Calls def caller tokens origin t =
        elim (Bool-cases (not (has_rest def.args) && ltb (length def.args) (length tokens))) [
          | inl e ↦ simp e (reply_line-Calls (Fitted def) _)
          | inr e ↦ elim (Bool-cases (ltb (length tokens) (required_args def.args))) [
            | inl e' ↦ simp (e, e') (reply_line-Calls (Fitted def) _)
            | inr e' ↦
                let enough : required_args def.args ≤ length tokens = ground arith in
                simp (e, e')
                  (run_bound-Calls (Fitted def) def caller
                    (bind_args resolve caller def.args tokens)
                    (λ bs h. bind_args-Fits resolve caller def.args tokens bs t enough h))
          ]
        ]

    dispatch_gated-Calls :
        (P : Type 0) (def : CommandDefinition) (caller : Option Player) (tokens : List Bytes)
        (origin : Origin) (policy : Policy) (o : Option PolicyError)
        → IsTrailing def.args
        → (o ≡ none → P)
        → Calls
            (λ bs. P × Fitted def bs)
            (dispatch_gated translate resolve def caller tokens origin (policy, o)).1
    unfolding dispatch_gated
    dispatch_gated-Calls P def caller tokens origin policy none t p =
        All-map (At (Fitted def)) (At (λ bs. P × Fitted def bs))
          (dispatch_allowed translate resolve def caller tokens origin)
          (λ e h. At-mono (Fitted def) (λ bs. P × Fitted def bs) e (λ bs f. (p refl, f)) h)
          (dispatch_allowed-Calls def caller tokens origin t)
    dispatch_gated-Calls P def caller tokens origin policy (some e) t p =
        reply_line-Calls (λ bs. P × Fitted def bs) _

    -- Whenever `Dispatch` calls the handler, the caller is the server, or the command has no permission, or the caller is a player
    -- who is connected and has it; and the handler gets one value for each argument of the command, of the argument's kind, omitted
    -- only where the argument is optional. The command's arguments are in the order that the builder lets them have.
    pub dispatch-Calls :
        (policy : Policy) (r : Roster) (def : CommandDefinition) (caller : Option Player)
        (tokens : List Bytes) (origin : Origin)
        → IsTrailing def.args
        → Calls
            (λ bs. MayRun policy r caller def.permission_name × Fits def.args bs)
            (dispatch translate resolve policy r def caller tokens origin).1
    unfolding dispatch
    dispatch-Calls policy r def caller tokens origin t =
        let passed = gate policy r caller def.permission_name in
        dispatch_gated-Calls (MayRun policy r caller def.permission_name) def caller tokens origin
          passed.0 passed.1 t (gate-MayRun policy r caller def.permission_name)

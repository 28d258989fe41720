-- ===== src/Players/Policy/Decisions.antt =====
-- What `Authorize` of src/Players/Policy.cpp decides.
use voltmod.Players.Roster.{PlayerRef, Player, Roster, get_ref}
use voltmod.Players.Policy.{
  Policy, PolicyError, denied, immune, Decision, authorized, refused, ask_permission,
  check_permission, ask_target, check_immunity, decide_immune, decide_target, decide, find_target,
  authorize_target, authorize_caller, authorize, immune_after, authorize_steam_id_caller,
  authorize_steam_id,
}
use mathlib.Core.Path.{subst}
use voltmod.Common.{
  ◌≡◌, refl, sym, ap, ◌∙◌, ◌⊎◌, inl, inr, Bool, true, Option, none, some, [], ◌∷◌, Bool-cases, ℤ,
  eqb_ℤ, eqb_ℤ_iff, Bytes,
}

-- The permission is none, or an installed callback grants it.
pub Permitted : Policy → Player → Bytes → Type 0
Permitted policy caller permission =
    (permission ≡ [])
    ⊎ ((f : ℤ → Bytes → Bool) × (policy.has_permission ≡ some f)
        × (f caller.steam_id permission ≡ true))

-- The target is the caller, or no callback is set, or it allows the pair.
pub Targetable : Policy → Player → ℤ → Type 0
Targetable policy caller target =
    (target ≡ caller.steam_id)
    ⊎ (policy.can_target ≡ none)
    ⊎ ((f : ℤ → ℤ → Bool) × (policy.can_target ≡ some f) × (f caller.steam_id target ≡ true))

ask_permission-granted :
    (policy : Policy) (o : Option (ℤ → Bytes → Bool)) (caller : ℤ) (permission : Bytes)
    → (ask_permission policy o caller permission).1 ≡ none
    → ((ask_permission policy o caller permission).0 ≡ policy)
      × (f : ℤ → Bytes → Bool) × (o ≡ some f)
      × (f caller permission ≡ true)
unfolding ask_permission
ask_permission-granted policy none caller permission h = cc
ask_permission-granted policy (some f) caller permission h =
    elim (Bool-cases (f caller permission)) [
      | inl q ↦ (refl, f, refl, q)
      | inr q ↦ let h' : some denied ≡ none = simp q at h in cc
    ]

check_permission-Permitted :
    (policy : Policy) (caller : Player) (permission : Bytes)
    → (check_permission policy caller permission).1 ≡ none
    → ((check_permission policy caller permission).0 ≡ policy) × Permitted policy caller permission
unfolding check_permission Permitted
check_permission-Permitted policy caller [] h = (refl, inl refl)
check_permission-Permitted policy caller (c ∷ cs) h =
    let granted = ask_permission-granted policy policy.has_permission caller.steam_id (c ∷ cs) h in
    (granted.0, inr (granted.1, granted.2, granted.3))

ask_target-allowed :
    (o : Option (ℤ → ℤ → Bool)) (caller target : ℤ)
    → ask_target o caller target ≡ none
    → (o ≡ none) ⊎ ((f : ℤ → ℤ → Bool) × (o ≡ some f) × (f caller target ≡ true))
unfolding ask_target
ask_target-allowed none caller target h = inl refl
ask_target-allowed (some f) caller target h = elim (Bool-cases (f caller target)) [
  | inl q ↦ inr (f, refl, q)
  | inr q ↦ let h' : some immune ≡ none = simp q at h in cc
]

check_immunity-Targetable :
    (policy : Policy) (caller : Player) (target : ℤ)
    → check_immunity policy caller target ≡ none
    → Targetable policy caller target
unfolding check_immunity Targetable
check_immunity-Targetable policy caller target h =
    elim (Bool-cases (eqb_ℤ target caller.steam_id)) [
      | inl q ↦ inl ((eqb_ℤ_iff target caller.steam_id).0 q)
      | inr q ↦ inr (ask_target-allowed policy.can_target caller.steam_id target (simp q at h))
    ]

-- What an authorization says of the caller, the target that was found and the permission.
Sound : Policy → Player → Option Player → Bytes → Decision → Type 0
Sound policy caller target permission (refused e) = Unit
Sound policy caller target permission (authorized c t) =
    (c ≡ caller)
    × (t ≡ target)
    × Permitted policy caller permission
    × ((x : Player) → target ≡ some x → Targetable policy caller x.steam_id)

refused-Sound :
    (policy : Policy) (caller : Player) (target : Option Player) (permission : Bytes)
    (e : PolicyError)
    → Sound policy caller target permission (refused e)
unfolding Sound
refused-Sound policy caller target permission e = tt

decide_immune-Sound :
    (policy : Policy) (caller target : Player) (permission : Bytes) (o : Option PolicyError)
    → check_immunity policy caller target.steam_id ≡ o
    → Permitted policy caller permission
    → Sound policy caller (some target) permission (decide_immune caller target o)
unfolding decide_immune Sound
decide_immune-Sound policy caller target permission none e p = (
  refl,
  refl,
  p,
  λ x f.
      let same : target ≡ x = cc in
      rw (sym same) (check_immunity-Targetable policy caller target.steam_id e),
)
decide_immune-Sound policy caller target permission (some x) e p = tt

decide_target-Sound :
    (policy : Policy) (caller : Player) (target : Option Player) (permission : Bytes)
    → Permitted policy caller permission
    → Sound policy caller target permission (decide_target policy caller target)
unfolding decide_target Sound
decide_target-Sound policy caller none permission p = (refl, refl, p, λ x f. cc)
decide_target-Sound policy caller (some target) permission p =
    decide_immune-Sound policy caller target permission
      (check_immunity policy caller target.steam_id) refl p

decide-Sound :
    (policy : Policy) (caller : Player) (target : Option Player) (permission : Bytes)
    (after : Policy) (checked : Option PolicyError)
    → (checked ≡ none → (after ≡ policy) × Permitted policy caller permission)
    → Sound policy caller target permission (decide caller target (after, checked)).1
unfolding decide
decide-Sound policy caller target permission after none h =
    let (same, p) = h refl in rw same (decide_target-Sound policy caller target permission p)
decide-Sound policy caller target permission after (some e) h =
    refused-Sound policy caller target permission e

-- What the result says of the two players looked up.
Answers : Policy → Option Player → Option (Option Player) → Bytes → Player → Option Player → Type 0
Answers policy caller target permission c t =
    (caller ≡ some c)
    × (target ≡ some t)
    × Permitted policy c permission
    × ((x : Player) → t ≡ some x → Targetable policy c x.steam_id)

Sound-Answers :
    (policy : Policy) (caller c : Player) (target t : Option Player) (permission : Bytes)
    → Sound policy caller target permission (authorized c t)
    → Answers policy (some caller) (some target) permission c t
unfolding Sound Answers
Sound-Answers policy caller c target t permission s =
    (ap some (sym s.0), ap some (sym s.1), rw s.0 s.2, λ x h. rw s.0 (s.3 x (sym s.1 ∙ h)))

authorize_target-Answers :
    (policy : Policy) (caller : Player) (target : Option (Option Player)) (permission : Bytes)
    (c : Player) (t : Option Player)
    → (authorize_target policy caller target permission).1 ≡ authorized c t
    → Answers policy (some caller) target permission c t
unfolding authorize_target
authorize_target-Answers policy caller none permission c t h = cc
authorize_target-Answers policy caller (some target) permission c t h =
    let checked = check_permission policy caller permission in
    Sound-Answers policy caller c target t permission (
      subst (Sound policy caller target permission) h (
        decide-Sound policy caller target permission checked.0 checked.1
          (check_permission-Permitted policy caller permission)))

authorize_caller-Answers :
    (policy : Policy) (r : Roster) (caller : Option Player) (target : Option PlayerRef)
    (permission : Bytes) (c : Player) (t : Option Player)
    → (authorize_caller policy r caller target permission).1 ≡ authorized c t
    → Answers policy caller (find_target r target) permission c t
unfolding authorize_caller
authorize_caller-Answers policy r none target permission c t h = cc
authorize_caller-Answers policy r (some caller) target permission c t h =
    authorize_target-Answers policy caller (find_target r target) permission c t h

-- `Authorize` returns a pair only of the caller, who is connected under the reference given and has the permission, and of
-- the target asked for, who is connected too and whom the caller may act on.
pub authorize-Sound :
    (policy : Policy) (r : Roster) (caller : PlayerRef) (target : Option PlayerRef)
    (permission : Bytes) (c : Player) (t : Option Player)
    → (authorize policy r caller target permission).1 ≡ authorized c t
    → (get_ref r caller ≡ some c)
      × (find_target r target ≡ some t)
      × Permitted policy c permission
      × ((x : Player) → t ≡ some x → Targetable policy c x.steam_id)
unfolding authorize Answers
authorize-Sound policy r caller target permission c t h =
    authorize_caller-Answers policy r (get_ref r caller) target permission c t h

-- ---- by SteamID
-- The error of an answer.
pub error_of : Decision → Option PolicyError
error_of (authorized c t) = none
error_of (refused e) = some e

error_of-decide_immune :
    (caller target : Player) (o : Option PolicyError) → error_of (decide_immune caller target o) ≡ o
unfolding decide_immune error_of
error_of-decide_immune caller target none = refl
error_of-decide_immune caller target (some e) = refl

-- The two answers and policies agree.
Same : Policy × Decision → Policy × Option PolicyError → Type 0
Same a b = (a.0 ≡ b.0) × (error_of a.1 ≡ b.1)

decide-Same :
    (caller target : Player) (checked : Policy × Option PolicyError)
    → Same (decide caller (some target) checked) (immune_after caller target.steam_id checked)
unfolding decide immune_after decide_target error_of Same
decide-Same caller target (after, none) =
    (refl, error_of-decide_immune caller target (check_immunity after caller target.steam_id))
decide-Same caller target (after, some e) = (refl, refl)

authorize_caller-Same :
    (policy : Policy) (r : Roster) (caller : Option Player) (ref : PlayerRef) (target : Player)
    (permission : Bytes)
    → get_ref r ref ≡ some target
    → Same
        (authorize_caller policy r caller (some ref) permission)
        (authorize_steam_id_caller policy caller target.steam_id permission)
unfolding authorize_caller authorize_steam_id_caller find_target Same error_of authorize_target
authorize_caller-Same policy r none ref target permission h = (refl, refl)
authorize_caller-Same policy r (some caller) ref target permission h =
    rw h (decide-Same caller target (check_permission policy caller permission))

-- On a target that is connected, `AuthorizeSteamId` gives the error that `Authorize` gives, and none where it authorizes; both
-- leave the same policy.
pub authorize-authorize_steam_id :
    (policy : Policy) (r : Roster) (caller ref : PlayerRef) (target : Player) (permission : Bytes)
    → get_ref r ref ≡ some target
    → ((authorize policy r caller (some ref) permission).0
        ≡ (authorize_steam_id policy r caller target.steam_id permission).0)
      × (error_of (authorize policy r caller (some ref) permission).1
          ≡ (authorize_steam_id policy r caller target.steam_id permission).1)
unfolding authorize authorize_steam_id Same
authorize-authorize_steam_id policy r caller ref target permission h =
    authorize_caller-Same policy r (get_ref r caller) ref target permission h

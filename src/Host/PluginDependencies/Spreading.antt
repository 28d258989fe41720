-- ===== src/Host/PluginDependencies/Spreading.antt =====
-- The loops of `RefuseUnsatisfied` in src/Host/Plugins/PluginDependencies.cpp.
use voltmod.Host.PluginDependencies.{
  Spread, not_installed, host_refused, has_name, has_key, refuse, refuse_missing, refuse_dependents,
}
use voltmod.Host.PluginDependencies.Grows.{
  Grows, Grows-refl, Grows-trans, refuse-Grows, has_key-refuse,
}
use voltmod.Common.{
  ◌≡◌, sym, ap, ◌∙◌, inl, inr, true, false, not, ◌&&◌, ◌||◌, Option, none, some, List, [], ◌∷◌,
  arith, if◌then◌else◌, or_true, or_right_true, true_not-false, Bool-cases, Option-cases, any,
  find_if, All, All-map, Bytes, text_eq, text_eq_to, text_eq_refl,
}

-- Plugins that are all among the given ones.
pub Within : List (Bytes × List Bytes) → List (Bytes × List Bytes) → Type 0
Within plugins rest = All (λ e. has_key plugins e.0 ≡ true) rest

pub Within-self : (plugins : List (Bytes × List Bytes)) → Within plugins plugins
unfolding Within has_key
Within-self [] = tt
Within-self (e ∷ plugins) =
    let here : (text_eq e.0 e.0 || any (λ x. text_eq x.0 e.0) plugins) ≡ true =
      rw (text_eq_refl e.0) in
    (
      here,
      All-map (λ x. has_key plugins x.0 ≡ true) (λ x. has_key (e ∷ plugins) x.0 ≡ true) plugins
          (λ x q. or_right_true (text_eq e.0 x.0) (any (λ y. text_eq y.0 x.0) plugins) q)
          (Within-self plugins),
    )

after_missing :
    (plugins : List (Bytes × List Bytes)) (name : Bytes) (o : Option Bytes) (s : Spread) → Spread
after_missing plugins name o s = elim o [
  | none ↦ s
  | some dependency ↦ refuse name (not_installed dependency) s
]

after_missing-Grows :
    (plugins : List (Bytes × List Bytes)) (name : Bytes) (o : Option Bytes) (s : Spread)
    → has_key plugins name ≡ true
    → Grows plugins s (after_missing plugins name o s)
unfolding after_missing
after_missing-Grows plugins name none s h = Grows-refl plugins s
after_missing-Grows plugins name (some d) s h = refuse-Grows plugins name (not_installed d) s h

pub refuse_missing-Grows :
    (plugins rest : List (Bytes × List Bytes)) (s : Spread)
    → Within plugins rest
    → Grows plugins s (refuse_missing plugins rest s)
unfolding refuse_missing Within after_missing
refuse_missing-Grows plugins [] s h = Grows-refl plugins s
refuse_missing-Grows plugins ((name, dependencies) ∷ rest) s h =
    let first = find_if (λ d. not (has_key plugins d)) dependencies in
    let s' = after_missing plugins name first s in
    Grows-trans plugins s s' (refuse_missing plugins rest s')
      (after_missing-Grows plugins name first s h.0) (refuse_missing-Grows plugins rest s' h.1)

pub refuse_dependents-Grows :
    (plugins : List (Bytes × List Bytes)) (gone : Bytes) (rest : List (Bytes × List Bytes))
    (s : Spread)
    → Within plugins rest
    → Grows plugins s (refuse_dependents gone rest s)
unfolding refuse_dependents Within
refuse_dependents-Grows plugins gone [] s h = Grows-refl plugins s
refuse_dependents-Grows plugins gone ((name, dependencies) ∷ rest) s h =
    elim (Bool-cases (not (has_key s.0 name) && has_name dependencies gone)) [
      | inl q ↦
          let s' = refuse name (host_refused gone) s in
          simp q (
            Grows-trans plugins s s' (refuse_dependents gone rest s')
              (refuse-Grows plugins name (host_refused gone) s h.0)
              (refuse_dependents-Grows plugins gone rest s' h.1))
      | inr q ↦ simp q (refuse_dependents-Grows plugins gone rest s h.1)
    ]

-- Whether each of some names is a key.
unfoldable pub Installed : List (Bytes × List Bytes) → List Bytes → Type 0
Installed plugins names = (d : Bytes) → has_name names d ≡ true → has_key plugins d ≡ true

find_if-Installed :
    (plugins : List (Bytes × List Bytes)) (names : List Bytes)
    → find_if (λ d. not (has_key plugins d)) names ≡ none
    → Installed plugins names
unfolding Installed has_name
find_if-Installed plugins [] h d m = absurd (ground arith)
find_if-Installed plugins (x ∷ names) h d m = elim (Bool-cases (has_key plugins x)) [
  | inl q ↦ elim (or_true (text_eq x d) (any (λ n. text_eq n d) names) m) [
    | inl e ↦ ap (has_key plugins) (sym (text_eq_to x d e)) ∙ q
    | inr m' ↦ find_if-Installed plugins names (simp q at h) d m'
  ]
  | inr q ↦ let h' : some x ≡ none = simp q at h in cc
]

after_missing-Installed :
    (plugins : List (Bytes × List Bytes)) (name : Bytes) (names : List Bytes) (s t : Spread)
    → Grows plugins (after_missing plugins name (find_if (λ d. not (has_key plugins d)) names) s) t
    → has_key t.0 name ≡ false
    → Installed plugins names
unfolding after_missing
after_missing-Installed plugins name names s t g h =
    elim (Option-cases (find_if (λ d. not (has_key plugins d)) names)) [
      | inl q ↦ find_if-Installed plugins names q
      | inr q ↦
          let g' : Grows plugins (refuse name (not_installed q.0) s) t = simp (q.1) at g in
          true_not-false (has_key t.0 name)
            (g'.refused_stay name (has_key-refuse name (not_installed q.0) s)) h
    ]

-- Those which the loop over missing dependencies leaves have all of theirs installed.
pub refuse_missing-Installed :
    (plugins rest : List (Bytes × List Bytes)) (s : Spread)
    → Within plugins rest
    → All (λ e. has_key (refuse_missing plugins rest s).0 e.0 ≡ false → Installed plugins e.1) rest
unfolding refuse_missing Within after_missing
refuse_missing-Installed plugins [] s h = tt
refuse_missing-Installed plugins ((name, dependencies) ∷ rest) s h =
    let s' = after_missing plugins name (find_if (λ d. not (has_key plugins d)) dependencies) s in
    (
      after_missing-Installed plugins name dependencies s (refuse_missing plugins rest s')
          (refuse_missing-Grows plugins rest s' h.1),
      refuse_missing-Installed plugins rest s' h.1,
    )

after_dependent : Bytes → Bytes → List Bytes → Spread → Spread
after_dependent gone name dependencies s =
    if not (has_key s.0 name) && has_name dependencies gone
    then refuse name (host_refused gone) s
    else s

after_dependent-free :
    (plugins : List (Bytes × List Bytes)) (gone name : Bytes) (dependencies : List Bytes)
    (s t : Spread)
    → Grows plugins (after_dependent gone name dependencies s) t
    → has_key t.0 name ≡ false
    → has_name dependencies gone ≡ false
unfolding after_dependent
after_dependent-free plugins gone name dependencies s t g h =
    elim (Bool-cases (has_name dependencies gone)) [
      | inl q ↦ elim (Bool-cases (has_key s.0 name)) [
        | inl r ↦
            let g' : Grows plugins s t = simp r at g in
            true_not-false (has_key t.0 name) (g'.refused_stay name r) h
        | inr r ↦
            let g' : Grows plugins (refuse name (host_refused gone) s) t = simp (q, r) at g in
            true_not-false (has_key t.0 name)
              (g'.refused_stay name (has_key-refuse name (host_refused gone) s)) h
      ]
      | inr q ↦ q
    ]

-- Those which a pass for the name `gone` leaves do not require it.
pub refuse_dependents-free :
    (plugins : List (Bytes × List Bytes)) (gone : Bytes) (rest : List (Bytes × List Bytes))
    (s : Spread)
    → Within plugins rest
    → All
        (λ e. has_key (refuse_dependents gone rest s).0 e.0 ≡ false → has_name e.1 gone ≡ false)
        rest
unfolding refuse_dependents Within after_dependent
refuse_dependents-free plugins gone [] s h = tt
refuse_dependents-free plugins gone ((name, dependencies) ∷ rest) s h =
    let s' = after_dependent gone name dependencies s in
    (
      after_dependent-free plugins gone name dependencies s (refuse_dependents gone rest s')
          (refuse_dependents-Grows plugins gone rest s' h.1),
      refuse_dependents-free plugins gone rest s' h.1,
    )

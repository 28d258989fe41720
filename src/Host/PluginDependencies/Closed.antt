-- ===== src/Host/PluginDependencies/Closed.antt =====
-- The plugins that `Resolve` of src/Host/Plugins/PluginDependencies.cpp loads.
use voltmod.Host.PluginDependencies.{
  Refusal, Spread, has_name, has_key, refuse_missing, refuse_dependents, spread_refusals,
  refuse_unsatisfied, names_of,
}
use voltmod.Host.PluginDependencies.Grows.{Grows, unrefused}
use voltmod.Host.PluginDependencies.Spreading.{
  Within-self, Installed, refuse_missing-Grows, refuse_missing-Installed, refuse_dependents-Grows,
  refuse_dependents-free,
}
use voltmod.Common.{
  ℕ, zero, suc, ◌+◌, ◌≤◌, ◌≡◌, refl, sym, ap, ◌∙◌, ◌⊎◌, inl, inr, true, false, List, [], ◌∷◌, ◌++◌,
  arith, or_true, or_right_true, true_not-false, Bool-cases, length, any, All, All-map, Bytes,
  text_eq, text_eq_to,
}

-- A name that is refused still waits.
Waits : Spread → Type 0
Waits s = (k : Bytes) → has_key s.0 k ≡ true → has_name s.1 k ≡ true

-- What the loop keeps: a plugin that is not refused requires plugins that are installed, and a refused one among them waits.
unfoldable pub Sound : List (Bytes × List Bytes) → Spread → Bytes × List Bytes → Type 0
Sound plugins s e =
    has_key s.0 e.0 ≡ false
    → (d : Bytes) → has_name e.1 d ≡ true
    → (has_key plugins d ≡ true) × ((has_key s.0 d ≡ false) ⊎ (has_name s.1 d ≡ true))

zip_with-All :
    {A : Type 0} (P Q R : A → Type 0) (xs : List A)
    → ((x : A) → P x → Q x → R x)
    → All P xs
    → All Q xs
    → All R xs
zip_with-All P Q R [] f p q = tt
zip_with-All P Q R (x ∷ xs) f p q = (f x p.0 q.0, zip_with-All P Q R xs f p.1 q.1)

Sound-pass :
    (plugins : List (Bytes × List Bytes)) (refused : List (Bytes × Refusal)) (gone : Bytes)
    (waiting : List Bytes) (t : Spread)
    → Grows plugins (refused, waiting) t
    → (e : Bytes × List Bytes) → Sound plugins (refused, gone ∷ waiting) e
    → (has_key t.0 e.0 ≡ false → has_name e.1 gone ≡ false)
    → Sound plugins t e
unfolding Sound has_name
Sound-pass plugins refused gone waiting t g e sound free kept d m =
    let before : has_key refused e.0 ≡ false = elim (Bool-cases (has_key refused e.0)) [
      | inl q ↦ true_not-false (has_key t.0 e.0) (g.refused_stay e.0 q) kept
      | inr q ↦ q
    ] in
    let (there, or_waits) = sound before d m in
    (
      there,
      elim (Bool-cases (has_key t.0 d)) [
        | inl q ↦ inr (elim (g.new_wait d q) [
          | inl r ↦ elim or_waits [
            | inl r' ↦ true_not-false (has_key refused d) r r'
            | inr w ↦ elim (or_true (text_eq gone d) (any (λ x. text_eq x d) waiting) w) [
              | inl same ↦
                  let none_of : has_name e.1 d ≡ false =
                    ap (has_name e.1) (sym (text_eq_to gone d same)) ∙ free kept in
                  true_not-false (has_name e.1 d) m none_of
              | inr w' ↦ g.waiting_stay d w'
            ]
          ]
          | inr w ↦ w
        ])
        | inr q ↦ inl q
      ],
    )

-- The loop ends with nothing left to spread when it is given that many rounds.
spread_refusals-Sound :
    (fuel : ℕ) (plugins : List (Bytes × List Bytes)) (s : Spread)
    → length s.1 + unrefused plugins s.0 ≤ fuel
    → All (Sound plugins s) plugins
    → ((spread_refusals fuel plugins s).1 ≡ [])
      × All (Sound plugins (spread_refusals fuel plugins s)) plugins
unfolding spread_refusals
spread_refusals-Sound zero plugins (refused, []) h sound = (refl, sound)
spread_refusals-Sound zero plugins (refused, gone ∷ waiting) h sound = absurd (omega arith)
spread_refusals-Sound (suc fuel) plugins (refused, []) h sound = (refl, sound)
spread_refusals-Sound (suc fuel) plugins (refused, gone ∷ waiting) h sound =
    let t = refuse_dependents gone plugins (refused, waiting) in
    let g = refuse_dependents-Grows plugins gone plugins (refused, waiting) (Within-self plugins) in
    spread_refusals-Sound fuel plugins t (omega (arith, g.no_more)) (
      zip_with-All (Sound plugins (refused, gone ∷ waiting))
        (λ e. has_key t.0 e.0 ≡ false → has_name e.1 gone ≡ false) (Sound plugins t) plugins
        (Sound-pass plugins refused gone waiting t g) sound
        (refuse_dependents-free plugins gone plugins (refused, waiting) (Within-self plugins)))

has_name-append :
    (xs ys : List Bytes) (k : Bytes) → has_name ys k ≡ true → has_name (xs ++ ys) k ≡ true
unfolding has_name
has_name-append [] ys k h = h
has_name-append (x ∷ xs) ys k h =
    or_right_true (text_eq x k) (any (λ n. text_eq n k) (xs ++ ys)) (has_name-append xs ys k h)

has_name-append_left :
    (xs ys : List Bytes) (k : Bytes) → has_name xs k ≡ true → has_name (xs ++ ys) k ≡ true
unfolding has_name
has_name-append_left [] ys k h = absurd (ground arith)
has_name-append_left (x ∷ xs) ys k h = elim (or_true (text_eq x k) (any (λ n. text_eq n k) xs) h) [
  | inl q ↦ rw q
  | inr q ↦
      or_right_true (text_eq x k) (any (λ n. text_eq n k) (xs ++ ys))
        (has_name-append_left xs ys k q)
]

has_name_one : (x k : Bytes) → text_eq x k ≡ true → has_name (x ∷ []) k ≡ true
unfolding has_name
has_name_one x k h = rw h

names_of-Waits : (refused : List (Bytes × Refusal)) → Waits (refused, names_of refused)
unfolding Waits names_of has_key
names_of-Waits [] k h = absurd (ground arith)
names_of-Waits (e ∷ refused) k h =
    elim (or_true (text_eq e.0 k) (any (λ x. text_eq x.0 k) refused) h) [
      | inl q ↦ has_name-append (names_of refused) (e.0 ∷ []) k (has_name_one e.0 k q)
      | inr q ↦ has_name-append_left (names_of refused) (e.0 ∷ []) k (names_of-Waits refused k q)
    ]

unrefused_le :
    (plugins : List (Bytes × List Bytes)) (refused : List (Bytes × Refusal))
    → unrefused plugins refused ≤ length plugins
unfolding unrefused
unrefused_le [] refused = omega arith
unrefused_le (e ∷ plugins) refused = ground (arith, unrefused_le plugins refused)

Waits-Grows :
    (plugins : List (Bytes × List Bytes)) (s t : Spread) → Waits s → Grows plugins s t → Waits t
unfolding Waits
Waits-Grows plugins s t w g k h = elim (g.new_wait k h) [
  | inl r ↦ g.waiting_stay k (w k r)
  | inr q ↦ q
]

Sound-first :
    (plugins : List (Bytes × List Bytes)) (s : Spread) (e : Bytes × List Bytes)
    → Waits s
    → (has_key s.0 e.0 ≡ false → Installed plugins e.1)
    → Sound plugins s e
unfolding Waits Sound Installed
Sound-first plugins s e waits there kept d m =
    (there kept d m, elim (Bool-cases (has_key s.0 d)) [ inl q ↦ inr (waits d q) | inr q ↦ inl q ])

-- What `RefuseUnsatisfied` leaves.
pub refuse_unsatisfied-Sound :
    (plugins : List (Bytes × List Bytes)) (refused : List (Bytes × Refusal))
    → ((refuse_unsatisfied plugins refused).1 ≡ [])
      × All (Sound plugins (refuse_unsatisfied plugins refused)) plugins
unfolding refuse_unsatisfied
refuse_unsatisfied-Sound plugins refused =
    let s = refuse_missing plugins plugins (refused, names_of refused) in
    let g =
      refuse_missing-Grows plugins plugins (refused, names_of refused) (Within-self plugins) in
    let waits = Waits-Grows plugins (refused, names_of refused) s (names_of-Waits refused) g in
    let le = unrefused_le plugins s.0 in
    spread_refusals-Sound (length s.1 + length plugins) plugins s (omega arith) (
      All-map (λ e. has_key s.0 e.0 ≡ false → Installed plugins e.1) (Sound plugins s) plugins
        (λ e f. Sound-first plugins s e waits f)
        (refuse_missing-Installed plugins plugins (refused, names_of refused)
          (Within-self plugins)))

spread_refusals_stay :
    (fuel : ℕ) (plugins : List (Bytes × List Bytes)) (s : Spread) (k : Bytes)
    → has_key s.0 k ≡ true
    → has_key (spread_refusals fuel plugins s).0 k ≡ true
unfolding spread_refusals
spread_refusals_stay zero plugins s k h = h
spread_refusals_stay (suc fuel) plugins (refused, []) k h = h
spread_refusals_stay (suc fuel) plugins (refused, gone ∷ waiting) k h =
    let g = refuse_dependents-Grows plugins gone plugins (refused, waiting) (Within-self plugins) in
    spread_refusals_stay fuel plugins (refuse_dependents gone plugins (refused, waiting)) k
      (g.refused_stay k h)

-- A name that is refused before stays refused.
pub refuse_unsatisfied_stay :
    (plugins : List (Bytes × List Bytes)) (refused : List (Bytes × Refusal)) (k : Bytes)
    → has_key refused k ≡ true
    → has_key (refuse_unsatisfied plugins refused).0 k ≡ true
unfolding refuse_unsatisfied
refuse_unsatisfied_stay plugins refused k h =
    let s = refuse_missing plugins plugins (refused, names_of refused) in
    let g =
      refuse_missing-Grows plugins plugins (refused, names_of refused) (Within-self plugins) in
    spread_refusals_stay (length s.1 + length plugins) plugins s k (g.refused_stay k h)

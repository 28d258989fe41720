-- ===== src/Common/Map.antt =====
-- `std::unordered_map` and `std::map` as association lists without an order, their keys compared by
-- a decidable equality.
use mathlib.Core.List.{List, [], ◌∷◌}
use mathlib.Core.Logic.{ite, ◌≢◌, ◌⊎◌, inl, inr}
use mathlib.Core.Option.{Option, none, some}
use mathlib.Core.Path.{◌≡◌, refl, sym, ap, ◌∙◌}
use native.Mathlib.Omega.{arith}
use voltmod.Common.Lists.{All, All-map}

ite_cases {ℓ ℓ'} :
    {P : Type ℓ} {V : Type ℓ'} (d : Dec P) (a b : V) → P × (ite d a b ≡ a) ⊎ ¬ P × (ite d a b ≡ b)
ite_cases (yes h) a b = inl (h, refl)
ite_cases (no h) a b = inr (h, refl)

ite_yes {ℓ ℓ'} : {P : Type ℓ} {V : Type ℓ'} (d : Dec P) (a b : V) → P → ite d a b ≡ a
ite_yes (yes h) a b p = refl
ite_yes (no h) a b p = absurd (h p)

ite_no {ℓ ℓ'} : {P : Type ℓ} {V : Type ℓ'} (d : Dec P) (a b : V) → ¬ P → ite d a b ≡ b
ite_no (yes h) a b n = absurd (n h)
ite_no (no h) a b n = refl

module _ {ℓ} {K V : Type ℓ} (dec : Discrete K) where
  -- `find`.
  unfoldable pub find_key : K → List (K × V) → Option V
  find_key k [] = none
  find_key k ((j, v) ∷ m) = ite (dec j k) (some v) (find_key k m)

  -- `m[k] = v`.
  unfoldable pub put_key : K → V → List (K × V) → List (K × V)
  put_key k v [] = (k, v) ∷ []
  put_key k v ((j, w) ∷ m) = ite (dec j k) ((k, v) ∷ m) ((j, w) ∷ put_key k v m)

  -- `erase(k)`: every entry of the key, of which a map holds one at most.
  unfoldable pub erase_key : K → List (K × V) → List (K × V)
  erase_key k [] = []
  erase_key k ((j, w) ∷ m) = ite (dec j k) (erase_key k m) ((j, w) ∷ erase_key k m)

  pub find_key-put_key :
      (j k : K) (v : V) (m : List (K × V))
      → find_key j (put_key k v m) ≡ ite (dec k j) (some v) (find_key j m)
  unfolding find_key put_key
  find_key-put_key j k v [] = refl
  find_key-put_key j k v ((i, w) ∷ m) = ground (arith, find_key-put_key j k v m)

  pub find_key-erase_key :
      (j k : K) (m : List (K × V)) → find_key j (erase_key k m) ≡ ite (dec k j) none (find_key j m)
  unfolding find_key erase_key
  find_key-erase_key j k [] = ground arith
  find_key-erase_key j k ((i, w) ∷ m) = ground (arith, find_key-erase_key j k m)

  -- A key put in or erased is the one asked for, or changes nothing at the one asked for.
  pub find_key_put :
      (k j : K) (v : V) (m : List (K × V))
      → (k ≡ j) × (find_key j (put_key k v m) ≡ some v)
        ⊎ (k ≢ j) × (find_key j (put_key k v m) ≡ find_key j m)
  find_key_put k j v m = elim (ite_cases (dec k j) (some v) (find_key j m)) [
    | inl q ↦ inl (q.0, find_key-put_key j k v m ∙ q.1)
    | inr q ↦ inr (q.0, find_key-put_key j k v m ∙ q.1)
  ]

  pub find_key_erased :
      (k j : K) (m : List (K × V))
      → (k ≡ j) × (find_key j (erase_key k m) ≡ none)
        ⊎ (k ≢ j) × (find_key j (erase_key k m) ≡ find_key j m)
  find_key_erased k j m = elim (ite_cases (dec k j) none (find_key j m)) [
    | inl q ↦ inl (q.0, find_key-erase_key j k m ∙ q.1)
    | inr q ↦ inr (q.0, find_key-erase_key j k m ∙ q.1)
  ]

  pub All-put_key {κ} :
      (P : K × V → Type κ) (k : K) (v : V) (m : List (K × V))
      → P (k, v)
      → All P m
      → All P (put_key k v m)
  unfolding put_key
  All-put_key P k v [] new h = (new, tt)
  All-put_key P k v ((j, w) ∷ m) new h =
      elim (ite_cases (dec j k) ((k, v) ∷ m) ((j, w) ∷ put_key k v m)) [
        | inl q ↦ rw q.1 (new, h.1)
        | inr q ↦ rw q.1 (h.0, All-put_key P k v m new h.1)
      ]

  pub All-erase_key {κ} :
      (P : K × V → Type κ) (k : K) (m : List (K × V)) → All P m → All P (erase_key k m)
  unfolding erase_key
  All-erase_key P k [] h = tt
  All-erase_key P k ((j, w) ∷ m) h =
      elim (ite_cases (dec j k) (erase_key k m) ((j, w) ∷ erase_key k m)) [
        | inl q ↦ rw q.1 (All-erase_key P k m h.1)
        | inr q ↦ rw q.1 (h.0, All-erase_key P k m h.1)
      ]

  -- A map has no key twice.
  unfoldable pub Distinct : List (K × V) → Type ℓ
  Distinct [] = Unit
  Distinct ((k, v) ∷ m) = (find_key k m ≡ none) × Distinct m

  pub put_key-Distinct : (k : K) (v : V) (m : List (K × V)) → Distinct m → Distinct (put_key k v m)
  unfolding put_key Distinct find_key
  put_key-Distinct k v [] h = (refl, tt)
  put_key-Distinct k v ((j, w) ∷ m) h =
      elim (ite_cases (dec j k) ((k, v) ∷ m) ((j, w) ∷ put_key k v m)) [
        | inl q ↦ rw q.1 (ap (λ x. find_key x m) (sym q.0) ∙ h.0, h.1)
        | inr q ↦ rw q.1 (
          elim (find_key_put k j v m) [
            | inl same ↦ absurd (q.0 (sym same.0))
            | inr other ↦ other.1 ∙ h.0
          ],
          put_key-Distinct k v m h.1,
        )
      ]

  pub erase_key-Distinct : (k : K) (m : List (K × V)) → Distinct m → Distinct (erase_key k m)
  unfolding erase_key Distinct
  erase_key-Distinct k [] h = tt
  erase_key-Distinct k ((j, w) ∷ m) h =
      elim (ite_cases (dec j k) (erase_key k m) ((j, w) ∷ erase_key k m)) [
        | inl q ↦ rw q.1 (erase_key-Distinct k m h.1)
        | inr q ↦ rw q.1 (
          elim (find_key_erased k j m) [ inl same ↦ same.1 | inr other ↦ other.1 ∙ h.0 ],
          erase_key-Distinct k m h.1,
        )
      ]

  -- Every entry of such a map is the one that its key finds.
  pub Distinct-All : (m : List (K × V)) → Distinct m → All (λ e. find_key e.0 m ≡ some e.1) m
  unfolding Distinct find_key
  Distinct-All [] h = tt
  Distinct-All ((k, v) ∷ m) h = (
    elim (ite_cases (dec k k) (some v) (find_key k m)) [ inl q ↦ q.1 | inr q ↦ absurd (q.0 refl) ],
    All-map (λ e. find_key e.0 m ≡ some e.1) (λ e. find_key e.0 ((k, v) ∷ m) ≡ some e.1) m
        (λ e f. elim (ite_cases (dec k e.0) (some v) (find_key e.0 m)) [
          | inl q ↦
              let missing : find_key e.0 m ≡ none = ap (λ x. find_key x m) (sym q.0) ∙ h.0 in cc
          | inr q ↦ q.1 ∙ f
        ])
        (Distinct-All m h.1),
  )

  put_key_hit :
      (j k : K) (x w : V) (m : List (K × V)) → j ≡ k → put_key k w ((j, x) ∷ m) ≡ (k, w) ∷ m
  unfolding put_key
  put_key_hit j k x w m h = ite_yes (dec j k) ((k, w) ∷ m) ((j, x) ∷ put_key k w m) h

  put_key_miss :
      (j k : K) (x w : V) (m : List (K × V))
      → j ≢ k
      → put_key k w ((j, x) ∷ m) ≡ (j, x) ∷ put_key k w m
  unfolding put_key
  put_key_miss j k x w m h = ite_no (dec j k) ((k, w) ∷ m) ((j, x) ∷ put_key k w m) h

  -- Only the last value put in counts.
  pub put_key_twice :
      (k : K) (v w : V) (m : List (K × V)) → put_key k w (put_key k v m) ≡ put_key k w m
  unfolding put_key
  put_key_twice k v w [] = put_key_hit k k v w [] refl
  put_key_twice k v w ((j, x) ∷ m) =
      elim (ite_cases (dec j k) ((k, v) ∷ m) ((j, x) ∷ put_key k v m)) [
        | inl q ↦
            ap (put_key k w) q.1 ∙ put_key_hit k k v w m refl ∙ sym (put_key_hit j k x w m q.0)
        | inr q ↦
            ap (put_key k w) q.1
            ∙ put_key_miss j k x w (put_key k v m) q.0
            ∙ ap (λ t. (j, x) ∷ t) (put_key_twice k v w m)
            ∙ sym (put_key_miss j k x w m q.0)
      ]

-- ===== src/Common/Find.antt =====
-- `std::ranges::find_if` over what the program does to a list.
use mathlib.Core.Path.{◌≡◌, refl}
use mathlib.Core.Logic.{inl, inr}
use mathlib.Core.List.{List, [], ◌∷◌, ◌++◌}
use mathlib.Core.Option.{none, some}
use mathlib.Core.Bool.{Bool, true}
use voltmod.Common.Tests.{Bool-cases}
use voltmod.Common.Lists.{keep, find_if}

module _ {ℓ} {A : Type ℓ} (p : A → Bool) where
  pub find_if-append_some :
      (xs ys : List A) {x : A} → find_if p xs ≡ some x → find_if p (xs ++ ys) ≡ some x
  find_if-append_some [] ys {x} h = cc
  find_if-append_some (y ∷ xs) ys {x} h = elim (Bool-cases (p y)) [
    | inl q ↦ simp q (simp q at h)
    | inr q ↦ simp q (find_if-append_some xs ys (simp q at h))
  ]

  pub find_if-append_none :
      (xs ys : List A) → find_if p xs ≡ none → find_if p (xs ++ ys) ≡ find_if p ys
  find_if-append_none [] ys h = refl
  find_if-append_none (y ∷ xs) ys h = elim (Bool-cases (p y)) [
    | inl q ↦ let h' : some y ≡ none = simp q at h in cc
    | inr q ↦ simp q (find_if-append_none xs ys (simp q at h))
  ]

  -- What is found stays found where only others go.
  pub find_if-keep :
      (q : A → Bool) (xs : List A) {x : A}
      → find_if p xs ≡ some x
      → q x ≡ true
      → find_if p (keep q xs) ≡ some x
  find_if-keep q [] {x} h k = cc
  find_if-keep q (y ∷ xs) {x} h k = elim (Bool-cases (p y)) [
    | inl e ↦
        let h' : some y ≡ some x = simp e at h in
        let same : y ≡ x = cc in let k' : q y ≡ true = rw same k in simp (k', e) h'
    | inr e ↦
        let h' : find_if p xs ≡ some x = simp e at h in
        elim (Bool-cases (q y)) [
          | inl k' ↦ simp (k', e) (find_if-keep q xs h' k)
          | inr k' ↦ simp k' (find_if-keep q xs h' k)
        ]
  ]

  pub find_if_holds : (xs : List A) {x : A} → find_if p xs ≡ some x → p x ≡ true
  find_if_holds [] {x} h = cc
  find_if_holds (y ∷ xs) {x} h = elim (Bool-cases (p y)) [
    | inl e ↦ let h' : some y ≡ some x = simp e at h in let same : x ≡ y = cc in rw same e
    | inr e ↦ find_if_holds xs (simp e at h)
  ]

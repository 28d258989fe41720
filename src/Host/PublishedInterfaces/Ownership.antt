-- ===== src/Host/PublishedInterfaces/Ownership.antt =====
-- What a plugin has published, whatever the others do.
use voltmod.Host.PublishedInterfaces.{implementation_of}
use voltmod.Host.PublishedInterfaces.{
  Service, is_empty, service_of, refresh, publish_at, publish, erase, unpublish_at, unpublish, find,
  remove_all,
}
use voltmod.Common.{
  ℕ, ◌≡◌, refl, sym, ap, ◌∙◌, ◌≢◌, inl, inr, true, not, ◌||◌, Option, none, some, List, [], ◌∷◌,
  ◌++◌, arith, ◌==◌, find_if-append_some, find_if-keep, Bool-cases, Bytes, text_eq,
}

-- A call of an owner other than `o`.
pub data Step (o : ℕ) : List Service → List Service → Type 0 where
  published :
      (s : List Service) (owner : ℕ) (name : Bytes) (implementation : ℕ)
      → owner ≢ o
      → Step o s (publish s owner name implementation)
  unpublished :
      (s : List Service) (owner : ℕ) (name : Bytes) → owner ≢ o → Step o s (unpublish s owner name)
  removed : (s : List Service) (owner : ℕ) → owner ≢ o → Step o s (remove_all s owner).0

pub data Reach (o : ℕ) (s : List Service) : List Service → Type 0 where
  here : Reach o s s
  next : {t u : List Service} → Reach o s t → Step o t u → Reach o s u

refresh-service_of :
    (name : Bytes) (implementation : ℕ) (s : List Service) (n : Bytes) {e h : Service}
    → service_of s n ≡ some e
    → service_of s name ≡ some h
    → e.owner ≢ h.owner
    → service_of (refresh name implementation s) n ≡ some e
unfolding refresh service_of
refresh-service_of name implementation [] n {e} {h} p q ne = cc
refresh-service_of name implementation (x ∷ s) n {e} {h} p q ne =
    elim (Bool-cases (text_eq x.name name)) [
      | inl t ↦
          let q' : some x ≡ some h = simp t at q in
          elim (Bool-cases (text_eq x.name n)) [
            | inl u ↦
                let p' : some x ≡ some e = simp u at p in
                let same : e ≡ h = cc in absurd (ne (ap (λ z. z.owner) same))
            | inr u ↦ simp (t, u) (simp u at p)
          ]
      | inr t ↦ elim (Bool-cases (text_eq x.name n)) [
        | inl u ↦ simp (t, u) (simp u at p)
        | inr u ↦
            simp (t, u) (refresh-service_of name implementation s n (simp u at p) (simp t at q) ne)
      ]
    ]

erase-service_of :
    (name : Bytes) (s : List Service) (n : Bytes) {e h : Service}
    → service_of s n ≡ some e
    → service_of s name ≡ some h
    → e.owner ≢ h.owner
    → service_of (erase name s) n ≡ some e
unfolding erase service_of
erase-service_of name [] n {e} {h} p q ne = cc
erase-service_of name (x ∷ s) n {e} {h} p q ne = elim (Bool-cases (text_eq x.name name)) [
  | inl t ↦
      let q' : some x ≡ some h = simp t at q in
      elim (Bool-cases (text_eq x.name n)) [
        | inl u ↦
            let p' : some x ≡ some e = simp u at p in
            let same : e ≡ h = cc in absurd (ne (ap (λ z. z.owner) same))
        | inr u ↦ simp t (simp u at p)
      ]
  | inr t ↦ elim (Bool-cases (text_eq x.name n)) [
    | inl u ↦ simp (t, u) (simp u at p)
    | inr u ↦ simp (t, u) (erase-service_of name s n (simp u at p) (simp t at q) ne)
  ]
]

append-service_of :
    (s rest : List Service) (n : Bytes) {e : Service}
    → service_of s n ≡ some e
    → service_of (s ++ rest) n ≡ some e
unfolding service_of
append-service_of s rest n h = find_if-append_some (λ x. text_eq x.name n) s rest h

publish_at-service_of :
    (s : List Service) (owner : ℕ) (name : Bytes) (implementation : ℕ) (o : Option Service)
    (n : Bytes) {e : Service}
    → service_of s name ≡ o
    → e.owner ≢ owner
    → service_of s n ≡ some e
    → service_of (publish_at s owner name implementation o) n ≡ some e
unfolding publish_at
publish_at-service_of s owner name implementation none n q ne h = append-service_of s _ n h
publish_at-service_of s owner name implementation (some held) n {e} q ne h =
    elim (Bool-cases (held.owner == owner)) [
      | inl t ↦
          let same : held.owner ≡ owner = ground arith in
          simp t (refresh-service_of name implementation s n h q (λ f. ne (f ∙ same)))
      | inr t ↦ simp t h
    ]

publish-service_of :
    (s : List Service) (owner : ℕ) (name : Bytes) (implementation : ℕ) (n : Bytes) {e : Service}
    → e.owner ≢ owner
    → service_of s n ≡ some e
    → service_of (publish s owner name implementation) n ≡ some e
unfolding publish
publish-service_of s owner name implementation n ne h =
    elim (Bool-cases (is_empty name || (implementation == 0))) [
      | inl t ↦ rw t h
      | inr t ↦
          rw t (publish_at-service_of s owner name implementation (service_of s name) n refl ne h)
    ]

unpublish_at-service_of :
    (s : List Service) (owner : ℕ) (name : Bytes) (o : Option Service) (n : Bytes) {e : Service}
    → service_of s name ≡ o
    → e.owner ≢ owner
    → service_of s n ≡ some e
    → service_of (unpublish_at s owner name o) n ≡ some e
unfolding unpublish_at
unpublish_at-service_of s owner name none n q ne h = h
unpublish_at-service_of s owner name (some held) n {e} q ne h =
    elim (Bool-cases (held.owner == owner)) [
      | inl t ↦
          let same : held.owner ≡ owner = ground arith in
          simp t (erase-service_of name s n h q (λ f. ne (f ∙ same)))
      | inr t ↦ simp t h
    ]

other : (a b : ℕ) → a ≢ b → not (a == b) ≡ true
other a b h = ground arith

Step-service_of :
    {o : ℕ} {s t : List Service} (n : Bytes) {e : Service}
    → Step o s t
    → e.owner ≡ o
    → service_of s n ≡ some e
    → service_of t n ≡ some e
unfolding service_of remove_all unpublish
Step-service_of {o} n {e} (published s owner name implementation ne) q h =
    publish-service_of s owner name implementation n (λ f. ne (sym f ∙ q)) h
Step-service_of {o} n {e} (unpublished s owner name ne) q h =
    unpublish_at-service_of s owner name (service_of s name) n refl (λ f. ne (sym f ∙ q)) h
Step-service_of {o} n {e} (removed s owner ne) q h =
    find_if-keep (λ x. text_eq x.name n) (λ x. not (x.owner == owner)) s h
      (other e.owner owner (λ f. ne (sym f ∙ q)))

find_service :
    (s : List Service) (n : Bytes) (e : Service)
    → service_of s n ≡ some e
    → find s n ≡ e.implementation
unfolding find
find_service s n e h = ap implementation_of h

-- What a plugin has published under a name stays found there, the same implementation, whatever other plugins publish,
-- withdraw or leave behind under any name.
pub Reach-service_of :
    {o : ℕ} {s t : List Service} (n : Bytes) (e : Service)
    → Reach o s t
    → e.owner ≡ o
    → service_of s n ≡ some e
    → (service_of t n ≡ some e) × (find t n ≡ e.implementation)
Reach-service_of {s = s} n e here q h = (h, find_service s n e h)
Reach-service_of {t = t} n e (next r st) q h =
    let h' : service_of t n ≡ some e = Step-service_of n st q (Reach-service_of n e r q h).0 in
    (h', find_service t n e h')

-- ===== src/Host/CommandNames/Ownership.antt =====
-- Who owns a command name, whatever the plugins and the host do.
use voltmod.Host.CommandNames.{
  Entry, is_empty, entry_of, register, register_free, reserve, reserve_free, remove_all,
}
use voltmod.Common.{
  ℕ, ◌≡◌, refl, ◌∙◌, ◌≢◌, inl, inr, Bool, true, false, not, Option, none, some, List, [], ◌∷◌, ◌++◌,
  arith, ◌==◌, find_if-append_some, find_if-append_none, find_if-keep, Bool-cases, find_if, Bytes,
  text_eq, text_eq_refl,
}

-- What the host does on behalf of plugins, but for the removal of the owner `o`.
pub data Step (o : ℕ) : List Entry → List Entry → Type 0 where
  registered :
      (s : List Entry) (owner : ℕ) (owner_name name : Bytes)
      → Step o s (register s owner owner_name name).0
  reserved : (s : List Entry) (name : Bytes) → Step o s (reserve s name)
  removed : (s : List Entry) (owner : ℕ) → owner ≢ o → Step o s (remove_all s owner)

pub data Reach (o : ℕ) (s : List Entry) : List Entry → Type 0 where
  here : Reach o s s
  next : {t u : List Entry} → Reach o s t → Step o t u → Reach o s u

register_free-entry_of :
    (s : List Entry) (owner : ℕ) (owner_name name n : Bytes) (o : Option Entry) {e : Entry}
    → entry_of s n ≡ some e
    → entry_of (register_free s owner owner_name name o).0 n ≡ some e
unfolding register_free entry_of
register_free-entry_of s owner owner_name name n none h =
    find_if-append_some (λ x. text_eq x.name n) s _ h
register_free-entry_of s owner owner_name name n (some x) h = h

register-entry_of :
    (s : List Entry) (owner : ℕ) (owner_name name n : Bytes) {e : Entry}
    → entry_of s n ≡ some e
    → entry_of (register s owner owner_name name).0 n ≡ some e
unfolding register
register-entry_of s owner owner_name name n h = elim (Bool-cases (is_empty name)) [
  | inl q ↦ simp q h
  | inr q ↦ simp q (register_free-entry_of s owner owner_name name n (entry_of s name) h)
]

reserve_free-entry_of :
    (s : List Entry) (name n : Bytes) (o : Option Entry) {e : Entry}
    → entry_of s n ≡ some e
    → entry_of (reserve_free s name o) n ≡ some e
unfolding reserve_free entry_of
reserve_free-entry_of s name n none h = find_if-append_some (λ x. text_eq x.name n) s _ h
reserve_free-entry_of s name n (some x) h = h

reserve-entry_of :
    (s : List Entry) (name n : Bytes) {e : Entry}
    → entry_of s n ≡ some e
    → entry_of (reserve s name) n ≡ some e
unfolding reserve
reserve-entry_of s name n h = elim (Bool-cases (is_empty name)) [
  | inl q ↦ simp q h
  | inr q ↦ simp q (reserve_free-entry_of s name n (entry_of s name) h)
]

other : (o owner : ℕ) → owner ≢ o → not (o == owner) ≡ true
other o owner h = ground arith

Step-entry_of :
    {o : ℕ} {s t : List Entry} (n : Bytes) {e : Entry}
    → Step o s t
    → e.owner ≡ o
    → entry_of s n ≡ some e
    → entry_of t n ≡ some e
unfolding entry_of remove_all
Step-entry_of n (registered s owner owner_name name) q h =
    register-entry_of s owner owner_name name n h
Step-entry_of n (reserved s name) q h = reserve-entry_of s name n h
Step-entry_of {o} n {e} (removed s owner ne) q h =
    find_if-keep (λ x. text_eq x.name n) (λ x. not (x.owner == owner)) s h (rw q (other o owner ne))

-- A name that an owner has stays with that owner, by its own entry, until the host removes all of that owner's names:
-- whatever other names are registered, by whomever, or reserved, and whichever other owners are removed.
pub Reach-entry_of :
    {o : ℕ} {s t : List Entry} (n : Bytes) (e : Entry)
    → Reach o s t
    → e.owner ≡ o
    → entry_of s n ≡ some e
    → entry_of t n ≡ some e
Reach-entry_of n e here q h = h
Reach-entry_of n e (next r st) q h = Step-entry_of n st q (Reach-entry_of n e r q h)

unfoldable pub IsOwner : List Entry → ℕ → Bytes → Type 0
IsOwner s owner name = (e : Entry) × (entry_of s name ≡ some e) × (e.owner ≡ owner)

-- An answer of `register` from the state `s`: by true the name is the caller's, and by false nothing has changed.
Answered : List Entry → ℕ → Bytes → List Entry × Bool → Type 0
Answered s owner name r = (r.1 ≡ true → IsOwner r.0 owner name) × (r.1 ≡ false → r.0 ≡ s)

register_free-Answered :
    (s : List Entry) (owner : ℕ) (owner_name name : Bytes) (o : Option Entry)
    → entry_of s name ≡ o
    → Answered s owner name (register_free s owner owner_name name o)
unfolding register_free entry_of Answered IsOwner
register_free-Answered s owner owner_name name none h =
    let new : Entry = record { name = name; owner = owner; owner_name = owner_name } in
    let there : find_if (λ x. text_eq x.name name) (s ++ new ∷ []) ≡ some new =
      find_if-append_none (λ x. text_eq x.name name) s (new ∷ []) h ∙ rw (text_eq_refl name) in
    ((λ q. (new, there, refl)), (λ q. absurd (ground arith)))
register_free-Answered s owner owner_name name (some e) h =
    ((λ q. (e, h, ground arith)), (λ q. refl))

-- `Register` answers true only for a name that then is its caller's; when it answers false it has changed nothing.
pub register-Answered :
    (s : List Entry) (owner : ℕ) (owner_name name : Bytes)
    → ((register s owner owner_name name).1 ≡ true
        → IsOwner (register s owner owner_name name).0 owner name)
      × ((register s owner owner_name name).1 ≡ false → (register s owner owner_name name).0 ≡ s)
unfolding register Answered
register-Answered s owner owner_name name = elim (Bool-cases (is_empty name)) [
  | inl q ↦ simp q ((λ f. absurd (ground arith)), (λ f. refl))
  | inr q ↦ simp q (register_free-Answered s owner owner_name name (entry_of s name) refl)
]

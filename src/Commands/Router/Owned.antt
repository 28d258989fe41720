-- ===== src/Commands/Router/Owned.antt =====
-- The names of src/Commands/CommandRouter.cpp in the host's, which src/Host/Plugins/CommandNames.cpp holds.
use voltmod.Strings.Chars.{to_lower, is_empty}
use voltmod.Host.CommandNames.{Entry, register}
use voltmod.Host.CommandNames.Ownership.{
  IsOwner, here, next, registered, Reach-entry_of, register-Answered,
}
use voltmod.Commands.Router.{
  CommandDefinition, Attached, CommandRouter, command_of, alias_of, register_name, is_some,
  put_alias, add_alias, add_aliases, put_command, add_registered, add,
}
use mathlib.Core.Path.{subst}
use voltmod.Common.{
  ◌≡◌, refl, sym, ap, ◌∙◌, ◌⊎◌, inl, inr, Bool, true, false, ◌||◌, Option, none, some, List, [],
  ◌∷◌, Bool-cases, Bytes, text_eq, bytes_discrete, find_key_put,
}

-- Every name and alias of the router is the plugin's in the host's names.
abbrev pub Owns : Attached → CommandRouter → List Entry → Type 0
Owns h r names =
    (k : Bytes)
    → (is_some (command_of r k) ≡ true) ⊎ (is_some (alias_of r k) ≡ true)
    → IsOwner names h.owner k

-- The names that the plugin owns stay its own.
Stays : Attached → List Entry → List Entry → Type 0
Stays h names after = (k : Bytes) → IsOwner names h.owner k → IsOwner after h.owner k

register-IsOwner :
    (h : Attached) (name : Bytes) (names : List Entry)
    → Stays h names (register names h.owner h.owner_name name).0
unfolding IsOwner Stays
register-IsOwner h name names k (e, at, owner) =
    (e, Reach-entry_of k e (next here (registered names h.owner h.owner_name name)) owner at, owner)

register_name-attached :
    (h : Attached) (host : Option Attached) (name : Bytes) (names : List Entry)
    → host ≡ some h
    → register names h.owner h.owner_name name ≡ register_name host name names
unfolding register_name
register_name-attached h none name names e = cc
register_name-attached h (some g) name names e =
    let same : g ≡ h = cc in ap (λ x. register names x.owner x.owner_name name) (sym same)

-- What a turn of the loop over the aliases leaves.
Turned : Attached → List Entry → CommandRouter × List Entry → Type 0
Turned h names after = Owns h after.0 after.1 × Stays h names after.1 × (after.0.host ≡ some h)

unchanged :
    (h : Attached) (r : CommandRouter) (names : List Entry)
    → r.host ≡ some h
    → Owns h r names
    → Turned h names (r, names)
unfolding Turned Stays
unchanged h r names e o = (o, λ k i. i, e)

put_alias-Turned :
    (h : Attached) (r : CommandRouter) (name key : Bytes) (names after : List Entry) (ok : Bool)
    → r.host ≡ some h
    → Owns h r names
    → Stays h names after
    → (ok ≡ true → IsOwner after h.owner key)
    → Turned h names (put_alias r name key (after, ok))
unfolding put_alias Turned Stays command_of alias_of
put_alias-Turned h r name key names after false e o s q = (λ k i. s k (o k i), s, e)
put_alias-Turned h r name key names after true e o s q = (
  λ k i. elim i [
    | inl command ↦ s k (o k (inl command))
    | inr alias ↦ elim (find_key_put bytes_discrete key k name r.aliases) [
      | inl same ↦ subst (IsOwner after h.owner) same.0 (q refl)
      | inr other ↦ s k (o k (inr (ap is_some (sym other.1) ∙ alias)))
    ]
  ],
  s,
  e,
)

add_alias-Turned :
    (h : Attached) (r : CommandRouter) (name alias : Bytes) (names : List Entry)
    → r.host ≡ some h
    → Owns h r names
    → Turned h names (add_alias r name alias names)
unfolding add_alias
add_alias-Turned h r name alias names e o =
    let key = to_lower alias in
    elim (Bool-cases (is_empty key || text_eq key name)) [
      | inl t ↦ simp t (unchanged h r names e o)
      | inr t ↦ elim (Bool-cases (is_some (command_of r key) || is_some (alias_of r key))) [
        | inl t' ↦ simp (t, t') (unchanged h r names e o)
        | inr t' ↦
            simp (t, t')
              (subst (λ a. Turned h names (put_alias r name key a))
                (register_name-attached h r.host key names e)
                (put_alias-Turned h r name key names (register names h.owner h.owner_name key).0
                  (register names h.owner h.owner_name key).1 e o (register-IsOwner h key names)
                  (register-Answered names h.owner h.owner_name key).0))
      ]
    ]

add_aliases-Turned :
    (h : Attached) (name : Bytes) (aliases : List Bytes) (r : CommandRouter) (names : List Entry)
    → r.host ≡ some h
    → Owns h r names
    → Turned h names (add_aliases name aliases (r, names))
unfolding add_aliases Turned Stays
add_aliases-Turned h name [] r names e o = (o, λ k i. i, e)
add_aliases-Turned h name (alias ∷ aliases) r names e o =
    let once = add_alias-Turned h r name alias names e o in
    let after = add_alias r name alias names in
    let others = add_aliases-Turned h name aliases after.0 after.1 once.2 once.0 in
    (others.0, λ k i. others.1 k (once.1 k i), others.2)

put_command-Owns :
    (h : Attached) (name : Bytes) (def : CommandDefinition) (r : CommandRouter) (names : List Entry)
    → Owns h r names
    → IsOwner names h.owner name
    → Owns h (put_command name def (r, names)).0 names
unfolding command_of alias_of
put_command-Owns h name def r names o q k i = elim i [
  | inl command ↦ elim (find_key_put bytes_discrete name k def r.commands) [
    | inl same ↦ subst (IsOwner names h.owner) same.0 q
    | inr other ↦ o k (inl (ap is_some (sym other.1) ∙ command))
  ]
  | inr alias ↦ o k (inr alias)
]

add_registered-Owns :
    (h : Attached) (r : CommandRouter) (name : Bytes) (def : CommandDefinition)
    (names after : List Entry) (ok : Bool)
    → r.host ≡ some h
    → Owns h r names
    → Stays h names after
    → (ok ≡ true → IsOwner after h.owner name)
    → Owns h (add_registered r name def (after, ok)).0.0 (add_registered r name def (after, ok)).0.1
unfolding add_registered Turned Stays
add_registered-Owns h r name def names after false e o s q = λ k i. s k (o k i)
add_registered-Owns h r name def names after true e o s q =
    let aliased = add_aliases name def.aliases (r, after) in
    let turned = add_aliases-Turned h name def.aliases r after e (λ k i. s k (o k i)) in
    put_command-Owns h name def aliased.0 aliased.1 turned.0 (turned.1 name (q refl))

-- With a host attached, every name and alias of the router is this plugin's in the host's names after `Add` if it was before,
-- whatever `Add` answers.
pub add-Owns :
    (h : Attached) (r : CommandRouter) (def : CommandDefinition) (names : List Entry)
    → r.host ≡ some h
    → Owns h r names
    → Owns h (add r def names).0.0 (add r def names).0.1
unfolding add
add-Owns h r def names e o =
    let name = to_lower def.name in
    elim (Bool-cases (is_empty name)) [
      | inl t ↦ simp t o
      | inr t ↦ elim (Bool-cases (is_some (command_of r name) || is_some (alias_of r name))) [
        | inl t' ↦ simp (t, t') o
        | inr t' ↦
            simp (t, t')
              (subst
                (λ a. Owns h (add_registered r name def a).0.0 (add_registered r name def a).0.1)
                (register_name-attached h r.host name names e)
                (add_registered-Owns h r name def names (register names h.owner h.owner_name name).0
                  (register names h.owner h.owner_name name).1 e o (register-IsOwner h name names)
                  (register-Answered names h.owner h.owner_name name).0))
      ]
    ]

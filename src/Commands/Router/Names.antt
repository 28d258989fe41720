-- ===== src/Commands/Router/Names.antt =====
-- Which command a name of src/Commands/CommandRouter.cpp runs, whatever is registered later.
use voltmod.Strings.Chars.{to_lower, is_empty}
use voltmod.Host.CommandNames.{Entry}
use voltmod.Commands.Router.{
  CommandDefinition, CommandRouter, command_of, alias_of, register_name, is_some, put_alias,
  add_alias, add_aliases, put_command, add_registered, add, find_alias, find_else, find,
}
use voltmod.Common.{
  ◌≡◌, refl, sym, ap, ◌∙◌, ◌⊎◌, inl, inr, Bool, true, false, ◌||◌, Option, none, some, List, [],
  ◌∷◌, arith, true_not-false, Bool-cases, Bytes, text_eq, bytes_discrete, text_eq_refl, find_key,
  find_key_put,
}

-- An alias is the name of no command, and stands for a command, or for one that is not there yet.
record Naming (name : Bytes) (r : CommandRouter) : Type 0 where
  free : command_of r name ≡ none
  unaliased : alias_of r name ≡ none
  apart : (k n : Bytes) → alias_of r k ≡ some n → command_of r k ≡ none
  stands : (k n : Bytes) → alias_of r k ≡ some n → (is_some (command_of r n) ≡ true) ⊎ (n ≡ name)

-- Every alias is the name of no command, and stands for a command.
pub record IsRouting (r : CommandRouter) : Type 0 where
  pub apart : (k n : Bytes) → alias_of r k ≡ some n → command_of r k ≡ none
  pub stands : (k n : Bytes) → alias_of r k ≡ some n → is_some (command_of r n) ≡ true

is_some-none : {A : Type 0} → (o : Option A) → is_some o ≡ false → o ≡ none
is_some-none none h = refl
is_some-none (some a) h = absurd (ground arith)

or_false_left : (a b : Bool) → (a || b) ≡ false → a ≡ false
or_false_left true b h = ground arith
or_false_left false b h = refl

or_false_right : (a b : Bool) → (a || b) ≡ false → b ≡ false
or_false_right true b h = ground arith
or_false_right false b h = h

put_alias-Naming :
    (name key : Bytes) (r : CommandRouter) (answer : List Entry × Bool)
    → text_eq key name ≡ false
    → command_of r key ≡ none
    → Naming name r
    → Naming name (put_alias r name key answer).0
unfolding put_alias command_of alias_of
put_alias-Naming name key r (names, false) e c h = h
put_alias-Naming name key r (names, true) e c h = record {
  free = h.free;
  unaliased = elim (find_key_put bytes_discrete key name name r.aliases) [
    | inl q ↦
        absurd
          (true_not-false (text_eq key name) (ap (λ k. text_eq k name) q.0 ∙ text_eq_refl name) e)
    | inr q ↦ q.1 ∙ h.unaliased
  ];
  apart = λ k n a. elim (find_key_put bytes_discrete key k name r.aliases) [
    | inl q ↦ ap (λ x. find_key bytes_discrete x r.commands) (sym q.0) ∙ c
    | inr q ↦ h.apart k n (sym q.1 ∙ a)
  ];
  stands = λ k n a. elim (find_key_put bytes_discrete key k name r.aliases) [
    | inl q ↦ let same : n ≡ name = cc in inr same
    | inr q ↦ h.stands k n (sym q.1 ∙ a)
  ];
}

-- What is registered stays.
pub record Kept (r after : CommandRouter) : Type 0 where
  pub commands :
      (k : Bytes) (d : CommandDefinition) → command_of r k ≡ some d → command_of after k ≡ some d
  pub aliases : (k n : Bytes) → alias_of r k ≡ some n → alias_of after k ≡ some n

Kept-all : (r : CommandRouter) → Kept r r
Kept-all r = record { commands = λ k d h. h; aliases = λ k n h. h }

Kept-twice : (r s t : CommandRouter) → Kept r s → Kept s t → Kept r t
Kept-twice r s t h h' = record {
  commands = λ k d e. h'.commands k d (h.commands k d e);
  aliases = λ k n e. h'.aliases k n (h.aliases k n e);
}

put_alias-Kept :
    (name key : Bytes) (r : CommandRouter) (answer : List Entry × Bool)
    → alias_of r key ≡ none
    → Kept r (put_alias r name key answer).0
unfolding put_alias command_of alias_of
put_alias-Kept name key r (names, false) a = Kept-all r
put_alias-Kept name key r (names, true) a = record {
  commands = λ k d h. h;
  aliases = λ k n h. elim (find_key_put bytes_discrete key k name r.aliases) [
    | inl q ↦
        let missing : find_key bytes_discrete k r.aliases ≡ none =
          ap (λ x. find_key bytes_discrete x r.aliases) (sym q.0) ∙ a in
        cc
    | inr q ↦ q.1 ∙ h
  ];
}

-- A turn of the loop leaves the names in order and keeps what is registered.
Turned : Bytes → CommandRouter → CommandRouter → Type 0
Turned name r after = Naming name after × Kept r after

add_alias-Turned :
    (name alias : Bytes) (r : CommandRouter) (names : List Entry)
    → Naming name r
    → Turned name r (add_alias r name alias names).0
unfolding add_alias Turned
add_alias-Turned name alias r names h =
    let key = to_lower alias in
    elim (Bool-cases (is_empty key || text_eq key name)) [
      | inl e ↦ simp e (h, Kept-all r)
      | inr e ↦ elim (Bool-cases (is_some (command_of r key) || is_some (alias_of r key))) [
        | inl e' ↦ simp (e, e') (h, Kept-all r)
        | inr e' ↦
            simp (e, e')
              (
                put_alias-Naming name key r (register_name r.host key names)
                    (or_false_right (is_empty key) (text_eq key name) e)
                    (is_some-none (command_of r key)
                      (or_false_left (is_some (command_of r key)) (is_some (alias_of r key)) e'))
                    h,
                put_alias-Kept name key r (register_name r.host key names) (
                    is_some-none (alias_of r key)
                      (or_false_right (is_some (command_of r key)) (is_some (alias_of r key)) e')),
              )
      ]
    ]

add_aliases-Turned :
    (name : Bytes) (aliases : List Bytes) (r : CommandRouter) (names : List Entry)
    → Naming name r
    → Turned name r (add_aliases name aliases (r, names)).0
unfolding add_aliases Turned
add_aliases-Turned name [] r names h = (h, Kept-all r)
add_aliases-Turned name (alias ∷ aliases) r names h =
    let once = add_alias-Turned name alias r names h in
    let after = add_alias r name alias names in
    let others = add_aliases-Turned name aliases after.0 after.1 once.0 in
    (others.0, Kept-twice r after.0 (add_aliases name aliases after).0 once.1 others.1)

put_command-IsRouting :
    (name : Bytes) (def : CommandDefinition) (r : CommandRouter) (names : List Entry)
    → Naming name r
    → IsRouting (put_command name def (r, names)).0
unfolding command_of alias_of
put_command-IsRouting name def r names h = record {
  apart = λ k n a. elim (find_key_put bytes_discrete name k def r.commands) [
    | inl q ↦
        let missing : find_key bytes_discrete k r.aliases ≡ none =
          ap (λ x. find_key bytes_discrete x r.aliases) (sym q.0) ∙ h.unaliased in
        cc
    | inr q ↦ q.1 ∙ h.apart k n a
  ];
  stands = λ k n a. elim (find_key_put bytes_discrete name n def r.commands) [
    | inl q ↦ ap is_some q.1
    | inr q ↦ elim (h.stands k n a) [ inl s ↦ ap is_some q.1 ∙ s | inr s ↦ absurd (q.0 (sym s)) ]
  ];
}

put_command-Kept :
    (name : Bytes) (def : CommandDefinition) (r : CommandRouter) (names : List Entry)
    → command_of r name ≡ none
    → Kept r (put_command name def (r, names)).0
unfolding command_of alias_of
put_command-Kept name def r names h = record {
  commands = λ k d e. elim (find_key_put bytes_discrete name k def r.commands) [
    | inl q ↦
        let missing : find_key bytes_discrete k r.commands ≡ none =
          ap (λ x. find_key bytes_discrete x r.commands) (sym q.0) ∙ h in
        cc
    | inr q ↦ q.1 ∙ e
  ];
  aliases = λ k n e. e;
}

add_registered-IsRouting :
    (r : CommandRouter) (name : Bytes) (def : CommandDefinition) (answer : List Entry × Bool)
    → Naming name r
    → IsRouting r
    → IsRouting (add_registered r name def answer).0.0
      × Kept r (add_registered r name def answer).0.0
unfolding add_registered Turned
add_registered-IsRouting r name def (names, false) h i = (i, Kept-all r)
add_registered-IsRouting r name def (names, true) h i =
    let aliased = add_aliases name def.aliases (r, names) in
    let turned = add_aliases-Turned name def.aliases r names h in
    (
      put_command-IsRouting name def aliased.0 aliased.1 turned.0,
      Kept-twice r aliased.0 (put_command name def aliased).0 turned.1
          (put_command-Kept name def aliased.0 aliased.1 turned.0.free),
    )

add-IsRouting-Kept :
    (r : CommandRouter) (def : CommandDefinition) (names : List Entry)
    → IsRouting r
    → IsRouting (add r def names).0.0 × Kept r (add r def names).0.0
unfolding add
add-IsRouting-Kept r def names i =
    let name = to_lower def.name in
    elim (Bool-cases (is_empty name)) [
      | inl e ↦ simp e (i, Kept-all r)
      | inr e ↦ elim (Bool-cases (is_some (command_of r name) || is_some (alias_of r name))) [
        | inl e' ↦ simp (e, e') (i, Kept-all r)
        | inr e' ↦
            simp (e, e')
              (add_registered-IsRouting r name def (register_name r.host name names)
                (record {
                  free =
                      is_some-none (command_of r name) (
                        or_false_left (is_some (command_of r name)) (is_some (alias_of r name)) e');
                  unaliased =
                      is_some-none (alias_of r name) (
                        or_false_right (is_some (command_of r name)) (is_some (alias_of r name))
                          e');
                  apart = i.apart;
                  stands = λ k n a. inl (i.stands k n a);
                })
                i)
      ]
    ]

-- `Add` keeps the names in order, whatever it answers: no alias is the name of a command, and each stands for a command.
pub add-IsRouting :
    (r : CommandRouter) (def : CommandDefinition) (names : List Entry)
    → IsRouting r
    → IsRouting (add r def names).0.0
add-IsRouting r def names i = (add-IsRouting-Kept r def names i).0

find_alias-Kept :
    (r after : CommandRouter) (o : Option Bytes) (d : CommandDefinition)
    → Kept r after
    → find_alias r o ≡ some d
    → find_alias after o ≡ some d
unfolding find_alias
find_alias-Kept r after none d k h = cc
find_alias-Kept r after (some n) d k h = k.commands n d h

find_else-Kept :
    (r after : CommandRouter) (key : Bytes) (d : CommandDefinition)
    (command : Option CommandDefinition) (alias : Option Bytes)
    → IsRouting after
    → Kept r after
    → command_of r key ≡ command
    → alias_of r key ≡ alias
    → find_else command (find_alias r alias) ≡ some d
    → find_else (command_of after key) (find_alias after (alias_of after key)) ≡ some d
unfolding find_else find_alias
find_else-Kept r after key d (some c) alias i k h a e = rw (k.commands key c h) e
find_else-Kept r after key d none none i k h a e = cc
find_else-Kept r after key d none (some n) i k h a e =
    let kept = k.aliases key n a in rw (i.apart key n kept, kept) (k.commands n d e)

-- A name that runs a command runs the same one after any `Add`, answered or refused.
pub find-add :
    (r : CommandRouter) (def : CommandDefinition) (names : List Entry) (name : Bytes)
    (d : CommandDefinition)
    → IsRouting r
    → find r name ≡ some d
    → find (add r def names).0.0 name ≡ some d
unfolding find
find-add r def names name d i h =
    let key = to_lower name in
    let (routing, kept) = add-IsRouting-Kept r def names i in
    find_else-Kept r (add r def names).0.0 key d (command_of r key) (alias_of r key) routing kept
      refl refl h

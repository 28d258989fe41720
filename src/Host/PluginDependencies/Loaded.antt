-- ===== src/Host/PluginDependencies/Loaded.antt =====
-- The plugins that `Resolve` of src/Host/Plugins/PluginDependencies.cpp loads.
use voltmod.Host.PluginDependencies.{text_less}
use voltmod.Host.PluginDependencies.{
  PluginManifest, Refusal, Spread, installed_twice, has_name, has_key, insert_sorted, emplace,
  by_name, refuse_unsatisfied, resolve,
}
use voltmod.Host.PluginDependencies.Grows.{has_key-insert_sorted}
use voltmod.Host.PluginDependencies.Closed.{
  Sound, refuse_unsatisfied-Sound, refuse_unsatisfied_stay,
}
use mathlib.Core.Path.{subst}
use voltmod.Common.{
  ◌≡◌, refl, sym, ap, ◌∙◌, inl, inr, Bool, true, false, not, ◌&&◌, List, [], ◌∷◌, map, arith,
  if◌then◌else◌, or_right_true, and_both, true_not-false, Bool-cases, keep, All, All-map, Bytes,
  text_eq, text_eq_to, text_eq_refl,
}

-- The plugins by name and the refusals, as `by_name` builds them.
abbrev Maps : Type 0
Maps = List (Bytes × List Bytes) × List (Bytes × Refusal)

-- An entry of a map: whatever holds of all entries holds of it.
Held : Bytes × List Bytes → List (Bytes × List Bytes) → Type 1
Held e plugins = (P : Bytes × List Bytes → Type 0) → All P plugins → P e

All-insert_sorted :
    {V : Type 0} (P : Bytes × V → Type 0) (n : Bytes) (v : V) (m : List (Bytes × V))
    → All P (insert_sorted n v m)
    → P (n, v) × All P m
unfolding insert_sorted
All-insert_sorted P n v [] h = h
All-insert_sorted P n v (e ∷ m) h = elim (Bool-cases (text_less n e.0)) [
  | inl q ↦ simp q at h
  | inr q ↦
      let h' : P e × All P (insert_sorted n v m) = simp q at h in
      let rest = All-insert_sorted P n v m h'.1 in (rest.0, (h'.0, rest.1))
]

emplace_new :
    {V : Type 0} (n : Bytes) (v : V) (m : List (Bytes × V))
    → has_key m n ≡ false
    → emplace n v m ≡ insert_sorted n v m
unfolding emplace
emplace_new n v m h = simp h

has_key-emplace_old :
    {V : Type 0} (n : Bytes) (v : V) (m : List (Bytes × V)) (k : Bytes)
    → has_key m k ≡ true
    → has_key (emplace n v m) k ≡ true
unfolding emplace
has_key-emplace_old n v m k h = elim (Bool-cases (has_key m n)) [
  | inl q ↦ rw q h
  | inr q ↦ rw (q, has_key-insert_sorted n v m k) (or_right_true (text_eq n k) (has_key m k) h)
]

has_key-emplace_self :
    {V : Type 0} (n : Bytes) (v : V) (m : List (Bytes × V)) → has_key (emplace n v m) n ≡ true
unfolding emplace
has_key-emplace_self n v m = elim (Bool-cases (has_key m n)) [
  | inl q ↦ rw (q, q)
  | inr q ↦ rw (q, has_key-insert_sorted n v m n, text_eq_refl n)
]

-- What a step of `by_name` keeps.
record Keeps (maps after : Maps) : Type 1 where
  held : (e : Bytes × List Bytes) → Held e maps.0 → Held e after.0
  refused : (k : Bytes) → has_key maps.1 k ≡ true → has_key after.1 k ≡ true

after_manifest : PluginManifest → Maps → Maps
after_manifest manifest (plugins, refused) =
    if has_key plugins manifest.name
    then (plugins, emplace manifest.name installed_twice refused)
    else (emplace manifest.name manifest.dependencies plugins, refused)

after_manifest-Keeps :
    (manifest : PluginManifest) (maps : Maps) → Keeps maps (after_manifest manifest maps)
unfolding after_manifest Held
after_manifest-Keeps manifest (plugins, refused) =
    elim (Bool-cases (has_key plugins manifest.name)) [
      | inl q ↦ simp q (record {
        held = λ e h. h;
        refused = has_key-emplace_old manifest.name installed_twice refused;
      })
      | inr q ↦ simp q (record {
        held = λ e h P a.
            h P
              (All-insert_sorted P manifest.name manifest.dependencies plugins
                (subst (All P) (emplace_new manifest.name manifest.dependencies plugins q) a)).1;
        refused = λ k h. h;
      })
    ]

by_name-Keeps :
    (installed : List PluginManifest) (maps : Maps) → Keeps maps (by_name installed maps)
unfolding by_name after_manifest
by_name-Keeps [] maps = record { held = λ e h. h; refused = λ k h. h }
by_name-Keeps (manifest ∷ installed) (plugins, refused) =
    let first = after_manifest-Keeps manifest (plugins, refused) in
    let rest = by_name-Keeps installed (after_manifest manifest (plugins, refused)) in
    record {
      held = λ e h. rest.held e (first.held e h);
      refused = λ k h. rest.refused k (first.refused k h);
    }

-- The manifest is kept, or its name is refused.
after_manifest_kept :
    (manifest : PluginManifest) (maps after : Maps)
    → Keeps (after_manifest manifest maps) after
    → has_key after.1 manifest.name ≡ false
    → Held (manifest.name, manifest.dependencies) after.0
unfolding after_manifest Held
after_manifest_kept manifest (plugins, refused) after keeps h =
    elim (Bool-cases (has_key plugins manifest.name)) [
      | inl q ↦
          let k : Keeps (plugins, emplace manifest.name installed_twice refused) after =
            simp q at keeps in
          absurd (
            true_not-false (has_key after.1 manifest.name)
              (k.refused manifest.name (has_key-emplace_self manifest.name installed_twice refused))
              h)
      | inr q ↦
          let k : Keeps (emplace manifest.name manifest.dependencies plugins, refused) after =
            simp q at keeps in
          k.held (manifest.name, manifest.dependencies)
            (λ P a.
              (All-insert_sorted P manifest.name manifest.dependencies plugins
                (subst (All P) (emplace_new manifest.name manifest.dependencies plugins q) a)).0)
    ]

by_name_kept :
    (installed : List PluginManifest) (maps : Maps)
    → All
        (λ m.
          has_key (by_name installed maps).1 m.name ≡ false
          → Held (m.name, m.dependencies) (by_name installed maps).0)
        installed
unfolding by_name after_manifest
by_name_kept [] maps = tt
by_name_kept (manifest ∷ installed) (plugins, refused) =
    let maps = after_manifest manifest (plugins, refused) in
    (
      after_manifest_kept manifest (plugins, refused) (by_name installed maps)
          (by_name-Keeps installed maps),
      by_name_kept installed maps,
    )

and_false : (b : Bool) → (b && false) ≡ false
and_false b = ground arith

abbrev loaded_of : List (Bytes × List Bytes) → List (Bytes × Refusal) → List Bytes
loaded_of plugins refused = map (λ e. e.0) (keep (λ e. not (has_key refused e.0)) plugins)

loaded-has_name :
    (plugins : List (Bytes × List Bytes)) (refused : List (Bytes × Refusal)) (k : Bytes)
    → has_name (map (λ e. e.0) (keep (λ e. not (has_key refused e.0)) plugins)) k
      ≡ (has_key plugins k && not (has_key refused k))
unfolding has_name has_key
loaded-has_name [] refused k = refl
loaded-has_name (e ∷ plugins) refused k =
    let ih = loaded-has_name plugins refused k in
    elim (Bool-cases (text_eq e.0 k)) [
      | inl t ↦
          let same : k ≡ e.0 = sym (text_eq_to e.0 k t) in
          elim (Bool-cases (has_key refused e.0)) [
            | inl r ↦
                let rk : has_key refused k ≡ true = ap (has_key refused) same ∙ r in
                simp (r, t, rk) (ih ∙ rw rk (and_false (has_key plugins k)))
            | inr r ↦
                let rk : has_key refused k ≡ false = ap (has_key refused) same ∙ r in
                simp (r, t, rk)
          ]
      | inr t ↦ elim (Bool-cases (has_key refused e.0)) [
        | inl r ↦ simp (r, t) ih
        | inr r ↦ simp (r, t) ih
      ]
    ]

has_name_nil : (d : Bytes) → has_name [] d ≡ false
unfolding has_name
has_name_nil d = refl

-- One plugin that is loaded, by what the refusals leave.
loaded_requires :
    (plugins : List (Bytes × List Bytes)) (spread : Spread) (e : Bytes × List Bytes)
    → spread.1 ≡ []
    → Sound plugins spread e
    → has_key spread.0 e.0 ≡ false
    → (d : Bytes) → has_name e.1 d ≡ true
    → has_name (loaded_of plugins spread.0) d ≡ true
unfolding Sound
loaded_requires plugins spread e done sound kept d m =
    let (there, or_waits) = sound kept d m in
    elim or_waits [
      | inl q ↦ rw (loaded-has_name plugins spread.0 d, there, q)
      | inr w ↦
          true_not-false (has_name [] d) (ap (λ x. has_name x d) (sym done) ∙ w) (has_name_nil d)
    ]

not_before :
    (plugins : List (Bytes × List Bytes)) (refused : List (Bytes × Refusal)) (k : Bytes)
    → has_key (refuse_unsatisfied plugins refused).0 k ≡ false
    → has_key refused k ≡ false
not_before plugins refused k h = elim (Bool-cases (has_key refused k)) [
  | inl q ↦
      true_not-false (has_key (refuse_unsatisfied plugins refused).0 k)
        (refuse_unsatisfied_stay plugins refused k q) h
  | inr q ↦ q
]

loaded-unrefused :
    (plugins : List (Bytes × List Bytes)) (refused : List (Bytes × Refusal)) (k : Bytes)
    → has_name (loaded_of plugins refused) k ≡ true
    → has_key refused k ≡ false
loaded-unrefused plugins refused k h =
    let both =
      and_both (has_key plugins k) (not (has_key refused k))
        (sym (loaded-has_name plugins refused k) ∙ h) in
    elim (Bool-cases (has_key refused k)) [
      | inl q ↦ true_not-false (not (has_key refused k)) both.1 (rw q)
      | inr q ↦ q
    ]

-- `Resolve` loads a plugin only if it loads every plugin that it requires.
pub resolve-IsClosed :
    (installed : List PluginManifest)
    → All
        (λ m.
          has_name (resolve installed).to_load m.name ≡ true
          → (d : Bytes) → has_name m.dependencies d ≡ true
          → has_name (resolve installed).to_load d ≡ true)
        installed
unfolding resolve Held
resolve-IsClosed installed =
    let maps = by_name installed ([], []) in
    let spread = refuse_unsatisfied maps.0 maps.1 in
    let left = refuse_unsatisfied-Sound maps.0 maps.1 in
    All-map (λ m. has_key maps.1 m.name ≡ false → Held (m.name, m.dependencies) maps.0)
      (λ m.
        has_name (loaded_of maps.0 spread.0) m.name ≡ true
        → (d : Bytes) → has_name m.dependencies d ≡ true
        → has_name (loaded_of maps.0 spread.0) d ≡ true)
      installed
      (λ m held loaded.
        let kept = loaded-unrefused maps.0 spread.0 m.name loaded in
        loaded_requires maps.0 spread (m.name, m.dependencies) left.0
          (held (not_before maps.0 maps.1 m.name kept) (Sound maps.0 spread) left.1) kept)
      (by_name_kept installed ([], []))

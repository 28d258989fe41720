-- ===== src/Host/PluginDependencies.antt =====
-- src/Host/Plugins/PluginDependencies.cpp. A `std::map` is the list of its entries in the order of their
-- keys, a vector used as a stack has its back at the head.
pub mod Grows
pub mod Spreading
pub mod Closed
pub mod Loaded
use voltmod.Common.{
  ℕ, zero, suc, ◌+◌, Bool, true, false, not, ◌&&◌, ◌||◌, none, some, List, [], ◌∷◌, ◌++◌, map, ltb,
  ◌==◌, if◌then◌else◌, length, keep, any, find_if, Bytes, text_eq,
}

pub record PluginManifest : Type 0 where
  pub name : Bytes
  pub dependencies : List Bytes

-- The error of a refused plugin.
pub data Refusal : Type 0 where
  installed_twice : Refusal
  not_installed : Bytes → Refusal
  host_refused : Bytes → Refusal

pub record LoadList : Type 0 where
  pub to_load : List Bytes
  pub refused : List (Bytes × Refusal)

-- The order of `std::string`.
unfoldable pub text_less : Bytes → Bytes → Bool
text_less [] [] = false
text_less [] (y ∷ ys) = true
text_less (x ∷ xs) [] = false
text_less (x ∷ xs) (y ∷ ys) = ltb x y || (x == y) && text_less xs ys

-- `std::ranges::contains` on names.
unfoldable pub has_name : List Bytes → Bytes → Bool
has_name names name = any (λ n. text_eq n name) names

module _ {V : Type 0} where
  unfoldable pub has_key : List (Bytes × V) → Bytes → Bool
  has_key m name = any (λ entry. text_eq entry.0 name) m

  unfoldable pub insert_sorted : Bytes → V → List (Bytes × V) → List (Bytes × V)
  insert_sorted name v [] = (name, v) ∷ []
  insert_sorted name v (entry ∷ m) =
      if text_less name entry.0 then (name, v) ∷ entry ∷ m else entry ∷ insert_sorted name v m

  -- `emplace`, which leaves a key that is there alone.
  unfoldable pub emplace : Bytes → V → List (Bytes × V) → List (Bytes × V)
  emplace name v m = if has_key m name then m else insert_sorted name v m

-- The plugins by name and those refused.
unfoldable pub by_name :
    List PluginManifest
    → List (Bytes × List Bytes) × List (Bytes × Refusal)
    → List (Bytes × List Bytes) × List (Bytes × Refusal)
by_name [] maps = maps
by_name (manifest ∷ installed) (plugins, refused) = by_name installed (
    if has_key plugins manifest.name
    then (plugins, emplace manifest.name installed_twice refused)
    else (emplace manifest.name manifest.dependencies plugins, refused))

-- Those refused and the names whose dependents are still to be refused.
abbrev pub Spread : Type 0
Spread = List (Bytes × Refusal) × List Bytes

unfoldable pub refuse : Bytes → Refusal → Spread → Spread
refuse name reason (refused, spreading) =
    if has_key refused name
    then (refused, spreading)
    else (emplace name reason refused, name ∷ spreading)

-- The loop over plugins with a dependency that is not installed.
unfoldable pub refuse_missing :
    List (Bytes × List Bytes) → List (Bytes × List Bytes) → Spread → Spread
refuse_missing plugins [] spread = spread
refuse_missing plugins ((name, dependencies) ∷ rest) spread =
    refuse_missing plugins rest (elim (find_if (λ d. not (has_key plugins d)) dependencies) [
      | none ↦ spread
      | some dependency ↦ refuse name (not_installed dependency) spread
    ])

-- The loop over plugins that require a refused one.
unfoldable pub refuse_dependents : Bytes → List (Bytes × List Bytes) → Spread → Spread
refuse_dependents gone [] spread = spread
refuse_dependents gone ((name, dependencies) ∷ rest) spread = refuse_dependents gone rest (
    if not (has_key spread.0 name) && has_name dependencies gone
    then refuse name (host_refused gone) spread
    else spread)

-- The `while` loop on fuel.
unfoldable pub spread_refusals : ℕ → List (Bytes × List Bytes) → Spread → Spread
spread_refusals zero plugins spread = spread
spread_refusals (suc fuel) plugins (refused, []) = (refused, [])
spread_refusals (suc fuel) plugins (refused, gone ∷ spreading) =
    spread_refusals fuel plugins (refuse_dependents gone plugins (refused, spreading))

unfoldable pub names_of : List (Bytes × Refusal) → List Bytes
names_of [] = []
names_of (entry ∷ m) = names_of m ++ entry.0 ∷ []

unfoldable pub refuse_unsatisfied : List (Bytes × List Bytes) → List (Bytes × Refusal) → Spread
refuse_unsatisfied plugins refused =
    let spread = refuse_missing plugins plugins (refused, names_of refused) in
    spread_refusals (length spread.1 + length plugins) plugins spread

unfoldable pub resolve : List PluginManifest → LoadList
resolve installed =
    let maps = by_name installed ([], []) in
    let spread = refuse_unsatisfied maps.0 maps.1 in
    record {
      to_load = map (λ entry. entry.0) (keep (λ entry. not (has_key spread.0 entry.0)) maps.0);
      refused = spread.0;
    }

-- A name put into a `std::set`, which does not have it.
unfoldable pub insert_name : Bytes → List Bytes → List Bytes
insert_name name [] = name ∷ []
insert_name name (n ∷ names) =
    if text_less name n then name ∷ n ∷ names else n ∷ insert_name name names

-- One pass of `RequiredDependents` over the plugins loaded.
unfoldable pub add_dependents :
    Bytes → Bytes → List PluginManifest → List Bytes × List Bytes → List Bytes × List Bytes
add_dependents plugin needed [] found = found
add_dependents plugin needed (manifest ∷ loaded) (dependents, spreading) =
    add_dependents plugin needed loaded (
      if not (text_eq manifest.name plugin)
        && (not (has_name dependents manifest.name) && has_name manifest.dependencies needed)
      then (insert_name manifest.name dependents, manifest.name ∷ spreading)
      else (dependents, spreading))

-- The `while` loop on fuel.
unfoldable pub spread_dependents :
    ℕ → Bytes → List PluginManifest → List Bytes × List Bytes → List Bytes × List Bytes
spread_dependents zero plugin loaded found = found
spread_dependents (suc fuel) plugin loaded (dependents, []) = (dependents, [])
spread_dependents (suc fuel) plugin loaded (dependents, needed ∷ spreading) =
    spread_dependents fuel plugin loaded
      (add_dependents plugin needed loaded (dependents, spreading))

unfoldable pub required_dependents : Bytes → List PluginManifest → List Bytes
required_dependents plugin loaded =
    (spread_dependents (length loaded + 1) plugin loaded ([], plugin ∷ [])).0

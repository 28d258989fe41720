-- ===== src/Tests/Plugins.antt =====
-- Names, interfaces and dependencies of plugins.
use voltmod.Host.CommandNames.{Entry, entry_of, register, register_free, reserve}
use voltmod.Host.CommandNames.Ownership.{here, next, reserved, registered, Reach-entry_of}
use voltmod.Commands.Router.{
  Attached, CommandRouter, CommandDefinition, players, command_of, alias_of, add,
}
use voltmod.Commands.Router.Owned.{Owns, add-Owns}
use voltmod.Host.PublishedInterfaces.{Service, service_of, publish, find}
use voltmod.Host.PublishedInterfaces.Ownership as Services
use voltmod.Host.PublishedInterfaces.Ownership.{Reach-service_of}
use voltmod.Host.PluginDependencies.{PluginManifest, has_name, resolve}
use voltmod.Host.PluginDependencies.Loaded.{resolve-IsClosed}
use voltmod.Common.{
  ◌≡◌, refl, inl, inr, true, false, none, some, List, [], ◌∷◌, arith, All, Bytes, bytes, find_key,
}

abbrev ban : Entry
ban = record { name = bytes "ban"; owner = 7; owner_name = bytes "admin" }

-- Plugin 8 asks for the name of plugin 7 and does not get it.
asked_twice :
    register (register [] 7 (bytes "admin") (bytes "ban")).0 8 (bytes "fun") (bytes "ban")
    ≡ (ban ∷ [], false)
unfolding register register_free entry_of
asked_twice = refl

Reach-entry_of_example :
    entry_of
      (register (reserve (ban ∷ []) (bytes "meta")) 8 (bytes "fun") (bytes "ban")).0
      (bytes "ban")
    ≡ some ban
unfolding entry_of
Reach-entry_of_example =
    Reach-entry_of {o = 7} (bytes "ban") ban
      (next (next here (reserved (ban ∷ []) (bytes "meta")))
        (registered (reserve (ban ∷ []) (bytes "meta")) 8 (bytes "fun") (bytes "ban")))
      refl refl

abbrev ranks : Service
ranks = record { name = bytes "ranks"; implementation = 100; owner = 7 }

Reach-service_of_example :
    (service_of (publish (ranks ∷ []) 8 (bytes "ranks") 200) (bytes "ranks") ≡ some ranks)
    × (find (publish (ranks ∷ []) 8 (bytes "ranks") 200) (bytes "ranks") ≡ 100)
unfolding service_of
Reach-service_of_example =
    Reach-service_of {o = 7} (bytes "ranks") ranks
      (Services.next Services.here
        (Services.published (ranks ∷ []) 8 (bytes "ranks") 200 (λ e. absurd (omega (arith, e)))))
      refl refl

abbrev chain : List PluginManifest
chain =
    record { name = bytes "b"; dependencies = bytes "a" ∷ [] }
    ∷ record { name = bytes "a"; dependencies = [] }
    ∷ []

resolve-IsClosed_example :
    All
      (λ m.
        has_name (resolve chain).to_load m.name ≡ true
        → (d : Bytes) → has_name m.dependencies d ≡ true
        → has_name (resolve chain).to_load d ≡ true)
      chain
resolve-IsClosed_example = resolve-IsClosed chain

-- ---- a router's names in the host's
abbrev admin : Attached
admin = record { owner = 7; owner_name = bytes "admin" }

abbrev router : CommandRouter
router = record { host = some admin; commands = []; aliases = [] }

abbrev slay : CommandDefinition
slay = record {
  name = bytes "Slay";
  aliases = bytes "sl" ∷ bytes "ban" ∷ [];
  description = [];
  permission_name = [];
  usage_key = [];
  access = players;
  args = [];
  invoke = none;
}

router-Owns : Owns admin router (ban ∷ [])
unfolding command_of alias_of find_key
router-Owns k (inl h) = absurd (ground arith)
router-Owns k (inr h) = absurd (ground arith)

add-Owns_example : Owns admin (add router slay (ban ∷ [])).0.0 (add router slay (ban ∷ [])).0.1
add-Owns_example = add-Owns admin router slay (ban ∷ []) refl router-Owns

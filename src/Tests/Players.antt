-- ===== src/Tests/Players.antt =====
-- Players and the policy.
use voltmod.Players.Roster.{
  Player, Roster, Handlers, ref, nobody, get, index_by_steam_id, unindex_found, unindex_by_steam_id,
  insert_ordered, sort_ordered, reindex, drop_found, seat, drop_player, drop_slot, add, get_ref,
  same_player,
}
use voltmod.Players.Roster.Coherent.{Coherent}
use voltmod.Players.Roster.Operations.{Keeps, empty-Coherent, connect, run, run-Coherent}
use voltmod.Players.Policy.{
  Policy, immune, authorized, refused, ask_permission, check_permission, ask_target, check_immunity,
  decide_immune, decide_target, decide, find_target, authorize_target, authorize_caller, authorize,
  authorize_steam_id,
}
use voltmod.Players.Policy.Decisions.{
  Permitted, Targetable, authorize-Sound, error_of, authorize-authorize_steam_id,
}
use native.Mathlib.Decide.{ℕ_discrete}
use voltmod.Common.{
  ◌≡◌, refl, false, ◌&&◌, none, some, [], ◌∷◌, pos, eqb_ℤ, ℤ_discrete, bytes, text_eq, find_key,
  put_key, erase_key,
}

-- Handlers that do nothing.
abbrev pub quiet : Handlers
quiet = record {
  connected = λ p r. r;
  disconnected = λ p r. r;
  fully_connected = λ p r. r;
  settings_changed = λ p r. r;
  slot_changed = λ s r. r;
  slot_fully_connected = λ s r. r;
}

pub quiet-Keeps : Keeps quiet
quiet-Keeps = record {
  connected = λ p r c. c;
  disconnected = λ p r c. c;
  fully_connected = λ p r c. c;
  settings_changed = λ p r c. c;
  slot_changed = λ s r c. c;
  slot_fully_connected = λ s r c. c;
}

run-Coherent_example : Coherent (run quiet (connect (pos 3) (pos 77) (bytes "ann") []) nobody)
run-Coherent_example =
    run-Coherent quiet (connect (pos 3) (pos 77) (bytes "ann") []) nobody quiet-Keeps
      (empty-Coherent 0)

abbrev pub ann : Player
ann = record { id = 0; slot = pos 3; steam_id = pos 77; name = bytes "ann"; ip = [] }

abbrev pub bob : Player
bob = record { id = 1; slot = pos 1; steam_id = pos 78; name = bytes "bob"; ip = [] }

abbrev pub two : Roster
two = record {
  by_slot = (pos 3, ann) ∷ (pos 1, bob) ∷ [];
  by_steam_id = (pos 77, ann) ∷ (pos 78, bob) ∷ [];
  ordered = bob ∷ ann ∷ [];
  next_id = 2;
}

joined :
    (add quiet
      (add quiet nobody (pos 3) (pos 77) (bytes "ann") []).0
      (pos 1)
      (pos 78)
      (bytes "bob")
      []).0
    ≡ two
unfolding ℤ_discrete ℕ_discrete get index_by_steam_id unindex_found unindex_by_steam_id
    insert_ordered sort_ordered reindex drop_found seat drop_player drop_slot add find_key put_key
    erase_key
joined = refl

-- Ann may kick, and may act on nobody but herself.
abbrev pub policy : Policy
policy = record {
  has_permission = some (λ id permission. eqb_ℤ id (pos 77) && text_eq permission (bytes "kick"));
  can_target = some (λ a b. false);
  missing_permission_warned = false;
}

ann_kicks : (authorize policy two (ref ann) none (bytes "kick")).1 ≡ authorized ann none
unfolding ℤ_discrete ℕ_discrete find_key get get_ref same_player ask_permission check_permission
    ask_target check_immunity decide_immune decide_target decide find_target authorize_target
    authorize_caller authorize
ann_kicks = refl

ann_misses_bob : (authorize policy two (ref ann) (some (ref bob)) (bytes "kick")).1 ≡ refused immune
unfolding ℤ_discrete ℕ_discrete find_key get get_ref same_player ask_permission check_permission
    ask_target check_immunity decide_immune decide_target decide find_target authorize_target
    authorize_caller authorize
ann_misses_bob = refl

authorize-Sound_example :
    (get_ref two (ref ann) ≡ some ann)
    × (find_target two none ≡ some none)
    × Permitted policy ann (bytes "kick")
    × ((x : Player) → none ≡ some x → Targetable policy ann x.steam_id)
authorize-Sound_example =
    authorize-Sound policy two (ref ann) none (bytes "kick") ann none ann_kicks

bob_connected : get_ref two (ref bob) ≡ some bob
unfolding ℤ_discrete ℕ_discrete find_key get get_ref same_player
bob_connected = refl

authorize-authorize_steam_id_example :
    ((authorize policy two (ref ann) (some (ref bob)) (bytes "kick")).0
      ≡ (authorize_steam_id policy two (ref ann) (pos 78) (bytes "kick")).0)
    × (error_of (authorize policy two (ref ann) (some (ref bob)) (bytes "kick")).1
        ≡ (authorize_steam_id policy two (ref ann) (pos 78) (bytes "kick")).1)
authorize-authorize_steam_id_example =
    authorize-authorize_steam_id policy two (ref ann) (ref bob) bob (bytes "kick") bob_connected

-- ===== src/Players/Roster.antt =====
-- src/Players/PlayerManager.cpp. A player is a record with the number of its connection, by which two
-- `Player*` are compared: no two connections have the same. Handlers of the manager's events may use the
-- manager, so each is a function of it.
pub mod Coherent
pub mod Operations
use voltmod.Common.{
  ℕ, zero, suc, ◌+◌, ◌-◌, ◌*◌, ◌/◌, ◌%◌, ◌^◌, ◌≤◌, ◌<◌, ◌≡◌, refl, sym, ap, ◌∙◌, ◌≢◌, ◌↔◌, ◌⊎◌, inl,
  inr, Bool, true, false, not, ◌&&◌, ◌||◌, Option, none, some, List, [], ◌∷◌, ◌++◌, map, arith, ltb,
  leb, ◌==◌, if◌then◌else◌, ltb→lt, lt→ltb, leb→le, ==_iff, tests, or_left, or_right, or_true,
  or_right_true, and_both, true_not-false, find_if-append_some, find_if-append_none, find_if-keep,
  find_if_holds, Bool-cases, Option-cases, List-cases, drop_nil, length, get_elem?, set,
  length-append, length-set, length-replicate, get_or, take, drop, replicate, take-append-drop,
  length-take, length-drop, length-map, take_of_length-le, keep, any, all, find_if, All, All-append,
  All-keep, All-keep_self, All-map, all_mono, All-keep_both, All-Mem, All-zip, get_elem?_lt,
  All-get_elem?, contains, ℤ, pos, negsuc, pos_part, neg_part, sub_ℕ, ◌+ℤ◌, ◌-ℤ◌, ◌≤ℤ◌, ltb_ℤ,
  leb_ℤ, eqb_ℤ, eqb_ℤ_iff, ℤ_discrete, Bytes, bytes, text_eq, text_eq_to, bytes_discrete,
  text_eq_refl, starts_with, starts_with-append, find_key, put_key, erase_key, find_key-put_key,
  find_key-erase_key, put_key_twice, Distinct, put_key-Distinct, erase_key-Distinct, Distinct-All,
  All-put_key, All-erase_key, find_key_put, find_key_erased,
}

pub record PlayerRef : Type 0 where
  pub slot : ℤ
  pub steam_id : ℤ

-- The name is the one of the connect.
pub record Player : Type 0 where
  pub id : ℕ
  pub slot : ℤ
  pub steam_id : ℤ
  pub name : Bytes
  pub ip : Bytes

abbrev pub is_bot : Player → Bool
is_bot p = eqb_ℤ p.steam_id (pos 0)

abbrev pub ref : Player → PlayerRef
ref p = record { slot = p.slot; steam_id = p.steam_id }

pub record Roster : Type 0 where
  pub by_slot : List (ℤ × Player)
  pub by_steam_id : List (ℤ × Player)
  pub ordered : List Player
  pub next_id : ℕ

-- A manager as it is constructed.
abbrev pub nobody : Roster
nobody = record { by_slot = []; by_steam_id = []; ordered = []; next_id = 0 }

pub record Handlers : Type 0 where
  pub connected : Player → Roster → Roster
  pub disconnected : Player → Roster → Roster
  pub fully_connected : Player → Roster → Roster
  pub settings_changed : Player → Roster → Roster
  -- `SlotEvents`.
  pub slot_changed : ℤ → Roster → Roster
  pub slot_fully_connected : ℤ → Roster → Roster

unfoldable pub get : Roster → ℤ → Option Player
get r slot = find_key ℤ_discrete slot r.by_slot

unfoldable pub index_by_steam_id : Player → Roster → Roster
index_by_steam_id p r =
    if is_bot p then r else record r { by_steam_id = put_key ℤ_discrete p.steam_id p r.by_steam_id }

unfoldable pub unindex_found : Player → Roster → Option Player → Roster
unindex_found p r none = r
unindex_found p r (some q) =
    if q.id == p.id
    then record r { by_steam_id = erase_key ℤ_discrete p.steam_id r.by_steam_id }
    else r

unfoldable pub unindex_by_steam_id : Player → Roster → Roster
unindex_by_steam_id p r =
    if is_bot p then r else unindex_found p r (find_key ℤ_discrete p.steam_id r.by_steam_id)

-- `std::sort` by slot.
unfoldable pub insert_ordered : Player → List Player → List Player
insert_ordered p [] = p ∷ []
insert_ordered p (q ∷ ps) = if ltb_ℤ q.slot p.slot then q ∷ insert_ordered p ps else p ∷ q ∷ ps

unfoldable pub sort_ordered : List (ℤ × Player) → List Player
sort_ordered [] = []
sort_ordered (e ∷ es) = insert_ordered e.1 (sort_ordered es)

unfoldable pub reindex : Roster → Roster
reindex r = record r { ordered = sort_ordered r.by_slot }

-- `Drop` past the event, with the occupant found again.
unfoldable pub drop_found : ℤ → Roster → Option Player → Roster
drop_found slot r none = r
drop_found slot r (some p) =
    let unindexed = unindex_by_steam_id p r in
    reindex (record unindexed { by_slot = erase_key ℤ_discrete slot unindexed.by_slot })

-- The new player put in, before any event.
unfoldable pub seat : Player → Roster → Roster
seat p r = reindex (
    index_by_steam_id p
      (record r { by_slot = put_key ℤ_discrete p.slot p r.by_slot; next_id = r.next_id + 1 }))

unfoldable pub insert_slot : ℤ → List ℤ → List ℤ
insert_slot s [] = s ∷ []
insert_slot s (t ∷ slots) = if ltb_ℤ t s then t ∷ insert_slot s slots else s ∷ t ∷ slots

unfoldable pub sorted_slots : List (ℤ × Player) → List ℤ
sorted_slots [] = []
sorted_slots (e ∷ es) = insert_slot e.0 (sorted_slots es)

module _ (on : Handlers) where
  unfoldable pub drop_player : ℤ → Roster → Option Player → Roster
  drop_player slot r none = r
  drop_player slot r (some p) = let r' = on.disconnected p r in drop_found slot r' (get r' slot)

  unfoldable pub drop_slot : ℤ → Roster → Roster
  drop_slot slot r = drop_player slot r (get r slot)

  unfoldable pub add : Roster → ℤ → ℤ → Bytes → Bytes → Roster × Player
  add r slot steam_id name ip =
      let dropped = drop_slot slot r in
      let p : Player = record {
        id = dropped.next_id;
        slot = slot;
        steam_id = steam_id;
        name = name;
        ip = ip;
      } in
      (on.connected p (on.slot_changed slot (seat p dropped)), p)

  pub remove_player : ℤ → Roster → Option Player → Roster
  remove_player slot r none = r
  remove_player slot r (some p) = on.slot_changed slot (drop_slot slot r)

  unfoldable pub remove : Roster → ℤ → Roster
  remove r slot = remove_player slot r (get r slot)

  unfoldable pub drop_all : List ℤ → Roster → Roster
  drop_all [] r = r
  drop_all (slot ∷ slots) r = drop_all slots (drop_slot slot r)

  pub raise_all : List ℤ → Roster → Roster
  raise_all [] r = r
  raise_all (slot ∷ slots) r = raise_all slots (on.slot_changed slot r)

  unfoldable pub clear : Roster → Roster
  clear r =
      let slots = sorted_slots r.by_slot in
      let dropped = drop_all slots r in
      raise_all slots (record dropped { by_slot = []; by_steam_id = []; ordered = [] })

  pub fully_connect : Option Player → ℤ → Roster → Roster
  fully_connect none slot r = r
  fully_connect (some p) slot r = on.fully_connected p (on.slot_fully_connected slot r)

  pub on_client_fully_connected : Roster → ℤ → Roster
  on_client_fully_connected r slot = fully_connect (get r slot) slot r

  pub change_settings : Option Player → Roster → Roster
  change_settings none r = r
  change_settings (some p) r = on.settings_changed p r

  pub on_client_settings_changed : Roster → ℤ → Roster
  on_client_settings_changed r slot = change_settings (get r slot) r

-- A player in the slot of a reference, if it is the one.
unfoldable pub same_player : PlayerRef → Option Player → Option Player
same_player want none = none
same_player want (some p) = if eqb_ℤ p.steam_id want.steam_id then some p else none

unfoldable pub get_ref : Roster → PlayerRef → Option Player
get_ref r want = same_player want (get r want.slot)

pub by_steam_id_of : Roster → ℤ → Option Player
by_steam_id_of r steam_id = find_key ℤ_discrete steam_id r.by_steam_id

unfoldable pub ref_for : Roster → ℤ → PlayerRef
ref_for r slot = elim (get r slot) [
  | none ↦ record { slot = negsuc 0; steam_id = pos 0 }
  | some p ↦ ref p
]

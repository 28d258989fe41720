-- ===== src/Players/Roster/Operations.antt =====
-- The operations of src/Players/PlayerManager.cpp, with handlers that use the manager.
use voltmod.Players.Roster.{
  Player, Roster, Handlers, get, insert_ordered, sort_ordered, drop_player, drop_slot, seat, add,
  remove_player, remove, sorted_slots, drop_all, raise_all, clear, fully_connect,
  on_client_fully_connected, change_settings, on_client_settings_changed, by_steam_id_of,
}
use voltmod.Players.Roster.Coherent.{Coherent, drop_found-Coherent, get-drop_found, seat-Coherent}
use voltmod.Common.{
  ℕ, ◌≡◌, refl, inl, inr, true, false, Option, none, some, List, [], ◌∷◌, arith, Bool-cases, All,
  All-map, ℤ, ◌≤ℤ◌, ltb_ℤ, Bytes, find_key, Distinct,
}

-- Handlers that leave the roster coherent, as every one does that only calls its operations.
pub record Keeps (on : Handlers) : Type 0 where
  pub connected : (p : Player) (r : Roster) → Coherent r → Coherent (on.connected p r)
  pub disconnected : (p : Player) (r : Roster) → Coherent r → Coherent (on.disconnected p r)
  pub fully_connected : (p : Player) (r : Roster) → Coherent r → Coherent (on.fully_connected p r)
  pub settings_changed : (p : Player) (r : Roster) → Coherent r → Coherent (on.settings_changed p r)
  pub slot_changed : (s : ℤ) (r : Roster) → Coherent r → Coherent (on.slot_changed s r)
  pub slot_fully_connected :
      (s : ℤ) (r : Roster) → Coherent r → Coherent (on.slot_fully_connected s r)

pub empty-Coherent :
    (n : ℕ) → Coherent (record { by_slot = []; by_steam_id = []; ordered = []; next_id = n })
unfolding get by_steam_id_of sort_ordered find_key Distinct
empty-Coherent n = record {
  seated = λ s p h. cc;
  indexed = λ i p h. cc;
  keyed = tt;
  distinct = tt;
  listed = refl;
}

get-drop_player :
    (on : Handlers) (slot : ℤ) (r : Roster) (o : Option Player)
    → get r slot ≡ o
    → get (drop_player on slot r o) slot ≡ none
unfolding drop_player
get-drop_player on slot r none e = e
get-drop_player on slot r (some p) e =
    get-drop_found slot (on.disconnected p r) (get (on.disconnected p r) slot) refl

-- `Drop` leaves its slot empty, whatever the handlers of `Disconnected` do: one that puts another player in the slot has
-- that player dropped.
pub get-drop_slot : (on : Handlers) (r : Roster) (slot : ℤ) → get (drop_slot on slot r) slot ≡ none
unfolding drop_slot
get-drop_slot on r slot = get-drop_player on slot r (get r slot) refl

module _ (on : Handlers) (keeps : Keeps on) where
  drop_player-Coherent :
      (slot : ℤ) (r : Roster) (o : Option Player) → Coherent r → Coherent (drop_player on slot r o)
  unfolding drop_player
  drop_player-Coherent slot r none c = c
  drop_player-Coherent slot r (some p) c =
      drop_found-Coherent slot (on.disconnected p r) (get (on.disconnected p r) slot) refl
        (keeps.disconnected p r c)

  drop_slot-Coherent : (slot : ℤ) (r : Roster) → Coherent r → Coherent (drop_slot on slot r)
  unfolding drop_slot
  drop_slot-Coherent slot r c = drop_player-Coherent slot r (get r slot) c

  add-Coherent :
      (r : Roster) (slot steam_id : ℤ) (name ip : Bytes)
      → Coherent r
      → Coherent (add on r slot steam_id name ip).0
  unfolding add
  add-Coherent r slot steam_id name ip c =
      let dropped = drop_slot on slot r in
      let p : Player = record {
        id = dropped.next_id;
        slot = slot;
        steam_id = steam_id;
        name = name;
        ip = ip;
      } in
      keeps.connected p (on.slot_changed slot (seat p dropped)) (
        keeps.slot_changed slot (seat p dropped)
          (seat-Coherent p dropped (get-drop_slot on r slot) (drop_slot-Coherent slot r c)))

  remove_player-Coherent :
      (slot : ℤ) (r : Roster) (o : Option Player)
      → Coherent r
      → Coherent (remove_player on slot r o)
  unfolding remove_player
  remove_player-Coherent slot r none c = c
  remove_player-Coherent slot r (some p) c =
      keeps.slot_changed slot (drop_slot on slot r) (drop_slot-Coherent slot r c)

  raise_all-Coherent : (slots : List ℤ) (r : Roster) → Coherent r → Coherent (raise_all on slots r)
  unfolding raise_all
  raise_all-Coherent [] r c = c
  raise_all-Coherent (s ∷ slots) r c =
      raise_all-Coherent slots (on.slot_changed s r) (keeps.slot_changed s r c)

  clear-Coherent : (r : Roster) → Coherent (clear on r)
  unfolding clear
  clear-Coherent r =
      let slots = sorted_slots r.by_slot in
      raise_all-Coherent slots
        (record (drop_all on slots r) { by_slot = []; by_steam_id = []; ordered = [] })
        (empty-Coherent (drop_all on slots r).next_id)

  fully_connect-Coherent :
      (o : Option Player) (slot : ℤ) (r : Roster)
      → Coherent r
      → Coherent (fully_connect on o slot r)
  unfolding fully_connect
  fully_connect-Coherent none slot r c = c
  fully_connect-Coherent (some p) slot r c =
      keeps.fully_connected p (on.slot_fully_connected slot r) (keeps.slot_fully_connected slot r c)

  change_settings-Coherent :
      (o : Option Player) (r : Roster) → Coherent r → Coherent (change_settings on o r)
  unfolding change_settings
  change_settings-Coherent none r c = c
  change_settings-Coherent (some p) r c = keeps.settings_changed p r c

-- A call of the manager.
pub data Call : Type 0 where
  connect : ℤ → ℤ → Bytes → Bytes → Call
  disconnect : ℤ → Call
  drop_everyone : Call
  finish_connecting : ℤ → Call
  change_setting : ℤ → Call

unfoldable pub run : Handlers → Call → Roster → Roster
run on (connect slot steam_id name ip) r = (add on r slot steam_id name ip).0
run on (disconnect slot) r = remove on r slot
run on drop_everyone r = clear on r
run on (finish_connecting slot) r = on_client_fully_connected on r slot
run on (change_setting slot) r = on_client_settings_changed on r slot

-- Every call of the manager keeps the roster coherent if the handlers do: a player found by a SteamID has that SteamID, is
-- not a bot and is the one in his slot; one found in a slot has that slot, which stands once in the table; and the list is that of the slots, in order.
pub run-Coherent :
    (on : Handlers) (call : Call) (r : Roster) → Keeps on → Coherent r → Coherent (run on call r)
unfolding run remove on_client_fully_connected on_client_settings_changed
run-Coherent on (connect slot steam_id name ip) r keeps c =
    add-Coherent on keeps r slot steam_id name ip c
run-Coherent on (disconnect slot) r keeps c = remove_player-Coherent on keeps slot r (get r slot) c
run-Coherent on drop_everyone r keeps c = clear-Coherent on keeps r
run-Coherent on (finish_connecting slot) r keeps c =
    fully_connect-Coherent on keeps (get r slot) slot r c
run-Coherent on (change_setting slot) r keeps c = change_settings-Coherent on keeps (get r slot) r c

-- ---- the list
pub IsSorted : List Player → Type 0
IsSorted [] = Unit
IsSorted (p ∷ ps) = All (λ q. p.slot ≤ℤ q.slot) ps × IsSorted ps

pub insert_ordered-All :
    (P : Player → Type 0) (p : Player) (ps : List Player)
    → P p
    → All P ps
    → All P (insert_ordered p ps)
unfolding insert_ordered
insert_ordered-All P p [] h a = (h, tt)
insert_ordered-All P p (q ∷ ps) h a = elim (Bool-cases (ltb_ℤ q.slot p.slot)) [
  | inl t ↦ simp t (a.0, insert_ordered-All P p ps h a.1)
  | inr t ↦ simp t (h, a)
]

ltb_ℤ_le : (a b : ℤ) → ltb_ℤ a b ≡ true → a ≤ℤ b
ltb_ℤ_le a b h = ground arith

not_ltb_ℤ : (a b : ℤ) → ltb_ℤ a b ≡ false → b ≤ℤ a
not_ltb_ℤ a b h = ground arith

≤ℤ_trans : (a b c : ℤ) → a ≤ℤ b → b ≤ℤ c → a ≤ℤ c
≤ℤ_trans a b c h h' = omega arith

insert_ordered-IsSorted :
    (p : Player) (ps : List Player) → IsSorted ps → IsSorted (insert_ordered p ps)
unfolding insert_ordered IsSorted
insert_ordered-IsSorted p [] h = (tt, tt)
insert_ordered-IsSorted p (q ∷ ps) h = elim (Bool-cases (ltb_ℤ q.slot p.slot)) [
  | inl t ↦ simp t (
    insert_ordered-All (λ x. q.slot ≤ℤ x.slot) p ps (ltb_ℤ_le q.slot p.slot t) h.0,
    insert_ordered-IsSorted p ps h.1,
  )
  | inr t ↦
      let le : p.slot ≤ℤ q.slot = not_ltb_ℤ q.slot p.slot t in
      simp t (
        (
          le,
          All-map (λ x. q.slot ≤ℤ x.slot) (λ x. p.slot ≤ℤ x.slot) ps
              (λ x g. ≤ℤ_trans p.slot q.slot x.slot le g) h.0,
        ),
        h,
      )
]

sort_ordered-IsSorted : (es : List (ℤ × Player)) → IsSorted (sort_ordered es)
unfolding sort_ordered IsSorted
sort_ordered-IsSorted [] = tt
sort_ordered-IsSorted (e ∷ es) =
    insert_ordered-IsSorted e.1 (sort_ordered es) (sort_ordered-IsSorted es)

-- `All` lists the players of a coherent roster in the order of their slots.
pub ordered-IsSorted : (r : Roster) → Coherent r → IsSorted r.ordered
ordered-IsSorted r c = rw c.listed (sort_ordered-IsSorted r.by_slot)

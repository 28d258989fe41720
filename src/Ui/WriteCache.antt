-- ===== src/Ui/WriteCache.antt =====
-- src/Ui/WriteCache.cpp: what each player, or everyone, was last sent of a screen. A record that is made on its first use
-- is as one that is not there.
pub mod Recall
use voltmod.Slots.{is_valid_slot}
use voltmod.Common.{
  ℕ, zero, suc, ◌+◌, ◌-◌, ◌*◌, ◌/◌, ◌%◌, ◌^◌, ◌≤◌, ◌<◌, ◌≡◌, refl, sym, ap, ◌∙◌, ◌≢◌, ◌↔◌, ◌⊎◌, inl,
  inr, Bool, true, false, not, ◌&&◌, ◌||◌, Option, none, some, List, [], ◌∷◌, ◌++◌, map, arith, ltb,
  leb, ◌==◌, if◌then◌else◌, ltb→lt, lt→ltb, leb→le, ==_iff, tests, or_left, or_right, or_true,
  or_right_true, and_both, true_not-false, find_if-append_some, find_if-append_none, find_if-keep,
  find_if_holds, Bool-cases, Option-cases, List-cases, drop_nil, length, get_elem?, set,
  length-append, length-set, length-replicate, get_or, take, drop, replicate, take-append-drop,
  length-take, length-drop, length-map, take_of_length-le, keep, any, all, find_if, All, All-append,
  All-keep, All-keep_self, All-map, all_mono, All-keep_both, All-Mem, All-zip, get_elem?_lt,
  All-get_elem?, contains, ℤ, pos, negsuc, pos_part, neg_part, sub_ℕ, ◌+ℤ◌, ◌-ℤ◌, ◌≤ℤ◌, ltb_ℤ,
  leb_ℤ, eqb_ℤ, eqb_ℤ_iff, ℤ_discrete, Bytes, bytes, text_eq, text_eq_to, bytes_discrete,
  text_eq_refl, starts_with, starts_with-append, find_key, put_key, erase_key, find_key-put_key,
  find_key-erase_key, put_key_twice, Distinct, put_key-Distinct, erase_key-Distinct, Distinct-All,
  All-put_key, All-erase_key, find_key_put, find_key_erased,
}

pub data WriteKind : Type 0 where
  text class : WriteKind

pub record Sent : Type 0 where
  pub values : List (Bytes × Bytes)
  pub cursor : Option Bool
  pub failed : Bool

pub record WriteCache : Type 0 where
  pub slots : List (ℤ × Sent)
  pub everyone : Sent

abbrev pub nothing_sent : Sent
nothing_sent = record { values = []; cursor = none; failed = false }

abbrev pub or_nothing : Option Sent → Sent
or_nothing none = nothing_sent
or_nothing (some sent) = sent

-- `EveryoneSlot` is -1.
abbrev pub is_everyone : ℤ → Bool
is_everyone slot = eqb_ℤ slot (negsuc 0)

unfoldable pub for_slot : WriteCache → ℤ → Option Sent
for_slot c slot =
    if is_everyone slot
    then some c.everyone
    else if not (is_valid_slot slot)
    then none
    else some (or_nothing (find_key ℤ_discrete slot c.slots))

-- The record of the slot written through the pointer that `For` gives.
unfoldable pub store : WriteCache → ℤ → Sent → WriteCache
store c slot sent =
    if is_everyone slot
    then record c { everyone = sent }
    else record c { slots = put_key ℤ_discrete slot sent c.slots }

abbrev pub kind_code : WriteKind → ℕ
kind_code text = 0
kind_code class = 1

unfoldable pub key_for : WriteKind → Bytes → Bytes → Bytes
key_for kind element name = kind_code kind ∷ 31 ∷ element ++ 31 ∷ name

unfoldable pub is_sent : Option Bytes → Bytes → Bool
is_sent none value = false
is_sent (some sent) value = text_eq sent value

unfoldable pub change_value : WriteCache → ℤ → Bytes → Bytes → Option Sent → WriteCache × Bool
change_value c slot key value none = (c, false)
change_value c slot key value (some sent) =
    if is_sent (find_key bytes_discrete key sent.values) value then (c, false) else (
      store c slot (record sent { values = put_key bytes_discrete key value sent.values }),
      true,
    )

unfoldable pub changed : WriteCache → ℤ → WriteKind → Bytes → Bytes → Bytes → WriteCache × Bool
changed c slot kind element name value =
    change_value c slot (key_for kind element name) value (for_slot c slot)

abbrev same_cursor : Option Bool → Bool → Bool
same_cursor none shown = false
same_cursor (some true) shown = shown
same_cursor (some false) shown = not shown

unfoldable pub change_cursor : WriteCache → ℤ → Bool → Option Sent → WriteCache × Bool
change_cursor c slot shown none = (c, false)
change_cursor c slot shown (some sent) =
    if same_cursor sent.cursor shown
    then (c, false)
    else (store c slot (record sent { cursor = some shown }), true)

unfoldable pub cursor_changed : WriteCache → ℤ → Bool → WriteCache × Bool
cursor_changed c slot shown = change_cursor c slot shown (for_slot c slot)

unfoldable pub note_failure : WriteCache → ℤ → Option Sent → WriteCache × Bool
note_failure c slot none = (c, false)
note_failure c slot (some sent) =
    if sent.failed then (c, false) else (store c slot (record sent { failed = true }), true)

unfoldable pub is_first_failure : WriteCache → ℤ → WriteCache × Bool
is_first_failure c slot = note_failure c slot (for_slot c slot)

unfoldable pub forget : WriteCache → ℤ → Option Sent → WriteCache
forget c slot none = c
forget c slot (some sent) = store c slot (record sent { values = []; cursor = none })

unfoldable pub invalidate : WriteCache → ℤ → WriteCache
invalidate c slot = forget c slot (for_slot c slot)

unfoldable pub remove_slot : WriteCache → ℤ → WriteCache
remove_slot c slot =
    if is_valid_slot slot then record c { slots = erase_key ℤ_discrete slot c.slots } else c

unfoldable pub clear : WriteCache → WriteCache
clear c = record { slots = []; everyone = nothing_sent }

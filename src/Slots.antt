-- ===== src/Slots.antt =====
-- src/Core/Slots: player slots and SteamIDs.
pub mod SteamId
use voltmod.Common.{
  ℕ, zero, suc, ◌+◌, ◌-◌, ◌*◌, ◌/◌, ◌%◌, ◌^◌, ◌≤◌, ◌<◌, ◌≡◌, refl, sym, ap, ◌∙◌, ◌≢◌, ◌↔◌, ◌⊎◌, inl,
  inr, Bool, true, false, not, ◌&&◌, ◌||◌, Option, none, some, List, [], ◌∷◌, ◌++◌, map, arith, ltb,
  leb, ◌==◌, if◌then◌else◌, ltb→lt, lt→ltb, leb→le, ==_iff, tests, Bool-cases, Option-cases, length,
  get_elem?, set, length-append, get_or, take, drop, replicate, take-append-drop, length-take,
  length-drop, length-map, take_of_length-le, keep, any, all, find_if, All, All-append, All-keep,
  contains, ℤ, pos, negsuc, pos_part, neg_part, sub_ℕ, ◌+ℤ◌, ◌-ℤ◌, ◌≤ℤ◌, ltb_ℤ, leb_ℤ, eqb_ℤ,
  eqb_ℤ_iff, Bytes, bytes, text_eq, text_eq_to, text_eq_refl, starts_with, starts_with-append,
  find_key, put_key, erase_key, find_key-put_key, find_key-erase_key,
}

abbrev pub max_players : ℕ
max_players = 64

-- `IsValidSlot`, at an `int`.
abbrev pub is_valid_slot : ℤ → Bool
is_valid_slot slot = leb_ℤ (pos 0) slot && ltb_ℤ slot (pos max_players)

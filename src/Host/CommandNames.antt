-- ===== src/Host/CommandNames.antt =====
-- src/Host/Plugins/CommandNames.cpp. An owner is the address of a plugin, which is a number, zero for the
-- host (`nullptr`).
pub mod Ownership
use voltmod.Common.{
  ℕ, zero, suc, ◌+◌, ◌-◌, ◌*◌, ◌/◌, ◌%◌, ◌^◌, ◌≤◌, ◌<◌, ◌≡◌, refl, sym, ap, ◌∙◌, ◌≢◌, ◌↔◌, ◌⊎◌, inl,
  inr, Bool, true, false, not, ◌&&◌, ◌||◌, Option, none, some, List, [], ◌∷◌, ◌++◌, map, arith, ltb,
  leb, ◌==◌, if◌then◌else◌, ltb→lt, lt→ltb, leb→le, ==_iff, tests, or_left, or_right, or_true,
  or_right_true, and_both, true_not-false, find_if-append_some, find_if-append_none, find_if-keep,
  find_if_holds, Bool-cases, Option-cases, List-cases, drop_nil, length, get_elem?, set,
  length-append, get_or, take, drop, replicate, take-append-drop, length-take, length-drop,
  length-map, take_of_length-le, keep, any, all, find_if, All, All-append, All-keep, All-keep_self,
  All-map, all_mono, All-keep_both, All-Mem, get_elem?_lt, All-get_elem?, contains, ℤ, pos, negsuc,
  pos_part, neg_part, sub_ℕ, ◌+ℤ◌, ◌-ℤ◌, ◌≤ℤ◌, ltb_ℤ, leb_ℤ, eqb_ℤ, eqb_ℤ_iff, ℤ_discrete, Bytes,
  bytes, text_eq, text_eq_to, text_eq_refl, starts_with, starts_with-append, find_key, put_key,
  erase_key, find_key-put_key, find_key-erase_key,
}

pub record Entry : Type 0 where
  pub name : Bytes
  pub owner : ℕ
  pub owner_name : Bytes

abbrev is_empty : Bytes → Bool
is_empty [] = true
is_empty (c ∷ cs) = false

-- The entry of a name.
unfoldable pub entry_of : List Entry → Bytes → Option Entry
entry_of entries name = find_if (λ e. text_eq e.name name) entries

unfoldable pub register_free : List Entry → ℕ → Bytes → Bytes → Option Entry → List Entry × Bool
register_free entries owner owner_name name (some found) = (entries, found.owner == owner)
register_free entries owner owner_name name none =
    (entries ++ record { name = name; owner = owner; owner_name = owner_name } ∷ [], true)

unfoldable pub register : List Entry → ℕ → Bytes → Bytes → List Entry × Bool
register entries owner owner_name name =
    if is_empty name
    then (entries, false)
    else register_free entries owner owner_name name (entry_of entries name)

pub reserve_free : List Entry → Bytes → Option Entry → List Entry
reserve_free entries name (some found) = entries
reserve_free entries name none =
    entries ++ record { name = name; owner = 0; owner_name = bytes "the host" } ∷ []

pub reserve : List Entry → Bytes → List Entry
reserve entries name =
    if is_empty name then entries else reserve_free entries name (entry_of entries name)

unfoldable pub owner_of : List Entry → Bytes → Bytes
owner_of entries name = elim (entry_of entries name) [ none ↦ [] | some e ↦ e.owner_name ]

unfoldable pub remove_all : List Entry → ℕ → List Entry
remove_all entries owner = keep (λ e. not (e.owner == owner)) entries

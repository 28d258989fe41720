-- ===== src/Workshop/AddonList.antt =====
-- The comma-separated `addons` field of a join message: `SplitAddonList`, `ParseAddonList`,
-- `AppendToAddonList` and `RemoveFromAddonList`.
pub mod Entries
use voltmod.Strings.Chars.{is_empty}
use voltmod.Strings.Numbers.{parse_uint64, to_string}
use voltmod.Common.{
  ℕ, zero, suc, ◌+◌, ◌-◌, ◌*◌, ◌/◌, ◌%◌, ◌^◌, ◌≤◌, ◌<◌, ◌≡◌, refl, sym, ap, ◌∙◌, ◌≢◌, ◌↔◌, ◌⊎◌, inl,
  inr, Bool, true, false, not, ◌&&◌, ◌||◌, Option, none, some, List, [], ◌∷◌, ◌++◌, map, arith, ltb,
  leb, ◌==◌, if◌then◌else◌, ltb→lt, lt→ltb, leb→le, ==_iff, tests, Bool-cases, Option-cases,
  List-cases, drop_nil, length, get_elem?, set, length-append, get_or, take, drop, replicate,
  take-append-drop, length-take, length-drop, length-map, take_of_length-le, keep, any, all,
  find_if, All, All-append, All-keep, All-keep_self, All-map, all_mono, All-keep_both, All-Mem,
  get_elem?_lt, All-get_elem?, contains, ℤ, pos, negsuc, pos_part, neg_part, sub_ℕ, ◌+ℤ◌, ◌-ℤ◌,
  ◌≤ℤ◌, ltb_ℤ, leb_ℤ, eqb_ℤ, eqb_ℤ_iff, ℤ_discrete, Bytes, bytes, text_eq, text_eq_to, text_eq_refl,
  starts_with, starts_with-append, find_key, put_key, erase_key, find_key-put_key,
  find_key-erase_key,
}

-- `field.substr(0, comma)`, and what stands behind the comma if there is one.
pub until_comma : Bytes → Bytes × Option Bytes
until_comma [] = ([], none)
until_comma (c ∷ cs) =
    let (entry, behind) = until_comma cs in if c == b',' then ([], some cs) else (c ∷ entry, behind)

-- The loop of `SplitAddonList`, on fuel: each round but the last takes a comma off the field, so its
-- length is fuel enough.
pub split_loop : ℕ → Bytes → List Bytes
split_loop zero field = []
split_loop (suc fuel) field =
    let (entry, behind) = until_comma field in
    if is_empty field then [] else elim behind [
      | none ↦ entry ∷ []
      | some rest ↦ if is_empty rest then entry ∷ [] ∷ [] else entry ∷ split_loop fuel rest
    ]

unfoldable pub split_addon_list : Bytes → List Bytes
unfolding until_comma split_loop
split_addon_list field = split_loop (length field) field

-- The ids of the entries that are numbers other than 0.
unfoldable pub parse_entries : List Bytes → List ℕ
parse_entries [] = []
parse_entries (entry ∷ entries) = elim (parse_uint64 entry) [
  | none ↦ parse_entries entries
  | some id ↦ if id == 0 then parse_entries entries else id ∷ parse_entries entries
]

pub parse_addon_list : Bytes → List ℕ
parse_addon_list field = parse_entries (split_addon_list field)

-- The loop of `AppendToAddonList`: the field and the ids appended so far.
pub append_loop : List ℕ → List ℕ → Bytes × List ℕ → Bytes × List ℕ
append_loop named [] s = s
append_loop named (id ∷ ids) (field, appended) = append_loop named ids (
    if (id == 0) || (contains named id || contains appended id) then (field, appended) else (
      (if is_empty field then field else field ++ b',' ∷ []) ++ to_string id,
      appended ++ id ∷ [],
    ))

-- The field afterwards, and the ids appended.
unfoldable pub append_to_addon_list : Bytes → List ℕ → Bytes × List ℕ
unfolding append_loop parse_addon_list
append_to_addon_list field ids = append_loop (parse_addon_list field) ids (field, [])

-- Whether an entry is the number `id`.
abbrev pub is_entry : ℕ → Bytes → Bool
is_entry id entry = elim (parse_uint64 entry) [ none ↦ false | some n ↦ n == id ]

-- The first entry that is the id goes.
pub remove_first : ℕ → List Bytes → List Bytes
remove_first id [] = []
remove_first id (entry ∷ entries) =
    if is_entry id entry then entries else entry ∷ remove_first id entries

pub remove_each : List ℕ → List Bytes → List Bytes
remove_each [] entries = entries
remove_each (id ∷ ids) entries = remove_each ids (remove_first id entries)

-- The entries from the second on, each behind a comma.
pub join_rest : List Bytes → Bytes
join_rest [] = []
join_rest (entry ∷ entries) = (b',' ∷ entry) ++ join_rest entries

pub join_entries : List Bytes → Bytes
unfolding join_rest
join_entries [] = []
join_entries (entry ∷ entries) = entry ++ join_rest entries

unfoldable pub remove_from_addon_list : Bytes → List ℕ → Bytes
unfolding split_addon_list remove_first remove_each join_entries
remove_from_addon_list field ids = join_entries (remove_each ids (split_addon_list field))

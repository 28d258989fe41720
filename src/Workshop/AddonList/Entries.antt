-- ===== src/Workshop/AddonList/Entries.antt =====
-- The field as a list of entries: taken apart and put together, and read after an append.
use mathlib.Core.Path.{subst}
use mathlib.Core.List.{append_assoc, append-nil}
use voltmod.Strings.Chars.{is_empty}
use voltmod.Strings.Numbers.{to_string, uint64_max}
use voltmod.Strings.Numbers.RoundTrip.{
  parse_uint64-to_string, to_string-cons, to_string-Digit, Digit,
}
use voltmod.Workshop.AddonList.{
  until_comma, split_loop, split_addon_list, parse_entries, parse_addon_list, append_loop,
  append_to_addon_list, join_rest, join_entries,
}
use voltmod.Common.{
  ℕ, zero, suc, ◌≤◌, ◌<◌, ◌≡◌, refl, sym, ap, ◌∙◌, ◌≢◌, inl, inr, ◌||◌, Option, none, some, List,
  [], ◌∷◌, ◌++◌, arith, ◌==◌, if◌then◌else◌, ==_iff, Bool-cases, length, All, contains, Bytes,
}

abbrev prepend : ℕ → List Bytes → List Bytes
prepend c [] = (c ∷ []) ∷ []
prepend c (entry ∷ es) = (c ∷ entry) ∷ es

-- The entries of a field that is not empty, byte by byte.
unfoldable entries : Bytes → List Bytes
entries [] = [] ∷ []
entries (c ∷ cs) = let rest = entries cs in if c == b',' then [] ∷ rest else prepend c rest

abbrev Split : Bytes → Bytes → Option Bytes → Type 0
Split field entry none = entries field ≡ entry ∷ []
Split field entry (some rest) =
    (entries field ≡ entry ∷ entries rest) × (length rest < length field)

until_comma-Split : (field : Bytes) → Split field (until_comma field).0 (until_comma field).1
unfolding until_comma entries
until_comma-Split [] = refl
until_comma-Split (c ∷ cs) = ground (arith, until_comma-Split cs)

-- The fuel is enough to split from here.
abbrev Enough : ℕ → Type 0
Enough fuel = (c : ℕ) (cs : Bytes) → length cs < fuel → split_loop fuel (c ∷ cs) ≡ entries (c ∷ cs)

one_round :
    (fuel c : ℕ) (cs : Bytes) (b : Option Bytes)
    → Enough fuel
    → length cs ≤ fuel
    → (until_comma (c ∷ cs)).1 ≡ b
    → Split (c ∷ cs) (until_comma (c ∷ cs)).0 b
    → split_loop (suc fuel) (c ∷ cs) ≡ entries (c ∷ cs)
unfolding split_loop entries
one_round fuel c cs none ih h e s = rw (e, split_loop) (sym s)
one_round fuel c cs (some []) ih h e s = rw (e, split_loop) (sym s.0)
one_round fuel c cs (some (d ∷ ds)) ih h e s =
    rw (e, split_loop) (ap (◌∷◌ (until_comma (c ∷ cs)).0) (ih d ds (omega arith)) ∙ sym s.0)

split_loop-entries : (fuel : ℕ) → Enough fuel
split_loop-entries zero c cs h = elim h [ ]
split_loop-entries (suc fuel) c cs h =
    one_round fuel c cs (until_comma (c ∷ cs)).1 (split_loop-entries fuel) (omega arith) refl
      (until_comma-Split (c ∷ cs))

split_addon_list-entries : (c : ℕ) (cs : Bytes) → split_addon_list (c ∷ cs) ≡ entries (c ∷ cs)
unfolding split_addon_list
split_addon_list-entries c cs = split_loop-entries (suc (length cs)) c cs (omega arith)

join_entries-prepend : (c : ℕ) (es : List Bytes) → join_entries (prepend c es) ≡ c ∷ join_entries es
unfolding join_entries
join_entries-prepend c [] = refl
join_entries-prepend c (entry ∷ es) = refl

entries-cons : (field : Bytes) → (e : Bytes) × (es : List Bytes) × (entries field ≡ e ∷ es)
unfolding entries
entries-cons [] = ([], [], refl)
entries-cons (c ∷ cs) = elim (Bool-cases (c == b',')) [
  | inl q ↦ ([], entries cs, rw q)
  | inr q ↦ let (e, es, p) = entries-cons cs in (c ∷ e, es, rw (q, p))
]

join_rest-comma :
    (es : List Bytes)
    → (e : Bytes) × (rest : List Bytes) × (es ≡ e ∷ rest)
    → join_rest es ≡ b',' ∷ join_entries es
unfolding join_entries
join_rest-comma [] (e, rest, q) = cc
join_rest-comma (x ∷ es) q = refl

join_entries-entries : (field : Bytes) → join_entries (entries field) ≡ field
unfolding entries join_entries
join_entries-entries [] = refl
join_entries-entries (c ∷ cs) = elim (Bool-cases (c == b',')) [
  | inl e ↦ rw e (
      join_rest-comma (entries cs) (entries-cons cs)
      ∙ ap (◌∷◌ b',') (join_entries-entries cs)
      ∙ ap (λ (d : ℕ). d ∷ cs) (sym ((==_iff c b',').0 e)))
  | inr e ↦ rw e (join_entries-prepend c (entries cs) ∙ ap (◌∷◌ c) (join_entries-entries cs))
]

-- A field taken apart and put together again is the same field, byte for byte.
pub join_entries-split_addon_list : (field : Bytes) → join_entries (split_addon_list field) ≡ field
unfolding split_addon_list join_entries
join_entries-split_addon_list [] = refl
join_entries-split_addon_list (c ∷ cs) =
    rw (split_addon_list-entries c cs) (join_entries-entries (c ∷ cs))

parse_entries-append :
    (xs ys : List Bytes) → parse_entries (xs ++ ys) ≡ parse_entries xs ++ parse_entries ys
unfolding parse_entries
parse_entries-append [] ys = refl
parse_entries-append (x ∷ xs) ys = ground (arith, parse_entries-append xs ys)

entries_no_comma : (c : ℕ) (t : Bytes) → All Digit (c ∷ t) → entries (c ∷ t) ≡ (c ∷ t) ∷ []
unfolding entries
entries_no_comma c [] h = ground arith
entries_no_comma c (d ∷ t) h = ground (arith, entries_no_comma d t h.1)

prepend-append :
    (c : ℕ) (field : Bytes) (ys : List Bytes)
    → prepend c (entries field ++ ys) ≡ prepend c (entries field) ++ ys
prepend-append c field ys = let (e, es, q) = entries-cons field in rw q

entries-append_one : (field t : Bytes) → entries (field ++ b',' ∷ t) ≡ entries field ++ entries t
unfolding entries
entries-append_one [] t = refl
entries-append_one (c ∷ cs) t = elim (Bool-cases (c == b',')) [
  | inl e ↦ rw (e, entries-append_one cs t)
  | inr e ↦ rw (e, entries-append_one cs t) (prepend-append c cs (entries t))
]

parse_text : (id : ℕ) → id ≢ 0 → id ≤ uint64_max → parse_entries (entries (to_string id)) ≡ id ∷ []
unfolding parse_entries
parse_text id n h =
    let (d, ds, e) = to_string-cons id in
    let digits : All Digit (d ∷ ds) = subst (All Digit) e (to_string-Digit id) in
    let alone : entries (to_string id) ≡ to_string id ∷ [] =
      ap entries e ∙ entries_no_comma d ds digits ∙ ap (λ (t : Bytes). t ∷ []) (sym e) in
    rw alone (ground (arith, parse_uint64-to_string id h))

parse_addon_list-entries :
    (t : Bytes) {c : ℕ} {cs : Bytes} → t ≡ c ∷ cs → parse_addon_list t ≡ parse_entries (entries t)
unfolding parse_addon_list
parse_addon_list-entries t {c} {cs} e =
    ap parse_entries (ap split_addon_list e ∙ split_addon_list-entries c cs ∙ ap entries (sym e))

parse_addon_list_nil : parse_addon_list [] ≡ []
unfolding parse_addon_list split_addon_list parse_entries
parse_addon_list_nil = refl

-- One id appended behind a comma, or alone in an empty field, is read behind what was there.
parse_addon_list-append_one :
    (field : Bytes) (id : ℕ)
    → id ≢ 0
    → id ≤ uint64_max
    → parse_addon_list ((if is_empty field then field else field ++ b',' ∷ []) ++ to_string id)
      ≡ parse_addon_list field ++ id ∷ []
parse_addon_list-append_one [] id n h =
    let (d, ds, e) = to_string-cons id in
    parse_addon_list-entries (to_string id) e ∙ parse_text id n h ∙ rw parse_addon_list_nil
parse_addon_list-append_one (c ∷ cs) id n h =
    rw (append_assoc (c ∷ cs) (b',' ∷ []) (to_string id), parse_addon_list-entries (c ∷ cs) refl)
      (parse_addon_list-entries ((c ∷ cs) ++ b',' ∷ to_string id) refl
        ∙ ap parse_entries (entries-append_one (c ∷ cs) (to_string id))
        ∙ parse_entries-append (entries (c ∷ cs)) (entries (to_string id))
        ∙ ap (◌++◌ (parse_entries (entries (c ∷ cs)))) (parse_text id n h))

parse_addon_list-append_loop :
    (named ids : List ℕ) (field : Bytes) (appended : List ℕ)
    → All (λ id. id ≤ uint64_max) ids
    → parse_addon_list field ≡ named ++ appended
    → parse_addon_list (append_loop named ids (field, appended)).0
      ≡ named ++ (append_loop named ids (field, appended)).1
unfolding append_loop
parse_addon_list-append_loop named [] field appended h e = e
parse_addon_list-append_loop named (id ∷ ids) field appended h e =
    elim (Bool-cases ((id == 0) || (contains named id || contains appended id))) [
      | inl q ↦ rw (q, append_loop) (parse_addon_list-append_loop named ids field appended h.1 e)
      | inr q ↦
          rw (q, append_loop)
            (parse_addon_list-append_loop named ids
              ((if is_empty field then field else field ++ b',' ∷ []) ++ to_string id)
              (appended ++ id ∷ []) h.1
              (parse_addon_list-append_one field id (ground arith) h.0
                ∙ rw (e, append_assoc named appended (id ∷ []))))
    ]

-- Read again, a field that ids of 64 bits were appended to lists what it listed before, and then the
-- ids that the call reports as appended.
pub parse_addon_list-append_to_addon_list :
    (field : Bytes) (ids : List ℕ)
    → All (λ id. id ≤ uint64_max) ids
    → parse_addon_list (append_to_addon_list field ids).0
      ≡ parse_addon_list field ++ (append_to_addon_list field ids).1
unfolding append_to_addon_list
parse_addon_list-append_to_addon_list field ids h =
    parse_addon_list-append_loop (parse_addon_list field) ids field [] h
      (sym (append-nil (parse_addon_list field)))

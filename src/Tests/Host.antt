-- ===== src/Tests/Host.antt =====
-- Button presses and plugin dependencies.
use voltmod.Host.ButtonPressMessage.{
  Result, ok, error, varint_past_end, field_past_end, read_varint_from, read_varint, within,
  skip_length, skip_varint, skip_field, read_button, replace_button, keep_button, parse_field,
  parse_from, finish, parse,
}
use voltmod.Host.ButtonPressMessage.Payload.{parse_enough_fuel}
use voltmod.Host.ButtonPressMessage.Varints.{IsVarint}
use voltmod.Host.ButtonPressMessage.Fields.{Field, varint, counted, IsField}
use voltmod.Host.ButtonPressMessage.RoundTrip.{
  encode_all, cut_bytes, outcome, button_behind, CutShort, parse-encode_all,
}
use voltmod.Host.PluginDependencies.{
  PluginManifest, host_refused, not_installed, text_less, has_name, has_key, insert_sorted, emplace,
  by_name, refuse, refuse_missing, refuse_dependents, spread_refusals, names_of, refuse_unsatisfied,
  resolve, add_dependents, insert_name, spread_dependents, required_dependents,
}
use voltmod.Common.{◌≡◌, refl, none, some, List, [], ◌∷◌, ◌++◌, arith, All, Bytes, bytes}

-- A varint field 1, and the button id "ok" in field 2.
abbrev press : Bytes
press = 8 ∷ 150 ∷ 1 ∷ 18 ∷ 2 ∷ bytes "ok"

parsed : parse press ≡ some (ok (bytes "ok"))
unfolding read_varint_from read_varint within skip_length skip_varint skip_field read_button
    replace_button keep_button parse_field parse_from finish parse
parsed = refl

cut_off : parse (18 ∷ []) ≡ some (error varint_past_end)
unfolding read_varint_from read_varint within skip_length skip_varint skip_field read_button
    replace_button keep_button parse_field parse_from finish parse
cut_off = refl

-- A length of 2^64 - 11, behind which the cursor would go back to the start.
abbrev going_back : Bytes
going_back = 10 ∷ 245 ∷ 255 ∷ 255 ∷ 255 ∷ 255 ∷ 255 ∷ 255 ∷ 255 ∷ 255 ∷ 1 ∷ []

no_way_back : parse going_back ≡ some (error field_past_end)
unfolding read_varint_from read_varint within skip_length skip_varint skip_field read_button
    replace_button keep_button parse_field parse_from finish parse
no_way_back = refl

parse_enough_fuel_example :
    (r : Result Bytes) × (parse press ≡ some r) × (parse_from 20 press none 0 ≡ some r)
parse_enough_fuel_example = parse_enough_fuel 20 press (omega arith) (omega arith)

-- A varint field 1 and the button id, and a field 3 that lacks three of its five bytes.
abbrev count : Field
count = record { key = 8 ∷ []; number = 1; body = varint (150 ∷ 1 ∷ []) }

abbrev button_id : Field
button_id = record { key = 18 ∷ []; number = 2; body = counted (2 ∷ []) (bytes "ok") }

abbrev short : Field
short = record { key = 26 ∷ []; number = 3; body = counted (5 ∷ []) (bytes "ab") }

fields-IsField : All IsField (count ∷ button_id ∷ [])
unfolding IsVarint
fields-IsField = (
  (
    (((omega arith, refl), omega arith, omega arith), omega arith),
    (150, ((omega arith, omega arith, 1, refl, (omega arith, refl)), omega arith, omega arith)),
  ),
  (
    (
      (((omega arith, refl), omega arith, omega arith), omega arith),
      ((omega arith, refl), omega arith, omega arith),
    ),
    tt,
  ),
)

short-CutShort : CutShort (some short)
unfolding IsVarint
short-CutShort = (
  (((omega arith, refl), omega arith, omega arith), omega arith),
  (5, ((omega arith, refl), omega arith, omega arith), omega arith),
)

parse-encode_all_example :
    parse (encode_all (count ∷ button_id ∷ []) ++ cut_bytes (some short))
    ≡ some (outcome (button_behind none (count ∷ button_id ∷ [])) (some short))
parse-encode_all_example =
    parse-encode_all (count ∷ button_id ∷ []) (some short) fields-IsField short-CutShort
      (omega arith)

field_cut_off :
    outcome (button_behind none (count ∷ button_id ∷ [])) (some short) ≡ error field_past_end
field_cut_off = refl

whole_press : outcome (button_behind none (count ∷ button_id ∷ [])) none ≡ ok (bytes "ok")
unfolding finish
whole_press = refl

abbrev installed : List PluginManifest
installed =
    record { name = bytes "c"; dependencies = bytes "b" ∷ [] }
    ∷ record { name = bytes "b"; dependencies = bytes "x" ∷ [] }
    ∷ record { name = bytes "d"; dependencies = bytes "a" ∷ [] }
    ∷ record { name = bytes "a"; dependencies = [] }
    ∷ []

resolved : resolve installed ≡ record {
  to_load = bytes "a" ∷ bytes "d" ∷ [];
  refused = (bytes "b", not_installed (bytes "x")) ∷ (bytes "c", host_refused (bytes "b")) ∷ [];
}
unfolding text_less has_name has_key insert_sorted emplace by_name refuse refuse_missing
    refuse_dependents spread_refusals names_of refuse_unsatisfied resolve
resolved = refl

dependents : required_dependents (bytes "x") installed ≡ bytes "b" ∷ bytes "c" ∷ []
unfolding text_less insert_name has_name add_dependents spread_dependents required_dependents
dependents = refl

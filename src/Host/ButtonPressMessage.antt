-- ===== src/Host/ButtonPressMessage.antt =====
-- src/Host/Input/ButtonPressMessage.cpp: the protobuf fields of a button press. A cursor into the
-- payload is passed on as a `size_t` of 64 bits, which wraps round, and an error is the message the source gives.
pub mod Cursor
pub mod Payload
pub mod Varints
pub mod Fields
pub mod Steps
pub mod RoundTrip
use voltmod.Common.{
  ℕ, zero, suc, ◌+◌, ◌-◌, ◌*◌, ◌/◌, ◌%◌, ◌^◌, ◌≤◌, ◌<◌, ◌≡◌, refl, sym, ap, ◌∙◌, ◌≢◌, ◌↔◌, ◌⊎◌, inl,
  inr, Bool, true, false, not, ◌&&◌, ◌||◌, Option, none, some, List, [], ◌∷◌, ◌++◌, map, arith, ltb,
  leb, ◌==◌, if◌then◌else◌, ltb→lt, lt→ltb, leb→le, ==_iff, tests, or_left, or_right, or_true,
  or_right_true, and_both, true_not-false, find_if-append_some, find_if-append_none, find_if-keep,
  find_if_holds, Bool-cases, Option-cases, List-cases, drop_nil, length, get_elem?, set,
  length-append, length-set, length-replicate, get_or, take, drop, replicate, take-append-drop,
  length-take, length-drop, length-map, take_of_length-le, keep, any, all, find_if, All, All-append,
  All-keep, All-keep_self, All-map, all_mono, All-keep_both, All-Mem, All-zip, get_elem?_lt,
  All-get_elem?, contains, ℤ, pos, negsuc, pos_part, neg_part, sub_ℕ, ◌+ℤ◌, ◌-ℤ◌, ◌≤ℤ◌, ltb_ℤ,
  leb_ℤ, eqb_ℤ, eqb_ℤ_iff, ℤ_discrete, Bytes, bytes, text_eq, text_eq_to, bytes_discrete,
  text_eq_refl, starts_with, starts_with-append, find_key, put_key, erase_key, find_key-put_key,
  find_key-erase_key, put_key_twice, Distinct, put_key-Distinct, erase_key-Distinct, Distinct-All,
  All-put_key, All-erase_key, find_key_put, find_key_erased,
}

pub data ParseError : Type 0 where
  varint_past_end : ParseError
  varint_too_long : ParseError
  field_past_end : ParseError
  button_past_end : ParseError
  unknown_wire_type : ℕ → ParseError
  no_button : ParseError

pub data Result (A : Type 0) : Type 0 where
  ok : A → Result A
  error : ParseError → Result A

abbrev pub max_varint_bytes : ℕ
max_varint_bytes = 10

-- The loop of `ReadVarint` with the payload it may still read, the byte's place, the value so far and the
-- cursor. The parts of a value do not overlap, so that the source's `|` adds them, in 64 bits.
unfoldable pub read_varint_from : Bytes → ℕ → ℕ → ℕ → ℕ → Result (ℕ × ℕ)
read_varint_from payload zero byte value at = error varint_too_long
read_varint_from payload (suc left) byte value at =
    let part = get_or payload at 0 in
    let sum = value + part % 128 * 2 ^ (7 * byte) % 2 ^ 64 in
    let rest = read_varint_from payload left (byte + 1) sum (at + 1) in
    if leb (length payload) at
    then error varint_past_end
    else if ltb part 128
    then ok (sum, at + 1)
    else rest

unfoldable pub read_varint : Bytes → ℕ → Result (ℕ × ℕ)
read_varint payload at = read_varint_from payload max_varint_bytes 0 0 at

-- The cursor `count` bytes on, and the bytes between it and the end.
abbrev pub advance : ℕ → ℕ → ℕ
advance at count = (at + count) % 2 ^ 64

abbrev pub bytes_left : Bytes → ℕ → ℕ
bytes_left payload at = (length payload + 2 ^ 64 - at) % 2 ^ 64

-- `at > payload.size()` after the field.
unfoldable pub within : Bytes → ℕ → Result ℕ
within payload at = if ltb (length payload) at then error field_past_end else ok at

-- A length and the payload it counts.
unfoldable pub skip_length : Bytes → ParseError → Result (ℕ × ℕ) → Result ℕ
skip_length payload past_end (error e) = error e
skip_length payload past_end (ok (count, at)) =
    if ltb (bytes_left payload at) count then error past_end else ok (advance at count)

unfoldable pub skip_varint : Result (ℕ × ℕ) → Result ℕ
skip_varint (error e) = error e
skip_varint (ok (value, at)) = ok at

unfoldable pub skip_field : Bytes → ℕ → ℕ → Result ℕ
skip_field payload at wire_type =
    if wire_type == 0
    then skip_varint (read_varint payload at)
    else if wire_type == 1
    then within payload (advance at 8)
    else if wire_type == 5
    then within payload (advance at 4)
    else if wire_type == 2
    then skip_length payload field_past_end (read_varint payload at)
    else error (unknown_wire_type wire_type)

-- The button id at a cursor, and the cursor behind it.
unfoldable pub read_button : Bytes → Result (ℕ × ℕ) → Result (Bytes × ℕ)
read_button payload (error e) = error e
read_button payload (ok (count, at)) =
    if ltb (bytes_left payload at) count
    then error button_past_end
    else ok (take count (drop at payload), advance at count)

unfoldable pub replace_button : Result (Bytes × ℕ) → Result (Option Bytes × ℕ)
replace_button (error e) = error e
replace_button (ok (button, at)) = ok (some button, at)

unfoldable pub keep_button : Option Bytes → Result ℕ → Result (Option Bytes × ℕ)
keep_button button (error e) = error e
keep_button button (ok at) = ok (button, at)

unfoldable pub parse_field : Bytes → Option Bytes → Result (ℕ × ℕ) → Result (Option Bytes × ℕ)
parse_field payload button (error e) = error e
parse_field payload button (ok (key, at)) =
    let wire_type = key % 8 in
    if (key / 8 % 2 ^ 32 == 2) && (wire_type == 2)
    then replace_button (read_button payload (read_varint payload at))
    else keep_button button (skip_field payload at wire_type)

unfoldable pub finish : Option Bytes → Result Bytes
finish none = error no_button
finish (some button) = ok button

-- The loop of `Parse` on fuel, with the button id that it has and the cursor. None: out of fuel.
unfoldable pub parse_from : ℕ → Bytes → Option Bytes → ℕ → Option (Result Bytes)
parse_from zero payload button at = none
parse_from (suc fuel) payload button at =
    if ltb at (length payload)
    then (elim (parse_field payload button (read_varint payload at)) [
      | error e ↦ some (error e)
      | ok (button', at') ↦ parse_from fuel payload button' at'
    ])
    else some (finish button)

-- A round for each byte and one to see the end.
unfoldable pub parse : Bytes → Option (Result Bytes)
parse payload = parse_from (suc (length payload)) payload none 0

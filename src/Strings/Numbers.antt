-- ===== src/Strings/Numbers.antt =====
-- `ParseInt64`, `ParseUInt64` and the standard library's decimal `from_chars` and `to_string` that
-- they and their callers use. `from_chars` takes no sign but a leading minus for signed types, stops
-- at the first byte that is no digit, and fails on a value out of the type's range; the callers
-- all ask that it stop at the end of the text.
pub mod Range
pub mod RoundTrip
pub mod Numeral
use voltmod.Common.{
  ℕ, zero, suc, ◌+◌, ◌-◌, ◌*◌, ◌/◌, ◌%◌, ◌^◌, ◌≤◌, ◌<◌, ◌≡◌, refl, sym, ap, ◌∙◌, ◌≢◌, ◌↔◌, ◌⊎◌, inl,
  inr, Bool, true, false, not, ◌&&◌, ◌||◌, Option, none, some, List, [], ◌∷◌, ◌++◌, map, arith, ltb,
  leb, ◌==◌, if◌then◌else◌, ltb→lt, lt→ltb, leb→le, ==_iff, tests, Bool-cases, Option-cases, length,
  get_elem?, set, length-append, get_or, take, drop, replicate, take-append-drop, length-take,
  length-drop, length-map, keep, any, all, find_if, All, All-append, All-keep, contains, ℤ, pos,
  negsuc, pos_part, neg_part, sub_ℕ, ◌+ℤ◌, ◌-ℤ◌, ◌≤ℤ◌, ltb_ℤ, leb_ℤ, eqb_ℤ, eqb_ℤ_iff, Bytes, bytes,
  text_eq, text_eq_to, text_eq_refl, starts_with, find_key, put_key, erase_key, find_key-put_key,
  find_key-erase_key,
}

-- `std::isdigit` in the C locale.
abbrev pub is_digit : ℕ → Bool
is_digit c = leb b'0' c && leb c b'9'

-- The value of a text that is all digits, after the value read so far.
unfoldable pub digits_value : ℕ → Bytes → Option ℕ
digits_value acc [] = some acc
digits_value acc (c ∷ cs) = if is_digit c then digits_value (acc * 10 + (c - b'0')) cs else none

-- Out of range is an error of `from_chars`.
abbrev pub at_most : ℕ → Option ℕ → Option ℕ
at_most max none = none
at_most max (some n) = if leb n max then some n else none

-- `from_chars` into an unsigned type up to `max`, where the whole text has to be read.
unfoldable pub parse_unsigned : ℕ → Bytes → Option ℕ
parse_unsigned max [] = none
parse_unsigned max (c ∷ cs) = at_most max (digits_value 0 (c ∷ cs))

abbrev pub uint64_max : ℕ
uint64_max = 18446744073709551615

abbrev pub uint32_max : ℕ
uint32_max = 4294967295

abbrev pub int64_max : ℕ
int64_max = 9223372036854775807

abbrev pub int_max : ℕ
int_max = 2147483647

unfoldable pub parse_uint64 : Bytes → Option ℕ
unfolding parse_unsigned
parse_uint64 text = parse_unsigned uint64_max text

abbrev pub negate : ℕ → ℤ
negate zero = pos 0
negate (suc n) = negsuc n

abbrev as_pos : Option ℕ → Option ℤ
as_pos none = none
as_pos (some n) = some (pos n)

abbrev as_neg : Option ℕ → Option ℤ
as_neg none = none
as_neg (some n) = some (negate n)

-- `from_chars` into a signed type whose values lie between `- max - 1` and `max`.
unfoldable pub parse_signed : ℕ → Bytes → Option ℤ
unfolding parse_unsigned
parse_signed max [] = none
parse_signed max (c ∷ cs) =
    if c == b'-' then as_neg (parse_unsigned (max + 1) cs) else as_pos (parse_unsigned max (c ∷ cs))

unfoldable pub parse_int64 : Bytes → Option ℤ
unfolding parse_signed
parse_int64 text = parse_signed int64_max text

-- `std::to_string` of an unsigned number, on fuel: one round for each digit. The number plus one is
-- fuel enough.
pub digits_of : ℕ → ℕ → Bytes
digits_of zero n = []
digits_of (suc fuel) n =
    let more = digits_of fuel (n / 10) in
    if ltb n 10 then (n + b'0') ∷ [] else more ++ (n % 10 + b'0') ∷ []

unfoldable pub to_string : ℕ → Bytes
unfolding digits_of
to_string n = digits_of (suc n) n

pub to_string_ℤ : ℤ → Bytes
unfolding to_string
to_string_ℤ (pos n) = to_string n
to_string_ℤ (negsuc n) = b'-' ∷ to_string (suc n)

-- ===== src/Host/ButtonPressMessage/Fields.antt =====
-- The protobuf encoding of a button press, field for field, and what its parser does with it.
use voltmod.Host.ButtonPressMessage.{
  ok, error, ParseError, field_past_end, button_past_end, read_varint, advance, bytes_left, within,
  skip_field, read_button, replace_button, keep_button, parse_field,
}
use voltmod.Host.ButtonPressMessage.Cursor.{Sized}
use voltmod.Host.ButtonPressMessage.Varints.{At, IsVarint, read_varint-At}
use voltmod.Common.{
  ℕ, ◌+◌, ◌-◌, ◌*◌, ◌/◌, ◌%◌, ◌^◌, ◌≤◌, ◌<◌, ◌≡◌, refl, true, false, ◌&&◌, Option, some, [], ◌∷◌,
  ◌++◌, arith, ltb, ◌==◌, if◌then◌else◌, length, take, Bytes,
}

-- The bytes behind a field's key, by the wire types 0, 1, 5 and 2; the last has the length ahead of the content.
pub data Body : Type 0 where
  varint : Bytes → Body
  fixed64 : Bytes → Body
  fixed32 : Bytes → Body
  counted : Bytes → Bytes → Body

pub record Field : Type 0 where
  pub key : Bytes
  pub number : ℕ
  pub body : Body

abbrev pub wire_type : Body → ℕ
wire_type (varint bs) = 0
wire_type (fixed64 bs) = 1
wire_type (fixed32 bs) = 5
wire_type (counted len content) = 2

abbrev pub body_bytes : Body → Bytes
body_bytes (varint bs) = bs
body_bytes (fixed64 bs) = bs
body_bytes (fixed32 bs) = bs
body_bytes (counted len content) = len ++ content

abbrev pub encode : Field → Bytes
encode f = f.key ++ body_bytes f.body

-- A varint of ten bytes or less that holds 64 bits.
abbrev pub Reads : Bytes → ℕ → Type 0
Reads bs n = IsVarint bs n × (length bs ≤ 10) × (n < 2 ^ 64)

abbrev pub IsBody : Body → Type 0
IsBody (varint bs) = (n : ℕ) × Reads bs n
IsBody (fixed64 bs) = length bs ≡ 8
IsBody (fixed32 bs) = length bs ≡ 4
IsBody (counted len content) = Reads len (length content)

-- Fewer bytes than the wire type or the length asks for.
abbrev pub IsCut : Body → Type 0
IsCut (varint bs) = ⊥
IsCut (fixed64 bs) = length bs < 8
IsCut (fixed32 bs) = length bs < 4
IsCut (counted len content) = (n : ℕ) × Reads len n × (length content < n)

abbrev pub HasKey : Field → Type 0
HasKey f = Reads f.key (f.number * 8 + wire_type f.body) × (f.number < 2 ^ 32)

abbrev pub IsField : Field → Type 0
IsField f = HasKey f × IsBody f.body

-- The button id behind a field: the content of field 2.
abbrev pub button_of : Option Bytes → ℕ → Body → Option Bytes
button_of button number (counted len content) = if number == 2 then some content else button
button_of button number _ = button

abbrev pub error_of : ℕ → Body → ParseError
error_of number (counted len content) = if number == 2 then button_past_end else field_past_end
error_of number _ = field_past_end

-- ---- steps of the cursor
pub within_inside :
    (payload : Bytes) (at k : ℕ)
    → Sized payload
    → at + k ≤ length payload
    → within payload (advance at k) ≡ ok (at + k)
unfolding within
within_inside payload at k z h =
    let same : advance at k ≡ at + k = omega arith in
    let inside : ltb (length payload) (at + k) ≡ false = ground arith in rw (same, inside) refl

pub within_outside :
    (payload : Bytes) (at k : ℕ)
    → Sized payload
    → at ≤ length payload
    → k ≤ 8
    → length payload < at + k
    → within payload (advance at k) ≡ error field_past_end
unfolding within
within_outside payload at k z le small h =
    let same : advance at k ≡ at + k = omega arith in
    let outside : ltb (length payload) (at + k) ≡ true = ground arith in rw (same, outside) refl

pub fits :
    (payload : Bytes) (at n : ℕ)
    → Sized payload
    → at + n ≤ length payload
    → ltb (bytes_left payload at) n ≡ false
fits payload at n z h =
    let left : bytes_left payload at ≡ length payload - at = omega arith in rw left (ground arith)

pub too_long :
    (payload : Bytes) (at n : ℕ)
    → Sized payload
    → at ≤ length payload
    → length payload < at + n
    → ltb (bytes_left payload at) n ≡ true
too_long payload at n z le h =
    let left : bytes_left payload at ≡ length payload - at = omega arith in rw left (ground arith)

pub advance_inside :
    (payload : Bytes) (at n : ℕ) → Sized payload → at + n ≤ length payload → advance at n ≡ at + n
advance_inside payload at n z h = omega arith

pub take_front : (xs ys : Bytes) → take (length xs) (xs ++ ys) ≡ xs
take_front [] ys = refl
take_front (x ∷ xs) ys = rw (take_front xs ys) refl

pub parse_field_other :
    (payload : Bytes) (button : Option Bytes) (at n w : ℕ)
    → n < 2 ^ 32
    → w < 8
    → ((n == 2) && (w == 2)) ≡ false
    → parse_field payload button (ok (n * 8 + w, at)) ≡ keep_button button (skip_field payload at w)
unfolding parse_field
parse_field_other payload button at n w h h' e =
    let number : (n * 8 + w) / 8 % 2 ^ 32 ≡ n = omega arith in
    let wire : (n * 8 + w) % 8 ≡ w = omega arith in rw (number, wire, e) refl

pub parse_field_button :
    (payload : Bytes) (button : Option Bytes) (at n : ℕ)
    → n ≡ 2
    → parse_field payload button (ok (n * 8 + 2, at))
      ≡ replace_button (read_button payload (read_varint payload at))
unfolding parse_field
parse_field_button payload button at n e = rw e refl

pub not_counted : (n w : ℕ) → (w == 2) ≡ false → ((n == 2) && (w == 2)) ≡ false
not_counted n w e = ground arith

pub read_varint-Reads :
    (bs rest payload : Bytes) (at n : ℕ)
    → At payload at (bs ++ rest)
    → Reads bs n
    → read_varint payload at ≡ ok (n, at + length bs)
read_varint-Reads bs rest payload at n a r = read_varint-At bs rest payload at n a (r.0) (r.1) (r.2)

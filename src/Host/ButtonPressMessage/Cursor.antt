-- ===== src/Host/ButtonPressMessage/Cursor.antt =====
-- The cursor of a button press's parser.
use voltmod.Host.ButtonPressMessage.{advance}
use voltmod.Host.ButtonPressMessage.{bytes_left}
use voltmod.Host.ButtonPressMessage.{
  Result, ok, error, ParseError, field_past_end, read_varint_from, read_varint, within, skip_length,
  skip_varint, skip_field, read_button, replace_button, keep_button, parse_field,
}
use voltmod.Common.{
  ℕ, zero, suc, ◌+◌, ◌*◌, ◌/◌, ◌%◌, ◌^◌, ◌≤◌, ◌<◌, inl, inr, ◌&&◌, Option, arith, ltb, leb, ◌==◌,
  Bool-cases, length, get_or, Bytes,
}

-- What a `std::string_view` can hold.
abbrev pub Sized : Bytes → Type 0
Sized payload = length payload < 2 ^ 63

-- A result with a cursor that has moved on and stays within the payload.
Moves : {A : Type 0} → Bytes → ℕ → Result (A × ℕ) → Type 0
Moves payload at (error e) = Unit
Moves payload at (ok (a, at')) = at < at' × at' ≤ length payload

-- The same of the cursor alone, which may stay where it is.
Stays : Bytes → ℕ → Result ℕ → Type 0
Stays payload at (error e) = Unit
Stays payload at (ok at') = at ≤ at' × at' ≤ length payload

Moves-weaken :
    {A : Type 0} (payload : Bytes) (i j : ℕ) (r : Result (A × ℕ))
    → i ≤ j
    → Moves payload j r
    → Moves payload i r
unfolding Moves
Moves-weaken payload i j (error e) h m = tt
Moves-weaken payload i j (ok (a, k)) h m = (omega arith, m.1)

Stays-weaken :
    (payload : Bytes) (i j : ℕ) (r : Result ℕ) → i ≤ j → Stays payload j r → Stays payload i r
unfolding Stays
Stays-weaken payload i j (error e) h m = tt
Stays-weaken payload i j (ok k) h m = (omega arith, m.1)

read_varint_from-Moves :
    (payload : Bytes) (left byte value at : ℕ)
    → Moves payload at (read_varint_from payload left byte value at)
unfolding read_varint_from Moves
read_varint_from-Moves payload zero byte value at = tt
read_varint_from-Moves payload (suc left) byte value at =
    elim (Bool-cases (leb (length payload) at)) [
      | inl q ↦ simp q tt
      | inr q ↦ elim (Bool-cases (ltb (get_or payload at 0) 128)) [
        | inl q' ↦ simp (q, q') (omega arith, ground arith)
        | inr q' ↦
            simp (q, q')
              (Moves-weaken payload at (at + 1)
                (read_varint_from payload left (byte + 1)
                  (value + get_or payload at 0 % 128 * 2 ^ (7 * byte) % 2 ^ 64) (at + 1))
                (omega arith)
                (read_varint_from-Moves payload left (byte + 1)
                  (value + get_or payload at 0 % 128 * 2 ^ (7 * byte) % 2 ^ 64) (at + 1)))
      ]
    ]

read_varint-Moves : (payload : Bytes) (at : ℕ) → Moves payload at (read_varint payload at)
unfolding read_varint
read_varint-Moves payload at = read_varint_from-Moves payload 10 0 0 at

within-Stays :
    (payload : Bytes) (at moved : ℕ) → at ≤ moved → Stays payload at (within payload moved)
unfolding within Stays
within-Stays payload at moved h = ground arith

skip_varint-Stays :
    (payload : Bytes) (at : ℕ) (r : Result (ℕ × ℕ))
    → Moves payload at r
    → Stays payload at (skip_varint r)
unfolding skip_varint Moves Stays
skip_varint-Stays payload at (error e) m = tt
skip_varint-Stays payload at (ok (v, k)) m = (omega arith, m.1)

skip_length-Stays :
    (payload : Bytes) (e : ParseError) (at : ℕ) (r : Result (ℕ × ℕ))
    → Sized payload
    → Moves payload at r
    → Stays payload at (skip_length payload e r)
unfolding skip_length Moves Stays
skip_length-Stays payload e at (error e') z m = tt
skip_length-Stays payload e at (ok (v, k)) z m = elim (Bool-cases (ltb (bytes_left payload k) v)) [
  | inl q ↦ rw q tt
  | inr q ↦ let fits : v ≤ bytes_left payload k = ground arith in rw q (omega arith, omega arith)
]

skip_field-Stays :
    (payload : Bytes) (at wire_type : ℕ)
    → Sized payload
    → at ≤ length payload
    → Stays payload at (skip_field payload at wire_type)
unfolding skip_field Stays
skip_field-Stays payload at wire_type z le =
    let varint = read_varint-Moves payload at in
    elim (Bool-cases (wire_type == 0)) [
      | inl q ↦ rw q (skip_varint-Stays payload at (read_varint payload at) varint)
      | inr q ↦ elim (Bool-cases (wire_type == 1)) [
        | inl q1 ↦ rw (q, q1) (within-Stays payload at (advance at 8) (omega arith))
        | inr q1 ↦ elim (Bool-cases (wire_type == 5)) [
          | inl q5 ↦ rw (q, q1, q5) (within-Stays payload at (advance at 4) (omega arith))
          | inr q5 ↦ elim (Bool-cases (wire_type == 2)) [
            | inl q2 ↦
                rw (q, q1, q5, q2)
                  (skip_length-Stays payload field_past_end at (read_varint payload at) z varint)
            | inr q2 ↦ rw (q, q1, q5, q2) tt
          ]
        ]
      ]
    ]

-- One field read: the cursor moves on and stays within the payload.
unfoldable pub Read : Bytes → ℕ → Result (Option Bytes × ℕ) → Type 0
Read payload at (error e) = Unit
Read payload at (ok (button, k)) = at < k × k ≤ length payload

Read-weaken :
    (payload : Bytes) (i j : ℕ) (r : Result (Option Bytes × ℕ))
    → i ≤ j
    → Read payload j r
    → Read payload i r
unfolding Read
Read-weaken payload i j (error e) h m = tt
Read-weaken payload i j (ok (b, k)) h m = (omega arith, m.1)

read_button-Read :
    (payload : Bytes) (at : ℕ) (r : Result (ℕ × ℕ))
    → Sized payload
    → Moves payload at r
    → Read payload at (replace_button (read_button payload r))
unfolding read_button replace_button Read Moves
read_button-Read payload at (error e) z m = tt
read_button-Read payload at (ok (count, k)) z m =
    elim (Bool-cases (ltb (bytes_left payload k) count)) [
      | inl q ↦ rw q tt
      | inr q ↦
          let fits : count ≤ bytes_left payload k = ground arith in rw q (omega arith, omega arith)
    ]

keep_button-Read :
    (payload : Bytes) (button : Option Bytes) (at k : ℕ) (r : Result ℕ)
    → at < k
    → Stays payload k r
    → Read payload at (keep_button button r)
unfolding keep_button Read Stays
keep_button-Read payload button at k (error e) h m = tt
keep_button-Read payload button at k (ok k') h m = (omega arith, m.1)

parse_field-Read :
    (payload : Bytes) (button : Option Bytes) (at : ℕ) (r : Result (ℕ × ℕ))
    → Sized payload
    → Moves payload at r
    → Read payload at (parse_field payload button r)
unfolding parse_field Moves Read
parse_field-Read payload button at (error e) z m = tt
parse_field-Read payload button at (ok (key, k)) z m =
    elim (Bool-cases ((key / 8 % 2 ^ 32 == 2) && (key % 8 == 2))) [
      | inl q ↦ rw q (
          Read-weaken payload at k (replace_button (read_button payload (read_varint payload k)))
            (omega arith)
            (read_button-Read payload k (read_varint payload k) z (read_varint-Moves payload k)))
      | inr q ↦ rw q (
          keep_button-Read payload button at k (skip_field payload k (key % 8)) (omega arith)
            (skip_field-Stays payload k (key % 8) z (m.1)))
    ]

pub parse_step-Read :
    (payload : Bytes) (button : Option Bytes) (at : ℕ)
    → Sized payload
    → Read payload at (parse_field payload button (read_varint payload at))
parse_step-Read payload button at z =
    parse_field-Read payload button at (read_varint payload at) z (read_varint-Moves payload at)

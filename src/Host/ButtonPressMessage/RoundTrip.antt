-- ===== src/Host/ButtonPressMessage/RoundTrip.antt =====
-- The parser of a button press against the encoding of its fields.
use voltmod.Host.ButtonPressMessage.{
  ok, error, Result, read_varint, parse_field, parse_from, parse, finish,
}
use mathlib.Core.Path.{subst}
use mathlib.Core.List.{append_assoc, append-nil}
use voltmod.Host.ButtonPressMessage.Cursor.{Sized}
use voltmod.Host.ButtonPressMessage.Varints.{At, At-append, IsVarint-cons}
use voltmod.Host.ButtonPressMessage.Fields.{
  Field, wire_type, body_bytes, encode, IsCut, HasKey, IsField, button_of, error_of,
  read_varint-Reads,
}
use voltmod.Host.ButtonPressMessage.Steps.{parse_body, parse_cut}
use voltmod.Common.{
  ℕ, zero, suc, ◌+◌, ◌*◌, ◌^◌, ◌≤◌, ◌<◌, ◌≡◌, refl, sym, ap, ◌∙◌, true, false, Option, none, some,
  List, [], ◌∷◌, ◌++◌, arith, ltb, length, length-append, All, Bytes,
}

abbrev pub encode_all : List Field → Bytes
encode_all [] = []
encode_all (f ∷ fs) = encode f ++ encode_all fs

-- The button id behind the fields.
abbrev pub button_behind : Option Bytes → List Field → Option Bytes
button_behind button [] = button
button_behind button (f ∷ fs) = button_behind (button_of button f.number f.body) fs

abbrev pub cut_bytes : Option Field → Bytes
cut_bytes none = []
cut_bytes (some f) = encode f

abbrev pub CutShort : Option Field → Type 0
CutShort none = Unit
CutShort (some f) = HasKey f × IsCut f.body

abbrev pub outcome : Option Bytes → Option Field → Result Bytes
outcome button none = finish button
outcome button (some f) = error (error_of f.number f.body)

parse_field-encode :
    (payload : Bytes) (button : Option Bytes) (at : ℕ) (f : Field) (rest : Bytes)
    → Sized payload
    → At payload at (encode f ++ rest)
    → IsField f
    → parse_field payload button (read_varint payload at)
      ≡ ok (button_of button f.number f.body, at + length (encode f))
parse_field-encode payload button at f rest z a h =
    let a' = subst (At payload at) (append_assoc f.key (body_bytes f.body) rest) a in
    let read =
      read_varint-Reads f.key (body_bytes f.body ++ rest) payload at
        (f.number * 8 + wire_type f.body) a' (h.0.0) in
    let body = At-append payload at f.key (body_bytes f.body ++ rest) a' in
    let size = length-append f.key (body_bytes f.body) in
    let place : at + length f.key + length (body_bytes f.body) ≡ at + length (encode f) =
      omega (arith, size) in
    ap (parse_field payload button) read
    ∙ parse_body payload button (at + length f.key) f.number f.body rest z (h.0.1) body (h.1)
    ∙ ap (λ k. ok (button_of button f.number f.body, k)) place

parse_field-cut :
    (payload : Bytes) (button : Option Bytes) (at : ℕ) (f : Field)
    → Sized payload
    → At payload at (encode f)
    → CutShort (some f)
    → parse_field payload button (read_varint payload at) ≡ error (error_of f.number f.body)
parse_field-cut payload button at f z a h =
    let read =
      read_varint-Reads f.key (body_bytes f.body) payload at (f.number * 8 + wire_type f.body) a
        (h.0.0) in
    ap (parse_field payload button) read
    ∙ parse_cut payload button (at + length f.key) f.number f.body z (h.0.1)
        (At-append payload at f.key (body_bytes f.body) a) (h.1)

inside :
    (payload : Bytes) (at : ℕ) (f : Field) (rest : Bytes)
    → HasKey f
    → At payload at (encode f ++ rest)
    → at < length payload
unfolding At
inside payload at f rest k a =
    let some_key = IsVarint-cons f.key (f.number * 8 + wire_type f.body) (k.0.0) in
    let size = length-append f.key (body_bytes f.body) in
    let all = length-append (encode f) rest in omega (arith, a.1, some_key, size, all)

-- A round of the loop.
round : ℕ → Bytes → Result (Option Bytes × ℕ) → Option (Result Bytes)
round fuel payload (error e) = some (error e)
round fuel payload (ok (button, at)) = parse_from fuel payload button at

parse_from-round :
    (fuel : ℕ) (payload : Bytes) (button : Option Bytes) (at : ℕ)
    → at < length payload
    → parse_from (suc fuel) payload button at
      ≡ round fuel payload (parse_field payload button (read_varint payload at))
unfolding parse_from round
parse_from-round fuel payload button at h =
    let more : ltb at (length payload) ≡ true = ground arith in rw more refl

parse_from-encode :
    (fields : List Field) (cut : Option Field) (fuel : ℕ) (payload : Bytes) (button : Option Bytes)
    (at : ℕ)
    → Sized payload
    → All IsField fields
    → CutShort cut
    → At payload at (encode_all fields ++ cut_bytes cut)
    → length payload ≤ fuel + at
    → parse_from (suc fuel) payload button at ≡ some (outcome (button_behind button fields) cut)
unfolding parse_from round At
parse_from-encode [] none fuel payload button at z h c a l =
    let size = a.1 in let done : ltb at (length payload) ≡ false = ground arith in rw done refl
parse_from-encode [] (some f) fuel payload button at z h c a l =
    let a' = subst (At payload at) (sym (append-nil (encode f))) a in
    parse_from-round fuel payload button at (inside payload at f [] (c.0) a')
    ∙ ap (round fuel payload) (parse_field-cut payload button at f z a c)
parse_from-encode (f ∷ fs) cut zero payload button at z h c a l =
    let a' = subst (At payload at) (append_assoc (encode f) (encode_all fs) (cut_bytes cut)) a in
    let lt = inside payload at f (encode_all fs ++ cut_bytes cut) (h.0.0) a' in
    absurd (omega (arith, lt, l))
parse_from-encode (f ∷ fs) cut (suc fuel) payload button at z h c a l =
    let a' = subst (At payload at) (append_assoc (encode f) (encode_all fs) (cut_bytes cut)) a in
    let rest = encode_all fs ++ cut_bytes cut in
    let lt = inside payload at f rest (h.0.0) a' in
    let some_key = IsVarint-cons f.key (f.number * 8 + wire_type f.body) (h.0.0.0.0) in
    let size = length-append f.key (body_bytes f.body) in
    parse_from-round (suc fuel) payload button at lt
    ∙ ap (round (suc fuel) payload) (parse_field-encode payload button at f rest z a' (h.0))
    ∙ parse_from-encode fs cut fuel payload (button_of button f.number f.body)
        (at + length (encode f)) z (h.1) c (At-append payload at (encode f) rest a')
        (omega (arith, l, some_key, size))

-- `Parse` of fields of any numbers below 2^32 and of the four wire types, whose varints take ten bytes at most, ends with the content of
-- the last length-delimited field 2, or with the error that there is none. Where the last field is cut off, so that fewer bytes are
-- left than its fixed width or its length asks for, it ends with that field's error. The payload has less than 2^63 bytes.
pub parse-encode_all :
    (fields : List Field) (cut : Option Field)
    → All IsField fields
    → CutShort cut
    → length (encode_all fields ++ cut_bytes cut) < 2 ^ 63
    → parse (encode_all fields ++ cut_bytes cut) ≡ some (outcome (button_behind none fields) cut)
unfolding parse At
parse-encode_all fields cut h c z =
    let payload = encode_all fields ++ cut_bytes cut in
    parse_from-encode fields cut (length payload) payload none 0 z h c (refl, omega arith)
      (omega arith)

-- ===== src/Host/ButtonPressMessage/Steps.antt =====
-- What the parser of a button press makes of the fields that were encoded, and of a field that is cut off.
use voltmod.Host.ButtonPressMessage.{
  ok, error, field_past_end, button_past_end, read_varint, skip_length, skip_varint, skip_field,
  read_button, replace_button, keep_button, parse_field,
}
use mathlib.Core.Path.{subst}
use mathlib.Core.List.{append_assoc}
use voltmod.Host.ButtonPressMessage.Cursor.{Sized}
use voltmod.Host.ButtonPressMessage.Varints.{At, At-append}
use voltmod.Host.ButtonPressMessage.Fields.{
  Body, varint, fixed64, fixed32, counted, wire_type, body_bytes, Reads, IsBody, IsCut, button_of,
  error_of, within_inside, within_outside, fits, too_long, advance_inside, take_front,
  parse_field_other, parse_field_button, not_counted, read_varint-Reads,
}
use voltmod.Common.{
  ℕ, ◌+◌, ◌*◌, ◌^◌, ◌≤◌, ◌<◌, ◌≡◌, refl, sym, ap, ◌∙◌, inl, inr, Option, ◌++◌, arith, ◌==◌,
  Bool-cases, length, length-append, Bytes,
}

At-le :
    (payload : Bytes) (at : ℕ) (xs ys : Bytes)
    → At payload at (xs ++ ys)
    → at + length xs ≤ length payload
unfolding At
At-le payload at xs ys a = let size = length-append xs ys in omega (arith, a.1, size)

skip_counted :
    (payload : Bytes) (at : ℕ) (len content rest : Bytes)
    → Sized payload
    → At payload at ((len ++ content) ++ rest)
    → Reads len (length content)
    → skip_field payload at 2 ≡ ok (at + length (len ++ content))
unfolding skip_field skip_length
skip_counted payload at len content rest z a r =
    let le = At-le payload at (len ++ content) rest a in
    let size = length-append len content in
    let a' = subst (At payload at) (append_assoc len content rest) a in
    let read = read_varint-Reads len (content ++ rest) payload at (length content) a' r in
    let inside : at + length len + length content ≤ length payload = omega (arith, size) in
    let place : at + length len + length content ≡ at + length (len ++ content) =
      omega (arith, size) in
    rw
      (
        read,
        fits payload (at + length len) (length content) z inside,
        advance_inside payload (at + length len) (length content) z inside,
        place,
      )
      refl

read_counted :
    (payload : Bytes) (at : ℕ) (len content rest : Bytes)
    → Sized payload
    → At payload at ((len ++ content) ++ rest)
    → Reads len (length content)
    → read_button payload (read_varint payload at) ≡ ok (content, at + length (len ++ content))
unfolding read_button At
read_counted payload at len content rest z a r =
    let le = At-le payload at (len ++ content) rest a in
    let size = length-append len content in
    let a' = subst (At payload at) (append_assoc len content rest) a in
    let read = read_varint-Reads len (content ++ rest) payload at (length content) a' r in
    let inside : at + length len + length content ≤ length payload = omega (arith, size) in
    let place : at + length len + length content ≡ at + length (len ++ content) =
      omega (arith, size) in
    let there = At-append payload at len (content ++ rest) a' in
    rw
      (
        read,
        fits payload (at + length len) (length content) z inside,
        advance_inside payload (at + length len) (length content) z inside,
        place,
        there.0,
        take_front content rest,
      )
      refl

pub parse_body :
    (payload : Bytes) (button : Option Bytes) (at n : ℕ) (b : Body) (rest : Bytes)
    → Sized payload
    → n < 2 ^ 32
    → At payload at (body_bytes b ++ rest)
    → IsBody b
    → parse_field payload button (ok (n * 8 + wire_type b, at))
      ≡ ok (button_of button n b, at + length (body_bytes b))
unfolding skip_field keep_button skip_varint replace_button
parse_body payload button at n (varint bs) rest z h a (v, r) =
    parse_field_other payload button at n 0 h (omega arith) (not_counted n 0 refl)
    ∙ ap (λ o. keep_button button (skip_varint o)) (read_varint-Reads bs rest payload at v a r)
parse_body payload button at n (fixed64 bs) rest z h a r =
    let le = At-le payload at bs rest a in
    parse_field_other payload button at n 1 h (omega arith) (not_counted n 1 refl)
    ∙ ap (keep_button button) (within_inside payload at 8 z (omega (arith, r)))
    ∙ ap (λ k. ok (button, at + k)) (sym r)
parse_body payload button at n (fixed32 bs) rest z h a r =
    let le = At-le payload at bs rest a in
    parse_field_other payload button at n 5 h (omega arith) (not_counted n 5 refl)
    ∙ ap (keep_button button) (within_inside payload at 4 z (omega (arith, r)))
    ∙ ap (λ k. ok (button, at + k)) (sym r)
parse_body payload button at n (counted len content) rest z h a r = elim (Bool-cases (n == 2)) [
  | inl e ↦ rw e (
      parse_field_button payload button at n (ground arith)
      ∙ ap replace_button (read_counted payload at len content rest z a r))
  | inr e ↦ rw e (
      parse_field_other payload button at n 2 h (omega arith) (rw e refl)
      ∙ ap (keep_button button) (skip_counted payload at len content rest z a r))
]

-- ---- a field that is cut off
skip_counted_cut :
    (payload : Bytes) (at n : ℕ) (len content : Bytes)
    → Sized payload
    → At payload at (len ++ content)
    → Reads len n
    → length content < n
    → skip_field payload at 2 ≡ error field_past_end
unfolding skip_field skip_length At
skip_counted_cut payload at n len content z a r h =
    let read = read_varint-Reads len content payload at n a r in
    let size = length-append len content in
    rw
      (
        read,
        too_long payload (at + length len) n z (omega (arith, a.1, size))
            (omega (arith, a.1, size)),
      )
      refl

read_counted_cut :
    (payload : Bytes) (at n : ℕ) (len content : Bytes)
    → Sized payload
    → At payload at (len ++ content)
    → Reads len n
    → length content < n
    → read_button payload (read_varint payload at) ≡ error button_past_end
unfolding read_button At
read_counted_cut payload at n len content z a r h =
    let read = read_varint-Reads len content payload at n a r in
    let size = length-append len content in
    rw
      (
        read,
        too_long payload (at + length len) n z (omega (arith, a.1, size))
            (omega (arith, a.1, size)),
      )
      refl

pub parse_cut :
    (payload : Bytes) (button : Option Bytes) (at n : ℕ) (b : Body)
    → Sized payload
    → n < 2 ^ 32
    → At payload at (body_bytes b)
    → IsCut b
    → parse_field payload button (ok (n * 8 + wire_type b, at)) ≡ error (error_of n b)
unfolding skip_field At keep_button replace_button
parse_cut payload button at n (varint bs) z h a c = absurd c
parse_cut payload button at n (fixed64 bs) z h a c =
    parse_field_other payload button at n 1 h (omega arith) (not_counted n 1 refl)
    ∙ ap (keep_button button)
        (within_outside payload at 8 z (omega (arith, a.1)) (omega arith) (omega (arith, a.1, c)))
parse_cut payload button at n (fixed32 bs) z h a c =
    parse_field_other payload button at n 5 h (omega arith) (not_counted n 5 refl)
    ∙ ap (keep_button button)
        (within_outside payload at 4 z (omega (arith, a.1)) (omega arith) (omega (arith, a.1, c)))
parse_cut payload button at n (counted len content) z h a (k, r, c) = elim (Bool-cases (n == 2)) [
  | inl e ↦ rw e (
      parse_field_button payload button at n (ground arith)
      ∙ ap replace_button (read_counted_cut payload at k len content z a r c))
  | inr e ↦ rw e (
      parse_field_other payload button at n 2 h (omega arith) (rw e refl)
      ∙ ap (keep_button button) (skip_counted_cut payload at k len content z a r c))
]

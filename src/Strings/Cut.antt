-- ===== src/Strings/Cut.antt =====
-- `TruncateUtf8`, `CopyToBuffer` and `DisplayNameOr`.
use voltmod.Strings.Chars.{is_empty}
use voltmod.Strings.Numbers.{to_string_ℤ}
use voltmod.Strings.Markup.{escape_html}
use Prim.Native.Nat.{min}
use mathlib.Core.List.{append_assoc}
use voltmod.Common.{
  ℕ, zero, suc, ◌+◌, ◌-◌, ◌/◌, ◌%◌, ◌≤◌, ◌<◌, ◌≡◌, refl, sym, ◌∙◌, ◌⊎◌, inl, inr, Bool, true, false,
  Option, none, some, [], ◌∷◌, ◌++◌, arith, leb, ◌==◌, if◌then◌else◌, leb→le, ==_iff, Bool-cases,
  length, length-append, get_or, take, drop, length-take, length-drop, take_of_length-le, ℤ, Bytes,
  bytes, starts_with, starts_with-append,
}

-- `(c & 0xC0) == 0x80`: the byte is 10xxxxxx in binary.
abbrev pub is_continuation : ℕ → Bool
is_continuation c = (c / 64) % 4 == 2

-- The loop that moves the cut back.
pub back_up : Bytes → ℕ → ℕ
back_up text zero = 0
back_up text (suc end) =
    if is_continuation (get_or text (suc end) 0) then back_up text end else suc end

unfoldable pub truncate_utf8 : Bytes → ℕ → Bytes → Bytes
unfolding back_up
truncate_utf8 text max_bytes ellipsis =
    if leb (length text) max_bytes then text else take (back_up text max_bytes) text ++ ellipsis

-- Where the cut ends up: at or below the limit, on the first byte of a sequence or on 0, and with
-- nothing but continuation bytes between it and the limit.
pub record IsCut (text : Bytes) (limit cut : ℕ) : Type 0 where
  pub within : cut ≤ limit
  pub boundary : (cut ≡ 0) ⊎ (is_continuation (get_or text cut 0) ≡ false)
  pub nearest : (i : ℕ) → cut < i → i ≤ limit → is_continuation (get_or text i 0) ≡ true

back_up-IsCut : (text : Bytes) (limit : ℕ) → IsCut text limit (back_up text limit)
unfolding back_up
back_up-IsCut text zero = record {
  within = omega arith;
  boundary = inl refl;
  nearest = λ i lo hi. absurd (omega arith);
}
back_up-IsCut text (suc limit) = elim (Bool-cases (is_continuation (get_or text (suc limit) 0))) [
  | inl e ↦
      let ih = back_up-IsCut text limit in
      rw e (record {
        within = omega (arith, ih.within);
        boundary = ih.boundary;
        nearest = λ i lo hi. elim (Bool-cases (i == suc limit)) [
          | inl q ↦ rw ((==_iff i (suc limit)).0 q) e
          | inr q ↦ ih.nearest i lo (ground arith)
        ];
      })
  | inr e ↦
      rw e (record {
        within = omega arith;
        boundary = inr e;
        nearest = λ i lo hi. absurd (omega arith);
      })
]

-- A text within the limit is left whole. Any other is cut to a prefix whose end is the nearest
-- sequence boundary at or below the limit, and the ellipsis follows.
pub truncate_utf8-IsCut :
    (text : Bytes) (max_bytes : ℕ) (ellipsis : Bytes)
    → ((length text ≤ max_bytes) × (truncate_utf8 text max_bytes ellipsis ≡ text))
      ⊎ ((max_bytes < length text)
          × ((cut : ℕ) × IsCut text max_bytes cut
              × (truncate_utf8 text max_bytes ellipsis ≡ take cut text ++ ellipsis)))
unfolding truncate_utf8
truncate_utf8-IsCut text max_bytes ellipsis = elim (Bool-cases (leb (length text) max_bytes)) [
  | inl e ↦ inl (leb→le _ _ e, rw e)
  | inr e ↦ inr (ground arith, (back_up text max_bytes, back_up-IsCut text max_bytes, rw e))
]

-- `Strings::CopyToBuffer`: what the caller's buffer of `size` bytes holds afterwards. `none` is the
-- null pointer.
pub copy_to_buffer : Option Bytes → ℕ → Bytes → Option Bytes
copy_to_buffer none size text = none
copy_to_buffer (some buffer) size text =
    if size == 0
    then some buffer
    else let n = min (size - 1) (length text) in some (take n text ++ 0 ∷ drop (n + 1) buffer)

take-min : (n : ℕ) (text : Bytes) → take n text ≡ take (min n (length text)) text
take-min n text = elim (Bool-cases (leb (length text) n)) [
  | inl e ↦
      let m : min n (length text) ≡ length text = omega (arith, leb→le (length text) n e) in
      rw m (
        take_of_length-le n text (leb→le (length text) n e)
        ∙ sym (take_of_length-le (length text) text (omega arith)))
  | inr e ↦ let m : min n (length text) ≡ n = ground arith in rw m
]

-- A buffer of `size` bytes keeps that size, and holds the text cut to fit and then a NUL.
pub copy_to_buffer_fits :
    (buffer : Bytes) (size : ℕ) (text : Bytes)
    → length buffer ≡ size
    → 0 < size
    → (held : Bytes) × (copy_to_buffer (some buffer) size text ≡ some held)
      × (length held ≡ size)
      × (starts_with (take (size - 1) text ++ 0 ∷ []) held ≡ true)
unfolding copy_to_buffer
copy_to_buffer_fits buffer size text e h =
    let n = min (size - 1) (length text) in
    (
      take n text ++ 0 ∷ drop (n + 1) buffer,
      ground arith,
      omega (
        arith,
        length-append (take n text) (0 ∷ drop (n + 1) buffer),
        length-take n text,
        length-drop (n + 1) buffer,
      ),
      rw (take-min (size - 1) text, ← append_assoc (take n text) (0 ∷ []) (drop (n + 1) buffer))
          (starts_with-append (take n text ++ 0 ∷ []) (drop (n + 1) buffer)),
    )

-- `Strings::DisplayNameOr`.
unfoldable pub display_name_or : ℤ → Bytes → ℕ → Bytes
unfolding truncate_utf8 escape_html
display_name_or id name max_bytes =
    if is_empty name
    then to_string_ℤ id
    else escape_html (truncate_utf8 name max_bytes (bytes "..."))

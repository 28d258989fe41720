-- ===== src/Strings/Numbers/Numeral.antt =====
-- What `ParseInt64` of src/Core/Text/Strings.cpp reads: decimal numerals that are in range, and nothing else.
use voltmod.Strings.Numbers.{
  is_digit, digits_value, at_most, parse_unsigned, int64_max, negate, as_pos, as_neg, parse_signed,
  parse_int64,
}
use voltmod.Strings.Numbers.Range.{Within, parse_int64-Within}
use voltmod.Strings.Numbers.RoundTrip.{Digit}
use native.Mathlib.Numerals.{unary_clauses}
use voltmod.Common.{
  ℕ, zero, suc, ◌+◌, ◌-◌, ◌*◌, ◌^◌, ◌≤◌, ◌≡◌, refl, ap, ◌∙◌, ◌≢◌, ◌↔◌, ◌⊎◌, inl, inr, true, false,
  Option, none, some, [], ◌∷◌, arith, leb, ◌==◌, Bool-cases, length, All, ℤ, pos, Bytes,
}

-- The positional value of a text of digits.
pub value_of : Bytes → ℕ
value_of [] = 0
value_of (c ∷ cs) = (c - b'0') * 10 ^ length cs + value_of cs

-- One digit or more, worth `n`.
abbrev pub Digits : Bytes → ℕ → Type 0
Digits cs n = (cs ≢ []) × All Digit cs × (n ≡ value_of cs)

-- Digits, with a minus ahead or without.
abbrev pub Numeral : Bytes → ℤ → Type 0
Numeral text v =
    ((n : ℕ) × Digits text n × (v ≡ pos n))
    ⊎ ((ds : Bytes) × (n : ℕ) × (text ≡ b'-' ∷ ds) × Digits ds n × (v ≡ negate n))

power_suc : (n : ℕ) → 10 ^ suc n ≡ 10 * 10 ^ n
power_suc n = simp unary_clauses (omega arith)

shift : (acc d power v : ℕ) → (acc * 10 + d) * power + v ≡ acc * (10 * power) + (d * power + v)
shift acc d power v = grind arith

digits_value_of :
    (acc : ℕ) (cs : Bytes)
    → All Digit cs
    → digits_value acc cs ≡ some (acc * 10 ^ length cs + value_of cs)
unfolding digits_value value_of
digits_value_of acc [] h = ap some (omega arith)
digits_value_of acc (c ∷ cs) h =
    let digit : is_digit c ≡ true = ground arith in
    rw (digit, digits_value_of (acc * 10 + (c - b'0')) cs (h.1), power_suc (length cs))
      (ap some (shift acc (c - b'0') (10 ^ length cs) (value_of cs)))

digits_value-Digit : (acc : ℕ) (cs : Bytes) {n : ℕ} → digits_value acc cs ≡ some n → All Digit cs
unfolding digits_value
digits_value-Digit acc [] h = tt
digits_value-Digit acc (c ∷ cs) {n} h = elim (Bool-cases (is_digit c)) [
  | inl e ↦ (ground arith, digits_value-Digit (acc * 10 + (c - b'0')) cs (simp e at h))
  | inr e ↦ let no : none ≡ some n = simp e at h in cc
]

at_most_to : (max n : ℕ) → n ≤ max → at_most max (some n) ≡ some n
at_most_to max n h = ground arith

at_most_from : (max : ℕ) (o : Option ℕ) {n : ℕ} → at_most max o ≡ some n → (o ≡ some n) × (n ≤ max)
at_most_from max none h = cc
at_most_from max (some m) {n} h = elim (Bool-cases (leb m max)) [
  | inl e ↦ let same : some m ≡ some n = simp e at h in (same, ground arith)
  | inr e ↦ let no : none ≡ some n = simp e at h in cc
]

value_when : (cs : Bytes) {n : ℕ} → digits_value 0 cs ≡ some n → All Digit cs × (n ≡ value_of cs)
value_when cs {n} h =
    let digits = digits_value-Digit 0 cs h in
    let same = digits_value_of 0 cs digits in
    let e : n ≡ 0 * 10 ^ length cs + value_of cs = cc in (digits, omega arith)

parse_unsigned-Digits :
    (max : ℕ) (cs : Bytes) {n : ℕ} → parse_unsigned max cs ≡ some n → Digits cs n × (n ≤ max)
unfolding parse_unsigned
parse_unsigned-Digits max [] h = cc
parse_unsigned-Digits max (c ∷ cs) h =
    let (value, le) = at_most_from max (digits_value 0 (c ∷ cs)) h in
    let (digits, worth) = value_when (c ∷ cs) value in (((λ e. cc), digits, worth), le)

Digits-parse_unsigned :
    (max : ℕ) (cs : Bytes) {n : ℕ} → Digits cs n → n ≤ max → parse_unsigned max cs ≡ some n
unfolding parse_unsigned
Digits-parse_unsigned max [] d le = absurd (d.0 refl)
Digits-parse_unsigned max (c ∷ cs) {n} d le =
    let value = digits_value_of 0 (c ∷ cs) (d.1) in
    let worth : 0 * 10 ^ length (c ∷ cs) + value_of (c ∷ cs) ≡ n = omega (arith, d.2) in
    let read : digits_value 0 (c ∷ cs) ≡ some n = value ∙ ap some worth in
    rw read (at_most_to max n le)

negate_le : (max n : ℕ) → Within max (negate n) → n ≤ max + 1
negate_le max zero w = omega arith
negate_le max (suc n) w = omega arith

as_pos-some : (o : Option ℕ) {v : ℤ} → as_pos o ≡ some v → (n : ℕ) × (o ≡ some n) × (v ≡ pos n)
as_pos-some none h = cc
as_pos-some (some n) h = (n, refl, cc)

as_neg-some : (o : Option ℕ) {v : ℤ} → as_neg o ≡ some v → (n : ℕ) × (o ≡ some n) × (v ≡ negate n)
as_neg-some none h = cc
as_neg-some (some n) h = (n, refl, cc)

parse_signed-Numeral :
    (max : ℕ) (text : Bytes) {v : ℤ} → parse_signed max text ≡ some v → Numeral text v
unfolding parse_signed
parse_signed-Numeral max [] h = cc
parse_signed-Numeral max (c ∷ cs) {v} h = elim (Bool-cases (c == b'-')) [
  | inl e ↦
      let (n, read, same) = as_neg-some (parse_unsigned (max + 1) cs) (simp e at h) in
      let minus : c ≡ b'-' = ground arith in
      inr (cs, n, ap (λ d. d ∷ cs) minus, (parse_unsigned-Digits (max + 1) cs read).0, same)
  | inr e ↦
      let (n, read, same) = as_pos-some (parse_unsigned max (c ∷ cs)) (simp e at h) in
      inl (n, (parse_unsigned-Digits max (c ∷ cs) read).0, same)
]

Digits-parse_signed :
    (max : ℕ) (text : Bytes) (n : ℕ)
    → Digits text n
    → n ≤ max
    → parse_signed max text ≡ some (pos n)
unfolding parse_signed
Digits-parse_signed max [] n d le = absurd (d.0 refl)
Digits-parse_signed max (c ∷ cs) n d le =
    let digit : (c == b'-') ≡ false = ground arith in
    rw (digit, Digits-parse_unsigned max (c ∷ cs) d le) refl

minus-parse_signed :
    (max : ℕ) (ds : Bytes) (n : ℕ)
    → Digits ds n
    → n ≤ max + 1
    → parse_signed max (b'-' ∷ ds) ≡ some (negate n)
unfolding parse_signed
minus-parse_signed max ds n d le = rw (Digits-parse_unsigned (max + 1) ds d le) refl

Numeral-parse_signed :
    (max : ℕ) (text : Bytes) (v : ℤ)
    → Numeral text v
    → Within max v
    → parse_signed max text ≡ some v
Numeral-parse_signed max text v (inl (n, d, same)) w =
    let within : Within max (pos n) = rw same at w in
    rw same (Digits-parse_signed max text n d (omega arith))
Numeral-parse_signed max text v (inr (ds, n, e, d, same)) w =
    let within : Within max (negate n) = rw same at w in
    rw (e, same) (minus-parse_signed max ds n d (negate_le max n within))

-- `ParseInt64` reads exactly the decimal numerals in range, each as its positional value: one digit or more, leading zeros
-- included, with a minus or no sign ahead and nothing behind, worth -2^63 to 2^63 - 1. Every other text is refused.
pub parse_int64-Numeral :
    (text : Bytes) (v : ℤ) → (parse_int64 text ≡ some v) ↔ (Numeral text v × Within int64_max v)
unfolding parse_int64
parse_int64-Numeral text v = (
  (λ h. (parse_signed-Numeral int64_max text h, parse_int64-Within text h)),
  (λ h. Numeral-parse_signed int64_max text v (h.0) (h.1)),
)

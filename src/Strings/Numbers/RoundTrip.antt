-- ===== src/Strings/Numbers/RoundTrip.antt =====
-- Decimal text and back: what `to_string` prints, the parsers read.
use voltmod.Strings.Numbers.{
  is_digit, digits_value, parse_unsigned, parse_uint64, digits_of, to_string, uint64_max,
}
use voltmod.Common.{
  ℕ, zero, suc, ◌+◌, ◌-◌, ◌*◌, ◌/◌, ◌%◌, ◌≤◌, ◌<◌, ◌≡◌, refl, ap, ◌∙◌, inl, inr, Option, none, some,
  [], ◌∷◌, ◌++◌, arith, ltb, ltb→lt, Bool-cases, All, All-append, Bytes,
}

abbrev bind : Option ℕ → (ℕ → Option ℕ) → Option ℕ
bind none f = none
bind (some a) f = f a

digits_value-append :
    (acc : ℕ) (xs ys : Bytes)
    → digits_value acc (xs ++ ys) ≡ bind (digits_value acc xs) (λ a. digits_value a ys)
unfolding digits_value
digits_value-append acc [] ys = refl
digits_value-append acc (x ∷ xs) ys = elim (Bool-cases (is_digit x)) [
  | inl e ↦ rw e (digits_value-append (acc * 10 + (x - b'0')) xs ys)
  | inr e ↦ rw e
]

digit_value : (acc d : ℕ) → d < 10 → digits_value acc ((d + b'0') ∷ []) ≡ some (acc * 10 + d)
unfolding digits_value
digit_value acc d h = ground arith

digits_value-digits_of : (fuel n : ℕ) → n < fuel → digits_value 0 (digits_of fuel n) ≡ some n
unfolding digits_of
digits_value-digits_of zero n h = elim h [ ]
digits_value-digits_of (suc fuel) n h = elim (Bool-cases (ltb n 10)) [
  | inl e ↦ rw e (digit_value 0 n (ltb→lt n 10 e) ∙ ap some (omega arith))
  | inr e ↦
      rw
        (
          e,
          digits_value-append 0 (digits_of fuel (n / 10)) ((n % 10 + b'0') ∷ []),
          digits_value-digits_of fuel (n / 10) (ground arith),
        )
        (digit_value (n / 10) (n % 10) (omega arith) ∙ ap some (omega arith))
]

pub digits_value-to_string : (n : ℕ) → digits_value 0 (to_string n) ≡ some n
unfolding to_string
digits_value-to_string n = digits_value-digits_of (suc n) n (omega arith)

-- What is printed is one or more digits.
abbrev pub Digit : ℕ → Type 0
Digit c = (b'0' ≤ c) × (c ≤ b'9')

pub digits_of-Digit : (fuel n : ℕ) → All Digit (digits_of fuel n)
unfolding digits_of
digits_of-Digit zero n = tt
digits_of-Digit (suc fuel) n = elim (Bool-cases (ltb n 10)) [
  | inl e ↦ rw e ((omega arith, omega (arith, ltb→lt n 10 e)), tt)
  | inr e ↦ rw e (
      All-append Digit (digits_of fuel (n / 10)) ((n % 10 + b'0') ∷ [])
        (digits_of-Digit fuel (n / 10)) ((omega arith, omega arith), tt))
]

pub to_string-Digit : (n : ℕ) → All Digit (to_string n)
unfolding to_string
to_string-Digit n = digits_of-Digit (suc n) n

cons_of_append : (xs : Bytes) (y : ℕ) → (d : ℕ) × (ds : Bytes) × (xs ++ y ∷ [] ≡ d ∷ ds)
cons_of_append [] y = (y, [], refl)
cons_of_append (x ∷ xs) y = (x, xs ++ y ∷ [], refl)

pub to_string-cons : (n : ℕ) → (d : ℕ) × (ds : Bytes) × (to_string n ≡ d ∷ ds)
unfolding to_string digits_of
to_string-cons n = elim (Bool-cases (ltb n 10)) [
  | inl e ↦ (n + b'0', [], rw e)
  | inr e ↦ rw e (cons_of_append (digits_of n (n / 10)) (n % 10 + b'0'))
]

parse_of_value :
    (max n : ℕ) (t : Bytes) {d : ℕ} {ds : Bytes}
    → t ≡ d ∷ ds
    → digits_value 0 t ≡ some n
    → n ≤ max
    → parse_unsigned max t ≡ some n
unfolding parse_unsigned
parse_of_value max n t e v h = ground arith

pub parse_unsigned-to_string : (max n : ℕ) → n ≤ max → parse_unsigned max (to_string n) ≡ some n
parse_unsigned-to_string max n h =
    let (d, ds, e) = to_string-cons n in
    parse_of_value max n (to_string n) e (digits_value-to_string n) h

pub parse_uint64-to_string : (n : ℕ) → n ≤ uint64_max → parse_uint64 (to_string n) ≡ some n
unfolding parse_uint64
parse_uint64-to_string n h = parse_unsigned-to_string uint64_max n h

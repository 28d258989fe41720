-- ===== src/Strings/Numbers/Range.antt =====
-- The numbers that `ParseInt64` and `ParseUInt64` of src/Core/Text/Strings.cpp give.
use voltmod.Strings.Numbers.{
  digits_value, at_most, parse_unsigned, uint64_max, int64_max, parse_uint64, negate, as_pos,
  as_neg, parse_signed, parse_int64,
}
use voltmod.Common.{
  ℕ, zero, suc, ◌+◌, ◌≤◌, ◌≡◌, refl, sym, inl, inr, Option, none, some, [], ◌∷◌, arith, ◌==◌,
  Bool-cases, ℤ, pos, negsuc, ◌≤ℤ◌, Bytes,
}

at_most_le : (max : ℕ) (o : Option ℕ) {n : ℕ} → at_most max o ≡ some n → n ≤ max
at_most_le max none h = cc
at_most_le max (some m) h = ground arith

parse_unsigned_le : (max : ℕ) (text : Bytes) {n : ℕ} → parse_unsigned max text ≡ some n → n ≤ max
unfolding parse_unsigned
parse_unsigned_le max [] h = cc
parse_unsigned_le max (c ∷ cs) h = at_most_le max (digits_value 0 (c ∷ cs)) h

-- Between `- max - 1` and `max`.
abbrev pub Within : ℕ → ℤ → Type 0
Within max v = (negsuc max ≤ℤ v) × (v ≤ℤ pos max)

some-injective : {A : Type 0} → {a b : A} → some a ≡ some b → a ≡ b
some-injective h = cc

as_pos-Within :
    (max : ℕ) (o : Option ℕ) {v : ℤ}
    → ((n : ℕ) → o ≡ some n → n ≤ max)
    → as_pos o ≡ some v
    → Within max v
as_pos-Within max none h e = cc
as_pos-Within max (some n) h e =
    let le = h n refl in let same = some-injective e in rw (sym same) (omega arith, omega arith)

negate-Within : (max n : ℕ) → n ≤ max + 1 → Within max (negate n)
negate-Within max zero h = (omega arith, omega arith)
negate-Within max (suc n) h = (omega arith, omega arith)

as_neg-Within :
    (max : ℕ) (o : Option ℕ) {v : ℤ}
    → ((n : ℕ) → o ≡ some n → n ≤ max + 1)
    → as_neg o ≡ some v
    → Within max v
as_neg-Within max none h e = cc
as_neg-Within max (some n) h e =
    let same = some-injective e in rw (sym same) (negate-Within max n (h n refl))

parse_signed-Within :
    (max : ℕ) (text : Bytes) {v : ℤ} → parse_signed max text ≡ some v → Within max v
unfolding parse_signed
parse_signed-Within max [] h = cc
parse_signed-Within max (c ∷ cs) {v} h = elim (Bool-cases (c == b'-')) [
  | inl e ↦
      as_neg-Within max (parse_unsigned (max + 1) cs) (λ n q. parse_unsigned_le (max + 1) cs q)
        (simp e at h)
  | inr e ↦
      as_pos-Within max (parse_unsigned max (c ∷ cs)) (λ n q. parse_unsigned_le max (c ∷ cs) q)
        (simp e at h)
]

pub parse_int64-Within : (text : Bytes) {v : ℤ} → parse_int64 text ≡ some v → Within int64_max v
unfolding parse_int64
parse_int64-Within text h = parse_signed-Within int64_max text h

pub parse_uint64_le : (text : Bytes) {n : ℕ} → parse_uint64 text ≡ some n → n ≤ uint64_max
unfolding parse_uint64
parse_uint64_le text h = parse_unsigned_le uint64_max text h

-- ===== src/Strings/Duration.antt =====
-- `ParseDuration`, the grammar of durations such as `90`, `30m` and `2w`.
use voltmod.Strings.Chars.{to_lower, trim, is_empty, split_last}
use voltmod.Strings.Numbers.{is_digit, parse_signed, int_max}
use voltmod.Common.{
  ℕ, ◌*◌, ◌≤◌, ◌≡◌, refl, ◌⊎◌, inl, inr, Bool, ◌||◌, Option, none, some, arith, ltb, ◌==◌,
  if◌then◌else◌, Bool-cases, Option-cases, ℤ, pos, negsuc, Bytes, bytes, text_eq,
}

-- The `switch` on the suffix: the unit's seconds.
unfoldable pub unit_seconds : ℕ → Option ℕ
unit_seconds suffix =
    if suffix == b's'
    then some 1
    else if suffix == b'm'
    then some 60
    else if suffix == b'h'
    then some 3600
    else if suffix == b'd'
    then some 86400
    else if suffix == b'w'
    then some 604800
    else none

-- -1.
abbrev pub failed : ℤ
failed = negsuc 0

-- A value below zero fails, as does a total above `INT_MAX`.
unfoldable pub scaled : ℕ → Option ℤ → ℤ
scaled multiplier none = failed
scaled multiplier (some (negsuc n)) = failed
scaled multiplier (some (pos n)) =
    if ltb int_max (n * multiplier) then failed else pos (n * multiplier)

-- From the last byte on: the number before a unit suffix, or the whole text.
unfoldable pub parse_amount : Bytes → Bytes × ℕ → ℤ
unfolding unit_seconds scaled parse_signed
parse_amount lower (front, suffix) =
    if is_digit suffix then scaled 1 (parse_signed int_max lower) else elim (unit_seconds suffix) [
      | none ↦ failed
      | some multiplier ↦ scaled multiplier (parse_signed int_max front)
    ]

abbrev pub is_permanent : Bytes → Bool
is_permanent lower =
    text_eq lower (bytes "0") || (text_eq lower (bytes "perm") || text_eq lower (bytes "permanent"))

unfoldable pub parse_lower : Bytes → ℤ
unfolding split_last parse_amount
parse_lower lower =
    if is_permanent lower
    then pos 0
    else elim (split_last lower) [ none ↦ failed | some parts ↦ parse_amount lower parts ]

unfoldable pub parse_duration : Bytes → ℤ
unfolding trim to_lower parse_lower
parse_duration text =
    let trimmed = trim text in if is_empty trimmed then failed else parse_lower (to_lower trimmed)

-- A duration is -1, or a number of seconds that an `int` holds.
abbrev pub IsDuration : ℤ → Type 0
IsDuration d = (d ≡ failed) ⊎ ((n : ℕ) × (d ≡ pos n) × (n ≤ int_max))

scaled-IsDuration : (multiplier : ℕ) (value : Option ℤ) → IsDuration (scaled multiplier value)
unfolding scaled
scaled-IsDuration m none = inl refl
scaled-IsDuration m (some (negsuc n)) = inl refl
scaled-IsDuration m (some (pos n)) = elim (Bool-cases (ltb int_max (n * m))) [
  | inl e ↦ rw e (inl refl)
  | inr e ↦ rw e (inr (n * m, refl, ground arith))
]

parse_amount-IsDuration :
    (lower : Bytes) (parts : Bytes × ℕ) → IsDuration (parse_amount lower parts)
unfolding parse_amount
parse_amount-IsDuration lower (front, suffix) = elim (Bool-cases (is_digit suffix)) [
  | inl e ↦ rw e (scaled-IsDuration 1 (parse_signed int_max lower))
  | inr e ↦ elim (Option-cases (unit_seconds suffix)) [
    | inl u ↦ rw (e, u) (inl refl)
    | inr (m, u) ↦ rw (e, u) (scaled-IsDuration m (parse_signed int_max front))
  ]
]

parse_lower-IsDuration : (lower : Bytes) → IsDuration (parse_lower lower)
unfolding parse_lower
parse_lower-IsDuration lower = elim (Bool-cases (is_permanent lower)) [
  | inl e ↦ rw e (inr (0, refl, omega arith))
  | inr e ↦ elim (Option-cases (split_last lower)) [
    | inl u ↦ rw (e, u) (inl refl)
    | inr (parts, u) ↦ rw (e, u) (parse_amount-IsDuration lower parts)
  ]
]

-- Whatever the text, the result is -1 or seconds between 0 and `INT_MAX`.
pub parse_duration-IsDuration : (text : Bytes) → IsDuration (parse_duration text)
unfolding parse_duration
parse_duration-IsDuration text = elim (Bool-cases (is_empty (trim text))) [
  | inl e ↦ rw e (inl refl)
  | inr e ↦ rw e (parse_lower-IsDuration (to_lower (trim text)))
]

-- ===== src/Strings/Chars.antt =====
-- Bytes and whole texts: `ToLower`, `Trim`, `StartsWith`, `ContainsIgnoreCase`, `IsNumeric`, in the C
-- locale.
use voltmod.Strings.Numbers.{is_digit}
use voltmod.Common.{
  ℕ, ◌+◌, ◌≡◌, refl, inl, inr, Bool, true, false, ◌&&◌, ◌||◌, Option, none, some, List, [], ◌∷◌,
  ◌++◌, map, arith, leb, ◌==◌, if◌then◌else◌, Bool-cases, all, Bytes, starts_with,
}

-- `std::tolower`.
abbrev pub lower_char : ℕ → ℕ
lower_char c = if leb b'A' c && leb c b'Z' then c + 32 else c

-- `Strings::ToLower`.
unfoldable pub to_lower : Bytes → Bytes
to_lower str = map lower_char str

-- `std::isspace`: the space, and tab to carriage return.
abbrev pub is_space : ℕ → Bool
is_space c = (c == 32) || (leb 9 c && leb c 13)

-- Off the front while it is white space.
unfoldable pub trim_front : Bytes → Bytes
trim_front [] = []
trim_front (c ∷ cs) = if is_space c then trim_front cs else c ∷ cs

abbrev pub is_empty {ℓ} : {A : Type ℓ} → List A → Bool
is_empty [] = true
is_empty (x ∷ xs) = false

-- Off the back while it is white space.
unfoldable pub trim_back : Bytes → Bytes
trim_back [] = []
trim_back (c ∷ cs) = let rest = trim_back cs in if is_space c && is_empty rest then [] else c ∷ rest

-- `Strings::Trim`.
unfoldable pub trim : Bytes → Bytes
unfolding trim_front trim_back
trim str = trim_back (trim_front str)

-- `text.find(needle) != npos`, the needle first.
unfoldable pub has_sub : Bytes → Bytes → Bool
has_sub needle [] = starts_with needle []
has_sub needle (c ∷ cs) = starts_with needle (c ∷ cs) || has_sub needle cs

-- `Strings::ContainsIgnoreCase`.
unfoldable pub contains_ignore_case : Bytes → Bytes → Bool
unfolding has_sub to_lower
contains_ignore_case str substr = has_sub (to_lower substr) (to_lower str)

-- `Strings::IsNumeric`.
unfoldable pub is_numeric : Bytes → Bool
is_numeric [] = false
is_numeric (c ∷ cs) = all is_digit (c ∷ cs)

-- The last byte, where there is one, and the text without it.
unfoldable pub split_last : Bytes → Option (Bytes × ℕ)
split_last [] = none
split_last (c ∷ cs) = elim (split_last cs) [ none ↦ some ([], c) | some (ds, d) ↦ some (c ∷ ds, d) ]

pub split_last-append : (cs : Bytes) (c : ℕ) → split_last (cs ++ c ∷ []) ≡ some (cs, c)
unfolding split_last
split_last-append [] c = refl
split_last-append (d ∷ cs) c = rw (split_last-append cs c)

pub trim_back-append :
    (cs : Bytes) (c : ℕ) → is_space c ≡ false → trim_back (cs ++ c ∷ []) ≡ cs ++ c ∷ []
unfolding trim_back
trim_back-append [] c h = rw h
trim_back-append (d ∷ []) c h = ground arith
trim_back-append (d ∷ e ∷ cs) c h = rw (trim_back-append (e ∷ cs) c h) (ground arith)

-- No white space at the front, nor at the back.
abbrev pub Starts : (ℕ → Type 0) → Bytes → Type 0
Starts P [] = Unit {0}
Starts P (c ∷ cs) = P c

trim_back-Starts : (P : ℕ → Type 0) (cs : Bytes) → Starts P cs → Starts P (trim_back cs)
unfolding trim_back
trim_back-Starts P [] h = tt
trim_back-Starts P (c ∷ cs) h = ground arith

trim_front-Starts : (cs : Bytes) → Starts (λ c. is_space c ≡ false) (trim_front cs)
unfolding trim_front
trim_front-Starts [] = tt
trim_front-Starts (c ∷ cs) = ground (arith, trim_front-Starts cs)

abbrev pub Ends : (ℕ → Type 0) → Bytes → Type 0
Ends P [] = Unit {0}
Ends P (c ∷ []) = P c
Ends P (c ∷ d ∷ cs) = Ends P (d ∷ cs)

Ends-cons :
    (P : ℕ → Type 0) (c : ℕ) (cs : Bytes) → Ends P cs → (is_empty cs ≡ true → P c) → Ends P (c ∷ cs)
Ends-cons P c [] h k = k refl
Ends-cons P c (d ∷ cs) h k = h

trim_back-Ends : (cs : Bytes) → Ends (λ c. is_space c ≡ false) (trim_back cs)
unfolding trim_back
trim_back-Ends [] = tt
trim_back-Ends (c ∷ cs) = elim (Bool-cases (is_space c && is_empty (trim_back cs))) [
  | inl e ↦ rw e tt
  | inr e ↦
      rw e (
        Ends-cons (λ d. is_space d ≡ false) c (trim_back cs) (trim_back-Ends cs)
          (λ k. ground arith))
]

-- What is trimmed neither starts nor ends with white space.
pub trim_bounds :
    (str : Bytes)
    → Starts (λ c. is_space c ≡ false) (trim str) × Ends (λ c. is_space c ≡ false) (trim str)
unfolding trim
trim_bounds str = (
  trim_back-Starts (λ c. is_space c ≡ false) (trim_front str) (trim_front-Starts str),
  trim_back-Ends (trim_front str),
)

trim_front_id : (cs : Bytes) → Starts (λ c. is_space c ≡ false) cs → trim_front cs ≡ cs
unfolding trim_front
trim_front_id [] h = refl
trim_front_id (c ∷ cs) h = rw h

trim_back_id : (cs : Bytes) → Ends (λ c. is_space c ≡ false) cs → trim_back cs ≡ cs
unfolding trim_back
trim_back_id [] h = refl
trim_back_id (c ∷ []) h = rw h
trim_back_id (c ∷ d ∷ cs) h = rw (trim_back_id (d ∷ cs) h) (ground arith)

-- A text that neither starts nor ends with white space is its own trim.
pub trim_id :
    (str : Bytes)
    → Starts (λ c. is_space c ≡ false) str
    → Ends (λ c. is_space c ≡ false) str
    → trim str ≡ str
unfolding trim
trim_id str s e = rw (trim_front_id str s) (trim_back_id str e)

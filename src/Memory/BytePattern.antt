-- ===== src/Memory/BytePattern.antt =====
-- src/Engine/Memory/BytePattern.cpp: patterns like `48 8B ? ? 05` and their first match in a buffer.
-- The buffer is the list of its bytes, an address in it an offset. A read at an offset past the end
-- never happens, and would give 0.
pub mod Search
pub mod Anchor
use voltmod.Strings.Chars.{is_space, is_empty}
use voltmod.Strings.Numbers.{is_digit, at_most, uint32_max}
use voltmod.Common.{
  ℕ, zero, suc, ◌+◌, ◌-◌, ◌*◌, ◌/◌, ◌%◌, ◌^◌, ◌≤◌, ◌<◌, ◌≡◌, refl, sym, ap, ◌∙◌, ◌≢◌, ◌↔◌, ◌⊎◌, inl,
  inr, Bool, true, false, not, ◌&&◌, ◌||◌, Option, none, some, List, [], ◌∷◌, ◌++◌, map, arith, ltb,
  leb, ◌==◌, if◌then◌else◌, ltb→lt, lt→ltb, leb→le, ==_iff, tests, Bool-cases, Option-cases,
  List-cases, drop_nil, length, get_elem?, set, length-append, get_or, take, drop, replicate,
  take-append-drop, length-take, length-drop, length-map, take_of_length-le, keep, any, all,
  find_if, All, All-append, All-keep, All-keep_self, All-map, all_mono, All-keep_both, All-Mem,
  get_elem?_lt, All-get_elem?, contains, ℤ, pos, negsuc, pos_part, neg_part, sub_ℕ, ◌+ℤ◌, ◌-ℤ◌,
  ◌≤ℤ◌, ltb_ℤ, leb_ℤ, eqb_ℤ, eqb_ℤ_iff, ℤ_discrete, Bytes, bytes, text_eq, text_eq_to, text_eq_refl,
  starts_with, starts_with-append, find_key, put_key, erase_key, find_key-put_key,
  find_key-erase_key,
}

pub record PatternByte : Type 0 where
  pub value : ℕ
  pub wildcard : Bool

-- The words between white space, as `stream >> token` yields them: the word being read, and the rest.
pub tokens_from : Bytes → Bytes → List Bytes
tokens_from word [] = if is_empty word then [] else word ∷ []
tokens_from word (c ∷ cs) =
    let rest = tokens_from (if is_space c then [] else word ++ c ∷ []) cs in
    if is_space c then (if is_empty word then rest else word ∷ rest) else rest

-- A digit of `from_chars` in base 16.
abbrev pub hex_digit : ℕ → Option ℕ
hex_digit c =
    if is_digit c
    then some (c - b'0')
    else if leb b'a' c && leb c b'f'
    then some (c - b'a' + 10)
    else if leb b'A' c && leb c b'F'
    then some (c - b'A' + 10)
    else none

pub hex_value : ℕ → Bytes → Option ℕ
hex_value acc [] = some acc
hex_value acc (c ∷ cs) = elim (hex_digit c) [ none ↦ none | some d ↦ hex_value (acc * 16 + d) cs ]

-- `from_chars` into an `unsigned` in base 16, where the whole token has to be read.
pub parse_hex : Bytes → Option ℕ
unfolding hex_value
parse_hex [] = none
parse_hex (c ∷ cs) = at_most uint32_max (hex_value 0 (c ∷ cs))

abbrev pub is_wild : Bytes → Bool
is_wild token = text_eq token (bytes "?") || text_eq token (bytes "??")

abbrev pub as_byte : Option ℕ → Option PatternByte
as_byte none = none
as_byte (some n) = if ltb 255 n then none else some (record { value = n; wildcard = false })

-- One token: a wildcard, a byte, or `none` for a bad one.
pub parse_token : Bytes → Option PatternByte
unfolding parse_hex
parse_token token =
    if is_wild token
    then some (record { value = 0; wildcard = true })
    else as_byte (parse_hex token)

-- The loop of `ParsePattern` and the bytes so far: a bad token empties the pattern.
pub parse_tokens : List PatternByte → List Bytes → List PatternByte
unfolding parse_token
parse_tokens done [] = done
parse_tokens done (token ∷ tokens) = elim (parse_token token) [
  | none ↦ []
  | some b ↦ parse_tokens (done ++ b ∷ []) tokens
]

unfoldable pub parse_pattern : Bytes → List PatternByte
unfolding tokens_from parse_tokens
parse_pattern pattern = parse_tokens [] (tokens_from [] pattern)

-- A histogram: how often each byte value occurs.
abbrev pub ByteHistogram : Type 0
ByteHistogram = ℕ → ℕ

unfoldable pub count_bytes : Bytes → ByteHistogram → ByteHistogram
count_bytes [] counts = counts
count_bytes (b ∷ bs) counts = count_bytes bs (λ v. if v == b then counts v + 1 else counts v)

abbrev pub size_max : ℕ
size_max = 2 ^ 64 - 1

-- The loop of `AnchorOf` at index `i`: the count of the rarest byte so far and its index.
pub anchor_loop : List PatternByte → ByteHistogram → ℕ → ℕ → ℕ → ℕ
anchor_loop [] frequencies i rarest anchor = anchor
anchor_loop (p ∷ ps) frequencies i rarest anchor =
    let count = frequencies p.value in
    let better = not p.wildcard && ltb count rarest in
    anchor_loop ps frequencies (i + 1) (if better then count else rarest)
      (if better then i else anchor)

unfoldable pub anchor_of : List PatternByte → ByteHistogram → ℕ
unfolding anchor_loop
anchor_of pattern frequencies = anchor_loop pattern frequencies 0 size_max (length pattern)

-- `Matches`, at the offset `at`.
unfoldable pub matches : Bytes → ℕ → List PatternByte → Bool
matches memory at [] = true
matches memory at (p ∷ ps) =
    (p.wildcard || (get_or memory at 0 == p.value)) && matches memory (at + 1) ps

-- `memchr` over `n` bytes from the offset `at`.
unfoldable pub memchr : Bytes → ℕ → ℕ → ℕ → Option ℕ
memchr memory at wanted zero = none
memchr memory at wanted (suc n) =
    if get_or memory at 0 == wanted then some at else memchr memory (at + 1) wanted n

-- The loop of `FindFirst`, on fuel: `at` grows by one at least each round.
unfoldable pub find_loop : ℕ → Bytes → List PatternByte → ℕ → ℕ → ℕ → ℕ → Option ℕ
find_loop zero memory pattern anchor wanted last at = none
find_loop (suc fuel) memory pattern anchor wanted last at =
    if ltb last at then none else elim (memchr memory (at + anchor) wanted (last - at + 1)) [
      | none ↦ none
      | some found ↦
          let rest = find_loop fuel memory pattern anchor wanted last (found - anchor + 1) in
          if matches memory (found - anchor) pattern then some (found - anchor) else rest
    ]

abbrev pub value_at : List PatternByte → ℕ → ℕ
value_at pattern i = elim (get_elem? pattern i) [ none ↦ 0 | some p ↦ p.value ]

-- `none` for the buffer is the null pointer.
unfoldable pub find_first : Option Bytes → List PatternByte → ℕ → Option ℕ
find_first none pattern anchor = none
find_first (some memory) pattern anchor =
    if is_empty pattern || ltb (length memory) (length pattern)
    then none
    else if leb (length pattern) anchor
    then some 0
    else find_loop (length memory - length pattern + 1) memory pattern anchor
        (value_at pattern anchor) (length memory - length pattern) 0

-- ===== src/Slots/SteamId.antt =====
-- src/Core/Slots/SteamId.cpp: a player's 64-bit id and its two textual forms.
pub mod RoundTrip
use voltmod.Strings.Numbers.{to_string, parse_unsigned, uint32_max}
use voltmod.Strings.Chars.{split_last}
use voltmod.Common.{
  ℕ, ◌+◌, ◌-◌, ◌*◌, ◌/◌, ◌%◌, ◌^◌, Bool, not, ◌&&◌, ◌||◌, Option, none, some, [], ◌∷◌, ◌++◌, ltb,
  leb, ◌==◌, if◌then◌else◌, length, get_or, drop, ℤ, pos, negsuc, ◌-ℤ◌, ltb_ℤ, leb_ℤ, Bytes, bytes,
  starts_with,
}

abbrev pub steam_id64_base : ℕ
steam_id64_base = 76561197960265728

-- `IsValid`.
abbrev pub is_valid : ℤ → Bool
is_valid steam_id64 =
    leb_ℤ (pos steam_id64_base) steam_id64 && ltb_ℤ steam_id64 (pos (steam_id64_base + 2 ^ 32))

-- The low 32 bits of a 64-bit difference: the cast to `uint32_t`.
abbrev pub low32 : ℤ → ℕ
low32 (pos n) = n % 2 ^ 32
low32 (negsuc n) = 2 ^ 32 - 1 - n % 2 ^ 32

pub get_account_id : ℤ → ℕ
unfolding ◌-ℤ◌
get_account_id steam_id64 = low32 (steam_id64 -ℤ pos steam_id64_base)

abbrev pub prefix3 : Bytes
prefix3 = bytes "[U:1:"

pub to_steam_id3 : ℤ → Bytes
unfolding get_account_id
to_steam_id3 steam_id64 = prefix3 ++ to_string (get_account_id steam_id64) ++ b']' ∷ []

pub to_steam_id : ℤ → Bytes
unfolding get_account_id
to_steam_id steam_id64 =
    let account = get_account_id steam_id64 in
    bytes "STEAM_0:" ++ to_string (account % 2) ++ b':' ∷ to_string (account / 2)

abbrev with_base : Option ℕ → Option ℤ
with_base none = none
with_base (some account) = some (pos (steam_id64_base + account))

-- The digits of a SteamID3: what stands behind the prefix, less the closing bracket.
abbrev between_brackets : Bytes → Option Bytes
between_brackets rest = elim (split_last rest) [
  | none ↦ none
  | some (digits, last) ↦ if last == b']' then some digits else none
]

unfoldable pub from_steam_id3 : Bytes → Option ℤ
unfolding parse_unsigned split_last
from_steam_id3 text =
    if not (starts_with prefix3 text) || leb (length text) (length prefix3 + 1)
    then none
    else elim (between_brackets (drop (length prefix3) text)) [
      | none ↦ none
      | some digits ↦ with_base (parse_unsigned uint32_max digits)
    ]

abbrev pub prefix2 : Bytes
prefix2 = bytes "STEAM_"

-- `universe`, `auth` and the two colons.
abbrev is_shape : Bytes → Bool
is_shape text =
    let universe = get_or text 6 0 in
    let auth = get_or text 8 0 in
    leb b'0' universe
    && (leb universe b'5'
        && (leb b'0' auth
            && (leb auth b'1' && ((get_or text 7 0 == b':') && (get_or text 9 0 == b':')))))

-- `accountNum * 2 + (auth - '0')`, in 32 bits.
abbrev pub account_of : ℕ → ℕ → ℕ
account_of auth number = (number * 2 + (auth - b'0')) % 2 ^ 32

unfoldable pub from_steam_id : Bytes → Option ℤ
unfolding parse_unsigned
from_steam_id text =
    if not (starts_with prefix2 text) || ltb (length text) (length prefix2 + 4)
    then none
    else if not (is_shape text)
    then none
    else elim (parse_unsigned uint32_max (drop 10 text)) [
      | none ↦ none
      | some number ↦ with_base (some (account_of (get_or text 8 0) number))
    ]

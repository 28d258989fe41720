-- ===== src/Slots/SteamId/RoundTrip.antt =====
-- The textual forms of a SteamID against its value.
use voltmod.Strings.Numbers.{to_string, parse_unsigned, uint32_max}
use voltmod.Strings.Numbers.RoundTrip.{parse_unsigned-to_string, to_string-cons}
use voltmod.Strings.Chars.{split_last-append}
use voltmod.Slots.SteamId.{
  steam_id64_base, is_valid, get_account_id, prefix3, to_steam_id3, to_steam_id, from_steam_id3,
  from_steam_id, with_base,
}
use voltmod.Common.{
  ℕ, ◌+◌, ◌*◌, ◌/◌, ◌%◌, ◌^◌, ◌≤◌, ◌<◌, ◌≡◌, refl, sym, ap, ◌∙◌, true, Option, none, some, [], ◌∷◌,
  ◌++◌, arith, length, length-append, drop, ℤ, pos, negsuc, Bytes, bytes,
}

length-to_string : (n : ℕ) → 1 ≤ length (to_string n)
length-to_string n = let (d, ds, e) = to_string-cons n in rw e (omega arith)

account_of_valid :
    (n : ℕ)
    → is_valid (pos n) ≡ true
    → (get_account_id (pos n) ≤ uint32_max) × (steam_id64_base + get_account_id (pos n) ≡ n)
unfolding get_account_id
account_of_valid n h = ground arith

from_account3 :
    (a : ℕ)
    → a ≤ uint32_max
    → from_steam_id3 (prefix3 ++ to_string a ++ b']' ∷ []) ≡ some (pos (steam_id64_base + a))
unfolding from_steam_id3
from_account3 a h =
    let digits = to_string a in
    let closed = split_last-append digits b']' in
    let parsed = parse_unsigned-to_string uint32_max a h in
    ground (arith, length-to_string a, length-append digits (b']' ∷ []), closed, parsed)

-- A valid id, written as a SteamID3, is read back.
pub from_steam_id3-to_steam_id3 :
    (id : ℤ) → is_valid id ≡ true → from_steam_id3 (to_steam_id3 id) ≡ some id
unfolding to_steam_id3
from_steam_id3-to_steam_id3 (pos n) h =
    let (small, e) = account_of_valid n h in
    from_account3 (get_account_id (pos n)) small ∙ ap (λ k. some (pos k)) e
from_steam_id3-to_steam_id3 (negsuc n) h = ground arith

from_number :
    (auth number : ℕ)
    → auth < 2
    → number ≤ uint32_max
    → from_steam_id (bytes "STEAM_0:" ++ (auth + b'0') ∷ b':' ∷ to_string number)
      ≡ some (pos (steam_id64_base + (number * 2 + auth) % 2 ^ 32))
unfolding from_steam_id
from_number auth number b h =
    let parsed = parse_unsigned-to_string uint32_max number h in
    ground (arith, length-to_string number, parsed)

to_string_bit : (b : ℕ) → b < 2 → to_string b ≡ (b + b'0') ∷ []
unfolding to_string
to_string_bit b h = ground arith

-- A valid id, written as a SteamID2, is read back.
pub from_steam_id-to_steam_id :
    (id : ℤ) → is_valid id ≡ true → from_steam_id (to_steam_id id) ≡ some id
unfolding to_steam_id
from_steam_id-to_steam_id (pos n) h =
    let (small, e) = account_of_valid n h in
    let a = get_account_id (pos n) in
    rw (to_string_bit (a % 2) (omega arith)) (
      from_number (a % 2) (a / 2) (omega arith) (omega arith)
      ∙ ap (λ k. some (pos k)) (omega arith))
from_steam_id-to_steam_id (negsuc n) h = ground arith

-- An account number of 2^31 or more is not refused: its double wraps round in 32 bits, and the text
-- is read as the id of the account number 2^31 below.
pub from_steam_id_wraps :
    (auth number : ℕ)
    → auth < 2
    → number < 2 ^ 31
    → from_steam_id (bytes "STEAM_0:" ++ (auth + b'0') ∷ b':' ∷ to_string (number + 2 ^ 31))
      ≡ from_steam_id (bytes "STEAM_0:" ++ (auth + b'0') ∷ b':' ∷ to_string number)
from_steam_id_wraps auth number b h =
    from_number auth (number + 2 ^ 31) b (omega arith)
    ∙ ap (λ k. some (pos (steam_id64_base + k))) (omega arith)
    ∙ sym (from_number auth number b (omega arith))

with_base_valid :
    (o : Option ℕ) (id : ℤ)
    → ((n : ℕ) → o ≡ some n → n < 2 ^ 32)
    → with_base o ≡ some id
    → is_valid id ≡ true
with_base_valid none id h e = ground arith
with_base_valid (some n) id h e = let small = h n refl in ground arith

parse_unsigned-le : (max : ℕ) (t : Bytes) (n : ℕ) → parse_unsigned max t ≡ some n → n ≤ max
unfolding parse_unsigned
parse_unsigned-le max [] n h = ground arith
parse_unsigned-le max (c ∷ cs) n h = ground arith

-- Whatever text it is given, `FromSteamId` returns a valid id if it returns one.
pub from_steam_id-is_valid :
    (text : Bytes) (id : ℤ) → from_steam_id text ≡ some id → is_valid id ≡ true
unfolding from_steam_id
from_steam_id-is_valid text id h = grind (arith, parse_unsigned-le uint32_max (drop 10 text))

-- So does `FromSteamId3`.
pub from_steam_id3-is_valid :
    (text : Bytes) (id : ℤ) → from_steam_id3 text ≡ some id → is_valid id ≡ true
unfolding from_steam_id3
from_steam_id3-is_valid text id h = grind (arith, parse_unsigned-le uint32_max)

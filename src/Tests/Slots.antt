-- ===== src/Tests/Slots.antt =====
-- SteamIDs.
use voltmod.Strings.Numbers.{digits_value}
use voltmod.Strings.Numbers.{to_string}
use voltmod.Slots.SteamId.{is_valid, to_steam_id, from_steam_id3, from_steam_id}
use voltmod.Slots.SteamId.RoundTrip.{
  from_steam_id-to_steam_id, from_steam_id_wraps, from_steam_id3-is_valid,
}
use voltmod.Common.{◌+◌, ◌^◌, ◌≡◌, refl, true, some, ◌∷◌, ◌++◌, arith, ℤ, pos, bytes}

abbrev someone : ℤ
someone = pos 76561197960265735

from_steam_id-to_steam_id_example : from_steam_id (to_steam_id someone) ≡ some someone
from_steam_id-to_steam_id_example = from_steam_id-to_steam_id someone refl

from_steam_id_wraps_example :
    from_steam_id (bytes "STEAM_0:" ++ (1 + b'0') ∷ b':' ∷ to_string (3 + 2 ^ 31))
    ≡ from_steam_id (bytes "STEAM_0:" ++ (1 + b'0') ∷ b':' ∷ to_string 3)
from_steam_id_wraps_example = from_steam_id_wraps 1 3 (omega arith) (omega arith)

parsed : from_steam_id (bytes "STEAM_0:1:3") ≡ some someone
unfolding from_steam_id digits_value
parsed = refl

parsed3 : from_steam_id3 (bytes "[U:1:7]") ≡ some someone
unfolding from_steam_id3 digits_value
parsed3 = refl

from_steam_id3-is_valid_example : is_valid someone ≡ true
from_steam_id3-is_valid_example = from_steam_id3-is_valid (bytes "[U:1:7]") someone parsed3

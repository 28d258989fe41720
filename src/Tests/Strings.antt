-- ===== src/Tests/Strings.antt =====
-- The text helpers.
use voltmod.Strings.Numbers.{digits_value}
use voltmod.Strings.Numbers.{parse_int64}
use voltmod.Strings.Numbers.{parse_signed, parse_unsigned, digits_value, int64_max}
use voltmod.Strings.Numbers.Range.{Within}
use voltmod.Strings.Numbers.Numeral.{Numeral, parse_int64-Numeral}
use voltmod.Strings.Chars.{contains_ignore_case, is_numeric, to_lower, trim}
use voltmod.Strings.Parts.{join_non_empty}
use voltmod.Strings.Markup.{escape_html, IsInert, escape_html-IsInert}
use voltmod.Strings.Cut.{truncate_utf8, IsCut, truncate_utf8-IsCut}
use voltmod.Strings.Duration.{parse_duration, IsDuration, parse_duration-IsDuration}
use voltmod.Common.{
  ℕ, ◌≤◌, ◌<◌, ◌≡◌, refl, ◌↔◌, ◌⊎◌, true, false, none, some, List, [], ◌∷◌, ◌++◌, length, take, All,
  pos, negsuc, Bytes, bytes,
}

parse_int64-Numeral_example :
    (parse_int64 (bytes "-0042") ≡ some (negsuc 41))
    ↔ (Numeral (bytes "-0042") (negsuc 41) × Within int64_max (negsuc 41))
parse_int64-Numeral_example = parse_int64-Numeral (bytes "-0042") (negsuc 41)

abbrev too_large : Bytes
too_large = bytes "9223372036854775808"

out_of_range : parse_int64 too_large ≡ none
unfolding parse_int64 parse_signed parse_unsigned digits_value
out_of_range = refl

not_all_read : parse_int64 (bytes "42x") ≡ none
unfolding parse_int64 parse_signed parse_unsigned digits_value
not_all_read = refl

trim_run : trim (bytes "  a b ") ≡ bytes "a b"
unfolding trim
trim_run = refl

abbrev parts : List Bytes
parts = bytes "reason" ∷ [] ∷ bytes "link" ∷ []

join_run : join_non_empty (bytes ", ") parts ≡ bytes "reason, link"
unfolding join_non_empty
join_run = refl

escape_html-IsInert_example : All IsInert (escape_html (bytes "<b>\"x\"</b>"))
escape_html-IsInert_example = escape_html-IsInert (bytes "<b>\"x\"</b>")

escape_run : escape_html (bytes "<&>") ≡ bytes "&lt;&amp;&gt;"
unfolding escape_html
escape_run = refl

-- Two Cyrillic letters of two bytes each, and a limit in the middle of the second.
abbrev cyrillic : Bytes
cyrillic = 208 ∷ 150 ∷ 208 ∷ 151 ∷ []

truncate_utf8-IsCut_example :
    ((length cyrillic ≤ 3) × (truncate_utf8 cyrillic 3 (bytes "...") ≡ cyrillic))
    ⊎ ((3 < length cyrillic)
        × ((cut : ℕ) × IsCut cyrillic 3 cut
            × (truncate_utf8 cyrillic 3 (bytes "...") ≡ take cut cyrillic ++ bytes "...")))
truncate_utf8-IsCut_example = truncate_utf8-IsCut cyrillic 3 (bytes "...")

truncate_run : truncate_utf8 cyrillic 3 (bytes "...") ≡ 208 ∷ 150 ∷ bytes "..."
unfolding truncate_utf8
truncate_run = refl

parse_duration-IsDuration_example : IsDuration (parse_duration (bytes "30m"))
parse_duration-IsDuration_example = parse_duration-IsDuration (bytes "30m")

duration_run : parse_duration (bytes " 30M ") ≡ pos 1800
unfolding parse_duration digits_value
duration_run = refl

contained : contains_ignore_case (bytes "Dust II") (bytes "ust i") ≡ true
unfolding contains_ignore_case to_lower
contained = refl

numeric : is_numeric (bytes "12a") ≡ false
unfolding is_numeric
numeric = refl

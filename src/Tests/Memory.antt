-- ===== src/Tests/Memory.antt =====
-- Byte patterns.
use voltmod.Memory.BytePattern.{find_loop}
use voltmod.Memory.BytePattern.{memchr}
use voltmod.Memory.BytePattern.{matches}
use voltmod.Memory.BytePattern.{PatternByte, ByteHistogram, find_first, anchor_of, parse_pattern}
use voltmod.Memory.BytePattern.Search.{first_match, find_first-first_match}
use voltmod.Memory.BytePattern.Anchor.{Counted, find_first-anchor_of}
use voltmod.Common.{
  ◌+◌, ◌-◌, ◌≡◌, refl, true, false, some, List, [], ◌∷◌, arith, length, Bytes, bytes,
}

-- `48 ? 05`.
abbrev rex : List PatternByte
rex =
    record { value = 72; wildcard = false }
    ∷ record { value = 0; wildcard = true }
    ∷ record { value = 5; wildcard = false }
    ∷ []

abbrev image : Bytes
image = 72 ∷ 72 ∷ 1 ∷ 5 ∷ 72 ∷ 2 ∷ 5 ∷ []

abbrev flat : ByteHistogram
flat v = 7

flat-Counted : Counted flat
flat-Counted v = omega arith

parse_run : parse_pattern (bytes "48 ?? 05") ≡ rex
unfolding parse_pattern
parse_run = refl

find_run : find_first (some image) rex (anchor_of rex flat) ≡ some 1
unfolding find_first anchor_of matches memchr find_loop
find_run = refl

find_first-anchor_of_example :
    find_first (some image) rex (anchor_of rex flat)
    ≡ first_match image rex (length image - length rex + 1) 0
find_first-anchor_of_example =
    find_first-anchor_of image rex flat flat-Counted (λ e. cc) (omega arith)

find_first-first_match_example :
    find_first (some image) rex 2 ≡ first_match image rex (length image - length rex + 1) 0
find_first-first_match_example =
    find_first-first_match image rex 2 (record { value = 5; wildcard = false }) refl refl
      (omega arith)

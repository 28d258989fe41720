-- ===== src/Strings/Parts.antt =====
-- `Join`, `JoinNonEmpty`, `ReplaceAll` and `SubstituteTokens`.
use voltmod.Strings.Chars.{is_empty}
use mathlib.Core.List.{foldl}
use voltmod.Common.{
  ℕ, zero, suc, ◌-◌, ◌≡◌, refl, Bool, false, not, List, [], ◌∷◌, ◌++◌, arith, if◌then◌else◌, length,
  keep, contains, Bytes, starts_with, starts_with-append,
}

-- The loop of `Strings::Join` over the parts behind the first.
join_onto : Bytes → Bytes → List Bytes → Bytes
join_onto delimiter result [] = result
join_onto delimiter result (part ∷ parts) =
    join_onto delimiter ((result ++ delimiter) ++ part) parts

pub join : Bytes → List Bytes → Bytes
unfolding join_onto
join delimiter [] = []
join delimiter (part ∷ parts) = join_onto delimiter part parts

-- One round of the loop of `Strings::JoinNonEmpty`.
add_part : Bytes → Bytes → Bytes → Bytes
add_part delimiter result part =
    if is_empty part
    then result
    else (if is_empty result then result else result ++ delimiter) ++ part

unfoldable pub join_non_empty : Bytes → List Bytes → Bytes
unfolding add_part
join_non_empty delimiter parts = foldl (add_part delimiter) [] parts

abbrev non_empty : Bytes → Bool
non_empty part = not (is_empty part)

is_empty-append : (xs ys : Bytes) → is_empty ys ≡ false → is_empty (xs ++ ys) ≡ false
is_empty-append [] ys h = h
is_empty-append (x ∷ xs) ys h = refl

add_parts-join_onto :
    (delimiter result : Bytes) (parts : List Bytes)
    → is_empty result ≡ false
    → foldl (add_part delimiter) result parts ≡ join_onto delimiter result (keep non_empty parts)
unfolding add_part join_onto
add_parts-join_onto delimiter result [] h = refl
add_parts-join_onto delimiter result ([] ∷ parts) h = add_parts-join_onto delimiter result parts h
add_parts-join_onto delimiter result ((c ∷ cs) ∷ parts) h = rw h (
    add_parts-join_onto delimiter ((result ++ delimiter) ++ c ∷ cs) parts
      (is_empty-append (result ++ delimiter) (c ∷ cs) refl))

-- `JoinNonEmpty` is `Join` of the parts that are not empty.
pub join_non_empty-join :
    (delimiter : Bytes) (parts : List Bytes)
    → join_non_empty delimiter parts ≡ join delimiter (keep non_empty parts)
unfolding join_non_empty join
join_non_empty-join delimiter [] = refl
join_non_empty-join delimiter ([] ∷ parts) = join_non_empty-join delimiter parts
join_non_empty-join delimiter ((c ∷ cs) ∷ parts) = add_parts-join_onto delimiter (c ∷ cs) parts refl

-- `ReplaceAll` past its test of an empty `from`. `find` from `pos` and `replace` become one walk of the
-- text, which after a replacement skips the rest of the bytes replaced.
pub replace_from : Bytes → Bytes → ℕ → Bytes → Bytes
replace_from from to skip [] = []
replace_from from to (suc skip) (c ∷ cs) = replace_from from to skip cs
replace_from from to zero (c ∷ cs) =
    let hit = starts_with from (c ∷ cs) in
    let rest = replace_from from to (if hit then length from - 1 else 0) cs in
    if hit then to ++ rest else c ∷ rest

pub replace_all : Bytes → Bytes → Bytes → Bytes
unfolding replace_from
replace_all str from to = if is_empty from then str else replace_from from to 0 str

-- `{key}`.
abbrev pub placeholder : Bytes → Bytes
placeholder key = b'{' ∷ key ++ b'}' ∷ []

-- `Strings::SubstituteTokens`.
pub substitute_tokens : Bytes → List (Bytes × Bytes) → Bytes
unfolding replace_all
substitute_tokens text [] = text
substitute_tokens text ((key, value) ∷ tokens) =
    substitute_tokens (replace_all text (placeholder key) value) tokens

replace_from_absent :
    (key to text : Bytes)
    → contains text b'{' ≡ false
    → replace_from (placeholder key) to 0 text ≡ text
unfolding replace_from
replace_from_absent key to [] h = refl
replace_from_absent key to (c ∷ cs) h = ground (arith, replace_from_absent key to cs)

-- A text with no opening brace is left as it is, whatever the tokens.
pub substitute_tokens_absent :
    (text : Bytes) (tokens : List (Bytes × Bytes))
    → contains text b'{' ≡ false
    → substitute_tokens text tokens ≡ text
unfolding substitute_tokens
substitute_tokens_absent text [] h = refl
substitute_tokens_absent text ((key, value) ∷ tokens) h =
    rw (replace_from_absent key value text h) (substitute_tokens_absent text tokens h)

replace_from_skip :
    (from to skipped text : Bytes)
    → replace_from from to (length skipped) (skipped ++ text) ≡ replace_from from to 0 text
unfolding replace_from
replace_from_skip from to [] text = refl
replace_from_skip from to (c ∷ cs) text = replace_from_skip from to cs text

suc_sub_one : (n : ℕ) → suc n - 1 ≡ n
suc_sub_one n = omega arith

replace_from_hit :
    (key to text : Bytes)
    → replace_from (placeholder key) to 0 (placeholder key ++ text)
      ≡ to ++ replace_from (placeholder key) to 0 text
unfolding replace_from
replace_from_hit key to text =
    rw
      (
        starts_with-append (placeholder key) text,
        suc_sub_one,
        replace_from_skip (placeholder key) to (key ++ b'}' ∷ []) text,
      )
      refl

-- A placeholder behind text with no opening brace becomes its value, and the replacing goes on behind
-- it: the value put in is not searched again.
pub replace_all-placeholder :
    (before key to behind : Bytes)
    → contains before b'{' ≡ false
    → replace_all (before ++ placeholder key ++ behind) (placeholder key) to
      ≡ before ++ to ++ replace_all behind (placeholder key) to
unfolding replace_all replace_from
replace_all-placeholder [] key to behind h = replace_from_hit key to behind
replace_all-placeholder (c ∷ cs) key to behind h =
    ground (arith, replace_all-placeholder cs key to behind)

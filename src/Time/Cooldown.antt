-- ===== src/Time/Cooldown.antt =====
-- include/VoltMod/Core/Time/Cooldown.hpp, its map with keys of any decidable type. Times and lengths are `int64_t`s in
-- seconds. A difference of two times that is none overflows: the source gives it no meaning.
pub mod Answers
pub mod Apart
use voltmod.Strings.Numbers.{int64_max}
use voltmod.Common.{
  ℕ, zero, suc, ◌+◌, ◌-◌, ◌*◌, ◌/◌, ◌%◌, ◌^◌, ◌≤◌, ◌<◌, ◌≡◌, refl, sym, ap, ◌∙◌, ◌≢◌, ◌↔◌, ◌⊎◌, inl,
  inr, Bool, true, false, not, ◌&&◌, ◌||◌, Option, none, some, List, [], ◌∷◌, ◌++◌, map, arith, ltb,
  leb, ◌==◌, if◌then◌else◌, ltb→lt, lt→ltb, leb→le, ==_iff, tests, or_left, or_right, or_true,
  or_right_true, and_both, true_not-false, find_if-append_some, find_if-append_none, find_if-keep,
  find_if_holds, Bool-cases, Option-cases, List-cases, drop_nil, length, get_elem?, set,
  length-append, length-set, length-replicate, get_or, take, drop, replicate, take-append-drop,
  length-take, length-drop, length-map, take_of_length-le, keep, any, all, find_if, All, All-append,
  All-keep, All-keep_self, All-map, all_mono, All-keep_both, All-Mem, All-zip, get_elem?_lt,
  All-get_elem?, contains, ℤ, pos, negsuc, pos_part, neg_part, sub_ℕ, ◌+ℤ◌, ◌-ℤ◌, ◌≤ℤ◌, ltb_ℤ,
  leb_ℤ, eqb_ℤ, eqb_ℤ_iff, ℤ_discrete, Bytes, bytes, text_eq, text_eq_to, bytes_discrete,
  text_eq_refl, starts_with, starts_with-append, find_key, put_key, erase_key, find_key-put_key,
  find_key-erase_key, put_key_twice, Distinct, put_key-Distinct, erase_key-Distinct, Distinct-All,
  All-put_key, All-erase_key, find_key_put, find_key_erased,
}

-- `a - b` of two `int64_t`s.
abbrev pub sub_int64 : ℤ → ℤ → Option ℤ
sub_int64 a b =
    let difference = a -ℤ b in
    if leb_ℤ (negsuc int64_max) difference && leb_ℤ difference (pos int64_max)
    then some difference
    else none

-- What is left of a length above zero, of the time gone by. It is at most the length, and cannot overflow.
unfoldable pub left_of : ℤ → Option ℤ → Option ℤ
left_of seconds none = none
left_of seconds (some elapsed) =
    some (if ltb_ℤ elapsed (pos 0) || leb_ℤ seconds elapsed then pos 0 else seconds -ℤ elapsed)

module _ {K : Type 0} (dec : Discrete K) where
  pub record Cooldown : Type 0 where
    pub seconds : ℤ
    pub started_at : List (K × ℤ)

  unfoldable pub seconds_left : Cooldown → K → ℤ → ℤ → Option ℤ
  seconds_left c key now seconds =
      if leb_ℤ seconds (pos 0) then some (pos 0) else (elim (find_key dec key c.started_at) [
        | none ↦ some (pos 0)
        | some started ↦ left_of seconds (sub_int64 now started)
      ])

  -- The overload with the cooldown's own length.
  unfoldable pub seconds_left_of : Cooldown → K → ℤ → Option ℤ
  seconds_left_of c key now = seconds_left c key now c.seconds

  unfoldable pub start : Cooldown → K → ℤ → Cooldown
  start c key now = record c { started_at = put_key dec key now c.started_at }

  -- By what is left.
  abbrev pub start_when : Cooldown → K → ℤ → Option ℤ → Option (Cooldown × Bool)
  start_when c key now none = none
  start_when c key now (some left) =
      if ltb_ℤ (pos 0) left then some (c, false) else some (start c key now, true)

  unfoldable pub try_start : Cooldown → K → ℤ → ℤ → Option (Cooldown × Bool)
  try_start c key now seconds = start_when c key now (seconds_left c key now seconds)

  unfoldable pub try_start_of : Cooldown → K → ℤ → Option (Cooldown × Bool)
  try_start_of c key now = try_start c key now c.seconds

  unfoldable pub reset : Cooldown → K → Cooldown
  reset c key = record c { started_at = erase_key dec key c.started_at }

  abbrev keep_entry : K × ℤ → ℤ → Option ℤ → Option (List (K × ℤ)) → Option (List (K × ℤ))
  keep_entry entry max_age (some age) (some kept) =
      some (if ltb_ℤ max_age age then kept else entry ∷ kept)
  keep_entry entry max_age _ _ = none

  unfoldable pub without_expired : ℤ → ℤ → List (K × ℤ) → Option (List (K × ℤ))
  without_expired now max_age [] = some []
  without_expired now max_age (entry ∷ entries) =
      keep_entry entry max_age (sub_int64 now entry.1) (without_expired now max_age entries)

  unfoldable pub remove_expired : Cooldown → ℤ → ℤ → Option Cooldown
  remove_expired c now max_age = elim (without_expired now max_age c.started_at) [
    | none ↦ none
    | some kept ↦ some (record c { started_at = kept })
  ]

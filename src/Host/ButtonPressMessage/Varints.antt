-- ===== src/Host/ButtonPressMessage/Varints.antt =====
-- Varints and cursors in the payload of a button press.
use voltmod.Host.ButtonPressMessage.{ok, read_varint_from, read_varint}
use mathlib.Core.Path.{subst}
use native.Mathlib.Numerals.{unary_clauses}
use voltmod.Common.{
  ℕ, zero, suc, ◌+◌, ◌-◌, ◌*◌, ◌%◌, ◌^◌, ◌≤◌, ◌<◌, ◌≡◌, refl, ap, ◌∙◌, true, false, [], ◌∷◌, ◌++◌,
  arith, ltb, leb, length, get_or, drop, Bytes,
}

-- The cursor stands ahead of what is left of the payload.
unfoldable pub At : Bytes → ℕ → Bytes → Type 0
At payload at rest = (drop at payload ≡ rest) × (at + length rest ≡ length payload)

pub At-front :
    (payload : Bytes) (at c : ℕ) (rest : Bytes)
    → At payload at (c ∷ rest)
    → (get_or payload at 0 ≡ c) × At payload (at + 1) rest
unfolding At
At-front [] zero c rest h = let e = h.0 in cc
At-front [] (suc at) c rest h = let e = h.0 in cc
At-front (x ∷ payload) zero c rest h =
    let e = h.0 in
    let head : x ≡ c = cc in let tail : payload ≡ rest = cc in (head, (tail, omega (arith, h.1)))
At-front (x ∷ payload) (suc at) c rest h =
    let (head, next) = At-front payload at c rest (h.0, omega (arith, h.1)) in
    let place : suc at + 1 ≡ suc (at + 1) = omega arith in
    (head, (ap (λ k. drop k (x ∷ payload)) place ∙ next.0, omega (arith, next.1)))

pub At-append :
    (payload : Bytes) (at : ℕ) (xs ys : Bytes)
    → At payload at (xs ++ ys)
    → At payload (at + length xs) ys
At-append payload at [] ys h =
    let same : at ≡ at + 0 = omega arith in subst (λ k. At payload k ys) same h
At-append payload at (x ∷ xs) ys h =
    let (head, next) = At-front payload at x (xs ++ ys) h in
    let moved = At-append payload (at + 1) xs ys next in
    let same : at + 1 + length xs ≡ at + length (x ∷ xs) = omega arith in
    subst (λ k. At payload k ys) same moved

inside_of :
    (payload : Bytes) (at c : ℕ) (rest : Bytes)
    → At payload at (c ∷ rest)
    → leb (length payload) at ≡ false
unfolding At
inside_of payload at c rest h = let size = h.1 in ground arith

-- The bytes are a varint of the value: seven bits each from the lowest on, and the eighth on all but the last.
unfoldable pub IsVarint : Bytes → ℕ → Type 0
IsVarint [] n = ⊥
IsVarint (c ∷ []) n = c < 128 × (n ≡ c)
IsVarint (c ∷ d ∷ cs) n =
    (128 ≤ c) × (c < 256) × (m : ℕ) × (n ≡ c - 128 + 128 * m) × IsVarint (d ∷ cs) m

last_part : (c p : ℕ) → c < 128 → c * p < 2 ^ 64 → c % 128 * p % 2 ^ 64 ≡ c * p
last_part c p h l = let same : c % 128 ≡ c = omega arith in rw same (omega arith)

part_of :
    (c m p : ℕ)
    → 128 ≤ c
    → c < 256
    → (c - 128 + 128 * m) * p < 2 ^ 64
    → c % 128 * p % 2 ^ 64 ≡ (c - 128) * p
part_of c m p h h' l =
    let same : c % 128 ≡ c - 128 = omega arith in
    let less : (c - 128) * p < 2 ^ 64 = grind arith in rw same (omega arith)

rest_less : (d m p : ℕ) → (d + 128 * m) * p < 2 ^ 64 → m * (128 * p) < 2 ^ 64
rest_less d m p l = grind arith

sum_of : (value d m p : ℕ) → value + d * p + m * (128 * p) ≡ value + (d + 128 * m) * p
sum_of value d m p = grind arith

power_next : (byte : ℕ) → 2 ^ (7 * (byte + 1)) ≡ 128 * 2 ^ (7 * byte)
power_next byte =
    let e : 7 * (byte + 1) ≡ suc (suc (suc (suc (suc (suc (suc (7 * byte))))))) = omega arith in
    rw e (simp unary_clauses (omega arith))

read_varint_from-At :
    (bs rest payload : Bytes) (left byte value at n : ℕ)
    → At payload at (bs ++ rest)
    → IsVarint bs n
    → length bs ≤ left
    → n * 2 ^ (7 * byte) < 2 ^ 64
    → read_varint_from payload left byte value at ≡ ok (value + n * 2 ^ (7 * byte), at + length bs)
unfolding read_varint_from IsVarint
read_varint_from-At [] rest payload left byte value at n a v l s = absurd v
read_varint_from-At (c ∷ bs) rest payload zero byte value at n a v l s = absurd (omega arith)
read_varint_from-At (c ∷ []) rest payload (suc left) byte value at n a v l s =
    let (head, next) = At-front payload at c rest a in
    let inside = inside_of payload at c rest a in
    let small : ltb c 128 ≡ true = ground (arith, v.0) in
    let part = last_part c (2 ^ (7 * byte)) (v.0) (rw (v.1) at s) in
    rw (head, inside, small, part, v.1) refl
read_varint_from-At (c ∷ d ∷ cs) rest payload (suc left) byte value at n a v l s =
    let (lo, hi, m, e, more) = v in
    let (head, next) = At-front payload at c (d ∷ cs ++ rest) a in
    let inside = inside_of payload at c (d ∷ cs ++ rest) a in
    let large : ltb c 128 ≡ false = ground arith in
    let bound = rw e at s in
    let part = part_of c m (2 ^ (7 * byte)) lo hi bound in
    let bound' = rest_less (c - 128) m (2 ^ (7 * byte)) bound in
    let shifted : m * 2 ^ (7 * (byte + 1)) < 2 ^ 64 = rw (power_next byte) bound' in
    let read =
      read_varint_from-At (d ∷ cs) rest payload left (byte + 1) (value + (c - 128) * 2 ^ (7 * byte))
        (at + 1) m next more (omega (arith, l)) shifted in
    let sum : value + (c - 128) * 2 ^ (7 * byte) + m * 2 ^ (7 * (byte + 1))
        ≡ value + n * 2 ^ (7 * byte) =
      rw (power_next byte, e) (sum_of value (c - 128) m (2 ^ (7 * byte))) in
    let place : at + 1 + length (d ∷ cs) ≡ at + length (c ∷ d ∷ cs) = omega arith in
    rw (head, inside, large, part)
      (read
        ∙ ap ok (
            ap (λ s. (s, at + 1 + length (d ∷ cs))) sum
            ∙ ap (λ k. (value + n * 2 ^ (7 * byte), k)) place))

-- What `ReadVarint` gives of a varint of ten bytes or less.
pub read_varint-At :
    (bs rest payload : Bytes) (at n : ℕ)
    → At payload at (bs ++ rest)
    → IsVarint bs n
    → length bs ≤ 10
    → n < 2 ^ 64
    → read_varint payload at ≡ ok (n, at + length bs)
unfolding read_varint
read_varint-At bs rest payload at n a v l s =
    let one : 0 + n * 2 ^ (7 * 0) ≡ n = omega arith in
    read_varint_from-At bs rest payload 10 0 0 at n a v l (omega arith)
    ∙ ap (λ k. ok (k, at + length bs)) one

pub IsVarint-cons : (bs : Bytes) (n : ℕ) → IsVarint bs n → 1 ≤ length bs
unfolding IsVarint
IsVarint-cons [] n v = absurd v
IsVarint-cons (c ∷ bs) n v = omega arith

-- ===== src/Host/ButtonPressMessage/Payload.antt =====
-- The loop of a button press's parser ends.
use voltmod.Host.ButtonPressMessage.{
  Result, ok, error, read_varint, parse_field, parse_from, finish, parse,
}
use voltmod.Host.ButtonPressMessage.Cursor.{Read, Sized, parse_step-Read}
use voltmod.Common.{
  ℕ, zero, suc, ◌+◌, ◌^◌, ◌≤◌, ◌<◌, ◌≡◌, refl, ◌∙◌, inl, inr, true, false, Option, none, some,
  arith, ltb, leb, tests, Bool-cases, length, Bytes,
}

after : ℕ → Bytes → Result (Option Bytes × ℕ) → Option (Result Bytes)
after fuel payload (error e) = some (error e)
after fuel payload (ok (button, at)) = parse_from fuel payload button at

parse_from_next :
    (fuel : ℕ) (payload : Bytes) (button : Option Bytes) (at : ℕ)
    → at < length payload
    → parse_from (suc fuel) payload button at
      ≡ after fuel payload (parse_field payload button (read_varint payload at))
unfolding parse_from after
parse_from_next fuel payload button at h =
    let q : ltb at (length payload) ≡ true = ground arith in rw q

parse_from_done :
    (fuel : ℕ) (payload : Bytes) (button : Option Bytes) (at : ℕ)
    → length payload ≤ at
    → parse_from (suc fuel) payload button at ≡ some (finish button)
unfolding parse_from
parse_from_done fuel payload button at h =
    let q : ltb at (length payload) ≡ false = ground arith in rw q

-- The loop gives a result, and the same one on other fuel.
Ends : ℕ → ℕ → Bytes → Option Bytes → ℕ → Type 0
Ends f g payload button at =
    (r : Result Bytes) × (parse_from f payload button at ≡ some r)
    × (parse_from g payload button at ≡ some r)

after-Ends :
    (f g : ℕ) (payload : Bytes) (at : ℕ) (read : Result (Option Bytes × ℕ))
    → ((button : Option Bytes) (k : ℕ) → at < k → Ends f g payload button k)
    → Read payload at read
    → (r : Result Bytes) × (after f payload read ≡ some r) × (after g payload read ≡ some r)
unfolding after Read Ends
after-Ends f g payload at (error e) ih m = (error e, refl, refl)
after-Ends f g payload at (ok (button, k)) ih m = ih button k (m.0)

done-Ends :
    (f g : ℕ) (payload : Bytes) (button : Option Bytes) (at : ℕ)
    → length payload ≤ at
    → Ends (suc f) (suc g) payload button at
unfolding Ends
done-Ends f g payload button at h =
    (finish button, parse_from_done f payload button at h, parse_from_done g payload button at h)

parse_from-Ends :
    (f g : ℕ) (payload : Bytes) (button : Option Bytes) (at : ℕ)
    → Sized payload
    → length payload ≤ f + at
    → length payload ≤ g + at
    → Ends (suc f) (suc g) payload button at
unfolding Ends
parse_from-Ends zero g payload button at z h h' = done-Ends 0 g payload button at (omega arith)
parse_from-Ends (suc f) zero payload button at z h h' =
    done-Ends (suc f) 0 payload button at (omega arith)
parse_from-Ends (suc f) (suc g) payload button at z h h' =
    elim (Bool-cases (leb (length payload) at)) [
      | inl q ↦ done-Ends (suc f) (suc g) payload button at (omega (tests, q))
      | inr q ↦
          let read = parse_field payload button (read_varint payload at) in
          let (r, ended, ended') =
            after-Ends (suc f) (suc g) payload at read
              (λ button' k less.
                parse_from-Ends f g payload button' k z (omega arith) (omega arith))
              (parse_step-Read payload button at z) in
          (
            r,
            parse_from_next (suc f) payload button at (ground arith) ∙ ended,
            parse_from_next (suc g) payload button at (ground arith) ∙ ended',
          )
    ]

-- For a payload of less than 2^63 bytes the loop of `Parse`, whose cursor wraps round at 2^64, ends with a result of
-- `Parse`, an error among them, within as many rounds as the payload has bytes and one to see the end.
pub parse_enough_fuel :
    (fuel : ℕ) (payload : Bytes)
    → length payload < 2 ^ 63
    → length payload < fuel
    → (r : Result Bytes) × (parse payload ≡ some r) × (parse_from fuel payload none 0 ≡ some r)
unfolding parse Ends
parse_enough_fuel zero payload z h = absurd (omega arith)
parse_enough_fuel (suc fuel) payload z h =
    parse_from-Ends (length payload) fuel payload none 0 z (omega arith) (omega arith)

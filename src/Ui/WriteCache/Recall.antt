-- ===== src/Ui/WriteCache/Recall.antt =====
-- What src/Ui/WriteCache.cpp remembers: one value for each slot, kind, element and name.
use voltmod.Ui.WriteCache.{
  WriteKind, text, class, Sent, WriteCache, or_nothing, is_everyone, for_slot, store, kind_code,
  key_for, is_sent, change_value, changed,
}
use voltmod.Slots.{is_valid_slot}
use voltmod.Common.{
  ◌≡◌, refl, sym, ap, ◌∙◌, ◌≢◌, ◌⊎◌, inl, inr, true, not, Option, none, some, [], ◌∷◌, ◌++◌, arith,
  Bool-cases, All, ℤ, negsuc, eqb_ℤ_iff, ℤ_discrete, Bytes, text_eq_to, bytes_discrete, find_key,
  put_key, find_key_put,
}

-- No separator in the text.
abbrev pub IsPlain : Bytes → Type 0
IsPlain t = All (λ c. c ≢ 31) t

element-injective :
    (e f n m : Bytes) → IsPlain e → IsPlain f → (e ++ 31 ∷ n) ≡ (f ++ 31 ∷ m) → (e ≡ f) × (n ≡ m)
element-injective [] [] n m p q h = (refl, let same : n ≡ m = cc in same)
element-injective [] (d ∷ f) n m p q h = let same : d ≡ 31 = cc in absurd (q.0 same)
element-injective (c ∷ e) [] n m p q h = let same : c ≡ 31 = cc in absurd (p.0 same)
element-injective (c ∷ e) (d ∷ f) n m p q h =
    let heads : c ≡ d = cc in
    let tails : (e ++ 31 ∷ n) ≡ (f ++ 31 ∷ m) = cc in
    let same = element-injective e f n m p.1 q.1 tails in
    (let whole : (c ∷ e) ≡ (d ∷ f) = let es = same.0 in cc in whole, same.1)

kind_code-injective : (k l : WriteKind) → kind_code k ≡ kind_code l → k ≡ l
kind_code-injective text text h = refl
kind_code-injective text class h = absurd (omega (arith, h))
kind_code-injective class text h = absurd (omega (arith, h))
kind_code-injective class class h = refl

key_for-injective :
    (k l : WriteKind) (e f n m : Bytes)
    → IsPlain e
    → IsPlain f
    → key_for k e n ≡ key_for l f m
    → (k ≡ l) × (e ≡ f) × (n ≡ m)
unfolding key_for
key_for-injective k l e f n m p q h =
    let codes : kind_code k ≡ kind_code l = cc in
    let tails : (e ++ 31 ∷ n) ≡ (f ++ 31 ∷ m) = cc in
    let (es, ns) = element-injective e f n m p q tails in (kind_code-injective k l codes, es, ns)

-- The value of a key that a slot was last sent.
pub value_in : Option Sent → Bytes → Option Bytes
value_in none key = none
value_in (some sent) key = find_key bytes_discrete key sent.values

pub seen : WriteCache → ℤ → WriteKind → Bytes → Bytes → Option Bytes
seen c slot kind element name = value_in (for_slot c slot) (key_for kind element name)

for_slot-store :
    (c : WriteCache) (slot : ℤ) (was sent : Sent)
    → for_slot c slot ≡ some was
    → for_slot (store c slot sent) slot ≡ some sent
unfolding for_slot store
for_slot-store c slot was sent h = elim (Bool-cases (is_everyone slot)) [
  | inl e ↦ simp e refl
  | inr e ↦ elim (Bool-cases (is_valid_slot slot)) [
    | inl v ↦
        simp (e, v)
          (elim (find_key_put ℤ_discrete slot slot sent c.slots) [
            | inl q ↦ ap (λ o. some (or_nothing o)) q.1
            | inr q ↦ absurd (q.0 refl)
          ])
    | inr v ↦ let h' : none ≡ some was = simp (e, v) at h in cc
  ]
]

for_slot-store-other :
    (c : WriteCache) (slot other : ℤ) (sent : Sent)
    → slot ≢ other
    → for_slot (store c slot sent) other ≡ for_slot c other
unfolding for_slot store
for_slot-store-other c slot other sent ne = elim (Bool-cases (is_everyone slot)) [
  | inl e ↦ elim (Bool-cases (is_everyone other)) [
    | inl o ↦ absurd (ne ((eqb_ℤ_iff slot (negsuc 0)).0 e ∙ sym ((eqb_ℤ_iff other (negsuc 0)).0 o)))
    | inr o ↦ simp (e, o) refl
  ]
  | inr e ↦ elim (Bool-cases (is_everyone other)) [
    | inl o ↦ simp (e, o) refl
    | inr o ↦ elim (Bool-cases (is_valid_slot other)) [
      | inl v ↦
          simp (e, o, v)
            (elim (find_key_put ℤ_discrete slot other sent c.slots) [
              | inl q ↦ absurd (ne q.0)
              | inr q ↦ ap (λ x. some (or_nothing x)) q.1
            ])
      | inr v ↦ simp (e, o, v) refl
    ]
  ]
]

is_sent-some : (o : Option Bytes) (value : Bytes) → is_sent o value ≡ true → o ≡ some value
unfolding is_sent
is_sent-some none value h = absurd (ground arith)
is_sent-some (some sent) value h = ap some (text_eq_to sent value h)

change_value-seen :
    (c : WriteCache) (slot : ℤ) (key value : Bytes) (sent : Sent)
    → for_slot c slot ≡ some sent
    → value_in (for_slot (change_value c slot key value (some sent)).0 slot) key ≡ some value
unfolding change_value value_in
change_value-seen c slot key value sent h =
    elim (Bool-cases (is_sent (find_key bytes_discrete key sent.values) value)) [
      | inl e ↦ simp e (
          ap (λ o. value_in o key) h
          ∙ is_sent-some (find_key bytes_discrete key sent.values) value e)
      | inr e ↦
          let after : Sent = record sent {
            values = put_key bytes_discrete key value sent.values;
          } in
          simp e (
            ap (λ o. value_in o key) (for_slot-store c slot sent after h)
            ∙ elim (find_key_put bytes_discrete key key value sent.values) [
              | inl q ↦ q.1
              | inr q ↦ absurd (q.0 refl)
            ])
    ]

change_value-kept :
    (c : WriteCache) (slot other : ℤ) (key asked value : Bytes) (sent : Sent)
    → for_slot c slot ≡ some sent
    → (slot ≢ other) ⊎ ((slot ≡ other) × (key ≢ asked))
    → value_in (for_slot (change_value c slot key value (some sent)).0 other) asked
      ≡ value_in (for_slot c other) asked
unfolding change_value value_in
change_value-kept c slot other key asked value sent h apart =
    elim (Bool-cases (is_sent (find_key bytes_discrete key sent.values) value)) [
      | inl e ↦ simp e refl
      | inr e ↦
          let after : Sent = record sent {
            values = put_key bytes_discrete key value sent.values;
          } in
          simp e (elim apart [
            | inl slots ↦ ap (λ o. value_in o asked) (for_slot-store-other c slot other after slots)
            | inr (same, keys) ↦
                ap (λ s. value_in (for_slot (store c slot after) s) asked) (sym same)
                ∙ ap (λ o. value_in o asked) (for_slot-store c slot sent after h)
                ∙ elim (find_key_put bytes_discrete key asked value sent.values) [
                  | inl q ↦ absurd (keys q.0)
                  | inr q ↦ q.1
                ]
                ∙ ap (λ o. value_in o asked) (sym h)
                ∙ ap (λ s. value_in (for_slot c s) asked) same
          ])
    ]

change_value-answer :
    (c : WriteCache) (slot : ℤ) (key value : Bytes) (sent : Sent)
    → (change_value c slot key value (some sent)).1
      ≡ not (is_sent (find_key bytes_discrete key sent.values) value)
unfolding change_value
change_value-answer c slot key value sent =
    elim (Bool-cases (is_sent (find_key bytes_discrete key sent.values) value)) [
      | inl e ↦ simp e refl
      | inr e ↦ simp e refl
    ]

-- Two writes are to the same place.
abbrev pub Same : ℤ → WriteKind → Bytes → Bytes → ℤ → WriteKind → Bytes → Bytes → Type 0
Same slot kind element name s k e n = (slot ≡ s) × (kind ≡ k) × (element ≡ e) × (name ≡ n)

apart_keys :
    (slot s : ℤ) (kind k : WriteKind) (element e name n : Bytes)
    → IsPlain element
    → IsPlain e
    → ¬ Same slot kind element name s k e n
    → (slot ≢ s) ⊎ ((slot ≡ s) × (key_for kind element name ≢ key_for k e n))
apart_keys slot s kind k element e name n p q apart = elim (ℤ_discrete slot s) [
  | no ne ↦ inl ne
  | yes same ↦ inr (
    same,
    λ h.
        let parts = key_for-injective kind k element e name n p q h in
        apart (same, parts.0, parts.1, parts.2),
  )
]

changed_value :
    (c : WriteCache) (slot : ℤ) (kind : WriteKind) (element name value : Bytes) (sent : Sent)
    → for_slot c slot ≡ some sent
    → changed c slot kind element name value
      ≡ change_value c slot (key_for kind element name) value (some sent)
unfolding changed
changed_value c slot kind element name value sent h =
    ap (change_value c slot (key_for kind element name) value) h

-- `Changed` of a slot, or of everyone, answers whether the value is other than the last one sent to the place that is the slot, the
-- kind, the element and the name, and leaves it the last one sent there; to any other place the last one is what it was. The ids of
-- elements have no separator.
pub seen-changed :
    (c : WriteCache) (slot : ℤ) (kind : WriteKind) (element name value : Bytes) (sent : Sent)
    → for_slot c slot ≡ some sent
    → IsPlain element
    → ((changed c slot kind element name value).1
        ≡ not (is_sent (seen c slot kind element name) value))
      × (seen (changed c slot kind element name value).0 slot kind element name ≡ some value)
      × ((s : ℤ) (k : WriteKind) (e n : Bytes)
          → IsPlain e
          → ¬ Same slot kind element name s k e n
          → seen (changed c slot kind element name value).0 s k e n ≡ seen c s k e n)
unfolding seen value_in
seen-changed c slot kind element name value sent h p =
    let key = key_for kind element name in
    let same = changed_value c slot kind element name value sent h in
    (
      ap (λ r. r.1) same
          ∙ change_value-answer c slot key value sent
          ∙ ap (λ o. not (is_sent (value_in o key) value)) (sym h),
      ap (λ r. value_in (for_slot r.0 slot) key) same ∙ change_value-seen c slot key value sent h,
      λ s k e n q apart.
          ap (λ r. value_in (for_slot r.0 s) (key_for k e n)) same
          ∙ change_value-kept c slot s key (key_for k e n) value sent h
              (apart_keys slot s kind k element e name n p q apart),
    )

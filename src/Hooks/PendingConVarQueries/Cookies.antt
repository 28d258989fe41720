-- ===== src/Hooks/PendingConVarQueries/Cookies.antt =====
-- The cookies of pending queries.
use voltmod.Slots.{is_valid_slot}
use voltmod.Hooks.PendingConVarQueries.{
  PendingConVarQuery, PendingConVarQueries, max_pending_per_slot, max_cookie, next_counter,
  queries_of, in_use, search_cookie, next_cookie,
}
use voltmod.Common.{
  ℕ, zero, suc, ◌+◌, ◌%◌, ◌^◌, ◌≤◌, ◌<◌, ◌≡◌, refl, sym, ap, ◌≢◌, ◌⊎◌, inl, inr, true, false, not,
  ◌||◌, List, [], ◌∷◌, arith, ltb, tests, Bool-cases, length, keep, ℤ, pos, negsuc, eqb_ℤ,
}

-- The counter comes to `target` in more than the given number of moves, if at all.
Far : ℕ → ℕ → ℕ → Type 0
Far target counter moves =
    counter + moves < target ⊎ target ≤ counter × counter + moves < target + max_cookie

Counter : ℕ → Type 0
Counter counter = counter ≤ max_cookie

next_counter_eq :
    (x : ℕ)
    → Counter x
    → (x < max_cookie × (next_counter x ≡ suc x)) ⊎ ((x ≡ max_cookie) × (next_counter x ≡ 1))
unfolding next_counter Counter
next_counter_eq x h =
    let small : (x + 1) % 2 ^ 32 ≡ suc x = omega arith in
    elim (Bool-cases (ltb max_cookie (suc x))) [
      | inl q ↦ inr (omega (tests, q), rw (small, q))
      | inr q ↦ inl (ground arith, rw (small, q))
    ]

next_counter-Counter : (x : ℕ) → Counter x → Counter (next_counter x) × 1 ≤ next_counter x
unfolding Counter
next_counter-Counter x h = elim (next_counter_eq x h) [
  | inl e ↦ rw (e.1) (omega arith, omega arith)
  | inr e ↦ rw (e.1) (omega arith, omega arith)
]

Far-self : (c n : ℕ) → n < max_cookie → Far c c n
unfolding Far
Far-self c n h = inr (omega arith, omega arith)

-- One move past the largest cookie.
Far-again : (c n : ℕ) → suc n < c → Far c 1 n
unfolding Far
Far-again c n h = inl (omega arith)

next_counter-Far :
    (c x n : ℕ)
    → Counter x
    → Counter c
    → 1 ≤ c
    → Far c x (suc n)
    → (c ≢ next_counter x) × Far c (next_counter x) n
unfolding Far Counter
next_counter-Far c x n h hc h1 far = elim (next_counter_eq x h) [
  | inl e ↦ elim far [
    | inl f ↦ rw (e.1) ((λ q. omega arith), inl (omega arith))
    | inr f ↦ rw (e.1) ((λ q. omega arith), inr (omega arith))
  ]
  | inr e ↦ rw (e.1) (
    (λ q. omega arith),
    elim far [ inl f ↦ absurd (omega arith) | inr f ↦ Far-again c n (omega arith) ],
  )
]

eqb_other : (k : ℤ) (c d : ℕ) → c ≢ d → eqb_ℤ k (pos c) ≡ true → eqb_ℤ k (pos d) ≡ false
eqb_other (pos k) c d h q = ground arith
eqb_other (negsuc k) c d h q = refl

module _ {C T : Type 0} where
  without : ℕ → List (PendingConVarQuery C T) → List (PendingConVarQuery C T)
  without c queries = keep (λ query. not (eqb_ℤ query.cookie (pos c))) queries

  in_use-without :
      (c d : ℕ) (queries : List (PendingConVarQuery C T))
      → c ≢ d
      → in_use (without c queries) (pos d) ≡ in_use queries (pos d)
  unfolding in_use without
  in_use-without c d [] h = refl
  in_use-without c d (query ∷ queries) h =
      let rest : in_use (without c queries) (pos d) ≡ in_use queries (pos d) =
        in_use-without c d queries h in
      elim (Bool-cases (eqb_ℤ query.cookie (pos c))) [
        | inl q ↦ simp (q, eqb_other query.cookie c d h q) rest
        | inr q ↦ simp q (ap (λ b. eqb_ℤ query.cookie (pos d) || b) rest)
      ]

  length-without_le :
      (c : ℕ) (queries : List (PendingConVarQuery C T))
      → length (without c queries) ≤ length queries
  unfolding without
  length-without_le c [] = omega arith
  length-without_le c (query ∷ queries) = ground (arith, length-without_le c queries)

  length-without_lt :
      (c : ℕ) (queries : List (PendingConVarQuery C T))
      → in_use queries (pos c) ≡ true
      → length (without c queries) < length queries
  unfolding without in_use
  length-without_lt c [] h = absurd (ground arith)
  length-without_lt c (query ∷ queries) h = elim (Bool-cases (eqb_ℤ query.cookie (pos c))) [
    | inl q ↦ simp q (omega (arith, length-without_le c queries))
    | inr q ↦ simp q (omega (arith, length-without_lt c queries (simp q at h)))
  ]

  search_cookie-without :
      (n c x : ℕ) (queries : List (PendingConVarQuery C T))
      → Counter x
      → Counter c
      → 1 ≤ c
      → Far c x n
      → search_cookie n x (without c queries) ≡ search_cookie n x queries
  unfolding search_cookie
  search_cookie-without zero c x queries h hc h1 far = refl
  search_cookie-without (suc n) c x queries h hc h1 far =
      let (ne, far') = next_counter-Far c x n h hc h1 far in
      rw (
        in_use-without c (next_counter x) queries ne,
        search_cookie-without n c (next_counter x) queries (next_counter-Counter x h).0 hc h1 far',
      )

  pub Fresh : List (PendingConVarQuery C T) → ℕ × ℤ → Type 0
  Fresh queries (counter, cookie) =
      (cookie ≡ pos counter) × 1 ≤ counter × counter ≤ max_cookie × (in_use queries cookie ≡ false)

  search_cookie_used :
      (n x : ℕ) (queries : List (PendingConVarQuery C T))
      → in_use queries (pos (next_counter x)) ≡ true
      → search_cookie (suc n) x queries ≡ search_cookie n (next_counter x) queries
  unfolding search_cookie
  search_cookie_used n x queries q = rw q

  search_cookie_free :
      (n x : ℕ) (queries : List (PendingConVarQuery C T))
      → in_use queries (pos (next_counter x)) ≡ false
      → search_cookie (suc n) x queries ≡ (next_counter x, pos (next_counter x))
  unfolding search_cookie
  search_cookie_free n x queries q = rw q

  search_cookie_none :
      (x : ℕ) (queries : List (PendingConVarQuery C T)) → search_cookie 0 x queries ≡ (x, negsuc 0)
  unfolding search_cookie
  search_cookie_none x queries = refl

  search_cookie_cases :
      (n x : ℕ) (queries : List (PendingConVarQuery C T))
      → Counter x
      → ((search_cookie n x queries).1 ≡ negsuc 0) ⊎ Fresh queries (search_cookie n x queries)
  unfolding Fresh Counter
  search_cookie_cases zero x queries h = inl (rw (search_cookie_none x queries))
  search_cookie_cases (suc n) x queries h =
      let (h', h1) = next_counter-Counter x h in
      elim (Bool-cases (in_use queries (pos (next_counter x)))) [
        | inl q ↦
            rw (search_cookie_used n x queries q)
              (search_cookie_cases n (next_counter x) queries h')
        | inr q ↦ inr (rw (search_cookie_free n x queries q) (refl, h1, h', q))
      ]

  search_cookie_found :
      (n x : ℕ) (queries : List (PendingConVarQuery C T))
      → Counter x
      → n ≤ max_pending_per_slot + 1
      → length queries < n
      → (search_cookie n x queries).1 ≢ negsuc 0
  search_cookie_found zero x queries h le lt = absurd (omega arith)
  search_cookie_found (suc n) x queries h le lt =
      let next = next_counter x in
      let (h', h1) = next_counter-Counter x h in
      elim (Bool-cases (in_use queries (pos next))) [
        | inl q ↦
            rw
              (
                search_cookie_used n x queries q,
                sym (
                    search_cookie-without n next next queries h' h' h1
                      (Far-self next n (omega arith))),
              )
              (search_cookie_found n next (without next queries) h' (omega arith)
                (omega (arith, length-without_lt next queries q)))
        | inr q ↦ rw (search_cookie_free n x queries q) (λ e. cc)
      ]

  -- `NextCookie` finds a cookie above zero that no query of the slot has, whatever the queries are, as long as there are no
  -- more of them than a slot has room for. It moves the counter on to that cookie.
  pub next_cookie-Fresh :
      (q : PendingConVarQueries C T) (slot : ℤ)
      → is_valid_slot slot ≡ true
      → q.cookie_counter ≤ max_cookie
      → length (queries_of q slot) ≤ max_pending_per_slot
      → Fresh (queries_of q slot) ((next_cookie q slot).0.cookie_counter, (next_cookie q slot).1)
  unfolding next_cookie Counter
  next_cookie-Fresh q slot v h le =
      elim (search_cookie_cases (max_pending_per_slot + 1) q.cookie_counter (queries_of q slot) h) [
        | inl none_left ↦ absurd (
            search_cookie_found (max_pending_per_slot + 1) q.cookie_counter (queries_of q slot) h
              (omega arith) (omega arith) none_left)
        | inr fresh ↦ simp v fresh
      ]

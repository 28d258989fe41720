-- ===== src/Host/PluginDependencies/Grows.antt =====
-- What the refusals of src/Host/Plugins/PluginDependencies.cpp add to.
use voltmod.Host.PluginDependencies.{text_less}
use voltmod.Host.PluginDependencies.{
  Refusal, Spread, has_name, has_key, insert_sorted, emplace, refuse,
}
use voltmod.Common.{
  ℕ, suc, ◌+◌, ◌≤◌, ◌<◌, ◌≡◌, refl, sym, ap, ◌∙◌, ◌⊎◌, inl, inr, Bool, true, false, ◌||◌, List, [],
  ◌∷◌, arith, if◌then◌else◌, or_true, or_right_true, Bool-cases, length, any, Bytes, text_eq,
  text_eq_to, text_eq_refl,
}

or_swap : (a b c : Bool) → (a || (b || c)) ≡ (b || (a || c))
or_swap a b c = ground arith

pub has_key-insert_sorted :
    {V : Type 0} (n : Bytes) (v : V) (m : List (Bytes × V)) (k : Bytes)
    → has_key (insert_sorted n v m) k ≡ (text_eq n k || has_key m k)
unfolding has_key insert_sorted
has_key-insert_sorted n v [] k = refl
has_key-insert_sorted n v (e ∷ m) k = elim (Bool-cases (text_less n e.0)) [
  | inl q ↦ simp q refl
  | inr q ↦ simp q (
      ap (λ b. text_eq e.0 k || b) (has_key-insert_sorted n v m k)
      ∙ or_swap (text_eq e.0 k) (text_eq n k) (has_key m k))
]

has_key_self :
    {V : Type 0} (n : Bytes) (v : V) (m : List (Bytes × V)) → has_key (insert_sorted n v m) n ≡ true
has_key_self n v m = rw (has_key-insert_sorted n v m n, text_eq_refl n)

-- The plugins that are not refused, each one of which may be refused once.
unfoldable pub unrefused : List (Bytes × List Bytes) → List (Bytes × Refusal) → ℕ
unrefused [] refused = 0
unrefused (e ∷ plugins) refused =
    if has_key refused e.0 then unrefused plugins refused else suc (unrefused plugins refused)

-- Nothing is taken back; what is newly refused waits; and what waits together with what may still be refused does not
-- become more.
pub record Grows (plugins : List (Bytes × List Bytes)) (s t : Spread) : Type 0 where
  pub refused_stay : (k : Bytes) → has_key s.0 k ≡ true → has_key t.0 k ≡ true
  pub waiting_stay : (k : Bytes) → has_name s.1 k ≡ true → has_name t.1 k ≡ true
  pub new_wait :
      (k : Bytes) → has_key t.0 k ≡ true → (has_key s.0 k ≡ true) ⊎ (has_name t.1 k ≡ true)
  pub no_more : length t.1 + unrefused plugins t.0 ≤ length s.1 + unrefused plugins s.0

pub Grows-refl : (plugins : List (Bytes × List Bytes)) (s : Spread) → Grows plugins s s
Grows-refl plugins s = record {
  refused_stay = λ k h. h;
  waiting_stay = λ k h. h;
  new_wait = λ k h. inl h;
  no_more = omega arith;
}

pub Grows-trans :
    (plugins : List (Bytes × List Bytes)) (s t u : Spread)
    → Grows plugins s t
    → Grows plugins t u
    → Grows plugins s u
Grows-trans plugins s t u g h = record {
  refused_stay = λ k q. h.refused_stay k (g.refused_stay k q);
  waiting_stay = λ k q. h.waiting_stay k (g.waiting_stay k q);
  new_wait = λ k q. elim (h.new_wait k q) [
    | inl r ↦ elim (g.new_wait k r) [ inl r' ↦ inl r' | inr w ↦ inr (h.waiting_stay k w) ]
    | inr w ↦ inr w
  ];
  no_more = omega (arith, g.no_more, h.no_more);
}

has_key_old :
    (n : Bytes) (v : Refusal) (refused : List (Bytes × Refusal)) (k : Bytes)
    → has_key refused k ≡ true
    → has_key (insert_sorted n v refused) k ≡ true
has_key_old n v refused k h =
    rw (has_key-insert_sorted n v refused k) (or_right_true (text_eq n k) (has_key refused k) h)

count_le :
    (a b : Bool) (m n : ℕ)
    → (b ≡ true → a ≡ true)
    → m ≤ n
    → (if a then m else suc m) ≤ (if b then n else suc n)
count_le a b m n f h = ground (arith, f)

count_lt :
    (a b : Bool) (m n : ℕ)
    → (b ≡ true → a ≡ true)
    → m < n
    → (if a then m else suc m) < (if b then n else suc n)
count_lt a b m n f h = ground (arith, f)

unrefused-insert_sorted_le :
    (plugins : List (Bytes × List Bytes)) (n : Bytes) (v : Refusal)
    (refused : List (Bytes × Refusal))
    → unrefused plugins (insert_sorted n v refused) ≤ unrefused plugins refused
unfolding unrefused
unrefused-insert_sorted_le [] n v refused = omega arith
unrefused-insert_sorted_le (e ∷ plugins) n v refused =
    count_le (has_key (insert_sorted n v refused) e.0) (has_key refused e.0)
      (unrefused plugins (insert_sorted n v refused)) (unrefused plugins refused)
      (has_key_old n v refused e.0) (unrefused-insert_sorted_le plugins n v refused)

unrefused-insert_sorted_lt :
    (plugins : List (Bytes × List Bytes)) (n : Bytes) (v : Refusal)
    (refused : List (Bytes × Refusal))
    → has_key plugins n ≡ true
    → has_key refused n ≡ false
    → unrefused plugins (insert_sorted n v refused) < unrefused plugins refused
unfolding unrefused has_key
unrefused-insert_sorted_lt [] n v refused h new = absurd (ground arith)
unrefused-insert_sorted_lt (e ∷ plugins) n v refused h new =
    elim (or_true (text_eq e.0 n) (has_key plugins n) h) [
      | inl q ↦
          let same : n ≡ e.0 = sym (text_eq_to e.0 n q) in
          let old : has_key refused e.0 ≡ false = ap (has_key refused) (sym same) ∙ new in
          let now : has_key (insert_sorted n v refused) e.0 ≡ true =
            ap (has_key (insert_sorted n v refused)) (sym same) ∙ has_key_self n v refused in
          let le = unrefused-insert_sorted_le plugins n v refused in rw (old, now) (omega arith)
      | inr q ↦
          count_lt (has_key (insert_sorted n v refused) e.0) (has_key refused e.0)
            (unrefused plugins (insert_sorted n v refused)) (unrefused plugins refused)
            (has_key_old n v refused e.0) (unrefused-insert_sorted_lt plugins n v refused q new)
    ]

insert-Grows :
    (plugins : List (Bytes × List Bytes)) (n : Bytes) (v : Refusal)
    (refused : List (Bytes × Refusal)) (waiting : List Bytes)
    → has_key plugins n ≡ true
    → has_key refused n ≡ false
    → Grows plugins (refused, waiting) (insert_sorted n v refused, n ∷ waiting)
unfolding has_name
insert-Grows plugins n v refused waiting h new = record {
  refused_stay = λ k q. has_key_old n v refused k q;
  waiting_stay = λ k q. or_right_true (text_eq n k) (any (λ x. text_eq x k) waiting) q;
  new_wait = λ k q.
      elim (or_true (text_eq n k) (has_key refused k)
        (sym (has_key-insert_sorted n v refused k) ∙ q)) [ inl r ↦ inr (rw r) | inr r ↦ inl r ];
  no_more = omega (arith, unrefused-insert_sorted_lt plugins n v refused h new);
}

pub refuse-Grows :
    (plugins : List (Bytes × List Bytes)) (n : Bytes) (v : Refusal) (s : Spread)
    → has_key plugins n ≡ true
    → Grows plugins s (refuse n v s)
unfolding refuse emplace
refuse-Grows plugins n v (refused, waiting) h = elim (Bool-cases (has_key refused n)) [
  | inl q ↦ simp q (Grows-refl plugins (refused, waiting))
  | inr q ↦ simp q (insert-Grows plugins n v refused waiting h q)
]

pub has_key-refuse : (n : Bytes) (v : Refusal) (s : Spread) → has_key (refuse n v s).0 n ≡ true
unfolding refuse emplace
has_key-refuse n v (refused, waiting) = elim (Bool-cases (has_key refused n)) [
  | inl q ↦ simp q
  | inr q ↦ simp q (has_key_self n v refused)
]

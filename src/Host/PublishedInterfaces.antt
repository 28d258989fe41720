-- ===== src/Host/PublishedInterfaces.antt =====
-- src/Host/Plugins/PublishedInterfaces.cpp. Owners and implementations are addresses, an implementation of zero
-- is the null pointer.
pub mod Ownership
use voltmod.Common.{
  ℕ, zero, suc, ◌+◌, ◌-◌, ◌*◌, ◌/◌, ◌%◌, ◌^◌, ◌≤◌, ◌<◌, ◌≡◌, refl, sym, ap, ◌∙◌, ◌≢◌, ◌↔◌, ◌⊎◌, inl,
  inr, Bool, true, false, not, ◌&&◌, ◌||◌, Option, none, some, List, [], ◌∷◌, ◌++◌, map, arith, ltb,
  leb, ◌==◌, if◌then◌else◌, ltb→lt, lt→ltb, leb→le, ==_iff, tests, or_left, or_right, or_true,
  or_right_true, and_both, true_not-false, find_if-append_some, find_if-append_none, find_if-keep,
  find_if_holds, Bool-cases, Option-cases, List-cases, drop_nil, length, get_elem?, set,
  length-append, get_or, take, drop, replicate, take-append-drop, length-take, length-drop,
  length-map, take_of_length-le, keep, any, all, find_if, All, All-append, All-keep, All-keep_self,
  All-map, all_mono, All-keep_both, All-Mem, get_elem?_lt, All-get_elem?, contains, ℤ, pos, negsuc,
  pos_part, neg_part, sub_ℕ, ◌+ℤ◌, ◌-ℤ◌, ◌≤ℤ◌, ltb_ℤ, leb_ℤ, eqb_ℤ, eqb_ℤ_iff, ℤ_discrete, Bytes,
  bytes, text_eq, text_eq_to, text_eq_refl, starts_with, starts_with-append, find_key, put_key,
  erase_key, find_key-put_key, find_key-erase_key,
}

pub record Service : Type 0 where
  pub name : Bytes
  pub implementation : ℕ
  pub owner : ℕ

abbrev is_empty : Bytes → Bool
is_empty [] = true
is_empty (c ∷ cs) = false

unfoldable pub service_of : List Service → Bytes → Option Service
service_of services name = find_if (λ s. text_eq s.name name) services

-- The first service of the name with its implementation replaced.
pub refresh : Bytes → ℕ → List Service → List Service
refresh name implementation [] = []
refresh name implementation (s ∷ services) =
    if text_eq s.name name
    then record s { implementation = implementation } ∷ services
    else s ∷ refresh name implementation services

pub publish_at : List Service → ℕ → Bytes → ℕ → Option Service → List Service
publish_at services owner name implementation none =
    services ++ record { name = name; implementation = implementation; owner = owner } ∷ []
publish_at services owner name implementation (some held) =
    if held.owner == owner then refresh name implementation services else services

pub publish : List Service → ℕ → Bytes → ℕ → List Service
publish services owner name implementation =
    if is_empty name || (implementation == 0)
    then services
    else publish_at services owner name implementation (service_of services name)

-- Without the first service of the name.
unfoldable pub erase : Bytes → List Service → List Service
erase name [] = []
erase name (s ∷ services) = if text_eq s.name name then services else s ∷ erase name services

pub unpublish_at : List Service → ℕ → Bytes → Option Service → List Service
unpublish_at services owner name none = services
unpublish_at services owner name (some held) =
    if not (held.owner == owner) then services else erase name services

pub unpublish : List Service → ℕ → Bytes → List Service
unpublish services owner name = unpublish_at services owner name (service_of services name)

abbrev pub implementation_of : Option Service → ℕ
implementation_of none = 0
implementation_of (some held) = held.implementation

unfoldable pub find : List Service → Bytes → ℕ
find services name = implementation_of (service_of services name)

-- What is left, and the names withdrawn.
unfoldable pub remove_all : List Service → ℕ → List Service × List Bytes
remove_all services owner = (
  keep (λ s. not (s.owner == owner)) services,
  map (λ s. s.name) (keep (λ s. s.owner == owner) services),
)

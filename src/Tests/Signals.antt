-- ===== src/Tests/Signals.antt =====
-- The callback registry.
use voltmod.Signals.Registry.{visit_from, visit, end_scope, drop_entry, locate}
use voltmod.Signals.Registry.{end_scope}
use voltmod.Signals.Registry.{visit}
use voltmod.Signals.Registry.{visit_from}
use voltmod.Signals.Registry.{Registry, add, remove, clear, dispatch_if}
use voltmod.Signals.Registry.Valid.{Valid, operations-Valid, add-Valid, remove-Valid}
use voltmod.Signals.Registry.Dispatch.{
  WellBehaved, dispatch_if-Valid, add-Extends, remove-Extends, Extends-trans,
}
use voltmod.Signals.Registry.Newcomers.{dispatch_if_newcomers}
use voltmod.Common.{ℕ, ◌≡◌, refl, true, false, [], ◌∷◌, arith, ltb, if◌then◌else◌, lt→ltb}

-- Two items, under the handles 1 and 2.
abbrev two : Registry ℕ
two = record {
  entries =
      record { id = 1; item = 10; removed = false }
      ∷ record { id = 2; item = 20; removed = false }
      ∷ [];
  live = 2;
  depth = 0;
  next_id = 3;
}

two-Valid : Valid two
two-Valid = record { ordered = omega arith; counted = refl; settled = λ z. refl }

-- A callback that removes itself and subscribes again.
abbrev renew : ℕ → Registry ℕ → Registry ℕ
renew id r = (add (remove r id).0 id).0

renew-WellBehaved : WellBehaved renew
renew-WellBehaved id r v d = (
  add-Valid (remove r id).0 id (remove-Valid r id v),
  Extends-trans r (remove r id).0 (renew id r) (remove-Extends r id d)
      (add-Extends (remove r id).0 id),
)

operations-Valid_example : Valid (add two 30).0 × Valid (remove two 1).0 × Valid (clear two)
operations-Valid_example = operations-Valid two 30 1 two-Valid

dispatch_if-Valid_example :
    Valid (dispatch_if (λ item. true) renew two)
    × ((dispatch_if (λ item. true) renew two).depth ≡ 0)
dispatch_if-Valid_example = dispatch_if-Valid (λ item. true) renew renew-WellBehaved two two-Valid

-- Both items renew themselves, and the renewed ones wait for the next dispatch.
dispatch_run : (dispatch_if (λ item. true) renew two).next_id ≡ 5
unfolding dispatch_if visit_from visit end_scope add remove drop_entry locate
dispatch_run = refl

-- As `renew`, but a handle that was handed out later clears the registry.
abbrev renew_or_clear : ℕ → Registry ℕ → Registry ℕ
renew_or_clear id r = if ltb id 3 then renew id r else clear r

dispatch_if_newcomers_example :
    dispatch_if (λ item. true) renew two ≡ dispatch_if (λ item. true) renew_or_clear two
dispatch_if_newcomers_example =
    dispatch_if_newcomers (λ item. true) renew renew_or_clear two two-Valid renew-WellBehaved
      (λ id s l. rw (lt→ltb id 3 l))

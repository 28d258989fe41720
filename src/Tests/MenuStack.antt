-- ===== src/Tests/MenuStack.antt =====
-- The menus of a slot.
use voltmod.Menu.MenuStack.{
  pop_state, any_open_below, any_open, is_open, is_pending, root, depth, bottom, Menu, Menus,
  Handlers, no_entry, state_of, entry_of, set_entry, crumbs, path_below, rebuild, push, keep_root,
  button,
}
use voltmod.Menu.MenuStack.Derived.{
  InOrder, no_menus-IsDerived, set_state-InOrder, set_entry-InOrder,
}
use voltmod.Menu.MenuStack.Calls.{Keeps, StaysOpen, pop_menu, run, run-InOrder}
use voltmod.Menu.MenuStack.Acting.{run_commit, apply, settle_other, hold, pop, pop_to_root}
use voltmod.Menu.MenuStack.Bursts.{hold_all, apply-hold_all}
use voltmod.Common.{
  ◌≡◌, refl, inl, true, false, none, some, [], ◌∷◌, pos, ℤ_discrete, bytes, find_key, put_key,
}

abbrev silent : Handlers
silent = record {
  describe = λ d slot. record {
    label = [];
    value = [];
    kind = button;
    enabled = true;
    selectable = true;
    steppable = false;
    state = none;
    icon = [];
    pending = false;
    changed = false;
  };
  activate = λ a slot m. m;
  step = λ f slot direction m. (m, true);
  commit = λ c slot m. m;
  committed = λ slot m. m;
  translate = λ key slot text. text;
}

silent-Keeps : Keeps silent
silent-Keeps = record {
  activate = λ a slot m h. h;
  step = λ f slot direction m h. h;
  commit = λ c slot m h. h;
  committed = λ slot m h. h;
}

abbrev closed : Menus
closed = record { states = []; entries = [] }

closed-InOrder : InOrder closed
unfolding state_of find_key
closed-InOrder slot = no_menus-IsDerived

abbrev shop : Menu
shop = record { id = 1; title = bytes "Shop"; items = [] }

abbrev knives : Menu
knives = record { id = 2; title = bytes "Knives"; items = [] }

apply-hold_all_example :
    apply silent
      (hold silent (hold_all silent closed (pos 4) (pos 0) (10 ∷ 11 ∷ [])) (pos 4) (pos 0) 12)
      (pos 4)
    ≡ run_commit silent
        (some 12)
        (pos 4)
        (set_entry (pos 4) no_entry (settle_other silent closed (pos 4) (pos 0)))
apply-hold_all_example = apply-hold_all silent closed (pos 4) (pos 0) (10 ∷ 11 ∷ []) 12 refl

-- The shop below the knives.
abbrev in_shop : Menus
in_shop = record {
  states =
      (pos 4, record { menus = some knives ∷ some shop ∷ []; rows = []; breadcrumb = bytes "Shop" })
      ∷ [];
  entries = (pos 4, record { index = pos 1; commit = some 9 }) ∷ [];
}

abbrev shop_alone : Menus
shop_alone = record {
  states = (pos 4, record { menus = some shop ∷ []; rows = []; breadcrumb = [] }) ∷ [];
  entries = [];
}

opened : push closed (pos 4) (some shop) ≡ some shop_alone
unfolding push rebuild path_below crumbs state_of find_key put_key ℤ_discrete
opened = refl

opened_above : push shop_alone (pos 4) (some knives) ≡ some (record in_shop { entries = [] })
unfolding push rebuild path_below crumbs state_of find_key put_key ℤ_discrete
opened_above = refl

in_shop-InOrder : InOrder in_shop
unfolding put_key path_below crumbs
in_shop-InOrder =
    set_entry-InOrder (pos 4) (record { index = pos 1; commit = some 9 }) _
      (set_state-InOrder (pos 4)
        (record { menus = some knives ∷ some shop ∷ []; rows = []; breadcrumb = bytes "Shop" })
        closed ((tt, (tt, tt)), refl, inl refl) closed-InOrder)

commit_stays : StaysOpen silent in_shop (pos 4)
unfolding apply state_of entry_of find_key put_key ℤ_discrete
commit_stays v e = cc

run-InOrder_example :
    (after : Menus) × (run silent (pop_menu (pos 4)) in_shop ≡ some after) × InOrder after
run-InOrder_example =
    run-InOrder silent (pop_menu (pos 4)) in_shop silent-Keeps in_shop-InOrder commit_stays

shop_left :
    pop silent in_shop (pos 4) ≡ some (record shop_alone { entries = (pos 4, no_entry) ∷ [] })
unfolding pop pop_state apply rebuild path_below crumbs entry_of state_of find_key put_key
    ℤ_discrete
shop_left = refl

-- A commit that closes the menus leaves `pop_back` of nothing.
abbrev closing : Handlers
closing = record silent { commit = λ c slot m. record m { states = [] } }

undefined_pop : pop closing in_shop (pos 4) ≡ none
unfolding pop pop_state apply entry_of state_of find_key put_key ℤ_discrete
undefined_pop = refl

shop_is_root : root in_shop (pos 4) ≡ some shop
unfolding root bottom state_of find_key ℤ_discrete
shop_is_root = refl

two_deep : depth in_shop (pos 4) ≡ 2
unfolding depth state_of find_key ℤ_discrete
two_deep = refl

some_open : any_open in_shop ≡ true
unfolding any_open any_open_below state_of find_key ℤ_discrete
some_open = refl

open_there : is_open in_shop (pos 4) ≡ true
unfolding is_open depth state_of find_key ℤ_discrete
open_there = refl

second_pending : is_pending in_shop (pos 4) (pos 1) ≡ true
unfolding is_pending entry_of find_key ℤ_discrete
second_pending = refl

back :
    pop_to_root silent in_shop (pos 4)
    ≡ some (record {
      states = (pos 4, record { menus = some shop ∷ []; rows = []; breadcrumb = [] }) ∷ [];
      entries = (pos 4, no_entry) ∷ [];
    })
unfolding pop_to_root apply keep_root bottom rebuild path_below crumbs entry_of state_of find_key
    put_key ℤ_discrete
back = refl

-- Behind a commit that closes the menus, `PopToRoot` leaves a null pointer, whose title the next `Push` reads.
abbrev null_root : Menus
null_root = record {
  states = (pos 4, record { menus = none ∷ []; rows = []; breadcrumb = [] }) ∷ [];
  entries = (pos 4, no_entry) ∷ [];
}

null_left : pop_to_root closing in_shop (pos 4) ≡ some null_root
unfolding pop_to_root apply keep_root bottom rebuild path_below crumbs entry_of state_of find_key
    put_key ℤ_discrete
null_left = refl

undefined_push : push null_root (pos 4) (some shop) ≡ none
unfolding push rebuild path_below crumbs state_of find_key put_key ℤ_discrete
undefined_push = refl

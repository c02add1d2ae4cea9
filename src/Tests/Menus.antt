-- ===== src/Tests/Menus.antt =====
-- views/menu_view.js: a menu of three items, of which the second is disabled and the third has a submenu.
-- views/multiselection_menu_view.js: a menu of three items, of which the third stands for two values.
use flame_js.Prelude.{ℕ, ◌≡◌, refl, true, false, none, some, [], ◌∷◌}
use flame_js.Prelude.{Bool-cases, inl, inr, arith, if◌then◌else◌, ◌==◌}
use flame_js.Prelude.Items.{without}
use flame_js.MultiMenu.{
  Choice, one, all, MultiMenu, downward, move, enter, mouse_leave, click, handle_all,
}
use flame_js.MultiMenu.Chosen.{IsChosen, GoodChoice, handle_all-IsChosen}
use flame_js.Menu.{
  Entry, entry, no_sub_menu, sub_menu, Entries, no_entries, and_entry, Menu, Menus, new_menu,
  MenuState, move_down, move_up, set_highlight, make_selection, selectable_value, is_selectable,
}
use flame_js.Menu.Selection.{
  down, right, press_all, Synced, AllSelect, AllOpen, press_all-Synced, make_selection-press_all,
  up, press,
}

abbrev below : Entry
below = entry 4 false no_sub_menu

abbrev items : Entries
items = and_entry (entry 1 false no_sub_menu) (
    and_entry (entry 2 true no_sub_menu)
      (and_entry (entry 3 false (sub_menu (and_entry below no_entries))) no_entries))

opened-Synced : Synced (new_menu items ∷ [])
unfolding Synced AllSelect AllOpen selectable_value
opened-Synced = ((refl, tt), tt)

press_all-Synced_example : Synced (press_all (down ∷ down ∷ right ∷ []) (new_menu items ∷ []))
press_all-Synced_example =
    press_all-Synced (down ∷ down ∷ right ∷ []) (new_menu items ∷ []) opened-Synced

abbrev state : Menus → MenuState
state menus = record { menus = menus; value = none; fired = [] }

-- The first item is highlighted.
abbrev first : Menu
first = record { entries = items; highlight = some 0; user_highlight = none; selection = some 1 }

pressed : press_all (down ∷ down ∷ up ∷ []) (new_menu items ∷ []) ≡ first ∷ []
unfolding press_all press move_down move_up set_highlight
pressed = refl

make_selection-press_all_example :
    make_selection
      (λ v. true)
      (record (state []) { menus = press_all (down ∷ down ∷ up ∷ []) (new_menu items ∷ []) })
    ≡ record { menus = []; value = some 1; fired = 1 ∷ [] }
unfolding selectable_value is_selectable
make_selection-press_all_example =
    make_selection-press_all (λ v. true) items (down ∷ down ∷ up ∷ []) (state []) first [] pressed

abbrev value_of : ℕ → Choice
value_of x = if x == 9 then all (1 ∷ 2 ∷ []) else one x

abbrev multi : MultiMenu
multi = record { items = 1 ∷ 2 ∷ 9 ∷ []; highlighted = some 9; value = 2 ∷ [] }

one_or_two-IsChosen : IsChosen (1 ∷ 2 ∷ [])
one_or_two-IsChosen = record { some_value = omega arith; no_repeats = λ a. ground arith }

value_of-GoodChoice : (x : ℕ) → GoodChoice (value_of x)
unfolding GoodChoice
value_of-GoodChoice x = elim (Bool-cases (x == 9)) [
  | inl e ↦ rw e one_or_two-IsChosen
  | inr e ↦ rw e tt
]

handle_all-IsChosen_example :
    IsChosen
      (handle_all value_of without multi
        (click 2 ∷ move downward ∷ enter ∷ mouse_leave ∷ enter ∷ [])).value
handle_all-IsChosen_example =
    handle_all-IsChosen value_of without (λ x xs. refl) value_of-GoodChoice multi
      (click 2 ∷ move downward ∷ enter ∷ mouse_leave ∷ enter ∷ [])
      (record { some_value = omega arith; no_repeats = λ a. ground arith })

-- ===== src/Menu/Selection.antt =====
-- views/menu_view.js: that the internal selection of open menus is the highlighted item of the deepest.
use mathlib.Core.Path.{subst}
use flame_js.Prelude.{
  ℕ, ◌≡◌, refl, sym, ap, ◌∙◌, Bool, true, Option, none, some, List, [], ◌∷◌, ◌++◌, arith,
  if◌then◌else◌, Bool-cases, Option-cases, inl, inr, map,
}
use flame_js.Menu.{
  Entry, entry, no_sub_menu, sub_menu, Entries, no_entries, and_entry, is_selectable, Menu, Menus,
  selectable_value, at_index, with_selection, same, set_highlight, highlight_found, move_down,
  move_up, new_menu, opens, move_right, move_left, root_selection, MenuState, make_selection,
}

-- The selectable item that is highlighted in a menu.
abbrev pub highlighted : Menu → Option ℕ
highlighted m = selectable_value (at_index m.entries m.highlight)

unfoldable pub AllSelect : Option ℕ → Menus → Type 0
AllSelect s [] = Unit {0}
AllSelect s (m ∷ ms) = (m.selection ≡ s) × AllSelect s ms

-- Each menu that has a submenu open highlights an item that is not selectable.
unfoldable pub AllOpen : Menus → Type 0
AllOpen [] = Unit {0}
AllOpen (m ∷ ms) = (highlighted m ≡ none) × AllOpen ms

-- The internal selection of all open menus is the selectable item highlighted in the deepest.
unfoldable pub Synced : Menus → Type 0
Synced [] = Unit {0}
Synced (m ∷ ms) = AllSelect (highlighted m) (m ∷ ms) × AllOpen ms

AllSelect-map : (s : Option ℕ) (ms : Menus) → AllSelect s (map (with_selection s) ms)
unfolding AllSelect
AllSelect-map s [] = tt
AllSelect-map s (m ∷ ms) = (refl, AllSelect-map s ms)

AllOpen-map : (s : Option ℕ) (ms : Menus) → AllOpen ms → AllOpen (map (with_selection s) ms)
unfolding AllOpen
AllOpen-map s [] h = tt
AllOpen-map s (m ∷ ms) h = (h.0, AllOpen-map s ms h.1)

highlight-Synced :
    (i : Option ℕ) (m : Menu) (ms : Menus) → Synced (m ∷ ms) → Synced (set_highlight 0 i (m ∷ ms))
unfolding set_highlight Synced AllSelect
highlight-Synced i m ms h = elim (Bool-cases (same m.highlight i)) [
  | inl e ↦ rw e h
  | inr e ↦ rw e ((refl, AllSelect-map _ ms), AllOpen-map _ ms h.1)
]

found-Synced :
    (o : Option ℕ) (m : Menu) (ms : Menus) → Synced (m ∷ ms) → Synced (highlight_found o (m ∷ ms))
unfolding highlight_found
found-Synced none m ms h = h
found-Synced (some i) m ms h = highlight-Synced (some i) m ms h

pub move_down-Synced : (ms : Menus) → Synced ms → Synced (move_down ms)
unfolding move_down
move_down-Synced [] h = h
move_down-Synced (m ∷ ms) h = found-Synced _ m ms h

pub move_up-Synced : (ms : Menus) → Synced ms → Synced (move_up ms)
unfolding move_up
move_up-Synced [] h = h
move_up-Synced (m ∷ ms) h = found-Synced _ m ms h

opens-none : (e : Option Entry) {es : Entries} → opens e ≡ some es → selectable_value e ≡ none
unfolding opens selectable_value is_selectable
opens-none none e = absurd cc
opens-none (some (entry v d no_sub_menu)) e = absurd cc
opens-none (some (entry v d (sub_menu no_entries))) e = absurd cc
opens-none (some (entry v d (sub_menu (and_entry x es)))) e = refl

new_menu-Synced :
    (es : Entries) (m : Menu) (ms : Menus)
    → opens (at_index m.entries m.highlight) ≡ some es
    → Synced (m ∷ ms)
    → Synced (new_menu es ∷ m ∷ ms)
unfolding Synced AllSelect AllOpen selectable_value
new_menu-Synced es m ms o h =
    let none_here = opens-none (at_index m.entries m.highlight) o in
    ((refl, subst (λ s. AllSelect s (m ∷ ms)) none_here h.0), (none_here, h.1))

pub move_right-Synced : (ms : Menus) → Synced ms → Synced (move_right ms)
unfolding move_right
move_right-Synced [] h = h
move_right-Synced (m ∷ ms) h = elim (Option-cases (opens (at_index m.entries m.highlight))) [
  | inl e ↦
      subst Synced
        (sym (
          ap
            (λ o. elim o as (λ _. Menus) [
              | none ↦ m ∷ ms
              | some es ↦ move_down (new_menu es ∷ m ∷ ms)
            ])
            e))
        h
  | inr (es, e) ↦
      subst Synced
        (sym (
          ap
            (λ o. elim o as (λ _. Menus) [
              | none ↦ m ∷ ms
              | some x ↦ move_down (new_menu x ∷ m ∷ ms)
            ])
            e))
        (move_down-Synced (new_menu es ∷ m ∷ ms) (new_menu-Synced es m ms e h))
]

nothing : (m : Menu) → same m.highlight none ≡ true → highlighted m ≡ none
unfolding selectable_value
nothing m e = elim (Option-cases m.highlight) [
  | inl q ↦ ap (λ o. selectable_value (at_index m.entries o)) q
  | inr (i, q) ↦ absurd (ground arith)
]

pub move_left-Synced : (ms : Menus) → Synced ms → Synced (move_left ms)
unfolding move_left Synced AllSelect AllOpen
move_left-Synced [] h = h
move_left-Synced (m ∷ []) h = h
move_left-Synced (m ∷ p ∷ ms) h = elim (Bool-cases (same m.highlight none)) [
  | inl e ↦ rw e (subst (λ s. AllSelect s (p ∷ ms)) (nothing m e ∙ sym h.1.0) h.0.1, h.1.1)
  | inr e ↦ rw e (
    subst (λ s. AllSelect s (map (with_selection none) (p ∷ ms))) (sym h.1.0)
        (AllSelect-map none (p ∷ ms)),
    AllOpen-map none ms h.1.1,
  )
]

pub data Key : Type 0 where
  up down left right : Key

unfoldable pub press : Key → Menus → Menus
press up ms = move_up ms
press down ms = move_down ms
press left ms = move_left ms
press right ms = move_right ms

unfoldable pub press_all : List Key → Menus → Menus
unfolding press
press_all [] ms = ms
press_all (k ∷ ks) ms = press_all ks (press k ms)

press-Synced : (k : Key) (ms : Menus) → Synced ms → Synced (press k ms)
unfolding press
press-Synced up ms h = move_up-Synced ms h
press-Synced down ms h = move_down-Synced ms h
press-Synced left ms h = move_left-Synced ms h
press-Synced right ms h = move_right-Synced ms h

-- Whatever arrow keys are pressed, the internal selection of all open menus is the selectable item
-- that is highlighted in the deepest one, and the menus above it highlight none, where that was so
-- before.
pub press_all-Synced : (ks : List Key) (ms : Menus) → Synced ms → Synced (press_all ks ms)
unfolding press_all
press_all-Synced [] ms h = h
press_all-Synced (k ∷ ks) ms h = press_all-Synced ks (press k ms) (press-Synced k ms h)

root_selection-AllSelect :
    (s : Option ℕ) (m : Menu) (ms : Menus) → AllSelect s (m ∷ ms) → root_selection (m ∷ ms) ≡ s
unfolding root_selection AllSelect
root_selection-AllSelect s m [] h = h.0
root_selection-AllSelect s m (p ∷ ms) h = root_selection-AllSelect s p ms h.1

-- The enter key where the selection is in step with the highlight.
make_selection_lem :
    (has_action : ℕ → Bool) (s : MenuState) (m : Menu) (ms : Menus)
    → s.menus ≡ m ∷ ms
    → Synced s.menus
    → make_selection has_action s ≡ elim (highlighted m) as (λ _. MenuState) [
      | none ↦ record s { menus = [] }
      | some v ↦ record {
        menus = [];
        value = some v;
        fired = if has_action v then s.fired ++ v ∷ [] else s.fired;
      }
    ]
unfolding make_selection Synced
make_selection_lem has_action s m ms e h =
    let h' : Synced (m ∷ ms) = subst Synced e h in
    ap
      (λ o. elim o as (λ _. MenuState) [
        | none ↦ record s { menus = [] }
        | some v ↦ record {
          menus = [];
          value = some v;
          fired = if has_action v then s.fired ++ v ∷ [] else s.fired;
        }
      ])
      (ap root_selection e ∙ root_selection-AllSelect (highlighted m) m ms h'.0)

opened-Synced : (es : Entries) → Synced (new_menu es ∷ [])
unfolding Synced AllSelect AllOpen selectable_value
opened-Synced es = ((refl, tt), tt)

-- A menu is opened with nothing highlighted, any arrow keys are pressed, which leave it open with perhaps
-- some submenus, and then the enter key: the value is the selectable item highlighted in the deepest menu
-- that is open, and its action, if any, is fired; where no selectable item is highlighted there, the value
-- is as it was and nothing is fired. All menus close.
pub make_selection-press_all :
    (has_action : ℕ → Bool) (es : Entries) (ks : List Key) (s : MenuState) (m : Menu) (ms : Menus)
    → press_all ks (new_menu es ∷ []) ≡ m ∷ ms
    → make_selection has_action (record s { menus = press_all ks (new_menu es ∷ []) })
      ≡ elim (highlighted m) as (λ _. MenuState) [
        | none ↦ record s { menus = [] }
        | some v ↦ record {
          menus = [];
          value = some v;
          fired = if has_action v then s.fired ++ v ∷ [] else s.fired;
        }
      ]
make_selection-press_all has_action es ks s m ms e =
    make_selection_lem has_action (record s { menus = press_all ks (new_menu es ∷ []) }) m ms e
      (press_all-Synced ks (new_menu es ∷ []) (opened-Synced es))

-- ===== src/Menu.antt =====
-- views/menu_view.js: a menu with its open submenus, by keyboard and mouse.
pub mod Highlight
pub mod Selection
pub mod Reentering
use flame_js.Prelude.{
  ℕ, zero, suc, ◌+◌, ◌-◌, Bool, true, false, not, ◌&&◌, ◌||◌, Option, none, some, List, [], ◌∷◌,
  ◌++◌, if◌then◌else◌, ◌==◌, map, drop, take, length, ltb,
}

-- The items of a menu: the number stands for the item with its value; `is_disabled`; the items of its
-- submenu, where it has one.
mutual
  pub data Entry : Type 0 where
    entry : ℕ → Bool → SubMenu → Entry

  pub data SubMenu : Type 0 where
    no_sub_menu : SubMenu
    sub_menu : Entries → SubMenu

  pub data Entries : Type 0 where
    no_entries : Entries
    and_entry : Entry → Entries → Entries

abbrev pub entry_at : Entries → ℕ → Option Entry
entry_at no_entries i = none
entry_at (and_entry e es) zero = some e
entry_at (and_entry e es) (suc i) = entry_at es i

abbrev pub count_entries : Entries → ℕ
count_entries no_entries = 0
count_entries (and_entry e es) = suc (count_entries es)

-- `MenuItem.prototype.isEnabled`
unfoldable pub is_enabled : Entry → Bool
is_enabled (entry v disabled no_sub_menu) = not disabled
is_enabled (entry v disabled (sub_menu no_entries)) = false
is_enabled (entry v disabled (sub_menu (and_entry e es))) = not disabled

-- `isSelectable`
unfoldable pub is_selectable : Entry → Bool
unfolding is_enabled
is_selectable (entry v disabled no_sub_menu) = is_enabled (entry v disabled no_sub_menu)
is_selectable (entry v disabled (sub_menu no_entries)) =
    is_enabled (entry v disabled (sub_menu no_entries))
is_selectable (entry v disabled (sub_menu (and_entry e es))) = false

-- One open menu. An index of -1 is none, and `selection` is `_internalSelection`.
pub record Menu : Type 0 where
  pub entries : Entries
  pub highlight : Option ℕ
  pub user_highlight : Option ℕ
  pub selection : Option ℕ

-- The open menus, the deepest first: each is the submenu of the highlighted item of the next.
abbrev pub Menus : Type 0
Menus = List Menu

abbrev pub same : Option ℕ → Option ℕ → Bool
same none none = true
same (some i) (some j) = i == j
same none (some j) = false
same (some i) none = false

-- The internal selection that goes with a highlighted entry.
unfoldable pub selectable_value : Option Entry → Option ℕ
unfolding is_selectable
selectable_value none = none
selectable_value (some (entry v d s)) = if is_selectable (entry v d s) then some v else none

abbrev pub at_index : Entries → Option ℕ → Option Entry
at_index es none = none
at_index es (some i) = entry_at es i

abbrev pub with_selection : Option ℕ → Menu → Menu
with_selection s m = record m { selection = s }

-- `set('_highlightIndex', index)` on a menu with its parents, with the observers: a change closes the
-- submenus below, and the new internal selection goes to the parents.
unfoldable pub highlight_in : Option ℕ → Menus → Menus → Menus
unfolding selectable_value
highlight_in i all [] = all
highlight_in i all (m ∷ parents) =
    let s = selectable_value (at_index m.entries i) in
    if same m.highlight i
    then all
    else record m { highlight = i; selection = s } ∷ map (with_selection s) parents

-- The same on the menu that is j levels above the deepest one.
unfoldable pub set_highlight : ℕ → Option ℕ → Menus → Menus
unfolding highlight_in
set_highlight j i menus = highlight_in i menus (drop j menus)

-- `_selectNext(1)` and `_selectNext(-1)`: the next index of an enabled item. Upwards, the entries from
-- the index i on are left, downwards the fuel is the index itself.
unfoldable pub next_enabled : ℕ → Entries → Option ℕ
unfolding is_enabled
next_enabled i no_entries = none
next_enabled i (and_entry (entry v d s) es) =
    let rest = next_enabled (suc i) es in if is_enabled (entry v d s) then some i else rest

unfoldable pub entries_from : ℕ → Entries → Entries
entries_from zero es = es
entries_from (suc i) no_entries = no_entries
entries_from (suc i) (and_entry e es) = entries_from i es

unfoldable pub enabled_at : Entries → ℕ → Bool
unfolding is_enabled
enabled_at es i = elim (entry_at es i) [ none ↦ false | some e ↦ is_enabled e ]

unfoldable pub previous_enabled : Entries → ℕ → Option ℕ
unfolding enabled_at
previous_enabled es zero = none
previous_enabled es (suc i) =
    let rest = previous_enabled es i in if enabled_at es i then some i else rest

-- From no highlight, -1, the search starts at 0 on the way down the menu and finds nothing on the way up.
unfoldable pub next_index : Entries → Option ℕ → Option ℕ
unfolding next_enabled entries_from
next_index es none = next_enabled 0 es
next_index es (some i) = next_enabled (suc i) (entries_from (suc i) es)

unfoldable pub previous_index : Entries → Option ℕ → Option ℕ
unfolding previous_enabled
previous_index es none = none
previous_index es (some i) = previous_enabled es i

unfoldable pub highlight_found : Option ℕ → Menus → Menus
unfolding set_highlight
highlight_found none menus = menus
highlight_found (some i) menus = set_highlight 0 (some i) menus

-- `moveDown` and `moveUp` of the deepest menu, which has the key focus.
unfoldable pub move_down : Menus → Menus
unfolding highlight_found next_index
move_down [] = []
move_down (m ∷ parents) = highlight_found (next_index m.entries m.highlight) (m ∷ parents)

unfoldable pub move_up : Menus → Menus
unfolding highlight_found previous_index
move_up [] = []
move_up (m ∷ parents) = highlight_found (previous_index m.entries m.highlight) (m ∷ parents)

abbrev pub new_menu : Entries → Menu
new_menu es = record { entries = es; highlight = none; user_highlight = none; selection = none }

-- The submenu that an item opens.
unfoldable pub opens : Option Entry → Option Entries
unfolding is_enabled
opens none = none
opens (some (entry v d no_sub_menu)) = none
opens (some (entry v d (sub_menu no_entries))) = none
opens (some (entry v d (sub_menu (and_entry e es)))) = if d then none else some (and_entry e es)

open_menu : Option Entries → Menus → Menus
open_menu none menus = menus
open_menu (some es) menus = new_menu es ∷ menus

-- `_tryOpenSubmenu(false)` of the deepest menu, whose submenus are all closed.
unfoldable pub try_open_submenu : Menus → Menus
unfolding open_menu opens
try_open_submenu [] = []
try_open_submenu (m ∷ parents) = open_menu (opens (at_index m.entries m.highlight)) (m ∷ parents)

-- `moveRight`: the submenu opens with its first enabled item highlighted.
unfoldable pub move_right : Menus → Menus
unfolding try_open_submenu move_down
move_right [] = []
move_right (m ∷ parents) = elim (opens (at_index m.entries m.highlight)) [
  | none ↦ m ∷ parents
  | some es ↦ move_down (new_menu es ∷ m ∷ parents)
]

-- `moveLeft`, and `cancel` of a submenu: the parent closes it, which takes its highlight away first.
unfoldable pub move_left : Menus → Menus
unfolding set_highlight
move_left [] = []
move_left (m ∷ []) = m ∷ []
move_left (m ∷ p ∷ parents) = drop 1 (set_highlight 0 none (m ∷ p ∷ parents))

-- What `makeSelection` gives the outermost menu as its value, and whether an item was selected, where
-- an action is fired. All menus close.
root_selection : Menus → Option ℕ
root_selection [] = none
root_selection (m ∷ []) = m.selection
root_selection (m ∷ p ∷ parents) = root_selection (p ∷ parents)

pub record MenuState : Type 0 where
  pub menus : Menus
  pub value : Option ℕ
  pub fired : List ℕ

unfoldable pub make_selection : (ℕ → Bool) → MenuState → MenuState
unfolding root_selection
make_selection has_action s = elim (root_selection s.menus) [
  | none ↦ record s { menus = [] }
  | some v ↦ record {
    menus = [];
    value = some v;
    fired = if has_action v then s.fired ++ v ∷ [] else s.fired;
  }
]

-- `set('_userHighlightIndex', index)` with its observer, on a menu with its parents and the menus below.
user_highlight_in : Option ℕ → Menus → Menus → Menus
unfolding highlight_in
user_highlight_in i below [] = below
user_highlight_in i below (m ∷ parents) =
    let marked = record m { user_highlight = i } ∷ parents in
    if same m.user_highlight i
    then below ++ m ∷ parents
    else highlight_in i (below ++ marked) marked

unfoldable pub set_user_highlight : ℕ → Option ℕ → Menus → Menus
unfolding user_highlight_in
set_user_highlight j i menus = user_highlight_in i (take j menus) (drop j menus)

-- The internal selection set on the menu j levels above the deepest, and so on its parents.
unfoldable pub select_from : ℕ → Option ℕ → Menus → Menus
select_from j s menus = take j menus ++ map (with_selection s) (drop j menus)

-- The menu that is the n-th from the outermost one, as its place above the deepest.
abbrev pub level : ℕ → Menus → ℕ
level n menus = length menus - n

item_value : Option Entry → Option ℕ
item_value none = none
item_value (some (entry v d s)) = some v

-- The pointed item of a menu with an open submenu: `subMenuView` is set on the highlighted item. Where
-- another one is pointed at, as the pointer had been there already, `_tryOpenSubmenu` meets the submenu.
over_parent : ℕ → ℕ → ℕ → Menu → Menus → Menus
unfolding set_user_highlight select_from item_value
over_parent n i k m menus =
    let left = set_user_highlight k none menus in
    if same m.highlight (some i)
    then select_from (level n left) (item_value (entry_at m.entries i)) left
    else left

over_menu : ℕ → ℕ → ℕ → Menus → Menus → Menus
unfolding over_parent try_open_submenu
over_menu n i j [] menus = menus
over_menu n i zero (m ∷ parents) menus = try_open_submenu menus
over_menu n i (suc k) (m ∷ parents) menus = over_parent n i k m menus

-- `mouseEntered(index)` on the n-th menu.
unfoldable pub mouse_entered : ℕ → ℕ → Menus → Menus
unfolding over_menu
mouse_entered n i menus =
    let entered = set_user_highlight (level n menus) (some i) menus in
    over_menu n i (level n entered) (drop (level n entered) entered) entered

-- Whether the user has pointed at some item of the menu.
pointed_in : Menus → Bool
pointed_in [] = false
pointed_in (m ∷ parents) = elim m.user_highlight [ none ↦ false | some i ↦ true ]

-- `mouseClicked(index)` on the n-th menu; `early` says that the outermost menu has just been opened.
unfoldable pub mouse_clicked : (ℕ → Bool) → Bool → ℕ → ℕ → MenuState → MenuState
unfolding pointed_in set_highlight make_selection
mouse_clicked has_action early n i s =
    if n == 1 && early
    then s
    else (let menus' = set_highlight (level n s.menus) (some i) s.menus in
        let clicked = record s { menus = menus' } in
        if pointed_in (drop (level n menus') menus')
        then make_selection has_action clicked
        else clicked)

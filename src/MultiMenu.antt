-- ===== src/MultiMenu.antt =====
-- views/multiselection_menu_view.js: a menu of one level from which several values are chosen.
pub mod Wrap
pub mod Chosen
use flame_js.Prelude.{
  ℕ, zero, suc, ◌+◌, ◌-◌, ◌*◌, ◌%◌, Bool, true, false, not, Option, none, some, List, [], ◌∷◌, ◌++◌,
  if◌then◌else◌, ◌==◌, ltb, length, get_elem?,
}

-- The value of an item: one value, or an array of values that takes the place of all that is chosen.
pub data Choice : Type 0 where
  one : ℕ → Choice
  all : List ℕ → Choice

-- Items are numbered; `highlighted` is `_highlightedItem`, and `value` the array of chosen values.
pub record MultiMenu : Type 0 where
  pub items : List ℕ
  pub highlighted : Option ℕ
  pub value : List ℕ

pub data Direction : Type 0 where
  upward downward : Direction

unfoldable pub index_of : ℕ → List ℕ → Option ℕ
index_of x [] = none
index_of x (y ∷ ys) =
    let rest = index_of x ys in
    if y == x then some 0 else elim rest [ none ↦ none | some i ↦ some (suc i) ]

-- `(selectedItemIndex + increment) % length`, and the length added to a negative result. An item that is
-- not in the list has the index -1, and -2 % length is 0 for a length of 1 or 2.
unfoldable pub wrapped : Direction → ℕ → Option ℕ → ℕ
wrapped downward n (some i) = (i + 1) % n
wrapped downward n none = 0
wrapped upward n (some zero) = n - 1
wrapped upward n (some (suc i)) = i % n
wrapped upward n none = if ltb n 3 then 0 else n - 2

-- Without a highlighted item the search starts from an end of the list.
unfoldable pub next_item : Direction → List ℕ → Option ℕ → ℕ
unfolding wrapped index_of
next_item d items (some x) = wrapped d (length items) (index_of x items)
next_item downward items none = 0
next_item upward items none = length items - 1

-- `_highlightAdjacentMenuItem`
unfoldable pub highlight_adjacent : Direction → MultiMenu → MultiMenu
unfolding next_item
highlight_adjacent d m = record m {
  highlighted = get_elem? m.items (next_item d m.items m.highlighted);
}

unfoldable pub contains : ℕ → List ℕ → Bool
contains x [] = false
contains x (y ∷ ys) = let rest = contains x ys in if y == x then true else rest

pub data MenuEvent : Type 0 where
  move : Direction → MenuEvent
  enter : MenuEvent
  mouse_enter : ℕ → MenuEvent
  mouse_leave : MenuEvent
  click : ℕ → MenuEvent

module _ (value_of : ℕ → Choice) (remove_object : ℕ → List ℕ → List ℕ) where
  -- What is chosen after the choice, with `remove_object` for Ember's `removeObject`.
  unfoldable pub choose : Choice → List ℕ → List ℕ
  unfolding contains
  choose (all vs) value = vs
  choose (one v) value =
      if not (contains v value)
      then value ++ v ∷ []
      else if ltb 1 (length value)
      then remove_object v value
      else value

  -- `selectHighlightedItem`, which the handlers call with an item highlighted.
  unfoldable pub select_highlighted : MultiMenu → MultiMenu
  unfolding choose
  select_highlighted m = elim m.highlighted [
    | none ↦ m
    | some x ↦ record m { value = choose (value_of x) m.value }
  ]

  unfoldable pub handle : MultiMenu → MenuEvent → MultiMenu
  unfolding highlight_adjacent select_highlighted
  handle m (move d) = highlight_adjacent d m
  handle m enter = select_highlighted m
  handle m (mouse_enter x) = record m { highlighted = some x }
  handle m mouse_leave = record m { highlighted = none }
  handle m (click x) = select_highlighted (record m { highlighted = some x })

  unfoldable pub handle_all : MultiMenu → List MenuEvent → MultiMenu
  unfolding handle
  handle_all m [] = m
  handle_all m (e ∷ es) = handle_all (handle m e) es

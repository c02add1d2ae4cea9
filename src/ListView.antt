-- ===== src/ListView.antt =====
-- views/list_view.js: a list of views of items, one of which is selected, and which may be dragged.
pub mod Choosing
pub mod Keeping
pub mod Dragging
pub mod Marking
pub mod Selected
use flame_js.Prelude.{
  ℕ, zero, suc, ◌+◌, ◌-◌, Bool, true, false, Option, none, some, List, [], ◌∷◌, ◌++◌, ◌&&◌, ◌||◌,
  ◌==◌, ltb, if◌then◌else◌, length, get_elem?, set,
}
use flame_js.Statechart.{
  Property, state, Machine, Outcome, done, no_name, not_a_state, Chart, goto_flame_state, Reply,
  invoke_state_method,
}

pub data State : Type 0 where
  idle mouse_button_pressed reordering : State

pub State-discrete : Discrete State
State-discrete = hlevel

-- A child view; `allow_selection` is whether its `allowSelection` is not false.
pub record ItemView : Type 0 where
  pub is_visible : Bool
  pub allow_selection : Bool
  pub is_selected : Bool

-- What the list knows of its drag helper: where the mouse was, and the item's place.
pub record Helper : Type 0 where
  pub last_page_x : ℕ
  pub last_page_y : ℕ
  pub item_index : ℕ

-- What the list asks of its drag helper.
pub data Call : Type 0 where
  init_reorder finish_reorder : Call
  update_display : ℕ → ℕ → Call

-- The content is a list of numbered items, which the child views show in turn; `calls` are those of the
-- drag helper so far. In a drag the helper moves items of the content and their views, which is not
-- carried out here.
pub record Fields : Type 0 where
  pub content : List ℕ
  pub children : List ItemView
  pub selection : Option ℕ
  pub allow_selection : Bool
  pub allow_reordering : Bool
  pub drag_helper : Option Helper
  pub is_dragging : Bool
  pub calls : List Call

abbrev pub ListView : Type 0
ListView = Machine State Fields

abbrev pub with_fields : Fields → ListView → ListView
with_fields f b = record { current = b.current; owner = f }

-- `content.indexOf(item)`, none for -1.
unfoldable pub place_of : ℕ → List ℕ → Option ℕ
place_of x [] = none
place_of x (y ∷ ys) =
    let rest = place_of x ys in
    if y == x then some zero else elim rest [ none ↦ none | some i ↦ some (suc i) ]

abbrev pub set_status : ℕ → Bool → List ItemView → List ItemView
set_status i status vs = elim (get_elem? vs i) [
  | none ↦ vs
  | some v ↦ set vs i (record v { is_selected = status })
]

-- `_setIsSelectedStatus`
unfoldable pub set_is_selected_status : Option ℕ → Bool → Fields → Fields
unfolding place_of
set_is_selected_status none status f = f
set_is_selected_status (some x) status f = elim (place_of x f.content) [
  | none ↦ f
  | some i ↦ record f { children = set_status i status f.children }
]

abbrev pub same_item : Option ℕ → Option ℕ → Bool
same_item none none = true
same_item none (some y) = false
same_item (some x) none = false
same_item (some x) (some y) = x == y

-- `set('selection', ...)` with the observers before and after the change.
unfoldable pub set_selection : Option ℕ → Fields → Fields
unfolding set_is_selected_status
set_selection o f =
    if same_item f.selection o
    then f
    else set_is_selected_status o true
        (record (set_is_selected_status f.selection false f) { selection = o })

-- Whether the item at a place may be selected.
unfoldable pub selectable : Fields → ℕ → Bool
selectable f i = elim (get_elem? f.children i) [
  | none ↦ false
  | some v ↦ f.allow_selection && v.is_visible && v.allow_selection
]

-- `selectIndex`
unfoldable pub select_index : ℕ → Fields → Fields × Bool
unfolding selectable set_selection
select_index i f =
    if selectable f i then (set_selection (get_elem? f.content i) f, true) else (f, false)

-- The loop of `changeSelection`, over n places from i down the list, and over those above i.
unfoldable pub select_down : ℕ → ℕ → Fields → Fields × Bool
unfolding select_index
select_down i zero f = (f, false)
select_down i (suc n) f =
    let (f', selected) = select_index i f in
    let rest = select_down (suc i) n f in if selected then (f', true) else rest

unfoldable pub select_up : ℕ → Fields → Fields × Bool
unfolding select_index
select_up zero f = (f, false)
select_up (suc i) f =
    let (f', selected) = select_index i f in
    let rest = select_up i f in if selected then (f', true) else rest

abbrev pub selected_place : Fields → Option ℕ
selected_place f = elim f.selection as (λ _. Option ℕ) [
  | none ↦ none
  | some x ↦ place_of x f.content
]

-- `changeSelection(1)` and `changeSelection(-1)`; with no item selected, the index is -1.
unfoldable pub select_next : Fields → Fields × Bool
unfolding select_down place_of
select_next f = elim (selected_place f) [
  | none ↦ select_down 0 (length f.content) f
  | some i ↦ select_down (suc i) (length f.content - suc i) f
]

unfoldable pub select_previous : Fields → Fields × Bool
unfolding select_up place_of
select_previous f = elim (selected_place f) [ none ↦ (f, false) | some i ↦ select_up i f ]

abbrev pub call : Call → Fields → Fields
call c f = record f { calls = f.calls ++ c ∷ [] }

enter_state : State → ListView → ListView
enter_state idle b = with_fields (record b.owner { drag_helper = none }) b
enter_state mouse_button_pressed b = b
enter_state reordering b = with_fields (record (call init_reorder b.owner) { is_dragging = true }) b

exit_state : State → ListView → ListView
exit_state reordering b =
    with_fields (record (call finish_reorder b.owner) { drag_helper = none; is_dragging = false }) b
exit_state _ b = b

chart : Chart State Fields
chart = record { resolve = λ n. state n; exit_state = exit_state; enter_state = enter_state }

-- Every name here is a state's, so the error results do not arise.
unfoldable pub goto : State → ListView → ListView
unfolding goto_flame_state State-discrete chart enter_state exit_state
goto n b = elim (goto_flame_state State-discrete chart (some n) b) [
  | done b' ↦ b'
  | no_name ↦ b
  | not_a_state ↦ b
]

-- `Math.abs(a - b)`
abbrev pub distance : ℕ → ℕ → ℕ
distance a b = (a - b) + (b - a)

-- `_shouldStartDragging`
unfoldable pub should_start_dragging : ℕ → ℕ → Fields → Bool
should_start_dragging x y f = elim f.drag_helper [
  | none ↦ false
  | some h ↦ ltb 4 (distance h.last_page_x x) || ltb 4 (distance h.last_page_y y)
]

-- `mouseMove` of the state `reordering`, with what it leaves to the end of the run loop.
abbrev pub drag : ℕ → ℕ → ListView → ListView
drag x y b = with_fields (call (update_display x y) b.owner) b

-- `startReordering`
abbrev pub start_reordering : Option Helper → ℕ → ℕ → ListView → ListView
start_reordering h x y b =
    drag x y (goto reordering (with_fields (record b.owner { drag_helper = h }) b))

-- `mouseMove` of the state `mouseButtonPressed`
unfoldable pub press_moved : ℕ → ℕ → ListView → ListView
unfolding should_start_dragging goto
press_moved x y b =
    if should_start_dragging x y b.owner
    then start_reordering b.owner.drag_helper x y (goto idle b)
    else b

abbrev pub select_item : Option ℕ → Fields → Fields
select_item none f = f
select_item (some i) f = (select_index i f).0

-- `allows` is `allowReorderingItem`, which applications override.
module _ (allows : ℕ → Bool) where
  abbrev pub note_helper : Option ℕ → ℕ → ℕ → Fields → Fields
  note_helper none x y f = f
  note_helper (some i) x y f =
      if f.allow_reordering && allows i
      then record f {
        drag_helper = some (record { last_page_x = x; last_page_y = y; item_index = i });
      }
      else f

  -- `mouseDownOnItem`, where the item's index may be undefined.
  unfoldable pub mouse_down_on_item : Option ℕ → ℕ → ℕ → ListView → ListView
  unfolding goto select_index
  mouse_down_on_item i x y b =
      goto mouse_button_pressed (with_fields (note_helper i x y (select_item i b.owner)) b)

-- The methods of the states; touches come as the mouse does.
pub data Message : Type 0 where
  move_up move_down mouse_up mouse_up_on_item touch_end : Message
  mouse_down : Option ℕ → ℕ → ℕ → Message
  mouse_move : ℕ → ℕ → Message

module _ (allows : ℕ → Bool) where
  methods : State → Message → Option (ListView → ListView × Unit {0})
  unfolding goto select_next select_previous press_moved mouse_down_on_item
  methods idle move_up = some (λ b. (with_fields (select_previous b.owner).0 b, tt))
  methods idle move_down = some (λ b. (with_fields (select_next b.owner).0 b, tt))
  methods idle (mouse_down i x y) = some (λ b. (mouse_down_on_item allows i x y b, tt))
  methods mouse_button_pressed mouse_up = some (λ b. (goto idle b, tt))
  methods mouse_button_pressed mouse_up_on_item = some (λ b. (goto idle b, tt))
  methods mouse_button_pressed touch_end = some (λ b. (goto idle b, tt))
  methods mouse_button_pressed (mouse_move x y) = some (λ b. (press_moved x y b, tt))
  methods reordering mouse_up = some (λ b. (goto idle b, tt))
  methods reordering touch_end = some (λ b. (goto idle b, tt))
  methods reordering (mouse_move x y) = some (λ b. (drag x y b, tt))
  methods _ _ = none

  no_keys : ListView → ListView × Unit {0}
  no_keys b = (b, tt)

  unfoldable pub step : ListView → Message → ListView
  unfolding invoke_state_method methods no_keys
  step b m = (invoke_state_method methods (λ _. false) no_keys m b).0

  unfoldable pub run : ListView → List Message → ListView
  run b [] = b
  run b (m ∷ ms) = run (step b m) ms

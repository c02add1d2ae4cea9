-- ===== src/Lib.antt =====
-- Verification of flame.js, a library of views for Ember applications.
--
-- The parts and how they interact:
--   * statechart.js is the mixin for views with states: Statechart. A method called on the view goes to
--     the current state, whose hooks run when it is entered and left. Properties of a view are looked
--     up by a function of the model; hooks and methods are functions on the machine.
--   * views/button_view.js is a client of it: Button. The states, methods and hooks are those of the
--     source; `Ember.run.later` puts a callback on a list of timers, and an event of the model runs one.
--   * mixins/event_manager.js: KeyResponder is its `keyResponderStack`, EventManager its mixin with the
--     mouse responder, `_dispatch`, `becomeKeyResponder` and the key events. Views are numbers; their
--     parents, properties and handlers are given by the application (the record Views), and a handler
--     may change the whole state.
--   * views/menu_view.js: Menu. The open menus are a list, the deepest first, since a submenu is open
--     only under the highlighted item; an index of -1 is `none`. The arrow keys go to the deepest menu,
--     the pointer to any.
--   * views/multiselection_menu_view.js: MultiMenu, its highlighted item and the array of chosen values.
--   * views/lazy_list_view.js: LazyList, with the range of rows to render, the recycling of views and the
--     filling of gaps. A range is kept with its `end + 1`, so that an empty one needs no negative number,
--     and `bufferSize` is even. Geometry holds what is measured in the DOM.
--   * views/list_view.js: ListView, a list that is not lazy, with its child views in the order of the content.
--     What it asks of its drag helper is noted in a list of calls; the helper's moves of the content during
--     a drag are not carried out, so that what is proved of the content is about lists without a drag.
--   * views/lazy_tree_view.js is a lazy list over a tree: LazyTree, with the caches that map rows and items
--     to each other, the climb along the parents, and the moves of views as an item is expanded or collapsed.
--   * controllers/table_controller.js, controllers/data_table_controller.js and
--     utils/table_view_content_adapter.js: Table. Headers are a tree whose leafs are the rows and columns
--     of a grid of cells; Table.Headers has their paths, Table.Controller the grid and the batches pushed
--     to it, Table.Adapter the rows of headers with their spans. Ids of leafs are numbers, as a comment of
--     the source says, so that paths are the same key where they hold the same numbers.
--   * views/table_data_view.js: TableData, over the grid of Table. TableData.States has the states and their
--     hooks, TableData.Methods the methods as the statechart calls them, TableData.Events the events in
--     turn; TableData.Clipboard copies and pastes texts, which are lists of code points, and
--     TableData.Updates paints dirty cells in batches, a job to a run loop, up to an error that the callback
--     throws. An edit or a paste hands its dirty cells on as lists, each one such update. A `td` is known by its row and
--     column. The application's cells and its delegate are the record DataCells.
--   * validations.js: Validations. Properties are numbers, and the checks are functions of the object's
--     values that give back true, another truthy value, a falsy one or undefined.
--   * utils/sorting_array_proxy.js: SortingProxy. The source and content arrays are lists of numbered
--     items; the properties that the proxy keeps on items are functions. An operation on an array runs
--     the observers that are in place, before and after the change, as the source's observers do.
--   * views/autocomplete_text_field_view.js is another client of Statechart: Autocomplete. A query is an
--     element of any type, none where it is empty, and the delegate a function that accepts queries or not.
--   * views/vertical_split_view.js: SplitView. Widths are integers, which may be negative, or undefined.
--   * layout_manager.js and layout_managers/vertical_stack_layout_manager.js: Stacking. Margins, paddings and
--     heights are numbers of pixels; the position that a child gets goes to its layout. Where the manager's
--     assertion throws, setting up gives none.
--   * views/menu_scroll_view.js: MenuScroll. Its timers are a list, and an event of the model runs one.
--
-- What is not under the repository is a parameter: Ember.compare, strict equality of keys and
-- removeObject (the record Env, with their documented laws in IsLawful, and a parameter of MultiMenu), the
-- application's views, whether a list allows an item to be dragged, and how cells are made from data (the
-- record Cells).
--
-- Bounds and fuel: `getAncestors` climbs with as much fuel as the cache has rows, which is enough as a
-- parent's row is above its item's. All other recursion is on a list, a tree, the chain of parents, which
-- is finite, or a count.
--
-- Not modelled: rendering, layout in the DOM, styles, and the search of a statechart for its states,
-- which reflects over the object's properties. Trees that are not lazy, the drag helper and the moving of
-- items, forms, panels and tabs, the controller of tables over arrays, and the table view's own events are
-- left out too.
mod Prelude
pub mod Statechart
pub mod Button
pub mod KeyResponder
pub mod EventManager
pub mod SortingProxy
pub mod Table
pub mod TableData
pub mod LazyList
pub mod LazyTree
pub mod ListView
pub mod Menu
pub mod MenuScroll
pub mod MultiMenu
pub mod Autocomplete
pub mod SplitView
pub mod Stacking
pub mod Validations
mod Tests

-- ===== src/EventManager/Capture.antt =====
-- mixins/event_manager.js: the view that handled `mouseDown` receives the mouse until `mouseUp`.
use flame_js.Prelude.{
  ℕ, zero, suc, if◌then◌else◌, if_keeps, ◌≡◌, refl, sym, true, false, ◌∙◌, none, some, List, [],
  ◌∷◌, arith, ◌↔◌, length,
}
use mathlib.Core.Path.{subst}
use flame_js.EventManager.{
  MouseEvent, mouse_move, mouse_up, mouse_down, Manager, Views, call, dispatch, path, on_mouse_down,
  become_key_responder, on_mouse_up, on_mouse_move,
}

-- The views' handlers of an event do not change which view has the mouse.
pub record KeepsCapture {W : Type 0} (views : Views W) (e : MouseEvent) : Type 0 where
  pub keeps :
      (v : ℕ) (m : Manager W)
      → (call views (views.mouse_handler v e) m).0.mouse_responder ≡ m.mouse_responder

module _ {W : Type 0} (views : Views W) where
  -- A mouse that moves over the views of a list, one after the other.
  pub drag : List ℕ → Manager W → Manager W
  drag [] m = m
  drag (v ∷ vs) m = drag vs (on_mouse_move views v m).0

  -- n moves that the view r gets, or its ancestors where it does not handle them, each while it is in the
  -- DOM.
  pub moves_on : ℕ → ℕ → Manager W → Manager W
  moves_on r zero m = m
  moves_on r (suc n) m =
      moves_on r n
        (if views.in_dom r m.app then (dispatch views mouse_move (path views r) m).0 else m)

  module _ (e : MouseEvent) (k : KeepsCapture views e) where
    dispatch_keeps :
        (vs : List ℕ) (m : Manager W)
        → (dispatch views e vs m).0.mouse_responder ≡ m.mouse_responder
    unfolding dispatch
    dispatch_keeps [] m = refl
    dispatch_keeps (v ∷ rest) m =
        ground (arith, k.keeps v m, dispatch_keeps rest (call views (views.mouse_handler v e) m).0)

  on_mouse_move_captured :
      (r v : ℕ) (m : Manager W)
      → m.mouse_responder ≡ some r
      → (on_mouse_move views v m).0
        ≡ (if views.in_dom r m.app then (dispatch views mouse_move (path views r) m).0 else m)
  unfolding on_mouse_move
  on_mouse_move_captured r v m h = ground (arith, h)

  module _ (k : KeepsCapture views mouse_move) where
    -- Where no handler of `mouseMove` changes which view has the mouse: while a view has it, it does not
    -- matter over which views the mouse moves. Each move goes to the view that has the mouse and, where
    -- it does not handle the move, up its ancestors, unless that view has left the DOM, and the view
    -- keeps the mouse.
    pub drag_captured :
        (r : ℕ) (vs : List ℕ) (m : Manager W)
        → m.mouse_responder ≡ some r
        → (drag vs m ≡ moves_on r (length vs) m) × ((drag vs m).mouse_responder ≡ some r)
    unfolding drag moves_on
    drag_captured r [] m h = (refl, h)
    drag_captured r (v ∷ vs) m h =
        let moved = dispatch views mouse_move (path views r) m in
        let m' = if views.in_dom r m.app then moved.0 else m in
        subst
          (λ x. (drag vs x ≡ moves_on r (length vs) m') × ((drag vs x).mouse_responder ≡ some r))
          (sym (on_mouse_move_captured r v m h))
          (drag_captured r vs m' (
            if_keeps (λ (x : Manager W). x.mouse_responder ≡ some r) (views.in_dom r m.app)
              (λ _. dispatch_keeps mouse_move k (path views r) m ∙ h) (λ _. h)))

  -- `mouseUp` over any view goes to the view that has the mouse, which loses it.
  pub on_mouse_up_captured :
      KeepsCapture views mouse_up
      → (r v : ℕ) (m : Manager W) → m.mouse_responder ≡ some r
      → views.in_dom r m.app ≡ true
      → (on_mouse_up views v m ≡ on_mouse_up views r m)
        × ((on_mouse_up views v m).0.mouse_responder ≡ none)
  unfolding on_mouse_up
  on_mouse_up_captured k r v m h d = (
    ground arith,
    ground (arith, dispatch_keeps mouse_up k (path views r) (record m { mouse_responder = none })),
  )

  -- If the view that has the mouse has left the DOM, moves and `mouseUp` do nothing at all, and the
  -- view keeps the mouse; the browser is left to go on.
  pub detached_capture :
      (r v : ℕ) (m : Manager W)
      → m.mouse_responder ≡ some r
      → views.in_dom r m.app ≡ false
      → (on_mouse_up views v m ≡ (m, true)) × (on_mouse_move views v m ≡ (m, true))
  unfolding on_mouse_up on_mouse_move
  detached_capture r v m h d = (ground arith, ground arith)

  -- `mouseDown` starts afresh: whichever view had the mouse, afterwards the view that handled the event
  -- has it, and none where no view did, which the result tells apart.
  pub on_mouse_down_captures :
      KeepsCapture views mouse_down
      → (v : ℕ) (m : Manager W)
      → let after = on_mouse_down views v m in
        let handler =
          dispatch views mouse_down
            (path views v)
            (record (become_key_responder views true v m) { mouse_responder = none }) in
        (after.0.mouse_responder ≡ handler.1) × ((after.1 ≡ true) ↔ (handler.1 ≡ none))
  unfolding on_mouse_down
  on_mouse_down_captures k v m = ground (
    arith,
    dispatch_keeps mouse_down k (path views v)
        (record (become_key_responder views true v m) { mouse_responder = none }),
  )

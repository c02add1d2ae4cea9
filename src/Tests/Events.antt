-- ===== src/Tests/Events.antt =====
-- mixins/event_manager.js: four views in a row, 0 at the root.
use flame_js.Prelude.{
  ℕ, zero, suc, ◌+◌, ◌≡◌, ◌≢◌, leb, refl, true, false, Option, none, some, List, [], ◌∷◌, arith,
  if◌then◌else◌, ◌==◌,
}
use flame_js.KeyResponder.{Info, Responders, responders, push, pop, replace}
use flame_js.KeyResponder.Modal.{nothing, click, modal, during, stack-modal}
use flame_js.KeyResponder.Focus.{member, replace-pop_unfocused}
use flame_js.EventManager.{mouse_move, handled, Command, cancel, Manager, Handler, Views, call}
use flame_js.EventManager.Capture.{KeepsCapture, drag, moves_on, drag_captured}

abbrev info : ℕ → Info
info v = record { is_view = true; has_set = true; is_destroyed = false }

abbrev none_focused : Responders
none_focused = responders [] (λ v. false) []

stack-modal_example :
    (pop info (
      during info
        (click 7 (modal 8 (click 9 nothing) nothing))
        (push info (some 5) none_focused))).0.stack
    ≡ []
stack-modal_example = stack-modal info 5 (click 7 (modal 8 (click 9 nothing) nothing)) none_focused

abbrev three_focused : Responders
three_focused = responders (2 ∷ 3 ∷ 1 ∷ []) (λ v. false) []

two-ne-one : 1 + 1 ≢ 1
two-ne-one = omega arith

replace-pop_unfocused_example :
    let clicked = replace info (some 1) three_focused in
    let after = (pop info clicked).0 in
    (clicked.stack ≡ 1 ∷ 3 ∷ 1 ∷ [])
    × (after.stack ≡ 3 ∷ 1 ∷ [])
    × (member 1 after.stack ≡ true)
    × (after.is_focused 1 ≡ false)
replace-pop_unfocused_example =
    replace-pop_unfocused info (λ v. (refl, refl)) 2 1 (3 ∷ 1 ∷ []) three_focused two-ne-one refl
      refl

-- View 1 handles the mouse and the command `cancel`, and accepts the key focus; the application's state
-- counts the calls.
count_call : Handler ℕ
count_call m = (record m { app = m.app + 1 }, handled)

abbrev chain : ℕ → List ℕ
chain zero = []
chain (suc n) = n ∷ chain n

abbrev commands : ℕ → Command → Option (Handler ℕ)
commands v cancel = if v == 1 then some count_call else none
commands v _ = none

abbrev views : Views ℕ
views = record {
  info = info;
  ancestors = chain;
  in_dom = λ v w. leb w 5;
  is_visible = λ v w. true;
  accepts_key_responder = λ v. v == 1;
  is_disabled = λ v w. false;
  mouse_handler = λ v e. if v == 1 then some count_call else none;
  key_handler = λ v k. none;
  command_handler = commands;
}

abbrev manager : Option ℕ → ℕ → Manager ℕ
manager r n = record { mouse_responder = r; responders = none_focused; app = n }

views-KeepsCapture : KeepsCapture views mouse_move
unfolding call count_call
views-KeepsCapture = record { keeps = λ v m. ground arith }

drag_captured_example :
    (drag views (3 ∷ 0 ∷ []) (manager (some 2) 0) ≡ moves_on views 2 2 (manager (some 2) 0))
    × ((drag views (3 ∷ 0 ∷ []) (manager (some 2) 0)).mouse_responder ≡ some 2)
drag_captured_example =
    drag_captured views views-KeepsCapture 2 (3 ∷ 0 ∷ []) (manager (some 2) 0) refl

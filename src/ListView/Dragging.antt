-- ===== src/ListView/Dragging.antt =====
-- views/list_view.js: the states and the drag helper.
use mathlib.Core.Path.{subst}
use flame_js.Prelude.{
  ℕ, suc, ◌+◌, ◌≡◌, refl, Bool, true, false, Option, none, some, List, [], ◌∷◌, ◌++◌, arith,
  if◌then◌else◌, if_keeps, ◌&&◌, sym, ◌≢◌, Option-cases, inl, inr,
}
use flame_js.ListView.{
  State, idle, mouse_button_pressed, reordering, Call, init_reorder, finish_reorder, update_display,
  Fields, ListView, goto, drag, start_reordering, press_moved, mouse_down_on_item, Message, move_up,
  move_down, mouse_up, mouse_up_on_item, touch_end, mouse_down, mouse_move, step, run, Helper,
  select_item, note_helper, should_start_dragging,
}
use flame_js.ListView.Keeping.{Kept, select_next-Kept, select_previous-Kept, select_item-Kept}

-- How often a drag was started, and ended.
unfoldable pub inits : List Call → ℕ
inits [] = 0
inits (init_reorder ∷ cs) = suc (inits cs)
inits (finish_reorder ∷ cs) = inits cs
inits (update_display x y ∷ cs) = inits cs

unfoldable pub finishes : List Call → ℕ
finishes [] = 0
finishes (init_reorder ∷ cs) = finishes cs
finishes (finish_reorder ∷ cs) = suc (finishes cs)
finishes (update_display x y ∷ cs) = finishes cs

abbrev pub is_reordering : State → Bool
is_reordering reordering = true
is_reordering _ = false

-- What the state says of the helper.
abbrev pub HelperOk : State → Option Helper → Type 0
HelperOk idle h = h ≡ none
HelperOk mouse_button_pressed h = Unit
HelperOk reordering h = h ≢ none

-- There is no helper in the state `idle` and one in a drag, the flag says whether there is a drag, and all
-- drags that were started have ended but the one that runs.
pub record DragOk (n : State) (f : Fields) : Type 0 where
  pub helper : HelperOk n f.drag_helper
  pub flag : f.is_dragging ≡ is_reordering n
  pub balanced : inits f.calls ≡ finishes f.calls + (if is_reordering n then 1 else 0)

pub record StateOk (b : ListView) : Type 0 where
  pub now : State
  pub current : b.current ≡ some now
  pub ok : DragOk now b.owner

Kept-DragOk : (n : State) (f g : Fields) → Kept f g → DragOk n f → DragOk n g
unfolding Kept
Kept-DragOk n f g e h =
    subst (DragOk n) (sym e) (record { helper = h.helper; flag = h.flag; balanced = h.balanced })

inits-append : (cs : List Call) (c : Call) → inits (cs ++ c ∷ []) ≡ inits cs + inits (c ∷ [])
unfolding inits
inits-append [] c = omega arith
inits-append (init_reorder ∷ cs) c = omega (arith, inits-append cs c)
inits-append (finish_reorder ∷ cs) c = inits-append cs c
inits-append (update_display x y ∷ cs) c = inits-append cs c

finishes-append :
    (cs : List Call) (c : Call) → finishes (cs ++ c ∷ []) ≡ finishes cs + finishes (c ∷ [])
unfolding finishes
finishes-append [] c = omega arith
finishes-append (init_reorder ∷ cs) c = finishes-append cs c
finishes-append (finish_reorder ∷ cs) c = omega (arith, finishes-append cs c)
finishes-append (update_display x y ∷ cs) c = finishes-append cs c

-- A list in a state.
abbrev at_state : State → Fields → ListView
at_state n f = record { current = some n; owner = f }

to_idle-StateOk : (n : State) (f : Fields) → DragOk n f → StateOk (goto idle (at_state n f))
unfolding goto inits finishes
to_idle-StateOk idle f h = record { now = idle; current = refl; ok = h }
to_idle-StateOk mouse_button_pressed f h = record {
  now = idle;
  current = refl;
  ok = record { helper = refl; flag = h.flag; balanced = h.balanced };
}
to_idle-StateOk reordering f h = record {
  now = idle;
  current = refl;
  ok = record {
    helper = refl;
    flag = refl;
    balanced = omega (
      arith,
      h.balanced,
      inits-append f.calls finish_reorder,
      finishes-append f.calls finish_reorder,
    );
  };
}

-- A drag begins in the state `idle`, with the helper from the press.
starts :
    (h : Helper) (x y : ℕ) (f : Fields)
    → DragOk idle f
    → StateOk (start_reordering (some h) x y (at_state idle f))
unfolding goto inits finishes
starts h x y f ok =
    let cs = f.calls ++ init_reorder ∷ [] in
    record {
      now = reordering;
      current = refl;
      ok = record {
        helper = λ e. ground (arith, e);
        flag = refl;
        balanced = omega (
          arith,
          ok.balanced,
          inits-append f.calls init_reorder,
          finishes-append f.calls init_reorder,
          inits-append cs (update_display x y),
          finishes-append cs (update_display x y),
        );
      };
    }

helper_known :
    (x y : ℕ) (f : Fields)
    → should_start_dragging x y f ≡ true
    → (k : Helper) × (f.drag_helper ≡ some k)
unfolding should_start_dragging
helper_known x y f t = elim (Option-cases f.drag_helper) [
  | inl e ↦ absurd (ground (arith, t, e))
  | inr (k, e) ↦ (k, e)
]

press_moved-StateOk :
    (x y : ℕ) (f : Fields)
    → DragOk mouse_button_pressed f
    → StateOk (press_moved x y (at_state mouse_button_pressed f))
unfolding press_moved goto
press_moved-StateOk x y f h =
    if_keeps StateOk (should_start_dragging x y f)
      (λ t.
        let (k, e) = helper_known x y f t in
        let idle_ok : DragOk idle (record f { drag_helper = none }) = record {
          helper = refl;
          flag = h.flag;
          balanced = h.balanced;
        } in
        subst
          (λ o. StateOk (start_reordering o x y (at_state idle (record f { drag_helper = none }))))
          (sym e) (starts k x y (record f { drag_helper = none }) idle_ok))
      (λ _. record { now = mouse_button_pressed; current = refl; ok = h })

drag-StateOk :
    (x y : ℕ) (f : Fields) → DragOk reordering f → StateOk (drag x y (at_state reordering f))
unfolding inits finishes
drag-StateOk x y f h = record {
  now = reordering;
  current = refl;
  ok = record {
    helper = h.helper;
    flag = h.flag;
    balanced = omega (
      arith,
      h.balanced,
      inits-append f.calls (update_display x y),
      finishes-append f.calls (update_display x y),
    );
  };
}

stays : (n : State) (f : Fields) → DragOk n f → StateOk (at_state n f)
stays n f h = record { now = n; current = refl; ok = h }

selected-StateOk : (f g : Fields) → Kept f g → DragOk idle f → StateOk (at_state idle g)
selected-StateOk f g e h = record { now = idle; current = refl; ok = Kept-DragOk idle f g e h }

module _ (allows : ℕ → Bool) where
  note_helper-DragOk :
      (i : Option ℕ) (x y : ℕ) (f : Fields)
      → DragOk idle f
      → DragOk mouse_button_pressed (note_helper allows i x y f)
  note_helper-DragOk none x y f h = record { helper = tt; flag = h.flag; balanced = h.balanced }
  note_helper-DragOk (some i) x y f h =
      if_keeps (DragOk mouse_button_pressed) (f.allow_reordering && allows i)
        (λ _. record { helper = tt; flag = h.flag; balanced = h.balanced })
        (λ _. record { helper = tt; flag = h.flag; balanced = h.balanced })

  mouse_down-StateOk :
      (i : Option ℕ) (x y : ℕ) (f : Fields)
      → DragOk idle f
      → StateOk (mouse_down_on_item allows i x y (at_state idle f))
  unfolding mouse_down_on_item goto
  mouse_down-StateOk i x y f h = record {
    now = mouse_button_pressed;
    current = refl;
    ok =
        note_helper-DragOk i x y (select_item i f)
          (Kept-DragOk idle f (select_item i f) (select_item-Kept i f) h);
  }

  step-StateOk :
      (n : State) (m : Message) (f : Fields) → DragOk n f → StateOk (step allows (at_state n f) m)
  unfolding step
  step-StateOk idle move_up f h = selected-StateOk f _ (select_previous-Kept f) h
  step-StateOk idle move_down f h = selected-StateOk f _ (select_next-Kept f) h
  step-StateOk idle (mouse_down i x y) f h = mouse_down-StateOk i x y f h
  step-StateOk mouse_button_pressed mouse_up f h = to_idle-StateOk mouse_button_pressed f h
  step-StateOk mouse_button_pressed mouse_up_on_item f h = to_idle-StateOk mouse_button_pressed f h
  step-StateOk mouse_button_pressed touch_end f h = to_idle-StateOk mouse_button_pressed f h
  step-StateOk mouse_button_pressed (mouse_move x y) f h = press_moved-StateOk x y f h
  step-StateOk reordering mouse_up f h = to_idle-StateOk reordering f h
  step-StateOk reordering touch_end f h = to_idle-StateOk reordering f h
  step-StateOk reordering (mouse_move x y) f h = drag-StateOk x y f h
  step-StateOk idle mouse_up f h = stays idle f h
  step-StateOk idle mouse_up_on_item f h = stays idle f h
  step-StateOk idle touch_end f h = stays idle f h
  step-StateOk idle (mouse_move x y) f h = stays idle f h
  step-StateOk mouse_button_pressed move_up f h = stays mouse_button_pressed f h
  step-StateOk mouse_button_pressed move_down f h = stays mouse_button_pressed f h
  step-StateOk mouse_button_pressed (mouse_down i x y) f h = stays mouse_button_pressed f h
  step-StateOk reordering move_up f h = stays reordering f h
  step-StateOk reordering move_down f h = stays reordering f h
  step-StateOk reordering mouse_up_on_item f h = stays reordering f h
  step-StateOk reordering (mouse_down i x y) f h = stays reordering f h

  -- Whatever the keys, the mouse and touches do, from a list in a state that agrees with its fields: in
  -- the state `idle` there is no drag helper and in `reordering` there is one, `isDragging` is true
  -- exactly in `reordering`, and every drag that was started was ended, but for the one that runs in
  -- `reordering`.
  pub run-StateOk : (b : ListView) (ms : List Message) → StateOk b → StateOk (run allows b ms)
  unfolding run
  run-StateOk b [] h = h
  run-StateOk b (m ∷ ms) h = run-StateOk (step allows b m) ms (
      subst (λ c. StateOk (step allows (record { current = c; owner = b.owner }) m)) (sym h.current)
        (step-StateOk h.now m b.owner h.ok))

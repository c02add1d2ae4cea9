-- ===== src/Menu/Highlight.antt =====
-- views/menu_view.js: which item the arrow keys highlight.
use native.Mathlib.Nat.{suc-add}
use flame_js.Prelude.{
  sym, ◌∙◌, ap, Option-cases, ltb, ℕ, zero, suc, ◌+◌, ◌-◌, ◌≤◌, ◌<◌, ◌≡◌, refl, true, false, Option,
  none, some, ◌∷◌, arith, Bool-cases, inl, inr, ◌⊎◌,
}
use flame_js.Menu.{
  entry, Entries, no_entries, and_entry, is_enabled, Menu, Menus, next_enabled, entries_from,
  enabled_at, previous_enabled, next_index, previous_index, move_down, move_up, set_highlight,
  highlight_found,
}

-- The first enabled item from i on.
next_enabled-enabled :
    (i : ℕ) (es : Entries) (k : ℕ)
    → next_enabled i es ≡ some k
    → (n : ℕ) × (k ≡ i + n) × (enabled_at es n ≡ true) × ((p : ℕ) → p < n → enabled_at es p ≡ false)
unfolding next_enabled enabled_at
next_enabled-enabled i no_entries k e = absurd cc
next_enabled-enabled i (and_entry (entry v d s) es) k e =
    elim (Bool-cases (is_enabled (entry v d s))) [
      | inl b ↦ (0, ground arith, b, λ p l. absurd (omega arith))
      | inr b ↦
          let (n, q, on, before) = next_enabled-enabled (suc i) es k (ground arith) in
          (suc n, omega (arith, q), on, earlier n before b)
    ]
  where
    earlier :
        (n : ℕ)
        → ((p : ℕ) → p < n → enabled_at es p ≡ false)
        → is_enabled (entry v d s) ≡ false
        → (p : ℕ) → p < suc n
        → enabled_at (and_entry (entry v d s) es) p ≡ false
    earlier n before b zero l = b
    earlier n before b (suc p) l = before p (omega (arith, l))

next_enabled-none :
    (i : ℕ) (es : Entries) → next_enabled i es ≡ none → (p : ℕ) → enabled_at es p ≡ false
unfolding next_enabled enabled_at
next_enabled-none i no_entries e p = refl
next_enabled-none i (and_entry (entry v d s) es) e zero = ground arith
next_enabled-none i (and_entry (entry v d s) es) e (suc p) =
    next_enabled-none (suc i) es (ground arith) p

entry_at-entries_from :
    (i p : ℕ) (es : Entries) → enabled_at (entries_from i es) p ≡ enabled_at es (i + p)
unfolding entries_from enabled_at
entry_at-entries_from zero p es = ground arith
entry_at-entries_from (suc i) p no_entries = refl
entry_at-entries_from (suc i) p (and_entry e es) = rw suc-add (entry_at-entries_from i p es)

-- The item k is enabled, and those from `start` up to it are not.
pub record NextFrom (es : Entries) (start k : ℕ) : Type 0 where
  pub after : start ≤ k
  pub enabled : enabled_at es k ≡ true
  pub first : (p : ℕ) → start ≤ p → p < k → enabled_at es p ≡ false

abbrev pub start_below : Option ℕ → ℕ
start_below none = 0
start_below (some i) = suc i

next_from :
    (es : Entries) (start k : ℕ)
    → next_enabled start (entries_from start es) ≡ some k
    → NextFrom es start k
next_from es start k e =
    let (n, q, on, before) = next_enabled-enabled start (entries_from start es) k e in
    record {
      after = omega (arith, q);
      enabled = ap (enabled_at es) q ∙ sym (entry_at-entries_from start n es) ∙ on;
      first = λ p l u.
          ap (enabled_at es) {x = p} {y = start + (p - start)} (omega arith)
          ∙ sym (entry_at-entries_from start (p - start) es)
          ∙ before (p - start) (omega (arith, q));
    }

next_index-from :
    (es : Entries) (h : Option ℕ)
    → next_index es h ≡ next_enabled (start_below h) (entries_from (start_below h) es)
unfolding next_index entries_from
next_index-from es none = refl
next_index-from es (some i) = refl

-- `moveDown` highlights the first enabled item below the highlighted one, or the first enabled one of all
-- where none is highlighted; where there is none, nothing changes.
pub move_down_lem :
    (m : Menu) (parents : Menus)
    → ((k : ℕ) × NextFrom m.entries (start_below m.highlight) k
        × (move_down (m ∷ parents) ≡ set_highlight 0 (some k) (m ∷ parents)))
      ⊎ (((p : ℕ) → start_below m.highlight ≤ p → enabled_at m.entries p ≡ false)
          × (move_down (m ∷ parents) ≡ m ∷ parents))
unfolding move_down
move_down_lem m parents = elim (Option-cases (next_index m.entries m.highlight)) [
  | inl e ↦ inr (
    λ p l.
        ap (enabled_at m.entries) {x = p}
          {y = start_below m.highlight + (p - start_below m.highlight)} (omega arith)
        ∙ sym (
            entry_at-entries_from (start_below m.highlight) (p - start_below m.highlight) m.entries)
        ∙ next_enabled-none (start_below m.highlight)
            (entries_from (start_below m.highlight) m.entries)
            (sym (next_index-from m.entries m.highlight) ∙ e) (p - start_below m.highlight),
    ap (λ o. highlight_found o (m ∷ parents)) e,
  )
  | inr (k, e) ↦ inl (
    k,
    next_from m.entries (start_below m.highlight) k
        (sym (next_index-from m.entries m.highlight) ∙ e),
    ap (λ o. highlight_found o (m ∷ parents)) e,
  )
]

previous_enabled-some :
    (es : Entries) (n k : ℕ)
    → previous_enabled es n ≡ some k
    → (k < n) × (enabled_at es k ≡ true) × ((p : ℕ) → k < p → p < n → enabled_at es p ≡ false)
unfolding previous_enabled
previous_enabled-some es zero k e = absurd cc
previous_enabled-some es (suc n) k e = elim (Bool-cases (enabled_at es n)) [
  | inl b ↦ (ground arith, ground arith, λ p l u. absurd (ground arith))
  | inr b ↦
      let (l, on, rest) = previous_enabled-some es n k (ground arith) in
      (omega (arith, l), on, λ p l' u. ground (arith, rest p l', b))
]

previous_enabled-none :
    (es : Entries) (n : ℕ)
    → previous_enabled es n ≡ none
    → (p : ℕ) → p < n
    → enabled_at es p ≡ false
unfolding previous_enabled
previous_enabled-none es zero e p l = absurd (omega arith)
previous_enabled-none es (suc n) e p l = elim (Bool-cases (ltb p n)) [
  | inl b ↦ previous_enabled-none es n (ground arith) p (ground arith)
  | inr b ↦
      ap (enabled_at es) {x = p} {y = n} (ground arith)
      ∙ elim (Bool-cases (enabled_at es n)) [ inl q ↦ absurd (ground arith) | inr q ↦ q ]
]

-- `moveUp` highlights the last enabled item above the highlighted one; where there is none, nothing
-- changes.
pub move_up_lem :
    (m : Menu) (parents : Menus) (i : ℕ)
    → m.highlight ≡ some i
    → ((k : ℕ) × (k < i)
        × (enabled_at m.entries k ≡ true)
        × ((p : ℕ) → k < p → p < i → enabled_at m.entries p ≡ false)
        × (move_up (m ∷ parents) ≡ set_highlight 0 (some k) (m ∷ parents)))
      ⊎ (((p : ℕ) → p < i → enabled_at m.entries p ≡ false) × (move_up (m ∷ parents) ≡ m ∷ parents))
unfolding move_up previous_index
move_up_lem m parents i h = elim (Option-cases (previous_enabled m.entries i)) [
  | inl e ↦ inr (
    previous_enabled-none m.entries i e,
    ap (λ o. highlight_found (previous_index m.entries o) (m ∷ parents)) h
        ∙ ap (λ o. highlight_found o (m ∷ parents)) e,
  )
  | inr (k, e) ↦
      let (l, on, rest) = previous_enabled-some m.entries i k e in
      inl (
        k,
        l,
        on,
        rest,
        ap (λ o. highlight_found (previous_index m.entries o) (m ∷ parents)) h
            ∙ ap (λ o. highlight_found o (m ∷ parents)) e,
      )
]

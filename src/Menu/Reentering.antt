-- ===== src/Menu/Reentering.antt =====
-- views/menu_view.js: the pointer that comes back from a submenu to the item that opened it.
use flame_js.Prelude.{
  ℕ, ◌≡◌, refl, ap, ◌∙◌, Bool, true, false, none, some, [], ◌∷◌, arith, Bool-cases, inl, inr,
  ==_iff,
}
use flame_js.Menu.{
  Entry, entry, SubMenu, sub_menu, Entries, and_entry, entry_at, Menu, MenuState, same,
  set_highlight, set_user_highlight, select_from, mouse_entered, mouse_clicked, make_selection,
}

same_refl : (i : ℕ) → same (some i) (some i) ≡ true
same_refl i = ground (arith, ==_iff i i)

-- The pointer has been on the item already, so that nothing changes at first.
stays :
    (sub m : Menu) (i : ℕ)
    → m.user_highlight ≡ some i
    → set_user_highlight 1 (some i) (sub ∷ m ∷ []) ≡ sub ∷ m ∷ []
unfolding set_user_highlight
stays sub m i user = ground (arith, same_refl i)

-- Then the submenu loses its highlight, if it has one.
leaves :
    (sub m : Menu)
    → (sub' : Menu) × (m' : Menu) × (set_user_highlight 0 none (sub ∷ m ∷ []) ≡ sub' ∷ m' ∷ [])
      × (m'.highlight ≡ m.highlight)
      × (m'.user_highlight ≡ m.user_highlight)
      × (m'.entries ≡ m.entries)
unfolding set_user_highlight set_highlight
leaves sub m = elim (Bool-cases (same sub.user_highlight none)) [
  | inl e ↦ (sub, m, ground arith, refl, refl, refl)
  | inr e ↦ elim (Bool-cases (same sub.highlight none)) [
    | inl q ↦ (record sub { user_highlight = none }, m, ground arith, refl, refl, refl)
    | inr q ↦ (
      record sub { user_highlight = none; highlight = none; selection = none },
      record m { selection = none },
      ground arith,
      refl,
      refl,
      refl,
    )
  ]
]

enters :
    (sub m : Menu) (i v : ℕ) (d : Bool) (below : SubMenu)
    → m.highlight ≡ some i
    → m.user_highlight ≡ some i
    → entry_at m.entries i ≡ some (entry v d below)
    → (sub' : Menu) × (m' : Menu) × (mouse_entered 1 i (sub ∷ m ∷ []) ≡ sub' ∷ m' ∷ [])
      × (m'.highlight ≡ some i)
      × (m'.user_highlight ≡ some i)
      × (m'.selection ≡ some v)
unfolding mouse_entered select_from
enters sub m i v d below high user at =
    let (sub', m', q, h, u, x) = leaves sub m in
    (
      sub',
      record m' { selection = some v },
      ground (arith, stays sub m i user, q, same_refl i),
      h ∙ high,
      u ∙ user,
      refl,
    )

clicks :
    (has_action : ℕ → Bool) (s : MenuState) (sub m : Menu) (i v : ℕ)
    → s.menus ≡ sub ∷ m ∷ []
    → m.highlight ≡ some i
    → m.user_highlight ≡ some i
    → m.selection ≡ some v
    → (mouse_clicked has_action false 1 i s).value ≡ some v
unfolding mouse_clicked set_highlight make_selection
clicks has_action s sub m i v menus high user sel = ground (arith, same_refl i)

-- A menu shows the submenu of the item at i, which the user has pointed at. When the pointer comes back
-- to that item and clicks it, the item is selected as the value, though it is not selectable.
pub reentered_click :
    (has_action : ℕ → Bool) (s : MenuState) (sub m : Menu) (i v : ℕ) (d : Bool) (e : Entry)
    (es : Entries)
    → s.menus ≡ sub ∷ m ∷ []
    → m.highlight ≡ some i
    → m.user_highlight ≡ some i
    → entry_at m.entries i ≡ some (entry v d (sub_menu (and_entry e es)))
    → (mouse_clicked has_action false 1 i (record s { menus = mouse_entered 1 i s.menus })).value
      ≡ some v
reentered_click has_action s sub m i v d e es menus high user at =
    let (sub', m', q, h, u, x) = enters sub m i v d (sub_menu (and_entry e es)) high user at in
    clicks has_action (record s { menus = mouse_entered 1 i s.menus }) sub' m' i v
      (ap (mouse_entered 1 i) menus ∙ q) h u x

-- ===== src/SortingProxy/Keys.antt =====
-- utils/sorting_array_proxy.js: what reassigning the sort keys does, and moving items by it.
use mathlib.Core.List.{Perm}
use mathlib.Core.Path.{subst, ap₂}
use flame_js.Prelude.{
  ℕ, suc, ◌<◌, ◌≡◌, refl, sym, ◌∙◌, ap, true, false, Option, none, some, List, [], ◌∷◌, map, arith,
  ==_iff, Option-cases, ◌≢◌, inl, inr, length, length-map,
}
use flame_js.Prelude.Sort.{
  sort_by, Sorted, Sorted-sort_by, Sorted-map, length-sort_by, sort_by-perm,
}
use flame_js.Prelude.Items.{count, NoRepeats, count-splice, splice, slice}
use flame_js.SortingProxy.{
  Env, IsLawful, Proxy, update, fill_keys, assign, by_key, re_assign_sort_keys, start_moving, move,
  end_moving, replace_content, content_array_will_change, content_array_did_change,
}

assign_absent {ℓ} :
    {A : Type ℓ} (y : ℕ) (xs : List ℕ) (vs : List A) (f : ℕ → A)
    → count y xs ≡ 0
    → assign xs vs f y ≡ f y
unfolding assign
assign_absent y [] vs f h = refl
assign_absent y (x ∷ xs) [] f h = refl
assign_absent y (x ∷ xs) (v ∷ vs) f h =
    ground (arith, assign_absent y xs vs (update x v f), ==_iff x y)

map-assign {ℓ} :
    {A : Type ℓ} (xs : List ℕ) (vs : List A) (f : ℕ → A)
    → NoRepeats xs
    → length xs ≡ length vs
    → map (assign xs vs f) xs ≡ vs
unfolding assign
map-assign [] [] f n h = refl
map-assign [] (v ∷ vs) f n h = absurd (omega arith)
map-assign (x ∷ xs) [] f n h = absurd (omega arith)
map-assign (x ∷ xs) (v ∷ vs) f n h =
    ap₂ ◌∷◌ (ground (arith, assign_absent x xs vs (update x v f), n x, ==_iff x x))
      (map-assign xs vs (update x v f) (λ a. ground (arith, n a)) (omega arith))

length-fill_keys {ℓ} :
    {K : Type ℓ} (z : K) (ks : List (Option K)) → length (fill_keys z ks) ≡ length ks
unfolding fill_keys
length-fill_keys z [] = refl
length-fill_keys z (none ∷ ks) = ap suc (length-fill_keys z ks)
length-fill_keys z (some k ∷ ks) = ap suc (length-fill_keys k ks)

-- Every item of a list has a key.
abbrev pub AllKeyed {ℓ} : {K : Type ℓ} → (ℕ → Option K) → List ℕ → Type ℓ
AllKeyed key xs = (x : ℕ) → 0 < count x xs → key x ≢ none

fill_keys-map {ℓ} :
    {K : Type ℓ} (z : K) (key : ℕ → Option K) (xs : List ℕ)
    → AllKeyed key xs
    → fill_keys z (map key xs) ≡ map key xs
unfolding fill_keys
fill_keys-map z key [] h = refl
fill_keys-map z key (x ∷ xs) h = elim (Option-cases (key x)) [
  | inl e ↦ absurd (h x (ground (arith, ==_iff x x)) e)
  | inr (k, e) ↦
      rw e (ap (some k ∷◌) (fill_keys-map k key xs (λ y q. h y (ground (arith, ==_iff x y)))))
]

module _ {K : Type 0} (env : Env K) (law : IsLawful env) where
  re_assigned : (p : Proxy K) → List (Option K)
  re_assigned p = sort_by env.leb (fill_keys env.zero_key (map p.key p.content))

  keys-re_assign_sort_keys :
      (p : Proxy K)
      → NoRepeats p.content
      → map (re_assign_sort_keys env p).key p.content ≡ re_assigned p
  unfolding re_assign_sort_keys re_assigned
  keys-re_assign_sort_keys p n = map-assign p.content _ p.key n (
      sym (length-sort_by env.leb _ ∙ length-fill_keys env.zero_key _ ∙ length-map p.content p.key))

  pub Sorted-re_assign_sort_keys :
      (p : Proxy K)
      → NoRepeats p.content
      → Sorted (by_key env (re_assign_sort_keys env p).key) p.content
  unfolding re_assigned
  Sorted-re_assign_sort_keys p n = Sorted-map env.leb (re_assign_sort_keys env p).key p.content (
      subst (Sorted env.leb) (sym (keys-re_assign_sort_keys p n))
        (Sorted-sort_by env.leb law.order _))

  keys_kept :
      (p : Proxy K)
      → NoRepeats p.content
      → AllKeyed p.key p.content
      → Perm (map (re_assign_sort_keys env p).key p.content) (map p.key p.content)
  unfolding re_assigned
  keys_kept p n k =
      subst (λ ks. Perm ks (map p.key p.content)) (sym (keys-re_assign_sort_keys p n))
        (subst (λ ks. Perm (sort_by env.leb (fill_keys env.zero_key (map p.key p.content))) ks)
          (fill_keys-map env.zero_key p.key p.content k) (sort_by-perm env.leb _))

  replace_content-suppressed :
      (start removed : ℕ) (added : List ℕ) (p : Proxy K)
      → p.suppressed ≡ true
      → replace_content env start removed added p
        ≡ record p { content = splice start removed added p.content }
  unfolding replace_content content_array_will_change content_array_did_change
  replace_content-suppressed start removed added p h = ground arith

  moved : ℕ → ℕ → Proxy K → Proxy K
  moved i j p = record p {
    content = splice j 0 (slice i 1 p.content) (splice i 1 [] p.content);
    suppressed = true;
  }

  move-moved : (i j : ℕ) (p : Proxy K) → move env i j p ≡ end_moving env (moved i j p)
  unfolding move moved start_moving
  move-moved i j p = ap (end_moving env) (
      ground (
        arith,
        replace_content-suppressed i 1 [] (start_moving env p),
        replace_content-suppressed j 0 (slice i 1 p.content)
            (record (start_moving env p) { content = splice i 1 [] p.content }),
      ))

  count-moved : (a i j : ℕ) (p : Proxy K) → count a (moved i j p).content ≡ count a p.content
  unfolding moved
  count-moved a i j p = omega (
    arith,
    count-splice a j 0 (slice i 1 p.content) (splice i 1 [] p.content),
    count-splice a i 1 [] p.content,
  )

  -- Moving an item, where no item repeats and all have a key: the source array is not touched, the
  -- content has the item at its new place, the content's sort keys are the same keys as before, dealt
  -- out so that the content is sorted by them, and observers run again afterwards.
  pub move_lem :
      (i j : ℕ) (p : Proxy K)
      → NoRepeats p.content
      → AllKeyed p.key p.content
      → let moved_content = splice j 0 (slice i 1 p.content) (splice i 1 [] p.content) in
        let after = move env i j p in
        (after.source ≡ p.source)
        × (after.content ≡ moved_content)
        × Sorted (by_key env after.key) after.content
        × Perm (map after.key moved_content) (map p.key moved_content)
        × (after.suppressed ≡ false)
  unfolding end_moving moved
  move_lem i j p n k =
      rw (move-moved i j p)
        (refl, refl, Sorted-re_assign_sort_keys r no_repeats, keys_kept r no_repeats keyed, refl)
    where
      r : Proxy K
      r = record (moved i j p) { suppressed = true }

      no_repeats : NoRepeats r.content
      no_repeats a = omega (arith, n a, count-moved a i j p)

      keyed : AllKeyed p.key r.content
      keyed a q = k a (omega (arith, count-moved a i j p))

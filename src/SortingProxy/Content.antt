-- ===== src/SortingProxy/Content.antt =====
-- utils/sorting_array_proxy.js: changes that are made through the proxy reach the source array and the
-- sort keys.
use mathlib.Core.Path.{subst, subst₂, ap₂}
use flame_js.Prelude.{
  ℕ, suc, ◌+◌, ◌≤◌, ◌≡◌, refl, sym, ◌∙◌, ap, true, false, List, [], ◌∷◌, arith, if◌then◌else◌,
  length, ltb,
}
use flame_js.Prelude.Sort.{Sorted}
use flame_js.Prelude.Items.{
  count, NoRepeats, count-splice, count-slice-le, splice, slice, without_all, count-without_all,
  Sorted-splice, slice-splice,
}
use flame_js.SortingProxy.{
  Env, IsLawful, Proxy, each, by_key, add_observer, remove_observer, re_assign_sort_keys,
  source_array_will_change, source_array_did_change, replace_source, push_source,
  content_array_will_change, content_array_did_change, replace_content,
}
use flame_js.SortingProxy.Source.{InStep, Keeps, each-add_observer}
use flame_js.SortingProxy.Keys.{Sorted-re_assign_sort_keys}

module _ {K : Type 0} (env : Env K) (law : IsLawful env) where
  -- A step under suppression that adds items to the source.
  record Pushed (xs : List ℕ) (p q : Proxy K) : Type 0 where
    content : q.content ≡ p.content
    key : q.key ≡ p.key
    suppressed : q.suppressed ≡ true
    observed : q.source_observed ≡ true
    source : (a : ℕ) → count a q.source ≡ count a p.source + count a xs

  will_change-suppressed :
      (start removed : ℕ) (p : Proxy K)
      → p.suppressed ≡ true
      → source_array_will_change env start removed p ≡ p
  unfolding source_array_will_change
  will_change-suppressed start removed p s = ground arith

  did_change-suppressed :
      (start added : ℕ) (p : Proxy K)
      → p.suppressed ≡ true
      → Keeps p (source_array_did_change env start added p)
  unfolding source_array_did_change
  did_change-suppressed start added p s =
      let k = each-add_observer env (slice start added p.source) p in
      ground (arith, k.source, k.content, k.key, k.suppressed, k.source_observed)

  push_source-Pushed :
      (x : ℕ) (p : Proxy K)
      → p.suppressed ≡ true
      → p.source_observed ≡ true
      → Pushed (x ∷ []) p (push_source env x p)
  unfolding push_source replace_source
  push_source-Pushed x p s o = subst (Pushed (x ∷ []) p) (sym equation) (record {
    content = k.content;
    key = k.key;
    suppressed = k.suppressed ∙ s;
    observed = k.source_observed ∙ o;
    source = λ a.
        ap (count a) k.source ∙ omega (arith, count-splice a (length p.source) 0 (x ∷ []) p.source);
  })
    where
      r : Proxy K
      r = record p { source = splice (length p.source) 0 (x ∷ []) p.source }

      k : Keeps r (source_array_did_change env (length p.source) 1 r)
      k = did_change-suppressed (length p.source) 1 r s

      equation : push_source env x p ≡ source_array_did_change env (length p.source) 1 r
      equation = ground (arith, o, will_change-suppressed (length p.source) 0 p s)

  insert_item : ℕ → Proxy K → Proxy K
  insert_item x r = push_source env x (add_observer env x r)

  each-Pushed :
      (xs : List ℕ) (p : Proxy K)
      → p.suppressed ≡ true
      → p.source_observed ≡ true
      → Pushed xs p (each insert_item xs p)
  unfolding insert_item add_observer
  each-Pushed [] p s o = record {
    content = refl;
    key = refl;
    suppressed = s;
    observed = o;
    source = λ a. omega arith;
  }
  each-Pushed (x ∷ xs) p s o =
      let first = push_source-Pushed x (add_observer env x p) s o in
      let rest = each-Pushed xs (insert_item x p) first.suppressed first.observed in
      record {
        content = rest.content ∙ first.content;
        key = rest.key ∙ first.key;
        suppressed = rest.suppressed;
        observed = rest.observed;
        source = λ a. omega (arith, rest.source a, first.source a);
      }

  removing : ℕ → Proxy K → Proxy K
  removing x r = remove_observer env x (record r { source = env.remove_object x r.source })

  record Removed (xs : List ℕ) (p q : Proxy K) : Type 0 where
    source : q.source ≡ without_all xs p.source
    content : q.content ≡ p.content
    key : q.key ≡ p.key
    suppressed : q.suppressed ≡ p.suppressed
    source_observed : q.source_observed ≡ p.source_observed

  each-removing : (xs : List ℕ) (p : Proxy K) → Removed xs p (each removing xs p)
  unfolding removing remove_observer
  each-removing [] p = ground arith
  each-removing (x ∷ xs) p = ground (arith, law.removes x p.source, each-removing xs (removing x p))

  Removed-content :
      (start removed : ℕ) (p : Proxy K)
      → p.suppressed ≡ false
      → Removed (slice start removed p.content) p (content_array_will_change env start removed p)
  unfolding content_array_will_change removing
  Removed-content start removed p awake =
      let r = each-removing (slice start removed p.content) (record p { suppressed = true }) in
      ground (arith, r.source, r.content, r.key, r.suppressed, r.source_observed)

  record Grown (start added : ℕ) (p q : Proxy K) : Type 0 where
    content : q.content ≡ p.content
    key : q.key ≡ (re_assign_sort_keys env p).key
    source : (a : ℕ) → count a q.source ≡ count a p.source + count a (slice start added p.content)
    awake : q.suppressed ≡ false
    observed : q.source_observed ≡ true

  Grown-content :
      (start added : ℕ) (p : Proxy K)
      → p.suppressed ≡ false
      → p.source_observed ≡ true
      → Grown start (suc added) p (content_array_did_change env start (suc added) p)
  unfolding content_array_did_change insert_item re_assign_sort_keys
  Grown-content start added p awake o = record {
    content = ground (arith, g.content);
    key = ground (arith, g.key);
    source = λ a. ground (arith, g.source a);
    awake = ground (arith, g.suppressed);
    observed = ground (arith, g.observed);
  }
    where
      q : Proxy K
      q = re_assign_sort_keys env (record p { suppressed = true })

      g :
          Pushed
            (slice start (suc added) p.content)
            q
            (each insert_item (slice start (suc added) p.content) q)
      g = each-Pushed (slice start (suc added) p.content) q refl o

  -- Items are taken out of a proxy in step: they leave the source array too.
  Removed-InStep :
      (start removed : ℕ) (p : Proxy K)
      → InStep env p
      → NoRepeats p.content
      → let q = content_array_will_change env start removed p in
        let r = record q { content = splice start removed [] q.content } in
        InStep env r × (r.content ≡ splice start removed [] p.content)
  Removed-InStep start removed p h n = (
    record {
      same = λ a. ground (
        arith,
        ap (count a) r.source,
        ap (λ c. count a (splice start removed [] c)) r.content,
        count-without_all a items p.source,
        count-splice a start removed [] p.content,
        h.same a,
        n a,
      );
      sorted =
          subst₂ (λ key c. Sorted (by_key env key) (splice start removed [] c)) (sym r.key)
            (sym r.content) (Sorted-splice (by_key env p.key) start removed p.content h.sorted);
      awake = r.suppressed ∙ h.awake;
      observed = r.source_observed ∙ h.observed;
    },
    ap (splice start removed []) r.content,
  )
    where
      items : List ℕ
      items = slice start removed p.content

      r : Removed items p (content_array_will_change env start removed p)
      r = Removed-content start removed p h.awake

  -- The count of an item after the change, from those of what was taken out and put in.
  balance :
      {spliced after : ℕ} (taken before put was : ℕ)
      → spliced + taken ≡ before + put
      → before ≡ was
      → before ≤ 1
      → taken ≤ before
      → after ≡ (if ltb 0 taken then 0 else was) + put
      → spliced ≡ after
  balance taken before put was e same one less eq = ground arith

  Inserted-InStep :
      (start removed extra : ℕ) (added : List ℕ) (p : Proxy K)
      → InStep env p
      → NoRepeats p.content
      → start ≤ length p.content
      → length added ≡ suc extra
      → NoRepeats (splice start removed added p.content)
      → let q = content_array_will_change env start removed p in
        let d =
          content_array_did_change env start
            (suc extra)
            (record q { content = splice start removed added q.content }) in
        InStep env d × (d.content ≡ splice start removed added p.content)
  Inserted-InStep start removed extra added p h n inside more n' = (
    record {
      same = λ a.
          ap (count a) content
          ∙ balance (count a (slice start removed p.content)) (count a p.content) (count a added)
              (count a p.source) (count-splice a start removed added p.content) (h.same a) (n a)
              (count-slice-le a start removed p.content)
              (g.source a
                ∙ ap₂ ◌+◌ (ap (count a) r.source ∙ count-without_all a items p.source)
                    (ap (count a) put_in));
      sorted =
          subst₂ (λ key c. Sorted (by_key env key) c) (sym g.key) (sym g.content)
            (Sorted-re_assign_sort_keys env law m (λ a. omega (arith, n' a, ap (count a) before)));
      awake = g.awake;
      observed = g.observed;
    },
    content,
  )
    where
      items : List ℕ
      items = slice start removed p.content

      q : Proxy K
      q = content_array_will_change env start removed p

      r : Removed items p q
      r = Removed-content start removed p h.awake

      m : Proxy K
      m = record q { content = splice start removed added q.content }

      g : Grown start (suc extra) m (content_array_did_change env start (suc extra) m)
      g = Grown-content start extra m (r.suppressed ∙ h.awake) (r.source_observed ∙ h.observed)

      before : m.content ≡ splice start removed added p.content
      before = ap (splice start removed added) r.content

      content :
          (content_array_did_change env start (suc extra) m).content
          ≡ splice start removed added p.content
      content = g.content ∙ before

      put_in : slice start (suc extra) m.content ≡ added
      put_in =
          ap (slice start (suc extra)) before
          ∙ ap (λ k. slice start k (splice start removed added p.content)) (sym more)
          ∙ slice-splice start removed added p.content inside

  -- A change of the content through a proxy in step, anywhere in it, with no item twice before or
  -- after: the content is as the user made it, and the proxy is in step: the source array has lost
  -- what was taken out and gained what was put in, and the sort keys follow the order of the
  -- content.
  pub replace_content-InStep :
      (start removed : ℕ) (added : List ℕ) (p : Proxy K)
      → InStep env p
      → NoRepeats p.content
      → start ≤ length p.content
      → NoRepeats (splice start removed added p.content)
      → InStep env (replace_content env start removed added p)
        × ((replace_content env start removed added p).content
            ≡ splice start removed added p.content)
  unfolding replace_content
  replace_content-InStep start removed [] p h n inside n' =
      unfold content_array_did_change in Removed-InStep start removed p h n
  replace_content-InStep start removed (x ∷ xs) p h n inside n' =
      Inserted-InStep start removed (length xs) (x ∷ xs) p h n inside refl n'

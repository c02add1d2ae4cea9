-- ===== src/SortingProxy/Source.antt =====
-- utils/sorting_array_proxy.js: changes of the source array reach the content.
use mathlib.Core.Path.{subst, subst₂}
use flame_js.Prelude.{
  ℕ, zero, suc, ◌+◌, ◌≤◌, ◌≡◌, refl, sym, ◌∙◌, ap, true, false, ◌&&◌, Option, List, [], ◌∷◌, ◌++◌,
  arith, ◌==◌, length, take, drop, Bool-cases, inl, inr,
}
use native.Mathlib.Nat.{zero-add}
use flame_js.Prelude.Sort.{IsOrder, sort_by, Sorted, Sorted-sort_by}
use flame_js.Prelude.Items.{
  count, SameItems, NoRepeats, count-append, count-sort_by, count-splice, splice, slice,
  without_all, count-without_all, Sorted-without_all, drop-length, take-length, slice-splice,
  length-SameItems,
}
use flame_js.SortingProxy.{
  Env, IsLawful, Proxy, each, by_key, add_observer, remove_observer, source_array_will_change,
  source_array_did_change, replace_source, fresh, init,
}

-- The content holds the source's items, sorted by their keys, and no observers are held back.
pub record InStep {K : Type 0} (env : Env K) (p : Proxy K) : Type 0 where
  pub same : SameItems p.content p.source
  pub sorted : Sorted (by_key env p.key) p.content
  pub awake : p.suppressed ≡ false
  pub observed : p.source_observed ≡ true

-- What a step that only looks after observers leaves alone.
pub record Keeps {K : Type 0} (p q : Proxy K) : Type 0 where
  pub source : q.source ≡ p.source
  pub content : q.content ≡ p.content
  pub key : q.key ≡ p.key
  pub suppressed : q.suppressed ≡ p.suppressed
  pub source_observed : q.source_observed ≡ p.source_observed

module _ {K : Type 0} (env : Env K) where
  pub each-add_observer : (xs : List ℕ) (p : Proxy K) → Keeps p (each (add_observer env) xs p)
  unfolding add_observer
  each-add_observer [] p = ground arith
  each-add_observer (x ∷ xs) p = ground (arith, each-add_observer xs (add_observer env x p))

  module _ (law : IsLawful env) where
    pub by_key-IsOrder : (key : ℕ → Option K) → IsOrder (by_key env key)
    by_key-IsOrder key = record {
      total = λ a b. law.order.total (key a) (key b);
      trans = λ a b c. law.order.trans (key a) (key b) (key c);
    }

    pub InStep-Keeps : {p q : Proxy K} → Keeps p q → InStep env p → InStep env q
    InStep-Keeps k h = record {
      same = λ a. ap (count a) k.content ∙ h.same a ∙ sym (ap (count a) k.source);
      sorted = subst₂ (λ key c. Sorted (by_key env key) c) (sym k.key) (sym k.content) h.sorted;
      awake = k.suppressed ∙ h.awake;
      observed = k.source_observed ∙ h.observed;
    }

    -- A new proxy is in step with its source.
    pub init-InStep : (source : List ℕ) (key : ℕ → Option K) → InStep env (init env source key)
    unfolding init
    init-InStep source key =
        InStep-Keeps {p = fresh env source key}
          (each-add_observer (sort_by (by_key env key) source) (fresh env source key))
          (record {
            same = λ a. count-sort_by (by_key env key) a source;
            sorted = Sorted-sort_by (by_key env key) (by_key-IsOrder key) source;
            awake = refl;
            observed = refl;
          })

    removing : ℕ → Proxy K → Proxy K
    removing x r = remove_observer env x (record r { content = env.remove_object x r.content })

    record Removed (xs : List ℕ) (p q : Proxy K) : Type 0 where
      source : q.source ≡ p.source
      content : q.content ≡ without_all xs p.content
      key : q.key ≡ p.key
      suppressed : q.suppressed ≡ p.suppressed
      source_observed : q.source_observed ≡ p.source_observed

    each-removing : (xs : List ℕ) (p : Proxy K) → Removed xs p (each removing xs p)
    unfolding removing remove_observer
    each-removing [] p = ground arith
    each-removing (x ∷ xs) p =
        ground (arith, law.removes x p.content, each-removing xs (removing x p))

    -- What the first half of a change of the source does to a proxy that is in step.
    record Shrunk (start removed : ℕ) (p q : Proxy K) : Type 0 where
      source : q.source ≡ p.source
      key : q.key ≡ p.key
      sorted : Sorted (by_key env p.key) q.content
      left :
          (a : ℕ) → count a q.content + count a (slice start removed p.source) ≡ count a p.content
      awake : q.suppressed ≡ false
      observed : q.source_observed ≡ true

    pub each_nil :
        (f : ℕ → Proxy K → Proxy K) (xs : List ℕ) (p : Proxy K) → xs ≡ [] → each f xs p ≡ p
    each_nil f [] p h = refl
    each_nil f (x ∷ xs) p h = absurd (cc)

    pub splice_all : (xs : List ℕ) → splice 0 (length xs) [] xs ≡ []
    splice_all xs = ap (λ n. drop n xs) (zero-add (length xs)) ∙ drop-length xs

    Shrunk-mass :
        (start removed : ℕ) (p : Proxy K)
        → InStep env p
        → (start == 0 && removed == length p.content) ≡ true
        → Shrunk start removed p (source_array_will_change env start removed p)
    unfolding source_array_will_change
    Shrunk-mass start removed p h e = record {
      source = ground (arith, h.awake, nothing);
      key = ground (arith, h.awake, nothing);
      sorted = subst (Sorted (by_key env p.key)) (sym content) tt;
      left = λ a. ground (arith, ap (count a) content, ap (count a) items, h.same a);
      awake = ground (arith, h.awake, nothing);
      observed = ground (arith, h.awake, h.observed, nothing);
    }
      where
        all_gone : removed ≡ length p.content
        all_gone = ground (arith)

        from_front : start ≡ 0
        from_front = ground (arith)

        emptied : splice 0 removed [] p.content ≡ []
        emptied = ap (λ n. splice 0 n [] p.content) all_gone ∙ splice_all p.content

        m : Proxy K
        m = record p { content = splice 0 removed [] p.content; suppressed = true }

        nothing : each (remove_observer env) m.content m ≡ m
        nothing = each_nil (remove_observer env) m.content m emptied

        content : (source_array_will_change env start removed p).content ≡ []
        content = ground (arith, h.awake, nothing, emptied)

        items : slice start removed p.source ≡ p.source
        items =
            ap (λ n. slice n removed p.source) from_front
            ∙ ap (λ n. take n p.source) (all_gone ∙ length-SameItems p.content p.source h.same)
            ∙ take-length p.source

    Shrunk-some :
        (start removed : ℕ) (p : Proxy K)
        → InStep env p
        → NoRepeats p.source
        → (start == 0 && removed == length p.content) ≡ false
        → Shrunk start removed p (source_array_will_change env start removed p)
    unfolding source_array_will_change removing
    Shrunk-some start removed p h n e = record {
      source = ground (arith, h.awake, r.source);
      key = ground (arith, h.awake, r.key);
      sorted =
          subst (Sorted (by_key env p.key)) (sym content)
            (Sorted-without_all (by_key env p.key) items p.content h.sorted);
      left = λ a. ground (
        arith,
        ap (count a) content,
        count-without_all a items p.content,
        h.same a,
        n a,
        count-splice a start removed [] p.source,
      );
      awake = ground (arith, h.awake, r.suppressed);
      observed = ground (arith, h.awake, h.observed, r.source_observed);
    }
      where
        items : List ℕ
        items = slice start removed p.source

        r :
            Removed items
              (record p { suppressed = true })
              (each removing items (record p { suppressed = true }))
        r = each-removing items (record p { suppressed = true })

        content :
            (source_array_will_change env start removed p).content ≡ without_all items p.content
        content = ground (arith, h.awake, r.content)

    source_array_will_change-Shrunk :
        (start removed : ℕ) (p : Proxy K)
        → InStep env p
        → NoRepeats p.source
        → Shrunk start removed p (source_array_will_change env start removed p)
    source_array_will_change-Shrunk start removed p h n =
        elim (Bool-cases (start == 0 && removed == length p.content)) [
          | inl e ↦ Shrunk-mass start removed p h e
          | inr e ↦ Shrunk-some start removed p h n e
        ]

    -- What the second half does.
    record Grown (start added : ℕ) (p q : Proxy K) : Type 0 where
      source : q.source ≡ p.source
      key : q.key ≡ p.key
      sorted : Sorted (by_key env p.key) q.content
      gained :
          (a : ℕ) → count a q.content ≡ count a p.content + count a (slice start added p.source)
      awake : q.suppressed ≡ false
      observed : q.source_observed ≡ p.source_observed

    Grown-some :
        (start n : ℕ) (p : Proxy K)
        → p.suppressed ≡ false
        → Grown start (suc n) p (source_array_did_change env start (suc n) p)
    unfolding source_array_did_change
    Grown-some start n p awake_ = record {
      source = ground (arith, awake_, k.source, k.suppressed);
      key = ground (arith, awake_, k.key, k.suppressed);
      sorted =
          subst (Sorted (by_key env p.key)) (sym content)
            (Sorted-sort_by (by_key env p.key) (by_key-IsOrder p.key) (p.content ++ items));
      gained = λ a.
          ap (count a) content
          ∙ count-sort_by (by_key env p.key) a (p.content ++ items)
          ∙ count-append a p.content items;
      awake = ground (arith, awake_, k.suppressed);
      observed = ground (arith, awake_, k.source_observed, k.suppressed);
    }
      where
        items : List ℕ
        items = slice start (suc n) p.source

        k : Keeps p (each (add_observer env) items p)
        k = each-add_observer items p

        content :
            (source_array_did_change env start (suc n) p).content
            ≡ sort_by (by_key env p.key) (p.content ++ items)
        content =
            ground (arith, awake_, k.suppressed)
            ∙ ap (λ f. sort_by (by_key env f) (p.content ++ items)) k.key

    source_array_did_change-Grown :
        (start n : ℕ) (p : Proxy K)
        → p.suppressed ≡ false
        → Sorted (by_key env p.key) p.content
        → Grown start n p (source_array_did_change env start n p)
    unfolding source_array_did_change
    source_array_did_change-Grown start zero p awake_ s = record {
      source = refl;
      key = refl;
      sorted = s;
      gained = λ a. omega arith;
      awake = awake_;
      observed = refl;
    }
    source_array_did_change-Grown start (suc n) p awake_ s = Grown-some start n p awake_

    -- A change of the source array of a proxy in step, anywhere in it, with no item twice before
    -- it: the source is changed so, and the proxy is in step with the changed source.
    pub replace_source-InStep :
        (start removed : ℕ) (added : List ℕ) (p : Proxy K)
        → InStep env p
        → NoRepeats p.source
        → start ≤ length p.source
        → InStep env (replace_source env start removed added p)
          × ((replace_source env start removed added p).source
              ≡ splice start removed added p.source)
    unfolding replace_source
    replace_source-InStep start removed added p h n inside =
        subst (λ x. InStep env x × (x.source ≡ splice start removed added p.source)) (sym equation)
          (
            record {
              same = λ a. omega (
                arith,
                g.gained a,
                w.left a,
                h.same a,
                ap (count a) source,
                ap (count a) new_items,
                count-splice a start removed added p.source,
              );
              sorted = subst (λ key. Sorted (by_key env key) d.content) (sym g.key) g.sorted;
              awake = g.awake;
              observed = g.observed ∙ w.observed;
            },
            source,
          )
      where
        q : Proxy K
        q = source_array_will_change env start removed p

        w : Shrunk start removed p q
        w = source_array_will_change-Shrunk start removed p h n

        r : Proxy K
        r = record q { source = splice start removed added q.source }

        d : Proxy K
        d = source_array_did_change env start (length added) r

        g : Grown start (length added) r d
        g =
            source_array_did_change-Grown start (length added) r w.awake
              (subst (λ key. Sorted (by_key env key) q.content) (sym w.key) w.sorted)

        equation : replace_source env start removed added p ≡ d
        equation = ground (arith, h.observed)

        source : d.source ≡ splice start removed added p.source
        source = g.source ∙ ap (splice start removed added) w.source

        new_items : slice start (length added) r.source ≡ added
        new_items =
            ap (λ s. slice start (length added) (splice start removed added s)) w.source
            ∙ slice-splice start removed added p.source inside

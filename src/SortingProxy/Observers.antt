-- ===== src/SortingProxy/Observers.antt =====
-- utils/sorting_array_proxy.js: the observers of the sort keys, and changes of the keys and of the source
-- from outside.
use mathlib.Core.Path.{subst}
use flame_js.Prelude.{
  ℕ, zero, suc, ◌≡◌, ◌≢◌, refl, sym, ◌∙◌, ap, true, false, ◌||◌, Option, [], arith, ==_iff, length,
  Bool-cases, inl, inr,
}
use flame_js.Prelude.Sort.{Sorted-sort_by}
use flame_js.Prelude.Items.{SameItems, count-sort_by, length-SameItems, splice}
use flame_js.SortingProxy.{
  Env, IsLawful, Proxy, each, update, by_key, remove_observer, sort_and_replace_content,
  source_array_will_change, source_array_did_change, replace_source, index_changed, set_key, notify,
}
use flame_js.SortingProxy.Source.{InStep, by_key-IsOrder, each_nil, splice_all}

module _ {K : Type 0} (env : Env K) (law : IsLawful env) where
  index_changed_same :
      (x : ℕ) (p : Proxy K) → p.last_position x ≡ p.key x → index_changed env x p ≡ p
  unfolding index_changed
  index_changed_same x p h = rw ((law.same_iff (p.last_position x) (p.key x)).1 h)

  notify_same : (x n : ℕ) (p : Proxy K) → p.last_position x ≡ p.key x → notify env x n p ≡ p
  unfolding notify
  notify_same x zero p h = refl
  notify_same x (suc n) p h = ap (notify env x n) (index_changed_same x p h) ∙ notify_same x n p h

  -- An item whose key goes back to the position noted when its observer was added is taken for one that
  -- did not move, although the content may since have been sorted by another key of it: the content
  -- stays as it is.
  pub set_key_back :
      (x : ℕ) (p : Proxy K) → (set_key env x (p.last_position x) p).content ≡ p.content
  unfolding set_key
  set_key_back x p =
      ap (λ (q : Proxy K). q.content)
        (notify_same x (p.observers x) (record p { key = update x (p.last_position x) p.key })
          (ground (arith, ==_iff x x)))

  sort_and_replace_content-InStep :
      (p : Proxy K)
      → p.suppressed ≡ false
      → p.source_observed ≡ true
      → SameItems p.content p.source
      → InStep env (sort_and_replace_content env p.content p)
  unfolding sort_and_replace_content
  sort_and_replace_content-InStep p a o s = rw a (record {
    same = λ x. count-sort_by (by_key env p.key) x p.content ∙ s x;
    sorted = Sorted-sort_by (by_key env p.key) (by_key-IsOrder env law p.key) p.content;
    awake = refl;
    observed = o;
  })

  index_changed-InStep : (x : ℕ) (p : Proxy K) → InStep env p → InStep env (index_changed env x p)
  unfolding index_changed
  index_changed-InStep x p h =
      elim (Bool-cases (env.same (p.last_position x) (p.key x) || p.suppressed)) [
        | inl e ↦ rw e h
        | inr e ↦ rw e (sort_and_replace_content-InStep p h.awake h.observed h.same)
      ]

  notify-InStep : (x n : ℕ) (p : Proxy K) → InStep env p → InStep env (notify env x n p)
  unfolding notify
  notify-InStep x zero p h = h
  notify-InStep x (suc n) p h =
      notify-InStep x n (index_changed env x p) (index_changed-InStep x p h)

  key-index_changed : (x : ℕ) (p : Proxy K) → (index_changed env x p).key ≡ p.key
  unfolding index_changed sort_and_replace_content
  key-index_changed x p = ground arith

  key-notify : (x n : ℕ) (p : Proxy K) → (notify env x n p).key ≡ p.key
  unfolding notify
  key-notify x zero p = refl
  key-notify x (suc n) p = key-notify x n (index_changed env x p) ∙ key-index_changed x p

  index_changed_other :
      (x : ℕ) (p : Proxy K)
      → p.suppressed ≡ false
      → p.last_position x ≢ p.key x
      → index_changed env x p ≡ sort_and_replace_content env p.content p
  unfolding index_changed
  index_changed_other x p a ne = elim (Bool-cases (env.same (p.last_position x) (p.key x))) [
    | inl e ↦ absurd (ne ((law.same_iff (p.last_position x) (p.key x)).0 e))
    | inr e ↦ rw (e, a)
  ]

  -- In a proxy that is in step with its source, so that no move suppresses its observers: a key that
  -- changes to any other value than the position noted for an observed item: the item has the key, and the
  -- content is sorted again by the new keys, in step with the source.
  pub set_key-InStep :
      (x n : ℕ) (k : Option K) (p : Proxy K)
      → InStep env p
      → p.observers x ≡ suc n
      → k ≢ p.last_position x
      → InStep env (set_key env x k p) × ((set_key env x k p).key x ≡ k)
  unfolding set_key notify
  set_key-InStep x n k p h o ne = rw o (
    notify-InStep x n (index_changed env x q) (
        subst (InStep env) (sym (index_changed_other x q h.awake changed))
          (sort_and_replace_content-InStep q h.awake h.observed h.same)),
    ap (λ f. f x) (key-notify x n (index_changed env x q) ∙ key-index_changed x q) ∙ new_key,
  )
    where
      q : Proxy K
      q = record p { key = update x k p.key }

      new_key : q.key x ≡ k
      new_key = ground (arith, ==_iff x x)

      changed : q.last_position x ≢ q.key x
      changed e = ne (sym (e ∙ new_key))

  -- Removing all items of the source at once from a proxy in step empties the content, and leaves every
  -- observer of the items' keys in place.
  pub mass_removal :
      (p : Proxy K)
      → InStep env p
      → ((replace_source env 0 (length p.source) [] p).content ≡ [])
        × ((replace_source env 0 (length p.source) [] p).observers ≡ p.observers)
  unfolding replace_source source_array_will_change source_array_did_change
  mass_removal p h = (
    ground (arith, h.awake, h.observed, size, nothing, emptied),
    ground (arith, h.awake, h.observed, size, nothing),
  )
    where
      size : length p.content ≡ length p.source
      size = length-SameItems p.content p.source h.same

      m : Proxy K
      m = record p { content = splice 0 (length p.source) [] p.content; suppressed = true }

      emptied : m.content ≡ []
      emptied = ap (λ n. splice 0 n [] p.content) (sym size) ∙ splice_all env law p.content

      nothing : each (remove_observer env) m.content m ≡ m
      nothing = each_nil env law (remove_observer env) m.content m emptied

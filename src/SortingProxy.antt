-- ===== src/SortingProxy.antt =====
-- utils/sorting_array_proxy.js: a view of a source array sorted by a key of its items, which writes
-- changes of its own order back to the keys.
pub mod Keys
pub mod Source
pub mod Content
pub mod Observers
use flame_js.Prelude.{
  ℕ, zero, suc, ◌+◌, ◌-◌, ◌≡◌, ◌↔◌, Bool, true, false, not, ◌&&◌, ◌||◌, Option, none, some, List,
  [], ◌∷◌, ◌++◌, map, if◌then◌else◌, ◌==◌, ltb, length, take, drop,
}
use flame_js.Prelude.Sort.{IsOrder, sort_by, on}
use flame_js.Prelude.Items.{without, splice, slice}

-- What the proxy takes from outside: the type of sort keys with its `0`, where `none` stands for an
-- undefined key; `leb a b` says that `Ember.compare(a, b)` is not positive; `same` is `===` on keys;
-- `remove_object` is Ember's `removeObject` of arrays.
pub record Env (K : Type 0) : Type 0 where
  pub zero_key : K
  pub leb : Option K → Option K → Bool
  pub same : Option K → Option K → Bool
  pub remove_object : ℕ → List ℕ → List ℕ

-- What is documented of these: the comparison is an order, `===` is equality of primitive values, and
-- `removeObject` removes all occurrences of an object.
pub record IsLawful {K : Type 0} (env : Env K) : Type 0 where
  pub order : IsOrder env.leb
  pub same_iff : (a b : Option K) → (env.same a b ≡ true) ↔ (a ≡ b)
  pub removes : (x : ℕ) (xs : List ℕ) → env.remove_object x xs ≡ without x xs

-- Items are numbered. `key`, `last_position` and `stored` are properties of the items: the sort key,
-- `lastPosition`, and whether an observer function is kept under the observer key. `observers` counts
-- the observers of the sort key that the proxy has added to an item.
pub record Proxy (K : Type 0) : Type 0 where
  pub source : List ℕ
  pub content : List ℕ
  pub key : ℕ → Option K
  pub last_position : ℕ → Option K
  pub observers : ℕ → ℕ
  pub stored : ℕ → Bool
  pub suppressed : Bool
  -- whether the observers of the source array are in place
  pub source_observed : Bool

abbrev pub update {ℓ} : {A : Type ℓ} → ℕ → A → (ℕ → A) → ℕ → A
update x v f y = if x == y then v else f y

abbrev pub each {ℓ} : {S : Type ℓ} → (ℕ → S → S) → List ℕ → S → S
each f [] s = s
each f (x ∷ xs) s = each f xs (f x s)

-- An undefined key counts as the key before it, or as zero at the front.
pub fill_keys {ℓ} : {K : Type ℓ} → K → List (Option K) → List (Option K)
fill_keys previous [] = []
fill_keys previous (none ∷ ks) = some previous ∷ fill_keys previous ks
fill_keys previous (some k ∷ ks) = some k ∷ fill_keys k ks

pub assign {ℓ} : {A : Type ℓ} → List ℕ → List A → (ℕ → A) → ℕ → A
assign (x ∷ xs) (v ∷ vs) f = assign xs vs (update x v f)
assign _ _ f = f

module _ {K : Type 0} (env : Env K) where
  -- `_withObserversSuppressed`
  unfoldable pub with_observers_suppressed : (Proxy K → Proxy K) → Proxy K → Proxy K
  with_observers_suppressed f p =
      if p.suppressed then p else record (f (record p { suppressed = true })) { suppressed = false }

  -- `_addSortIndexObserverAndRegisterForRemoval`
  unfoldable pub add_observer : ℕ → Proxy K → Proxy K
  add_observer x p = record p {
    last_position = update x (p.key x) p.last_position;
    observers = update x (p.observers x + 1) p.observers;
    stored = update x true p.stored;
  }

  -- `_removeSortIndexObserverFor`
  unfoldable pub remove_observer : ℕ → Proxy K → Proxy K
  remove_observer x p =
      if p.stored x
      then record p {
        observers = update x (p.observers x - 1) p.observers;
        stored = update x false p.stored;
      }
      else p

  abbrev pub by_key : (ℕ → Option K) → ℕ → ℕ → Bool
  by_key key = on env.leb key

  -- `_sortAndReplaceContent`. The replacement runs suppressed, so that the observers of the content
  -- array return at once.
  unfoldable pub sort_and_replace_content : List ℕ → Proxy K → Proxy K
  unfolding with_observers_suppressed
  sort_and_replace_content new p =
      with_observers_suppressed (λ q. record q { content = sort_by (by_key q.key) new }) p

  -- `_reAssignSortKeys`. It only runs suppressed, so that the observers of the keys return at once.
  unfoldable pub re_assign_sort_keys : Proxy K → Proxy K
  unfolding assign fill_keys
  re_assign_sort_keys p =
      let keys = sort_by env.leb (fill_keys env.zero_key (map p.key p.content)) in
      record p { key = assign p.content keys p.key }

  -- `_sourceArrayWillChange`. Where as many items go as the content has, from the front, the content is
  -- emptied first, and the loop over it that follows meets no item.
  unfoldable pub source_array_will_change : ℕ → ℕ → Proxy K → Proxy K
  unfolding with_observers_suppressed remove_observer
  source_array_will_change start removed p =
      with_observers_suppressed
        (λ q.
          if start == 0 && removed == length q.content
          then (let emptied = record q { content = splice 0 removed [] q.content } in
              each remove_observer emptied.content emptied)
          else each
              (λ x r. remove_observer x (record r { content = env.remove_object x r.content }))
              (slice start removed q.source) q)
        p

  -- `_sourceArrayDidChange`
  unfoldable pub source_array_did_change : ℕ → ℕ → Proxy K → Proxy K
  unfolding add_observer sort_and_replace_content
  source_array_did_change start added p =
      if ltb 0 added
      then (let items = slice start added p.source in
          sort_and_replace_content (p.content ++ items) (each add_observer items p))
      else p

  -- The source array changes, by the application or by the proxy.
  unfoldable pub replace_source : ℕ → ℕ → List ℕ → Proxy K → Proxy K
  replace_source start removed added p =
      if p.source_observed
      then (let q = source_array_will_change start removed p in
          source_array_did_change start (length added)
            (record q { source = splice start removed added q.source }))
      else record p { source = splice start removed added p.source }

  -- `source.pushObject(x)`
  unfoldable pub push_source : ℕ → Proxy K → Proxy K
  push_source x p = replace_source (length p.source) 0 (x ∷ []) p

  -- `_contentArrayWillChange`. It runs suppressed, so that of the source array's observers the one
  -- before the removal returns at once, and the one after it has no additions to handle.
  unfoldable pub content_array_will_change : ℕ → ℕ → Proxy K → Proxy K
  unfolding with_observers_suppressed remove_observer
  content_array_will_change start removed p =
      with_observers_suppressed
        (λ q.
          each (λ x r. remove_observer x (record r { source = env.remove_object x r.source }))
            (slice start removed q.content) q)
        p

  -- `_contentArrayDidChange`
  unfoldable pub content_array_did_change : ℕ → ℕ → Proxy K → Proxy K
  unfolding with_observers_suppressed
  content_array_did_change start added p =
      if ltb 0 added
      then with_observers_suppressed
          (λ q.
            each (λ x r. push_source x (add_observer x r)) (slice start added q.content)
              (re_assign_sort_keys q))
          p
      else p

  -- The user of the proxy changes its content.
  unfoldable pub replace_content : ℕ → ℕ → List ℕ → Proxy K → Proxy K
  replace_content start removed added p =
      let q = content_array_will_change start removed p in
      content_array_did_change start (length added)
        (record q { content = splice start removed added q.content })

  unfoldable pub start_moving : Proxy K → Proxy K
  start_moving p = record p { suppressed = true }

  unfoldable pub end_moving : Proxy K → Proxy K
  unfolding with_observers_suppressed re_assign_sort_keys
  end_moving p = with_observers_suppressed re_assign_sort_keys (record p { suppressed = false })

  -- The documented sequence for moving an item of the proxy from one place to another.
  unfoldable pub move : ℕ → ℕ → Proxy K → Proxy K
  move i j p =
      end_moving
        (replace_content j 0 (slice i 1 p.content) (replace_content i 1 [] (start_moving p)))

  -- `_indexChanged`
  unfoldable pub index_changed : ℕ → Proxy K → Proxy K
  unfolding sort_and_replace_content
  index_changed x p =
      if env.same (p.last_position x) (p.key x) || p.suppressed
      then p
      else sort_and_replace_content p.content p

  -- The application sets the sort key of an item, and each observer of the key runs.
  notify : ℕ → ℕ → Proxy K → Proxy K
  notify x zero p = p
  notify x (suc n) p = notify x n (index_changed x p)

  unfoldable pub set_key : ℕ → Option K → Proxy K → Proxy K
  unfolding notify
  set_key x k p = notify x (p.observers x) (record p { key = update x k p.key })

  -- A proxy over a source array whose content is sorted, before any observer is added.
  unfoldable pub fresh : List ℕ → (ℕ → Option K) → Proxy K
  fresh source key = record {
    source = source;
    content = sort_by (by_key key) source;
    key = key;
    last_position = λ _. none;
    observers = λ _. 0;
    stored = λ _. false;
    suppressed = false;
    source_observed = true;
  }

  -- `init`: the observers of the content are added after this first call of `_sourceDidChange`.
  unfoldable pub init : List ℕ → (ℕ → Option K) → Proxy K
  unfolding add_observer fresh
  init source key = each add_observer (sort_by (by_key key) source) (fresh source key)

  -- The application sets `source`: `_sourceWillChange`, and `_sourceDidChange` with the observers of
  -- the content in place, but those of the source not before its end.
  unfoldable pub set_source : List ℕ → Proxy K → Proxy K
  set_source new p =
      let q = record (each remove_observer p.source p) { source = new; source_observed = false } in
      let sorted = sort_by (by_key q.key) new in
      let r = replace_content 0 (length q.content) sorted q in
      record (each add_observer r.content r) { source_observed = true }

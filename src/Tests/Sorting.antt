-- ===== src/Tests/Sorting.antt =====
-- utils/sorting_array_proxy.js: three items with numbers for keys.
use mathlib.Core.List.{Perm}
use mathlib.Core.Path.{subst}
use flame_js.Prelude.{
  ℕ, ◌≤◌, ◌≡◌, ◌≢◌, ◌↔◌, refl, sym, Bool, true, false, Option, none, some, List, [], ◌∷◌, map,
  arith, if◌then◌else◌, ◌==◌, leb, length,
}
use flame_js.Prelude.Sort.{IsOrder, Sorted, sort_by, insert_by}
use flame_js.Prelude.Items.{without, splice, slice, NoRepeats}
use flame_js.SortingProxy.{
  Env, IsLawful, Proxy, by_key, move, init, fresh, replace_source, replace_content, set_key,
  add_observer,
}
use flame_js.SortingProxy.Keys.{move_lem, AllKeyed}
use flame_js.SortingProxy.Source.{InStep, init-InStep, replace_source-InStep}
use flame_js.SortingProxy.Content.{replace_content-InStep}
use flame_js.SortingProxy.Observers.{set_key-InStep, mass_removal}

key_leb : Option ℕ → Option ℕ → Bool
key_leb none b = true
key_leb (some a) none = false
key_leb (some a) (some b) = leb a b

key_same : Option ℕ → Option ℕ → Bool
key_same none none = true
key_same (some a) (some b) = a == b
key_same _ _ = false

env : Env ℕ
env = record { zero_key = 0; leb = key_leb; same = key_same; remove_object = without }

env-IsOrder : IsOrder key_leb
unfolding key_leb
env-IsOrder = record { total = λ a b. ground arith; trans = λ a b c. ground arith }

key_same_iff : (a b : Option ℕ) → (key_same a b ≡ true) ↔ (a ≡ b)
unfolding key_same
key_same_iff a b = ground arith

env-IsLawful : IsLawful env
unfolding env
env-IsLawful = record { order = env-IsOrder; same_iff = key_same_iff; removes = λ x xs. refl }

keys : ℕ → Option ℕ
keys x = some (if x == 1 then 30 else if x == 2 then 10 else 20)

-- The items 1, 2, 3 with the keys 30, 10, 20.
start : Proxy ℕ
start = init env (1 ∷ 2 ∷ 3 ∷ []) keys

content-start : start.content ≡ 2 ∷ 3 ∷ 1 ∷ []
unfolding start env key_leb keys init fresh add_observer sort_by insert_by
content-start = refl

start-InStep : InStep env start
unfolding start
start-InStep = init-InStep env env-IsLawful (1 ∷ 2 ∷ 3 ∷ []) keys

content-NoRepeats : NoRepeats start.content
content-NoRepeats = subst NoRepeats (sym content-start) (λ a. ground arith)

source-start : start.source ≡ 1 ∷ 2 ∷ 3 ∷ []
unfolding start init fresh add_observer env key_leb keys sort_by insert_by
source-start = refl

key-start : start.key ≡ keys
unfolding start init fresh add_observer env key_leb keys sort_by insert_by
key-start = refl

source-NoRepeats : NoRepeats start.source
source-NoRepeats = subst NoRepeats (sym source-start) (λ a. ground arith)

start-AllKeyed : AllKeyed start.key start.content
unfolding keys
start-AllKeyed x q = subst (λ f. f x ≢ none) (sym key-start) (λ e. cc)

abbrev moved_content : List ℕ
moved_content = splice 2 0 (slice 0 1 start.content) (splice 0 1 [] start.content)

move_lem_example :
    ((move env 0 2 start).source ≡ start.source)
    × ((move env 0 2 start).content ≡ moved_content)
    × Sorted (by_key env (move env 0 2 start).key) (move env 0 2 start).content
    × Perm (map (move env 0 2 start).key moved_content) (map start.key moved_content)
    × ((move env 0 2 start).suppressed ≡ false)
move_lem_example = move_lem env env-IsLawful 0 2 start content-NoRepeats start-AllKeyed

replace_source-InStep_example :
    InStep env (replace_source env 1 1 (7 ∷ 8 ∷ []) start)
    × ((replace_source env 1 1 (7 ∷ 8 ∷ []) start).source ≡ splice 1 1 (7 ∷ 8 ∷ []) start.source)
replace_source-InStep_example =
    replace_source-InStep env env-IsLawful 1 1 (7 ∷ 8 ∷ []) start start-InStep source-NoRepeats
      (subst (λ s. 1 ≤ length s) (sym source-start) (omega arith))

replace_content-InStep_example :
    InStep env (replace_content env 1 1 (7 ∷ 8 ∷ []) start)
    × ((replace_content env 1 1 (7 ∷ 8 ∷ []) start).content ≡ splice 1 1 (7 ∷ 8 ∷ []) start.content)
replace_content-InStep_example =
    replace_content-InStep env env-IsLawful 1 1 (7 ∷ 8 ∷ []) start start-InStep content-NoRepeats
      (subst (λ s. 1 ≤ length s) (sym content-start) (omega arith))
      (subst (λ s. NoRepeats (splice 1 1 (7 ∷ 8 ∷ []) s)) (sym content-start) (λ a. ground arith))

observed_once : start.observers 1 ≡ 1
unfolding start init fresh add_observer env key_leb keys sort_by insert_by
observed_once = refl

new_key : some 5 ≢ start.last_position 1
unfolding start init fresh add_observer env key_leb keys sort_by insert_by
new_key e = cc

set_key-InStep_example :
    InStep env (set_key env 1 (some 5) start) × ((set_key env 1 (some 5) start).key 1 ≡ some 5)
set_key-InStep_example =
    set_key-InStep env env-IsLawful 1 0 (some 5) start start-InStep observed_once new_key

mass_removal_example :
    ((replace_source env 0 (length start.source) [] start).content ≡ [])
    × ((replace_source env 0 (length start.source) [] start).observers ≡ start.observers)
mass_removal_example = mass_removal env env-IsLawful start start-InStep

-- ===== src/Prelude/Sort.antt =====
-- JavaScript's `Array.prototype.sort`, which is stable, as an insertion sort over a test `le`, where
-- `le a b` says that the comparison function does not put `b` before `a`.
use mathlib.Core.List.{Perm}
use mathlib.Core.List.Perm
use flame_js.Prelude.{
  ◌≡◌, refl, inl, inr, Bool, true, false, List, [], ◌∷◌, map, arith, if◌then◌else◌, Bool-cases,
  length, suc,
}

-- A test that orders any two elements, and is transitive.
pub record IsOrder {ℓ} {A : Type ℓ} (le : A → A → Bool) : Type ℓ where
  pub total : (a b : A) → le a b ≡ false → le b a ≡ true
  pub trans : (a b c : A) → le a b ≡ true → le b c ≡ true → le a c ≡ true

module _ {ℓ} {A : Type ℓ} (le : A → A → Bool) where
  unfoldable pub insert_by : A → List A → List A
  insert_by x [] = x ∷ []
  insert_by x (y ∷ ys) = if le x y then x ∷ y ∷ ys else y ∷ insert_by x ys

  unfoldable pub sort_by : List A → List A
  unfolding insert_by
  sort_by [] = []
  sort_by (x ∷ xs) = insert_by x (sort_by xs)

  abbrev pub AllAbove : A → List A → Type 0
  AllAbove x [] = Unit
  AllAbove x (y ∷ ys) = (le x y ≡ true) × AllAbove x ys

  abbrev pub Sorted : List A → Type 0
  Sorted [] = Unit
  Sorted (x ∷ xs) = AllAbove x xs × Sorted xs

  module _ (o : IsOrder le) where
    AllAbove-trans : (x y : A) (ys : List A) → le x y ≡ true → AllAbove y ys → AllAbove x ys
    AllAbove-trans x y [] h a = tt
    AllAbove-trans x y (z ∷ zs) h (p, a) = (o.trans x y z h p, AllAbove-trans x y zs h a)

    AllAbove-insert_by :
        (x y : A) (ys : List A) → le x y ≡ true → AllAbove x ys → AllAbove x (insert_by y ys)
    unfolding insert_by
    AllAbove-insert_by x y [] h a = (h, tt)
    AllAbove-insert_by x y (z ∷ zs) h (p, a) = elim (Bool-cases (le y z)) [
      | inl e ↦ rw e (h, (p, a))
      | inr e ↦ rw e (p, AllAbove-insert_by x y zs h a)
    ]

    Sorted-insert_by : (x : A) (xs : List A) → Sorted xs → Sorted (insert_by x xs)
    unfolding insert_by
    Sorted-insert_by x [] s = (tt, tt)
    Sorted-insert_by x (y ∷ ys) (a, s) = elim (Bool-cases (le x y)) [
      | inl e ↦ rw e ((e, AllAbove-trans x y ys e a), (a, s))
      | inr e ↦ rw e (AllAbove-insert_by y x ys (o.total x y e) a, Sorted-insert_by x ys s)
    ]

    pub Sorted-sort_by : (xs : List A) → Sorted (sort_by xs)
    unfolding sort_by
    Sorted-sort_by [] = tt
    Sorted-sort_by (x ∷ xs) = Sorted-insert_by x (sort_by xs) (Sorted-sort_by xs)

  insert_by-perm : (x : A) (xs : List A) → Perm (insert_by x xs) (x ∷ xs)
  unfolding insert_by
  insert_by-perm x [] = Perm.refl _
  insert_by-perm x (y ∷ ys) = elim (Bool-cases (le x y)) [
    | inl e ↦ rw e (Perm.refl _)
    | inr e ↦ rw e (Perm.trans (Perm.cons y (insert_by-perm x ys)) (Perm.swap x y ys))
  ]

  length-insert_by : (x : A) (xs : List A) → length (insert_by x xs) ≡ suc (length xs)
  unfolding insert_by
  length-insert_by x [] = refl
  length-insert_by x (y ∷ ys) = ground (arith, length-insert_by x ys)

  pub length-sort_by : (xs : List A) → length (sort_by xs) ≡ length xs
  unfolding sort_by
  length-sort_by [] = refl
  length-sort_by (x ∷ xs) = omega (arith, length-insert_by x (sort_by xs), length-sort_by xs)

  pub sort_by-perm : (xs : List A) → Perm (sort_by xs) xs
  unfolding sort_by
  sort_by-perm [] = Perm.refl _
  sort_by-perm (x ∷ xs) = Perm.trans (insert_by-perm x (sort_by xs)) (Perm.cons x (sort_by-perm xs))

-- The order of the images under `f`.
abbrev pub on {ℓ κ} : {A : Type ℓ} {B : Type κ} → (B → B → Bool) → (A → B) → A → A → Bool
on le f a b = le (f a) (f b)

pub AllAbove-map {ℓ κ} :
    {A : Type ℓ} {B : Type κ} (le : B → B → Bool) (f : A → B) (x : A) (xs : List A)
    → AllAbove le (f x) (map f xs)
    → AllAbove (on le f) x xs
AllAbove-map le f x [] a = tt
AllAbove-map le f x (y ∷ ys) (h, a) = (h, AllAbove-map le f x ys a)

pub Sorted-map {ℓ κ} :
    {A : Type ℓ} {B : Type κ} (le : B → B → Bool) (f : A → B) (xs : List A)
    → Sorted le (map f xs)
    → Sorted (on le f) xs
Sorted-map le f [] s = tt
Sorted-map le f (x ∷ xs) (a, s) = (AllAbove-map le f x xs a, Sorted-map le f xs s)

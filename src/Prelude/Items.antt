-- ===== src/Prelude/Items.antt =====
-- Lists of numbered items, compared by how often each item stands in them.
use flame_js.Prelude.{
  ℕ, zero, suc, ◌+◌, ◌≤◌, ◌<◌, ◌≡◌, refl, sym, ◌∙◌, ap, ltb, Bool-cases, inl, inr, Bool, List, [],
  ◌∷◌, ◌++◌, arith, if◌then◌else◌, ◌==◌, length, take, drop,
}
use native.Mathlib.Nat.{zero-add, suc-add}
use flame_js.Prelude.Sort.{insert_by, sort_by, Sorted, AllAbove}

abbrev pub count : ℕ → List ℕ → ℕ
count a [] = 0
count a (x ∷ xs) = (if x == a then 1 else 0) + count a xs

-- The same items, as often.
abbrev pub SameItems : List ℕ → List ℕ → Type 0
SameItems xs ys = (a : ℕ) → count a xs ≡ count a ys

-- No item twice.
abbrev pub NoRepeats : List ℕ → Type 0
NoRepeats xs = (a : ℕ) → count a xs ≤ 1

-- All occurrences of an item removed.
abbrev pub without : ℕ → List ℕ → List ℕ
without x [] = []
without x (y ∷ ys) = let rest = without x ys in if y == x then rest else y ∷ rest

pub count-append :
    (a : ℕ) (front back : List ℕ) → count a (front ++ back) ≡ count a front + count a back
count-append a [] back = omega arith
count-append a (u ∷ front) back = omega (count-append a front back, arith)

pub count-without :
    (a x : ℕ) (xs : List ℕ) → count a (without x xs) ≡ (if x == a then 0 else count a xs)
count-without a x [] = ground arith
count-without a x (y ∷ ys) = ground (arith, count-without a x ys)

pub count-take-drop :
    (a n : ℕ) (xs : List ℕ) → count a (take n xs) + count a (drop n xs) ≡ count a xs
count-take-drop a zero xs = omega arith
count-take-drop a (suc n) [] = omega arith
count-take-drop a (suc n) (x ∷ xs) = omega (arith, count-take-drop a n xs)

drop-nil {ℓ} : {A : Type ℓ} (n : ℕ) → ◌≡◌ {A = List A} (drop n []) []
drop-nil zero = refl
drop-nil (suc n) = refl

pub drop-add {ℓ} : {A : Type ℓ} (m n : ℕ) (xs : List A) → drop (m + n) xs ≡ drop n (drop m xs)
drop-add zero n xs = rw zero-add
drop-add (suc m) n [] = rw suc-add (sym (drop-nil n))
drop-add (suc m) n (x ∷ xs) = rw suc-add (drop-add m n xs)

pub count-insert_by :
    (le : ℕ → ℕ → Bool) (a x : ℕ) (xs : List ℕ)
    → count a (insert_by le x xs) ≡ (if x == a then 1 else 0) + count a xs
unfolding insert_by
count-insert_by le a x [] = omega arith
count-insert_by le a x (y ∷ ys) = ground (arith, count-insert_by le a x ys)

pub count-sort_by : (le : ℕ → ℕ → Bool) (a : ℕ) (xs : List ℕ) → count a (sort_by le xs) ≡ count a xs
unfolding sort_by
count-sort_by le a [] = refl
count-sort_by le a (x ∷ xs) =
    omega (arith, count-insert_by le a x (sort_by le xs), count-sort_by le a xs)

-- One occurrence of an item removed.
erase : ℕ → List ℕ → List ℕ
erase x [] = []
erase x (y ∷ ys) = if y == x then ys else y ∷ erase x ys

count-erase :
    (a x : ℕ) (ys : List ℕ)
    → 0 < count x ys
    → count a (erase x ys) + (if x == a then 1 else 0) ≡ count a ys
unfolding erase
count-erase a x [] h = absurd (omega arith)
count-erase a x (y ∷ ys) h = ground (arith, count-erase a x ys)

length-erase : (x : ℕ) (ys : List ℕ) → 0 < count x ys → suc (length (erase x ys)) ≡ length ys
unfolding erase
length-erase x [] h = absurd (omega arith)
length-erase x (y ∷ ys) h = ground (arith, length-erase x ys)

pub length-SameItems : (xs ys : List ℕ) → SameItems xs ys → length xs ≡ length ys
length-SameItems [] [] h = refl
length-SameItems [] (y ∷ ys) h = ground (arith, h y)
length-SameItems (x ∷ xs) ys h =
    let here : 0 < count x ys = ground (arith, h x) in
    omega (
      arith,
      length-erase x ys here,
      length-SameItems xs (erase x ys) (λ a. ground (arith, h a, count-erase a x ys here)),
    )

-- `replace` of an array: `count` elements from `start` on give way to others.
abbrev pub splice : ℕ → ℕ → List ℕ → List ℕ → List ℕ
splice start removed added xs = take start xs ++ (added ++ drop (start + removed) xs)

-- `slice(start, start + n)` of an array.
abbrev pub slice : ℕ → ℕ → List ℕ → List ℕ
slice start n xs = take n (drop start xs)

pub count-splice :
    (a start removed : ℕ) (added xs : List ℕ)
    → count a (splice start removed added xs) + count a (slice start removed xs)
      ≡ count a xs + count a added
count-splice a start removed added xs = omega (
  arith,
  count-append a (take start xs) (added ++ drop (start + removed) xs),
  count-append a added (drop (start + removed) xs),
  count-take-drop a start xs,
  count-take-drop a removed (drop start xs),
  ap (count a) (drop-add start removed xs),
)

module _ {ℓ} {A : Type ℓ} where
  pub drop-length : (xs : List A) → drop (length xs) xs ≡ []
  drop-length [] = refl
  drop-length (x ∷ xs) = drop-length xs

  pub take-length : (xs : List A) → take (length xs) xs ≡ xs
  take-length [] = refl
  take-length (x ∷ xs) = ap (x ∷◌) (take-length xs)

  pub drop-take-append : (n : ℕ) (xs ys : List A) → n ≤ length xs → drop n (take n xs ++ ys) ≡ ys
  drop-take-append zero xs ys h = refl
  drop-take-append (suc n) [] ys h = absurd (omega arith)
  drop-take-append (suc n) (x ∷ xs) ys h = drop-take-append n xs ys (omega arith)

  pub take-length-append : (xs ys : List A) → take (length xs) (xs ++ ys) ≡ xs
  take-length-append [] ys = refl
  take-length-append (x ∷ xs) ys = ap (x ∷◌) (take-length-append xs ys)

-- What was put into an array is what stands there.
pub slice-splice :
    (start removed : ℕ) (added xs : List ℕ)
    → start ≤ length xs
    → slice start (length added) (splice start removed added xs) ≡ added
slice-splice start removed added xs h =
    ap (take (length added)) (drop-take-append start xs (added ++ drop (start + removed) xs) h)
    ∙ take-length-append added (drop (start + removed) xs)

-- All of some items removed.
abbrev pub without_all : List ℕ → List ℕ → List ℕ
without_all [] ys = ys
without_all (x ∷ xs) ys = without_all xs (without x ys)

pub count-without_all :
    (a : ℕ) (xs ys : List ℕ)
    → count a (without_all xs ys) ≡ (if ltb 0 (count a xs) then 0 else count a ys)
count-without_all a [] ys = ground arith
count-without_all a (x ∷ xs) ys =
    ground (arith, count-without_all a xs (without x ys), count-without a x ys)

AllAbove-without :
    (le : ℕ → ℕ → Bool) (b x : ℕ) (ys : List ℕ) → AllAbove le b ys → AllAbove le b (without x ys)
AllAbove-without le b x [] h = tt
AllAbove-without le b x (y ∷ ys) (h, hs) = elim (Bool-cases (y == x)) [
  | inl e ↦ rw e (AllAbove-without le b x ys hs)
  | inr e ↦ rw e (h, AllAbove-without le b x ys hs)
]

pub Sorted-without :
    (le : ℕ → ℕ → Bool) (x : ℕ) (ys : List ℕ) → Sorted le ys → Sorted le (without x ys)
Sorted-without le x [] s = tt
Sorted-without le x (y ∷ ys) (a, s) = elim (Bool-cases (y == x)) [
  | inl e ↦ rw e (Sorted-without le x ys s)
  | inr e ↦ rw e (AllAbove-without le y x ys a, Sorted-without le x ys s)
]

pub Sorted-without_all :
    (le : ℕ → ℕ → Bool) (xs ys : List ℕ) → Sorted le ys → Sorted le (without_all xs ys)
Sorted-without_all le [] ys s = s
Sorted-without_all le (x ∷ xs) ys s =
    Sorted-without_all le xs (without x ys) (Sorted-without le x ys s)

-- Taking elements out of a sorted list leaves it sorted.
AllAbove-drop :
    (le : ℕ → ℕ → Bool) (b n : ℕ) (xs : List ℕ) → AllAbove le b xs → AllAbove le b (drop n xs)
AllAbove-drop le b zero xs a = a
AllAbove-drop le b (suc n) [] a = a
AllAbove-drop le b (suc n) (x ∷ xs) (h, a) = AllAbove-drop le b n xs a

Sorted-drop : (le : ℕ → ℕ → Bool) (n : ℕ) (xs : List ℕ) → Sorted le xs → Sorted le (drop n xs)
Sorted-drop le zero xs s = s
Sorted-drop le (suc n) [] s = s
Sorted-drop le (suc n) (x ∷ xs) (a, s) = Sorted-drop le n xs s

AllAbove-splice :
    (le : ℕ → ℕ → Bool) (b start n : ℕ) (xs : List ℕ)
    → AllAbove le b xs
    → AllAbove le b (splice start n [] xs)
AllAbove-splice le b zero n xs a = AllAbove-drop le b (zero + n) xs a
AllAbove-splice le b (suc start) n [] a = rw suc-add tt
AllAbove-splice le b (suc start) n (x ∷ xs) (h, a) =
    rw suc-add (h, AllAbove-splice le b start n xs a)

pub Sorted-splice :
    (le : ℕ → ℕ → Bool) (start n : ℕ) (xs : List ℕ)
    → Sorted le xs
    → Sorted le (splice start n [] xs)
Sorted-splice le zero n xs s = Sorted-drop le (zero + n) xs s
Sorted-splice le (suc start) n [] s = rw suc-add tt
Sorted-splice le (suc start) n (x ∷ xs) (a, s) =
    rw suc-add (AllAbove-splice le x start n xs a, Sorted-splice le start n xs s)

pub count-slice-le : (a start n : ℕ) (xs : List ℕ) → count a (slice start n xs) ≤ count a xs
count-slice-le a start n xs =
    omega (arith, count-take-drop a start xs, count-take-drop a n (drop start xs))

-- ===== src/Table/Paths.antt =====
-- controllers/table_controller.js: that the paths of wrapped headers tell the leafs apart, and that
-- the map from paths to indices is the inverse of `pathFromIndex`.
use mathlib.Core.Path.{subst}
use mathlib.Core.Option.{some-injective}
use flame_js.Prelude.{
  ℕ, suc, ◌+◌, ◌≤◌, ◌<◌, ◌≡◌, ◌≢◌, refl, sym, ap, ◌∙◌, Bool, true, false, ◌&&◌, Option, none, some,
  List, [], ◌∷◌, ◌++◌, if◌then◌else◌, ◌==◌, ==_iff, Bool-cases, inl, inr, arith,
}
use flame_js.Table.Headers.{
  Header, leaf, group, Headers, no_headers, also, HeaderPath, Leaf, mark, node_leafs, all_leafs,
  get_leafs, same_path, Plain, plain, parent, Plains, no_plains, plus, wrap_header, wrap_from,
  wrap_headers,
}

-- How many leafs have a path.
abbrev pub count : {H : Type 0} → HeaderPath → List (Leaf H) → ℕ
count k [] = 0
count k (l ∷ ls) = (if same_path k l.path then 1 else 0) + count k ls

abbrev pub Unique : {H : Type 0} → List (Leaf H) → Type 0
Unique ls = (k : HeaderPath) → count k ls ≤ 1

-- The path goes through `path` and then `id`.
abbrev through : HeaderPath → ℕ → HeaderPath → Bool
through [] x [] = false
through [] x (y ∷ k) = x == y
through (a ∷ path) x [] = false
through (a ∷ path) x (b ∷ k) = a == b && through path x k

through-same_path :
    (path : HeaderPath) (x : ℕ) (k : HeaderPath)
    → through path x k ≡ false
    → same_path k (path ++ x ∷ []) ≡ false
through-same_path [] x [] h = refl
through-same_path [] x (y ∷ k) h = ground (arith, ==_iff x y, ==_iff y x)
through-same_path (a ∷ path) x [] h = refl
through-same_path (a ∷ path) x (b ∷ k) h =
    ground (arith, through-same_path path x k, ==_iff a b, ==_iff b a)

through-extend :
    (path : HeaderPath) (x y : ℕ) (k : HeaderPath)
    → through path x k ≡ false
    → through (path ++ x ∷ []) y k ≡ false
through-extend [] x y [] h = refl
through-extend [] x y (z ∷ k) h = rw h refl
through-extend (a ∷ path) x y [] h = refl
through-extend (a ∷ path) x y (b ∷ k) h = ground (arith, through-extend path x y k)

through_once :
    (path : HeaderPath) (x y : ℕ) (k : HeaderPath)
    → x ≢ y
    → through path x k ≡ true
    → through path y k ≡ false
through_once [] x y [] ne h = refl
through_once [] x y (z ∷ k) ne h = ground (arith, ==_iff x z, ==_iff y z)
through_once (a ∷ path) x y [] ne h = refl
through_once (a ∷ path) x y (b ∷ k) ne h = ground (arith, through_once path x y k ne)

count-append :
    {H : Type 0} (k : HeaderPath) (front back : List (Leaf H))
    → count k (front ++ back) ≡ count k front + count k back
count-append k [] back = omega arith
count-append k (l ∷ front) back = omega (count-append k front back, arith)

pub count-mark :
    {H : Type 0} (k : HeaderPath) (i : ℕ) (ls : List (Leaf H)) → count k (mark i ls) ≡ count k ls
unfolding mark
count-mark k i [] = refl
count-mark k i (l ∷ ls) = omega (count-mark k (suc i) ls, arith)

abbrev pub header_id : {H : Type 0} → Header H → Option ℕ
header_id (leaf id h) = some id
header_id (group id h hs) = id

abbrev Apart : {H : Type 0} → Option ℕ → Headers H → Type 0
Apart id no_headers = Unit {0}
Apart id (also h hs) = (id ≢ header_id h) × Apart id hs

-- Headers that all have an id, different from their siblings'.
unfoldable mutual
  pub Named : {H : Type 0} → Header H → Type 0
  Named (leaf id h) = Unit {0}
  Named (group none h hs) = ⊥
  Named (group (some id) h hs) = AllNamed hs

  pub AllNamed : {H : Type 0} → Headers H → Type 0
  AllNamed no_headers = Unit {0}
  AllNamed (also h hs) = Named h × Apart (header_id h) hs × AllNamed hs

-- A path that goes through none of the headers' ids is no leaf's.
mutual
  unfolding node_leafs Named

  node_leafs_elsewhere :
      {H : Type 0} (h : Header H) (path k : HeaderPath)
      → Named h
      → ((x : ℕ) → header_id h ≡ some x → through path x k ≡ false)
      → count k (node_leafs h path) ≡ 0
  node_leafs_elsewhere (leaf id h) path k n e =
      ground (arith, through-same_path path id k (e id refl))
  node_leafs_elsewhere (group none h hs) path k n e = absurd n
  node_leafs_elsewhere (group (some id) h hs) path k n e = omega (
    arith,
    count-mark k 0 (all_leafs hs (path ++ id ∷ [])),
    all_leafs_elsewhere hs (path ++ id ∷ []) k n (λ x. through-extend path id x k (e id refl)),
  )

  all_leafs_elsewhere :
      {H : Type 0} (hs : Headers H) (path k : HeaderPath)
      → AllNamed hs
      → ((x : ℕ) → through path x k ≡ false)
      → count k (all_leafs hs path) ≡ 0
  all_leafs_elsewhere no_headers path k n e = refl
  all_leafs_elsewhere (also h hs) path k n e = omega (
    arith,
    count-append k (node_leafs h path) (all_leafs hs path),
    node_leafs_elsewhere h path k n.0 (λ x q. e x),
    all_leafs_elsewhere hs path k n.2 e,
  )

all_leafs-Apart :
    {H : Type 0} (id : ℕ) (hs : Headers H) (path k : HeaderPath)
    → AllNamed hs
    → Apart (some id) hs
    → through path id k ≡ true
    → count k (all_leafs hs path) ≡ 0
unfolding node_leafs Named
all_leafs-Apart id no_headers path k n a t = refl
all_leafs-Apart id (also h hs) path k n a t = omega (
  arith,
  count-append k (node_leafs h path) (all_leafs hs path),
  node_leafs_elsewhere h path k n.0
      (λ x q. through_once path id x k (λ e. a.0 (ap some e ∙ sym q)) t),
  all_leafs-Apart id hs path k n.2 a.1 t,
)

header-Named : {H : Type 0} (h : Header H) → Named h → (x : ℕ) × (header_id h ≡ some x)
unfolding Named
header-Named (leaf id h) n = (id, refl)
header-Named (group none h hs) n = absurd n
header-Named (group (some id) h hs) n = (id, refl)

mutual
  unfolding node_leafs Named

  node_leafs_once :
      {H : Type 0} (h : Header H) (path k : HeaderPath) → Named h → count k (node_leafs h path) ≤ 1
  node_leafs_once (leaf id h) path k n = ground arith
  node_leafs_once (group none h hs) path k n = absurd n
  node_leafs_once (group (some id) h hs) path k n = omega (
    arith,
    count-mark k 0 (all_leafs hs (path ++ id ∷ [])),
    all_leafs_once hs (path ++ id ∷ []) k n,
  )

  all_leafs_once :
      {H : Type 0} (hs : Headers H) (path k : HeaderPath)
      → AllNamed hs
      → count k (all_leafs hs path) ≤ 1
  all_leafs_once no_headers path k n = omega arith
  all_leafs_once (also h hs) path k n =
      let (x, q) = header-Named h n.0 in
      elim (Bool-cases (through path x k)) [
        | inl t ↦ omega (
          arith,
          count-append k (node_leafs h path) (all_leafs hs path),
          node_leafs_once h path k n.0,
          all_leafs-Apart x hs path k n.2 (subst (λ i. Apart i hs) q n.1) t,
        )
        | inr t ↦ omega (
          arith,
          count-append k (node_leafs h path) (all_leafs hs path),
          node_leafs_elsewhere h path k n.0
              (λ y r. subst (λ z. through path z k ≡ false) (some-injective _ _ (sym q ∙ r)) t),
          all_leafs_once hs path k n.2,
        )
      ]

-- Where each header has an id that no sibling has, no two leafs have the same path.
pub get_leafs-Unique : {H : Type 0} (hs : Headers H) → AllNamed hs → Unique (get_leafs hs [])
unfolding get_leafs
get_leafs-Unique hs n k = omega (arith, count-mark k 0 (all_leafs hs []), all_leafs_once hs [] k n)

-- Plain headers that bring no ids of their own.
unfoldable mutual
  pub Anonymous : {H : Type 0} → Plain H → Type 0
  Anonymous (plain none h) = Unit {0}
  Anonymous (plain (some id) h) = ⊥
  Anonymous (parent none h hs) = AllAnonymous hs
  Anonymous (parent (some id) h hs) = ⊥

  pub AllAnonymous : {H : Type 0} → Plains H → Type 0
  AllAnonymous no_plains = Unit {0}
  AllAnonymous (plus h hs) = Anonymous h × AllAnonymous hs

wrapped_id : {H : Type 0} (i : ℕ) (h : Plain H) → Anonymous h → header_id (wrap_header i h) ≡ some i
unfolding wrap_header Anonymous
wrapped_id i (plain none h) a = refl
wrapped_id i (plain (some id) h) a = absurd a
wrapped_id i (parent none h hs) a = refl
wrapped_id i (parent (some id) h hs) a = absurd a

wrap_from-Apart :
    {H : Type 0} (i j : ℕ) (hs : Plains H)
    → i < j
    → AllAnonymous hs
    → Apart (some i) (wrap_from j hs)
unfolding wrap_header Anonymous
wrap_from-Apart i j no_plains l a = tt
wrap_from-Apart i j (plus h hs) l a = (
  λ e. absurd (omega (arith, some-injective _ _ (e ∙ wrapped_id j h a.0))),
  wrap_from-Apart i (suc j) hs (omega arith) a.1,
)

mutual
  unfolding wrap_header Anonymous Named

  wrap_header-Named : {H : Type 0} (i : ℕ) (h : Plain H) → Anonymous h → Named (wrap_header i h)
  wrap_header-Named i (plain none h) a = tt
  wrap_header-Named i (plain (some id) h) a = absurd a
  wrap_header-Named i (parent none h hs) a = wrap_from-AllNamed 0 hs a
  wrap_header-Named i (parent (some id) h hs) a = absurd a

  wrap_from-AllNamed :
      {H : Type 0} (i : ℕ) (hs : Plains H) → AllAnonymous hs → AllNamed (wrap_from i hs)
  wrap_from-AllNamed i no_plains a = tt
  wrap_from-AllNamed i (plus h hs) a = (
    wrap_header-Named i h a.0,
    subst (λ id. Apart id (wrap_from (suc i) hs)) (sym (wrapped_id i h a.0))
        (wrap_from-Apart i (suc i) hs (omega arith) a.1),
    wrap_from-AllNamed (suc i) hs a.1,
  )

-- The leafs of a data table's headers, which are wrapped and bring no ids of their own, all have
-- different paths, however deep the headers are nested.
pub wrapped-Unique :
    {H : Type 0} (hs : Plains H) → AllAnonymous hs → Unique (get_leafs (wrap_headers hs) [])
wrapped-Unique hs a = get_leafs-Unique (wrap_headers hs) (wrap_from-AllNamed 0 hs a)

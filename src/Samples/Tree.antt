-- ===== src/Samples/Tree.antt =====
-- A small type of JSON values, on which the tests run the model.
use cliot.Prelude.{
  ℕ, suc, ◌<◌, max, String, ◌≡◌, refl, Bool, true, false, ◌&&◌, List, [], ◌∷◌, Option, none, some,
  arith, str_eq, eq_iff, ◌==◌, if◌then◌else◌, All, ap, In, In-cons, here, there, Bool-cases, inl,
  inr,
}

mutual
  pub data Tree : Type 0 where
    null : Tree
    boolean : Bool → Tree
    number : ℕ → Tree
    text : String → Tree
    array : Trees → Tree
    object : Fields → Tree

  pub data Trees : Type 0 where
    nil : Trees
    cons : Tree → Trees → Trees

  pub data Fields : Type 0 where
    end : Fields
    field : String → Tree → Fields → Fields

abbrev mutual
  pub depth : Tree → ℕ
  depth null = 0
  depth (boolean b) = 0
  depth (number n) = 0
  depth (text s) = 0
  depth (array xs) = 0
  depth (object fs) = suc (depth_fields fs)

  pub depth_fields : Fields → ℕ
  depth_fields end = 0
  depth_fields (field k v fs) = max (depth v) (depth_fields fs)

abbrev same_bool : Bool → Bool → Bool
same_bool true b = b
same_bool false true = false
same_bool false false = true

abbrev mutual
  pub same : Tree → Tree → Bool
  same null null = true
  same (boolean a) (boolean b) = same_bool a b
  same (number a) (number b) = a == b
  same (text a) (text b) = str_eq a b
  same (array xs) (array ys) = same_trees xs ys
  same (object fs) (object gs) = same_fields fs gs
  same _ _ = false

  pub same_trees : Trees → Trees → Bool
  same_trees nil nil = true
  same_trees (cons x xs) (cons y ys) = same x y && same_trees xs ys
  same_trees _ _ = false

  pub same_fields : Fields → Fields → Bool
  same_fields end end = true
  same_fields (field j v fs) (field k w gs) = str_eq j k && same v w && same_fields fs gs
  same_fields _ _ = false

mutual
  same_refl : (t : Tree) → same t t ≡ true
  same_refl null = refl
  same_refl (boolean true) = refl
  same_refl (boolean false) = refl
  same_refl (number n) = ground arith
  same_refl (text s) = (eq_iff s s).1 refl
  same_refl (array xs) = same_trees_refl xs
  same_refl (object fs) = same_fields_refl fs

  same_trees_refl : (xs : Trees) → same_trees xs xs ≡ true
  same_trees_refl nil = refl
  same_trees_refl (cons x xs) = rw (same_refl x, same_trees_refl xs)

  same_fields_refl : (fs : Fields) → same_fields fs fs ≡ true
  same_fields_refl end = refl
  same_fields_refl (field k v fs) = rw ((eq_iff k k).1 refl, same_refl v, same_fields_refl fs)

pub Tree-same_refl : (t : Tree) → same t t ≡ true
Tree-same_refl t = same_refl t

abbrev pub without : String → List (String × Tree) → List (String × Tree)
without k [] = []
without k ((j, v) ∷ kvs) = let rest = without k kvs in if str_eq k j then rest else (j, v) ∷ rest

-- The first entry of each key.
abbrev pub entries : Fields → List (String × Tree)
entries end = []
entries (field k v fs) = (k, v) ∷ without k (entries fs)

abbrev pub lookup : String → Fields → Option Tree
lookup k end = none
lookup k (field j v fs) = let rest = lookup k fs in if str_eq j k then some v else rest

In-without :
    (k : String) (kvs : List (String × Tree)) (j : String) (v : Tree)
    → In (j, v) (without k kvs)
    → In (j, v) kvs × (str_eq k j ≡ false)
In-without k [] j v m = elim m [ ]
In-without k ((i, w) ∷ kvs) j v m = elim (Bool-cases (str_eq k i)) [
  | inl e ↦ let (a, b) = In-without k kvs j v (rw e at m) in (there a, b)
  | inr e ↦ elim (In-cons (rw e at m)) [
    | inl q ↦ (rw q here, rw (ap (λ p. p.0) q) e)
    | inr r ↦ let (a, b) = In-without k kvs j v r in (there a, b)
  ]
]

pub lookup_of_In :
    (fs : Fields) (k : String) (v : Tree) → In (k, v) (entries fs) → lookup k fs ≡ some v
lookup_of_In end k v m = elim m [ ]
lookup_of_In (field j w fs) k v m = elim (In-cons m) [
  | inl q ↦ ground (arith, q, eq_iff j k)
  | inr r ↦ let (a, b) = In-without j (entries fs) k v r in ground (arith, b, lookup_of_In fs k v a)
]

All-without :
    (P : String × Tree → Type 0) (k : String) (kvs : List (String × Tree))
    → All P kvs
    → All P (without k kvs)
All-without P k [] h = tt
All-without P k ((i, w) ∷ kvs) h = elim (Bool-cases (str_eq k i)) [
  | inl e ↦ rw e (All-without P k kvs h.1)
  | inr e ↦ rw e (h.0, All-without P k kvs h.1)
]

All-entries : (n : ℕ) (fs : Fields) → depth_fields fs < n → All (λ kv. depth kv.1 < n) (entries fs)
All-entries n end h = tt
All-entries n (field k v fs) h = (
  omega arith,
  All-without (λ kv. depth kv.1 < n) k (entries fs) (All-entries n fs (omega arith)),
)

abbrev pub items : Tree → List (String × Tree)
items (object fs) = entries fs
items _ = []

pub items_depth : (t : Tree) → All (λ kv. depth kv.1 < depth t) (items t)
items_depth (object fs) = All-entries (suc (depth_fields fs)) fs (omega arith)
items_depth _ = tt

-- ===== src/Base/Sets.antt =====
-- JavaScript's `Set`: the elements in the order of first insertion, each once; and the number of an
-- element, where a list of records is looked up by number.
use mathlib.Core.Path.{◌≡◌, refl, ◌∙◌}
use mathlib.Core.Logic.{inl, inr}
use mathlib.Core.Bool.{Bool, true, false, ◌||◌}
use mathlib.Core.List.{List, [], ◌∷◌, ◌++◌, map}
use native.Mathlib.Omega.{arith}
use symphony_ts.Base.Tests.{if◌then◌else◌, Bool-cases}
use symphony_ts.Base.Lists.{filter}
use symphony_ts.Base.Eq.{HasEq, ◌==◌}
use symphony_ts.Base.Sort.{insert_by, sort_by, at_most}
use symphony_ts.Base.Int.{ℤ}

module _ {ℓ} {A : Type ℓ} ⦃e : HasEq A⦄ where
  unfoldable pub contains : List A → A → Bool
  contains [] a = false
  contains (x ∷ xs) a = x == a || contains xs a

  unfoldable pub add : List A → A → List A
  unfolding contains
  add xs a = if contains xs a then xs else xs ++ a ∷ []

  unfoldable pub remove : List A → A → List A
  remove [] a = []
  remove (x ∷ xs) a = let rest = remove xs a in if x == a then rest else x ∷ rest

  abbrev pub IsUnique : List A → Type 0
  IsUnique [] = Unit
  IsUnique (x ∷ xs) = (contains xs x ≡ false) × IsUnique xs

  pub contains-append :
      (xs ys : List A) (a : A) → contains (xs ++ ys) a ≡ contains xs a || contains ys a
  unfolding contains
  contains-append [] ys a = refl
  contains-append (x ∷ xs) ys a = ground (arith, contains-append xs ys a)

  pub contains-add : (xs : List A) (a b : A) → contains (add xs a) b ≡ a == b || contains xs b
  unfolding add contains
  contains-add xs a b = ground (arith, e.same_iff a b, contains-append xs (a ∷ []) b)

  pub contains-remove :
      (xs : List A) (a b : A) → contains (remove xs a) b ≡ (if a == b then false else contains xs b)
  unfolding remove contains
  contains-remove [] a b = ground arith
  contains-remove (x ∷ xs) a b =
      ground (arith, e.same_iff x a, e.same_iff x b, e.same_iff a b, contains-remove xs a b)

  pub IsUnique-append :
      (xs : List A) (a : A) → IsUnique xs → contains xs a ≡ false → IsUnique (xs ++ a ∷ [])
  unfolding contains
  IsUnique-append [] a u h = (refl, tt)
  IsUnique-append (x ∷ xs) a (f, u) h = (
    ground (arith, contains-append xs (a ∷ []) x, e.same_iff a x, e.same_iff x a),
    IsUnique-append xs a u (ground arith),
  )

  pub remove-IsUnique : (xs : List A) (a : A) → IsUnique xs → IsUnique (remove xs a)
  unfolding remove
  remove-IsUnique [] a u = tt
  remove-IsUnique (x ∷ xs) a (f, u) = elim (Bool-cases (x == a)) [
    | inl same ↦ rw same (remove-IsUnique xs a u)
    | inr other ↦ rw other (ground (arith, contains-remove xs a x), remove-IsUnique xs a u)
  ]

  -- Two lists of which no element of the one is in the other.
  abbrev pub AreDisjoint : List A → List A → Type 0
  AreDisjoint [] ys = Unit
  AreDisjoint (x ∷ xs) ys = (contains ys x ≡ false) × AreDisjoint xs ys

  pub IsUnique-join :
      (xs ys : List A) → IsUnique xs → IsUnique ys → AreDisjoint xs ys → IsUnique (xs ++ ys)
  IsUnique-join [] ys u v d = v
  IsUnique-join (x ∷ xs) ys (f, u) v (g, d) =
      (ground (arith, contains-append xs ys x), IsUnique-join xs ys u v d)

  -- Lists of records that are told apart by a key.
  module _ {κ} {B : Type κ} (key : B → A) where
    pub contains-filter :
        (p : B → Bool) (xs : List B) (a : A)
        → contains (map key xs) a ≡ false
        → contains (map key (filter p xs)) a ≡ false
    unfolding filter contains
    contains-filter p [] a h = h
    contains-filter p (x ∷ xs) a h = ground (arith, contains-filter p xs a)

    pub filter-IsUnique :
        (p : B → Bool) (xs : List B) → IsUnique (map key xs) → IsUnique (map key (filter p xs))
    unfolding filter
    filter-IsUnique p [] u = tt
    filter-IsUnique p (x ∷ xs) (f, u) = elim (Bool-cases (p x)) [
      | inl e ↦ rw e (contains-filter p xs (key x) f, filter-IsUnique p xs u)
      | inr e ↦ rw e (filter-IsUnique p xs u)
    ]

    module _ (cmp : B → B → ℤ) where
      contains-insert_by :
          (x : B) (xs : List B) (a : A)
          → contains (map key (insert_by cmp x xs)) a ≡ key x == a || contains (map key xs) a
      unfolding insert_by contains
      contains-insert_by x [] a = refl
      contains-insert_by x (y ∷ ys) a = ground (arith, contains-insert_by x ys a)

      insert_by-IsUnique :
          (x : B) (xs : List B)
          → contains (map key xs) (key x) ≡ false
          → IsUnique (map key xs)
          → IsUnique (map key (insert_by cmp x xs))
      unfolding insert_by contains
      insert_by-IsUnique x [] h u = (refl, tt)
      insert_by-IsUnique x (y ∷ ys) h (f, u) = elim (Bool-cases (at_most cmp x y)) [
        | inl le ↦ rw le (h, (f, u))
        | inr gt ↦ rw gt (
          ground (
            arith,
            contains-insert_by x ys (key y),
            e.same_iff (key x) (key y),
            e.same_iff (key y) (key x),
          ),
          insert_by-IsUnique x ys (ground arith) u,
        )
      ]

      pub contains-sort_by :
          (xs : List B) (a : A) → contains (map key (sort_by cmp xs)) a ≡ contains (map key xs) a
      unfolding sort_by contains
      contains-sort_by [] a = refl
      contains-sort_by (x ∷ xs) a =
          ground (arith, contains-insert_by x (sort_by cmp xs) a, contains-sort_by xs a)

      pub sort_by-IsUnique :
          (xs : List B) → IsUnique (map key xs) → IsUnique (map key (sort_by cmp xs))
      unfolding sort_by
      sort_by-IsUnique [] u = tt
      sort_by-IsUnique (x ∷ xs) (f, u) =
          insert_by-IsUnique x (sort_by cmp xs) (contains-sort_by xs (key x) ∙ f)
            (sort_by-IsUnique xs u)

module _ {ℓ} {A : Type ℓ} ⦃e : HasEq A⦄ where
  pub AreDisjoint-of :
      (xs ys : List A)
      → ((a : A) → contains xs a ≡ true → contains ys a ≡ false)
      → AreDisjoint xs ys
  unfolding contains
  AreDisjoint-of [] ys h = tt
  AreDisjoint-of (x ∷ xs) ys h =
      (h x (ground (arith, e.same_iff x x)), AreDisjoint-of xs ys (λ a c. h a (ground arith)))

module _ {ℓ} {A : Type ℓ} ⦃e : HasEq A⦄ where
  -- `new Set(ys)`, and the elements of `ys` added to a set one by one.
  unfoldable pub add_all : List A → List A → List A
  unfolding add
  add_all xs [] = xs
  add_all xs (y ∷ ys) = add_all (add xs y) ys

  unfoldable pub set_of : List A → List A
  unfolding add_all
  set_of ys = add_all [] ys

  pub contains-add_all :
      (xs ys : List A) (a : A) → contains (add_all xs ys) a ≡ contains ys a || contains xs a
  unfolding add_all contains
  contains-add_all xs [] a = refl
  contains-add_all xs (y ∷ ys) a =
      ground (arith, contains-add_all (add xs y) ys a, contains-add xs y a)

  pub contains-set_of : (ys : List A) (a : A) → contains (set_of ys) a ≡ contains ys a
  unfolding set_of contains
  contains-set_of ys a = ground (arith, contains-add_all [] ys a)

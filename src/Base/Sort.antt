-- ===== src/Base/Sort.antt =====
-- `Array.prototype.sort` with a comparator that returns a number: a stable sort. `x` stands before
-- the elements of the sorted rest to which it compares as at most zero.
use mathlib.Core.Path.{◌≡◌, refl}
use native.Mathlib.Omega.{arith}
use mathlib.Core.Logic.{◌⊎◌, inl, inr}
use mathlib.Core.Bool.{Bool, true}
use mathlib.Core.List.{List, [], ◌∷◌, Perm}
use mathlib.Core.List.Perm
use symphony_ts.Base.Tests.{if◌then◌else◌, Bool-cases}
use symphony_ts.Base.Lists.{All, is_nonempty}
use symphony_ts.Base.Int.{ℤ, pos, leb_ℤ}

module _ {ℓ} {A : Type ℓ} (cmp : A → A → ℤ) where
  abbrev pub at_most : A → A → Bool
  at_most x y = leb_ℤ (cmp x y) (pos 0)

  unfoldable pub insert_by : A → List A → List A
  insert_by x [] = x ∷ []
  insert_by x (y ∷ ys) = let rest = insert_by x ys in if at_most x y then x ∷ y ∷ ys else y ∷ rest

  unfoldable pub sort_by : List A → List A
  unfolding insert_by
  sort_by [] = []
  sort_by (x ∷ xs) = insert_by x (sort_by xs)

  -- Every element compares as at most zero to each later one.
  abbrev pub IsSorted : List A → Type 0
  IsSorted [] = Unit
  IsSorted (x ∷ xs) = All (λ y. at_most x y ≡ true) xs × IsSorted xs

  insert_by-perm : (x : A) (xs : List A) → Perm (insert_by x xs) (x ∷ xs)
  unfolding insert_by
  insert_by-perm x [] = Perm.refl _
  insert_by-perm x (y ∷ ys) = elim (Bool-cases (at_most x y)) [
    | inl e ↦ rw e (Perm.refl _)
    | inr e ↦ rw e (Perm.trans (Perm.cons y (insert_by-perm x ys)) (Perm.swap x y ys))
  ]

  pub sort_by-perm : (xs : List A) → Perm (sort_by xs) xs
  unfolding sort_by
  sort_by-perm [] = Perm.refl _
  sort_by-perm (x ∷ xs) = Perm.trans (insert_by-perm x (sort_by xs)) (Perm.cons x (sort_by-perm xs))

  insert_by-All : (P : A → Type 0) (x : A) (xs : List A) → P x → All P xs → All P (insert_by x xs)
  unfolding insert_by
  insert_by-All P x [] p h = (p, h)
  insert_by-All P x (y ∷ ys) p (q, h) = elim (Bool-cases (at_most x y)) [
    | inl e ↦ rw e (p, (q, h))
    | inr e ↦ rw e (q, insert_by-All P x ys p h)
  ]

  pub sort_by-All : (P : A → Type 0) (xs : List A) → All P xs → All P (sort_by xs)
  unfolding sort_by
  sort_by-All P [] h = h
  sort_by-All P (x ∷ xs) (p, h) = insert_by-All P x (sort_by xs) p (sort_by-All P xs h)

  is_nonempty-insert_by : (x : A) (xs : List A) → is_nonempty (insert_by x xs) ≡ true
  unfolding insert_by
  is_nonempty-insert_by x [] = refl
  is_nonempty-insert_by x (y ∷ ys) = ground arith

  pub is_nonempty-sort_by : (xs : List A) → is_nonempty (sort_by xs) ≡ is_nonempty xs
  unfolding sort_by
  is_nonempty-sort_by [] = refl
  is_nonempty-sort_by (x ∷ xs) = is_nonempty-insert_by x (sort_by xs)

  module _ (total : (x y : A) → (at_most x y ≡ true) ⊎ (at_most y x ≡ true))
      (trans : (x y z : A) → at_most x y ≡ true → at_most y z ≡ true → at_most x z ≡ true) where
    below-All :
        (x y : A) (ys : List A)
        → at_most x y ≡ true
        → All (λ z. at_most y z ≡ true) ys
        → All (λ z. at_most x z ≡ true) ys
    below-All x y [] e h = tt
    below-All x y (z ∷ zs) e (f, h) = (trans x y z e f, below-All x y zs e h)

    insert_by-IsSorted : (x : A) (xs : List A) → IsSorted xs → IsSorted (insert_by x xs)
    unfolding insert_by
    insert_by-IsSorted x [] s = (tt, tt)
    insert_by-IsSorted x (y ∷ ys) (h, s) = elim (Bool-cases (at_most x y)) [
      | inl e ↦ rw e ((e, below-All x y ys e h), (h, s))
      | inr e ↦ rw e (
        insert_by-All (λ z. at_most y z ≡ true) x ys (elim (total x y) [ inl f ↦ cc | inr f ↦ f ])
            h,
        insert_by-IsSorted x ys s,
      )
    ]

    pub sort_by-IsSorted : (xs : List A) → IsSorted (sort_by xs)
    unfolding sort_by
    sort_by-IsSorted [] = tt
    sort_by-IsSorted (x ∷ xs) = insert_by-IsSorted x (sort_by xs) (sort_by-IsSorted xs)

-- A relation from each element to every later one.
module _ {ℓ} {A : Type ℓ} where
  abbrev pub IsPairwise : (A → A → Type 0) → List A → Type 0
  IsPairwise R [] = Unit
  IsPairwise R (x ∷ xs) = All (R x) xs × IsPairwise R xs

  All-map : {P Q : A → Type 0} → ((x : A) → P x → Q x) → (xs : List A) → All P xs → All Q xs
  All-map f [] h = tt
  All-map f (x ∷ xs) (p, h) = (f x p, All-map f xs h)

  pub IsSorted-IsPairwise :
      (cmp : A → A → ℤ) (R : A → A → Type 0)
      → ((x y : A) → at_most cmp x y ≡ true → R x y)
      → (xs : List A) → IsSorted cmp xs
      → IsPairwise R xs
  IsSorted-IsPairwise cmp R f [] s = tt
  IsSorted-IsPairwise cmp R f (x ∷ xs) (h, s) =
      (All-map (f x) xs h, IsSorted-IsPairwise cmp R f xs s)

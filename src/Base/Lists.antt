-- ===== src/Base/Lists.antt =====
-- Lists: length over the native numbers, filter and all by Boolean tests, membership.
use Prim.Native.Nat.{ℕ, suc, ◌+◌, ◌≤◌}
use mathlib.Core.Path.{◌≡◌, refl, ap}
use mathlib.Core.Logic.{inl, inr}
use mathlib.Core.Bool.{Bool, true, false, ◌&&◌, ◌||◌}
use mathlib.Core.List.{List, [], ◌∷◌, ◌++◌, map}
use native.Mathlib.Omega.{arith}
use symphony_ts.Base.Tests.{if◌then◌else◌, Bool-cases}

module _ {ℓ} {A : Type ℓ} where
  abbrev pub length : List A → ℕ
  length [] = 0
  length (x ∷ xs) = suc (length xs)

  -- `Array.prototype.filter`, `every` and `some`.
  unfoldable pub filter : (A → Bool) → List A → List A
  filter p [] = []
  filter p (x ∷ xs) = let rest = filter p xs in if p x then x ∷ rest else rest

  unfoldable pub all : (A → Bool) → List A → Bool
  all p [] = true
  all p (x ∷ xs) = p x && all p xs

  unfoldable pub any : (A → Bool) → List A → Bool
  any p [] = false
  any p (x ∷ xs) = p x || any p xs

module _ {ℓ} {A : Type ℓ} where
  pub length-append : (xs ys : List A) → length (xs ++ ys) ≡ length xs + length ys
  length-append [] ys = omega arith
  length-append (x ∷ xs) ys = omega (arith, length-append xs ys)

  pub length-map {κ} : {B : Type κ} (xs : List A) (f : A → B) → length (map f xs) ≡ length xs
  length-map [] f = refl
  length-map (x ∷ xs) f = ap suc (length-map xs f)

  pub filter-append :
      (p : A → Bool) (xs ys : List A) → filter p (xs ++ ys) ≡ filter p xs ++ filter p ys
  unfolding filter
  filter-append p [] ys = refl
  filter-append p (x ∷ xs) ys = ground (arith, filter-append p xs ys)

  pub length-filter : (p : A → Bool) (xs : List A) → length (filter p xs) ≤ length xs
  unfolding filter
  length-filter p [] = omega arith
  length-filter p (x ∷ xs) = ground (arith, length-filter p xs)

module _ {ℓ κ} {A : Type ℓ} where
  -- A predicate at every member, and a member with a predicate; both compute on constructors.
  abbrev pub All : (A → Type κ) → List A → Type κ
  All P [] = Unit
  All P (x ∷ xs) = P x × All P xs

module _ {ℓ κ} {A : Type ℓ} (P : A → Type κ) where
  pub All-filter : (p : A → Bool) (xs : List A) → All P xs → All P (filter p xs)
  unfolding filter
  All-filter p [] h = h
  All-filter p (x ∷ xs) (h, hs) = elim (Bool-cases (p x)) [
    | inl e ↦ rw e (h, All-filter p xs hs)
    | inr e ↦ rw e (All-filter p xs hs)
  ]

module _ {ℓ} {A : Type ℓ} where
  pub All-tests : (p : A → Bool) (xs : List A) → All (λ x. p x ≡ true) (filter p xs)
  unfolding filter
  All-tests p [] = tt
  All-tests p (x ∷ xs) = elim (Bool-cases (p x)) [
    | inl e ↦ rw e (e, All-tests p xs)
    | inr e ↦ rw e (All-tests p xs)
  ]

module _ {ℓ κ} {A : Type ℓ} (P : A → Type κ) where
  pub All-append : (xs ys : List A) → All P xs → All P ys → All P (xs ++ ys)
  All-append [] ys h k = k
  All-append (x ∷ xs) ys (p, h) k = (p, All-append xs ys h k)

  pub All-map {κ'} : (Q : A → Type κ') → ((x : A) → P x → Q x) → (xs : List A) → All P xs → All Q xs
  All-map Q f [] h = tt
  All-map Q f (x ∷ xs) (p, h) = (f x p, All-map Q f xs h)

module _ {ℓ} {A : Type ℓ} where
  -- `list.length > 0`
  abbrev pub is_nonempty : List A → Bool
  is_nonempty [] = false
  is_nonempty (x ∷ xs) = true

  pub any-filter : (p q : A → Bool) (xs : List A) → any p (filter q xs) ≡ any (λ x. q x && p x) xs
  unfolding any filter
  any-filter p q [] = refl
  any-filter p q (x ∷ xs) = ground (arith, any-filter p q xs)

  pub is_nonempty-filter : (q : A → Bool) (xs : List A) → is_nonempty (filter q xs) ≡ any q xs
  unfolding any filter
  is_nonempty-filter q [] = refl
  is_nonempty-filter q (x ∷ xs) = ground (arith, is_nonempty-filter q xs)

  pub is_nonempty-append :
      (xs ys : List A) → is_nonempty (xs ++ ys) ≡ is_nonempty xs || is_nonempty ys
  is_nonempty-append [] ys = refl
  is_nonempty-append (x ∷ xs) ys = refl

  pub is_nonempty-append_right :
      (xs ys : List A) → is_nonempty ys ≡ true → is_nonempty (xs ++ ys) ≡ true
  is_nonempty-append_right [] ys h = h
  is_nonempty-append_right (x ∷ xs) ys h = refl

  pub is_nonempty-empty : (xs : List A) → is_nonempty xs ≡ false → xs ≡ []
  is_nonempty-empty [] h = refl
  is_nonempty-empty (x ∷ xs) h = cc

  pub All-any_none : (p : A → Bool) (xs : List A) → any p xs ≡ false → All (λ x. p x ≡ false) xs
  unfolding any
  All-any_none p [] h = tt
  All-any_none p (x ∷ xs) h = (ground arith, All-any_none p xs (ground arith))

  pub any_none-All : (p : A → Bool) (xs : List A) → All (λ x. p x ≡ false) xs → any p xs ≡ false
  unfolding any
  any_none-All p [] h = refl
  any_none-All p (x ∷ xs) (f, h) = ground (arith, any_none-All p xs h)

  -- A conjunction holds somewhere only if its first part does; a disjunction splits.
  pub any-and : (p q : A → Bool) (xs : List A) → any p xs ≡ false → any (λ x. p x && q x) xs ≡ false
  unfolding any
  any-and p q [] h = refl
  any-and p q (x ∷ xs) h = ground (arith, any-and p q xs)

  pub any-or : (p q : A → Bool) (xs : List A) → any (λ x. p x || q x) xs ≡ any p xs || any q xs
  unfolding any
  any-or p q [] = refl
  any-or p q (x ∷ xs) = ground (arith, any-or p q xs)

module _ {ℓ κ} {A : Type ℓ} {B : Type κ} where
  pub is_nonempty-map : (f : A → B) (xs : List A) → is_nonempty (map f xs) ≡ is_nonempty xs
  is_nonempty-map f [] = refl
  is_nonempty-map f (x ∷ xs) = refl

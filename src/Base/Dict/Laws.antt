-- ===== src/Base/Dict/Laws.antt =====
-- The laws of `Map`, in a form without side conditions, and that its keys stay distinct.
use mathlib.Core.Path.{◌≡◌, refl, sym, subst, ap, ◌∙◌}
use mathlib.Core.Bool.{false}
use mathlib.Core.Logic.{inl, inr}
use mathlib.Core.Option.{none, some}
use mathlib.Core.List.{[], ◌∷◌, ◌++◌}
use native.Mathlib.Omega.{arith}
use symphony_ts.Base.Tests.{if◌then◌else◌, Bool-cases}
use symphony_ts.Base.Eq.{HasEq, ◌==◌, beq_refl}
use symphony_ts.Base.Dict.{Dict, get, set, delete}

module _ {ℓ κ} {K : Type ℓ} {V : Type κ} ⦃e : HasEq K⦄ where
  pub get-set :
      (m : Dict K V) (k : K) (v : V) (j : K)
      → get (set m k v) j ≡ (if k == j then some v else get m j)
  unfolding get set
  get-set [] k v j = refl
  get-set ((i, w) ∷ m) k v j =
      ground (arith, e.same_iff k j, e.same_iff i k, e.same_iff i j, get-set m k v j)

  pub get-set_same : (m : Dict K V) (k : K) (v : V) → get (set m k v) k ≡ some v
  get-set_same m k v = get-set m k v k ∙ ap (λ b. if b then some v else get m k) (beq_refl k)

  pub get-delete :
      (m : Dict K V) (k j : K) → get (delete m k) j ≡ (if k == j then none else get m j)
  unfolding get delete
  get-delete [] k j = ground arith
  get-delete ((i, w) ∷ m) k j =
      ground (arith, e.same_iff k j, e.same_iff i k, e.same_iff i j, get-delete m k j)

  -- Each key has one entry.
  abbrev pub IsDistinct : Dict K V → Type κ
  IsDistinct [] = Unit
  IsDistinct ((k, v) ∷ m) = (get m k ≡ none) × IsDistinct m

  pub set-IsDistinct : (m : Dict K V) (k : K) (v : V) → IsDistinct m → IsDistinct (set m k v)
  unfolding set get
  set-IsDistinct [] k v h = (refl, tt)
  set-IsDistinct ((i, w) ∷ m) k v (h, hs) = elim (Bool-cases (i == k)) [
    | inl same ↦ rw same (h, hs)
    | inr other ↦
        rw other
          (ground (arith, get-set m k v i, e.same_iff i k, e.same_iff k i), set-IsDistinct m k v hs)
  ]

  pub delete-IsDistinct : (m : Dict K V) (k : K) → IsDistinct m → IsDistinct (delete m k)
  unfolding delete get
  delete-IsDistinct [] k h = tt
  delete-IsDistinct ((i, w) ∷ m) k (h, hs) = elim (Bool-cases (i == k)) [
    | inl same ↦ rw same (delete-IsDistinct m k hs)
    | inr other ↦
        rw other (
          ground (arith, get-delete m k i, e.same_iff i k, e.same_iff k i),
          delete-IsDistinct m k hs,
        )
  ]

  pub delete_absent : (m : Dict K V) (k : K) → get m k ≡ none → delete m k ≡ m
  unfolding delete get
  delete_absent [] k h = refl
  delete_absent ((i, w) ∷ m) k h = ground (arith, delete_absent m k)

  absent_middle :
      (a b : Dict K V) (n : K) (v : V) (j : K) → get (a ++ (n, v) ∷ b) j ≡ none → (j == n) ≡ false
  unfolding get
  absent_middle [] b n v j h = ground (arith, e.same_iff j n, e.same_iff n j)
  absent_middle ((i, w) ∷ a) b n v j h = absent_middle a b n v j (ground arith)

  -- In a map with distinct keys the deletion of an entry takes out that entry alone.
  pub delete_middle :
      (a b : Dict K V) (n : K) (v : V)
      → IsDistinct (a ++ (n, v) ∷ b)
      → delete (a ++ (n, v) ∷ b) n ≡ a ++ b
  unfolding delete
  delete_middle [] b n v (h, hs) = rw ((e.same_iff n n).1 refl) (delete_absent b n h)
  delete_middle ((i, w) ∷ a) b n v (h, hs) =
      rw (absent_middle a b n v i h, delete_middle a b n v hs)

  get_middle_ne :
      (a b : Dict K V) (n : K) (v : V) (j : K)
      → get (a ++ (n, v) ∷ b) j ≡ none
      → get (a ++ b) j ≡ none
  unfolding get
  get_middle_ne [] b n v j h = ground arith
  get_middle_ne ((i, w) ∷ a) b n v j h = ground (arith, get_middle_ne a b n v j)

  pub IsDistinct-middle :
      (a b : Dict K V) (n : K) (v : V) → IsDistinct (a ++ (n, v) ∷ b) → IsDistinct (a ++ b)
  IsDistinct-middle [] b n v (h, hs) = hs
  IsDistinct-middle ((i, w) ∷ a) b n v (h, hs) =
      (get_middle_ne a b n v i h, IsDistinct-middle a b n v hs)

  -- What holds of every entry holds of the one that `get` finds, and `set` and `delete` keep it.
  module _ {κ'} (P : K → V → Type κ') where
    abbrev pub Entries : Dict K V → Type κ'
    Entries [] = Unit
    Entries ((k, v) ∷ m) = P k v × Entries m

    pub Entries-get : (m : Dict K V) (k : K) {v : V} → Entries m → get m k ≡ some v → P k v
    unfolding get
    Entries-get [] k h g = cc
    Entries-get ((i, w) ∷ m) k {v} (h, hs) g = elim (Bool-cases (i == k)) [
      | inl same ↦
          let found : w ≡ v = ground arith in
          subst (λ j. P j v) ((e.same_iff i k).0 same) (subst (P i) found h)
      | inr other ↦ Entries-get m k hs (rw other at g)
    ]

    pub Entries-set : (m : Dict K V) (k : K) (v : V) → Entries m → P k v → Entries (set m k v)
    unfolding set
    Entries-set [] k v h p = (p, tt)
    Entries-set ((i, w) ∷ m) k v (h, hs) p = elim (Bool-cases (i == k)) [
      | inl same ↦ rw same (subst (λ j. P j v) (sym ((e.same_iff i k).0 same)) p, hs)
      | inr other ↦ rw other (h, Entries-set m k v hs p)
    ]

    pub Entries-delete : (m : Dict K V) (k : K) → Entries m → Entries (delete m k)
    unfolding delete
    Entries-delete [] k h = tt
    Entries-delete ((i, w) ∷ m) k (h, hs) = elim (Bool-cases (i == k)) [
      | inl same ↦ rw same (Entries-delete m k hs)
      | inr other ↦ rw other (h, Entries-delete m k hs)
    ]

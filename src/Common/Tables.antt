-- ===== src/Common/Tables.antt =====
-- A table of the database as the list of its rows, and the statements that read and write it.
use Prim.Native.Nat.{ℕ, suc, ◌≤◌, max}
use mathlib.Core.Path.{◌≡◌, refl}
use mathlib.Core.Bool.{Bool, true, false, ◌||◌}
use mathlib.Core.Option.{Option, none, some}
use mathlib.Core.List.{List, [], ◌∷◌}
use native.Mathlib.Omega.{arith}
use gnester_lite.Common.Tests.{if◌then◌else◌}

module _ {ℓ} {R : Type ℓ} where
  abbrev pub length : List R → ℕ
  length [] = 0
  length (r ∷ rs) = suc (length rs)

  -- SELECT … WHERE
  abbrev pub select_where : (R → Bool) → List R → List R
  select_where p [] = []
  select_where p (r ∷ rs) = let rest = select_where p rs in if p r then r ∷ rest else rest

  -- SELECT … WHERE … LIMIT 1
  abbrev pub find : (R → Bool) → List R → Option R
  find p [] = none
  find p (r ∷ rs) = if p r then some r else find p rs

  -- UPDATE … SET … WHERE
  abbrev pub update_where : (R → Bool) → (R → R) → List R → List R
  update_where p f [] = []
  update_where p f (r ∷ rs) = (if p r then f r else r) ∷ update_where p f rs

  -- DELETE … WHERE
  abbrev pub delete_where : (R → Bool) → List R → List R
  delete_where p [] = []
  delete_where p (r ∷ rs) = let rest = delete_where p rs in if p r then rest else r ∷ rest

  abbrev pub any : (R → Bool) → List R → Bool
  any p [] = false
  any p (r ∷ rs) = p r || any p rs

  -- SELECT COUNT(*)
  abbrev pub count_where : (R → Bool) → List R → ℕ
  count_where p [] = 0
  count_where p (r ∷ rs) = let n = count_where p rs in if p r then suc n else n

  -- SELECT COALESCE(MAX(column), 0)
  abbrev pub max_of : (R → ℕ) → List R → ℕ
  max_of f [] = 0
  max_of f (r ∷ rs) = max (f r) (max_of f rs)

  -- ORDER BY: insertion sort, stable, by a test that the first row may stand before the second
  abbrev pub insert_by : (R → R → Bool) → R → List R → List R
  insert_by le r [] = r ∷ []
  insert_by le r (x ∷ xs) = if le r x then r ∷ x ∷ xs else x ∷ insert_by le r xs

  abbrev pub order_by : (R → R → Bool) → List R → List R
  order_by le [] = []
  order_by le (r ∷ rs) = insert_by le r (order_by le rs)

module _ {ℓ κ} {R : Type ℓ} (P : R → Type κ) where
  abbrev pub All : List R → Type κ
  All [] = Unit
  All (r ∷ rs) = P r × All rs

-- What a statement leaves of a row-wise property and of a count.
module _ {ℓ} {R : Type ℓ} where
  module _ {κ} (P : R → Type κ) where
    pub All-update_where :
        (p : R → Bool) (f : R → R) (rs : List R)
        → ((r : R) → P r → p r ≡ true → P (f r))
        → All P rs
        → All P (update_where p f rs)
    All-update_where p f [] k h = tt
    All-update_where p f (r ∷ rs) k h = (ground (arith, k r h.0), All-update_where p f rs k h.1)

    pub All-delete_where : (p : R → Bool) (rs : List R) → All P rs → All P (delete_where p rs)
    All-delete_where p [] h = tt
    All-delete_where p (r ∷ rs) h = ground (arith, All-delete_where p rs h.1)

    pub All-find : (p : R → Bool) (rs : List R) (r : R) → All P rs → find p rs ≡ some r → P r
    All-find p [] r h e = ground arith
    All-find p (x ∷ rs) r h e = ground (arith, All-find p rs r h.1)

    pub All-intro : (rs : List R) → ((r : R) → P r) → All P rs
    All-intro [] k = tt
    All-intro (r ∷ rs) k = (k r, All-intro rs k)

  pub find_holds : (p : R → Bool) (rs : List R) (r : R) → find p rs ≡ some r → p r ≡ true
  find_holds p [] r e = ground arith
  find_holds p (x ∷ rs) r e = ground (arith, find_holds p rs r)

  pub count_where-update_where-le :
      (q p : R → Bool) (f : R → R) (rs : List R)
      → ((r : R) → p r ≡ true → q (f r) ≡ true → q r ≡ true)
      → count_where q (update_where p f rs) ≤ count_where q rs
  count_where-update_where-le q p f [] k = omega arith
  count_where-update_where-le q p f (r ∷ rs) k =
      ground (arith, k r, count_where-update_where-le q p f rs k)

  pub count_where-delete_where-le :
      (q p : R → Bool) (rs : List R) → count_where q (delete_where p rs) ≤ count_where q rs
  count_where-delete_where-le q p [] = omega arith
  count_where-delete_where-le q p (r ∷ rs) = ground (arith, count_where-delete_where-le q p rs)

  pub count_where-eq_zero : (p : R → Bool) (rs : List R) → any p rs ≡ false → count_where p rs ≡ 0
  count_where-eq_zero p [] h = refl
  count_where-eq_zero p (r ∷ rs) h = ground (arith, count_where-eq_zero p rs)

  pub any-update_where :
      (q p : R → Bool) (f : R → R) (rs : List R)
      → ((r : R) → p r ≡ true → q (f r) ≡ false)
      → ((r : R) → q r ≡ true → p r ≡ true)
      → any q (update_where p f rs) ≡ false
  any-update_where q p f [] k l = refl
  any-update_where q p f (r ∷ rs) k l = ground (arith, k r, l r, any-update_where q p f rs k l)

  pub any-delete_where :
      (q p : R → Bool) (rs : List R)
      → ((r : R) → q r ≡ true → p r ≡ true)
      → any q (delete_where p rs) ≡ false
  any-delete_where q p [] k = refl
  any-delete_where q p (r ∷ rs) k = ground (arith, k r, any-delete_where q p rs k)

  -- The rows that a selection and an ordering return.
  pub All-select_where : (p : R → Bool) (rs : List R) → All (λ r. p r ≡ true) (select_where p rs)
  All-select_where p [] = tt
  All-select_where p (r ∷ rs) = ground (arith, All-select_where p rs)

  pub find-update_where :
      (q p : R → Bool) (f : R → R) (rs : List R)
      → ((r : R) → q (f r) ≡ q r)
      → find q (update_where p f rs)
        ≡ elim (find q rs) [ none ↦ none | some r ↦ some (if p r then f r else r) ]
  find-update_where q p f [] k = refl
  find-update_where q p f (r ∷ rs) k = ground (arith, k r, find-update_where q p f rs k)

module _ {ℓ κ} {R : Type ℓ} (P : R → Type κ) where
  All-insert_by :
      (le : R → R → Bool) (r : R) (rs : List R) → P r → All P rs → All P (insert_by le r rs)
  All-insert_by le r [] h k = (h, tt)
  All-insert_by le r (x ∷ xs) h k = ground (arith, All-insert_by le r xs h k.1)

  pub All-order_by : (le : R → R → Bool) (rs : List R) → All P rs → All P (order_by le rs)
  All-order_by le [] h = tt
  All-order_by le (r ∷ rs) h = All-insert_by le r (order_by le rs) h.0 (All-order_by le rs h.1)

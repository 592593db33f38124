-- ===== src/Common/Orders.antt =====
-- ORDER BY column ASC LIMIT 1: the first of the rows with the least value.
use Prim.Native.Nat.{ℕ, ◌≤◌}
use mathlib.Core.Path.{◌≡◌, refl, subst}
use mathlib.Core.Logic.{inl, inr}
use mathlib.Core.Option.{Option, none, some, some-injective}
use mathlib.Core.List.{List, [], ◌∷◌}
use native.Mathlib.Omega.{arith}
use mdm_saa_s.Common.Tests.{ltb, if◌then◌else◌, Bool-cases}
use mdm_saa_s.Common.Tables.{All}

module _ {ℓ} {A : Type ℓ} (column : A → ℕ) where
  abbrev pub smaller : A → Option A → A
  smaller x none = x
  smaller x (some y) = if ltb (column y) (column x) then y else x

  unfoldable pub least : List A → Option A
  least [] = none
  least (x ∷ xs) = some (smaller x (least xs))

  -- ORDER BY column: rows with one value stay in the order of the table.
  abbrev pub insert_by : A → List A → List A
  insert_by x [] = x ∷ []
  insert_by x (y ∷ ys) =
      let rest = insert_by x ys in if ltb (column y) (column x) then y ∷ rest else x ∷ y ∷ ys

  unfoldable pub sort_by : List A → List A
  sort_by [] = []
  sort_by (x ∷ xs) = insert_by x (sort_by xs)

  pub least-none : (xs : List A) → least xs ≡ none → xs ≡ []
  unfolding least
  least-none [] h = refl
  least-none (x ∷ xs) h = cc

  All-le_mono :
      (xs : List A) (a b : ℕ) → a ≤ b → All (λ x. b ≤ column x) xs → All (λ x. a ≤ column x) xs
  All-le_mono [] a b h k = tt
  All-le_mono (x ∷ xs) a b h (p, k) = (omega arith, All-le_mono xs a b h k)

  -- The row is a least one.
  pub least_le : (xs : List A) (m : A) → least xs ≡ some m → All (λ x. column m ≤ column x) xs
  unfolding least
  least_le [] m h = tt
  least_le (x ∷ []) m h = (ground arith, tt)
  least_le (x ∷ y ∷ ys) m h =
      let z : A = smaller y (least ys) in
      let below = least_le (y ∷ ys) z refl in
      (ground arith, All-le_mono (y ∷ ys) (column m) (column z) (ground arith) below)

  -- What holds of every row holds of the least one.
  pub All-least {κ} : (P : A → Type κ) (xs : List A) (m : A) → least xs ≡ some m → All P xs → P m
  unfolding least
  All-least P [] m h k = absurd (cc)
  All-least P (x ∷ []) m h (p, k) = subst P (some-injective _ _ h) p
  All-least P (x ∷ y ∷ ys) m h (p, k) =
      let z : A = smaller y (least ys) in
      let later = All-least P (y ∷ ys) z refl k in
      elim (Bool-cases (ltb (column z) (column x))) [
        | inl e ↦ subst P (some-injective _ _ (rw e at h)) later
        | inr e ↦ subst P (some-injective _ _ (rw e at h)) p
      ]

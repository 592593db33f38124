-- ===== src/Common/Pigeonhole.antt =====
-- Distinct texts that all are in a list are no more than its entries.
use Prim.Native.Nat.{suc, ◌≤◌}
use Prim.Native.String.{String}
use mathlib.Core.Path.{◌≡◌, ap}
use mathlib.Core.Logic.{inl, inr}
use mathlib.Core.Bool.{true, false}
use mathlib.Core.List.{List, [], ◌∷◌}
use native.Mathlib.Omega.{arith}
use text.Mathlib.Text.{◌==◌}
use text.Mathlib.TextEquality.{eq_iff}
use mdm_saa_s.Common.Tests.{Bool-cases}
use mdm_saa_s.Common.Tables.{length, any, delete_where, All, Distinct}

abbrev pub IsIn : List String → String → Type 0
IsIn xs x = any (λ y. y == x) xs ≡ true

-- Taking a text out of a list makes the list shorter if the text is in it.
length-delete_le :
    (x : String) (xs : List String) → length (delete_where (λ y. y == x) xs) ≤ length xs
length-delete_le x [] = omega arith
length-delete_le x (y ∷ ys) = ground (arith, length-delete_le x ys)

length-delete_where :
    (x : String) (xs : List String)
    → IsIn xs x
    → suc (length (delete_where (λ y. y == x) xs)) ≤ length xs
length-delete_where x [] h = absurd (cc)
length-delete_where x (y ∷ ys) h = elim (Bool-cases (y == x)) [
  | inl e ↦ ground (arith, length-delete_le x ys)
  | inr e ↦ ground (arith, length-delete_where x ys)
]

-- Another text stays.
IsIn-delete_where :
    (x z : String) (xs : List String)
    → (x == z) ≡ false
    → IsIn xs z
    → IsIn (delete_where (λ y. y == x) xs) z
IsIn-delete_where x z [] n h = h
IsIn-delete_where x z (y ∷ ys) n h = elim (Bool-cases (y == x)) [
  | inl e ↦
      let same : (y == z) ≡ (x == z) = ap (λ i. i == z) ((eq_iff y x).0 e) in
      ground (arith, IsIn-delete_where x z ys n)
  | inr e ↦ ground (arith, IsIn-delete_where x z ys n)
]

All-IsIn-delete :
    (x : String) (zs xs : List String)
    → any (λ y. x == y) zs ≡ false
    → All (IsIn xs) zs
    → All (IsIn (delete_where (λ y. y == x) xs)) zs
All-IsIn-delete x [] xs n h = tt
All-IsIn-delete x (z ∷ zs) xs n (h, k) = elim (Bool-cases (x == z)) [
  | inl e ↦ absurd (ground arith)
  | inr e ↦ (IsIn-delete_where x z xs e h, All-IsIn-delete x zs xs (rw e at n) k)
]

pub pigeonhole : (zs xs : List String) → Distinct zs → All (IsIn xs) zs → length zs ≤ length xs
pigeonhole [] xs d h = omega arith
pigeonhole (z ∷ zs) xs (n, d) (h, k) = omega (
  arith,
  length-delete_where z xs h,
  pigeonhole zs (delete_where (λ y. y == z) xs) d (All-IsIn-delete z zs xs n k),
)

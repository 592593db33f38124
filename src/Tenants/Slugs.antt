-- ===== src/Tenants/Slugs.antt =====
-- The loop of a sign-up ends with a slug that is not in use.
use Prim.Native.String
use Prim.Native.String.{count}
use mathlib.Core.Option.{some-injective}
use text.Mathlib.TextLemmas.{append_cancel_left, length-append}
use mdm_saa_s.Common.{
  ℕ, zero, suc, ◌<◌, ◌≡◌, ◌≢◌, refl, sym, ap, ◌∙◌, String, true, false, none, some, List, [], ◌∷◌,
  map, ◌==◌, inl, inr, any, length, Bool-cases, Option-cases, arith, eq_iff, Distinct, IsIn,
  pigeonhole, All,
}
use mdm_saa_s.Models.{Tenant}
use mdm_saa_s.Tenants.Signup.{is_taken, with_suffix, free_slug, unique_slug}

abbrev slug_of : Tenant → String
slug_of t = t.slug

taken-IsIn : (x : String) (ts : List Tenant) → is_taken x ts ≡ true → IsIn (map slug_of ts) x
taken-IsIn x [] h = h
taken-IsIn x (t ∷ ts) h = ground (arith, taken-IsIn x ts)

length-map : (ts : List Tenant) → length (map slug_of ts) ≡ length ts
length-map [] = refl
length-map (t ∷ ts) = ap (suc) (length-map ts)

eq-false : (a b : String) → a ≢ b → (a == b) ≡ false
eq-false a b h = elim (Bool-cases (a == b)) [ inl e ↦ absurd (h ((eq_iff a b).0 e)) | inr e ↦ e ]

module _ (str : ℕ → String) (base : String) (inj : (m n : ℕ) → str m ≡ str n → m ≡ n) where
  suffix-injective : (m n : ℕ) → with_suffix str base m ≡ with_suffix str base n → m ≡ n
  suffix-injective m n h = inj m n (
      append_cancel_left "-" (str m) (str n)
        (append_cancel_left base (String.◌++◌ "-" (str m)) (String.◌++◌ "-" (str n)) h))

  one_char : count "-" ≡ 1
  one_char = refl

  base-suffix : (n : ℕ) → base ≢ with_suffix str base n
  base-suffix n h = absurd (
      omega (
        arith,
        ap (count) h,
        length-append base (String.◌++◌ "-" (str n)),
        length-append "-" (str n),
        one_char,
      ))

  -- The slugs that the loop tries from a suffix on.
  tried : ℕ → ℕ → List String
  tried zero k = []
  tried (suc n) k = with_suffix str base k ∷ tried n (suc k)

  later : (m k n : ℕ) → m < k → any (λ y. with_suffix str base m == y) (tried n k) ≡ false
  unfolding tried
  later m k zero h = refl
  later m k (suc n) h =
      let apart =
        eq-false (with_suffix str base m) (with_suffix str base k)
          (λ e. absurd (omega (arith, suffix-injective m k e))) in
      rw apart (later m (suc k) n (omega arith))

  never_base : (k n : ℕ) → any (λ y. base == y) (tried n k) ≡ false
  unfolding tried
  never_base k zero = refl
  never_base k (suc n) =
      rw (eq-false base (with_suffix str base k) (base-suffix k)) (never_base (suc k) n)

  tried-Distinct : (n k : ℕ) → Distinct (tried n k)
  unfolding tried
  tried-Distinct zero k = tt
  tried-Distinct (suc n) k = (later k (suc k) n (omega arith), tried-Distinct n (suc k))

  length-tried : (n k : ℕ) → length (tried n k) ≡ n
  unfolding tried
  length-tried zero k = refl
  length-tried (suc n) k = ap (suc) (length-tried n (suc k))

  -- A slug that the loop returns is free.
  free_slug-free :
      (n k : ℕ) (slug r : String) (ts : List Tenant)
      → free_slug str base n k slug ts ≡ some r
      → is_taken r ts ≡ false
  unfolding free_slug
  free_slug-free zero k slug r ts h = absurd (cc)
  free_slug-free (suc n) k slug r ts h = elim (Bool-cases (is_taken slug ts)) [
    | inl e ↦ free_slug-free n (suc k) (with_suffix str base k) r ts (rw e at h)
    | inr e ↦ ap (λ x. is_taken x ts) (sym (some-injective _ _ (rw e at h))) ∙ e
  ]

  -- Where the rounds do not suffice, every slug that was tried is taken.
  free_slug-none :
      (n k : ℕ) (slug : String) (ts : List Tenant)
      → free_slug str base (suc n) k slug ts ≡ none
      → All (IsIn (map slug_of ts)) (slug ∷ tried n k)
  unfolding free_slug tried
  free_slug-none zero k slug ts h = elim (Bool-cases (is_taken slug ts)) [
    | inl e ↦ (taken-IsIn slug ts e, tt)
    | inr e ↦ absurd (ground (arith, e, h))
  ]
  free_slug-none (suc n) k slug ts h = elim (Bool-cases (is_taken slug ts)) [
    | inl e ↦
        (taken-IsIn slug ts e, free_slug-none n (suc k) (with_suffix str base k) ts (rw e at h))
    | inr e ↦ absurd (ground (arith, e, h))
  ]

  -- Where Python prints distinct numbers differently, the loop that looks for a slug ends, after at most one round
  -- more than there are tenants, with a slug that no tenant has.
  pub unique_slug-IsFree :
      (ts : List Tenant)
      → (slug : String) × (unique_slug str base ts ≡ some slug) × (is_taken slug ts ≡ false)
  unfolding unique_slug
  unique_slug-IsFree ts = elim (Option-cases (free_slug str base (suc (length ts)) 1 base ts)) [
    | inl e ↦ absurd (
        omega (
          arith,
          length-map ts,
          length-tried (length ts) 1,
          pigeonhole (base ∷ tried (length ts) 1) (map slug_of ts)
              (never_base 1 (length ts), tried-Distinct (length ts) 1)
              (free_slug-none (length ts) 1 base ts e),
        ))
    | inr (slug, e) ↦ (slug, e, free_slug-free (suc (length ts)) 1 base slug ts e)
  ]

-- ===== src/Database/Laws.antt =====
-- Results of actions, and running the rest of a handler after a step.
use mdm_saa_s.Common.{◌≡◌, refl, ap, ◌⊎◌, inl, inr, none, some, List, [], ◌∷◌}
use mdm_saa_s.Database.Session.{Db, Failure, Result, ok, err, Action, ◌>>=◌, one_or_none, pure}

pub one_or_none-some :
    {A : Type 0} (xs : List A) (x : A) → one_or_none xs ≡ ok (some x) → xs ≡ x ∷ []
unfolding one_or_none
one_or_none-some [] x h = cc
one_or_none-some (y ∷ []) x h = cc
one_or_none-some (y ∷ z ∷ xs) x h = cc

pub one_or_none-none : {A : Type 0} (xs : List A) → one_or_none xs ≡ ok none → xs ≡ []
unfolding one_or_none
one_or_none-none [] h = cc
one_or_none-none (y ∷ []) h = cc
one_or_none-none (y ∷ z ∷ xs) h = cc

pub Result-cases :
    {A : Type 0} (r : Result A) → ((a : A) × (r ≡ ok a)) ⊎ ((e : Failure) × (r ≡ err e))
Result-cases (ok a) = inl (a, refl)
Result-cases (err e) = inr (e, refl)

pub ok-injective : {A : Type 0} {a b : A} → ok a ≡ ok b → a ≡ b
ok-injective {a = a} h = ap (λ r. elim r [ ok x ↦ x | err e ↦ a ]) h

pub err≢ok : {A : Type 0} {B : Type 0} {a : A} {e : Failure} → err e ≡ ok a → B
err≢ok h = absurd (cc)

-- Running the rest of a handler after a step whose result is known.
module _ {A B : Type 0} (m : Action A) (f : A → Action B) (s : Db) where
  step_of : Result A × Db → Result B × Db
  step_of x = elim x.0 [ ok a ↦ f a x.1 | err e ↦ (err e, x.1) ]

  pub bind-ok : (a : A) (t : Db) → m s ≡ (ok a, t) → (m >>= f) s ≡ f a t
  unfolding step_of
  bind-ok a t h = ap step_of h

  pub bind-err : (e : Failure) (t : Db) → m s ≡ (err e, t) → (m >>= f) s ≡ (err e, t)
  unfolding step_of
  bind-err e t h = ap step_of h

  -- What returns has returned at its first step.
  pub bind_inv :
      (b : B) → ((m >>= f) s).0 ≡ ok b → (a : A) × (t : Db) × (m s ≡ (ok a, t)) × ((f a t).0 ≡ ok b)
  unfolding step_of
  bind_inv b h = go (m s) refl h
    where
      go :
          (x : Result A × Db)
          → m s ≡ x
          → (elim x.0 as (λ _. Result B × Db) [ ok a ↦ f a x.1 | err e ↦ (err e, x.1) ]).0 ≡ ok b
          → (a : A) × (t : Db) × (m s ≡ (ok a, t)) × ((f a t).0 ≡ ok b)
      go (ok a, t) e k = (a, t, e, k)
      go (err e', t) e k = err≢ok k

-- A result that is only rearranged leaves the state.
pub bind-pure :
    {A B : Type 0} (m : Action A) (f : A → B) (s : Db) → ((m >>= λ a. pure (f a)) s).1 ≡ (m s).1
bind-pure {A = A} {B = B} m f s = go (m s)
  where
    go :
        (x : Result A × Db)
        → (elim x.0 as (λ _. Result B × Db) [ ok a ↦ (ok (f a), x.1) | err e ↦ (err e, x.1) ]).1
          ≡ x.1
    go (ok a, t) = refl
    go (err e, t) = refl

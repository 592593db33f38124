-- ===== src/Database/Keeps.antt =====
-- Predicates of the state that an action keeps, whether it returns or raises: one rule for each way to
-- build an action. The rules take the actions, since `◌>>=◌` computes away.
use mdm_saa_s.Common.{◌≡◌, refl, Bool, true, false, Option, none, some, if◌then◌else◌}
use mdm_saa_s.Database.Session.{
  Db, Action, Failure, Result, ok, err, pure, raise, gets, lift, ◌>>=◌, ◌>>◌, if_given, attempt,
  require,
}

pub record Keeps {A : Type 0} (P : Db → Type 0) (m : Action A) : Type 0 where
  pub at : (s : Db) → P s → P (m s).1

module _ {A B : Type 0} (P : Db → Type 0) where
  after :
      (r : Result A) (f : A → Action B) (s : Db)
      → ((a : A) → Keeps P (f a))
      → P s
      → P (elim r as (λ _. Result B × Db) [ ok a ↦ f a s | err e ↦ (err e, s) ]).1
  after (ok a) f s k h = (k a).at s h
  after (err e) f s k h = h

  pub Keeps-bind :
      (m : Action A) (f : A → Action B) → Keeps P m → ((a : A) → Keeps P (f a)) → Keeps P (m >>= f)
  Keeps-bind m f km kf = record { at = λ s h. after (m s).0 f (m s).1 kf (km.at s h) }

module _ (P : Db → Type 0) where
  -- An action that only reads.
  pub Keeps-gets : {A : Type 0} (f : Db → A) → Keeps P (gets f)
  Keeps-gets f = record { at = λ s h. h }

  pub Keeps-lift : {A : Type 0} (r : Result A) → Keeps P (lift r)
  Keeps-lift r = record { at = λ s h. h }

  pub Keeps-pure : {A : Type 0} (a : A) → Keeps P (pure a)
  Keeps-pure a = record { at = λ s h. h }

  pub Keeps-raise : {A : Type 0} (e : Failure) → Keeps P (raise {A = A} e)
  Keeps-raise e = record { at = λ s h. h }

  pub Keeps-if_given :
      {A : Type 0} (o : Option A) (f : A → Action Unit)
      → ((a : A) → Keeps P (f a))
      → Keeps P (if_given o f)
  Keeps-if_given none f k = record { at = λ s h. h }
  Keeps-if_given (some a) f k = k a

  pub Keeps-attempt : (m : Action Unit) → Keeps P m → Keeps P (attempt m)
  Keeps-attempt m k = record { at = λ s h. k.at s h }

  pub Keeps-require : (b : Bool) (e : _) → Keeps P (require b e)
  Keeps-require true e = record { at = λ s h. h }
  Keeps-require false e = record { at = λ s h. h }

  pub Keeps-if :
      {A : Type 0} (b : Bool) (m n : Action A)
      → Keeps P m
      → Keeps P n
      → Keeps P (if b then m else n)
  Keeps-if true m n km kn = km
  Keeps-if false m n km kn = kn

module _ {A : Type 0} (P : Db → Type 0) where
  pub Keeps-then : (m : Action Unit) (n : Action A) → Keeps P m → Keeps P n → Keeps P (m >> n)
  Keeps-then m n km kn = Keeps-bind P m (λ _. n) km (λ _. kn)

  -- What follows a guard may use that it has passed.
  pub Keeps-guard :
      (b : Bool) (e : Failure) (n : Action A) → (b ≡ true → Keeps P n) → Keeps P (require b e >> n)
  Keeps-guard true e n k = k refl
  Keeps-guard false e n k = record { at = λ s h. h }

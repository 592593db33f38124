-- ===== src/Enrollment/SingleUse.antt =====
-- A token that is not reusable serves one profile.
use mdm_saa_s.Common.{
  ℕ, ◌≡◌, refl, sym, ap, ◌∙◌, String, Bool, true, false, not, ◌&&◌, Option, none, some, List, [],
  ◌∷◌, ◌==◌, select, update_where, eq_refl, select-marked, All,
}
use mathlib.Core.Path.{subst}
use mdm_saa_s.Models.{Tenant, EnrollmentToken}
use mdm_saa_s.Database.{
  Db, Action, Result, ok, err, http, one_or_none, require, pure, raise, ◌>>◌, ◌>>=◌, lift,
}
use mdm_saa_s.Database.Laws.{err≢ok, ok-injective, bind-ok, bind-err, bind_inv}
use mdm_saa_s.Enrollment.Tokens.{
  has_token, mark_used, is_spent, is_expired, checked_token, valid_token, token_tenant, serve,
  Served, enrollment_profile, download_enrollment_profile,
}

-- The check of a row that is found gives that row, and writes nothing.
checked_token-some :
    (now : ℕ) (o : Option EnrollmentToken) (r : EnrollmentToken) (s t : Db)
    → checked_token now o s ≡ (ok r, t)
    → (o ≡ some r) × (s ≡ t)
unfolding checked_token
checked_token-some now none r s t h = err≢ok (ap (λ x. x.0) h)
checked_token-some now (some x) r s t h = go (is_spent x) (is_expired now x) h
  where
    go :
        (a b : Bool)
        → (require (not a) (http 410) >> (require (not b) (http 410) >> pure x)) s ≡ (ok r, t)
        → (some x ≡ some r) × (s ≡ t)
    go true b k = err≢ok (ap (λ x. x.0) k)
    go false true k = err≢ok (ap (λ x. x.0) k)
    go false false k =
        (ap {B = Option EnrollmentToken} some (ok-injective (ap (λ x. x.0) k)), ap (λ x. x.1) k)

valid_token-found :
    (now : ℕ) (token : String) (r : EnrollmentToken) (s t : Db)
    → valid_token now token s ≡ (ok r, t)
    → (select (has_token token) s.enrollment_tokens ≡ r ∷ []) × (s ≡ t)
unfolding valid_token one_or_none
valid_token-found now token r s t h = go (select (has_token token) s.enrollment_tokens) h
  where
    go :
        (xs : List EnrollmentToken)
        → (lift (one_or_none xs) >>= checked_token now) s ≡ (ok r, t)
        → (xs ≡ r ∷ []) × (s ≡ t)
    go [] k = (let (a, b) = checked_token-some now none r s t k in absurd (cc))
    go (x ∷ []) k =
        let (a, b) = checked_token-some now (some x) r s t k in
        (ap (λ o. elim o [ some y ↦ y ∷ [] | none ↦ x ∷ [] ]) a, b)
    go (x ∷ y ∷ xs) k = err≢ok (ap (λ x. x.0) k)

-- Serving a profile marks the token, unless it is reusable.
serve-marks :
    (landing : Bool) (r : EnrollmentToken) (tenant t : Tenant) (topic : String) (s : Db)
    → r.reusable ≡ false
    → (serve landing r tenant s).0 ≡ ok (enrollment_profile t topic)
    → (serve landing r tenant s).1.enrollment_tokens
      ≡ update_where (λ x. x.id == r.id) mark_used s.enrollment_tokens
unfolding serve
serve-marks true r tenant t topic s h k = absurd (cc)
serve-marks false r tenant t topic s h k = rw h refl

token_tenant-state :
    (r : EnrollmentToken) (a : Tenant) (s t : Db) → token_tenant r s ≡ (ok a, t) → s ≡ t
unfolding token_tenant
token_tenant-state r a s t h = go (one_or_none (select (λ x. x.id == r.tenant_id) s.tenants)) h
  where
    go :
        (o : Result (Option Tenant))
        → (lift o >>= λ one. elim one as (λ _. Action Tenant) [
          | none ↦ raise (http 404)
          | some x ↦ pure x
        ])
            s
          ≡ (ok a, t)
        → s ≡ t
    go (err e) k = err≢ok (ap (λ x. x.0) k)
    go (ok none) k = err≢ok (ap (λ x. x.0) k)
    go (ok (some x)) k = ap (λ x. x.1) k

module _ (token : String) where
  valid_token-used :
      (later : ℕ) (r : EnrollmentToken) (t : Db)
      → r.reusable ≡ false
      → select (has_token token) t.enrollment_tokens ≡ mark_used r ∷ []
      → valid_token later token t ≡ (err (http 410), t)
  unfolding valid_token one_or_none checked_token is_spent
  valid_token-used later r t h e =
      ap (λ xs. (lift (one_or_none xs) >>= checked_token later) t) e
      ∙ ap
          (λ b.
            (require (not (not b)) (http 410)
                >> (require (not (is_expired later (mark_used r))) (http 410)
                    >> pure (mark_used r)))
              t)
          h

  -- What follows the check.
  rest : Bool → Bool → EnrollmentToken → Action Served
  rest html download r = token_tenant r >>= serve (html && not download) r

  used_is_refused :
      (later : ℕ) (html download : Bool) (r : EnrollmentToken) (t : Db)
      → r.reusable ≡ false
      → select (has_token token) t.enrollment_tokens ≡ mark_used r ∷ []
      → (download_enrollment_profile later token html download t).0 ≡ err (http 410)
  unfolding download_enrollment_profile rest
  used_is_refused later html download r t h e =
      ap (λ x. x.0)
        (bind-err (valid_token later token) (rest html download) t (http 410) t
          (valid_token-used later r t h e))

  marked_row :
      (r : EnrollmentToken) → update_where (λ x. x.id == r.id) mark_used (r ∷ []) ≡ mark_used r ∷ []
  marked_row r = rw (eq_refl r.id) refl

  -- When a profile has been served for a token and no row with that token is reusable, every later request with
  -- the token is refused with status 410.
  pub enrollment_token_single_use :
      (now later : ℕ) (html download html' download' : Bool) (t : Tenant) (topic : String) (s : Db)
      → All (λ r. r.reusable ≡ false) (select (has_token token) s.enrollment_tokens)
      → (download_enrollment_profile now token html download s).0 ≡ ok (enrollment_profile t topic)
      → (download_enrollment_profile later token html' download'
          (download_enrollment_profile now token html download s).1).0
        ≡ err (http 410)
  unfolding download_enrollment_profile rest
  enrollment_token_single_use now later html download html' download' t topic s once h =
      let (r, t1, e1, k1) =
        bind_inv (valid_token now token) (rest html download) s (enrollment_profile t topic) h in
      let (a, t2, e2, k2) =
        bind_inv (token_tenant r) (serve (html && not download) r) t1 (enrollment_profile t topic)
          k1 in
      let (found, same) = valid_token-found now token r s t1 e1 in
      let fresh : r.reusable ≡ false = (subst (All (λ x. x.reusable ≡ false)) found once).0 in
      let run =
        bind-ok (valid_token now token) (rest html download) s r t1 e1
        ∙ bind-ok (token_tenant r) (serve (html && not download) r) t1 a t2 e2 in
      let rows =
        ap (λ x. x.1.enrollment_tokens) run
        ∙ serve-marks (html && not download) r a t topic t2 fresh k2
        ∙ ap (λ x. update_where (λ y. y.id == r.id) mark_used x.enrollment_tokens)
            (sym (same ∙ token_tenant-state r a t1 t2 e2)) in
      used_is_refused later html' download' r
        (download_enrollment_profile now token html download s).1 fresh
        (ap (select (has_token token)) rows
          ∙ select-marked (has_token token) (λ y. y.id == r.id) mark_used (λ x. refl)
              s.enrollment_tokens
          ∙ ap (update_where (λ y. y.id == r.id) mark_used) found
          ∙ marked_row r)

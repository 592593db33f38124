-- ===== src/Auth/SingleUse.antt =====
-- A password reset token works once.
use mdm_saa_s.Common.{
  select-marked, ℕ, ◌≡◌, refl, sym, ap, ◌∙◌, String, Bool, true, false, Option, none, some, List,
  [], ◌∷◌, ◌==◌, Bool-cases, inl, inr, select, update_where, eq_refl, if◌then◌else◌,
}
use mdm_saa_s.Models.{User, PasswordResetToken}
use mdm_saa_s.Database.{
  Db, Action, Result, ok, err, http, gets, lift, require, one_or_none, ◌>>=◌, ◌>>◌,
}
use mdm_saa_s.Database.Laws.{err≢ok}
use mdm_saa_s.Audit.{write_audit}
use mdm_saa_s.Auth.Tokens.{Crypto}
use mdm_saa_s.Auth.Reset.{is_usable, password_strength, complete_reset, use_token, reset_password}

abbrev used : PasswordResetToken → PasswordResetToken
used r = record r { used = true }

module _ (crypto : Crypto) (now : ℕ) (password : String) (r : PasswordResetToken) where
  -- A run that, if it returns, has marked the rows with the token's identifier.
  abbrev Marks : Db → Result Unit × Db → Type 0
  Marks s x = x.0 ≡ ok tt → x.1.reset_tokens ≡ update_where (λ y. y.id == r.id) used s.reset_tokens

  complete-Marks : (o : Option User) (s : Db) → Marks s (complete_reset crypto now password r o s)
  unfolding complete_reset write_audit
  complete-Marks none s h = err≢ok h
  complete-Marks (some u) s h = elim (Bool-cases (u.status == "active")) [
    | inl e ↦ rw e refl
    | inr e ↦ err≢ok (rw e at h)
  ]

  owner-Marks :
      (x : Result (Option User)) (s : Db)
      → Marks s ((lift x >>= complete_reset crypto now password r) s)
  owner-Marks (ok o) s h = complete-Marks o s h
  owner-Marks (err e) s h = err≢ok h

  guard-Marks :
      (b : Bool) (s : Db)
      → Marks s (
          (require b (http 400)
              >> (gets (λ t. select (λ u. u.id == r.user_id) t.users) >>= λ users.
                  lift (one_or_none users) >>= complete_reset crypto now password r))
            s)
  guard-Marks true s h = owner-Marks (one_or_none (select (λ u. u.id == r.user_id) s.users)) s h
  guard-Marks false s h = err≢ok h

  use-Marks : (s : Db) → Marks s (use_token crypto now password (some r) s)
  unfolding use_token
  use-Marks s = guard-Marks (is_usable now r) s

module _ (crypto : Crypto) (token : String) where
  abbrev mine : PasswordResetToken → Bool
  mine r = r.token == token

  -- The handler, from the rows that its query finds.
  abbrev run : ℕ → String → List PasswordResetToken → Action Unit
  run now password xs = lift (one_or_none xs) >>= use_token crypto now password

  -- The handler, from the outcome of the validator.
  abbrev checked : ℕ → String → List PasswordResetToken → Bool → Action Unit
  checked now password xs b = require b (http 422) >> run now password xs

  marked_row :
      (r : PasswordResetToken) → update_where (λ y. y.id == r.id) used (r ∷ []) ≡ used r ∷ []
  marked_row r = rw (eq_refl r.id) refl

  used_is_refused :
      (later : ℕ) (password : String) (r : PasswordResetToken) (b : Bool) (t : Db)
      → (checked later password (used r ∷ []) b t).0 ≡ err (if b then http 400 else http 422)
  unfolding use_token one_or_none
  used_is_refused later password r true t = refl
  used_is_refused later password r false t = refl

  -- A reset that returns has found one row and marked it.
  found_row :
      (now : ℕ) (password : String) (xs : List PasswordResetToken) (b : Bool) (s : Db)
      → (checked now password xs b s).0 ≡ ok tt
      → (r : PasswordResetToken) × ((xs ≡ r ∷ [])
          × ((checked now password xs b s).1.reset_tokens
              ≡ update_where (λ y. y.id == r.id) used s.reset_tokens))
  unfolding one_or_none use_token
  found_row now password [] true s h = err≢ok h
  found_row now password (r ∷ []) true s h = (r, (refl, use-Marks crypto now password r s h))
  found_row now password (x ∷ y ∷ xs) true s h = err≢ok h
  found_row now password xs false s h = err≢ok h

  by_validator :
      (now : ℕ) (password : String) (b : Bool) (s : Db)
      → (require b (http 422) >> (gets (λ t. select mine t.reset_tokens) >>= run now password)) s
        ≡ checked now password (select mine s.reset_tokens) b s
  by_validator now password true s = refl
  by_validator now password false s = refl

  -- The handler reads the rows once.
  reset_runs :
      (now : ℕ) (password : String) (s : Db)
      → reset_password crypto now token password s
        ≡ checked now password (select mine s.reset_tokens) (password_strength password) s
  unfolding reset_password
  reset_runs now password s = by_validator now password (password_strength password) s

  pub reset_token_single_use :
      (now later : ℕ) (password password' : String) (s : Db)
      → (reset_password crypto now token password s).0 ≡ ok tt
      → (reset_password crypto later token password'
          (reset_password crypto now token password s).1).0
        ≡ err (if password_strength password' then http 400 else http 422)
  reset_token_single_use now later password password' s h =
      let t = (reset_password crypto now token password s).1 in
      let run_of = reset_runs now password s in
      let (r, (only, rows)) =
        found_row now password (select mine s.reset_tokens) (password_strength password) s
          (sym (ap (λ x. x.0) run_of) ∙ h) in
      let left : select mine t.reset_tokens ≡ used r ∷ [] =
        ap (λ x. select mine x.1.reset_tokens) run_of
        ∙ ap (select mine) rows
        ∙ select-marked mine (λ y. y.id == r.id) used (λ x. refl) s.reset_tokens
        ∙ ap (update_where (λ y. y.id == r.id) used) only
        ∙ marked_row r in
      ap (λ x. x.0) (reset_runs later password' t)
      ∙ ap (λ xs. (checked later password' xs (password_strength password') t).0) left
      ∙ used_is_refused later password' r (password_strength password') t

-- ===== src/AdminAccess/Expiry.antt =====
-- What a run of the worker leaves undone.
use mdm_saa_s.Common.{
  ℕ, ◌≡◌, refl, ap, ◌∙◌, Bool, true, false, ◌⊎◌, Option, none, some, List, [], ◌∷◌, select, All,
  Bool-cases, inl, inr, if◌then◌else◌, truthy, update_where, some_is, eq_refl,
}
use mdm_saa_s.Models.{DeviceUser, AdminAccessRequest}
use mdm_saa_s.Database.{Db, Result, ok, ◌>>◌}
use mdm_saa_s.Apple.Commands.{make_command, make_user_list_command}
use mdm_saa_s.AdminAccess.Requests.{has_request_id, device_user_of, revoked, queue_change}
use mdm_saa_s.AdminAccess.AutoRevoke.{is_due, revoke_grant, revoke_all, run_once}

-- The user of a grant is stored, with a name that is not empty.
abbrev pub has_name : Option DeviceUser → Bool
has_name o = some_is (λ u. truthy u.short_name) o

abbrev Among : AdminAccessRequest → List AdminAccessRequest → Type 0
Among r [] = ⊥
Among r (x ∷ xs) = (r ≡ x) ⊎ Among r xs

All-weaken :
    {A : Type 0} (P Q : A → Type 0) → ((x : A) → P x → Q x) → (xs : List A) → All P xs → All Q xs
All-weaken P Q k [] h = tt
All-weaken P Q k (x ∷ xs) (p, h) = (k x p, All-weaken P Q k xs h)

module _ (now : ℕ) where
  -- A row is due only if the loop still comes to it, or its user has no name.
  abbrev Pending : Db → List AdminAccessRequest → AdminAccessRequest → Type 0
  Pending s reqs r = is_due now r ≡ true → Among r reqs ⊎ (has_name (device_user_of r s) ≡ false)

  selected :
      (p : AdminAccessRequest → Bool) (rs : List AdminAccessRequest)
      → All (λ r. p r ≡ true → Among r (select p rs)) rs
  selected p [] = tt
  selected p (x ∷ xs) = elim (Bool-cases (p x)) [
    | inl e ↦
        ((λ h. rw e (inl refl)), All-weaken _ _ (λ r k h. rw e (inr (k h))) xs (selected p xs))
    | inr e ↦ ((λ h. absurd (cc (e, h))), All-weaken _ _ (λ r k h. rw e (k h)) xs (selected p xs))
  ]

  -- One turn of the loop.
  update_hit :
      (s : Db) (req : AdminAccessRequest) (reqs rs : List AdminAccessRequest)
      → All (Pending s (req ∷ reqs)) rs
      → All (Pending s reqs) (update_where (has_request_id req.id) (revoked now) rs)
  unfolding revoked
  update_hit s req reqs [] h = tt
  update_hit s req reqs (x ∷ xs) (k, h) =
      (row (Bool-cases (has_request_id req.id x)), update_hit s req reqs xs h)
    where
      row :
          (has_request_id req.id x ≡ true) ⊎ (has_request_id req.id x ≡ false)
          → Pending s reqs (if has_request_id req.id x then revoked now x else x)
      row (inl e) = rw e (λ d. absurd (cc))
      row (inr e) = rw e (λ d. elim (k d) [
        | inl (inl same) ↦ absurd (cc (e, same, eq_refl req.id))
        | inl (inr more) ↦ inl more
        | inr u ↦ inr u
      ])

  drop_nameless :
      (s : Db) (req : AdminAccessRequest) (reqs rs : List AdminAccessRequest)
      → has_name (device_user_of req s) ≡ false
      → All (Pending s (req ∷ reqs)) rs
      → All (Pending s reqs) rs
  drop_nameless s req reqs rs e h =
      All-weaken (Pending s (req ∷ reqs)) (Pending s reqs)
        (λ r k d. elim (k d) [
          | inl (inl same) ↦ inr (ap (λ x. has_name (device_user_of x s)) same ∙ e)
          | inl (inr more) ↦ inl more
          | inr u ↦ inr u
        ])
        rs h

  -- A run that returns, after which a grant that is due has a user without a name.
  abbrev pub NothingDue : Result Unit × Db → Type 0
  NothingDue x =
      (x.0 ≡ ok tt)
      × All (λ r. is_due now r ≡ true → has_name (device_user_of r x.1) ≡ false) x.1.requests

  turn_clears :
      (req : AdminAccessRequest) (reqs : List AdminAccessRequest) (s : Db) (o : Option DeviceUser)
      → ((t : Db) → All (Pending t reqs) t.requests → NothingDue (revoke_all now reqs t))
      → device_user_of req s ≡ o
      → All (Pending s (req ∷ reqs)) s.requests
      → NothingDue ((revoke_grant now req o >> revoke_all now reqs) s)
  unfolding revoke_grant queue_change make_user_list_command make_command
  turn_clears req reqs s none k e h = k s (drop_nameless s req reqs s.requests (ap has_name e) h)
  turn_clears req reqs s (some u) k e h = elim (Bool-cases (truthy u.short_name)) [
    | inl t ↦ rw t (k _ (update_hit s req reqs s.requests h))
    | inr t ↦ rw t (k s (drop_nameless s req reqs s.requests (ap has_name e ∙ t) h))
  ]

  loop_clears :
      (reqs : List AdminAccessRequest) (s : Db)
      → All (Pending s reqs) s.requests
      → NothingDue (revoke_all now reqs s)
  unfolding revoke_all
  loop_clears [] s h =
      (refl, All-weaken _ _ (λ r k d. elim (k d) [ inl e ↦ absurd e | inr u ↦ u ]) s.requests h)
  loop_clears (req ∷ reqs) s h =
      turn_clears req reqs s (device_user_of req s) (loop_clears reqs) refl h

  -- A run of the worker returns, and afterwards every approved grant whose time is over belongs to a user
  -- who is not stored or has an empty name.
  pub run_clears_due : (s : Db) → NothingDue (run_once now s)
  unfolding run_once
  run_clears_due s =
      loop_clears (select (is_due now) s.requests) s
        (All-weaken _ _ (λ r k d. inl (k d)) s.requests (selected (is_due now) s.requests))

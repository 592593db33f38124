-- ===== src/Agent/Delivery.antt =====
-- What polling for jobs and posting their results keep.
use mdm_saa_s.Common.{
  ℕ, zero, suc, ◌+◌, ◌≤◌, ◌≡◌, refl, ap, String, Bool, false, ◌&&◌, Option, none, some, List, [],
  ◌∷◌, ◌=ℕ◌, ◌==◌, arith, All, All-update_where, Bool-cases, inl, inr, select, take, length, count,
  get_or, update_where, length-take_le, if◌then◌else◌,
}
use mdm_saa_s.Models.{Device, ScriptJob, JobStatus}
use mdm_saa_s.Database.{Db, ok, Action, pure, raise, gets, lift, http, one_or_none, ◌>>=◌, ◌>>◌}
use mdm_saa_s.Database.Keeps.{Keeps, Keeps-bind, Keeps-gets, Keeps-lift, Keeps-raise}
use mdm_saa_s.Agent.Jobs.{
  AgentJobResponse, JobResultBody, is_job_of, is_waiting, batch_size, on_jobs, start_first,
  responses, poll_jobs, output_limit, prefix, finished, post_job_result,
}

abbrev running : ScriptJob → ScriptJob
running j = record j { status = JobStatus.running }

-- A job that was handed out no longer waits.
no_longer_waiting : (device : Device) (j : ScriptJob) → is_waiting device (running j) ≡ false
no_longer_waiting device j = elim (Bool-cases (is_job_of device j)) [
  | inl e ↦ rw e refl
  | inr e ↦ rw e refl
]

handed_out :
    (p : ScriptJob → Bool)
    → ((j : ScriptJob) → p (running j) ≡ false)
    → (n : ℕ) (js : List ScriptJob)
    → length (take n (select p js)) + count p (start_first n p js) ≡ count p js
unfolding start_first
handed_out p k zero js = omega arith
handed_out p k (suc n) [] = refl
handed_out p k (suc n) (j ∷ js) = elim (Bool-cases (p j)) [
  | inl e ↦ rw (e, start_first, k j) (omega (arith, handed_out p k n js))
  | inr e ↦ rw (e, start_first, e) (omega (arith, handed_out p k (suc n) js))
]

length-responses : (js : List ScriptJob) → length (responses js) ≡ length js
length-responses [] = refl
length-responses (j ∷ js) = ap suc (length-responses js)

-- A poll returns; it hands out ten jobs at most, and the jobs that wait for the device afterwards are as
-- many as before, less those that were handed out.
pub poll_hands_out :
    (device : Device) (s : Db)
    → (xs : List AgentJobResponse) × (((poll_jobs device s).0 ≡ ok xs)
        × (length xs ≤ batch_size)
        × (length xs + count (is_waiting device) (poll_jobs device s).1.script_jobs
            ≡ count (is_waiting device) s.script_jobs))
unfolding poll_jobs
poll_hands_out device s =
    let jobs = take batch_size (select (is_waiting device) s.script_jobs) in
    let same = length-responses jobs in
    (
      responses jobs,
      (
        refl,
        (omega (arith, same, length-take_le batch_size (select (is_waiting device) s.script_jobs))),
        (omega (
          arith,
          same,
          handed_out (is_waiting device) (no_longer_waiting device) batch_size s.script_jobs,
        )),
      ),
    )

unfoldable pub text_length : String → ℕ
text_length String.[] = 0
text_length (String.◌∷◌ c s) = suc (text_length s)

length-prefix_le : (n : ℕ) (s : String) → text_length (prefix n s) ≤ n
unfolding prefix text_length
length-prefix_le zero s = omega arith
length-prefix_le (suc n) String.[] = omega arith
length-prefix_le (suc n) (String.◌∷◌ c s) = omega (arith, length-prefix_le n s)

-- Both outputs of a job, where they are there, have at most 65536 characters.
abbrev pub IsBounded : ScriptJob → Type 0
IsBounded j =
    (text_length (get_or j.stdout "") ≤ output_limit)
    × (text_length (get_or j.stderr "") ≤ output_limit)

abbrev pub HasBoundedOutput : Db → Type 0
HasBoundedOutput s = All IsBounded s.script_jobs

finished-IsBounded :
    (now : ℕ) (body : JobResultBody) (j : ScriptJob) → IsBounded (finished now body j)
unfolding finished
finished-IsBounded now body j = (
  length-prefix_le output_limit (get_or body.stdout ""),
  length-prefix_le output_limit (get_or body.stderr ""),
)

module _ (now : ℕ) (body : JobResultBody) where
  finish : Option ScriptJob → Action JobStatus
  finish none = raise (http 404)
  finish (some j) = do
    on_jobs (update_where (λ k. k.id == j.id) (finished now body))
    pure (if body.exit_code =ℕ 0 then JobStatus.completed else JobStatus.failed)

  finish-Keeps : (o : Option ScriptJob) → Keeps HasBoundedOutput (finish o)
  unfolding finish
  finish-Keeps none = Keeps-raise HasBoundedOutput (http 404)
  finish-Keeps (some j) = record {
    at = λ s h.
        All-update_where IsBounded (λ k. k.id == j.id) (finished now body) s.script_jobs
          (λ x _ _. finished-IsBounded now body x) h;
  }

-- Posting a result keeps the bound on every output, whether the handler returns or raises.
pub post_result_bounded :
    (now : ℕ) (job_id : String) (body : JobResultBody) (device : Device) (s : Db)
    → HasBoundedOutput s
    → HasBoundedOutput (post_job_result now job_id body device s).1
unfolding post_job_result finish
post_result_bounded now job_id body device s h =
    (Keeps-bind HasBoundedOutput
        (gets (λ t. select (λ j. j.id == job_id && is_job_of device j) t.script_jobs))
        (λ found. lift (one_or_none found) >>= finish now body) (Keeps-gets HasBoundedOutput _)
        (λ found.
          Keeps-bind HasBoundedOutput (lift (one_or_none found)) (finish now body)
            (Keeps-lift HasBoundedOutput (one_or_none found)) (finish-Keeps now body))).at
      s h

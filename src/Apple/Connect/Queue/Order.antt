-- ===== src/Apple/Connect/Queue/Order.antt =====
-- Which command the device receives, and what is left in its queue.
use mathlib.Core.Path.{subst}
use mathlib.Core.Option.{some-injective}
use mdm_saa_s.Common.{
  ℕ, zero, suc, ◌+◌, ◌≤◌, String, true, not, ◌≡◌, refl, sym, ap, ◌↔◌, ◌∙◌, Option, none, some, List,
  [], ◌∷◌, ◌==◌, arith, inl, inr, Bool-cases, Option-cases, All, any, length, select, least,
  least-none, least_le, All-least, eq_iff, ltb, smaller,
}
use mdm_saa_s.Models.{Device, MdmCommand, CommandState}
use mdm_saa_s.Database.{Db, Result, ok}
use mdm_saa_s.Apple.Connect.Queue.{
  is_of_udid, is_waiting, waiting, mark_sent, deliver, get_next_command,
}

All-waiting :
    (devices : List Device) (udid : String) (cs : List MdmCommand)
    → All (λ c. is_waiting devices udid c ≡ true) (select (is_waiting devices udid) cs)
All-waiting devices udid [] = tt
All-waiting devices udid (c ∷ cs) = elim (Bool-cases (is_waiting devices udid c)) [
  | inl e ↦ rw e (e, All-waiting devices udid cs)
  | inr e ↦ rw e (All-waiting devices udid cs)
]

abbrev queued_at : MdmCommand → ℕ
queued_at c = c.queued_at

is_waiting_iff :
    (devices : List Device) (udid : String) (c : MdmCommand)
    → is_waiting devices udid c ≡ true
    → (is_of_udid devices udid c ≡ true) × (c.status ≡ CommandState.queued)
is_waiting_iff devices udid c h = ground arith

module _ (udid : String) (s : Db) where
  selected :
      (c : MdmCommand)
      → (get_next_command udid s).0 ≡ ok (some c)
      → least queued_at (waiting udid s) ≡ some c
  unfolding get_next_command
  selected c h = ground arith

  -- What a device receives is one of its queued commands, and none of those was queued before it.
  pub next_command_oldest :
      (c : MdmCommand)
      → (get_next_command udid s).0 ≡ ok (some c)
      → (is_of_udid s.devices udid c ≡ true)
        × (c.status ≡ CommandState.queued)
        × All (λ x. c.queued_at ≤ x.queued_at) (waiting udid s)
  next_command_oldest c h =
      let e = selected c h in
      let mine =
        All-least queued_at (λ x. is_waiting s.devices udid x ≡ true) (waiting udid s) c e
          (All-waiting s.devices udid s.commands) in
      let (of_udid, queued) = is_waiting_iff s.devices udid c mine in
      (of_udid, queued, least_le queued_at (waiting udid s) c e)

  -- The device is told to be idle exactly when none of its commands is queued.
  next_command_idle : ((get_next_command udid s).0 ≡ ok none) ↔ (waiting udid s ≡ [])
  unfolding get_next_command least
  next_command_idle = (
    λ h. least-none queued_at (waiting udid s) (ground arith),
    λ e. ap (λ o. (deliver o s).0) (ap (least queued_at) e),
  )

-- The queue after the update: the commands with another identifier.
waiting-mark_sent :
    (devices : List Device) (udid id : String) (cs : List MdmCommand)
    → select (is_waiting devices udid) (mark_sent id cs)
      ≡ select (λ x. not (x.id == id)) (select (is_waiting devices udid) cs)
waiting-mark_sent devices udid id [] = refl
waiting-mark_sent devices udid id (c ∷ cs) = ground (arith, waiting-mark_sent devices udid id cs)

length-without_le :
    (id : String) (xs : List MdmCommand) → length (select (λ x. not (x.id == id)) xs) ≤ length xs
length-without_le id [] = omega arith
length-without_le id (x ∷ xs) = ground (arith, length-without_le id xs)

-- A command that is in the queue does not stay there.
length-without_lt :
    (xs : List MdmCommand) (c : MdmCommand)
    → least queued_at xs ≡ some c
    → length (select (λ x. not (x.id == c.id)) xs) + 1 ≤ length xs
unfolding least
length-without_lt [] c h = absurd (cc)
length-without_lt (x ∷ []) c h = ground (arith, eq_iff x.id c.id)
length-without_lt (x ∷ y ∷ ys) c h =
    let z : MdmCommand = smaller queued_at y (least queued_at ys) in
    elim (Bool-cases (ltb z.queued_at x.queued_at)) [
      | inl e ↦ let later = length-without_lt (y ∷ ys) c (rw e at h) in ground (arith, later)
      | inr e ↦
          let same : x ≡ c = some-injective _ _ (rw e at h) in
          ground (
            arith,
            length-without_le c.id (y ∷ ys),
            eq_iff x.id c.id,
            ap (λ (m : MdmCommand). m.id) same,
          )
    ]

module _ (udid : String) (s : Db) where
  -- Delivering a command takes it out of the queue and leaves the others there, in their order.
  pub waiting-get_next_command :
      (c : MdmCommand)
      → (get_next_command udid s).0 ≡ ok (some c)
      → waiting udid (get_next_command udid s).1 ≡ select (λ x. not (x.id == c.id)) (waiting udid s)
  unfolding get_next_command
  waiting-get_next_command c h =
      ap (λ o. waiting udid (deliver o s).1) (selected udid s c h)
      ∙ waiting-mark_sent s.devices udid c.id s.commands

-- The command of an answer, before the commands of later answers.
abbrev reply : Result (Option MdmCommand) → List MdmCommand → List MdmCommand
reply (ok (some c)) cs = c ∷ cs
reply _ cs = cs

-- A device that polls `n` times: the commands that it receives, and the state after that.
unfoldable pub poll : ℕ → String → Db → List MdmCommand × Db
poll zero udid s = ([], s)
poll (suc n) udid s =
    let (r, s') = get_next_command udid s in let (later, t) = poll n udid s' in (reply r later, t)

length_zero {ℓ} : {A : Type ℓ} (xs : List A) → length xs ≤ 0 → xs ≡ []
length_zero [] h = refl
length_zero (x ∷ xs) h = absurd (omega arith)

module _ (udid : String) where
  shorter :
      (s : Db) (n : ℕ)
      → length (waiting udid s) ≤ suc n
      → length (waiting udid (get_next_command udid s).1) ≤ n
  unfolding get_next_command
  shorter s n h = elim (Option-cases (least queued_at (waiting udid s))) [
    | inl e ↦
        let empty = least-none queued_at (waiting udid s) e in
        let same = ap (λ o. length (waiting udid (deliver o s).1)) e in
        omega (arith, same, ap (λ (xs : List MdmCommand). length xs) empty)
    | inr (c, e) ↦
        let told = ap (λ o. (deliver o s).0) e in
        let left =
          ap (λ (xs : List MdmCommand). length xs) (waiting-get_next_command udid s c told) in
        omega (arith, left, length-without_lt (waiting udid s) c e)
  ]

  -- A command with the identifier is among the received ones.
  abbrev Receives : List MdmCommand → MdmCommand → Type 0
  Receives rs c = any (λ x. x.id == c.id) rs ≡ true

  -- What is received now and what is received of the others.
  received_again :
      (d : MdmCommand) (rs cs : List MdmCommand)
      → All (Receives rs) (select (λ x. not (x.id == d.id)) cs)
      → All (Receives (d ∷ rs)) cs
  received_again d rs [] h = tt
  received_again d rs (c ∷ cs) h = elim (Bool-cases (c.id == d.id)) [
    | inl e ↦
        let same : (d.id == c.id) ≡ true = (eq_iff d.id c.id).1 (sym ((eq_iff c.id d.id).0 e)) in
        (rw same refl, received_again d rs cs (rw e at h))
    | inr e ↦
        let (p, k) : Receives rs c × All (Receives rs) (select (λ x. not (x.id == d.id)) cs) =
          rw e at h in
        (ground (arith, p), received_again d rs cs k)
  ]

  -- One answer, where the later ones cover what it leaves in the queue.
  received_first :
      (s : Db) (rs : List MdmCommand)
      → All (Receives rs) (waiting udid (get_next_command udid s).1)
      → All (Receives (reply (get_next_command udid s).0 rs)) (waiting udid s)
  unfolding get_next_command
  received_first s rs h = elim (Option-cases (least queued_at (waiting udid s))) [
    | inl e ↦
        subst (All (Receives (reply (get_next_command udid s).0 rs)))
          (sym (least-none queued_at (waiting udid s) e)) tt
    | inr (c, e) ↦
        let told : (get_next_command udid s).0 ≡ ok (some c) = ap (λ o. (deliver o s).0) e in
        subst (λ r. All (Receives (reply r rs)) (waiting udid s)) (sym told)
          (received_again c rs (waiting udid s)
            (subst (All (Receives rs)) (waiting-get_next_command udid s c told) h))
  ]

  -- A device that polls at least as often as it has queued commands receives, for each of them, a command with
  -- its identifier, and none of its commands is queued any more.
  pub poll_drains :
      (n : ℕ) (s : Db)
      → length (waiting udid s) ≤ n
      → All (λ c. any (λ x. x.id == c.id) (poll n udid s).0 ≡ true) (waiting udid s)
        × (waiting udid (poll n udid s).1 ≡ [])
  unfolding poll
  poll_drains zero s h =
      let none_left = length_zero (waiting udid s) h in
      (subst (All (Receives [])) (sym none_left) tt, none_left)
  poll_drains (suc n) s h =
      let s' = (get_next_command udid s).1 in
      let (all, left) = poll_drains n s' (shorter s n h) in
      (received_first s (poll n udid s').0 all, left)

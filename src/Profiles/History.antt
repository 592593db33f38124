-- ===== src/Profiles/History.antt =====
-- The versions of a profile are numbered 1, 2, 3, …
use mathlib.Core.Path.{subst}
use mdm_saa_s.Common.{
  ℕ, zero, suc, ◌+◌, ◌≤◌, ◌≡◌, refl, sym, ap, ◌∙◌, String, Option, none, some, List, [], ◌∷◌, ◌++◌,
  ◌==◌, inl, inr, ltb, select, delete_where, update_where, All, Bool-cases, arith, if◌then◌else◌,
  eq_iff,
}
use mdm_saa_s.Models.{Tenant, User, Profile, ProfileVersion, Payload}
use mdm_saa_s.Database.{Db, Action, http, pure, raise, lift, one_or_none, ◌>>=◌, ◌>>◌}
use mdm_saa_s.Database.Laws.{bind-pure}
use mdm_saa_s.Profiles.Versions.{
  current_max, add_version, write_update, erase_profile, create_profile, update_profile, renamed,
  repacked, is_profile_of, delete_profile, get_profile,
}

-- The numbers of a profile's versions, in the order in which they were written.
unfoldable pub numbers : String → List ProfileVersion → List ℕ
numbers id [] = []
numbers id (v ∷ vs) =
    let rest = numbers id vs in if v.profile_id == id then v.version ∷ rest else rest

-- 1, 2, …, n
unfoldable pub up_to : ℕ → List ℕ
up_to zero = []
up_to (suc n) = up_to n ++ suc n ∷ []

unfoldable greatest : List ℕ → ℕ
greatest [] = 0
greatest (n ∷ ns) = let m = greatest ns in if ltb m n then n else m

current_max-greatest :
    (id : String) (vs : List ProfileVersion) → current_max id vs ≡ greatest (numbers id vs)
unfolding current_max greatest numbers
current_max-greatest id [] = refl
current_max-greatest id (v ∷ vs) = ground (arith, current_max-greatest id vs)

greatest-snoc : (ns : List ℕ) (n : ℕ) → greatest ns ≤ n → greatest (ns ++ n ∷ []) ≡ n
unfolding greatest
greatest-snoc [] n h = ground arith
greatest-snoc (x ∷ ns) n h = ground (arith, greatest-snoc ns n)

greatest-up_to : (n : ℕ) → greatest (up_to n) ≡ n
unfolding greatest up_to
greatest-up_to zero = refl
greatest-up_to (suc n) = greatest-snoc (up_to n) (suc n) (omega (arith, greatest-up_to n))

numbers-snoc :
    (id : String) (vs : List ProfileVersion) (v : ProfileVersion)
    → numbers id (vs ++ v ∷ [])
      ≡ (if v.profile_id == id then numbers id vs ++ v.version ∷ [] else numbers id vs)
unfolding numbers
numbers-snoc id [] v = ground arith
numbers-snoc id (x ∷ vs) v = ground (arith, numbers-snoc id vs v)

numbers-deleted :
    (id gone : String) (vs : List ProfileVersion)
    → numbers id (delete_where (λ v. v.profile_id == gone) vs)
      ≡ (if id == gone then [] else numbers id vs)
unfolding numbers
numbers-deleted id gone [] = ground arith
numbers-deleted id gone (v ∷ vs) = elim (Bool-cases (v.profile_id == id)) [
  | inl e ↦
      let same : (v.profile_id == gone) ≡ (id == gone) =
        ap (λ i. i == gone) ((eq_iff v.profile_id id).0 e) in
      ground (arith, numbers-deleted id gone vs)
  | inr e ↦ ground (arith, numbers-deleted id gone vs)
]

-- For every profile, the numbers are 1, 2, …, n for some n.
abbrev pub HasHistory : List ProfileVersion → Type 0
HasHistory vs = (id : String) → (n : ℕ) × (numbers id vs ≡ up_to n)

-- A version with the number after the greatest one goes on with the history.
next-HasHistory :
    (vs : List ProfileVersion) (v : ProfileVersion)
    → HasHistory vs
    → v.version ≡ current_max v.profile_id vs + 1
    → HasHistory (vs ++ v ∷ [])
unfolding up_to
next-HasHistory vs v h e id =
    let (n, k) = h id in
    elim (Bool-cases (v.profile_id == id)) [
      | inl y ↦
          let same : v.profile_id ≡ id = (eq_iff v.profile_id id).0 y in
          let number : v.version ≡ suc n =
            e
            ∙ ap (λ i. current_max i vs + 1) same
            ∙ ap (λ m. m + 1) (current_max-greatest id vs ∙ ap greatest k ∙ greatest-up_to n)
            ∙ omega arith in
          (
            suc n,
            numbers-snoc id vs v
                ∙ ap (λ b. if b then numbers id vs ++ v.version ∷ [] else numbers id vs) y
                ∙ ap (λ ns. ns ++ v.version ∷ []) k
                ∙ ap (λ m. up_to n ++ m ∷ []) number,
          )
      | inr y ↦ (
        n,
        numbers-snoc id vs v
            ∙ ap (λ b. if b then numbers id vs ++ v.version ∷ [] else numbers id vs) y
            ∙ k,
      )
    ]

deleted-HasHistory :
    (gone : String) (vs : List ProfileVersion)
    → HasHistory vs
    → HasHistory (delete_where (λ v. v.profile_id == gone) vs)
unfolding up_to
deleted-HasHistory gone vs h id =
    let (n, k) = h id in
    elim (Bool-cases (id == gone)) [
      | inl y ↦ (0, numbers-deleted id gone vs ∙ ap (λ b. if b then [] else numbers id vs) y)
      | inr y ↦ (n, numbers-deleted id gone vs ∙ ap (λ b. if b then [] else numbers id vs) y ∙ k)
    ]

module _ (now : ℕ) (tenant : Tenant) (user : User) where
  add_version-HasHistory :
      (id : String) (n : ℕ) (payload : Payload) (change_note : Option String) (s : Db)
      → HasHistory s.profile_versions
      → n ≡ current_max id s.profile_versions + 1
      → HasHistory (add_version now tenant user id n payload change_note s).1.profile_versions
  unfolding add_version
  add_version-HasHistory id n payload change_note s h e = next-HasHistory s.profile_versions _ h e

  create_profile-HasHistory :
      (name kind platform : String) (payload : Payload) (s : Db)
      → numbers (s.uuids s.drawn) s.profile_versions ≡ []
      → HasHistory s.profile_versions
      → HasHistory (create_profile now tenant user name kind platform payload s).1.profile_versions
  unfolding create_profile add_version greatest
  create_profile-HasHistory name kind platform payload s fresh h =
      next-HasHistory s.profile_versions _ h (
        sym (
          ap (λ m. m + 1)
            (current_max-greatest (s.uuids s.drawn) s.profile_versions ∙ ap greatest fresh)))

  module _ (id : String) where
    -- Every selected profile has the identifier.
    selected-id : (ps : List Profile) → All (λ p. p.id ≡ id) (select (is_profile_of id tenant) ps)
    selected-id [] = tt
    selected-id (p ∷ ps) = elim (Bool-cases (p.id == id)) [
      | inl e ↦ let same : p.id ≡ id = (eq_iff p.id id).0 e in ground (arith, selected-id ps)
      | inr e ↦ ground (arith, selected-id ps)
    ]

    -- The rest of a handler after the lookup of the profile.
    found-HasHistory :
        {A : Type 0} (f : Profile → Action A) (s : Db)
        → HasHistory s.profile_versions
        → ((p : Profile) → p.id ≡ id → HasHistory (f p s).1.profile_versions)
        → HasHistory ((get_profile id tenant >>= f) s).1.profile_versions
    unfolding get_profile
    found-HasHistory {A = A} f s h k =
        go (select (is_profile_of id tenant) s.profiles) (selected-id s.profiles)
      where
        go :
            (ps : List Profile)
            → All (λ p. p.id ≡ id) ps
            → HasHistory
                (((lift (one_or_none ps) >>= λ x. elim x as (λ _. Action Profile) [
                  | none ↦ raise (http 404)
                  | some p ↦ pure p
                ])
                    >>= f)
                  s).1.profile_versions
        go [] a = h
        go (p ∷ []) a = k p a.0
        go (p ∷ q ∷ ps) a = h

    update_profile-HasHistory :
        (name : Option String) (payload : Option Payload) (change_note : Option String) (s : Db)
        → HasHistory s.profile_versions
        → HasHistory
            (update_profile now tenant user id name payload change_note s).1.profile_versions
    unfolding update_profile write_update
    update_profile-HasHistory name payload change_note s h =
        found-HasHistory (write_update now tenant user id name payload change_note) s h (λ p e.
          add_version-HasHistory p.id (current_max id s.profile_versions + 1)
            (repacked payload (renamed name p)).payload change_note
            (record s {
              profiles =
                  update_where (λ x. x.id == p.id) (λ _. repacked payload (renamed name p))
                    s.profiles;
            })
            h (ap (λ i. current_max i s.profile_versions + 1) (sym e)))

    delete_profile-HasHistory :
        (s : Db)
        → HasHistory s.profile_versions
        → HasHistory (delete_profile tenant id s).1.profile_versions
    unfolding delete_profile erase_profile
    delete_profile-HasHistory s h =
        found-HasHistory (λ _. erase_profile tenant id) s h
          (λ p e. deleted-HasHistory id s.profile_versions h)

abbrev Kept : Db → Type 0
Kept s = HasHistory s.profile_versions

-- The requests that change profiles.
pub data ProfileRequest : Type 0 where
  create : String → String → String → Payload → ProfileRequest
  update : String → Option String → Option Payload → Option String → ProfileRequest
  delete : String → ProfileRequest

unfoldable pub handle_request : ℕ → Tenant → User → ProfileRequest → Action Unit
unfolding create_profile update_profile delete_profile
handle_request now tenant user (create name kind platform payload) =
    create_profile now tenant user name kind platform payload >> pure tt
handle_request now tenant user (update id name payload change_note) =
    update_profile now tenant user id name payload change_note >> pure tt
handle_request now tenant user (delete id) = delete_profile tenant id

-- Where the versions of every profile are numbered 1, 2, …, n, and the identifier that is drawn next is of no
-- profile with versions, that is so after any request to create, update or delete a profile.
pub handle_request-HasHistory :
    (now : ℕ) (tenant : Tenant) (user : User) (request : ProfileRequest) (s : Db)
    → numbers (s.uuids s.drawn) s.profile_versions ≡ []
    → HasHistory s.profile_versions
    → HasHistory (handle_request now tenant user request s).1.profile_versions
unfolding handle_request
handle_request-HasHistory now tenant user (create name kind platform payload) s fresh h =
    subst Kept
      (sym (bind-pure (create_profile now tenant user name kind platform payload) (λ _. tt) s))
      (create_profile-HasHistory now tenant user name kind platform payload s fresh h)
handle_request-HasHistory now tenant user (update id name payload change_note) s fresh h =
    subst Kept
      (sym (bind-pure (update_profile now tenant user id name payload change_note) (λ _. tt) s))
      (update_profile-HasHistory now tenant user id name payload change_note s h)
handle_request-HasHistory now tenant user (delete id) s fresh h =
    delete_profile-HasHistory now tenant user id s h

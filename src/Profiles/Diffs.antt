-- ===== src/Profiles/Diffs.antt =====
-- The difference of two versions, applied to the older one, gives the newer one.
use mdm_saa_s.Common.{
  ◌≡◌, refl, sym, ap, ◌∙◌, String, true, false, Bool, Option, none, some, List, [], ◌∷◌, map, ◌==◌,
  inl, inr, any, is_some, get_or, Bool-cases, Option-cases, arith, if◌then◌else◌, eq_iff, eq_refl,
  Distinct,
}
use mdm_saa_s.Models.{Payload}
use mdm_saa_s.Profiles.Versions.{value_at, Diff, only_in, differing, payload_diff}

-- The new value of a key that has changed.
unfoldable pub change_at : String → List (String × List String × List String) → Option (List String)
change_at key [] = none
change_at key ((k, old, new) ∷ cs) = if k == key then some new else change_at key cs

-- What a reader of a difference does with it.
unfoldable pub apply_diff : Diff → Payload → Payload
unfolding value_at change_at
apply_diff d [] = d.added
apply_diff d ((k, v) ∷ es) =
    let rest = apply_diff d es in
    if is_some (value_at k d.removed) then rest else (k, get_or (change_at k d.changed) v) ∷ rest

value_at-only_in :
    (key : String) (a b : Payload)
    → value_at key (only_in a b) ≡ (if is_some (value_at key b) then none else value_at key a)
unfolding value_at only_in
value_at-only_in key [] b = ground arith
value_at-only_in key ((k, v) ∷ a) b = elim (Bool-cases (k == key)) [
  | inl e ↦
      let same : value_at k b ≡ value_at key b = ap (λ x. value_at x b) ((eq_iff k key).0 e) in
      ground (arith, value_at-only_in key a b)
  | inr e ↦ ground (arith, value_at-only_in key a b)
]

-- A key that is not there before stays away unless it is added.
value_at-apply_new :
    (key : String) (d : Diff) (prev : Payload)
    → value_at key prev ≡ none
    → value_at key (apply_diff d prev) ≡ value_at key d.added
unfolding value_at apply_diff
value_at-apply_new key d [] h = refl
value_at-apply_new key d ((k, v) ∷ prev) h = elim (Bool-cases (k == key)) [
  | inl e ↦ absurd (ground arith)
  | inr e ↦ ground (arith, value_at-apply_new key d prev)
]

value_at-apply_old :
    (key : String) (d : Diff) (prev : Payload) (w : List String)
    → value_at key prev ≡ some w
    → value_at key (apply_diff d prev) ≡ (
        if is_some (value_at key d.removed)
        then value_at key d.added
        else some (get_or (change_at key d.changed) w))
unfolding value_at apply_diff
value_at-apply_old key d [] w h = absurd (cc)
value_at-apply_old key d ((k, v) ∷ prev) w h = elim (Bool-cases (k == key)) [
  | inl e ↦
      let gone : value_at k d.removed ≡ value_at key d.removed =
        ap (λ x. value_at x d.removed) ((eq_iff k key).0 e) in
      let new : change_at k d.changed ≡ change_at key d.changed =
        ap (λ x. change_at x d.changed) ((eq_iff k key).0 e) in
      elim (Option-cases (value_at key prev)) [
        | inl n ↦ ground (arith, value_at-apply_new key d prev n)
        | inr (x, n) ↦ ground (arith, value_at-apply_old key d prev x n)
      ]
  | inr e ↦ ground (arith, value_at-apply_old key d prev w)
]

flip : (a b : String) → (a == b) ≡ false → (b == a) ≡ false
flip a b h = elim (Bool-cases (b == a)) [
  | inl e ↦
      let same : (a == b) ≡ (a == a) = ap (λ x. a == x) ((eq_iff b a).0 e) in
      absurd (ground (arith, eq_refl a))
  | inr e ↦ e
]

-- Both have no value, or both have one and the two are equal.
abbrev pub agree :
    (List String → List String → Bool) → Option (List String) → Option (List String) → Bool
agree equal none none = true
agree equal (some v) (some w) = equal v w
agree equal _ _ = false

module _ (equal : List String → List String → Bool) where
  -- A key that is not among the keys has no value and has not changed.
  no_key :
      (key : String) (curr prev : Payload)
      → any (λ y. key == y) (map (λ e. e.0) curr) ≡ false
      → (value_at key curr ≡ none) × (change_at key (differing equal curr prev) ≡ none)
  unfolding value_at differing change_at
  no_key key [] prev h = (refl, refl)
  no_key key ((k, v) ∷ curr) prev h = elim (Bool-cases (key == k)) [
    | inl e ↦ absurd (ground arith)
    | inr e ↦ ground (arith, flip key k e, no_key key curr prev)
  ]

  module _ (reflexive : (v : List String) → equal v v ≡ true) where
    change_at-differing :
        (key : String) (curr prev : Payload) (v w : List String)
        → Distinct (map (λ e. e.0) curr)
        → value_at key curr ≡ some v
        → value_at key prev ≡ some w
        → equal v (get_or (change_at key (differing equal curr prev)) w) ≡ true
    unfolding value_at differing change_at
    change_at-differing key [] prev v w d h k = absurd (cc)
    change_at-differing key ((x, y) ∷ curr) prev v w (n, d) h k = elim (Bool-cases (x == key)) [
      | inl e ↦
          let same : value_at x prev ≡ some w =
            ap (λ i. value_at i prev) ((eq_iff x key).0 e) ∙ k in
          let away : any (λ i. key == i) (map (λ e. e.0) curr) ≡ false =
            ap (λ i. any (λ j. i == j) (map (λ e. e.0) curr)) (sym ((eq_iff x key).0 e)) ∙ n in
          ground (arith, (no_key key curr prev away).1, reflexive v)
      | inr e ↦ ground (arith, change_at-differing key curr prev v w d)
    ]

    agrees : (o : Option (List String)) → agree equal o o ≡ true
    agrees none = refl
    agrees (some v) = reflexive v

    -- Where the newer object has no key twice, and every value is equal to itself, applying the difference to the
    -- older object gives, at every key, what Python takes for equal to what the newer object has there, or nothing
    -- where that has nothing.
    pub diff_round_trip :
        (prev curr : Payload) (key : String)
        → Distinct (map (λ e. e.0) curr)
        → agree equal
            (value_at key curr)
            (value_at key (apply_diff (payload_diff equal prev curr) prev))
          ≡ true
    unfolding payload_diff
    diff_round_trip prev curr key d =
        let diff = payload_diff equal prev curr in
        elim (Option-cases (value_at key prev)) [
          | inl n ↦
              let same =
                value_at-apply_new key diff prev n
                ∙ value_at-only_in key curr prev
                ∙ ap (λ o. if is_some o then none else value_at key curr) n in
              ap (agree equal (value_at key curr)) same ∙ agrees (value_at key curr)
          | inr (w, n) ↦ elim (Option-cases (value_at key curr)) [
            | inl m ↦ ground (
              arith,
              value_at-apply_old key diff prev w n,
              value_at-only_in key prev curr,
              value_at-only_in key curr prev,
            )
            | inr (v, m) ↦ ground (
              arith,
              value_at-apply_old key diff prev w n,
              value_at-only_in key prev curr,
              change_at-differing key curr prev v w d m n,
            )
          ]
        ]

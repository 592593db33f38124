-- ===== src/Enrollment/Serials.antt =====
-- An import keeps the serial numbers of a tenant's devices distinct.
use mathlib.Core.Path.{subst}
use mdm_saa_s.Common.{
  ℕ, suc, ◌≡◌, refl, sym, ap, ◌∙◌, String, true, false, Option, none, some, List, [], ◌∷◌, ◌++◌,
  ◌==◌, inl, inr, ◌⊎◌, any, truthy, Bool-cases, arith, eq_refl, Distinct, Distinct-snoc,
}
use mdm_saa_s.Models.{Tenant, Device}
use mdm_saa_s.Database.{Db, Action, pure, ◌>>◌, ◌>>=◌}
use mdm_saa_s.Database.Laws.{bind-pure}
use mdm_saa_s.Enrollment.Import.{
  Texts, CsvRow, Imported, serials_of, clean_serial, pending_device, RowCase, missing, duplicate,
  fresh, row_case, stage_row, next_existing, counted, import_rows, import_devices_csv,
}

-- Each case of a row, with what it says of the row's serial number.
row_case-cases :
    (existing : List String) (serial : String)
    → (row_case existing serial ≡ missing)
      ⊎ ((row_case existing serial ≡ duplicate)
          ⊎ ((row_case existing serial ≡ fresh)
              × (truthy serial ≡ true)
              × (any (λ x. x == serial) existing ≡ false)))
unfolding row_case
row_case-cases existing serial = elim (Bool-cases (serial == "")) [
  | inl a ↦ inl (rw a refl)
  | inr a ↦ elim (Bool-cases (any (λ x. x == serial) existing)) [
    | inl b ↦ inr (inl (rw (a, b) refl))
    | inr b ↦ inr (inr (rw (a, b) refl, rw a refl, b))
  ]
]

module _ (texts : Texts) (tenant : Tenant) where
  -- The serial numbers after a device has been added.
  serials_of-snoc :
      (ds : List Device) (row : CsvRow) (serial id : String)
      → truthy serial ≡ true
      → serials_of tenant.id (ds ++ pending_device texts tenant row serial id ∷ [])
        ≡ serials_of tenant.id ds ++ serial ∷ []
  unfolding serials_of pending_device
  serials_of-snoc [] row serial id h = rw (eq_refl tenant.id, h) refl
  serials_of-snoc (d ∷ ds) row serial id h = ground (arith, serials_of-snoc ds row serial id h)

  abbrev pub IsDistinct : Db → Type 0
  IsDistinct s = Distinct (serials_of tenant.id s.devices)

  -- The loop goes on from what the case of its row leaves.
  staged :
      (c : RowCase) (i : ℕ) (row : CsvRow) (serial : String) (rest : Action Imported) (s : Db)
      → ((stage_row texts tenant c row serial >> (rest >>= λ r. pure (counted texts tenant c i r)))
          s).1
        ≡ (rest (stage_row texts tenant c row serial s).1).1
  unfolding stage_row
  staged missing i row serial rest s = bind-pure rest (counted texts tenant missing i) s
  staged duplicate i row serial rest s = bind-pure rest (counted texts tenant duplicate i) s
  staged fresh i row serial rest s =
      bind-pure rest (counted texts tenant fresh i) (stage_row texts tenant fresh row serial s).1

  -- The loop's set is that of the rows, and has no serial number twice.
  Inv : List String → Db → Type 0
  Inv existing s = (serials_of tenant.id s.devices ≡ existing) × Distinct existing

  staged-Inv :
      (existing : List String) (row : CsvRow) (serial : String) (s : Db)
      → Inv existing s
      → Inv
          (next_existing texts tenant (row_case existing serial) existing serial)
          (stage_row texts tenant (row_case existing serial) row serial s).1
  unfolding Inv stage_row next_existing
  staged-Inv existing row serial s (e, d) = elim (row_case-cases existing serial) [
    | inl c ↦ rw c (e, d)
    | inr (inl c) ↦ rw c (e, d)
    | inr (inr (c, t, n)) ↦ rw c (
      serials_of-snoc s.devices row serial (s.uuids s.drawn) t ∙ ap (λ x. x ++ serial ∷ []) e,
      Distinct-snoc existing serial d n,
    )
  ]

  import_rows-IsDistinct :
      (i : ℕ) (existing : List String) (rows : List CsvRow) (s : Db)
      → Inv existing s
      → IsDistinct (import_rows texts tenant i existing rows s).1
  unfolding import_rows Inv
  import_rows-IsDistinct i existing [] s (e, d) = subst Distinct (sym e) d
  import_rows-IsDistinct i existing (row ∷ rows) s h =
      let serial = clean_serial texts tenant row in
      let c = row_case existing serial in
      let existing' = next_existing texts tenant c existing serial in
      subst IsDistinct
        (sym (staged c i row serial (import_rows texts tenant (suc i) existing' rows) s))
        (import_rows-IsDistinct (suc i) existing' rows (stage_row texts tenant c row serial s).1
          (staged-Inv existing row serial s h))

  -- When no two devices of a tenant have the same serial number, that is so after an import of any file, also
  -- one that repeats a serial number or names one that is there.
  pub import_devices_csv-IsDistinct :
      (rows : Option (List CsvRow)) (s : Db)
      → IsDistinct s
      → IsDistinct (import_devices_csv texts tenant rows s).1
  unfolding import_devices_csv Inv
  import_devices_csv-IsDistinct none s d = d
  import_devices_csv-IsDistinct (some rows) s d =
      import_rows-IsDistinct 2 (serials_of tenant.id s.devices) rows s (refl, d)

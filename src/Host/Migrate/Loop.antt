-- ===== src/Host/Migrate/Loop.antt =====
-- The loop of `MigrateHost`: what it keeps of the driver, and where it ends.
use machine.Base.{
  ℕ, zero, suc, String, ◌≡◌, refl, sym, ◌∙◌, ap, ◌⊎◌, inl, inr, true, false, Option, none, some,
  arith, Bool-cases,
}
use machine.Base.Int.{pos, ltb_ℤ, eqb_ℤ, eqb_ℤ_eq, increment}
use machine.Base.Exec.{Result, ok, err}
use machine.Text.{Text}
use machine.Errors.{Error}
use machine.Host.Legacy.{
  RawDataDriver, Codec, DriverField, missing, null, raw, migrate_host_v1_to_host_v2,
  migrate_host_v2_to_host_v3,
}
use machine.Host.Legacy.StorePath.{Stored, migrate_host_v2_to_host_v3-IsV3}
use machine.Host.Migrate.{
  Progress, present_version, on_ok, unmarshalled, unmarshal_driver, decoded_driver, migrate_0,
  get_v1, migrate_1, get_v2, migrate_2, migrate_case, next, migrate_from, rounds_from, none_driver,
}

pub on_ok-ok :
    {A B : Type 0} (r : Result Error A) (f : A → Result Error B) (b : B)
    → on_ok r f ≡ ok b
    → (a : A) × (r ≡ ok a) × (f a ≡ ok b)
on_ok-ok (ok a) f b p = (a, refl, p)
on_ok-ok (err e) f b p = cc

pub ok_inj : {A : Type 0} {a b : A} → ◌≡◌ {A = Result Error A} (ok a) (ok b) → a ≡ b
ok_inj e = cc

module _ {J : Type 0} (json : Codec J) (data_text store_path name : Text) where
  -- A driver of the host and the store path, whatever its text.
  abbrev pub Ours : RawDataDriver → Type 0
  Ours d = d ≡ record (none_driver name store_path) { data_text = d.data_text }

  decoded_driver-Ours :
      (d : RawDataDriver) → Ours d → Ours (decoded_driver json data_text store_path d)
  unfolding decoded_driver unmarshal_driver
  decoded_driver-Ours d o = by_field (json.driver_field data_text)
    where
      by_field : (field : DriverField) → Ours (unmarshal_driver field d)
      by_field missing = o
      by_field null = o
      by_field (raw text) = ap (λ (e : RawDataDriver). record e { data_text = text }) o

  -- The host has version 2 before its version is counted up, and its driver is ours, with a text
  -- that holds the store path.
  abbrev pub Arrived : Progress → Type 0
  Arrived q =
      (q.h.driver ≡ some q.driver) × Ours q.driver × Stored json store_path q.driver.data_text

  -- What decoding, or the step before, hands over with its driver.
  abbrev Handed :
      {A : Type 0}
      → Option A
      → String
      → Result Text A
      → RawDataDriver
      → Result Error (A × RawDataDriver)
  Handed at_hand prefix decoded driver = elim at_hand [
    | some x ↦ ok (x, driver)
    | none ↦
        on_ok (unmarshalled prefix decoded)
          (λ x. ok (x, decoded_driver json data_text store_path driver))
  ]

  handed-Ours :
      {A : Type 0} (at_hand : Option A) (prefix : String) (decoded : Result Text A)
      (d : RawDataDriver) (v : A × RawDataDriver)
      → Ours d
      → Handed at_hand prefix decoded d ≡ ok v
      → Ours v.1
  handed-Ours (some x) prefix decoded d v o e = rw (ap (λ u. u.1) (sym (ok_inj e))) o
  handed-Ours none prefix decoded d v o e =
      let (x, _, e') = on_ok-ok (unmarshalled prefix decoded) _ v e in
      rw (ap (λ u. u.1) (sym (ok_inj e'))) (decoded_driver-Ours d o)

  migrate_0-Ours :
      (p q : Progress)
      → Ours p.driver
      → migrate_0 json data_text store_path p ≡ ok q
      → (q.h.config_version ≡ p.h.config_version) × Ours q.driver
  unfolding migrate_0
  migrate_0-Ours p q o e =
      let (x, _, e') =
        on_ok-ok
          (unmarshalled "Error unmarshalling host config version 0: "
            (json.decode_v0 data_text (some p.driver)))
          _ q e in
      let same = sym (ok_inj e') in
      (
        ap (λ r. r.h.config_version) same,
        rw (ap (λ r. r.driver) same) (decoded_driver-Ours p.driver o),
      )

  migrate_1-Ours :
      (p q : Progress)
      → Ours p.driver
      → migrate_1 json data_text store_path p ≡ ok q
      → (q.h.config_version ≡ p.h.config_version) × Ours q.driver
  unfolding migrate_1 get_v1
  migrate_1-Ours p q o e =
      let (v, got, e') = on_ok-ok (get_v1 json data_text store_path p) _ q e in
      let (_, _, e'') = on_ok-ok (migrate_host_v1_to_host_v2 v.0) _ q e' in
      let same = sym (ok_inj e'') in
      (
        ap (λ r. r.h.config_version) same,
        rw (ap (λ r. r.driver) same) (handed-Ours p.host_v1 _ _ p.driver v o got),
      )

  migrate_2-Arrived :
      (p q : Progress)
      → Ours p.driver
      → migrate_2 json data_text store_path p ≡ ok q
      → (q.h.config_version ≡ pos 2) × Arrived q
  unfolding migrate_2 get_v2
  migrate_2-Arrived p q o e =
      let (v, got, e') = on_ok-ok (get_v2 json data_text store_path p) _ q e in
      let (h, made, e'') =
        on_ok-ok (migrate_host_v2_to_host_v3 json v.0 data_text store_path) _ q e' in
      let (version, stored) =
        migrate_host_v2_to_host_v3-IsV3 json store_path v.0 data_text h made in
      let ours = handed-Ours p.host_v2 _ _ p.driver v o got in
      rw (sym (ok_inj e'')) (
        version,
        (refl, ap (λ (d : RawDataDriver). record d { data_text = h.raw_driver }) ours, stored),
      )

  -- One round leads to the present version, or one version further.
  migrate_case-Ours :
      (p q : Progress)
      → Ours p.driver
      → ltb_ℤ p.h.config_version present_version ≡ true
      → migrate_case json data_text store_path p ≡ ok q
      → (p.h.config_version ≡ pos 2) × ((q.h.config_version ≡ pos 2) × Arrived q)
        ⊎ (ltb_ℤ p.h.config_version (pos 2) ≡ true)
          × ((q.h.config_version ≡ p.h.config_version) × Ours q.driver)
  unfolding migrate_case
  migrate_case-Ours p q o below e = elim (Bool-cases (eqb_ℤ p.h.config_version (pos 0))) [
    | inl is_0 ↦ inr (ground arith, migrate_0-Ours p q o (sym (case_0 is_0) ∙ e))
    | inr not_0 ↦ elim (Bool-cases (eqb_ℤ p.h.config_version (pos 1))) [
      | inl is_1 ↦ inr (ground arith, migrate_1-Ours p q o (sym (case_1 not_0 is_1) ∙ e))
      | inr not_1 ↦ elim (Bool-cases (eqb_ℤ p.h.config_version (pos 2))) [
        | inl is_2 ↦ inl (
          eqb_ℤ_eq p.h.config_version (pos 2) is_2,
          migrate_2-Arrived p q o (sym (case_2 not_0 not_1 is_2) ∙ e),
        )
        | inr not_2 ↦
            let same = ok_inj (sym (other_case not_0 not_1 not_2) ∙ e) in
            inr (ground arith, (ap (λ r. r.h.config_version) (sym same), rw (sym same) o))
      ]
    ]
  ]
    where
      run : Progress → Result Error Progress
      run = migrate_case json data_text store_path

      case_0 :
          eqb_ℤ p.h.config_version (pos 0) ≡ true → run p ≡ migrate_0 json data_text store_path p
      case_0 a = rw a refl

      case_1 :
          eqb_ℤ p.h.config_version (pos 0) ≡ false
          → eqb_ℤ p.h.config_version (pos 1) ≡ true
          → run p ≡ migrate_1 json data_text store_path p
      case_1 a b = rw (a, b) refl

      case_2 :
          eqb_ℤ p.h.config_version (pos 0) ≡ false
          → eqb_ℤ p.h.config_version (pos 1) ≡ false
          → eqb_ℤ p.h.config_version (pos 2) ≡ true
          → run p ≡ migrate_2 json data_text store_path p
      case_2 a b c = rw (a, b, c) refl

      other_case :
          eqb_ℤ p.h.config_version (pos 0) ≡ false
          → eqb_ℤ p.h.config_version (pos 1) ≡ false
          → eqb_ℤ p.h.config_version (pos 2) ≡ false
          → run p ≡ ok p
      other_case a b c = rw (a, b, c) refl

  -- A loop at the present version is over.
  migrate_from-over :
      (rounds : ℕ) (p : Progress)
      → ltb_ℤ p.h.config_version present_version ≡ false
      → migrate_from json data_text store_path rounds p ≡ ok p
  unfolding migrate_from
  migrate_from-over zero p h = refl
  migrate_from-over (suc rounds) p h = rw h refl

  -- The loop ends at the present version, when it has as many rounds as there are versions to go.
  pub migrate_from-Arrived :
      (rounds : ℕ) (p q : Progress)
      → Ours p.driver
      → ltb_ℤ p.h.config_version present_version ≡ true
      → rounds ≡ rounds_from json data_text store_path p.h.config_version
      → migrate_from json data_text store_path rounds p ≡ ok q
      → (q.h.config_version ≡ present_version) × Arrived q
  unfolding migrate_from
  migrate_from-Arrived zero p q o below n e = ground arith
  migrate_from-Arrived (suc rounds) p q o below n e =
      let (r, stepped, e') =
        on_ok-ok (migrate_case json data_text store_path p) _ q (sym (entered below) ∙ e) in
      go r (migrate_case-Ours p r o below stepped) e' (λ ours below' n'.
        migrate_from-Arrived rounds (next json data_text store_path r) q ours below' n' e')
    where
      entered :
          ltb_ℤ p.h.config_version present_version ≡ true
          → migrate_from json data_text store_path (suc rounds) p
            ≡ on_ok (migrate_case json data_text store_path p) (λ r.
              migrate_from json data_text store_path rounds (next json data_text store_path r))
      entered a = rw a refl

      go :
          (r : Progress)
          → (p.h.config_version ≡ pos 2) × ((r.h.config_version ≡ pos 2) × Arrived r)
            ⊎ (ltb_ℤ p.h.config_version (pos 2) ≡ true)
              × ((r.h.config_version ≡ p.h.config_version) × Ours r.driver)
          → migrate_from json data_text store_path rounds (next json data_text store_path r) ≡ ok q
          → (Ours r.driver
              → ltb_ℤ (increment r.h.config_version) present_version ≡ true
              → rounds ≡ rounds_from json data_text store_path (increment r.h.config_version)
              → (q.h.config_version ≡ present_version) × Arrived q)
          → (q.h.config_version ≡ present_version) × Arrived q
      go r (inl (at_2, (version, arrived))) e' later =
          let at_3 : increment r.h.config_version ≡ present_version = ap increment version in
          let over =
            migrate_from-over rounds (next json data_text store_path r)
              (ap (λ v. ltb_ℤ v present_version) at_3) in
          rw (sym (ok_inj (sym over ∙ e'))) (at_3, arrived)
      go r (inr (at_less, (version, ours))) e' later =
          later ours (rw version (ground arith)) (rw version (ground arith))

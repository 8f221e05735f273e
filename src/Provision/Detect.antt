-- ===== src/Provision/Detect.antt =====
-- libmachine/provision/provisioner.go: the detection of the provisioner for a machine, with the wait
-- for SSH of libmachine/drivers/utils.go.
use mathlib.Core.List.{Memᴰ}
use mathlib.Core.List.Memᴰ
use machine.Base.{
  ℕ, ◌≡◌, refl, sym, ap, ◌∙◌, Bool, true, false, Option, none, some, List, [], ◌∷◌, Bool-cases, ◌⊎◌,
  inl, inr, if◌then◌else◌,
}
use machine.Base.Exec.{Result, ok, err, map_error, ◌>>=◌, ◌>>◌}
use machine.Text.{Text, bytes}
use machine.Errors.{Error, wrapped, detection_failed, Act}
use machine.Wait.{wait_for}
use machine.Driver.{Driver}
use machine.Provision.{Provisioner}
use machine.Provision.OsRelease.{OsRelease, new_os_release}

-- A registered provisioner: how to make one, given the system's information, and whether it goes
-- with that information, on which alone `CompatibleWithHost` depends.
pub record Registered (W : Type 0) : Type 0 where
  pub new_provisioner : Driver W → OsRelease → Provisioner W
  pub compatible_with_host : OsRelease → Bool

module _ {W : Type 0} where
  -- The loop over the registered provisioners, in the order in which the map gives them.
  unfoldable pub first_compatible :
      Driver W → OsRelease → List (Registered W) → Option (Provisioner W)
  first_compatible d info [] = none
  first_compatible d info (r ∷ rs) =
      if r.compatible_with_host info
      then some (r.new_provisioner d info)
      else first_compatible d info rs

module _ {W : Type 0} (sleep : ℕ → W → W) (run_ssh_command : Driver W → Text → Act W Text)
    (d : Driver W) where
  -- `sshAvailableFunc`
  unfoldable pub ssh_available : W → Bool × W
  ssh_available w =
      let (r, w') = run_ssh_command d (bytes "exit 0") w in
      (elim r [ ok _ ↦ true | err _ ↦ false ], w')

  unfoldable pub wait_for_ssh : Act W (Unit {0})
  unfolding ssh_available
  wait_for_ssh =
      map_error (wrapped "Too many retries waiting for SSH to be available.  Last error: ")
        (wait_for sleep ssh_available)

  -- What is detected; `NewOsRelease` has no error of its own, but it can stop the program.
  unfoldable pub detected :
      List (Registered W) → Result Error OsRelease → Result Error (Provisioner W)
  unfolding first_compatible
  detected rs (err e) = err e
  detected rs (ok info) = elim (first_compatible d info rs) [
    | none ↦ err detection_failed
    | some p ↦ ok p
  ]

  -- `(StandardDetector).DetectProvisioner`
  unfoldable pub detect_provisioner : List (Registered W) → Act W (Provisioner W)
  unfolding wait_for_ssh detected
  detect_provisioner rs = do
    wait_for_ssh
    out ←
        map_error (wrapped "Error getting SSH command: ")
          (run_ssh_command d (bytes "cat /etc/os-release"))
    λ w. (detected rs (new_os_release out), w)

module _ {W : Type 0} (info : OsRelease) where
  -- `r` is registered, it goes with the system, and no other does.
  pub record Only (r : Registered W) (rs : List (Registered W)) : Type 0 where
    pub registered : Memᴰ r rs
    pub compatible : r.compatible_with_host info ≡ true
    pub no_other : (q : Registered W) → Memᴰ q rs → q.compatible_with_host info ≡ true → q ≡ r

  first_compatible-Only :
      (d : Driver W) (r : Registered W) (rs : List (Registered W))
      → Memᴰ r rs
      → r.compatible_with_host info ≡ true
      → ((q : Registered W) → Memᴰ q rs → q.compatible_with_host info ≡ true → q ≡ r)
      → first_compatible d info rs ≡ some (r.new_provisioner d info)
  unfolding first_compatible
  first_compatible-Only d r [] m fits no_other = absurd (Memᴰ.not-nil m)
  first_compatible-Only d r (q ∷ rs) m fits no_other =
      elim (Bool-cases (q.compatible_with_host info)) [
        | inl fit ↦ rw fit (
            ap (λ (x : Registered W). some (x.new_provisioner d info))
              (no_other q (Memᴰ.head refl) fit))
        | inr unfit ↦ rw unfit (
            first_compatible-Only d r rs (later unfit (Memᴰ.cases_cons m)) fits
              (λ x n. no_other x (Memᴰ.tail n)))
      ]
    where
      later : q.compatible_with_host info ≡ false → (r ≡ q) ⊎ Memᴰ r rs → Memᴰ r rs
      later unfit (inr n) = n
      later unfit (inl same) =
          let clash : true ≡ false =
            sym fits ∙ ap (λ (x : Registered W). x.compatible_with_host info) same ∙ unfit in
          cc

-- When SSH becomes available, /etc/os-release can be read and parsed, and exactly one registered
-- provisioner goes with the system, then that one is detected, in whatever order they are tried.
pub detect_provisioner-Only :
    {W : Type 0} (sleep : ℕ → W → W) (run_ssh_command : Driver W → Text → Act W Text) (d : Driver W)
    (rs : List (Registered W)) (r : Registered W) (info : OsRelease) (out : Text) (w : W)
    → (wait_for_ssh sleep run_ssh_command d w).0 ≡ ok tt
    → (run_ssh_command d (bytes "cat /etc/os-release") (wait_for_ssh sleep run_ssh_command d w).1).0
      ≡ ok out
    → new_os_release out ≡ ok info
    → Only info r rs
    → (detect_provisioner sleep run_ssh_command d rs w).0 ≡ ok (r.new_provisioner d info)
unfolding detect_provisioner detected
detect_provisioner-Only sleep run_ssh_command d rs r info out w up read parsed only =
    rw
      (
        up,
        read,
        parsed,
        detected,
        first_compatible-Only info d r rs only.registered only.compatible only.no_other,
      )
      refl

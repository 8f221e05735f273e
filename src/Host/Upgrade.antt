-- ===== src/Host/Upgrade.antt =====
-- What `Upgrade` does to the packages of the machine.
use machine.Base.{◌≡◌, refl, ◌⊎◌, inl, inr, Bool, true, false, ◌&&◌, not, arith, if◌then◌else◌}
use machine.Base.Exec.{◌>>◌}
use machine.Text.{Text, bytes, text_eq, text_eq_refl, contains, replace}
use machine.Errors.{Act}
use machine.Driver.{Driver}
use machine.Provision.{Provisioner, PackageAction, ServiceAction, last_release_before_ce_versioning}
use machine.Version.Segments.{edition}
use machine.Version.Order.{less_than_or_equal_to-edition}
use machine.Host.{Host, Env, upgrade_docker, provision}

-- The last release before the community editions is none.
edition_of_last_release : edition last_release_before_ce_versioning ≡ false
unfolding edition contains replace
edition_of_last_release = refl

static_build :
    (s : Text)
    → (s ≡ bytes "rancheros") ⊎ (s ≡ bytes "boot2docker")
    → (not (text_eq s (bytes "rancheros")) && not (text_eq s (bytes "boot2docker"))) ≡ false
static_build s (inl e) = rw (e, text_eq_refl (bytes "rancheros"))
static_build s (inr e) = rw (e, text_eq_refl (bytes "boot2docker")) (ground arith)

module _ {W : Type 0} (env : Env W) (h : Host (Driver W)) (p : Provisioner W) (version : Text) where
  abbrev pub upgrade_in_place : Act W (Unit {0})
  upgrade_in_place =
      p.package_action (bytes "docker") PackageAction.upgrade
      >> p.service_action (bytes "docker") ServiceAction.restart

  -- A machine that runs a community edition is never purged, nor one whose system is RancherOS or
  -- boot2docker: the package is upgraded and the service restarted, and nothing else.
  pub upgrade_docker-in_place :
      (edition version ≡ true) ⊎ ((p.string ≡ bytes "rancheros") ⊎ (p.string ≡ bytes "boot2docker"))
      → upgrade_docker env h p version ≡ upgrade_in_place
  unfolding upgrade_docker
  upgrade_docker-in_place (inl e) = rw (
      less_than_or_equal_to-edition version last_release_before_ce_versioning e
        edition_of_last_release)
  upgrade_docker-in_place (inr e) = rw (static_build p.string e) (unpurged _)
    where
      unpurged :
          (b : Bool)
          → (if b && false
              then (p.package_action (bytes "docker-engine") PackageAction.purge >> provision env h)
              else upgrade_in_place)
            ≡ upgrade_in_place
      unpurged true = refl
      unpurged false = refl

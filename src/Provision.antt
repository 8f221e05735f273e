-- ===== src/Provision.antt =====
-- libmachine/provision: the interface of a provisioner with the actions of pkgaction and
-- serviceaction, and the wait for the Docker daemon of utils.go.
pub mod OsRelease
pub mod Lock
pub mod Systemd
pub mod Detect
pub mod Compatible
pub mod ConfigureAuth
use machine.Base.{ℕ, Bool, false, ◌&&◌, ◌||◌, not, List, [], ◌∷◌, ◌==◌}
use machine.Base.Int.{ℤ}
use machine.Base.Exec.{ok, err, map_error}
use machine.Text.{Text, bytes, text_eq, has_prefix, contains, split}
use machine.Text.Decimal.{decimal}
use machine.Errors.{daemon_available, Act}
use machine.Options.{AuthOptions, EngineOptions, SwarmOptions}
use machine.Wait.{wait_for_specific}

pub data PackageAction : Type 0 where
  install remove upgrade purge : PackageAction

pub data ServiceAction : Type 0 where
  restart start stop enable disable daemon_reload : ServiceAction

pub record Provisioner (W : Type 0) : Type 0 where
  pub string : Text
  pub ssh_command : Text → Act W Text
  pub package_action : Text → PackageAction → Act W (Unit {0})
  pub service_action : Text → ServiceAction → Act W (Unit {0})
  pub provision : SwarmOptions → AuthOptions → EngineOptions → Act W (Unit {0})

abbrev pub last_release_before_ce_versioning : Text
last_release_before_ce_versioning = bytes "1.13.1"

abbrev pub default_storage_driver : Text
default_storage_driver = bytes "overlay2"

-- `\s`: tab, line feed, form feed, carriage return, space.
is_space : ℕ → Bool
is_space c = c == 9 || c == 10 || c == 12 || c == 13 || c == 32

-- `\s+.*:.*` at the start of a text that is one line.
port_match_tail : Text → Bool
unfolding is_space contains
port_match_tail [] = false
port_match_tail (c ∷ s) = is_space c && contains (bytes ":") s

drop_prefix : Text → Text → Text
drop_prefix [] s = s
drop_prefix (p ∷ prefix) [] = []
drop_prefix (p ∷ prefix) (c ∷ s) = drop_prefix prefix s

-- The regular expression `:PORT\s+.*:.*`, anywhere in a line.
line_matches : Text → Text → Bool
unfolding port_match_tail drop_prefix has_prefix
line_matches port [] = false
line_matches port (c ∷ s) =
    (has_prefix port (c ∷ s) && port_match_tail (drop_prefix port (c ∷ s))) || line_matches port s

any_line : Text → List Text → Bool
unfolding line_matches text_eq
any_line port [] = false
any_line port (line ∷ lines) =
    (line_matches port line && not (text_eq line [])) || any_line port lines

unfoldable pub match_netstat_out : ℤ → Text → Bool
unfolding any_line decimal split
match_netstat_out docker_port netstat_out =
    any_line (b':' ∷ decimal docker_port) (split 10 netstat_out)

abbrev pub netstat_command : Text
netstat_command = bytes "if ! type netstat 1>/dev/null; then ss -tln; else netstat -tln; fi"

module _ {W : Type 0} where
  unfoldable pub check_daemon_up : Provisioner W → ℤ → W → Bool × W
  check_daemon_up p docker_port w =
      let (r, w') = p.ssh_command netstat_command w in
      elim r [
        | ok netstat_out ↦ (match_netstat_out docker_port netstat_out, w')
        | err e ↦ (false, w')
      ]

  unfoldable pub wait_for_docker : (ℕ → W → W) → Provisioner W → ℤ → Act W (Unit {0})
  wait_for_docker sleep p docker_port =
      map_error daemon_available (wait_for_specific sleep (check_daemon_up p docker_port) 10 3000)

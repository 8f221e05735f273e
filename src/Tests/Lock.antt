-- ===== src/Tests/Lock.antt =====
-- A package manager whose lock is held until ten seconds have passed.
use machine.Base.{ℕ, ◌≡◌, refl, ◌+◌, leb, [], if◌then◌else◌}
use machine.Base.Exec.{ok, err, pure}
use machine.Text.{Text, bytes, contains, has_prefix}
use machine.Errors.{Error, message}
use machine.Wait.{wait_for, wait_for_specific, wait_for_specific_or_error, wait_from}
use machine.Provision.{Provisioner}
use machine.Provision.Lock.{judge, try_command, lock_result, wait_for_lock}

abbrev apt : Provisioner ℕ
apt = record {
  string = bytes "ubuntu(systemd)";
  ssh_command = λ command now.
      if leb 10000 now
      then (ok (bytes "done"), now)
      else (err (message (bytes "E: Could not get lock /var/lib/dpkg/lock")), now);
  package_action = λ name action. pure tt;
  service_action = λ name action. pure tt;
  provision = λ swarm auth engine. pure tt;
}

abbrev tick : ℕ → ℕ → ℕ
tick ms now = now + ms

abbrev text_of : Error → Text
text_of (message t) = t
text_of _ = []

abbrev update_command : Text
update_command = bytes "sudo apt-get update"

gets_lock : wait_for_lock tick text_of apt update_command 0 ≡ (ok tt, 12000)
unfolding wait_for_lock try_command judge lock_result wait_for wait_for_specific
    wait_for_specific_or_error wait_from contains has_prefix
gets_lock = refl

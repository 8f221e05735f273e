-- ===== src/Provision/Systemd.antt =====
-- libmachine/provision/systemd.go: the services of a machine under systemd, and the names of the
-- actions (serviceaction/service_action.go).
use machine.Base.{Bool, true, false, ◌++◌, if◌then◌else◌}
use machine.Base.Exec.{pure, ◌>>◌}
use machine.Text.{Text, bytes}
use machine.Errors.{Act}
use machine.Provision.{ServiceAction, restart, start, stop, enable, disable, daemon_reload}

-- `ServiceAction.String`
unfoldable pub action_string : ServiceAction → Text
action_string restart = bytes "restart"
action_string start = bytes "start"
action_string stop = bytes "stop"
action_string enable = bytes "enable"
action_string disable = bytes "disable"
action_string daemon_reload = bytes "daemon-reload"

unfoldable pub reloads : ServiceAction → Bool
reloads restart = true
reloads start = true
reloads stop = false
reloads enable = false
reloads disable = false
reloads daemon_reload = false

abbrev pub reload_command : Text
reload_command = bytes "sudo systemctl daemon-reload"

module _ {W : Type 0} (ssh_command : Text → Act W Text) where
  -- The commands of the action, of which a failing one is the last.
  unfoldable pub service : Text → ServiceAction → Act W (Unit {0})
  unfolding action_string reloads
  service name action = do
    (if reloads action then (ssh_command reload_command >> pure tt) else pure tt)
    ssh_command (bytes "sudo systemctl -f " ++ (action_string action ++ (bytes " " ++ name)))
    pure tt

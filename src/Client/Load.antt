-- ===== src/Client/Load.antt =====
-- What loading a machine gives when the plugin of its driver is gone.
use machine.Base.{◌≡◌, refl, Option}
use machine.Base.Exec.{ok, err}
use machine.Text.{Text}
use machine.Errors.{not_loadable, plugin_binary_not_found}
use machine.Driver.{Driver, machine_in_state}
use machine.Driver.NotFound.{new_driver}
use machine.Host.{Host, Env, run_action_for_state, start, stop, kill}
use machine.Host.Legacy.{RawDataDriver}
use machine.Client.{Client, with_driver, found_driver, load}

-- Starting, stopping and killing the host fails with the error that tells the driver's name, and
-- changes nothing.
pub record Refuses {W : Type 0} (env : Env W) (driver_name : Text) (h : Host (Driver W)) (v : W)
    : Type 0 where
  pub not_started : start env h v ≡ (err (not_loadable driver_name), v)
  pub not_stopped : stop env h v ≡ (err (not_loadable driver_name), v)
  pub not_killed : kill env h v ≡ (err (not_loadable driver_name), v)

-- When the store has the host and the binary of its driver is not found, `Load` still succeeds, with
-- the host under its name; that host refuses to start, to stop and to be killed, whatever the world.
pub load-Refuses :
    {W : Type 0} (api : Client W) (name : Text) (w v : W) (h : Host (Option RawDataDriver))
    → (api.load_from_store name w).0 ≡ ok h
    → (api.new_rpc_client_driver h.driver_name h.raw_driver (api.load_from_store name w).1).0
      ≡ err plugin_binary_not_found
    → (h' : Host (Driver W)) × ((load api name w).0 ≡ ok h')
      × (h'.name ≡ h.name)
      × (h'.host_options ≡ h.host_options)
      × Refuses api.env h.driver_name h' v
unfolding load found_driver start stop kill run_action_for_state machine_in_state new_driver
load-Refuses api name w v h in_store missing = (
  with_driver api h (new_driver h.driver_name),
  rw (in_store, missing) refl,
  refl,
  refl,
  record { not_started = refl; not_stopped = refl; not_killed = refl },
)

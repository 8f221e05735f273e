-- ===== src/AmazonEc2/Instance.antt =====
-- drivers/amazonec2/amazonec2.go: the instance of a machine: its state and address, starting and
-- stopping it, and what is removed with it.
pub mod Removal
use machine.Base.{
  Bool, true, false, ◌&&◌, ◌||◌, not, Option, none, some, List, [], ◌∷◌, ◌++◌, if◌then◌else◌,
}
use machine.Base.Int.{eqb_ℤ}
use machine.Base.Exec.{Result, ok, err, pure, raise, ◌>>=◌, ◌>>◌}
use machine.Text.{Text, bytes, text_eq, has_prefix, contains}
use machine.Text.Decimal.{decimal}
use machine.Text.Scan.{newline}
use machine.Errors.{Error, message, wrapped, panic, host_is_not_running, Act}
use machine.State.{State, running, starting, stopping, stopped, error_state}
use machine.Wait.{wait_for}
use machine.AmazonEc2.{
  AmazonEc2, Ec2Client, Ec2Instance, default_ssh_user, docker_port, migrate_string_to_slice,
}

-- The switch of `GetState`.
unfoldable pub state_of_name : Text → State
unfolding text_eq
state_of_name name =
    if text_eq name (bytes "pending")
    then starting
    else if text_eq name (bytes "running")
    then running
    else if text_eq name (bytes "stopping")
    then stopping
    else if text_eq name (bytes "shutting-down")
    then stopping
    else if text_eq name (bytes "stopped")
    then stopped
    else error_state

-- GetSSHUsername, which fills in the user.
unfoldable pub get_ssh_username : AmazonEc2 → Text × AmazonEc2
unfolding text_eq
get_ssh_username d =
    let d' =
      if text_eq d.base.ssh_user []
      then record d { base = record d.base { ssh_user = default_ssh_user } }
      else d in
    (d'.base.ssh_user, d')

-- `net.JoinHostPort`
unfoldable pub join_host_port : Text → Text → Text
unfolding contains
join_host_port host port =
    if contains (bytes ":") host || contains (bytes "%") host
    then bytes "[" ++ (host ++ (bytes "]:" ++ port))
    else host ++ (bytes ":" ++ port)

abbrev address_of : Text → Option Text → Result Error Text
address_of text none = err (message text)
address_of text (some ip) = ok ip

-- The address that `GetIP` takes of an instance.
unfoldable pub instance_ip : AmazonEc2 → Ec2Instance → Result Error Text
instance_ip d inst =
    if d.private_ip_only || d.use_private_ip
    then address_of (bytes "No private IP for instance " ++ inst.instance_id)
        inst.private_ip_address
    else address_of (bytes "No IP for instance " ++ inst.instance_id) inst.public_ip_address

abbrev pub first_instance : List (List Ec2Instance) → Result Error Ec2Instance
first_instance ((inst ∷ _) ∷ _) = ok inst
first_instance [] = err panic
first_instance ([] ∷ _) = err panic

-- `d.RequestSpotInstance && d.spotInstanceRequestId != ""`
abbrev pub has_spot_request : AmazonEc2 → Bool
has_spot_request d = d.request_spot_instance && not (text_eq d.spot_instance_request_id [])

module _ {W : Type 0} (client : Ec2Client W) where
  -- getInstance
  unfoldable pub get_instance : AmazonEc2 → Act W Ec2Instance
  get_instance d = client.describe_instances (d.instance_id ∷ []) >>= λ reservations w.
      (first_instance reservations, w)

  -- GetState: the state stands beside the error.
  unfoldable pub get_state : AmazonEc2 → W → (State × Option Error) × W
  unfolding get_instance state_of_name
  get_state d w =
      let (r, w') = get_instance d w in
      (
        elim r as (λ _. State × Option Error) [
          | err e ↦ (error_state, some e)
          | ok inst ↦ (state_of_name inst.state_name, none)
        ],
        w',
      )

  -- GetIP, and GetSSHHostname
  unfoldable pub get_ip : AmazonEc2 → Act W Text
  unfolding get_instance instance_ip
  get_ip d = get_instance d >>= λ inst w. (instance_ip d inst, w)

  -- GetURL
  unfoldable pub get_url : AmazonEc2 → Act W Text
  unfolding get_state get_ip join_host_port decimal
  get_url d w =
      let ((s, e), w') = get_state d w in
      elim e [
        | some failure ↦ (err failure, w')
        | none ↦
            (if eqb_ℤ s running
                then (get_ip d >>= λ ip. pure (
                    if text_eq ip []
                    then []
                    else bytes "tcp://" ++ join_host_port ip (decimal docker_port)))
                else raise host_is_not_running)
              w'
      ]

  -- instanceIsRunning: the error of `GetState` is logged.
  unfoldable pub instance_is_running : AmazonEc2 → W → Bool × W
  unfolding get_state
  instance_is_running d w = let ((s, _), w') = get_state d w in (eqb_ℤ s running, w')

  -- waitForInstance
  unfoldable pub wait_for_instance : AmazonEc2 → Act W (Unit {0})
  unfolding instance_is_running wait_for
  wait_for_instance d = wait_for client.sleep (instance_is_running d)

  -- instanceIpAvailable, which keeps the address.
  unfoldable pub instance_ip_available : AmazonEc2 × W → Bool × (AmazonEc2 × W)
  unfolding get_ip
  instance_ip_available (d, w) =
      let (r, w') = get_ip d w in
      let ip = elim r as (λ _. Text) [ err _ ↦ [] | ok ip ↦ ip ] in
      if text_eq ip []
      then (false, (d, w'))
      else (true, (record d { base = record d.base { ip_address = ip } }, w'))

  -- Start
  unfoldable pub start : AmazonEc2 → Act W (Unit {0})
  unfolding wait_for_instance
  start d = client.start_instances (d.instance_id ∷ []) >> wait_for_instance d

  -- Stop
  unfoldable pub stop : AmazonEc2 → Act W (Unit {0})
  stop d = client.stop_instances (d.instance_id ∷ []) false

  -- Restart
  unfoldable pub restart : AmazonEc2 → Act W (Unit {0})
  restart d = client.reboot_instances (d.instance_id ∷ [])

  -- Kill
  unfoldable pub kill : AmazonEc2 → Act W (Unit {0})
  kill d = client.stop_instances (d.instance_id ∷ []) true

  unfoldable pub is_gone : Error → Bool
  unfolding has_prefix
  is_gone e =
      has_prefix (bytes "unknown instance") (client.error_text e)
      || has_prefix (bytes "InvalidInstanceID.NotFound") (client.error_text e)

  unfoldable pub termination : Result Error (Unit {0}) → Result Error (Unit {0})
  unfolding is_gone
  termination (ok _) = ok tt
  termination (err e) =
      if is_gone e then ok tt else err (wrapped "unable to terminate instance: " e)

  -- terminate: an instance that does not exist is no error.
  unfoldable pub terminate : AmazonEc2 → Act W (Unit {0})
  unfolding termination
  terminate d w =
      if text_eq d.instance_id []
      then (ok tt, w)
      else (let (r, w') = client.terminate_instances (d.instance_id ∷ []) w in (termination r, w'))

  -- cancelSpotInstanceRequest
  unfoldable pub cancel_spot_instance_request : AmazonEc2 → Act W (Unit {0})
  cancel_spot_instance_request d =
      client.cancel_spot_instance_requests (d.spot_instance_request_id ∷ [])

  -- deleteKeyPair: the name of the key is asked of the instance.
  unfoldable pub delete_key_pair : AmazonEc2 → Act W (Unit {0})
  unfolding get_instance
  delete_key_pair d =
      if text_eq d.key_name []
      then pure tt
      else (get_instance d >>= λ inst. client.delete_key_pair inst.instance_key)

  -- A step that is due, and its error.
  unfoldable pub attempt : Bool → Act W (Unit {0}) → W → List Error × W
  attempt false step w = ([], w)
  attempt true step w =
      let (r, w') = step w in (elim r as (λ _. List Error) [ err e ↦ e ∷ [] | ok _ ↦ [] ], w')

  unfoldable pub multi_error_text : List Error → Text
  multi_error_text [] = []
  multi_error_text (e ∷ es) = client.error_text e ++ (newline ∷ multi_error_text es)

  unfoldable pub multi_error : List Error → Result Error (Unit {0})
  unfolding multi_error_text
  multi_error [] = ok tt
  multi_error (e ∷ es) = err (message (multi_error_text (e ∷ es)))

  -- Remove: each step is taken, whatever came of those before.
  unfoldable pub remove : AmazonEc2 → Act W (Unit {0})
  unfolding terminate cancel_spot_instance_request delete_key_pair attempt multi_error
  remove d w =
      let (e1, w1) = attempt true (terminate d) w in
      let (e2, w2) = attempt (has_spot_request d) (cancel_spot_instance_request d) w1 in
      let (e3, w3) = attempt (not d.existing_key) (delete_key_pair d) w2 in
      (multi_error (e1 ++ (e2 ++ e3)), w3)

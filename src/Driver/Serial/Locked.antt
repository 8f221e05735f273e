-- ===== src/Driver/Serial/Locked.antt =====
-- Calls of a serial driver, watched from inside: the lock is held exactly while an inner method runs.
use machine.Base.{◌≡◌, refl, Bool, true, false, ◌||◌, not, Option, List, [], ◌∷◌}
use machine.Base.Int.{ℤ}
use machine.Base.Exec.{Result}
use machine.Text.{Text}
use machine.Errors.{Error}
use machine.State.{State}
use machine.Options.{Flag}
use machine.Driver.{Driver, DriverOptions}
use machine.Driver.Serial.{new_serial_driver_with_lock}

-- One call of a method, and what it answers.
pub data Call : Type 0 where
  create driver_name get_create_flags get_ip get_machine_name : Call
  get_ssh_hostname get_ssh_key_path get_ssh_port get_ssh_username get_url get_state : Call
  kill pre_create_check remove restart start stop : Call
  set_config_from_flags : DriverOptions → Call

pub data Answer : Type 0 where
  done : Result Error (Unit {0}) → Answer
  name : Text → Answer
  flags : List Flag → Answer
  text : Result Error Text → Answer
  port : Result Error ℤ → Answer
  state : State × Option Error → Answer

abbrev answered {ℓ} : {W : Type ℓ} {A : Type 0} → (A → Answer) → (W → A × W) → W → Answer × W
answered wrap method w = let (a, w') = method w in (wrap a, w')

pub call : {W : Type 0} → Driver W → Call → W → Answer × W
call d create = answered done d.create
call d driver_name = answered name d.driver_name
call d get_create_flags = answered flags d.get_create_flags
call d get_ip = answered text d.get_ip
call d get_machine_name = answered name d.get_machine_name
call d get_ssh_hostname = answered text d.get_ssh_hostname
call d get_ssh_key_path = answered name d.get_ssh_key_path
call d get_ssh_port = answered port d.get_ssh_port
call d get_ssh_username = answered name d.get_ssh_username
call d get_url = answered text d.get_url
call d get_state = answered state d.get_state
call d kill = answered done d.kill
call d pre_create_check = answered done d.pre_create_check
call d remove = answered done d.remove
call d restart = answered done d.restart
call d start = answered done d.start
call d stop = answered done d.stop
call d (set_config_from_flags opts) = answered done (d.set_config_from_flags opts)

pub calls : {W : Type 0} → Driver W → List Call → W → List Answer × W
calls d [] w = ([], w)
calls d (c ∷ cs) w =
    let (a, w') = call d c w in let (answers, w'') = calls d cs w' in (a ∷ answers, w'')

-- The world with the lock, and a mark for each misuse: a lock taken twice (the caller would wait for
-- itself), a lock released that is free, an inner method that runs without it.
pub record Watched (W : Type 0) : Type 0 where
  pub world : W
  pub held : Bool
  pub misused : Bool

module _ {W : Type 0} where
  abbrev pub take_lock : Watched W → Watched W
  take_lock w = record { world = w.world; held = true; misused = w.misused || w.held }

  abbrev pub release_lock : Watched W → Watched W
  release_lock w = record { world = w.world; held = false; misused = w.misused || not w.held }

  watch : {A : Type 0} → (W → A × W) → Watched W → A × Watched W
  watch method w =
      let (a, world) = method w.world in
      (a, record { world = world; held = w.held; misused = w.misused || not w.held })

  pub watched : Driver W → Driver (Watched W)
  watched d = record {
    create = watch d.create;
    driver_name = watch d.driver_name;
    get_create_flags = watch d.get_create_flags;
    get_ip = watch d.get_ip;
    get_machine_name = watch d.get_machine_name;
    get_ssh_hostname = watch d.get_ssh_hostname;
    get_ssh_key_path = watch d.get_ssh_key_path;
    get_ssh_port = watch d.get_ssh_port;
    get_ssh_username = watch d.get_ssh_username;
    get_url = watch d.get_url;
    get_state = watch d.get_state;
    kill = watch d.kill;
    pre_create_check = watch d.pre_create_check;
    remove = watch d.remove;
    restart = watch d.restart;
    set_config_from_flags = λ opts. watch (d.set_config_from_flags opts);
    start = watch d.start;
    stop = watch d.stop;
  }

  abbrev pub unlocked : W → Watched W
  unlocked w = record { world = w; held = false; misused = false }

  abbrev pub serial : Driver W → Driver (Watched W)
  serial d = new_serial_driver_with_lock take_lock release_lock (watched d)

  call-serial :
      (d : Driver W) (c : Call) (w : W)
      → call (serial d) c (unlocked w) ≡ (let (a, w') = call d c w in (a, unlocked w'))
  unfolding call new_serial_driver_with_lock watched watch
  call-serial d create w = refl
  call-serial d _ w = refl

  -- Whatever methods of a serial driver are called one after the other, on a lock that is free at
  -- first: the answers and the world are those of the inner driver, each inner method runs with
  -- the lock held, the lock is taken once and released for each, and it is free in the end.
  pub calls-serial :
      (d : Driver W) (cs : List Call) (w : W)
      → calls (serial d) cs (unlocked w)
        ≡ (let (answers, w') = calls d cs w in (answers, unlocked w'))
  unfolding calls
  calls-serial d [] w = refl
  calls-serial d (c ∷ cs) w = rw (call-serial d c w, calls-serial d cs (call d c w).1)

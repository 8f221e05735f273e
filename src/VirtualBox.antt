-- ===== src/VirtualBox.antt =====
-- drivers/virtualbox/vbm.go: running VBoxManage, and reading what it prints. The process itself is
-- the parameter `run_cmd`, and what `time.Sleep` lets happen, over milliseconds, is `sleep`.
pub mod Retry
pub mod Ip
pub mod Network
pub mod Dhcp
pub mod Collision
pub mod Machine
pub mod Disk
pub mod Create
use machine.Base.{
  ℕ, zero, suc, Bool, true, false, ◌&&◌, ◌||◌, Option, none, some, List, [], ◌∷◌, ◌++◌, ◌==◌, ltb,
  if◌then◌else◌,
}
use machine.Base.Int.{ℤ, pos, ltb_ℤ, leb_ℤ, eqb_ℤ}
use machine.Base.Exec.{Result, ok, err}
use machine.Text.{Text, bytes, has_prefix, contains, split}
use machine.Text.Atoi.{parse_int}
use machine.Text.Scan.{blank, quoted, join_with}
use machine.Errors.{Error, message, Act}

abbrev pub object_not_ready : Text
object_not_ready = bytes "error: The object is not ready"

abbrev pub error_mark : Text
error_mark = bytes "error:"

abbrev pub retry_count_on_object_not_ready_error : ℕ
retry_count_on_object_not_ready_error = 5

abbrev retry_delay : ℕ
retry_delay = 100

abbrev pub vbm_not_found : Error
vbm_not_found =
    message (
      bytes "VBoxManage not found. Make sure VirtualBox is installed and VBoxManage is in the path")

-- How a process fails: its program is not found, or it reports what the text says.
pub data RunError : Type 0 where
  exec_not_found : RunError
  run_failed : Text → RunError

-- What a run leaves: `(stdout, stderr, err)`.
pub record Ran (E : Type 0) : Type 0 where
  pub stdout : Text
  pub stderr : Text
  pub failure : Option E

-- VBoxManager
pub record Manager (W : Type 0) : Type 0 where
  pub vbm : List Text → Act W (Unit {0})
  pub vbm_out : List Text → Act W Text
  pub vbm_out_err : List Text → W → Ran Error × W

abbrev pub error_of : Option RunError → Option Error
error_of none = none
error_of (some exec_not_found) = some vbm_not_found
error_of (some (run_failed text)) = some (message text)

-- `err == nil || strings.HasPrefix(err.Error(), "exit status ")`.
abbrev pub is_exit : Option RunError → Bool
is_exit none = true
is_exit (some exec_not_found) = false
is_exit (some (run_failed text)) = has_prefix (bytes "exit status ") text

abbrev pub or_failed : {A : Type 0} → Option Error → A → Result Error A
or_failed none a = ok a
or_failed (some e) a = err e

module _ {W : Type 0} (vbox_manage_cmd : Text) (run_cmd : List Text → W → Ran RunError × W)
    (sleep : ℕ → W → W) where
  abbrev pub failed_text : List Text → Text → Text
  failed_text args stderr =
      vbox_manage_cmd ++ (blank ∷ (join_with (blank ∷ []) args ++ (bytes " failed:\n" ++ stderr)))

  -- VBoxManage may leave the return code alone and yet report a fatal error.
  unfoldable pub judge : List Text → Ran RunError → Ran Error
  judge args ran = record {
    stdout = ran.stdout;
    stderr = ran.stderr;
    failure =
        if is_exit ran.failure && contains error_mark ran.stderr
        then some (message (failed_text args ran.stderr))
        else error_of ran.failure;
  }

  unfoldable pub vbm_out_err_retry : ℕ → List Text → W → Ran Error × W
  unfolding judge
  vbm_out_err_retry zero args w = let (ran, w') = run_cmd args w in (judge args ran, w')
  vbm_out_err_retry (suc zero) args w = let (ran, w') = run_cmd args w in (judge args ran, w')
  vbm_out_err_retry (suc (suc retry)) args w =
      let (ran, w') = run_cmd args w in
      elim (contains object_not_ready ran.stderr) [
        | true ↦ vbm_out_err_retry (suc retry) args (sleep retry_delay w')
        | false ↦ (judge args ran, w')
      ]

  unfoldable pub vbm_out_err : List Text → W → Ran Error × W
  unfolding vbm_out_err_retry
  vbm_out_err args = vbm_out_err_retry retry_count_on_object_not_ready_error args

  unfoldable pub vbm_out : List Text → Act W Text
  unfolding vbm_out_err
  vbm_out args w = let (ran, w') = vbm_out_err args w in (or_failed ran.failure ran.stdout, w')

  unfoldable pub vbm : List Text → Act W (Unit {0})
  unfolding vbm_out_err
  vbm args w = let (ran, w') = vbm_out_err args w in (or_failed ran.failure tt, w')

  -- VBoxCmdManager
  unfoldable pub vbox_cmd_manager : Manager W
  unfolding vbm vbm_out vbm_out_err
  vbox_cmd_manager = record { vbm = vbm; vbm_out = vbm_out; vbm_out_err = vbm_out_err }

-- parseVersion
unfoldable pub parse_version : Text → Result Error (ℤ × ℤ)
parse_version version =
    let bad : Result Error (ℤ × ℤ) = err (message (bytes "Invalid version: " ++ quoted version)) in
    elim (split b'.' version) [
      | [] ↦ bad
      | part ∷ parts ↦ elim parts [
        | [] ↦ bad
        | second ∷ _ ↦ elim (parse_int part) [
          | none ↦ bad
          | some major ↦ elim (parse_int second) [ none ↦ bad | some minor ↦ ok (major, minor) ]
        ]
      ]
    ]

-- Versions up to 4.2 are refused; of those below 5 the code only warns.
unfoldable pub check_vbox_manage_version : Text → Result Error (Unit {0})
unfolding parse_version
check_vbox_manage_version version =
    let unsupported : Result Error (Unit {0}) = err (
      message (
        bytes "We support Virtualbox starting with version 5. Your VirtualBox install is "
        ++ (quoted version ++ bytes ". Please upgrade at https://www.virtualbox.org"))) in
    elim (parse_version version) [
      | err _ ↦ unsupported
      | ok found ↦
          if ltb_ℤ found.0 (pos 4) || (eqb_ℤ found.0 (pos 4) && leb_ℤ found.1 (pos 2))
          then unsupported
          else ok tt
    ]

-- ===== src/VirtualBox/Disk.antt =====
-- drivers/virtualbox/disk.go: the disk image that is piped to VBoxManage.
pub mod Filled
use Prim.Native.Nat.{◌%◌, ◌/◌}
use machine.Base.{
  ℕ, zero, suc, ◌+◌, ◌-◌, ◌*◌, ◌^◌, Bool, true, false, Option, none, some, List, [], ◌∷◌, min, ltb,
  leb, if◌then◌else◌,
}
use machine.Base.Exec.{Result, ok, err, pure, ◌>>=◌, ◌>>◌}
use machine.Text.{Text, bytes, text_eq}
use machine.Text.Scan.{equal_quote_line, parse_key_values}
use machine.Errors.{Error, endless, Act}
use machine.VirtualBox.{Manager}

-- The process `VBoxManage convertfromraw` and its standard input.
pub record Process (W : Type 0) : Type 0 where
  pub start : Act W (Unit {0})
  -- `io.Copy(stdin, r)`: the bytes that it has copied.
  pub copy : Act W ℕ
  -- `w.Write` of so many zeros: how many it has written, and its error.
  pub write_zeros : ℕ → W → (ℕ × Option Error) × W
  pub close : Act W (Unit {0})
  pub wait : Act W (Unit {0})

abbrev pub blocksize : ℕ
blocksize = 32768

module _ {W : Type 0} (process : Process W) where
  -- The loop of `zeroFill`: as many rounds as there may be, and the zeros that are left.
  unfoldable pub zero_fill_from : ℕ → ℕ → Act W (Unit {0})
  zero_fill_from rounds zero w = (ok tt, w)
  zero_fill_from zero (suc n) w = (err endless, w)
  zero_fill_from (suc rounds) (suc n) w =
      let ((k, e), w') = process.write_zeros (min blocksize (suc n)) w in
      elim e [ some failure ↦ (err failure, w') | none ↦ zero_fill_from rounds (suc n - k) w' ]

  -- zeroFill. A round fills a block or all that is left.
  unfoldable pub zero_fill : ℕ → Act W (Unit {0})
  unfolding zero_fill_from
  zero_fill n = zero_fill_from (n / blocksize + 1) n

  -- `int64(size) << 20`, where that is positive.
  unfoldable pub size_bytes : ℕ → ℕ
  size_bytes size = let raw = (size * 2 ^ 20) % 2 ^ 64 in if ltb raw (2 ^ 63) then raw else 0

  -- createDiskImage, for a size in MB that is not negative.
  unfoldable pub create_disk_image : ℕ → Act W (Unit {0})
  unfolding zero_fill size_bytes
  create_disk_image size =
      process.start
      >> (process.copy >>= λ n. zero_fill (size_bytes size - n) >> (process.close >> process.wait))

pub record VirtualDisk : Type 0 where
  pub uuid : Text
  pub path : Text

-- The callback of `getVMDiskInfo`.
abbrev on_disk : Text → Text → VirtualDisk → Result Error VirtualDisk
on_disk key val disk =
    if text_eq key (bytes "SATA-1-0")
    then ok (record disk { path = val })
    else if text_eq key (bytes "SATA-ImageUUID-1-0")
    then ok (record disk { uuid = val })
    else ok disk

-- getVMDiskInfo
unfoldable pub get_vm_disk_info : {W : Type 0} → Text → Manager W → Act W VirtualDisk
unfolding parse_key_values equal_quote_line text_eq
get_vm_disk_info name vbox =
    vbox.vbm_out (bytes "showvminfo" ∷ name ∷ bytes "--machinereadable" ∷ []) >>= λ out w.
    (parse_key_values equal_quote_line on_disk out (record { uuid = []; path = [] }), w)

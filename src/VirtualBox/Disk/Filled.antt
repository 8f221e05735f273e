-- ===== src/VirtualBox/Disk/Filled.antt =====
-- How many bytes createDiskImage of drivers/virtualbox/disk.go writes.
use Prim.Native.Nat.{◌/◌}
use machine.Base.{
  ℕ, zero, suc, ◌+◌, ◌-◌, ◌*◌, ◌^◌, ◌≤◌, ◌<◌, ◌≡◌, ◌≢◌, refl, sym, ap, ◌∙◌, ◌⊎◌, inl, inr, Option,
  none, some, min, max, arith,
}
use machine.Base.Exec.{Result, ok, err, ◌>>=◌, ◌>>◌, bind-inverse, err-injective}
use machine.Errors.{Error, endless, Act}
use machine.VirtualBox.Disk.{
  Process, blocksize, zero_fill_from, zero_fill, size_bytes, create_disk_image,
}

-- What the documentation of `io.Writer` and `io.Copy` says of the pipe, `written` being the bytes that
-- have gone through it: a write that is short has an error, and the other calls add nothing.
pub record IsPipe {W : Type 0} (process : Process W) (written : W → ℕ) : Type 0 where
  pub started : (w : W) → written (process.start w).1 ≡ written w
  pub copied :
      (w : W) (n : ℕ) → (process.copy w).0 ≡ ok n → written (process.copy w).1 ≡ written w + n
  pub wrote :
      (n : ℕ) (w : W)
      → (process.write_zeros n w).0.1 ≡ none
      → ((process.write_zeros n w).0.0 ≡ n) × (written (process.write_zeros n w).1 ≡ written w + n)
  pub closed : (w : W) → written (process.close w).1 ≡ written w
  pub waited : (w : W) → written (process.wait w).1 ≡ written w
  -- The errors are those of the system.
  pub write_ends : (n : ℕ) (w : W) → (process.write_zeros n w).0.1 ≢ some endless

module _ {W : Type 0} (process : Process W) (written : W → ℕ) (pipe : IsPipe process written) where
  -- The outcome of the loop: all the zeros are written, or a write has failed.
  abbrev pub Outcome : ℕ → W → Result Error (Unit {0}) × W → Type 0
  Outcome n w end =
      ((end.0 ≡ ok tt) × (written end.1 ≡ written w + n)) ⊎ (end.0 ≢ ok tt) × (end.0 ≢ err endless)

  zero_fill_from-Outcome :
      (rounds n : ℕ) (w : W)
      → n ≤ rounds * blocksize
      → Outcome n w (zero_fill_from process rounds n w)
  unfolding zero_fill_from
  zero_fill_from-Outcome rounds zero w h = inl (refl, omega arith)
  zero_fill_from-Outcome zero (suc n) w h = absurd (omega arith)
  zero_fill_from-Outcome (suc rounds) (suc n) w h =
      go (process.write_zeros offered w).0.1 refl (λ whole added.
        continued whole added
          (zero_fill_from-Outcome rounds (suc n - wrote_now) next (omega (arith, whole, h))))
    where
      offered : ℕ
      offered = min blocksize (suc n)

      wrote_now : ℕ
      wrote_now = (process.write_zeros offered w).0.0

      next : W
      next = (process.write_zeros offered w).1

      rest : Result Error (Unit {0}) × W
      rest = zero_fill_from process rounds (suc n - wrote_now) next

      continued :
          wrote_now ≡ offered
          → written next ≡ written w + offered
          → Outcome (suc n - wrote_now) next rest
          → Outcome (suc n) w rest
      continued whole added (inl (done, total)) = inl (done, omega (arith, whole, added, total))
      continued whole added (inr failed) = inr failed

      go :
          (e : Option Error)
          → (process.write_zeros offered w).0.1 ≡ e
          → (wrote_now ≡ offered → written next ≡ written w + offered → Outcome (suc n) w rest)
          → Outcome (suc n) w (elim e as (λ _. Result Error (Unit {0}) × W) [
            | some failure ↦ (err failure, next)
            | none ↦ rest
          ])
      go none same more = let (whole, added) = pipe.wrote offered w same in more whole added
      go (some failure) same more =
          inr (λ q. cc, λ q. pipe.write_ends offered w (same ∙ ap some (err-injective q)))

  pub zero_fill-Outcome : (n : ℕ) (w : W) → Outcome n w (zero_fill process n w)
  unfolding zero_fill
  zero_fill-Outcome n w = zero_fill_from-Outcome (n / blocksize + 1) n w (omega arith)

  size_bytes-small : (size : ℕ) → size < 2 ^ 43 → size_bytes process size ≡ size * 2 ^ 20
  unfolding size_bytes
  size_bytes-small size h = ground arith

  -- A disk image of fewer than 2 ^ 43 MB that is made has the size that was asked for, or that of
  -- the archive it starts with if that is larger: so many bytes have gone to the process.
  pub create_disk_image-size :
      (size : ℕ) (w : W)
      → size < 2 ^ 43
      → (create_disk_image process size w).0 ≡ ok tt
      → (n : ℕ) × ((process.copy (process.start w).1).0 ≡ ok n)
        × (written (create_disk_image process size w).1 ≡ written w + max n (size * 2 ^ 20))
  unfolding create_disk_image
  create_disk_image-size size w small h =
      let (_, _, s1) = bind-inverse process.start (λ _. process.copy >>= fill) w tt h in
      let h1 = result s1 ∙ h in
      let (n, e1, s2) = bind-inverse process.copy fill (process.start w).1 tt h1 in
      let h2 = result s2 ∙ h1 in
      let (_, filled, s3) = bind-inverse (zeros n) (λ _. process.close >> process.wait) w1 tt h2 in
      let h3 = result s3 ∙ h2 in
      let (_, _, s4) = bind-inverse process.close (λ _. process.wait) (zeros n w1).1 tt h3 in
      let added =
        filled_up (size_bytes process size - n) w1 filled
          (zero_fill-Outcome (size_bytes process size - n) w1) in
      (
        n,
        e1,
        ap (λ r. written r.1) (s1 ∙ (s2 ∙ (s3 ∙ s4)))
            ∙ omega (
              arith,
              pipe.waited (process.close (zeros n w1).1).1,
              pipe.closed (zeros n w1).1,
              added,
              pipe.copied (process.start w).1 n e1,
              pipe.started w,
              size_bytes-small size small,
            ),
      )
    where
      result : {x y : Result Error (Unit {0}) × W} → x ≡ y → y.0 ≡ x.0
      result q = ap {A = Result Error (Unit {0}) × W} (λ r. r.0) (sym q)

      filled_up :
          (k : ℕ) (v : W) {u : Unit {0}}
          → (zero_fill process k v).0 ≡ ok u
          → Outcome k v (zero_fill process k v)
          → written (zero_fill process k v).1 ≡ written v + k
      filled_up k v e (inl (_, total)) = total
      filled_up k v e (inr (no_success, _)) = absurd (no_success e)

      w1 : W
      w1 = (process.copy (process.start w).1).1

      zeros : ℕ → Act W (Unit {0})
      zeros n = zero_fill process (size_bytes process size - n)

      fill : ℕ → Act W (Unit {0})
      fill n = zeros n >> (process.close >> process.wait)

-- ===== src/Tests/Detect.antt =====
-- The detection of two provisioners on a machine that runs Ubuntu.
use mathlib.Core.List.{Memᴰ}
use mathlib.Core.List.Memᴰ
use machine.Base.{
  Option, some, Bool, ◌≡◌, refl, sym, ap, ◌∙◌, ◌⊎◌, inl, inr, true, false, List, [], ◌∷◌,
}
use machine.Base.Exec.{ok, pure}
use machine.Text.{Text, bytes, text_eq, split}
use machine.Errors.{Act}
use machine.State.{State, running}
use machine.Wait.{wait_for, wait_for_specific, wait_for_specific_or_error, wait_from}
use machine.Driver.{Driver}
use machine.Provision.OsRelease.{
  OsRelease, no_os_release, new_os_release, parse_os_release, parse_lines, parse_line, strip_quotes,
  set_if_possible,
}
use machine.Provision.Detect.{
  Registered, ssh_available, wait_for_ssh, detect_provisioner, Only, detect_provisioner-Only,
}
use machine.Provision.Compatible.{Distribution, compatible_with_host, compatible_with_host_unique}
use machine.Tests.World.{machine_driver, arrive, provisioner_named}

abbrev goes_with : Text → Registered State
goes_with id = record {
  new_provisioner = λ d info. provisioner_named id;
  compatible_with_host = λ info. text_eq info.id id;
}

abbrev two : List (Registered State)
two = goes_with (bytes "boot2docker") ∷ goes_with (bytes "ubuntu") ∷ []

abbrev ssh : Driver State → Text → Act State Text
ssh d command = pure (bytes "ID=ubuntu\n")

abbrev ubuntu : OsRelease
ubuntu = record no_os_release { id = bytes "ubuntu" }

parsed : new_os_release (bytes "ID=ubuntu\n") ≡ ok ubuntu
unfolding new_os_release parse_os_release parse_lines parse_line strip_quotes set_if_possible split
    text_eq
parsed = refl

waited : wait_for_ssh arrive ssh machine_driver running ≡ (ok tt, running)
unfolding wait_for_ssh ssh_available wait_for wait_for_specific wait_for_specific_or_error wait_from
waited = refl

two-Only : Only ubuntu (goes_with (bytes "ubuntu")) two
unfolding text_eq
two-Only = record {
  registered = Memᴰ.tail (Memᴰ.head refl);
  compatible = refl;
  no_other = λ q m fits. by_place q (Memᴰ.cases_cons m) fits;
}
  where
    last_place :
        (q : Registered State)
        → (q ≡ goes_with (bytes "ubuntu")) ⊎ Memᴰ q []
        → q ≡ goes_with (bytes "ubuntu")
    last_place q (inl same) = same
    last_place q (inr m) = absurd (Memᴰ.not-nil m)

    by_place :
        (q : Registered State)
        → (q ≡ goes_with (bytes "boot2docker")) ⊎ Memᴰ q (goes_with (bytes "ubuntu") ∷ [])
        → q.compatible_with_host ubuntu ≡ true
        → q ≡ goes_with (bytes "ubuntu")
    by_place q (inl same) fits =
        let clash : true ≡ false =
          sym fits ∙ ap (λ (x : Registered State). x.compatible_with_host ubuntu) same in
        cc
    by_place q (inr m) fits = last_place q (Memᴰ.cases_cons m)

detect_provisioner-Only_example :
    (detect_provisioner arrive ssh machine_driver two running).0
    ≡ ok (provisioner_named (bytes "ubuntu"))
unfolding waited
detect_provisioner-Only_example =
    detect_provisioner-Only arrive ssh machine_driver two (goes_with (bytes "ubuntu")) ubuntu
      (bytes "ID=ubuntu\n") running refl refl parsed two-Only

abbrev always : Text → Option Bool
always version = some true

systemd_fits : compatible_with_host always ubuntu Distribution.ubuntu_systemd ≡ true
unfolding compatible_with_host text_eq
systemd_fits = refl

-- A system like Arch that is named for another distribution goes with two provisioners.
two_fit :
    let info = record ubuntu { id = bytes "debian"; id_like = bytes "arch" } in
    (compatible_with_host always info Distribution.debian ≡ true)
    × (compatible_with_host always info Distribution.arch ≡ true)
unfolding compatible_with_host text_eq
two_fit = (refl, refl)

compatible_with_host_unique_example : Distribution.ubuntu_systemd ≡ Distribution.ubuntu_systemd
unfolding text_eq
compatible_with_host_unique_example =
    compatible_with_host_unique always ubuntu Distribution.ubuntu_systemd
      Distribution.ubuntu_systemd (record { not_like_arch = refl; not_like_coreos = refl })
      systemd_fits systemd_fits

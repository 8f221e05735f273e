-- ===== src/Provision/Compatible.antt =====
-- Which provisioner goes with which system: the methods `CompatibleWithHost` of
-- libmachine/provision (arch.go, boot2docker.go, coreos.go, fedora.go, fedora_coreos.go, generic.go,
-- suse.go, ubuntu_systemd.go, ubuntu_upstart.go).
use machine.Base.{
  ◌≡◌, refl, sym, ap, ◌∙◌, Bool, true, false, ◌&&◌, ◌||◌, not, Option, none, some, if◌then◌else◌,
}
use machine.Text.Scan.{to_lower}
use machine.Text.{Text, bytes, text_eq, text_eq_iff}
use machine.Provision.OsRelease.{OsRelease}

-- The registered provisioners.
pub data Distribution : Type 0 where
  arch boot2docker centos coreos debian fedora fedora_coreos oracle_linux rancher red_hat :
      Distribution
  opensuse sled sles ubuntu_systemd ubuntu_upstart : Distribution

-- `OsReleaseID`
unfoldable pub os_release_id : Distribution → Text
os_release_id arch = bytes "arch"
os_release_id boot2docker = bytes "boot2docker"
os_release_id centos = bytes "centos"
os_release_id coreos = bytes "coreos"
os_release_id debian = bytes "debian"
os_release_id fedora = bytes "fedora"
os_release_id fedora_coreos = bytes "fedora"
os_release_id oracle_linux = bytes "ol"
os_release_id rancher = bytes "rancheros"
os_release_id red_hat = bytes "rhel"
os_release_id opensuse = bytes "openSUSE"
os_release_id sled = bytes "sled"
os_release_id sles = bytes "sles"
os_release_id ubuntu_systemd = bytes "ubuntu"
os_release_id ubuntu_upstart = bytes "ubuntu"

or_left : (a b : Bool) → b ≡ false → (a || b) ≡ true → a ≡ true
or_left true b h k = refl
or_left false b h k = cc

and_both : (a b : Bool) → (a && b) ≡ true → (a ≡ true) × (b ≡ true)
and_both true b k = (refl, k)
and_both false b k = cc

not-true : (a : Bool) → not a ≡ true → a ≡ false
not-true true k = cc
not-true false k = refl

-- `since_systemd` stands for `strconv.ParseFloat` and the comparison with 15.04: nothing for an
-- error or for a number that compares with none.
module _ (since_systemd : Text → Option Bool) (info : OsRelease) where
  unfoldable pub has_version : Bool → Bool
  has_version wanted = elim (since_systemd info.version_id) [
    | none ↦ false
    | some b ↦ if b then wanted else not wanted
  ]

  abbrev has_id : Distribution → Bool
  has_id d = text_eq info.id (os_release_id d)

  unfoldable pub arch_compatible : Bool
  unfolding os_release_id
  arch_compatible = has_id arch || text_eq info.id_like (os_release_id arch)

  unfoldable pub boot2docker_compatible : Bool
  boot2docker_compatible = text_eq info.id (bytes "boot2docker")

  unfoldable pub coreos_compatible : Bool
  unfolding os_release_id
  coreos_compatible = has_id coreos || text_eq info.id_like (os_release_id coreos)

  unfoldable pub fedora_compatible : Bool
  unfolding os_release_id
  fedora_compatible =
      let is_fedora = has_id fedora in
      let is_coreos = text_eq info.variant_id (bytes "coreos") in is_fedora && not is_coreos

  unfoldable pub fedora_coreos_compatible : Bool
  fedora_coreos_compatible =
      let is_fedora = text_eq info.id (bytes "fedora") in
      let is_coreos = text_eq info.variant_id (bytes "coreos") in is_fedora && is_coreos

  unfoldable pub suse_compatible : Distribution → Bool
  unfolding to_lower os_release_id
  suse_compatible d = text_eq (to_lower info.id) (to_lower (os_release_id d))

  unfoldable pub ubuntu_systemd_compatible : Bool
  unfolding has_version os_release_id
  ubuntu_systemd_compatible = has_id ubuntu_systemd && has_version true

  unfoldable pub ubuntu_upstart_compatible : Bool
  unfolding has_version os_release_id
  ubuntu_upstart_compatible = has_id ubuntu_upstart && has_version false

  unfoldable pub generic_compatible : Distribution → Bool
  unfolding os_release_id
  generic_compatible d = has_id d

  -- `CompatibleWithHost` of each, its own or the generic one that it embeds.
  unfoldable pub compatible_with_host : Distribution → Bool
  unfolding arch_compatible boot2docker_compatible coreos_compatible fedora_compatible
      fedora_coreos_compatible suse_compatible ubuntu_systemd_compatible ubuntu_upstart_compatible
      generic_compatible
  compatible_with_host arch = arch_compatible
  compatible_with_host boot2docker = boot2docker_compatible
  compatible_with_host centos = generic_compatible centos
  compatible_with_host coreos = coreos_compatible
  compatible_with_host debian = generic_compatible debian
  compatible_with_host fedora = fedora_compatible
  compatible_with_host fedora_coreos = fedora_coreos_compatible
  compatible_with_host oracle_linux = generic_compatible oracle_linux
  compatible_with_host rancher = generic_compatible rancher
  compatible_with_host red_hat = generic_compatible red_hat
  compatible_with_host opensuse = suse_compatible opensuse
  compatible_with_host sled = suse_compatible sled
  compatible_with_host sles = suse_compatible sles
  compatible_with_host ubuntu_systemd = ubuntu_systemd_compatible
  compatible_with_host ubuntu_upstart = ubuntu_upstart_compatible

  -- The distribution by the name in lower case and, where two bear it, by the variant or the version.
  abbrev named : Text → Option Distribution
  named t =
      if text_eq t (bytes "arch")
      then some arch
      else if text_eq t (bytes "boot2docker")
      then some boot2docker
      else if text_eq t (bytes "centos")
      then some centos
      else if text_eq t (bytes "coreos")
      then some coreos
      else if text_eq t (bytes "debian")
      then some debian
      else if text_eq t (bytes "fedora")
      then some (if text_eq info.variant_id (bytes "coreos") then fedora_coreos else fedora)
      else if text_eq t (bytes "ol")
      then some oracle_linux
      else if text_eq t (bytes "rancheros")
      then some rancher
      else if text_eq t (bytes "rhel")
      then some red_hat
      else if text_eq t (bytes "opensuse")
      then some opensuse
      else if text_eq t (bytes "sled")
      then some sled
      else if text_eq t (bytes "sles")
      then some sles
      else if text_eq t (bytes "ubuntu")
      then some (if has_version true then ubuntu_systemd else ubuntu_upstart)
      else none

  by_id :
      (t : Text) (d : Option Distribution)
      → named (to_lower t) ≡ d
      → text_eq info.id t ≡ true
      → named (to_lower info.id) ≡ d
  by_id t d e same = ap (λ u. named (to_lower u)) ((text_eq_iff info.id t).0 same) ∙ e

  by_lower :
      (t : Text) (d : Option Distribution)
      → named t ≡ d
      → text_eq (to_lower info.id) t ≡ true
      → named (to_lower info.id) ≡ d
  by_lower t d e same = ap named ((text_eq_iff (to_lower info.id) t).0 same) ∙ e

  -- The system does not call itself like Arch or CoreOS.
  pub record Original : Type 0 where
    pub not_like_arch : text_eq info.id_like (bytes "arch") ≡ false
    pub not_like_coreos : text_eq info.id_like (bytes "coreos") ≡ false

  older : has_version false ≡ true → has_version true ≡ false
  unfolding has_version
  older = go (since_systemd info.version_id)
    where
      go :
          (o : Option Bool)
          → (elim o [ none ↦ false | some b ↦ if b then false else not false ]) ≡ true
          → (elim o [ none ↦ false | some b ↦ if b then true else not true ]) ≡ false
      go none e = cc
      go (some true) e = cc
      go (some false) e = refl

  compatible_with_host-named :
      (d : Distribution)
      → Original
      → compatible_with_host d ≡ true
      → named (to_lower info.id) ≡ some d
  unfolding compatible_with_host to_lower text_eq os_release_id
  compatible_with_host-named arch o e =
      by_id (bytes "arch") (some arch) refl (or_left _ _ o.not_like_arch e)
  compatible_with_host-named boot2docker o e = by_id (bytes "boot2docker") (some boot2docker) refl e
  compatible_with_host-named centos o e = by_id (bytes "centos") (some centos) refl e
  compatible_with_host-named coreos o e =
      by_id (bytes "coreos") (some coreos) refl (or_left _ _ o.not_like_coreos e)
  compatible_with_host-named debian o e = by_id (bytes "debian") (some debian) refl e
  compatible_with_host-named fedora o e =
      let (a, b) = and_both _ _ e in
      by_id (bytes "fedora") (some fedora)
        (rw (not-true (text_eq info.variant_id (bytes "coreos")) b) refl) a
  compatible_with_host-named fedora_coreos o e =
      let (a, b) = and_both _ _ e in by_id (bytes "fedora") (some fedora_coreos) (rw b refl) a
  compatible_with_host-named oracle_linux o e = by_id (bytes "ol") (some oracle_linux) refl e
  compatible_with_host-named rancher o e = by_id (bytes "rancheros") (some rancher) refl e
  compatible_with_host-named red_hat o e = by_id (bytes "rhel") (some red_hat) refl e
  compatible_with_host-named opensuse o e = by_lower (bytes "opensuse") (some opensuse) refl e
  compatible_with_host-named sled o e = by_lower (bytes "sled") (some sled) refl e
  compatible_with_host-named sles o e = by_lower (bytes "sles") (some sles) refl e
  compatible_with_host-named ubuntu_systemd o e =
      let (a, b) = and_both _ _ e in by_id (bytes "ubuntu") (some ubuntu_systemd) (rw b refl) a
  compatible_with_host-named ubuntu_upstart o e =
      let (a, b) = and_both _ _ e in
      by_id (bytes "ubuntu") (some ubuntu_upstart) (rw (older b) refl) a

  -- At most one of the registered provisioners goes with a system, provided that the system does not
  -- call itself like Arch or CoreOS.
  pub compatible_with_host_unique :
      (d e : Distribution)
      → Original
      → compatible_with_host d ≡ true
      → compatible_with_host e ≡ true
      → d ≡ e
  compatible_with_host_unique d e o fit_d fit_e =
      some_inj (sym (compatible_with_host-named d o fit_d) ∙ compatible_with_host-named e o fit_e)
    where
      some_inj : {x y : Distribution} → ◌≡◌ {A = Option Distribution} (some x) (some y) → x ≡ y
      some_inj p = cc

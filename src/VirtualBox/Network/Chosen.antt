-- ===== src/VirtualBox/Network/Chosen.antt =====
-- The host-only network that getOrCreateHostOnlyNetwork of drivers/virtualbox/network.go returns.
use mathlib.Core.List.{Memᴰ}
use machine.Base.{
  ℕ, zero, suc, ◌≡◌, refl, sym, ap, ◌∙◌, subst, ◌⊎◌, inl, inr, true, Bool-cases, Option, none, some,
  [], ◌∷◌, arith,
}
use machine.Base.Exec.{
  Result, ok, err, pure, map_error, map_err-ok, ◌>>=◌, ◌>>◌, bind-inverse, ok-injective,
  some-injective,
}
use machine.Text.{Text, text_eq, text_eq_iff}
use machine.Text.Dict.{Dict, lookup}
use machine.Errors.{Error, Act}
use machine.VirtualBox.{Manager}
use machine.VirtualBox.Ip.{Ip, Quad, ip_equal, mask_string}
use machine.VirtualBox.Network.{
  HostOnlyNetwork, buggy_netmask, new_adapter_not_visible, matches, get_host_only_adapter,
  first_new, list_host_only_adapters, wait_new_from, wait_for_new_host_only_network,
  create_hostonly_adapter, save, get_or_create_host_only_network,
}

-- The adapter that is found is listed, and it matches.
get_host_only_adapter-Memᴰ :
    (nets : Dict HostOnlyNetwork) (host_ip netmask : Ip) (n : HostOnlyNetwork)
    → get_host_only_adapter nets host_ip netmask ≡ some n
    → ((k : Text) × Memᴰ (k, n) nets) × (matches host_ip netmask n ≡ true)
unfolding get_host_only_adapter
get_host_only_adapter-Memᴰ [] host_ip netmask n h = cc
get_host_only_adapter-Memᴰ ((k, m) ∷ nets) host_ip netmask n h =
    elim (Bool-cases (matches host_ip netmask m)) [
      | inl yes_it ↦
          let same = some-injective (sym (rw yes_it refl) ∙ h) in
          (
            (k, Memᴰ.head (ap (λ x. (k, x)) (sym same))),
            subst (λ x. matches host_ip netmask x ≡ true) same yes_it,
          )
      | inr other ↦
          let ((j, there), hit) =
            get_host_only_adapter-Memᴰ nets host_ip netmask n (sym (rw other refl) ∙ h) in
          ((j, Memᴰ.tail there), hit)
    ]

-- A network that is new is listed, and the old ones do not have its name.
first_new-new :
    (old nets : Dict HostOnlyNetwork) (n : HostOnlyNetwork)
    → first_new old nets ≡ some n
    → (k : Text) × Memᴰ (k, n) nets × (lookup k old ≡ none)
unfolding first_new
first_new-new old [] n h = cc
first_new-new old ((k, m) ∷ nets) n h = go (lookup k old) refl h (first_new-new old nets n)
  where
    go :
        (o : Option HostOnlyNetwork)
        → lookup k old ≡ o
        → elim o [ some _ ↦ first_new old nets | none ↦ some m ] ≡ some n
        → (first_new old nets ≡ some n → (j : Text) × Memᴰ (j, n) nets × (lookup j old ≡ none))
        → (j : Text) × Memᴰ (j, n) ((k, m) ∷ nets) × (lookup j old ≡ none)
    go none e eq again = (k, Memᴰ.head (ap (λ x. (k, x)) (sym (some-injective eq))), e)
    go (some _) e eq again = let (j, there, absent) = again eq in (j, Memᴰ.tail there, absent)

module _ {W : Type 0} (vbox : Manager W) (sleep : ℕ → W → W) where
  -- What the polling returns is listed by VirtualBox at the end, under a name that is new.
  pub record New (old : Dict HostOnlyNetwork) (n : HostOnlyNetwork) : Type 0 where
    pub seen : W
    pub nets : Dict HostOnlyNetwork
    pub listed : (list_host_only_adapters vbox seen).0 ≡ ok nets
    pub name : Text
    pub among : Memᴰ (name, n) nets
    pub absent : lookup name old ≡ none

  wait_new_from-New :
      (rounds : ℕ) (old : Dict HostOnlyNetwork) (w : W) (n : HostOnlyNetwork)
      → (wait_new_from vbox sleep rounds old w).0 ≡ ok n
      → New old n
  unfolding wait_new_from
  wait_new_from-New zero old w n h = cc
  wait_new_from-New (suc rounds) old w n h =
      go (list_host_only_adapters vbox (sleep 1000 w)).0 refl h
        (wait_new_from-New rounds old (list_host_only_adapters vbox (sleep 1000 w)).1 n)
    where
      again : W
      again = (list_host_only_adapters vbox (sleep 1000 w)).1

      pick :
          (nets : Dict HostOnlyNetwork) (o : Option HostOnlyNetwork)
          → (list_host_only_adapters vbox (sleep 1000 w)).0 ≡ ok nets
          → first_new old nets ≡ o
          → (elim o as (λ _. Result Error HostOnlyNetwork × W) [
            | some m ↦ (ok m, again)
            | none ↦ wait_new_from vbox sleep rounds old again
          ]).0
            ≡ ok n
          → ((wait_new_from vbox sleep rounds old again).0 ≡ ok n → New old n)
          → New old n
      pick nets none e f eq more = more eq
      pick nets (some m) e f eq more =
          let (k, there, fresh) = first_new-new old nets n (f ∙ ap some (ok-injective eq)) in
          record {
            seen = sleep 1000 w;
            nets = nets;
            listed = e;
            name = k;
            among = there;
            absent = fresh;
          }

      go :
          (r : Result Error (Dict HostOnlyNetwork))
          → (list_host_only_adapters vbox (sleep 1000 w)).0 ≡ r
          → (elim r as (λ _. Result Error HostOnlyNetwork × W) [
            | err e ↦ (err e, again)
            | ok nets ↦ elim (first_new old nets) [
              | some m ↦ (ok m, again)
              | none ↦ wait_new_from vbox sleep rounds old again
            ]
          ]).0
            ≡ ok n
          → ((wait_new_from vbox sleep rounds old again).0 ≡ ok n → New old n)
          → New old n
      go (err e) same eq more = cc
      go (ok nets) same eq more = pick nets (first_new old nets) same refl eq more

  -- What the network that is returned has to do with those there were.
  pub record Chosen (host_ip netmask : Ip) (nets : Dict HostOnlyNetwork) (n : HostOnlyNetwork)
      : Type 0 where
    pub address : ip_equal host_ip n.ip ≡ true
    pub its_mask : (mask_string netmask ≡ mask_string n.mask) ⊎ (mask_string n.mask ≡ buggy_netmask)
    pub origin :
        ((k : Text) × Memᴰ (k, n) nets)
        ⊎ (latest : HostOnlyNetwork) × New nets latest
          × (n ≡ record latest { ip = host_ip; mask = netmask })

  get-Chosen :
      (host_ip netmask : Ip) (nets : Dict HostOnlyNetwork) (n : HostOnlyNetwork)
      → get_host_only_adapter nets host_ip netmask ≡ some n
      → Chosen host_ip netmask nets n
  get-Chosen host_ip netmask nets n h =
      let (there, hit) = get_host_only_adapter-Memᴰ nets host_ip netmask n h in
      record { address = ground arith; its_mask = either_mask n hit; origin = inl there }
    where
      either_mask :
          (m : HostOnlyNetwork)
          → matches host_ip netmask m ≡ true
          → (mask_string netmask ≡ mask_string m.mask) ⊎ (mask_string m.mask ≡ buggy_netmask)
      either_mask m hit = elim (Bool-cases (text_eq (mask_string netmask) (mask_string m.mask))) [
        | inl same ↦ inl ((text_eq_iff (mask_string netmask) (mask_string m.mask)).0 same)
        | inr other ↦ inr ((text_eq_iff (mask_string m.mask) buggy_netmask).0 (ground arith))
      ]

  created-Chosen :
      (q : Quad) (netmask : Ip) (nets : Dict HostOnlyNetwork) (latest : HostOnlyNetwork)
      → New nets latest
      → Chosen (some q) netmask nets (record latest { ip = some q; mask = netmask })
  created-Chosen q netmask nets latest fresh = record {
    address = ground arith;
    its_mask = inl refl;
    origin = inr (latest, fresh, refl);
  }

  -- A host-only network that is found or made for an address and a mask has that address, and that
  -- mask or the one VirtualBox wrongly reports for an adapter just made; it is one of the networks
  -- there were, or VirtualBox lists it at the end under a name that none of them had.
  pub get_or_create_host_only_network-Chosen :
      (q : Quad) (netmask : Ip) (nets : Dict HostOnlyNetwork) (w : W) (n : HostOnlyNetwork)
      → (get_or_create_host_only_network vbox sleep (some q) netmask nets w).0 ≡ ok n
      → Chosen (some q) netmask nets n
  unfolding get_or_create_host_only_network wait_for_new_host_only_network
  get_or_create_host_only_network-Chosen q netmask nets w n h =
      found (get_host_only_adapter nets (some q) netmask) refl h
    where
      set : HostOnlyNetwork → HostOnlyNetwork
      set m = record m { ip = some q; mask = netmask }

      wait : Act W HostOnlyNetwork
      wait = wait_for_new_host_only_network vbox sleep nets

      make : Act W HostOnlyNetwork
      make =
          map_error (λ _. new_adapter_not_visible) wait >>= λ m. (save vbox (set m) >> pure (set m))

      made : (v : W) → (make v).0 ≡ ok n → Chosen (some q) netmask nets n
      made v eq =
          let (m, visible, step) =
            bind-inverse (map_error (λ _. new_adapter_not_visible) wait)
              (λ m. save vbox (set m) >> pure (set m)) v n eq in
          let (_, _, last) =
            bind-inverse (save vbox (set m)) (λ _. pure (set m)) (wait v).1 n
              (ap (λ r. r.0) (sym step) ∙ eq) in
          subst (Chosen (some q) netmask nets)
            (ok-injective (ap (λ r. r.0) (sym (step ∙ last)) ∙ eq))
            (created-Chosen q netmask nets m (
              wait_new_from-New 10 nets v m
                (map_err-ok (λ _. new_adapter_not_visible) (wait v).0 m visible)))

      found :
          (o : Option HostOnlyNetwork)
          → get_host_only_adapter nets (some q) netmask ≡ o
          → (elim o as (λ _. Result Error HostOnlyNetwork × W) [
            | some m ↦ (ok m, w)
            | none ↦ make (create_hostonly_adapter vbox w).1
          ]).0
            ≡ ok n
          → Chosen (some q) netmask nets n
      found none e eq = made (create_hostonly_adapter vbox w).1 eq
      found (some m) e eq =
          subst (Chosen (some q) netmask nets) (ok-injective eq)
            (get-Chosen (some q) netmask nets m e)

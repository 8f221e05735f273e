-- ===== src/VirtualBox/Dhcp/Range.antt =====
-- Where the addresses lie that getRandomIPinSubnet and getDHCPAddressRange of
-- drivers/virtualbox/virtualbox.go choose.
use Prim.Native.Nat.{bit_and}
use machine.Base.{
  ℕ, zero, suc, ◌+◌, ◌-◌, ◌^◌, ◌≤◌, ◌<◌, ◌≡◌, ◌≢◌, refl, sym, ap, ◌∙◌, subst, ◌⊎◌, inl, inr, Bool,
  true, false, Bool-cases, arith, ◌==◌, ==_iff, leb, leb→le, if◌then◌else◌,
}
use machine.Base.Exec.{ok, ok-injective}
use machine.VirtualBox.Ip.{Quad, quad, mask_byte, cidr_mask, mask_ip}
use machine.VirtualBox.Ip.RoundTrip.{IsQuad}
use machine.VirtualBox.Ip.Mask.{
  bit_and-mask_byte_twice, bit_and-zero, mask_size-cidr_mask, bit_and-mask_byte_le,
  bit_and-mask_byte_low,
}
use machine.VirtualBox.Dhcp.{byte, pick_ip, get_random_ip_in_subnet, get_dhcp_address_range}

-- An address that differs from `base` in its last byte only, a number from 1 to 24 that is not the
-- one of `base`.
pub record Near (base addr : Quad) : Type 0 where
  pub same_a : addr.a ≡ base.a
  pub same_b : addr.b ≡ base.b
  pub same_c : addr.c ≡ base.c
  pub at_least : 1 ≤ addr.d
  pub at_most : addr.d ≤ 24
  pub not_base : addr.d ≢ base.d

module _ {W : Type 0} (random_int : ℕ → W → ℕ × W)
    (random_int-lt : (n : ℕ) (w : W) → 0 < n → (random_int n w).0 < n) where
  pick_ip-Near :
      (tries : ℕ) (base : Quad) (w : W) (addr : Quad)
      → (pick_ip random_int tries base w).0 ≡ ok addr
      → Near base addr
  unfolding pick_ip
  pick_ip-Near zero base w addr h = cc
  pick_ip-Near (suc tries) base w addr h =
      go (byte n == base.d) refl h (pick_ip-Near tries base (random_int 24 w).1 addr)
    where
      n : ℕ
      n = (random_int 24 w).0 + 1

      n_in : n < 25
      n_in = omega (arith, random_int-lt 24 w (omega arith))

      go :
          (b : Bool)
          → (byte n == base.d) ≡ b
          → (if b
              then pick_ip random_int tries base (random_int 24 w).1
              else (ok (quad base.a base.b base.c (byte n)), (random_int 24 w).1)).0
            ≡ ok addr
          → ((pick_ip random_int tries base (random_int 24 w).1).0 ≡ ok addr → Near base addr)
          → Near base addr
      go true clash eq again = again eq
      go false free eq again = subst (Near base) (ok-injective eq) (record {
        same_a = refl;
        same_b = refl;
        same_c = refl;
        at_least = omega (arith, n_in);
        at_most = omega (arith, n_in);
        not_base = ground (arith, ==_iff (byte n) base.d);
      })

  -- The address of the DHCP server is near the one of the host, whatever the random numbers are.
  pub get_random_ip_in_subnet-Near :
      (base : Quad) (w : W) (addr : Quad)
      → (get_random_ip_in_subnet random_int base w).0 ≡ ok addr
      → Near base addr
  unfolding get_random_ip_in_subnet
  get_random_ip_in_subnet-Near = pick_ip-Near 5

quad-congruent :
    {a b c d a' b' c' d' : ℕ} → a ≡ a' → b ≡ b' → c ≡ c' → d ≡ d' → quad a b c d ≡ quad a' b' c' d'
quad-congruent ea eb ec ed = cc

-- The addresses of a DHCP server: the range of those it gives lies in the network, in one block of
-- 256, in order and not past the 254th; its own lies in the network too, has a last byte below those
-- of the range and is not the last byte of the host.
pub record InNetwork (base mask addr lower upper : Quad) : Type 0 where
  pub addr_in : mask_ip addr mask ≡ mask_ip base mask
  pub lower_in : mask_ip lower mask ≡ mask_ip base mask
  pub upper_in : mask_ip upper mask ≡ mask_ip base mask
  pub one_block : (lower.a ≡ upper.a) × ((lower.b ≡ upper.b) × (lower.c ≡ upper.c))
  pub own_below : addr.d < lower.d
  pub in_order : lower.d ≤ upper.d
  pub not_last : upper.d ≤ 254
  pub not_host : addr.d ≢ base.d

module _ (ones : ℕ) (base : Quad) (base_ok : IsQuad base) where
  abbrev mask : Quad
  mask = cidr_mask ones

  abbrev network : Quad
  network = mask_ip base mask

  -- An address in the first three bytes of the network, whose last byte the mask clears as it does
  -- that of the host.
  in_network :
      (d : ℕ)
      → bit_and d (mask_byte (ones - 24)) ≡ bit_and base.d (mask_byte (ones - 24))
      → mask_ip (quad network.a network.b network.c d) mask ≡ network
  unfolding mask_ip cidr_mask
  in_network d last =
      quad-congruent (bit_and-mask_byte_twice ones base.a base_ok.a_in)
        (bit_and-mask_byte_twice (ones - 8) base.b base_ok.b_in)
        (bit_and-mask_byte_twice (ones - 16) base.c base_ok.c_in) last

  Near-in_network :
      (addr : Quad)
      → Near base addr
      → bit_and addr.d (mask_byte (ones - 24)) ≡ bit_and base.d (mask_byte (ones - 24))
      → mask_ip addr mask ≡ network
  unfolding mask_ip cidr_mask
  Near-in_network addr near last =
      quad-congruent (ap (λ x. bit_and x (mask_byte ones)) near.same_a)
        (ap (λ x. bit_and x (mask_byte (ones - 8))) near.same_b)
        (ap (λ x. bit_and x (mask_byte (ones - 16))) near.same_c) last

  wide_mask : ones ≤ 24 → (d : ℕ) → d < 256 → bit_and d (mask_byte (ones - 24)) ≡ 0
  wide_mask h d lt = rw (zero_ones) (bit_and-zero d lt)
    where
      zero_ones : ones - 24 ≡ 0
      zero_ones = omega arith

  abbrev at : ℕ → Quad
  at d = quad network.a network.b network.c d

  range_of : Quad → ℕ × ℕ → Quad × Quad
  range_of addr size =
      if leb size.0 24
      then (at 100, at 254)
      else (at (byte (addr.d + 1)), at (byte (2 ^ (size.1 - size.0) + 256 - 2)))

  -- The last assignable address of a network of 25 to 27 ones.
  abbrev last : ℕ
  last = byte (2 ^ (32 - ones) + 256 - 2)

  wide_range : (addr : Quad) → leb ones 24 ≡ true → range_of addr (ones, 32) ≡ (at 100, at 254)
  unfolding range_of
  wide_range addr h = rw h refl

  narrow_range :
      (addr : Quad)
      → leb ones 24 ≡ false
      → range_of addr (ones, 32) ≡ (at (byte (addr.d + 1)), at last)
  unfolding range_of
  narrow_range addr h = rw h refl

  get_dhcp_address_range-sized :
      (addr : Quad)
      → ones < 33
      → get_dhcp_address_range addr network mask ≡ range_of addr (ones, 32)
  unfolding get_dhcp_address_range range_of
  get_dhcp_address_range-sized addr h = ap (range_of addr) (mask_size-cidr_mask ones h)

  abbrev ItsRange : Quad → Quad × Quad → Type 0
  ItsRange addr range = InNetwork base mask addr range.0 range.1

  wide-ItsRange : (addr : Quad) → ones ≤ 24 → Near base addr → ItsRange addr (at 100, at 254)
  wide-ItsRange addr h near = record {
    addr_in = Near-in_network addr near (wide addr.d (omega (arith, near.at_most)));
    lower_in = in_network 100 (wide 100 (omega arith));
    upper_in = in_network 254 (wide 254 (omega arith));
    one_block = (refl, (refl, refl));
    own_below = omega (arith, near.at_most);
    in_order = omega arith;
    not_last = omega arith;
    not_host = near.not_base;
  }
    where
      wide :
          (d : ℕ)
          → d < 256
          → bit_and d (mask_byte (ones - 24)) ≡ bit_and base.d (mask_byte (ones - 24))
      wide d lt = wide_mask h d lt ∙ sym (wide_mask h base.d base_ok.d_in)

  three : 24 < ones → ones ≤ 27 → (ones ≡ 25) ⊎ ((ones ≡ 26) ⊎ (ones ≡ 27))
  three h k = omega arith

  last-cases : 24 < ones → ones ≤ 27 → (last ≡ 126) ⊎ ((last ≡ 62) ⊎ (last ≡ 30))
  last-cases h k = elim (three h k) [
    | inl e ↦ inl (rw e refl)
    | inr others ↦ elim others [ inl e ↦ inr (inl (rw e refl)) | inr e ↦ inr (inr (rw e refl)) ]
  ]

  last_cleared : 24 < ones → ones ≤ 27 → bit_and last (mask_byte (ones - 24)) ≡ 0
  last_cleared h k = elim (three h k) [
    | inl e ↦ rw e refl
    | inr others ↦ elim others [ inl e ↦ rw e refl | inr e ↦ rw e refl ]
  ]

  narrow-ItsRange :
      (addr : Quad)
      → 24 < ones
      → ones ≤ 27
      → network.d ≡ 0
      → Near base addr
      → ItsRange addr (at (byte (addr.d + 1)), at last)
  unfolding mask_ip cidr_mask
  narrow-ItsRange addr h k lowest near = record {
    addr_in = Near-in_network addr near (low addr.d (omega (arith, near.at_most)));
    lower_in =
        in_network (byte (addr.d + 1)) (low (byte (addr.d + 1)) (omega (arith, near.at_most)));
    upper_in = in_network last (last_cleared h k ∙ sym cleared);
    one_block = (refl, (refl, refl));
    own_below = omega (arith, near.at_most);
    in_order = ground (arith, last-cases h k, near.at_most);
    not_last = ground (arith, last-cases h k);
    not_host = near.not_base;
  }
    where
      cleared : bit_and base.d (mask_byte (ones - 24)) ≡ 0
      cleared = lowest

      low :
          (d : ℕ)
          → d < 32
          → bit_and d (mask_byte (ones - 24)) ≡ bit_and base.d (mask_byte (ones - 24))
      low d lt = bit_and-mask_byte_low (ones - 24) d (omega arith) lt ∙ sym cleared

  get_dhcp_address_range-ItsRange :
      (addr : Quad)
      → ones ≤ 27
      → (ones ≤ 24) ⊎ (network.d ≡ 0)
      → Near base addr
      → ItsRange addr (get_dhcp_address_range addr network mask)
  get_dhcp_address_range-ItsRange addr h where_it_lies near = elim (Bool-cases (leb ones 24)) [
    | inl wide ↦
        subst (ItsRange addr) (sym (sized ∙ wide_range addr wide))
          (wide-ItsRange addr (leb→le ones 24 wide) near)
    | inr narrow ↦
        subst (ItsRange addr) (sym (sized ∙ narrow_range addr narrow))
          (narrow-ItsRange addr (ground arith) h (ground arith) near)
  ]
    where
      sized : get_dhcp_address_range addr network mask ≡ range_of addr (ones, 32)
      sized = get_dhcp_address_range-sized addr (omega arith)

module _ {W : Type 0} (random_int : ℕ → W → ℕ × W)
    (random_int-lt : (n : ℕ) (w : W) → 0 < n → (random_int n w).0 < n) where
  -- For a host address in a network of at most 24 ones, or of at most 27 ones and the lowest of its
  -- kind, the address that is picked for the DHCP server and the range computed from it lie in the
  -- network. The ends of the range differ in their last bytes alone, which are in order, not past 254
  -- and above the last byte of the address, and the address is not the host's. The random numbers
  -- below 24 may be any.
  pub get_random_ip_in_subnet-InNetwork :
      (ones : ℕ) (base : Quad) (w : W) (addr : Quad)
      → IsQuad base
      → ones ≤ 27
      → (ones ≤ 24) ⊎ ((mask_ip base (cidr_mask ones)).d ≡ 0)
      → (get_random_ip_in_subnet random_int base w).0 ≡ ok addr
      → let (lower, upper) =
          get_dhcp_address_range addr (mask_ip base (cidr_mask ones)) (cidr_mask ones) in
        InNetwork base (cidr_mask ones) addr lower upper
  get_random_ip_in_subnet-InNetwork ones base w addr base_ok h where_it_lies e =
      get_dhcp_address_range-ItsRange ones base base_ok addr h where_it_lies
        (get_random_ip_in_subnet-Near random_int random_int-lt base w addr e)

  -- In a network that starts past the 24th address of its block of 256, the address that is picked
  -- is never one of the network.
  pub get_random_ip_in_subnet-outside :
      (ones : ℕ) (base : Quad) (w : W) (addr : Quad)
      → 24 < (mask_ip base (cidr_mask ones)).d
      → (get_random_ip_in_subnet random_int base w).0 ≡ ok addr
      → mask_ip addr (cidr_mask ones) ≢ mask_ip base (cidr_mask ones)
  unfolding mask_ip cidr_mask
  get_random_ip_in_subnet-outside ones base w addr h e same =
      let near = get_random_ip_in_subnet-Near random_int random_int-lt base w addr e in
      let low = bit_and-mask_byte_le (ones - 24) addr.d (omega (arith, near.at_most)) in
      let equal = ap (λ q. q.d) same in absurd (omega (arith, low, equal, h, near.at_most))

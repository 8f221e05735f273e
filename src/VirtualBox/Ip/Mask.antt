-- ===== src/VirtualBox/Ip/Mask.antt =====
-- What the masks of package `net` do to a byte: each fact is checked over all its bytes.
use Prim.Native.Nat.{bit_and}
use machine.Base.{
  ℕ, ◌≤◌, ◌<◌, ◌≡◌, refl, ap, inl, inr, Bool, true, false, Bool-cases, Option, none, some, arith,
  ◌==◌, ==_iff, leb, leb→le,
}
use machine.Base.Below.{all_below, all_below_sound, all_below_both}
use machine.VirtualBox.Ip.{mask_byte, cidr_mask, mask_length, mask_size}

-- A mask byte of eight ones or more is one of eight.
mask_byte-min : (k : ℕ) → (m : ℕ) × (m < 9) × (mask_byte k ≡ mask_byte m)
mask_byte-min k = elim (Bool-cases (leb 8 k)) [
  | inl large ↦ (8, omega arith, rw large refl)
  | inr small ↦ (k, ground arith, refl)
]

abbrev masks_once : ℕ → ℕ → Bool
masks_once k x = bit_and (bit_and x (mask_byte k)) (mask_byte k) == bit_and x (mask_byte k)

twice_table : all_below 9 (λ k. all_below 256 (masks_once k)) ≡ true
twice_table = refl

-- Masking twice is masking once.
pub bit_and-mask_byte_twice :
    (k x : ℕ) → x < 256 → bit_and (bit_and x (mask_byte k)) (mask_byte k) ≡ bit_and x (mask_byte k)
bit_and-mask_byte_twice k x h =
    let (m, small, same) = mask_byte-min k in
    rw same ((==_iff _ _).0 (all_below_both 9 256 masks_once m x twice_table small h))

zero_table : all_below 256 (λ x. bit_and x 0 == 0) ≡ true
zero_table = refl

pub bit_and-zero : (x : ℕ) → x < 256 → bit_and x 0 ≡ 0
bit_and-zero x h = (==_iff _ _).0 (all_below_sound 256 (λ x. bit_and x 0 == 0) x zero_table h)

is_length : ℕ → Option ℕ → Bool
is_length n none = false
is_length n (some m) = m == n

length_table : all_below 33 (λ n. is_length n (mask_length (cidr_mask n))) ≡ true
unfolding is_length mask_length cidr_mask
length_table = refl

is_length_eq : (n : ℕ) (o : Option ℕ) → is_length n o ≡ true → o ≡ some n
unfolding is_length
is_length_eq n none h = cc
is_length_eq n (some m) h = ground arith

-- The size of the mask of `n` ones.
pub mask_size-cidr_mask : (n : ℕ) → n < 33 → mask_size (cidr_mask n) ≡ (n, 32)
unfolding mask_size
mask_size-cidr_mask n h =
    ap (λ o. elim o as (λ _. ℕ × ℕ) [ none ↦ (0, 0) | some ones ↦ (ones, 32) ])
      (is_length_eq n (mask_length (cidr_mask n))
        (all_below_sound 33 (λ n. is_length n (mask_length (cidr_mask n))) n length_table h))

abbrev masks_down : ℕ → ℕ → Bool
masks_down k x = leb (bit_and x (mask_byte k)) x

at_most_table : all_below 9 (λ k. all_below 256 (masks_down k)) ≡ true
at_most_table = refl

-- A mask never makes a byte larger.
pub bit_and-mask_byte_le : (k x : ℕ) → x < 256 → bit_and x (mask_byte k) ≤ x
bit_and-mask_byte_le k x h =
    let (m, small, same) = mask_byte-min k in
    rw same (leb→le _ _ (all_below_both 9 256 masks_down m x at_most_table small h))

abbrev masks_away : ℕ → ℕ → Bool
masks_away k x = bit_and x (mask_byte k) == 0

-- A mask of 27 ones or fewer clears every last byte below 32.
low_table : all_below 4 (λ k. all_below 32 (masks_away k)) ≡ true
low_table = refl

pub bit_and-mask_byte_low : (k x : ℕ) → k < 4 → x < 32 → bit_and x (mask_byte k) ≡ 0
bit_and-mask_byte_low k x hk hx =
    (==_iff _ _).0 (all_below_both 4 32 masks_away k x low_table hk hx)

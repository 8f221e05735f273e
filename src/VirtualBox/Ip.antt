-- ===== src/VirtualBox/Ip.antt =====
-- The part of Go's package `net` that drivers/virtualbox/network.go and virtualbox.go use, for
-- addresses of IPv4: an address of IPv6 is read as no address. A byte is a number below 256.
pub mod RoundTrip
pub mod Mask
use Prim.Native.Nat.{◌/◌, ◌%◌, bit_and}
use machine.Base.{
  ℕ, zero, suc, ◌+◌, ◌-◌, ◌*◌, ◌^◌, ◌<◌, ◌≡◌, Bool, true, false, ◌&&◌, ◌||◌, Option, none, some,
  List, [], ◌∷◌, ◌++◌, ◌==◌, ltb, leb, if◌then◌else◌, length, take, drop,
}
use machine.Base.Int.{pos}
use machine.Base.Exec.{Result, ok, err}
use machine.Text.{Text, bytes, index_byte, split}
use machine.Text.Decimal.{decimal}
use machine.Text.Scan.{is_empty, join_with}
use machine.Errors.{Error, message}

-- Four bytes: an address or a mask.
pub record Quad : Type 0 where
  pub a : ℕ
  pub b : ℕ
  pub c : ℕ
  pub d : ℕ

abbrev pub quad : ℕ → ℕ → ℕ → ℕ → Quad
quad a b c d = record { a = a; b = b; c = c; d = d }

-- `net.IP` and `net.IPMask`: `none` is nil.
abbrev pub Ip : Type 0
Ip = Option Quad

abbrev pub is_digit : ℕ → Bool
is_digit c = leb 48 c && leb c 57

-- `dtoi` of a whole text: a number below 0xFFFFFF.
dtoi_from : ℕ → Text → Option ℕ
dtoi_from n [] = some n
dtoi_from n (c ∷ s) =
    let rest = dtoi_from (n * 10 + (c - 48)) s in
    if is_digit c && ltb (n * 10 + (c - 48)) 0xffffff then rest else none

unfoldable pub dtoi : Text → Option ℕ
unfolding dtoi_from
dtoi [] = none
dtoi (c ∷ s) = dtoi_from 0 (c ∷ s)

abbrev pub as_byte : Option ℕ → Option ℕ
as_byte none = none
as_byte (some n) = if leb n 255 then some n else none

abbrev pub quad_of : Option ℕ → Option ℕ → Option ℕ → Option ℕ → Ip
quad_of (some a) (some b) (some c) (some d) = some (quad a b c d)
quad_of _ _ _ _ = none

abbrev pub four_parts : List Text → Ip
four_parts (a ∷ b ∷ c ∷ d ∷ []) =
    quad_of (as_byte (dtoi a)) (as_byte (dtoi b)) (as_byte (dtoi c)) (as_byte (dtoi d))
four_parts _ = none

-- net.ParseIP
unfoldable pub parse_ip : Text → Ip
unfolding dtoi split
parse_ip s = four_parts (split b'.' s)

abbrev pub number : ℕ → Text
number n = decimal (pos n)

unfoldable pub quad_string : Quad → Text
unfolding decimal
quad_string q = number q.a ++ (b'.' ∷ (number q.b ++ (b'.' ∷ (number q.c ++ (b'.' ∷ number q.d)))))

-- IP.String
unfoldable pub ip_string : Ip → Text
unfolding quad_string
ip_string none = bytes "<nil>"
ip_string (some q) = quad_string q

abbrev pub quad_eq : Quad → Quad → Bool
quad_eq p q = p.a == q.a && (p.b == q.b && (p.c == q.c && p.d == q.d))

-- IP.Equal
abbrev pub ip_equal : Ip → Ip → Bool
ip_equal none none = true
ip_equal (some p) (some q) = quad_eq p q
ip_equal _ _ = false

abbrev hex_digit : ℕ → ℕ
hex_digit n = if ltb n 10 then 48 + n else 87 + n

abbrev hex_byte : ℕ → Text
hex_byte n = hex_digit (n / 16) ∷ hex_digit (n % 16) ∷ []

abbrev hex_quad : Quad → Text
hex_quad q = hex_byte q.a ++ (hex_byte q.b ++ (hex_byte q.c ++ hex_byte q.d))

-- IPMask.String
unfoldable pub mask_string : Ip → Text
mask_string none = bytes "<nil>"
mask_string (some q) = hex_quad q

-- The byte of a mask that has `n` ones: `^byte(0xff >> n)`, or all of them.
abbrev pub mask_byte : ℕ → ℕ
mask_byte n = if leb 8 n then 255 else 255 - 255 / 2 ^ n

-- net.CIDRMask(ones, 32), for at most 32 ones.
unfoldable pub cidr_mask : ℕ → Quad
cidr_mask ones =
    quad (mask_byte ones) (mask_byte (ones - 8)) (mask_byte (ones - 16)) (mask_byte (ones - 24))

-- The ones of a byte that has no other after its first zero: eight shifts empty the byte.
leading_from : ℕ → ℕ → ℕ → Option ℕ
leading_from zero n v = some n
leading_from (suc fuel) n v =
    let rest = leading_from fuel (suc n) (v * 2 % 256) in
    if leb 128 v then rest else if v == 0 then some n else none

leading : ℕ → Option ℕ
unfolding leading_from
leading v = leading_from 8 0 v

-- The length of a mask that is made of ones and then of zeros, as `simpleMaskLength` finds it.
simple_mask_length : List ℕ → Option ℕ
unfolding leading
simple_mask_length [] = some 0
simple_mask_length (v ∷ vs) =
    let rest = simple_mask_length vs in
    if v == 255
    then elim rest [ none ↦ none | some n ↦ some (8 + n) ]
    else if all_zero vs
    then leading v
    else none
  where
    all_zero : List ℕ → Bool
    all_zero [] = true
    all_zero (v ∷ vs) = v == 0 && all_zero vs

unfoldable pub mask_length : Quad → Option ℕ
unfolding simple_mask_length
mask_length q = simple_mask_length (q.a ∷ q.b ∷ q.c ∷ q.d ∷ [])

-- IPMask.Size: `(ones, bits)`.
unfoldable pub mask_size : Quad → ℕ × ℕ
unfolding mask_length
mask_size q = elim (mask_length q) [ none ↦ (0, 0) | some ones ↦ (ones, 32) ]

-- IP.Mask
unfoldable pub mask_ip : Quad → Quad → Quad
mask_ip q m = quad (bit_and q.a m.a) (bit_and q.b m.b) (bit_and q.c m.c) (bit_and q.d m.d)

-- `net.IPNet`
pub record IpNet : Type 0 where
  pub ip : Ip
  pub mask : Ip

-- IPNet.String
unfoldable pub ip_net_string : IpNet → Text
unfolding mask_string ip_string mask_length
ip_net_string n = elim n.ip [
  | none ↦ bytes "<nil>"
  | some q ↦ elim n.mask [
    | none ↦ bytes "<nil>"
    | some m ↦ elim (mask_length m) [
      | none ↦ quad_string q ++ (b'/' ∷ hex_quad m)
      | some ones ↦ quad_string q ++ (b'/' ∷ number ones)
    ]
  ]
]

-- An address and the network it lies in.
pub record Cidr : Type 0 where
  pub address : Quad
  pub network : Quad
  pub network_mask : Quad

abbrev pub invalid_cidr : Error
invalid_cidr = message (bytes "invalid CIDR address")

abbrev pub cidr_of : Ip → Option ℕ → Result Error Cidr
cidr_of none ones = err invalid_cidr
cidr_of (some q) none = err invalid_cidr
cidr_of (some q) (some ones) =
    if leb ones 32
    then ok (record {
      address = q;
      network = mask_ip q (cidr_mask ones);
      network_mask = cidr_mask ones;
    })
    else err invalid_cidr

-- net.ParseCIDR
unfoldable pub parse_cidr : Text → Result Error Cidr
unfolding parse_ip cidr_mask mask_ip index_byte dtoi
parse_cidr s = elim (index_byte s b'/') [
  | none ↦ err invalid_cidr
  | some i ↦ cidr_of (parse_ip (take i s)) (dtoi (drop (suc i) s))
]

is_hex : ℕ → Bool
is_hex c = is_digit c || ((leb 97 c && leb c 102) || (leb 65 c && leb c 70))

hex_value : ℕ → ℕ
hex_value c = if is_digit c then c - 48 else if leb 97 c then c - 87 else c - 55

-- Each part of a hardware address has the same number of hexadecimal digits.
hex_parts : ℕ → List Text → Option (List ℕ)
unfolding is_hex hex_value
hex_parts size [] = some []
hex_parts size (part ∷ parts) =
    let rest = hex_parts size parts in
    elim rest [
      | none ↦ none
      | some more ↦
          if length part == size
          then elim (pairs part) [ none ↦ none | some found ↦ some (found ++ more) ]
          else none
    ]
  where
    pairs : Text → Option (List ℕ)
    pairs [] = some []
    pairs (c ∷ []) = none
    pairs (c ∷ d ∷ s) =
        let rest = pairs s in
        elim rest [
          | none ↦ none
          | some more ↦
              if is_hex c && is_hex d then some ((hex_value c * 16 + hex_value d) ∷ more) else none
        ]

abbrev of_length : Option (List ℕ) → Option (List ℕ)
of_length none = none
of_length (some hw) =
    if length hw == 6 || (length hw == 8 || length hw == 20) then some hw else none

-- net.ParseMAC: pairs of digits between `:` or `-`, or fours between dots.
unfoldable pub parse_mac : Text → Option (List ℕ)
unfolding hex_parts split
parse_mac (c ∷ d ∷ e ∷ s) =
    let all = c ∷ d ∷ e ∷ s in
    if e == b':' || e == b'-'
    then of_length (hex_parts 2 (split e all))
    else of_length (hex_parts 4 (split b'.' all))
parse_mac s = none

-- ===== src/VirtualBox/Ip/RoundTrip.antt =====
-- Reading back the addresses that package `net` prints.
use machine.Base.{
  ℕ, ◌<◌, ◌≡◌, refl, ap, ◌∙◌, Bool, true, false, ◌&&◌, not, Option, none, some, [], ◌∷◌, arith,
  ◌==◌,
}
use machine.Base.Below.{all_below, all_below_sound}
use machine.Text.{Text, split}
use machine.Text.Bytes.{Lacks, split-Lacks, split-append_first}
use machine.Text.Decimal.{decimal}
use machine.VirtualBox.Ip.{Quad, number, dtoi, as_byte, four_parts, parse_ip, quad_string}

-- The four bytes are bytes.
pub record IsQuad (q : Quad) : Type 0 where
  pub a_in : q.a < 256
  pub b_in : q.b < 256
  pub c_in : q.c < 256
  pub d_in : q.d < 256

lacks : ℕ → Text → Bool
lacks b [] = true
lacks b (c ∷ s) = not (c == b) && lacks b s

lacks-Lacks : (b : ℕ) (s : Text) → lacks b s ≡ true → Lacks b s
unfolding lacks
lacks-Lacks b [] h = tt
lacks-Lacks b (c ∷ s) h = (ground arith, lacks-Lacks b s (ground arith))

is_some : ℕ → Option ℕ → Bool
is_some n none = false
is_some n (some m) = m == n

is_some_eq : (n : ℕ) (o : Option ℕ) → is_some n o ≡ true → o ≡ some n
unfolding is_some
is_some_eq n none h = cc
is_some_eq n (some m) h = ground arith

dots_table : all_below 256 (λ n. lacks b'.' (number n)) ≡ true
unfolding lacks decimal
dots_table = refl

values_table : all_below 256 (λ n. is_some n (as_byte (dtoi (number n)))) ≡ true
unfolding is_some decimal dtoi
values_table = refl

number-Lacks : (n : ℕ) → n < 256 → Lacks b'.' (number n)
number-Lacks n h =
    lacks-Lacks b'.' _ (all_below_sound 256 (λ n. lacks b'.' (number n)) n dots_table h)

read_number : (n : ℕ) → n < 256 → as_byte (dtoi (number n)) ≡ some n
read_number n h =
    is_some_eq n _
      (all_below_sound 256 (λ n. is_some n (as_byte (dtoi (number n)))) n values_table h)

quad_string-parts :
    (q : Quad)
    → IsQuad q
    → split b'.' (quad_string q) ≡ (number q.a ∷ number q.b ∷ number q.c ∷ number q.d ∷ [])
unfolding quad_string
quad_string-parts q v =
    split-append_first b'.' (number q.a) _ (number-Lacks q.a v.a_in)
    ∙ ap (λ t. number q.a ∷ t)
        (split-append_first b'.' (number q.b) _ (number-Lacks q.b v.b_in)
          ∙ ap (λ t. number q.b ∷ t)
              (split-append_first b'.' (number q.c) _ (number-Lacks q.c v.c_in)
                ∙ ap (λ t. number q.c ∷ t)
                    (split-Lacks b'.' (number q.d) (number-Lacks q.d v.d_in))))

-- An address of four bytes, written in dotted decimal, is read back as the same address.
pub parse_ip-quad_string : (q : Quad) → IsQuad q → parse_ip (quad_string q) ≡ some q
unfolding parse_ip
parse_ip-quad_string q v =
    ap four_parts (quad_string-parts q v)
    ∙ rw (read_number q.a v.a_in) (
        rw (read_number q.b v.b_in)
          (rw (read_number q.c v.c_in) (rw (read_number q.d v.d_in) refl)))

-- ===== src/Version/Suffix.antt =====
-- What versioncmp makes of the suffixes `-rcN` and of trailing zeros.
use machine.Base.{
  ℕ, ◌<◌, ◌≡◌, refl, sym, ap, ◌∙◌, inr, true, false, [], ◌∷◌, ◌++◌, arith, length,
  get_elem?-append_left, get_elem?-append_last,
}
use machine.Base.Int.{pos, ltb_ℤ}
use machine.Text.{Text, bytes, replace, replace_from, split}
use machine.Text.Atoi.{atoi}
use machine.Text.Bytes.{
  Lacks, Lacks-append, contains-Lacks, replace_from-Lacks, replace-Lacks, index_byte-Lacks,
  split-append_last,
}
use machine.Version.{rc_string, cut_suffix, segment, greater_than}
use machine.Version.Loop.{segment-past}
use machine.Version.Segments.{edition, fields, segments}
use machine.Version.Order.{less_than_iff, comparisons_agree}

replace_rc :
    (v n : Text)
    → Lacks b'-' v
    → Lacks b'-' n
    → replace rc_string (bytes ".") (v ++ (bytes "-rc" ++ n)) ≡ v ++ b'.' ∷ n
unfolding replace
replace_rc v n h k =
    replace_from-Lacks b'-' (bytes "rc") (bytes ".") v (bytes "-rc" ++ n) h ∙ ap (λ t. v ++ t) tail
  where
    tail : replace_from rc_string (bytes ".") 0 (bytes "-rc" ++ n) ≡ b'.' ∷ n
    tail = ap (λ t. b'.' ∷ t) (replace-Lacks b'-' (bytes "rc") (bytes ".") n k)

cut_suffix-Lacks : (v : Text) → Lacks b'-' v → cut_suffix v ≡ v
unfolding cut_suffix
cut_suffix-Lacks v h = rw (index_byte-Lacks b'-' v h, cut_suffix)

-- Of a version whose `rc` mark has been replaced, and that has no other suffix.
module _ (v w : Text) (plain : Lacks b'-' w) (e : replace rc_string (bytes ".") v ≡ w) where
  edition_plain : edition v ≡ false
  unfolding edition
  edition_plain = rw e (contains-Lacks b'-' (bytes "ce") w plain)

  fields_plain : fields v ≡ split b'.' w
  unfolding fields
  fields_plain = rw (e, contains-Lacks b'-' (bytes "ce") w plain, cut_suffix-Lacks w plain)

-- A further segment that is positive makes a version greater, and one that is 0 leaves it equal.
module _ (v n : Text) (plain : Lacks b'-' v) (digits : Lacks b'-' n) (one : Lacks b'.' n) where
  segments_of_rc :
      (i : ℕ) → segments (v ++ (bytes "-rc" ++ n)) i ≡ segment (split b'.' v ++ n ∷ []) i
  unfolding segments
  segments_of_rc i = rw (
    fields_plain (v ++ (bytes "-rc" ++ n)) (v ++ b'.' ∷ n)
        (Lacks-append b'-' v (b'.' ∷ n) plain (refl, digits)) (replace_rc v n plain digits),
    split-append_last b'.' v n one,
  )

  segments_of_release : (i : ℕ) → segments v i ≡ segment (split b'.' v) i
  unfolding segments
  segments_of_release i =
      rw (fields_plain v v plain (replace-Lacks b'-' (bytes "rc") (bytes ".") v plain))

  edition_of_rc : edition (v ++ (bytes "-rc" ++ n)) ≡ false
  edition_of_rc =
      edition_plain (v ++ (bytes "-rc" ++ n)) (v ++ b'.' ∷ n)
        (Lacks-append b'-' v (b'.' ∷ n) plain (refl, digits)) (replace_rc v n plain digits)

  edition_of_release : edition v ≡ false
  edition_of_release = edition_plain v v plain (replace-Lacks b'-' (bytes "rc") (bytes ".") v plain)

  -- The segments before the last one are those of the release.
  segments-rc_before :
      (i : ℕ) → i < length (split b'.' v) → segments v i ≡ segments (v ++ (bytes "-rc" ++ n)) i
  unfolding segment
  segments-rc_before i h =
      rw (segments_of_rc i, segments_of_release i)
        (rw (get_elem?-append_left (split b'.' v) (n ∷ []) i h, segment))

  segments-rc_last : segments (v ++ (bytes "-rc" ++ n)) (length (split b'.' v)) ≡ atoi n
  segments-rc_last =
      segments_of_rc _ ∙ (unfold segment in rw (get_elem?-append_last (split b'.' v) n, segment))

  segments-release_last : segments v (length (split b'.' v)) ≡ pos 0
  segments-release_last = segments_of_release _ ∙ segment-past (split b'.' v) _ (omega arith)

  -- A version without a dash, followed by `-rc` and a positive number without a dash or a dot,
  -- is greater than that version.
  pub greater_than-rc :
      ltb_ℤ (pos 0) (atoi n) ≡ true → greater_than (v ++ (bytes "-rc" ++ n)) v ≡ true
  greater_than-rc h =
      (comparisons_agree (v ++ (bytes "-rc" ++ n)) v).3
      ∙ (less_than_iff v (v ++ (bytes "-rc" ++ n))).1 (
          inr (
            edition_of_release ∙ sym edition_of_rc,
            (
              length (split b'.' v),
              record {
                from = omega arith;
                same = λ j _ before. segments-rc_before j before;
                smaller = rw (segments-rc_last, segments-release_last) h;
              },
            ),
          ))

-- ===== src/Tests/Version.antt =====
-- libmachine/versioncmp/compare_test.go.
use machine.Base.{String, ◌&&◌, ◌||◌, not, ◌≡◌, refl, Bool, true, false, ◌↔◌, ◌⊎◌}
use machine.Base.Int.{ℤ, pos, negsuc}
use machine.Text.{Text, bytes, contains, replace, index_byte, split}
use machine.Text.Atoi.{atoi}
use machine.Version.{
  cut_suffix, segment, compare_from, compare_numeric, compare_ce, compare_replaced, compare,
  less_than, less_than_or_equal_to, greater_than, greater_than_or_equal_to, equal,
}
use machine.Version.Segments.{edition, Precedes}
use machine.Version.Order.{less_than_iff, comparisons_agree}

compared : String → String → ℤ
unfolding compare compare_replaced compare_ce compare_numeric compare_from segment cut_suffix
    replace contains index_byte split atoi
compared v w = compare (bytes v) (bytes w)

is_less : String → String → Bool
unfolding compared less_than
is_less v w = less_than (bytes v) (bytes w)

compare_table :
    (compared "1.0.0" "1" ≡ pos 0)
    × (compared "1.05.00.0156" "1.0.221.9289" ≡ pos 1)
    × (compared "1.a" "2.b" ≡ negsuc 0)
    × (compared "1.12.1" "1.13.0-rc1" ≡ negsuc 0)
    × (compared "1.13.0-rc1" "1.13.0-rc2" ≡ negsuc 0)
    × (compared "17.03.0-ce-rc2" "17.03.0-ce-rc1" ≡ pos 1)
    × (compared "1.12.0" "17.06.0-ce-rc2" ≡ negsuc 0)
unfolding compared
compare_table = (refl, refl, refl, refl, refl, refl, refl)

first : is_less "1.0.2" "1.1" ≡ true
unfolding is_less
first = refl

second : less_than (bytes "1.1") (bytes "17.03.0-ce") ≡ true
unfolding is_less
second = refl

less_than_iff_example : (less_than (bytes "1.2") (bytes "1.3") ≡ true) ↔ (
    (edition (bytes "1.2") ≡ false) × (edition (bytes "1.3") ≡ true)
    ⊎ (edition (bytes "1.2") ≡ edition (bytes "1.3")) × Precedes (bytes "1.2") (bytes "1.3"))
less_than_iff_example = less_than_iff (bytes "1.2") (bytes "1.3")

abbrev older : Text
older = bytes "1.12.1"

abbrev newer : Text
newer = bytes "1.13.0-rc1"

comparisons_agree_example :
    (less_than_or_equal_to older newer ≡ (less_than older newer || equal older newer))
    × (greater_than_or_equal_to older newer ≡ not (less_than older newer))
    × (greater_than older newer ≡ not (less_than_or_equal_to older newer))
    × (greater_than older newer ≡ less_than newer older)
    × (equal older newer ≡ equal newer older)
    × ((less_than older newer && equal older newer) ≡ false)
comparisons_agree_example = comparisons_agree older newer

-- ===== src/Tests/OsRelease.antt =====
-- /etc/os-release: libmachine/provision/os_release_test.go.
use machine.Base.{◌≡◌, refl, ◌↔◌, [], ◌∷◌}
use machine.Base.Exec.{ok, err}
use machine.Text.{Text, bytes, text_eq, split}
use machine.Errors.{panic}
use machine.Provision.OsRelease.{
  OsRelease, no_os_release, strip_quotes, set_if_possible, parse_line, parse_lines,
  parse_os_release, new_os_release,
}
use machine.Provision.OsRelease.RoundTrip.{
  print_lines, entries_of, AllPlain, plain_values, AllPlain-plain_values,
  new_os_release-print_lines,
}
use machine.Provision.OsRelease.Quotes.{parse_line-panic_iff}

abbrev ubuntu : OsRelease
ubuntu = record no_os_release {
  name = bytes "Ubuntu";
  id = bytes "ubuntu";
  version_id = bytes "14.04";
}

reads_unquoted :
    new_os_release (bytes "NAME=\"Ubuntu\"\nID=ubuntu\nVERSION_ID=\"14.04\"\n\nOTHER=x\nA=b=c")
    ≡ ok ubuntu
unfolding new_os_release parse_os_release parse_lines parse_line strip_quotes set_if_possible split
    text_eq
reads_unquoted = refl

ubuntu-AllPlain : AllPlain (entries_of ubuntu)
unfolding plain_values
ubuntu-AllPlain = AllPlain-plain_values (entries_of ubuntu) refl

new_os_release-print_lines_example : new_os_release (print_lines (entries_of ubuntu)) ≡ ok ubuntu
new_os_release-print_lines_example = new_os_release-print_lines ubuntu ubuntu-AllPlain

parse_line-panic_iff_example :
    (parse_line (bytes "NAME=\"") ≡ err panic)
    ↔ ((key : Text) × (split b'=' (bytes "NAME=\"") ≡ key ∷ bytes "\"" ∷ []))
parse_line-panic_iff_example = parse_line-panic_iff (bytes "NAME=\"")

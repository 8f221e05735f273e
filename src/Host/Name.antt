-- ===== src/Host/Name.antt =====
-- What a valid name of a host is fit for: its directory lies right below that of all machines.
use machine.Base.{◌≡◌, ◌≢◌, true, [], ◌∷◌, arith}
use machine.Text.{Text}
use machine.Text.Bytes.{Lacks}
use machine.Text.FilePath.{slash, dot, dot_dot}
use machine.Host.{validate_host_name, is_alphanumeric, all_name_bytes}

all_name_bytes-Lacks : (s : Text) → all_name_bytes s ≡ true → Lacks slash s
unfolding all_name_bytes is_alphanumeric
all_name_bytes-Lacks [] h = tt
all_name_bytes-Lacks (c ∷ s) h = (ground arith, all_name_bytes-Lacks s (ground arith))

-- A path that joins a name to a directory leads to a file right below the directory: the name is
-- one element of the path, and neither empty nor one of the two that `filepath.Join` resolves.
abbrev pub OneElement : Text → Type 0
OneElement s = Lacks slash s × ((s ≢ []) × ((s ≢ dot) × (s ≢ dot_dot)))

-- A name that `ValidateHostName` accepts is one element of a path: it is not empty, has no slash,
-- and is neither `.` nor `..`.
pub validate_host_name-OneElement : (s : Text) → validate_host_name s ≡ true → OneElement s
unfolding validate_host_name is_alphanumeric
validate_host_name-OneElement [] h = cc
validate_host_name-OneElement (c ∷ s) h = (
  (ground arith, all_name_bytes-Lacks s (ground arith)),
  (λ e. cc, (λ e. starts_with_dot [] e, λ e. starts_with_dot (b'.' ∷ []) e)),
)
  where
    starts_with_dot : (t : Text) → ◌≢◌ {A = Text} (c ∷ s) (b'.' ∷ t)
    starts_with_dot t e = let same : c ≡ b'.' = cc in ground arith

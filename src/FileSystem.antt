-- ===== src/FileSystem.antt =====
-- The calls of `os` and `io/ioutil` that the store makes, on a tree of files known by their cleaned
-- paths. Every call may fail: the list of faults says which, call by call, and with no more entries
-- in it the calls do what they can.
pub mod View
pub mod Calls
pub mod Read
pub mod RemoveAll
use machine.Base.{
  ℕ, String, Bool, true, false, ◌&&◌, ◌||◌, not, Option, none, some, List, [], ◌∷◌, ◌++◌, ◌==◌, ltb,
  if◌then◌else◌, take,
}
use machine.Base.Exec.{Result, ok, err, ◌>>=◌, ◌>>◌}
use machine.Text.{Text, bytes, text_eq, has_prefix}
use machine.Text.Dict.{Dict, lookup, insert, filter_keys}
use machine.Text.FilePath.{slash, dot, dir}
use machine.Errors.{Error, message, not_exist, Act}

pub data Node : Type 0 where
  file : Text → Node
  directory : Node

-- A fault lets a call fail with a message; one that writes may have left so many bytes
-- of the data.
pub data Fault : Type 0 where
  fine : Fault
  fails : Text → Fault
  fails_after : Text → ℕ → Fault

pub record Fs : Type 0 where
  pub nodes : Dict Node
  pub faults : List Fault

abbrev pub Io : Type 0 → Type 0
Io A = Act Fs A

-- The next fault is used up; `partial` is what a failing call has done with the number of bytes
-- it wrote.
pub under_fault : {A : Type 0} → (ℕ → Dict Node → Dict Node) → Io A → Fault → Io A
under_fault partial run fine fs = run fs
under_fault partial run (fails e) fs = (err (message e), fs)
under_fault partial run (fails_after e n) fs =
    (err (message e), record fs { nodes = partial n fs.nodes })

pub may_fail : {A : Type 0} → (ℕ → Dict Node → Dict Node) → Io A → Io A
unfolding under_fault
may_fail partial run fs = elim fs.faults [
  | [] ↦ run fs
  | fault ∷ rest ↦ under_fault partial run fault (record fs { faults = rest })
]

abbrev pub untouched : ℕ → Dict Node → Dict Node
untouched n nodes = nodes

abbrev pub is_a_directory : Error
is_a_directory = message (bytes "is a directory")

abbrev pub not_a_directory : Error
not_a_directory = message (bytes "not a directory")

abbrev pub not_empty : Error
not_empty = message (bytes "directory not empty")

-- The root and the working directory are always there.
unfoldable pub node_at : Text → Dict Node → Option Node
node_at path nodes =
    if text_eq path (slash ∷ []) || text_eq path dot then some directory else lookup path nodes

-- Whether `path` lies below `parent`.
unfoldable pub is_below : Text → Text → Bool
is_below parent path = has_prefix (parent ++ (slash ∷ [])) path

pub set_node : Text → Node → Fs → Fs
set_node path node fs = record fs { nodes = insert path node fs.nodes }

unfoldable pub found : Option Node → Result Error Node
found none = err not_exist
found (some node) = ok node

stat_now : Text → Io Node
unfolding found
stat_now path fs = (found (node_at path fs.nodes), fs)

-- os.Stat
unfoldable pub stat : Text → Io Node
unfolding may_fail node_at stat_now
stat path = may_fail untouched (stat_now path)

text_of : Option Node → Result Error Text
text_of none = err not_exist
text_of (some (file text)) = ok text
text_of (some directory) = err is_a_directory

read_now : Text → Io Text
unfolding text_of
read_now path fs = (text_of (node_at path fs.nodes), fs)

-- ioutil.ReadFile
unfoldable pub read_file : Text → Io Text
unfolding may_fail node_at read_now
read_file path = may_fail untouched (read_now path)

-- What a call that creates `path` reports of the directory that would hold it.
parent_error : Option Node → Option Error
parent_error none = some not_exist
parent_error (some directory) = none
parent_error (some (file _)) = some not_a_directory

put_found : Text → Text → Option Node → Option Error → Io (Unit {0})
put_found path text (some (file _)) parent fs = (ok tt, set_node path (file text) fs)
put_found path text (some directory) parent fs = (err is_a_directory, fs)
put_found path text none none fs = (ok tt, set_node path (file text) fs)
put_found path text none (some e) fs = (err e, fs)

put_file : Text → Text → Io (Unit {0})
unfolding put_found
put_file path text fs =
    put_found path text (node_at path fs.nodes) (parent_error (node_at (dir path) fs.nodes)) fs

-- ioutil.WriteFile: a failing write may leave a file with the first bytes of the data.
unfoldable pub write_file : Text → Text → Io (Unit {0})
unfolding may_fail put_file set_node parent_error
write_file path text = may_fail (λ n. insert path (file (take n text))) (put_file path text)

temp_now : (Text → Text → Dict Node → Text) → Text → Text → Io Text
temp_now pick parent prefix fs =
    let name = pick parent prefix fs.nodes in (put_file name [] >>= λ _ fs'. (ok name, fs')) fs

-- ioutil.TempFile: `pick` stands for the random name that no file bears.
unfoldable pub temp_file : (Text → Text → Dict Node → Text) → Text → Text → Io Text
unfolding may_fail temp_now put_file set_node parent_error
temp_file pick parent prefix = may_fail untouched (temp_now pick parent prefix)

succeed : Io (Unit {0})
succeed fs = (ok tt, fs)

-- (*os.File).Close
unfoldable pub close : Text → Io (Unit {0})
unfolding may_fail succeed
close name = may_fail untouched succeed

has_entries : Text → Dict Node → Bool
has_entries path [] = false
has_entries path ((p, _) ∷ nodes) = is_below path p || has_entries path nodes

abbrev pub erase : Text → Dict Node → Dict Node
erase path = filter_keys (λ p. not (text_eq path p))

remove_found : Text → Option Node → Bool → Io (Unit {0})
remove_found path none full fs = (err not_exist, fs)
remove_found path (some node) true fs = (err not_empty, fs)
remove_found path (some node) false fs = (ok tt, record fs { nodes = erase path fs.nodes })

remove_now : Text → Io (Unit {0})
remove_now path fs = remove_found path (lookup path fs.nodes) (has_entries path fs.nodes) fs

-- os.Remove
unfoldable pub remove : Text → Io (Unit {0})
unfolding may_fail has_entries remove_now remove_found
remove path = may_fail untouched (remove_now path)

move_file : Text → Text → Option Node → Io (Unit {0})
move_file old new none fs = (err not_exist, fs)
move_file old new (some directory) fs = (err is_a_directory, fs)
move_file old new (some (file text)) fs =
    (put_file new text >> λ fs'. (ok tt, record fs' { nodes = erase old fs'.nodes })) fs

rename_now : Text → Text → Io (Unit {0})
rename_now old new fs =
    if text_eq old new then (ok tt, fs) else move_file old new (lookup old fs.nodes) fs

-- os.Rename of a file.
unfoldable pub rename : Text → Text → Io (Unit {0})
unfolding may_fail rename_now move_file put_file set_node parent_error
rename old new = may_fail untouched (rename_now old new)

-- os.RemoveAll
unfoldable pub remove_all : Text → Io (Unit {0})
unfolding may_fail
remove_all path = may_fail untouched (λ fs. (
  ok tt,
  record fs { nodes = filter_keys (λ p. not (text_eq path p || is_below path p)) fs.nodes },
))

-- The directories that lead to `path`, `before` being the bytes in front of it.
ancestors : Text → Text → List Text
ancestors before [] = before ∷ []
ancestors before (c ∷ path) =
    let rest = ancestors (before ++ (c ∷ [])) path in if c == slash then before ∷ rest else rest

make_directories : List Text → Io (Unit {0})
make_directories [] fs = (ok tt, fs)
make_directories ([] ∷ paths) fs = make_directories paths fs
make_directories ((c ∷ p) ∷ paths) fs = elim (node_at (c ∷ p) fs.nodes) [
  | none ↦ make_directories paths (set_node (c ∷ p) directory fs)
  | some node ↦ elim node [
    | directory ↦ make_directories paths fs
    | file _ ↦ (err not_a_directory, fs)
  ]
]

-- os.MkdirAll
unfoldable pub mkdir_all : Text → Io (Unit {0})
unfolding may_fail make_directories ancestors set_node
mkdir_all path = may_fail untouched (make_directories (ancestors [] path))

pub record Entry : Type 0 where
  pub base_name : Text
  pub is_dir : Bool

text_before : Text → Text → Bool
text_before [] t = true
text_before (c ∷ s) [] = false
text_before (c ∷ s) (d ∷ t) = ltb c d || (c == d && text_before s t)

insert_entry : Entry → List Entry → List Entry
insert_entry e [] = e ∷ []
insert_entry e (f ∷ es) =
    let rest = insert_entry e es in
    if text_before e.base_name f.base_name then e ∷ f ∷ es else f ∷ rest

-- The bytes of `path` behind `parent`, which is not the root, and a slash.
name_in : Text → Text → Option Text
name_in [] [] = none
name_in [] (c ∷ path) = if c == slash then some path else none
name_in (p ∷ parent) [] = none
name_in (p ∷ parent) (c ∷ path) = let rest = name_in parent path in if p == c then rest else none

has_slash : Text → Bool
has_slash [] = false
has_slash (c ∷ s) = c == slash || has_slash s

is_directory : Node → Bool
is_directory directory = true
is_directory (file _) = false

entries_of : Text → Dict Node → List Entry
entries_of parent [] = []
entries_of parent ((p, node) ∷ nodes) =
    let rest = entries_of parent nodes in
    elim (name_in parent p) [
      | none ↦ rest
      | some name ↦
          if has_slash name
          then rest
          else insert_entry (record { base_name = name; is_dir = is_directory node }) rest
    ]

-- ioutil.ReadDir, sorted by name.
unfoldable pub read_dir : Text → Io (List Entry)
unfolding may_fail entries_of insert_entry text_before name_in has_slash is_directory
read_dir path = may_fail untouched (λ fs. (
  elim (node_at path fs.nodes) [
    | none ↦ err not_exist
    | some node ↦ elim node [
      | file _ ↦ err not_a_directory
      | directory ↦ ok (entries_of path fs.nodes)
    ]
  ],
  fs,
))

-- ===== src/Tests/FilePath.antt =====
-- The examples in the documentation of `path/filepath`.
use machine.Base.{String, ◌≡◌, refl, [], ◌∷◌}
use machine.Text.{Text, bytes}
use machine.Text.FilePath.{clean, join, dir}

cleaned : String → Text
unfolding clean
cleaned p = clean (bytes p)

clean_table :
    (cleaned "" ≡ bytes ".")
    × (cleaned "a//b/./c/" ≡ bytes "a/b/c")
    × (cleaned "/../a" ≡ bytes "/a")
    × (cleaned "a/../../b" ≡ bytes "../b")
    × (cleaned "/" ≡ bytes "/")
unfolding cleaned
clean_table = (refl, refl, refl, refl, refl)

join_table :
    (join (bytes "a" ∷ bytes "b/c" ∷ []) ≡ bytes "a/b/c")
    × (join ([] ∷ [] ∷ []) ≡ [])
    × (join (bytes "a/b" ∷ bytes "../../xyz" ∷ []) ≡ bytes "xyz")
unfolding join
join_table = (refl, refl, refl)

dir_table :
    (dir (bytes "/foo/bar/baz.js") ≡ bytes "/foo/bar")
    × (dir (bytes "/foo/bar/baz/") ≡ bytes "/foo/bar/baz")
    × (dir (bytes "dev.txt") ≡ bytes ".")
    × (dir [] ≡ bytes ".")
    × (dir (bytes "/") ≡ bytes "/")
unfolding dir
dir_table = (refl, refl, refl, refl, refl)

-- ===== src/Text/FilePath.antt =====
-- `path/filepath` on Unix: Clean, Join, Dir.
use mathlib.Core.List.{reverse, foldl}
use machine.Base.{ℕ, Bool, true, false, ◌||◌, List, [], ◌∷◌, ◌++◌, ◌==◌, if◌then◌else◌}
use machine.Text.{Text, bytes, text_eq, split}

abbrev pub slash : ℕ
slash = b'/'

abbrev pub dot : Text
dot = bytes "."

abbrev pub dot_dot : Text
dot_dot = bytes ".."

abbrev pub rooted : Text → Bool
rooted [] = false
rooted (c ∷ p) = c == slash

-- `..` takes the element before it away; at the root nothing stands before it.
up : Bool → List Text → List Text
up true [] = []
up false [] = dot_dot ∷ []
up root (e ∷ stack) = if text_eq e dot_dot then dot_dot ∷ e ∷ stack else stack

-- One element of the path, with those before it, the nearest first.
step : Bool → List Text → Text → List Text
step root stack e =
    if text_eq e [] || text_eq e dot
    then stack
    else if text_eq e dot_dot
    then up root stack
    else e ∷ stack

-- strings.Join(elements, "/").
abbrev pub join_slash : List Text → Text
join_slash [] = []
join_slash (e ∷ []) = e
join_slash (e ∷ f ∷ es) = e ++ (slash ∷ join_slash (f ∷ es))

render : Bool → List Text → Text
render true es = slash ∷ join_slash es
render false [] = dot
render false (e ∷ es) = join_slash (e ∷ es)

unfoldable pub clean : Text → Text
unfolding step up render text_eq split
clean p = render (rooted p) (reverse (foldl (step (rooted p)) [] (split slash p)))

-- filepath.Join: empty elements in front are left out.
unfoldable pub join : List Text → Text
unfolding clean
join [] = []
join ([] ∷ es) = join es
join ((c ∷ e) ∷ es) = clean (join_slash ((c ∷ e) ∷ es))

-- The part up to the last slash, that included.
abbrev up_to_slash : Text → Text
up_to_slash [] = []
up_to_slash (c ∷ p) = elim (up_to_slash p) [
  | [] ↦ if c == slash then c ∷ [] else []
  | d ∷ q ↦ c ∷ d ∷ q
]

unfoldable pub dir : Text → Text
unfolding clean
dir p = clean (up_to_slash p)

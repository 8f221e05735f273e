-- ===== src/FileSystem/RemoveAll.antt =====
-- What is gone once a tree is removed.
use machine.Base.{◌≡◌, refl, false, ◌||◌, not, [], ◌∷◌}
use machine.Base.Exec.{ok, err}
use machine.Text.{Text, text_eq, text_eq_refl}
use machine.Text.Dict.{Dict, filter_keys, lookup-filter_keys}
use machine.Text.FilePath.{slash, dot}
use machine.Errors.{not_exist}
use machine.FileSystem.{Node, Fs, remove_all, stat, stat_now, found, node_at, is_below}

-- The files, with calls that do what they can.
abbrev pub faultless : Dict Node → Fs
faultless nodes = record { nodes = nodes; faults = [] }

abbrev pub without : Text → Dict Node → Dict Node
without path = filter_keys (λ p. not (text_eq path p || is_below path p))

pub remove_all-faultless :
    (path : Text) (nodes : Dict Node)
    → remove_all path (faultless nodes) ≡ (ok tt, faultless (without path nodes))
unfolding remove_all
remove_all-faultless path nodes = refl

-- A path other than the root and the working directory is not there once it is removed.
pub stat-without :
    (path : Text) (nodes : Dict Node)
    → text_eq path (slash ∷ []) ≡ false
    → text_eq path dot ≡ false
    → stat path (faultless (without path nodes)) ≡ (err not_exist, faultless (without path nodes))
unfolding stat stat_now found node_at
stat-without path nodes a b =
    rw
      (
        stat,
        a,
        b,
        lookup-filter_keys (λ p. not (text_eq path p || is_below path p)) path nodes,
        text_eq_refl path,
      )
      refl

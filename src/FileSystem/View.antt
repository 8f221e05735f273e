-- ===== src/FileSystem/View.antt =====
-- The abstract view of the files, a function from paths to nodes, and what each call does to it:
-- a call that succeeds has its effect on the view, and one that fails mostly none.
use mathlib.Core.Path.{fun_ext}
use machine.Base.{ℕ, ◌≡◌, refl, ap, Option, none, some, List, [], ◌∷◌, arith, if◌then◌else◌}
use machine.Base.Exec.{Result, ok, err, ◌>>=◌}
use machine.Text.{Text, text_eq}
use machine.Text.Dict.{Dict, lookup, lookup-insert, lookup-filter_keys}
use machine.Errors.{Error, message}
use machine.FileSystem.{
  Node, Fault, fine, fails, fails_after, Fs, Io, set_node, erase, may_fail, under_fault, untouched,
}

abbrev pub View : Type 0
View = Text → Option Node

unfoldable pub view : Fs → View
view fs path = lookup path fs.nodes

-- The view with the node at `path` replaced.
unfoldable pub update : Text → Option Node → View → View
update path node v j = if text_eq path j then node else v j

-- A call either succeeds, with what `Done` says of its answer and the view after it, or fails, with
-- what `Broken` says of the view.
pub data Outcome {A : Type 0} (Done : A → View → Type 0) (Broken : Error → View → Type 0)
    (r : Result Error A × Fs) : Type 0 where
  done : (a : A) → r.0 ≡ ok a → Done a (view r.1) → Outcome Done Broken r
  failed : (e : Error) → r.0 ≡ err e → Broken e (view r.1) → Outcome Done Broken r

module _ {A : Type 0} (Done : A → View → Type 0) (Broken : Error → View → Type 0) where
  pub may_fail-Outcome :
      (partial : ℕ → Dict Node → Dict Node) (run : Io A) (fs : Fs)
      → ((text : Text) → Broken (message text) (view fs))
      → ((text : Text) (n : ℕ)
          → Broken (message text) (view (record fs { nodes = partial n fs.nodes })))
      → ((fs' : Fs) → fs'.nodes ≡ fs.nodes → Outcome Done Broken (run fs'))
      → Outcome Done Broken (may_fail partial run fs)
  unfolding may_fail view
  may_fail-Outcome partial run fs broken half_done runs = go fs.faults
    where
      trouble :
          (rest : List Fault) (fault : Fault)
          → Outcome Done Broken (under_fault partial run fault (record fs { faults = rest }))
      trouble rest fine = runs (record fs { faults = rest }) refl
      trouble rest (fails e) = failed (message e) refl (broken e)
      trouble rest (fails_after e n) = failed (message e) refl (half_done e n)

      go :
          (faults : List Fault)
          → Outcome Done Broken (elim faults [
            | [] ↦ run fs
            | fault ∷ rest ↦ under_fault partial run fault (record fs { faults = rest })
          ])
      go [] = runs fs refl
      go (fault ∷ rest) = trouble rest fault

  -- A call that may fail without a trace.
  pub untouched-Outcome :
      (run : Io A) (fs : Fs)
      → ((text : Text) → Broken (message text) (view fs))
      → ((fs' : Fs) → fs'.nodes ≡ fs.nodes → Outcome Done Broken (run fs'))
      → Outcome Done Broken (may_fail untouched run fs)
  unfolding view
  untouched-Outcome run fs broken = may_fail-Outcome untouched run fs broken (λ e _. broken e)

pub view_of_nodes : (fs' fs : Fs) → fs'.nodes ≡ fs.nodes → view fs' ≡ view fs
unfolding view
view_of_nodes fs' fs e = ap {B = View} (λ nodes j. lookup j nodes) e

pub view-insert :
    (path : Text) (node : Node) (fs : Fs)
    → view (set_node path node fs) ≡ update path (some node) (view fs)
unfolding view update set_node
view-insert path node fs = fun_ext λ j. lookup-insert path j node fs.nodes

pub view-erase :
    (path : Text) (fs : Fs)
    → view (record fs { nodes = erase path fs.nodes }) ≡ update path none (view fs)
unfolding view update
view-erase path fs = fun_ext λ j. rw lookup-filter_keys (ground arith)

abbrev pub Unchanged : View → View → Type 0
Unchanged before v = v ≡ before

pub weaken :
    {A : Type 0} {Done Done' : A → View → Type 0} {Broken Broken' : Error → View → Type 0}
    {r : Result Error A × Fs}
    → Outcome Done Broken r
    → ((a : A) (v : View) → Done a v → Done' a v)
    → ((e : Error) (v : View) → Broken e v → Broken' e v)
    → Outcome Done' Broken' r
weaken {r} (done a e d) f g = done a e (f a (view r.1) d)
weaken {r} (failed x e b) f g = failed x e (g x (view r.1) b)

-- Of two calls, the second starts from where the first ends.
pub Outcome-bind :
    {A B : Type 0} {Done : A → View → Type 0} {Done' : B → View → Type 0}
    {Broken Broken' : Error → View → Type 0} (m : Io A) (k : A → Io B) (fs : Fs)
    → Outcome Done Broken (m fs)
    → ((e : Error) (v : View) → Broken e v → Broken' e v)
    → ((a : A) (fs' : Fs) → Done a (view fs') → Outcome Done' Broken' (k a fs'))
    → Outcome Done' Broken' ((m >>= k) fs)
Outcome-bind m k fs (done a q d) lost next = rw q (next a (m fs).1 d)
Outcome-bind m k fs (failed e q b) lost next = rw q (failed e refl (lost e (view (m fs).1) b))

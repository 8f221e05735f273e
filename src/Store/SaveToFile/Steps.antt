-- ===== src/Store/SaveToFile/Steps.antt =====
-- The steps by which `saveToFile` replaces a file, whichever of them fail.
use mathlib.Core.Path.{fun_ext}
use machine.Base.{
  ℕ, take, ◌≡◌, refl, sym, ap, ◌∙◌, ◌⊎◌, inl, inr, false, Option, none, some, [], arith, Bool-cases,
}
use machine.Base.Exec.{◌>>◌}
use machine.Text.{Text, text_eq, text_eq_iff, text_eq_refl}
use machine.Text.Dict.{Dict, lookup}
use machine.Text.FilePath.{dir}
use machine.FileSystem.{Node, file, Fs, Io, write_file, close, remove, rename, temp_file}
use machine.FileSystem.View.{
  View, view, update, Unchanged, Outcome, done, failed, weaken, Outcome-bind,
}
use machine.FileSystem.Calls.{
  close-Outcome, remove-Outcome, write_file-Outcome, temp_file-Outcome, rename-Outcome,
}
use machine.Store.{temp_prefix, deferred, write_and_move, replace_file}

pub update_self : (path : Text) (entry : Option Node) (v : View) → update path entry v path ≡ entry
unfolding update
update_self path entry v = rw (text_eq_refl path)

pub update_other :
    (path : Text) (entry : Option Node) (v : View) (j : Text)
    → text_eq path j ≡ false
    → update path entry v j ≡ v j
unfolding update
update_other path entry v j e = rw e

-- Over the files `v0` before, a temporary file `tmp` that is not there, and the file to replace.
module _ (v0 : View) (tmp target data_text : Text) (other : text_eq tmp target ≡ false) where
  -- Nothing but the two files has changed.
  abbrev pub Elsewhere : View → Type 0
  Elsewhere v = (j : Text) → text_eq tmp j ≡ false → text_eq target j ≡ false → v j ≡ v0 j

  pub record Spared (v : View) : Type 0 where
    pub elsewhere : Elsewhere v
    pub old_or_gone : (v target ≡ v0 target) ⊎ (v target ≡ none)

  record Written (v : View) : Type 0 where
    pub at_tmp : v tmp ≡ some (file data_text)
    rest : (j : Text) → text_eq tmp j ≡ false → v j ≡ v0 j

  record Removed (v : View) : Type 0 where
    pub at_tmp : v tmp ≡ some (file data_text)
    pub at_target : v target ≡ none
    pub elsewhere : Elsewhere v

  pub record Saved (v : View) : Type 0 where
    pub at_tmp : v tmp ≡ none
    pub at_target : v target ≡ some (file data_text)
    pub elsewhere : Elsewhere v

  Written-Spared : (v : View) → Written v → Spared v
  Written-Spared v w = record {
    elsewhere = λ j a b. w.rest j a;
    old_or_gone = inl (w.rest target other);
  }

  Removed-Spared : (v : View) → Removed v → Spared v
  Removed-Spared v r = record { elsewhere = r.elsewhere; old_or_gone = inr r.at_target }

  -- A view that differs from the one before at the temporary file alone.
  tmp_only-Spared : (v : View) → ((j : Text) → text_eq tmp j ≡ false → v j ≡ v0 j) → Spared v
  tmp_only-Spared v h = record { elsewhere = λ j a b. h j a; old_or_gone = inl (h target other) }

  write-step :
      (fs : Fs)
      → ((j : Text) → text_eq tmp j ≡ false → view fs j ≡ v0 j)
      → Outcome (λ _. Written) (λ _. Spared) (write_file tmp data_text fs)
  write-step fs same =
      weaken (write_file-Outcome tmp data_text fs)
        (λ _ v e. record {
          at_tmp = rw e (update_self tmp _ (view fs));
          rest = λ j a. rw e (update_other tmp _ (view fs) j a ∙ same j a);
        })
        (λ _ v b. broken v b)
    where
      broken :
          (v : View)
          → (v ≡ view fs) ⊎ ((n : ℕ) × (v ≡ update tmp (some (file (take n data_text))) (view fs)))
          → Spared v
      broken v (inl e) = tmp_only-Spared v (λ j a. rw e (same j a))
      broken v (inr (n, e)) =
          tmp_only-Spared v (λ j a. rw e (update_other tmp _ (view fs) j a ∙ same j a))

  remove-step :
      (fs : Fs) → Written (view fs) → Outcome (λ _. Removed) (λ _. Spared) (remove target fs)
  remove-step fs w =
      weaken (remove-Outcome target fs)
        (λ _ v e. record {
          at_tmp = rw e (update_other target none (view fs) tmp swapped ∙ w.at_tmp);
          at_target = rw e (update_self target none (view fs));
          elsewhere = λ j a b. rw e (update_other target none (view fs) j b ∙ w.rest j a);
        })
        (λ _ v e. rw e (Written-Spared (view fs) w))
    where
      swapped : text_eq target tmp ≡ false
      swapped = ground (arith, text_eq_iff target tmp, text_eq_iff tmp target)

  rename-step :
      (fs : Fs) → Removed (view fs) → Outcome (λ _. Saved) (λ _. Spared) (rename tmp target fs)
  rename-step fs r =
      weaken (rename-Outcome tmp target fs other)
        (λ _ v (text, at_tmp, e). rw e (saved text at_tmp))
        (λ _ v e. rw e (Removed-Spared (view fs) r))
    where
      saved :
          (text : Text)
          → view fs tmp ≡ some (file text)
          → Saved (update tmp none (update target (some (file text)) (view fs)))
      saved text e =
          let put : View = update target (some (file text)) (view fs) in
          record {
            at_tmp = update_self tmp none put;
            at_target =
                update_other tmp none put target other
                ∙ update_self target _ (view fs)
                ∙ sym e
                ∙ r.at_tmp;
            elsewhere = λ j a b.
                update_other tmp none put j a
                ∙ update_other target _ (view fs) j b
                ∙ r.elsewhere j a b;
          }

  -- The four steps together.
  write_and_move-Outcome :
      (fs : Fs)
      → ((j : Text) → text_eq tmp j ≡ false → view fs j ≡ v0 j)
      → Outcome (λ _. Saved) (λ _. Spared) (write_and_move data_text target tmp fs)
  unfolding write_and_move
  write_and_move-Outcome fs same =
      Outcome-bind (write_file tmp data_text) (λ _. from_close) fs (write-step fs same) (λ e v b. b)
        λ _ fs1 w.
          Outcome-bind (close tmp) (λ _. from_remove) fs1 (close-Outcome tmp fs1)
            (λ e v b. rw b (Written-Spared (view fs1) w))
            λ _ fs2 e.
              Outcome-bind (remove target) (λ _. rename tmp target) fs2 (remove-step fs2 (rw e w))
                (λ x v b. b) λ _ fs3 r. rename-step fs3 r
    where
      from_remove : Io (Unit {0})
      from_remove = remove target >> rename tmp target

      from_close : Io (Unit {0})
      from_close = close tmp >> from_remove

  -- The removal of the temporary file at the end spoils neither.
  cleanup-Outcome :
      (m : Io (Unit {0})) (fs : Fs)
      → Outcome (λ _. Saved) (λ _. Spared) (m fs)
      → Outcome (λ _. Saved) (λ _. Spared) (deferred (remove tmp) m fs)
  cleanup-Outcome m fs o = go o
    where
      after : Fs
      after = (m fs).1

      cleaned :
          (P : View → Type 0)
          → P (view after)
          → P (update tmp none (view after))
          → P (view (remove tmp after).1)
      cleaned P kept gone = pick_view (remove-Outcome tmp after)
        where
          pick_view :
              Outcome
                (λ _ v. v ≡ update tmp none (view after))
                (λ _. Unchanged (view after))
                (remove tmp after)
              → P (view (remove tmp after).1)
          pick_view (done _ _ e) = rw e gone
          pick_view (failed _ _ e) = rw e kept

      without_tmp : (v : View) (j : Text) → text_eq tmp j ≡ false → update tmp none v j ≡ v j
      without_tmp v j a = update_other tmp none v j a

      go :
          Outcome (λ _. Saved) (λ _. Spared) (m fs)
          → Outcome (λ _. Saved) (λ _. Spared) (deferred (remove tmp) m fs)
      go (done a q s) = done a q (
          cleaned Saved s (record {
            at_tmp = update_self tmp none (view after);
            at_target = without_tmp (view after) target other ∙ s.at_target;
            elsewhere = λ j a b. without_tmp (view after) j a ∙ s.elsewhere j a b;
          }))
      go (failed e q s) = failed e q (
          cleaned Spared s (record {
            elsewhere = λ j a b. without_tmp (view after) j a ∙ s.elsewhere j a b;
            old_or_gone = ground (arith, s.old_or_gone, without_tmp (view after) target other);
          }))

-- The files before a call, the temporary file that the call would make, and what is assumed of the
-- name that `ioutil.TempFile` picks: no file bears it, and it is not that of the file to save.
module _ (pick : Text → Text → Dict Node → Text) (data_text target : Text) (fs : Fs)
    (fresh : lookup (pick (dir target) temp_prefix fs.nodes) fs.nodes ≡ none)
    (other : text_eq (pick (dir target) temp_prefix fs.nodes) target ≡ false) where
  abbrev pub tmp : Text
  tmp = pick (dir target) temp_prefix fs.nodes

  pub replace_file-Outcome :
      Outcome
        (λ _. Saved (view fs) tmp target data_text other)
        (λ _. Spared (view fs) tmp target data_text other)
        (replace_file pick data_text target fs)
  unfolding replace_file
  replace_file-Outcome =
      Outcome-bind (temp_file pick (dir target) temp_prefix) then_move fs
        (temp_file-Outcome pick (dir target) temp_prefix fs)
        (λ e v same.
          rw same (tmp_only-Spared (view fs) tmp target data_text other (view fs) (λ j a. refl)))
        (λ name fs1 (named, made). moved name fs1 named made)
    where
      then_move : Text → Io (Unit {0})
      then_move name = deferred (remove name) (write_and_move data_text target name)

      moved :
          (name : Text) (fs1 : Fs)
          → name ≡ tmp
          → view fs1 ≡ update tmp (some (file [])) (view fs)
          → Outcome
              (λ _. Saved (view fs) tmp target data_text other)
              (λ _. Spared (view fs) tmp target data_text other)
              (then_move name fs1)
      moved name fs1 named made = rw named (
          cleanup-Outcome (view fs) tmp target data_text other (write_and_move data_text target tmp)
            fs1
            (write_and_move-Outcome (view fs) tmp target data_text other fs1
              (λ j a. ap (λ (v : View). v j) made ∙ update_other tmp _ (view fs) j a)))

  pub Saved-update :
      (v : View)
      → Saved (view fs) tmp target data_text other v
      → v ≡ update target (some (file data_text)) (view fs)
  unfolding view update
  Saved-update v s = fun_ext λ j. elim (Bool-cases (text_eq target j)) [
    | inl here ↦ rw here (ap v (sym ((text_eq_iff target j).0 here)) ∙ s.at_target)
    | inr there ↦ elim (Bool-cases (text_eq tmp j)) [
      | inl at_tmp ↦
          let e : tmp ≡ j = (text_eq_iff tmp j).0 at_tmp in
          rw there (ap v (sym e) ∙ s.at_tmp ∙ sym fresh ∙ ap (λ k. lookup k fs.nodes) e)
      | inr a ↦ rw there (s.elsewhere j a there)
    ]
  ]

-- ===== src/AmazonEc2/Instance/Removal.antt =====
-- When the driver of drivers/amazonec2/amazonec2.go removes a machine.
use machine.Base.{
  ◌≡◌, ◌≢◌, ◌↔◌, refl, sym, ap, ◌∙◌, subst, Bool-cases, inl, inr, Bool, true, false, not, List, [],
  ◌∷◌, ◌++◌, if◌then◌else◌,
}
use machine.Base.Exec.{Result, ok, err, pure, bind-parts, ◌>>=◌}
use machine.Text.{bytes, text_eq, has_prefix}
use machine.Errors.{Error, Act}
use machine.AmazonEc2.{AmazonEc2, Ec2Client}
use machine.AmazonEc2.Instance.{
  terminate, cancel_spot_instance_request, delete_key_pair, attempt, multi_error, has_spot_request,
  remove, get_instance, first_instance, termination, is_gone,
}

-- A step that is due succeeds.
abbrev pub WhenDue : {W : Type 0} → Bool → Act W (Unit {0}) → W → Type 0
WhenDue false step w = Unit {0}
WhenDue true step w = (step w).0 ≡ ok tt

-- The world that a step leaves if it is due.
abbrev pub after : {W : Type 0} → Bool → Act W (Unit {0}) → W → W
after false step w = w
after true step w = (step w).1

module _ {W : Type 0} (client : Ec2Client W) where
  attempt-WhenDue :
      (due : Bool) (step : Act W (Unit {0})) (w : W)
      → ((attempt client due step w).0 ≡ []) ↔ WhenDue due step w
  unfolding attempt
  attempt-WhenDue false step w = (λ _. tt, λ _. refl)
  attempt-WhenDue true step w = go (step w).0
    where
      go :
          (r : Result Error (Unit {0}))
          → (elim r as (λ _. List Error) [ err e ↦ e ∷ [] | ok _ ↦ [] ] ≡ []) ↔ (r ≡ ok tt)
      go (ok u) = (λ _. refl, λ _. refl)
      go (err e) = (λ h. cc, λ h. cc)

  multi_error-ok_iff :
      (a b c : List Error)
      → (multi_error client (a ++ (b ++ c)) ≡ ok tt) ↔ ((a ≡ []) × ((b ≡ []) × (c ≡ [])))
  unfolding multi_error
  multi_error-ok_iff [] [] [] = (λ _. (refl, (refl, refl)), λ _. refl)
  multi_error-ok_iff [] [] (e ∷ c) = (λ h. cc, λ (_, (_, h)). cc)
  multi_error-ok_iff [] (e ∷ b) c = (λ h. cc, λ (_, (h, _)). cc)
  multi_error-ok_iff (e ∷ a) b c = (λ h. cc, λ (h, _). cc)

  attempt-after :
      (due : Bool) (step : Act W (Unit {0})) (w : W)
      → (attempt client due step w).1 ≡ after due step w
  unfolding attempt
  attempt-after false step w = refl
  attempt-after true step w = refl

  -- `Remove` takes each step that is due, whether those before have succeeded or not, and leaves the
  -- world that they leave one after another: the instance is terminated, the request for a spot
  -- instance is cancelled where there is one, and the key is deleted unless it was there before the
  -- machine. It succeeds exactly when every step that is due does.
  pub remove-ok_iff :
      (d : AmazonEc2) (w : W)
      → let spot = has_spot_request d in
        let own_key = not d.existing_key in
        let w1 = (terminate client d w).1 in
        let w2 = after spot (cancel_spot_instance_request client d) w1 in
        ((remove client d w).1 ≡ after own_key (delete_key_pair client d) w2)
        × (((remove client d w).0 ≡ ok tt) ↔ (
            ((terminate client d w).0 ≡ ok tt)
            × (WhenDue spot (cancel_spot_instance_request client d) w1
                × WhenDue own_key (delete_key_pair client d) w2)))
  unfolding remove
  remove-ok_iff d w =
      let spot = has_spot_request d in
      let own_key = not d.existing_key in
      let w1 = (attempt client true (terminate client d) w).1 in
      let w2 = (attempt client spot (cancel_spot_instance_request client d) w1).1 in
      let (there, back) =
        multi_error-ok_iff (attempt client true (terminate client d) w).0
          (attempt client spot (cancel_spot_instance_request client d) w1).0
          (attempt client own_key (delete_key_pair client d) w2).0 in
      let (t1, b1) = attempt-WhenDue true (terminate client d) w in
      let (t2, b2) = attempt-WhenDue spot (cancel_spot_instance_request client d) w1 in
      let (t3, b3) = attempt-WhenDue own_key (delete_key_pair client d) w2 in
      let e1 : w1 ≡ (terminate client d w).1 = attempt-after true (terminate client d) w in
      let e2 : w2 ≡ after spot (cancel_spot_instance_request client d) (terminate client d w).1 =
        attempt-after spot (cancel_spot_instance_request client d) w1
        ∙ ap (after spot (cancel_spot_instance_request client d)) e1 in
      (
        attempt-after own_key (delete_key_pair client d) w2
            ∙ ap (after own_key (delete_key_pair client d)) e2,
        (
          λ h.
              let (p, (q, r)) = there h in
              (
                t1 p,
                (
                  subst (WhenDue spot (cancel_spot_instance_request client d)) e1 (t2 q),
                  subst (WhenDue own_key (delete_key_pair client d)) e2 (t3 r),
                ),
              ),
          λ (p, (q, r)). back (
            b1 p,
            (
              b2 (subst (WhenDue spot (cancel_spot_instance_request client d)) (sym e1) q),
              b3 (subst (WhenDue own_key (delete_key_pair client d)) (sym e2) r),
            ),
          ),
        ),
      )

  -- A machine with a key of its own is not removed with success where the client answers every
  -- question for its instance with an error, though to terminate the instance is no error, where the
  -- client's error says that it was not found.
  pub remove-gone :
      (d : AmazonEc2) (w : W) (e : Error)
      → ((v : W) → (e : Error) × ((client.describe_instances (d.instance_id ∷ []) v).0 ≡ err e))
      → (client.terminate_instances (d.instance_id ∷ []) w).0 ≡ err e
      → has_prefix (bytes "InvalidInstanceID.NotFound") (client.error_text e) ≡ true
      → text_eq d.key_name [] ≡ false
      → d.existing_key ≡ false
      → ((terminate client d w).0 ≡ ok tt) × ((remove client d w).0 ≢ ok tt)
  unfolding delete_key_pair get_instance terminate termination is_gone
  remove-gone d w e gone terminated not_found named own = (
    elim (Bool-cases (text_eq d.instance_id [])) [
      | inl none_there ↦ rw none_there refl
      | inr one ↦ rw one (ap termination' terminated ∙ forgiven)
    ],
    λ h.
        let (_, (_, due)) = (remove-ok_iff d w).1.0 h in
        let spot = has_spot_request d in
        let w2 = after spot (cancel_spot_instance_request client d) (terminate client d w).1 in
        in_vain w2 (subst (λ b. WhenDue (not b) (delete_key_pair client d) w2) own due),
  )
    where
      termination' : Result Error (Unit {0}) → Result Error (Unit {0})
      termination' r = termination client r

      forgiven : termination client (err e) ≡ ok tt
      forgiven = elim (Bool-cases (has_prefix (bytes "unknown instance") (client.error_text e))) [
        | inl yes_it_is ↦ rw yes_it_is refl
        | inr it_is_not ↦ rw (it_is_not, not_found) refl
      ]

      with_key : Bool → Act W (Unit {0})
      with_key b =
          if b
          then pure tt
          else (get_instance client d >>= λ inst. client.delete_key_pair inst.instance_key)

      in_vain : (v : W) → (delete_key_pair client d v).0 ≡ ok tt → ⊥
      in_vain v k =
          let (e, fails) = gone v in
          let (inst, asked, _) =
            bind-parts (get_instance client d) (λ inst. client.delete_key_pair inst.instance_key) v
              tt (subst (λ (b : Bool). (with_key b v).0 ≡ ok tt) named k) in
          let (found, said, _) =
            bind-parts (client.describe_instances (d.instance_id ∷ []))
              (λ rs u. (first_instance rs, u)) v inst asked in
          cc

-- ===== src/AmazonEc2/Groups/Configured.antt =====
-- What configureSecurityGroups of drivers/amazonec2/amazonec2.go leaves in the driver, and the groups
-- that it makes.
use mathlib.Core.List.{append-nil, append_assoc}
use machine.Base.{suc, ◌≡◌, refl, sym, ap, ◌∙◌, List, [], ◌∷◌, ◌++◌, length}
use machine.Base.Exec.{Result, ok, err, continue, ◌>>◌}
use machine.Text.{Text}
use machine.Text.Dict.{Dict}
use machine.Errors.{Error}
use machine.AmazonEc2.{AmazonEc2, Ec2Client, SecurityGroup, with_names}
use machine.AmazonEc2.Groups.{
  add_group_id, add_and_open, ensure_group, open_group, configure_each, configure_security_groups,
  groups_by_name,
}

abbrev with_more : AmazonEc2 → List Text → AmazonEc2
with_more d ids = record d { security_group_ids = d.security_group_ids ++ ids }

abbrev with_ids : AmazonEc2 → List Text → AmazonEc2
with_ids d l = record d { security_group_ids = l }

module _ {W : Type 0} (client : Ec2Client W) where
  -- The ids are those of the groups that were found or made for the first of the names, in order.
  abbrev pub IdsOf : Dict SecurityGroup → Text → List Text → List Text → Type 0
  unfolding ensure_group
  IdsOf found vpc names [] = Unit {0}
  IdsOf found vpc [] (id ∷ ids) = ⊥
  IdsOf found vpc (name ∷ names) (id ∷ ids) =
      ((v : W) × ((g : SecurityGroup) × (((ensure_group client found vpc name v).0 ≡ ok g)
            × (g.group_id ≡ id))))
      × IdsOf found vpc names ids

  -- The driver has got such ids, one for each name where nothing failed. Nothing else of it has
  -- changed.
  pub record GotIds (found : Dict SecurityGroup) (d : AmazonEc2) (names : List Text)
      (r : Result Error (Unit {0})) (d' : AmazonEc2) : Type 0 where
    pub ids : List Text
    pub driver : d' ≡ with_more d ids
    pub of_groups : IdsOf found d.vpc_id names ids
    pub all_ok : r ≡ ok tt → length ids ≡ length names

  abbrev Leaves :
      Dict SecurityGroup
      → AmazonEc2
      → List Text
      → Result Error (Unit {0}) × (AmazonEc2 × W)
      → Type 0
  Leaves found d names (r, (d', _)) = GotIds found d names r d'

  nothing :
      (found : Dict SecurityGroup) (d : AmazonEc2) (names : List Text) (e : Error)
      → GotIds found d names (err e) d
  unfolding IdsOf
  nothing found d names e = record {
    ids = [];
    driver = ap (λ l. with_ids d l) (sym (append-nil d.security_group_ids));
    of_groups = tt;
    all_ok = λ h. cc;
  }

  none_asked : (found : Dict SecurityGroup) (d : AmazonEc2) → GotIds found d [] (ok tt) d
  unfolding IdsOf
  none_asked found d = record {
    ids = [];
    driver = ap (λ l. with_ids d l) (sym (append-nil d.security_group_ids));
    of_groups = tt;
    all_ok = λ h. refl;
  }

  -- The id of one group more in front.
  one_more :
      {found : Dict SecurityGroup} {d : AmazonEc2} {name : Text} {names : List Text}
      {r : Result Error (Unit {0})} {d' : AmazonEc2} (v : W) (g : SecurityGroup)
      → (ensure_group client found d.vpc_id name v).0 ≡ ok g
      → GotIds found (add_group_id g.group_id d) names r d'
      → GotIds found d (name ∷ names) r d'
  unfolding IdsOf
  one_more {d = d} v g got more = record {
    ids = g.group_id ∷ more.ids;
    driver =
        more.driver
        ∙ ap (λ l. with_ids d l) (append_assoc d.security_group_ids (g.group_id ∷ []) more.ids);
    of_groups = ((v, (g, (got, refl))), more.of_groups);
    all_ok = λ h. ap suc (more.all_ok h);
  }

  -- The groups by their names, as the first question finds them.
  abbrev pub groups_found : List Text → Text → W → Dict SecurityGroup
  unfolding groups_by_name
  groups_found names vpc w =
      elim (client.describe_security_groups (with_names names vpc) w).0
        as (λ _. Dict SecurityGroup) [ err e ↦ [] | ok groups ↦ groups_by_name groups [] ]

  configure_each-GotIds :
      (found : Dict SecurityGroup) (names : List Text) (d : AmazonEc2) (w : W)
      → Leaves found d names (configure_each client found names (d, w))
  unfolding configure_each add_and_open IdsOf
  configure_each-GotIds found [] d w = none_asked found d
  configure_each-GotIds found (name ∷ names) d w =
      on_group (λ d. λ w. configure_each-GotIds found names d w)
        (ensure_group client found d.vpc_id name w).0 refl
        (ensure_group client found d.vpc_id name w).1
    where
      Rest : Type 0
      Rest =
          (d : AmazonEc2) (w : W) → Leaves found d names (configure_each client found names (d, w))

      on_open :
          Rest
          → (g : SecurityGroup) → (ensure_group client found d.vpc_id name w).0 ≡ ok g
          → (o : Result Error (Unit {0})) (w2 : W)
          → Leaves found d
              (name ∷ names)
              (continue o (λ _. configure_each client found names) (add_group_id g.group_id d, w2))
      on_open rest g got (err e) w2 =
          one_more w g got (nothing found (add_group_id g.group_id d) names e)
      on_open rest g got (ok u) w2 = one_more w g got (rest (add_group_id g.group_id d) w2)

      on_group :
          Rest
          → (r : Result Error SecurityGroup) → (ensure_group client found d.vpc_id name w).0 ≡ r
          → (w1 : W)
          → Leaves found d (name ∷ names) (
              continue r
                (λ group. (add_and_open client group >> configure_each client found names))
                (d, w1))
      on_group rest (err e) got w1 = nothing found d (name ∷ names) e
      on_group rest (ok group) got w1 =
          let d1 = add_group_id group.group_id d in
          let (o, w2) = open_group client d1 group w1 in on_open rest group got o w2

  -- However `configureSecurityGroups` ends, the driver is as before but for ids that are put behind
  -- those it had. They are the ids of the groups that were found by the first question or made for
  -- the names, the first of them in order, and for every name one where there is no error.
  pub configure_security_groups-GotIds :
      (names : List Text) (d : AmazonEc2) (w : W)
      → let (r, (d', _)) = configure_security_groups client names (d, w) in
        GotIds (groups_found names d.vpc_id w) d names r d'
  unfolding configure_security_groups groups_found
  configure_security_groups-GotIds [] d w = none_asked (groups_found [] d.vpc_id w) d
  configure_security_groups-GotIds (name ∷ names) d w =
      let (r, w') = client.describe_security_groups (with_names (name ∷ names) d.vpc_id) w in
      go r w'
    where
      go :
          (r : Result Error (List SecurityGroup)) (w' : W)
          → Leaves
              (elim r as (λ _. Dict SecurityGroup) [
                | err e ↦ []
                | ok groups ↦ groups_by_name groups []
              ])
              d
              (name ∷ names)
              (elim r [
                | err e ↦ (err e, (d, w'))
                | ok groups ↦
                    configure_each client (groups_by_name groups []) (name ∷ names) (d, w')
              ])
      go (err e) w' = nothing [] d (name ∷ names) e
      go (ok groups) w' = configure_each-GotIds (groups_by_name groups []) (name ∷ names) d w'

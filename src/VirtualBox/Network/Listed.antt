-- ===== src/VirtualBox/Network/Listed.antt =====
-- The adapters that listHostOnlyAdapters of drivers/virtualbox/network.go returns.
use machine.Base.{
  ◌≡◌, refl, sym, ap, ◌∙◌, subst, ◌⊎◌, inl, inr, Bool-cases, none, some, [], ◌∷◌, arith,
  if◌then◌else◌,
}
use machine.Base.Exec.{Result, ok, err, bind-inverse, some-injective}
use machine.Text.{Text, bytes, text_eq, text_eq_iff, text_eq_refl}
use machine.Text.Dict.{Dict, lookup, insert, lookup-insert}
use machine.Text.Scan.{colon_line}
use machine.Text.Scan.Keeps.{parse_key_values-keeps}
use machine.Errors.{Error}
use machine.VirtualBox.{Manager}
use machine.VirtualBox.Ip.{Ip, Quad, ip_string}
use machine.VirtualBox.Network.{
  HostOnlyNetwork, Listing, empty_listing, file_ip, complete, on_adapter, read_adapters, names_of,
  list_host_only_adapters,
}

-- Each adapter is found under the name of its network, and an adapter with an address under it.
pub record Filed (s : Listing) (k : Text) (n : HostOnlyNetwork) : Type 0 where
  pub named : n.network_name ≡ k
  pub by_address : (q : Quad) → n.ip ≡ some q → lookup (ip_string (some q)) s.by_ip ≡ some n

abbrev pub IsFiled : Listing → Type 0
IsFiled s = (k : Text) (n : HostOnlyNetwork) → lookup k s.by_name ≡ some n → Filed s k n

-- Only the case that completes an adapter changes the maps.
on_adapter-cases :
    (key val : Text) (s t : Listing)
    → on_adapter key val s ≡ ok t
    → ((t.by_name ≡ s.by_name) × (t.by_ip ≡ s.by_ip))
      ⊎ (complete (record s.current { network_name = val }) s ≡ ok t)
unfolding on_adapter
on_adapter-cases key val s t h = ground arith

IsFiled-same :
    (s t : Listing) → IsFiled s → (t.by_name ≡ s.by_name) × (t.by_ip ≡ s.by_ip) → IsFiled t
IsFiled-same s t f (names, addresses) k n h =
    let old = f k n (ap (λ d. lookup k d) (sym names) ∙ h) in
    record {
      named = old.named;
      by_address = λ q e. ap (λ d. lookup (ip_string (some q)) d) addresses ∙ old.by_address q e;
    }

-- What completing an adapter has found and changed.
record Completed (n : HostOnlyNetwork) (s t : Listing) : Type 0 where
  new_name : lookup n.network_name s.by_name ≡ none
  names : t.by_name ≡ insert n.network_name n s.by_name
  address :
      ((n.ip ≡ none) × (t.by_ip ≡ s.by_ip))
      ⊎ (q : Quad) × (n.ip ≡ some q)
        × (lookup (ip_string (some q)) s.by_ip ≡ none)
        × (t.by_ip ≡ insert (ip_string (some q)) n s.by_ip)

complete-Completed : (n : HostOnlyNetwork) (s t : Listing) → complete n s ≡ ok t → Completed n s t
unfolding complete file_ip
complete-Completed n s t h = ground arith

module _ (n : HostOnlyNetwork) (s t : Listing) (c : Completed n s t) (f : IsFiled s) where
  -- The adapter that is completed.
  Filed-new : Filed t n.network_name n
  Filed-new = record {
    named = refl;
    by_address = λ q e. elim c.address [
      | inl (no_ip, _) ↦ cc
      | inr (p, has_ip, _, added) ↦
          subst {A = Ip} (λ i. lookup (ip_string i) t.by_ip ≡ some n) (sym has_ip ∙ e)
            (ap (λ d. lookup (ip_string (some p)) d) added
              ∙ (lookup-insert (ip_string (some p)) (ip_string (some p)) n s.by_ip
                  ∙ rw (text_eq_refl (ip_string (some p))) refl))
    ];
  }

  elsewhere :
      {m : HostOnlyNetwork} (p q : Quad)
      → lookup (ip_string (some p)) s.by_ip ≡ none
      → lookup (ip_string (some q)) s.by_ip ≡ some m
      → (if text_eq (ip_string (some p)) (ip_string (some q))
          then some n
          else lookup (ip_string (some q)) s.by_ip)
        ≡ some m
  elsewhere p q fresh held = ground (arith, text_eq_iff (ip_string (some p)) (ip_string (some q)))

  Filed-old : (k : Text) (m : HostOnlyNetwork) → Filed s k m → Filed t k m
  Filed-old k m old = record {
    named = old.named;
    by_address = λ q e. elim c.address [
      | inl (_, same) ↦ ap (λ d. lookup (ip_string (some q)) d) same ∙ old.by_address q e
      | inr (p, _, fresh, added) ↦
          ap (λ d. lookup (ip_string (some q)) d) added
          ∙ (lookup-insert (ip_string (some p)) (ip_string (some q)) n s.by_ip
              ∙ elsewhere p q fresh (old.by_address q e))
    ];
  }

  looked_up :
      (k : Text)
      → lookup k t.by_name ≡ (if text_eq n.network_name k then some n else lookup k s.by_name)
  looked_up k = ap (λ d. lookup k d) c.names ∙ lookup-insert n.network_name k n s.by_name

  complete-IsFiled : IsFiled t
  complete-IsFiled k m h = elim (Bool-cases (text_eq n.network_name k)) [
    | inl same ↦
        subst {A = Text} (λ j. Filed t j m) ((text_eq_iff n.network_name k).0 same)
          (subst {A = HostOnlyNetwork} (λ x. Filed t n.network_name x)
            (some-injective (sym (looked_up k ∙ rw same refl) ∙ h)) Filed-new)
    | inr other ↦ Filed-old k m (f k m (sym (looked_up k ∙ rw other refl) ∙ h))
  ]

on_adapter-IsFiled :
    (key val : Text) (s t : Listing) → IsFiled s → on_adapter key val s ≡ ok t → IsFiled t
on_adapter-IsFiled key val s t f e = elim (on_adapter-cases key val s t e) [
  | inl same ↦ IsFiled-same s t f same
  | inr done ↦
      let n = record s.current { network_name = val } in
      complete-IsFiled n s t (complete-Completed n s t done) f
]

empty_listing-IsFiled : IsFiled empty_listing
unfolding lookup
empty_listing-IsFiled k n h = cc

read_adapters-IsFiled : (out : Text) (s : Listing) → read_adapters out ≡ ok s → IsFiled s
unfolding read_adapters
read_adapters-IsFiled out s =
    parse_key_values-keeps colon_line on_adapter IsFiled on_adapter-IsFiled out empty_listing s
      empty_listing-IsFiled

-- What the map of all the adapters promises.
pub record IsListed (nets : Dict HostOnlyNetwork) : Type 0 where
  pub keyed : (k : Text) (n : HostOnlyNetwork) → lookup k nets ≡ some n → n.network_name ≡ k
  pub one_per_ip :
      (j k : Text) (m n : HostOnlyNetwork) (q : Quad)
      → lookup j nets ≡ some m
      → lookup k nets ≡ some n
      → m.ip ≡ some q
      → n.ip ≡ some q
      → j ≡ k

IsFiled-IsListed : (s : Listing) → IsFiled s → IsListed s.by_name
IsFiled-IsListed s f = record {
  keyed = λ k n h. (f k n h).named;
  one_per_ip = λ j k m n q hm hn em en.
      let same = some-injective (sym ((f j m hm).by_address q em) ∙ (f k n hn).by_address q en) in
      sym ((f j m hm).named) ∙ (ap (λ x. x.network_name) same ∙ (f k n hn).named);
}

names_of-inverse :
    (r : Result Error Listing) (nets : Dict HostOnlyNetwork)
    → names_of r ≡ ok nets
    → (s : Listing) × (r ≡ ok s) × (s.by_name ≡ nets)
names_of-inverse (err e) nets h = cc
names_of-inverse (ok s) nets h = (s, refl, cc)

-- A listing of the host-only adapters that succeeds gives each adapter under the name of its
-- network, and no address to two of them.
pub list_host_only_adapters-IsListed :
    {W : Type 0} (vbox : Manager W) (w : W) (nets : Dict HostOnlyNetwork)
    → (list_host_only_adapters vbox w).0 ≡ ok nets
    → IsListed nets
unfolding list_host_only_adapters
list_host_only_adapters-IsListed vbox w nets h =
    let (out, _, step) =
      bind-inverse (vbox.vbm_out (bytes "list" ∷ bytes "hostonlyifs" ∷ []))
        (λ out w. (names_of (read_adapters out), w)) w nets h in
    let (s, read, same) =
      names_of-inverse (read_adapters out) nets (ap (λ r. r.0) (sym step) ∙ h) in
    subst IsListed same (IsFiled-IsListed s (read_adapters-IsFiled out s read))

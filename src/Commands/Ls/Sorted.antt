-- ===== src/Commands/Ls/Sorted.antt =====
-- Which items sortHostListItemsByName of commands/ls.go keeps.
use mathlib.Core.List.{Memᴰ}
use machine.Base.{
  ◌≡◌, ◌≢◌, ◌↔◌, refl, sym, ap, ◌∙◌, subst, inl, inr, false, Bool-cases, none, some, List, [], ◌∷◌,
  map,
}
use machine.Text.{Text, text_eq, text_eq_iff, text_eq_refl}
use machine.Text.Dict.{Dict, lookup, insert, lookup-insert}
use machine.Text.Scan.{to_lower}
use machine.Commands.Ls.{
  HostListItem, empty_item, by_lower_name, item_at, sort_host_list_items_by_name,
}

abbrev pub key : HostListItem → Text
key v = to_lower v.name

-- No two items have the same name in small letters.
abbrev pub Apart : List HostListItem → Type 0
Apart [] = Unit
Apart (v ∷ items) = ((u : HostListItem) → Memᴰ u items → key u ≢ key v) × Apart items

-- Items with other names leave an entry alone.
lookup-by_lower_name_other :
    (k : Text) (items : List HostListItem) (m : Dict HostListItem)
    → ((u : HostListItem) → Memᴰ u items → key u ≢ k)
    → lookup k (by_lower_name items m) ≡ lookup k m
unfolding by_lower_name
lookup-by_lower_name_other k [] m others = refl
lookup-by_lower_name_other k (v ∷ items) m others =
    lookup-by_lower_name_other k items (insert (key v) v m) (λ u there. others u (Memᴰ.tail there))
    ∙ (lookup-insert (key v) k v m ∙ rw (differs (others v (Memᴰ.head refl))) refl)
  where
    differs : key v ≢ k → text_eq (key v) k ≡ false
    differs other = elim (Bool-cases (text_eq (key v) k)) [
      | inl same ↦ absurd (other ((text_eq_iff (key v) k).0 same))
      | inr e ↦ e
    ]

-- Each item is found under its name.
lookup-by_lower_name :
    (v : HostListItem) (items : List HostListItem) (m : Dict HostListItem)
    → Apart items
    → Memᴰ v items
    → lookup (key v) (by_lower_name items m) ≡ some v
unfolding by_lower_name
lookup-by_lower_name v [] m apart h = elim h [ ]
lookup-by_lower_name v (w ∷ items) m (other, apart) (Memᴰ.head same) =
    subst {A = HostListItem}
      (λ x. lookup (key v) (by_lower_name items (insert (key x) x m)) ≡ some v) same
      (lookup-by_lower_name_other (key v) items (insert (key v) v m) (
          subst {A = HostListItem} (λ x. (u : HostListItem) → Memᴰ u items → key u ≢ key x)
            (sym same) other)
        ∙ (lookup-insert (key v) (key v) v m ∙ rw (text_eq_refl (key v)) refl))
lookup-by_lower_name v (w ∷ items) m (other, apart) (Memᴰ.tail there) =
    lookup-by_lower_name v items (insert (key w) w m) apart there

map-Memᴰ : {A B : Type 0} (f : A → B) (a : A) (xs : List A) → Memᴰ a xs → Memᴰ (f a) (map f xs)
map-Memᴰ f a [] h = elim h [ ]
map-Memᴰ f a (x ∷ xs) (Memᴰ.head e) = Memᴰ.head (ap f e)
map-Memᴰ f a (x ∷ xs) (Memᴰ.tail t) = Memᴰ.tail (map-Memᴰ f a xs t)

map-Memᴰ_inverse :
    {A B : Type 0} (f : A → B) (b : B) (xs : List A)
    → Memᴰ b (map f xs)
    → (a : A) × Memᴰ a xs × (b ≡ f a)
map-Memᴰ_inverse f b [] h = elim h [ ]
map-Memᴰ_inverse f b (x ∷ xs) (Memᴰ.head e) = (x, Memᴰ.head refl, e)
map-Memᴰ_inverse f b (x ∷ xs) (Memᴰ.tail t) =
    let (a, there, e) = map-Memᴰ_inverse f b xs t in (a, Memᴰ.tail there, e)

-- A sort that keeps the members of a list, as `naturalsort` does.
module _ (natural_sort : List Text → List Text)
    (natural_sort-Memᴰ : (t : Text) (ts : List Text) → Memᴰ t (natural_sort ts) ↔ Memᴰ t ts) where
  -- Sorting the items of a list keeps each of them and adds none, provided that no two of them have
  -- the same name in small letters.
  pub sort_host_list_items_by_name-Memᴰ :
      (items : List HostListItem) (v : HostListItem)
      → Apart items
      → Memᴰ v (sort_host_list_items_by_name natural_sort items) ↔ Memᴰ v items
  unfolding sort_host_list_items_by_name
  sort_host_list_items_by_name-Memᴰ items v apart = (
    λ h.
        let (t, in_order, e) = map-Memᴰ_inverse (item_at m) v (natural_sort (map key items)) h in
        let (u, there, same) =
          map-Memᴰ_inverse key t items ((natural_sort-Memᴰ t (map key items)).0 in_order) in
        subst {A = HostListItem} (λ x. Memᴰ x items)
          (sym (e ∙ (ap (item_at m) same ∙ at_own u there))) there,
    λ h.
        subst {A = HostListItem} (λ x. Memᴰ x (map (item_at m) (natural_sort (map key items))))
          (at_own v h)
          (map-Memᴰ (item_at m) (key v) (natural_sort (map key items))
            ((natural_sort-Memᴰ (key v) (map key items)).1 (map-Memᴰ key v items h))),
  )
    where
      m : Dict HostListItem
      m = by_lower_name items []

      at_own : (u : HostListItem) → Memᴰ u items → item_at m (key u) ≡ u
      at_own u there =
          ap (λ o. elim o as (λ _. HostListItem) [ none ↦ empty_item | some x ↦ x ])
            (lookup-by_lower_name u items [] apart there)

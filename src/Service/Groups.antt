-- ===== src/Service/Groups.antt =====
-- What holds of all that a provider lists holds of the groups of drivers/ec2/watcher.go, in any order.
use openshell_drivers_contri.Prelude.{
  ◌≡◌, String, Bool, Option, some, List, [], ◌∷◌, ◌++◌, ◌==◌, All, All-append, Bool-cases,
  Option-cases, inl, inr, subst,
}
use openshell_drivers_contri.Prelude.Assoc.{lookup, insert}
use openshell_drivers_contri.Service.Grouping.{sort_by, insert_by, group_by, add_to}

module _ {A : Type 0} (P : A → Type 0) where
  module _ (less : A → A → Bool) where
    insert_by-All : (x : A) (xs : List A) → P x → All P xs → All P (insert_by less x xs)
    insert_by-All x [] p h = (p, tt)
    insert_by-All x (y ∷ ys) p h = elim (Bool-cases (less y x)) [
      | inl before ↦ rw before (h.0, insert_by-All x ys p h.1)
      | inr after ↦ rw after (p, h)
    ]

    pub sort_by-All : (xs : List A) → All P xs → All P (sort_by less xs)
    unfolding sort_by
    sort_by-All [] h = tt
    sort_by-All (x ∷ xs) h = insert_by-All x (sort_by less xs) h.0 (sort_by-All xs h.1)

  module _ (key : A → String) (K : String → Type 0) (of_key : (x : A) → P x → K (key x)) where
    -- The keys and the members of the groups.
    abbrev pub Grouped : List (String × List A) → Type 0
    Grouped = All (λ g. K g.0 × All P g.1)

    insert-Grouped :
        (k : String) (xs : List A) (groups : List (String × List A))
        → K k
        → All P xs
        → Grouped groups
        → Grouped (insert k xs groups)
    unfolding insert
    insert-Grouped k xs [] named members h = ((named, members), tt)
    insert-Grouped k xs ((slot, old) ∷ groups) named members h = elim (Bool-cases (slot == k)) [
      | inl same ↦ rw same ((named, members), h.1)
      | inr other ↦ rw other (h.0, insert-Grouped k xs groups named members h.1)
    ]

    lookup-Grouped :
        (k : String) (xs : List A) (groups : List (String × List A))
        → Grouped groups
        → lookup k groups ≡ some xs
        → All P xs
    unfolding lookup
    lookup-Grouped k xs [] h e = absurd (cc)
    lookup-Grouped k xs ((slot, old) ∷ groups) h e = elim (Bool-cases (slot == k)) [
      | inl same ↦ found (rw same at e)
      | inr other ↦ lookup-Grouped k xs groups h.1 (rw other at e)
    ]
      where
        found : ◌≡◌ {A = Option (List A)} (some old) (some xs) → All P xs
        found e = let same : old ≡ xs = cc in subst (All P) same h.0.1

    add_to-Grouped :
        (x : A) (groups : List (String × List A))
        → P x
        → Grouped groups
        → Grouped (add_to key x groups)
    add_to-Grouped x groups p h = elim (Option-cases (lookup (key x) groups)) [
      | inl e ↦ rw (add_to, e) (insert-Grouped (key x) (x ∷ []) groups (of_key x p) (p, tt) h)
      | inr (xs, e) ↦
          rw (add_to, e)
            (insert-Grouped (key x) (xs ++ x ∷ []) groups (of_key x p)
              (All-append P xs (x ∷ []) (lookup-Grouped (key x) xs groups h e) (p, tt)) h)
    ]

    pub group_by-Grouped :
        (groups : List (String × List A)) (xs : List A)
        → Grouped groups
        → All P xs
        → Grouped (group_by key groups xs)
    unfolding group_by
    group_by-Grouped groups [] h members = h
    group_by-Grouped groups (x ∷ xs) h members = elim (Bool-cases (key x == "")) [
      | inl none_given ↦ rw none_given (group_by-Grouped groups xs h members.1)
      | inr given ↦ rw given (
          group_by-Grouped (add_to key x groups) xs (add_to-Grouped x groups members.0 h) members.1)
    ]

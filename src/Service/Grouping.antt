-- ===== src/Service/Grouping.antt =====
-- How `poll` of both watcher.go files sorts what the provider lists: `sort.Slice`, and the map
-- `bySandbox`.
use openshell_drivers_contri.Prelude.{
  String, Bool, false, ◌||◌, none, some, List, [], ◌∷◌, ◌++◌, ◌==◌, if◌then◌else◌,
}
use openshell_drivers_contri.Prelude.Assoc.{lookup, insert}

module _ {A : Type 0} where
  -- sort.Slice, by insertion; where two elements are equal in the order, theirs is that of the list.
  module _ (less : A → A → Bool) where
    abbrev pub insert_by : A → List A → List A
    insert_by x [] = x ∷ []
    insert_by x (y ∷ ys) = let rest = insert_by x ys in if less y x then y ∷ rest else x ∷ y ∷ ys

    unfoldable pub sort_by : List A → List A
    sort_by [] = []
    sort_by (x ∷ xs) = insert_by x (sort_by xs)

  -- The elements of each key, in the order in which they were listed; those without a key are
  -- skipped.
  module _ (key : A → String) where
    abbrev pub add_to : A → List (String × List A) → List (String × List A)
    add_to x groups = elim (lookup (key x) groups) [
      | none ↦ insert (key x) (x ∷ []) groups
      | some xs ↦ insert (key x) (xs ++ x ∷ []) groups
    ]

    unfoldable pub group_by : List (String × List A) → List A → List (String × List A)
    group_by groups [] = groups
    group_by groups (x ∷ xs) = group_by (if key x == "" then groups else add_to x groups) xs

-- Texts of a list.
unfoldable pub has_text : String → List String → Bool
has_text s [] = false
has_text s (t ∷ ts) = t == s || has_text s ts

-- ===== src/Prelude/Assoc.antt =====
-- Go's `map[string]V` as an association list: a key that is assigned anew keeps its place, a new one
-- goes to the end. An iteration over a map takes the entries in this order; since the theorems
-- range over all lists, they hold for every order in which a map may be iterated.
use Prim.Native.Nat.{◌+◌, ◌≤◌}
use Prim.Native.String.{String}
use mathlib.Core.Path.{◌≡◌, refl}
use mathlib.Core.Bool.{false}
use mathlib.Core.Option.{Option, none, some}
use mathlib.Core.List.{List, [], ◌∷◌, map}
use native.Mathlib.Omega.{arith}
use text.Mathlib.Text.{◌==◌}
use text.Mathlib.TextEquality.{eq_iff}
use text.Mathlib.TextPositions.{eq_refl}
use openshell_drivers_contri.Prelude.Tests.{if◌then◌else◌}
use openshell_drivers_contri.Prelude.Lists.{length, All}

module _ {ℓ} {A : Type ℓ} where
  -- m[k], and whether it is there
  unfoldable pub lookup : String → List (String × A) → Option A
  lookup key [] = none
  lookup key ((slot, value) ∷ entries) = if slot == key then some value else lookup key entries

  -- m[k] = v
  unfoldable pub insert : String → A → List (String × A) → List (String × A)
  insert key value [] = (key, value) ∷ []
  insert key value ((slot, old) ∷ entries) =
      if slot == key then (key, value) ∷ entries else (slot, old) ∷ insert key value entries

  -- delete(m, k)
  unfoldable pub erase : String → List (String × A) → List (String × A)
  erase key [] = []
  erase key ((slot, old) ∷ entries) =
      let rest = erase key entries in if slot == key then rest else (slot, old) ∷ rest

  abbrev pub values : List (String × A) → List A
  values = map (λ e. e.1)

  -- No entry has the key.
  abbrev pub Absent : String → List (String × A) → Type 0
  Absent key [] = Unit
  Absent key ((slot, value) ∷ entries) = ((slot == key) ≡ false) × Absent key entries

  -- No key stands twice.
  abbrev pub Distinct : List (String × A) → Type 0
  Distinct [] = Unit
  Distinct ((slot, value) ∷ entries) = Absent slot entries × Distinct entries

module _ {ℓ} {A : Type ℓ} where
  pub lookup-insert :
      (key slot : String) (value : A) (entries : List (String × A))
      → lookup slot (insert key value entries)
        ≡ (if key == slot then some value else lookup slot entries)
  unfolding lookup insert
  lookup-insert key slot value [] = refl
  lookup-insert key slot value ((other, old) ∷ entries) = ground (
    arith,
    eq_iff key slot,
    eq_iff other key,
    eq_iff other slot,
    lookup-insert key slot value entries,
  )

  pub lookup-erase :
      (key slot : String) (entries : List (String × A))
      → lookup slot (erase key entries) ≡ (if key == slot then none else lookup slot entries)
  unfolding lookup erase
  lookup-erase key slot [] = ground arith
  lookup-erase key slot ((other, old) ∷ entries) =
      ground
        (arith, eq_iff key slot, eq_iff other key, eq_iff other slot, lookup-erase key slot entries)

  pub Absent-of_none :
      (key : String) (entries : List (String × A)) → lookup key entries ≡ none → Absent key entries
  unfolding lookup
  Absent-of_none key [] h = tt
  Absent-of_none key ((slot, value) ∷ entries) h = ground (arith, Absent-of_none key entries)

  pub none_of_Absent :
      (key : String) (entries : List (String × A)) → Absent key entries → lookup key entries ≡ none
  unfolding lookup
  none_of_Absent key [] h = refl
  none_of_Absent key ((slot, value) ∷ entries) h = ground (arith, none_of_Absent key entries h.1)

  pub insert-Absent :
      (key slot : String) (value : A) (entries : List (String × A))
      → (key == slot) ≡ false
      → Absent slot entries
      → Absent slot (insert key value entries)
  unfolding insert
  insert-Absent key slot value [] d h = (d, tt)
  insert-Absent key slot value ((other, old) ∷ entries) d h =
      ground (arith, insert-Absent key slot value entries d h.1)

  pub erase-Absent :
      (key slot : String) (entries : List (String × A))
      → Absent slot entries
      → Absent slot (erase key entries)
  unfolding erase
  erase-Absent key slot [] h = tt
  erase-Absent key slot ((other, old) ∷ entries) h =
      ground (arith, erase-Absent key slot entries h.1)

  pub insert-Distinct :
      (key : String) (value : A) (entries : List (String × A))
      → Distinct entries
      → Distinct (insert key value entries)
  unfolding insert
  insert-Distinct key value [] h = (tt, tt)
  insert-Distinct key value ((slot, old) ∷ entries) h = ground (
    arith,
    eq_iff slot key,
    eq_iff key slot,
    insert-Distinct key value entries h.1,
    insert-Absent key slot value entries,
    h.0,
  )

  pub erase-Distinct :
      (key : String) (entries : List (String × A)) → Distinct entries → Distinct (erase key entries)
  unfolding erase
  erase-Distinct key [] h = tt
  erase-Distinct key ((slot, old) ∷ entries) h =
      ground (arith, erase-Distinct key entries h.1, erase-Absent key slot entries h.0)

  pub length-insert_new :
      (key : String) (value : A) (entries : List (String × A))
      → lookup key entries ≡ none
      → length (insert key value entries) ≡ length entries + 1
  unfolding lookup insert
  length-insert_new key value [] h = omega arith
  length-insert_new key value ((slot, old) ∷ entries) h =
      ground (arith, length-insert_new key value entries)

  pub length-insert_old :
      (key : String) (value found : A) (entries : List (String × A))
      → lookup key entries ≡ some found
      → length (insert key value entries) ≡ length entries
  unfolding lookup insert
  length-insert_old key value found [] h = cc
  length-insert_old key value found ((slot, old) ∷ entries) h =
      ground (arith, length-insert_old key value found entries)

  pub length-erase-le :
      (key : String) (entries : List (String × A)) → length (erase key entries) ≤ length entries
  unfolding erase
  length-erase-le key [] = omega arith
  length-erase-le key ((slot, old) ∷ entries) = ground (arith, length-erase-le key entries)

  pub erase_untouched :
      (key : String) (entries : List (String × A))
      → Absent key entries
      → erase key entries ≡ entries
  unfolding erase
  erase_untouched key [] h = refl
  erase_untouched key ((slot, old) ∷ entries) h = ground (arith, erase_untouched key entries h.1)

  -- To add a new key and delete it again changes nothing.
  pub erase-insert_new :
      (key : String) (value : A) (entries : List (String × A))
      → lookup key entries ≡ none
      → erase key (insert key value entries) ≡ entries
  unfolding lookup insert erase
  erase-insert_new key value [] h = ground (arith, eq_refl key)
  erase-insert_new key value ((slot, old) ∷ entries) h =
      ground (arith, erase-insert_new key value entries)

module _ {ℓ κ} {A : Type ℓ} (P : String × A → Type κ) where
  pub insert-All :
      (key : String) (value : A) (entries : List (String × A))
      → P (key, value)
      → All P entries
      → All P (insert key value entries)
  unfolding insert
  insert-All key value [] p h = (p, tt)
  insert-All key value ((slot, old) ∷ entries) p h =
      ground (arith, insert-All key value entries p h.1)

  pub erase-All :
      (key : String) (entries : List (String × A)) → All P entries → All P (erase key entries)
  unfolding erase
  erase-All key [] h = tt
  erase-All key ((slot, old) ∷ entries) h = ground (arith, erase-All key entries h.1)

  pub lookup-All :
      (key : String) (entries : List (String × A)) {value : A}
      → lookup key entries ≡ some value
      → All P entries
      → P (key, value)
  unfolding lookup
  lookup-All key [] e h = cc
  lookup-All key ((slot, old) ∷ entries) {value} e h =
      ground (arith, eq_iff slot key, lookup-All key entries {value = value})

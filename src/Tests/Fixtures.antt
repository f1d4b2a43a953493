-- ===== src/Tests/Fixtures.antt =====
-- A small stand-in for the floats and the sort of Go's standard library: numbers that are whole, read
-- from a few texts, and insertion sort.
use openshell_drivers_contri.Prelude.{
  ℕ, ◌*◌, ◌/◌, String, ◌≡◌, refl, true, false, Option, none, some, List, [], ◌∷◌, ltb, leb, arith,
  ◌==◌, if◌then◌else◌, All, All-map, Bool-cases, inl, inr,
}
use openshell_drivers_contri.Quantity.Floats.{Floats, FloatOrder}
use openshell_drivers_contri.Sizing.Select.{InstanceSpec, less, Ascending, Sorter}
use mathlib.Core.List.{Permᴰ}

unfoldable pub read_number : String → Option ℕ
read_number s =
    if s == "2" then some 2 else if s == "4" then some 4 else if s == "16" then some 16 else none

unfoldable pub max_of : ℕ → ℕ → ℕ
max_of a b = if ltb a b then b else a

abbrev pub whole_floats : Floats
whole_floats = record {
  Float = ℕ;
  zero_float = 0;
  ratio = λ a b. a / b;
  parse_float = read_number;
  lt = ltb;
  le = leb;
  is_nan = λ _. false;
  is_inf = λ _. false;
  mul = λ a b. a * b;
  div = λ a b. a / b;
  max = max_of;
}

pub whole_floats-FloatOrder : FloatOrder whole_floats
unfolding max_of
whole_floats-FloatOrder = record {
  le_of_not_lt = λ a b _ _ h. ground arith;
  le_of_max = λ a b c _ _ h. ground arith;
  zero_is_number = refl;
}

unfoldable pub insert_spec : InstanceSpec → List InstanceSpec → List InstanceSpec
insert_spec x [] = x ∷ []
insert_spec x (y ∷ ys) = let rest = insert_spec x ys in if less y x then y ∷ rest else x ∷ y ∷ ys

unfoldable pub sort_specs : List InstanceSpec → List InstanceSpec
unfolding insert_spec
sort_specs [] = []
sort_specs (x ∷ xs) = insert_spec x (sort_specs xs)

less_trans : (x y z : InstanceSpec) → less y x ≡ false → less z y ≡ false → less z x ≡ false
unfolding less
less_trans x y z h h' = ground arith

less_asym : (x y : InstanceSpec) → less y x ≡ true → less x y ≡ false
unfolding less
less_asym x y h = ground arith

All-insert_spec :
    (P : InstanceSpec → Type 0) (x : InstanceSpec) (ys : List InstanceSpec)
    → P x
    → All P ys
    → All P (insert_spec x ys)
unfolding insert_spec
All-insert_spec P x [] p h = (p, tt)
All-insert_spec P x (y ∷ ys) p h = elim (Bool-cases (less y x)) [
  | inl below ↦ rw below (h.0, All-insert_spec P x ys p h.1)
  | inr above ↦ rw above (p, h)
]

insert_spec-Ascending :
    (x : InstanceSpec) (ys : List InstanceSpec) → Ascending ys → Ascending (insert_spec x ys)
unfolding insert_spec
insert_spec-Ascending x [] h = (tt, tt)
insert_spec-Ascending x (y ∷ ys) h = elim (Bool-cases (less y x)) [
  | inl below ↦ rw below (
    All-insert_spec (λ z. less z y ≡ false) x ys (less_asym x y below) h.0,
    insert_spec-Ascending x ys h.1,
  )
  | inr above ↦ rw above ((above, All-map _ ys (λ z q. less_trans x y z above q) h.0), h)
]

pub sort_specs-Ascending : (xs : List InstanceSpec) → Ascending (sort_specs xs)
unfolding sort_specs
sort_specs-Ascending [] = tt
sort_specs-Ascending (x ∷ xs) = insert_spec-Ascending x (sort_specs xs) (sort_specs-Ascending xs)

Permᴰ_refl : (xs : List InstanceSpec) → Permᴰ xs xs
Permᴰ_refl [] = Permᴰ.nil
Permᴰ_refl (x ∷ xs) = Permᴰ.cons refl (Permᴰ_refl xs)

insert_spec-Permᴰ : (x : InstanceSpec) (ys : List InstanceSpec) → Permᴰ (x ∷ ys) (insert_spec x ys)
unfolding insert_spec
insert_spec-Permᴰ x [] = Permᴰ_refl (x ∷ [])
insert_spec-Permᴰ x (y ∷ ys) = elim (Bool-cases (less y x)) [
  | inl below ↦
      rw below (Permᴰ.trans (Permᴰ.swap refl refl) (Permᴰ.cons refl (insert_spec-Permᴰ x ys)))
  | inr above ↦ rw above (Permᴰ_refl (x ∷ y ∷ ys))
]

pub sort_specs-Permᴰ : (xs : List InstanceSpec) → Permᴰ xs (sort_specs xs)
unfolding sort_specs
sort_specs-Permᴰ [] = Permᴰ.nil
sort_specs-Permᴰ (x ∷ xs) =
    Permᴰ.trans (Permᴰ.cons refl (sort_specs-Permᴰ xs)) (insert_spec-Permᴰ x (sort_specs xs))

abbrev pub insertion_sorter : Sorter
insertion_sorter = record {
  sort_slice = sort_specs;
  sorted = sort_specs-Ascending;
  permuted = sort_specs-Permᴰ;
}

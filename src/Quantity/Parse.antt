-- ===== src/Quantity/Parse.antt =====
-- `ParseCPU`, `ParseMemory` and `ValidateRequirements` of pkg/quantity/quantity.go.
use openshell_drivers_contri.Prelude.{
  ℕ, String, ◌*◌, ◌^◌, Bool, ◌||◌, none, some, List, [], ◌∷◌, ◌++◌, ◌==◌, if◌then◌else◌,
}
use openshell_drivers_contri.Prelude.Result.{Result, ok, err}
use openshell_drivers_contri.Text.{trim_space, cut_suffix}
use openshell_drivers_contri.Quantity.Floats.{Floats}

-- The errors, with the text that they quote.
pub data Error : Type 0 where
  empty_quantity : Error
  invalid negative : String → Error

pub data Field : Type 0 where
  cpu_request cpu_limit memory_request memory_limit : Field

abbrev bytes_per_mib : ℕ
bytes_per_mib = 1024 * 1024

module _ (fl : Floats) where
  open fl use {Float, zero_float, ratio, parse_float, lt, is_nan, is_inf, mul, div}

  -- v < 0 || math.IsNaN(v) || math.IsInf(v, 0)
  unfoldable pub is_refused : Float → Bool
  is_refused v = lt v zero_float || (is_nan v || is_inf v)

  -- The checks on a number that each branch makes, and what it then returns; the errors quote `s`.
  unfoldable pub parse_number : String → String → (Float → Float) → Result Error Float
  unfolding is_refused
  parse_number s number scale = elim (parse_float number) [
    | none ↦ err (invalid s)
    | some v ↦ if is_refused v then err (negative s) else ok (scale v)
  ]

  parse_cpu_trimmed : String → Result Error Float
  unfolding parse_number
  parse_cpu_trimmed s = if s == "" then err empty_quantity else elim (cut_suffix "m" s) [
    | some millis ↦ parse_number s millis (λ v. div v (ratio 1000 1))
    | none ↦ parse_number s s (λ v. v)
  ]

  unfoldable pub parse_cpu : String → Result Error Float
  unfolding parse_cpu_trimmed trim_space cut_suffix
  parse_cpu s = parse_cpu_trimmed (trim_space s)

  abbrev pub Suffix : Type 0
  Suffix = String × Float

  abbrev pub binary_suffixes : List Suffix
  binary_suffixes =
      ("Ei", ratio (bytes_per_mib * bytes_per_mib) 1)
      ∷ ("Pi", ratio (1024 * bytes_per_mib) 1)
      ∷ ("Ti", ratio bytes_per_mib 1)
      ∷ ("Gi", ratio 1024 1)
      ∷ ("Mi", ratio 1 1)
      ∷ ("Ki", ratio 1 1024)
      ∷ []

  abbrev pub decimal_suffixes : List Suffix
  decimal_suffixes =
      ("E", ratio (10 ^ 18) bytes_per_mib)
      ∷ ("P", ratio (10 ^ 15) bytes_per_mib)
      ∷ ("T", ratio (10 ^ 12) bytes_per_mib)
      ∷ ("G", ratio (10 ^ 9) bytes_per_mib)
      ∷ ("M", ratio (10 ^ 6) bytes_per_mib)
      ∷ ("K", ratio (10 ^ 3) bytes_per_mib)
      ∷ ("k", ratio (10 ^ 3) bytes_per_mib)
      ∷ []

  -- The loop over a table of suffixes: the first that fits decides; `otherwise` is what follows it.
  unfoldable pub try_suffixes : List Suffix → String → Result Error Float → Result Error Float
  unfolding parse_number
  try_suffixes [] s otherwise = otherwise
  try_suffixes ((text, multiplier) ∷ table) s otherwise =
      let rest = try_suffixes table s otherwise in
      elim (cut_suffix text s) [
        | some number ↦ parse_number s number (λ v. mul v multiplier)
        | none ↦ rest
      ]

  unfoldable pub parse_memory_trimmed : String → Result Error Float
  unfolding try_suffixes cut_suffix
  parse_memory_trimmed s =
      let plain_bytes = parse_number s s (λ v. div v (ratio bytes_per_mib 1)) in
      let decimal = try_suffixes decimal_suffixes s plain_bytes in
      if s == "" then err empty_quantity else try_suffixes binary_suffixes s decimal

  unfoldable pub parse_memory : String → Result Error Float
  unfolding parse_memory_trimmed trim_space
  parse_memory s = parse_memory_trimmed (trim_space s)

  -- One round of a loop of `ValidateRequirements`: an optional value that must parse.
  unfoldable pub check : (String → Result Error Float) → Field → String → List (Field × Error)
  check parse field value =
      if value == "" then [] else elim (parse value) [ ok _ ↦ [] | err e ↦ (field, e) ∷ [] ]

  -- The errors that are joined; there is no error if there are none. The source ranges over two
  -- maps, so within each the order of the errors is not determined.
  unfoldable pub validate_requirements : String → String → String → String → List (Field × Error)
  unfolding check
  validate_requirements request limit mem_request mem_limit =
      check parse_cpu cpu_request request
      ++ check parse_cpu cpu_limit limit
      ++ (check parse_memory memory_request mem_request
          ++ check parse_memory memory_limit mem_limit)

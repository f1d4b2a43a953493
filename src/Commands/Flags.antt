-- ===== src/Commands/Flags.antt =====
-- How `loadConfig` of both main.go files under cmd reads a setting: from its flag, else from the
-- environment, else its default; the lines are those of cmd/openshell-driver-ec2. Go's flag package and
-- the readers of numbers and durations are parameters.
use openshell_drivers_contri.Prelude.{
  ℕ, ◌-◌, ◌^◌, ◌%◌, String, Bool, Option, none, some, List, [], ◌∷◌, ltb, ◌==◌, if◌then◌else◌,
}
use openshell_drivers_contri.Prelude.Int.{ℤ, pos, negsuc}
use openshell_drivers_contri.Prelude.Result.{Result}

-- The flags that were set on the command line, by name and type.
pub record Flags : Type 0 where
  pub string_flag : String → Option String
  pub bool_flag : String → Option Bool
  pub int_flag : String → Option ℤ
  pub duration_flag : String → Option ℤ

-- FlagSet.Parse, time.ParseDuration, strconv.Atoi and strconv.ParseBool, and os.Getenv.
pub record Process : Type 0 where
  pub parse_flags : List String → Result String Flags
  pub parse_duration : String → Option ℤ
  pub atoi : String → Option ℤ
  pub parse_bool : String → Option Bool
  pub getenv : String → String

-- The value of a variable that does not read as what it is for.
pub record BadValue : Type 0 where
  pub env : String
  pub value : String

module _ {A : Type 0} where
  unfoldable pub read_or : A → String → String → Option A → A × List BadValue
  read_or default env value none = (default, record { env = env; value = value } ∷ [])
  read_or default env value (some v) = (v, [])

  -- applyDuration, applyInt and applyBool, after the flag: the value, and the errors that are appended.
  unfoldable pub apply : (String → Option A) → Option A → A → String → String → A × List BadValue
  unfolding read_or
  apply read (some flag) default env value = (flag, [])
  apply read none default env value =
      if value == "" then (default, []) else read_or default env value (read value)

-- applyString
unfoldable pub apply_string : Option String → String → String → String
apply_string (some flag) default value = flag
apply_string none default value = if value == "" then default else value

abbrev pub low_int32 : ℕ → ℤ
low_int32 low = if ltb low (2 ^ 31) then pos low else negsuc (2 ^ 32 - 1 - low)

-- The conversion to an int32, which keeps the low 32 bits.
unfoldable pub to_int32 : ℤ → ℤ
to_int32 (pos n) = low_int32 (n % 2 ^ 32)
to_int32 (negsuc n) = low_int32 (2 ^ 32 - 1 - n % 2 ^ 32)

-- The settings by the name of their flag and of their variable.
module _ (process : Process) (flags : Flags) where
  open process use {getenv}

  abbrev pub string_of : String → String → String → String
  string_of name env default = apply_string (flags.string_flag name) default (getenv env)

  abbrev pub bool_of : String → String → Bool → Bool × List BadValue
  bool_of name env default =
      apply process.parse_bool (flags.bool_flag name) default env (getenv env)

  abbrev pub int_of : String → String → ℤ → ℤ × List BadValue
  int_of name env default = apply process.atoi (flags.int_flag name) default env (getenv env)

  abbrev pub duration_of : String → String → ℤ → ℤ × List BadValue
  duration_of name env default =
      apply process.parse_duration (flags.duration_flag name) default env (getenv env)

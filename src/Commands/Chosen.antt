-- ===== src/Commands/Chosen.antt =====
-- Which of its three sources a setting of the commands under cmd comes from.
use openshell_drivers_contri.Prelude.{
  ◌≡◌, refl, String, Bool, false, Option, none, some, [], ◌==◌, Bool-cases, inl, inr, eq_iff,
}
use openshell_drivers_contri.Prelude.Int.{ℤ}
use openshell_drivers_contri.Commands.Flags.{Flags, Process, read_or, apply, apply_string}

-- The value of the flag if that is set; else that of the variable of the environment, if it is not
-- empty; else the default.
pub data IsSetting {A : Type 0} (read : String → Option A) (flag : Option A) (env : String)
    (default : A) : A → Type 0 where
  of_flag : {v : A} → flag ≡ some v → IsSetting read flag env default v
  of_env :
      {v : A}
      → flag ≡ none
      → (env == "") ≡ false
      → read env ≡ some v
      → IsSetting read flag env default v
  of_default : flag ≡ none → env ≡ "" → IsSetting read flag env default default

pub apply_string-IsSetting :
    (flag : Option String) (default env : String)
    → IsSetting some flag env default (apply_string flag default env)
unfolding apply_string
apply_string-IsSetting (some v) default env = of_flag refl
apply_string-IsSetting none default env = elim (Bool-cases (env == "")) [
  | inl unset ↦ rw unset (of_default refl ((eq_iff env "").0 unset))
  | inr set ↦ rw set (of_env refl set refl)
]

module _ {A : Type 0} (read : String → Option A) where
  read_or-IsSetting :
      (default : A) (name env : String) (o : Option A)
      → (env == "") ≡ false
      → read env ≡ o
      → (read_or default name env o).1 ≡ []
      → IsSetting read none env default (read_or default name env o).0
  unfolding read_or
  read_or-IsSetting default name env none set e h = absurd cc
  read_or-IsSetting default name env (some v) set e h = of_env refl set e

  pub apply-IsSetting :
      (flag : Option A) (default : A) (name env : String)
      → (apply read flag default name env).1 ≡ []
      → IsSetting read flag env default (apply read flag default name env).0
  unfolding apply
  apply-IsSetting (some v) default name env h = of_flag refl
  apply-IsSetting none default name env h = elim (Bool-cases (env == "")) [
    | inl unset ↦ rw unset (of_default refl ((eq_iff env "").0 unset))
    | inr set ↦ rw set (read_or-IsSetting default name env (read env) set refl (rw set at h))
  ]

module _ (process : Process) (flags : Flags) where
  -- A setting by the name of its flag, the name of its variable and its default.
  abbrev pub IsText : String → String → String → String → Type 0
  IsText name env default = IsSetting some (flags.string_flag name) (process.getenv env) default

  abbrev pub IsSwitch : String → String → Bool → Bool → Type 0
  IsSwitch name env default =
      IsSetting process.parse_bool (flags.bool_flag name) (process.getenv env) default

  abbrev pub IsNumber : String → String → ℤ → ℤ → Type 0
  IsNumber name env default =
      IsSetting process.atoi (flags.int_flag name) (process.getenv env) default

  abbrev pub IsDuration : String → String → ℤ → ℤ → Type 0
  IsDuration name env default =
      IsSetting process.parse_duration (flags.duration_flag name) (process.getenv env) default

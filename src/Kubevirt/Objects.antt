-- ===== src/Kubevirt/Objects.antt =====
-- `normalizeVM` of drivers/kubevirt/kubeapi.go: a Kubernetes object of a machine as the driver sees it.
use Prim.Native.String.{◌++◌ as concat}
use openshell_drivers_contri.Prelude.{
  ◌≡◌, refl, String, Bool, true, false, Option, none, some, List, arith, ◌==◌, if◌then◌else◌,
  Bool-cases, inl, inr,
}
use openshell_drivers_contri.Prelude.Assoc.{lookup}
use openshell_drivers_contri.Text.{append_given}
use openshell_drivers_contri.Safeguards.Records.{Time}
use openshell_drivers_contri.Kubevirt.Provider.{VmInstance}

abbrev pub Texts : Type 0
Texts = List (String × String)

-- What is read of a VirtualMachine; a field that is not there is "".
pub record VmObject : Type 0 where
  pub name : String
  pub uid : String
  pub labels : Texts
  pub annotations : Texts
  pub creation_timestamp : Time
  pub being_deleted : Bool
  pub printable_status : String
  pub run_strategy : String

-- What is read of a VirtualMachineInstance; `ip_address` is that of its first interface.
pub record VmiObject : Type 0 where
  pub name : String
  pub phase : String
  pub ip_address : String

-- The value of a key in a Go map of texts.
unfoldable pub value_of : String → Texts → String
value_of key texts = elim (lookup key texts) [ none ↦ "" | some value ↦ value ]

unfoldable pub or_else : String → String → String
or_else text default = if text == "" then default else text

-- A machine without the annotation is known by the hash on its label, or else by its own name.
unfoldable pub sandbox_id_of : VmObject → String
unfolding value_of or_else
sandbox_id_of vm =
    let hash = value_of "openshell.io/sandbox-id" vm.labels in
    or_else (value_of "openshell.io/sandbox-id-value" vm.annotations)
      (if hash == "" then concat "orphan:" vm.name else concat "hash:" hash)

unfoldable pub phase_of : Option VmiObject → String
phase_of none = ""
phase_of (some vmi) = vmi.phase

unfoldable pub ip_of : Option VmiObject → String
ip_of none = ""
ip_of (some vmi) = vmi.ip_address

unfoldable pub state_of : VmObject → Option VmiObject → String
unfolding or_else phase_of
state_of vm vmi =
    or_else (if vm.being_deleted then "Terminating" else vm.printable_status)
      (or_else (phase_of vmi) (if vm.run_strategy == "Halted" then "Stopped" else "Starting"))

-- `parse_time` is time.Parse of the format RFC3339Nano.
module _ (parse_time : String → Option Time) where
  unfoldable pub normalize_vm : VmObject → Option VmiObject → VmInstance
  unfolding sandbox_id_of state_of
  normalize_vm vm vmi = record {
    vm_name = vm.name;
    sandbox_id = sandbox_id_of vm;
    name = or_else (value_of "openshell.io/sandbox-name-value" vm.annotations) vm.name;
    namespace = value_of "openshell.io/sandbox-namespace" vm.annotations;
    workspace = value_of "openshell.io/workspace-value" vm.annotations;
    state = state_of vm vmi;
    vmi_phase = phase_of vmi;
    ip = ip_of vmi;
    created_at = elim (parse_time (value_of "openshell.io/created-at" vm.annotations)) [
      | some time ↦ time
      | none ↦ vm.creation_timestamp
    ];
  }

  -- The driver can track every machine that has a name: its sandbox ID, its name and its state are
  -- never empty, whatever its annotations and labels lack.
  pub normalize_vm-named :
      (vm : VmObject) (vmi : Option VmiObject)
      → (vm.name == "") ≡ false
      → (((normalize_vm vm vmi).sandbox_id == "") ≡ false)
        × (((normalize_vm vm vmi).name == "") ≡ false)
        × (((normalize_vm vm vmi).state == "") ≡ false)
  unfolding normalize_vm
  normalize_vm-named vm vmi named = (identified, titled, stated)
    where
      or_else_given :
          (text default : String) → (default == "") ≡ false → (or_else text default == "") ≡ false
      or_else_given text default h = unfold or_else in ground arith

      identified : (sandbox_id_of vm == "") ≡ false
      identified =
          let hash = value_of "openshell.io/sandbox-id" vm.labels in
          unfold sandbox_id_of in
          or_else_given (value_of "openshell.io/sandbox-id-value" vm.annotations)
            (if hash == "" then concat "orphan:" vm.name else concat "hash:" hash) (marked hash)
        where
          marked :
              (hash : String)
              → ((if hash == "" then concat "orphan:" vm.name else concat "hash:" hash) == "")
                ≡ false
          marked hash = elim (Bool-cases (hash == "")) [
            | inl unlabelled ↦ rw unlabelled (append_given "orphan:" vm.name (omega arith))
            | inr labelled ↦ rw labelled (append_given "hash:" hash (omega arith))
          ]

      titled :
          (or_else (value_of "openshell.io/sandbox-name-value" vm.annotations) vm.name == "")
          ≡ false
      titled =
          or_else_given (value_of "openshell.io/sandbox-name-value" vm.annotations) vm.name named

      stated : (state_of vm vmi == "") ≡ false
      stated =
          let halted = vm.run_strategy == "Halted" in
          unfold state_of in
          or_else_given (if vm.being_deleted then "Terminating" else vm.printable_status)
            (or_else (phase_of vmi) (if halted then "Stopped" else "Starting"))
            (or_else_given (phase_of vmi) (if halted then "Stopped" else "Starting")
              (either halted))
        where
          either : (b : Bool) → ((if b then "Stopped" else "Starting") == "") ≡ false
          either true = refl
          either false = refl

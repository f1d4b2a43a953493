-- ===== src/Kubevirt/Client.antt =====
-- The adapter of drivers/kubevirt/kubeapi.go: its retries, and the calls that read, stop and terminate
-- machines. The Kubernetes clients are parameters, and so is the exponential backoff of apimachinery.
use Prim.Native.String.{◌++◌ as concat}
use openshell_drivers_contri.Prelude.{
  ℕ, zero, suc, String, Bool, true, false, ◌||◌, Option, none, some, List, [], ◌∷◌, ◌++◌, map,
  select, ◌==◌, if◌then◌else◌,
}
use openshell_drivers_contri.Prelude.Result.{Result, ok, err}
use openshell_drivers_contri.Safeguards.Records.{Time}
use openshell_drivers_contri.Service.{World}
use openshell_drivers_contri.Kubevirt.Provider.{VmFilter, VmInstance, Failure}
use openshell_drivers_contri.Kubevirt.Objects.{Texts, VmObject, VmiObject, normalize_vm}

-- A call of the API.
abbrev pub Call : Type 0 → Type 0 → Type 0
Call S A = World S → Result Failure A × World S

-- What a polling condition makes of a state, and what the backoff ends with: an error, and whether
-- wait.Interrupted holds of it.
abbrev pub Condition : Type 0 → Type 0
Condition T = T → Result Failure Bool × T

pub record Waited : Type 0 where
  pub interrupted : Bool
  pub failure : Failure

pub record KubeApi (S : Type 0) : Type 1 where
  -- wait.ExponentialBackoffWithContext, of so many steps
  pub exponential_backoff : {T : Type 0} → ℕ → Condition T → T → Result Waited (Unit {0}) × T
  -- retry.RetryOnConflict with its default backoff
  pub retry_on_conflict : Call S (Unit {0}) → Call S (Unit {0})
  -- errors.Join, of one error or more
  pub join_errors : Failure → List Failure → Failure
  pub parse_time : String → Option Time
  -- the hexadecimal text of the first half of the SHA-256 digest
  pub digest_16 : String → String
  pub get_vm : String → Call S VmObject
  pub update_vm : VmObject → Call S (Unit {0})
  pub delete_vm : String → Call S (Unit {0})
  pub delete_data_volume : String → Call S (Unit {0})
  pub delete_secret : String → Call S (Unit {0})
  -- one page of a list, under a selector and from a token on, with the next token
  pub list_vms : Texts → String → Call S (List VmObject × String)
  pub list_vmis : Texts → String → Call S (List VmiObject × String)

unfoldable pub is_transient : Failure → Bool
is_transient f =
    f.is_too_many_requests || f.is_timeout || f.is_server_timeout || f.is_service_unavailable

-- The variables that the retried function shares with its caller, beside the world.
pub record Retry (S A : Type 0) : Type 0 where
  pub value : A
  pub last_error : Option Failure
  pub world : World S

-- The last transient error takes the place of the interruption.
unfoldable pub real_error : Waited → Option Failure → Failure
real_error waited none = waited.failure
real_error waited (some last) = if waited.interrupted then last else waited.failure

module _ {S A : Type 0} where
  -- One attempt, as the condition of the backoff.
  abbrev pub attempted : Retry S A → Result Failure A × World S → Result Failure Bool × Retry S A
  attempted s (ok a, w) = (ok true, record s { value = a; world = w })
  attempted s (err f, w) =
      if is_transient f
      then (ok false, record s { last_error = some f; world = w })
      else (err f, record s { world = w })

  unfoldable pub attempt : Call S A → Condition (Retry S A)
  unfolding is_transient
  attempt fn s = attempted s (fn s.world)

  unfoldable pub retried : Result Waited (Unit {0}) × Retry S A → Result Failure A × World S
  unfolding real_error
  retried (ok _, s) = (ok s.value, s.world)
  retried (err waited, s) = (err (real_error waited s.last_error), s.world)

abbrev pub steps : ℕ
steps = 5

module _ {S : Type 0} (api : KubeApi S) where
  -- `initial` is the value of the caller's variable before the first attempt.
  unfoldable pub retry_with_backoff : {A : Type 0} → A → Call S A → Call S A
  unfolding attempt retried
  retry_with_backoff initial fn w = retried (
      api.exponential_backoff steps (attempt fn)
        (record { value = initial; last_error = none; world = w }))

  -- The error of a deletion, unless there was nothing to delete.
  unfoldable pub deletion_errors : Result Failure (Unit {0}) → List Failure
  deletion_errors (ok _) = []
  deletion_errors (err f) = if f.is_not_found then [] else f ∷ []

  unfoldable pub joined : List Failure → Result Failure (Unit {0})
  joined [] = ok tt
  joined (f ∷ fs) = err (api.join_errors f fs)

  -- All three deletions are tried, whatever becomes of the others.
  unfoldable pub terminate : String → Call S (Unit {0})
  unfolding retry_with_backoff deletion_errors joined
  terminate name w =
      let (vm, w₁) = retry_with_backoff tt (api.delete_vm name) w in
      let (volume, w₂) = retry_with_backoff tt (api.delete_data_volume (concat name "-root")) w₁ in
      let (secret, w₃) = retry_with_backoff tt (api.delete_secret (concat name "-cloudinit")) w₂ in
      (joined (deletion_errors vm ++ (deletion_errors volume ++ deletion_errors secret)), w₃)

  abbrev halt : Result Failure VmObject × World S → Result Failure (Unit {0}) × World S
  halt (ok vm, w) = api.update_vm (record vm { run_strategy = "Halted" }) w
  halt (err f, w) = (err f, w)

  unfoldable pub stop : String → Call S (Unit {0})
  unfolding retry_with_backoff
  stop name = retry_with_backoff tt (api.retry_on_conflict (λ w. halt (api.get_vm name w)))

  abbrev pub and_more :
      {A : Type 0}
      → List A
      → Option (Result Failure (List A)) × World S
      → Option (Result Failure (List A)) × World S
  and_more items (some (ok rest), w) = (some (ok (items ++ rest)), w)
  and_more items (other, w) = (other, w)

  -- The pages of a list, by fuel: `none` where it runs out.
  unfoldable pub list_all :
      {A : Type 0}
      → (String → Call S (List A × String))
      → ℕ
      → String
      → World S
      → Option (Result Failure (List A)) × World S
  unfolding retry_with_backoff
  list_all page zero token w = (none, w)
  list_all page (suc fuel) token w =
      let (result, w') = retry_with_backoff ([], "") (page token) w in
      elim result [
        | err f ↦ (some (err f), w')
        | ok (items, next) ↦
            (let rest = list_all page fuel next w' in
              if next == "" then (some (ok items), w') else and_more items rest)
      ]

  abbrev selected : String → String → Texts
  selected key value = if value == "" then [] else (key, api.digest_16 value) ∷ []

  unfoldable pub selector_of : VmFilter → Texts
  selector_of f =
      ("openshell.io/managed", "true")
      ∷ (selected "openshell.io/gateway-id" f.gateway_id
          ++ selected "openshell.io/sandbox-id" f.sandbox_id)

  -- The last object of a name, as in a map that is filled in order.
  unfoldable pub vmi_named : String → List VmiObject → Option VmiObject
  vmi_named name [] = none
  vmi_named name (vmi ∷ vmis) = elim (vmi_named name vmis) [
    | some later ↦ some later
    | none ↦ if vmi.name == name then some vmi else none
  ]

  unfoldable pub instances_of : String → List VmObject → List VmiObject → List VmInstance
  unfolding vmi_named
  instances_of name vms vmis =
      select (λ i. name == "" || i.name == name)
        (map (λ vm. normalize_vm api.parse_time vm (vmi_named vm.name vmis)) vms)

  abbrev with_vmis :
      String
      → List VmObject
      → Option (Result Failure (List VmiObject)) × World S
      → Option (Result Failure (List VmInstance)) × World S
  with_vmis name vms (none, w) = (none, w)
  with_vmis name vms (some (err f), w) = (some (err f), w)
  with_vmis name vms (some (ok vmis), w) = (some (ok (instances_of name vms vmis)), w)

  -- The fuel bounds the pages of each of the two lists.
  unfoldable pub list : ℕ → VmFilter → World S → Option (Result Failure (List VmInstance)) × World S
  unfolding list_all selector_of instances_of
  list fuel f w =
      let (vms, w') = list_all (api.list_vms (selector_of f)) fuel "" w in
      elim vms [
        | none ↦ (none, w')
        | some (err failure) ↦ (some (err failure), w')
        | some (ok objects) ↦
            with_vmis f.name objects (list_all (api.list_vmis (selector_of f)) fuel "" w')
      ]

-- ===== src/Kubevirt/Cleanup.antt =====
-- What a termination by the adapter of drivers/kubevirt/kubeapi.go has been answered.
use Prim.Native.String.{◌++◌ as concat}
use openshell_drivers_contri.Prelude.{
  ℕ, ◌≡◌, refl, ap, sym, subst, ◌⊎◌, String, Bool, true, false, Option, none, some, List, [], ◌∷◌,
  append-nil_parts, arith, Bool-cases, inl, inr,
}
use openshell_drivers_contri.Prelude.Result.{Result, ok, err}
use openshell_drivers_contri.Service.{World}
use openshell_drivers_contri.Kubevirt.Provider.{Failure}
use openshell_drivers_contri.Kubevirt.Client.{
  Call, Condition, Waited, KubeApi, Retry, attempt, attempted, real_error, retried, is_transient,
  steps, retry_with_backoff, deletion_errors, joined, terminate,
}

-- An answer that a retry may mend does not say that there is no object.
abbrev pub Answers : {S : Type 0} → Call S (Unit {0}) → Type 0
Answers {S} delete =
    (w : World S) (f : Failure)
    → (delete w).0 ≡ err f
    → is_transient f ≡ true
    → f.is_not_found ≡ false

-- What apimachinery documents of the backoff and of the API's errors: the backoff succeeds only right
-- after its condition has returned true, on a state that its own calls of the condition have led to; an
-- error that it ends with is one that its condition so returned, or an interruption, which is not an answer of the API; and it changes the state by its condition only.
pub record ClientLaws {S : Type 0} (api : KubeApi S) : Type 1 where
  pub when_ok :
      {T : Type 0} (Inv : T → Type 0) (n : ℕ) (condition : Condition T) (t : T)
      → ((t : T) → Inv t → Inv (condition t).1)
      → Inv t
      → (api.exponential_backoff n condition t).0 ≡ ok tt
      → (before : T) × Inv before × ((condition before).0 ≡ ok true)
  pub when_failed :
      {T : Type 0} (Inv : T → Type 0) (n : ℕ) (condition : Condition T) (t : T) (waited : Waited)
      → ((t : T) → Inv t → Inv (condition t).1)
      → Inv t
      → (api.exponential_backoff n condition t).0 ≡ err waited
      → ((waited.interrupted ≡ true) × (waited.failure.is_not_found ≡ false))
        ⊎ ((before : T) × Inv before × ((condition before).0 ≡ err waited.failure))
  pub keeps :
      {T : Type 0} (Inv : T → Type 0) (n : ℕ) (condition : Condition T) (t : T)
      → ((t : T) → Inv t → Inv (condition t).1)
      → Inv t
      → Inv (api.exponential_backoff n condition t).1
  pub vm_answers : (name : String) → Answers (api.delete_vm name)
  pub volume_answers : (name : String) → Answers (api.delete_data_volume name)
  pub secret_answers : (name : String) → Answers (api.delete_secret name)

-- The worlds that a number of calls leads to from a world, one after another.
pub data Calls {S : Type 0} (delete : Call S (Unit {0})) (w : World S) : World S → Type 0 where
  begun : Calls delete w w
  called : {w' : World S} → Calls delete w w' → Calls delete w (delete w').1

-- After a number of calls, from this world on, the API accepted the deletion or did not find the object.
pub data IsSettled {S : Type 0} (delete : Call S (Unit {0})) (w : World S) : Type 0 where
  accepted : {w' : World S} → Calls delete w w' → (delete w').0 ≡ ok tt → IsSettled delete w
  absent :
      {w' : World S} (f : Failure)
      → Calls delete w w'
      → (delete w').0 ≡ err f
      → f.is_not_found ≡ true
      → IsSettled delete w

-- The error that is remembered does not say that there is no object.
abbrev Remembers : {S : Type 0} → Retry S (Unit {0}) → Type 0
Remembers s = elim s.last_error [ none ↦ Unit {0} | some f ↦ f.is_not_found ≡ false ]

module _ {S : Type 0} (delete : Call S (Unit {0})) where
  attempted-true :
      (s : Retry S (Unit {0})) (x : Result Failure (Unit {0}) × World S)
      → (attempted s x).0 ≡ ok true
      → x.0 ≡ ok tt
  attempted-true s (ok a, w) h = refl
  attempted-true s (err f, w) h = elim (Bool-cases (is_transient f)) [
    | inl transient ↦ absurd (again (rw transient at h))
    | inr lasting ↦ absurd (again' (rw lasting at h))
  ]
    where
      again : ◌≡◌ {A = Result Failure Bool} (ok false) (ok true) → ⊥
      again e = cc

      again' : ◌≡◌ {A = Result Failure Bool} (err f) (ok true) → ⊥
      again' e = cc

  attempted-err :
      (s : Retry S (Unit {0})) (x : Result Failure (Unit {0}) × World S) (f : Failure)
      → (attempted s x).0 ≡ err f
      → x.0 ≡ err f
  attempted-err s (ok a, w) f h = cc
  attempted-err s (err f', w) f h = elim (Bool-cases (is_transient f')) [
    | inl transient ↦ absurd (again (rw transient at h))
    | inr lasting ↦ same (rw lasting at h)
  ]
    where
      again : ◌≡◌ {A = Result Failure Bool} (ok false) (err f) → ⊥
      again e = cc

      same :
          ◌≡◌ {A = Result Failure Bool} (err f') (err f)
          → ◌≡◌ {A = Result Failure (Unit {0})} (err f') (err f)
      same e = let equal : f' ≡ f = cc in ap err equal

  attempted-Remembers :
      (s : Retry S (Unit {0})) (x : Result Failure (Unit {0}) × World S)
      → ((f : Failure) → x.0 ≡ err f → is_transient f ≡ true → f.is_not_found ≡ false)
      → Remembers s
      → Remembers (attempted s x).1
  attempted-Remembers s (ok a, w) answers h = h
  attempted-Remembers s (err f, w) answers h = elim (Bool-cases (is_transient f)) [
    | inl transient ↦ rw transient (answers f refl transient)
    | inr lasting ↦ rw lasting h
  ]

  attempted-world :
      (s : Retry S (Unit {0})) (x : Result Failure (Unit {0}) × World S)
      → (attempted s x).1.world ≡ x.1
  attempted-world s (ok a, w) = refl
  attempted-world s (err f, w) = elim (Bool-cases (is_transient f)) [
    | inl transient ↦ rw transient refl
    | inr lasting ↦ rw lasting refl
  ]

  attempt-Calls :
      (w : World S) (s : Retry S (Unit {0}))
      → Calls delete w s.world
      → Calls delete w (attempt delete s).1.world
  unfolding attempt
  attempt-Calls w s calls =
      subst (Calls delete w) (sym (attempted-world s (delete s.world))) (called calls)

  module _ (api : KubeApi S) (laws : ClientLaws api) (answers : Answers delete) where
    real_error-absent :
        (waited : Waited) (s : Retry S (Unit {0}))
        → Remembers s
        → (real_error waited s.last_error).is_not_found ≡ true
        → waited.failure.is_not_found ≡ true
    real_error-absent waited s remembers h = of_last s.last_error remembers h
      where
        of_last :
            (last : Option Failure)
            → (elim last as (λ _. Type 0) [ none ↦ Unit {0} | some f ↦ f.is_not_found ≡ false ])
            → (real_error waited last).is_not_found ≡ true
            → waited.failure.is_not_found ≡ true
        of_last none remembers h = unfold real_error in h
        of_last (some last) found h =
            unfold real_error in
            elim (Bool-cases waited.interrupted) [
              | inr lasting ↦ (rw lasting at h)
              | inl interrupted ↦ absurd (clash last found (rw interrupted at h))
            ]
          where
            clash : (f : Failure) → f.is_not_found ≡ false → f.is_not_found ≡ true → ⊥
            clash f found missing = cc

    deletion_errors-absent :
        (f : Failure) → deletion_errors api (err f) ≡ [] → f.is_not_found ≡ true
    deletion_errors-absent f h = unfold deletion_errors in ground arith

    -- What the last call answered, where it made the backoff end with an error.
    abbrev Cause : World S → Waited → Type 0
    Cause w waited =
        ((waited.interrupted ≡ true) × (waited.failure.is_not_found ≡ false))
        ⊎ ((s : Retry S (Unit {0})) × Calls delete w s.world
            × ((delete s.world).0 ≡ err waited.failure))

    ended-IsSettled :
        (w : World S) (x : Result Waited (Unit {0}) × Retry S (Unit {0}))
        → (x.0 ≡ ok tt → IsSettled delete w)
        → ((waited : Waited) → x.0 ≡ err waited → Cause w waited)
        → Remembers x.1
        → deletion_errors api (retried x).0 ≡ []
        → IsSettled delete w
    unfolding retried
    ended-IsSettled w (ok _, s) when_ok when_failed remembers h = when_ok refl
    ended-IsSettled w (err waited, s) when_ok when_failed remembers h =
        let missing =
          real_error-absent waited s remembers
            (deletion_errors-absent (real_error waited s.last_error) h) in
        of_cause missing (when_failed waited refl)
      where
        of_cause : waited.failure.is_not_found ≡ true → Cause w waited → IsSettled delete w
        of_cause missing (inl (_, found)) = absurd (cc)
        of_cause missing (inr (s, calls, e)) = absent waited.failure calls e missing

    retry-IsSettled :
        (w : World S)
        → deletion_errors api (retry_with_backoff api tt delete w).0 ≡ []
        → IsSettled delete w
    unfolding retry_with_backoff attempt
    retry-IsSettled w h =
        let start : Retry S (Unit {0}) = record { value = tt; last_error = none; world = w } in
        let Inv : Retry S (Unit {0}) → Type 0 = λ s. Calls delete w s.world in
        let x = api.exponential_backoff steps (attempt delete) start in
        ended-IsSettled w x
          (λ e.
            let (s, calls, attempted_ok) =
              laws.when_ok Inv steps (attempt delete) start (attempt-Calls w) begun e in
            accepted calls (attempted-true s (delete s.world) attempted_ok))
          (λ waited e.
            cause waited
              (laws.when_failed Inv steps (attempt delete) start waited (attempt-Calls w) begun e))
          (laws.keeps Remembers steps (attempt delete) start
            (λ s h. attempted-Remembers s (delete s.world) (answers s.world) h) tt)
          h
      where
        cause :
            (waited : Waited)
            → ((waited.interrupted ≡ true) × (waited.failure.is_not_found ≡ false))
              ⊎ ((s : Retry S (Unit {0})) × Calls delete w s.world
                  × ((attempt delete s).0 ≡ err waited.failure))
            → Cause w waited
        cause waited (inl h) = inl h
        cause waited (inr (s, calls, e)) =
            inr (s, calls, attempted-err s (delete s.world) waited.failure (unfold attempt in e))

-- Where the client keeps its documented behaviour, a termination that reports success had its deletion
-- of the machine, and after it that of the disk, and then that of the secret, accepted by the API or
-- answered with that there is no such object; each in one of the calls that its retries made.
pub terminate-IsSettled :
    {S : Type 0} (api : KubeApi S) (name : String) (w : World S)
    → ClientLaws api
    → (terminate api name w).0 ≡ ok tt
    → (let w₁ = (retry_with_backoff api tt (api.delete_vm name) w).1 in
        let w₂ = (retry_with_backoff api tt (api.delete_data_volume (concat name "-root")) w₁).1 in
        IsSettled (api.delete_vm name) w
        × IsSettled (api.delete_data_volume (concat name "-root")) w₁
        × IsSettled (api.delete_secret (concat name "-cloudinit")) w₂)
unfolding terminate
terminate-IsSettled api name w laws h =
    let x₁ = retry_with_backoff api tt (api.delete_vm name) w in
    let x₂ = retry_with_backoff api tt (api.delete_data_volume (concat name "-root")) x₁.1 in
    let x₃ = retry_with_backoff api tt (api.delete_secret (concat name "-cloudinit")) x₂.1 in
    let (vm, rest) = append-nil_parts (deletion_errors api x₁.0) _ (joined-nil _ h) in
    let (volume, secret) =
      append-nil_parts (deletion_errors api x₂.0) (deletion_errors api x₃.0) rest in
    (
      retry-IsSettled (api.delete_vm name) api laws (laws.vm_answers name) w vm,
      retry-IsSettled (api.delete_data_volume (concat name "-root")) api laws
          (laws.volume_answers (concat name "-root")) x₁.1 volume,
      retry-IsSettled (api.delete_secret (concat name "-cloudinit")) api laws
          (laws.secret_answers (concat name "-cloudinit")) x₂.1 secret,
    )
  where
    joined-nil : (fs : List Failure) → joined api fs ≡ ok tt → fs ≡ []
    joined-nil [] h = refl
    joined-nil (f ∷ fs) h = unfold joined in absurd (cc)

-- ===== src/Tests/ClientTests.antt =====
-- The Kubernetes adapter and the AWS adapter over small clients.
use openshell_drivers_contri.Prelude.{
  ℕ, zero, suc, ◌≡◌, refl, sym, subst, ap, ◌∙◌, ◌⊎◌, String, Bool, true, false, none, some, List,
  [], ◌∷◌, arith, ◌==◌, if◌then◌else◌, inl, inr,
}
use openshell_drivers_contri.Prelude.Result.{Result, ok, err}
use openshell_drivers_contri.Service.{World}
use openshell_drivers_contri.Kubevirt.Provider.{Failure}
use openshell_drivers_contri.Kubevirt.Objects.{VmObject}
use openshell_drivers_contri.Kubevirt.Client.{
  Condition, Waited, KubeApi, is_transient, list_all, terminate, retry_with_backoff, attempt,
  retried, real_error, deletion_errors, joined,
}
use openshell_drivers_contri.Kubevirt.Paging.{Pages, last_page, one_page, list_all-Pages}
use openshell_drivers_contri.Kubevirt.Cleanup.{ClientLaws, IsSettled, terminate-IsSettled}
use openshell_drivers_contri.Tests.KubevirtTests.{throttled, start, named_vm}

-- One attempt after another, without a wait.
abbrev interruption : Waited
interruption = record {
  interrupted = true;
  failure = record throttled { is_too_many_requests = false };
}

abbrev next_attempt :
    {T : Type 0}
    → (T → Result Waited (Unit {0}) × T)
    → Result Failure Bool × T
    → Result Waited (Unit {0}) × T
next_attempt again (ok true, t) = (ok tt, t)
next_attempt again (ok false, t) = again t
next_attempt again (err f, t) = (err (record { interrupted = false; failure = f }), t)

abbrev retry_plainly : {T : Type 0} → ℕ → Condition T → T → Result Waited (Unit {0}) × T
retry_plainly zero condition t = (err interruption, t)
retry_plainly (suc n) condition t = next_attempt (retry_plainly n condition) (condition t)

abbrev no_volume : Failure
no_volume = record throttled { is_too_many_requests = false; is_not_found = true }

abbrev client : KubeApi (Unit {0})
client = record {
  exponential_backoff = λ n condition t. retry_plainly n condition t;
  retry_on_conflict = λ call. call;
  join_errors = λ f _. f;
  parse_time = λ _. none;
  digest_16 = λ s. s;
  get_vm = λ _ w. (ok named_vm, w);
  update_vm = λ _ w. (ok tt, w);
  delete_vm = λ _ w. (ok tt, w);
  delete_data_volume = λ _ w. (err no_volume, w);
  delete_secret = λ _ w. (ok tt, w);
  list_vms = λ _ token w. (ok (named_vm ∷ [], if token == "" then "more" else ""), w);
  list_vmis = λ _ _ w. (ok ([], ""), w);
}

module _ {T : Type 0} (condition : Condition T) where
  module _ (Inv : T → Type 0) (stays : (t : T) → Inv t → Inv (condition t).1) where
    plainly-ok :
        (n : ℕ) (t : T)
        → Inv t
        → (retry_plainly n condition t).0 ≡ ok tt
        → (before : T) × Inv before × ((condition before).0 ≡ ok true)
    plainly-ok zero t i h = absurd (cc)
    plainly-ok (suc n) t i h = of_first (plainly-ok n) (condition t) refl (stays t i) h
      where
        of_first :
            ((t' : T)
              → Inv t'
              → (retry_plainly n condition t').0 ≡ ok tt
              → (before : T) × Inv before × ((condition before).0 ≡ ok true))
            → (x : Result Failure Bool × T) → (condition t).0 ≡ x.0
            → Inv x.1
            → (next_attempt (retry_plainly n condition) x).0 ≡ ok tt
            → (before : T) × Inv before × ((condition before).0 ≡ ok true)
        of_first again (ok true, t') e i' h = (t, i, e)
        of_first again (ok false, t') e i' h = again t' i' h
        of_first again (err f, t') e i' h = absurd (cc)

    abbrev Caused : Waited → Type 0
    Caused waited =
        ((waited.interrupted ≡ true) × (waited.failure.is_not_found ≡ false))
        ⊎ ((before : T) × Inv before × ((condition before).0 ≡ err waited.failure))

    plainly-failed :
        (n : ℕ) (t : T) (waited : Waited)
        → Inv t
        → (retry_plainly n condition t).0 ≡ err waited
        → Caused waited
    plainly-failed zero t waited i h =
        let same : interruption ≡ waited = cc in
        inl
          (subst (λ w. (w.interrupted ≡ true) × (w.failure.is_not_found ≡ false)) same (refl, refl))
    plainly-failed (suc n) t waited i h =
        of_first (λ t'. plainly-failed n t' waited) (condition t) refl (stays t i) h
      where
        of_first :
            ((t' : T) → Inv t' → (retry_plainly n condition t').0 ≡ err waited → Caused waited)
            → (x : Result Failure Bool × T) → (condition t).0 ≡ x.0
            → Inv x.1
            → (next_attempt (retry_plainly n condition) x).0 ≡ err waited
            → Caused waited
        of_first again (ok true, t') e i' h = absurd (cc)
        of_first again (ok false, t') e i' h = again t' i' h
        of_first again (err f, t') e i' h =
            (let failed : Waited = record { interrupted = false; failure = f } in
              let same : failed ≡ waited = cc in inr (t, i, e ∙ ap err (ap (λ w. w.failure) same)))

  plainly-keeps :
      (Inv : T → Type 0) (n : ℕ) (t : T)
      → ((t : T) → Inv t → Inv (condition t).1)
      → Inv t
      → Inv (retry_plainly n condition t).1
  plainly-keeps Inv zero t keeps h = h
  plainly-keeps Inv (suc n) t keeps h =
      of_first (λ t'. plainly-keeps Inv n t' keeps) (condition t) (keeps t h)
    where
      of_first :
          ((t' : T) → Inv t' → Inv (retry_plainly n condition t').1)
          → (x : Result Failure Bool × T) → Inv x.1
          → Inv (next_attempt (retry_plainly n condition) x).1
      of_first again (ok true, t') h = h
      of_first again (ok false, t') h = again t' h
      of_first again (err f, t') h = h

not_transient : is_transient no_volume ≡ true → ⊥
unfolding is_transient
not_transient h = cc

client-ClientLaws : ClientLaws client
unfolding is_transient
client-ClientLaws = record {
  when_ok = λ Inv n condition t stays i. plainly-ok condition Inv stays n t i;
  when_failed = λ Inv n condition t waited stays i. plainly-failed condition Inv stays n t waited i;
  keeps = λ Inv n condition t. plainly-keeps condition Inv n t;
  vm_answers = λ name w f h _. cc;
  volume_answers = λ name w f h transient.
      let same : no_volume ≡ f = cc in
      absurd (not_transient (subst (λ f. is_transient f ≡ true) (sym same) transient));
  secret_answers = λ name w f h _. cc;
}

terminate-IsSettled_example :
    IsSettled (client.delete_vm "vm-1") start
    × IsSettled (client.delete_data_volume "vm-1-root") start
    × IsSettled (client.delete_secret "vm-1-cloudinit") start
unfolding terminate retry_with_backoff attempt retried real_error deletion_errors joined
    is_transient
terminate-IsSettled_example = terminate-IsSettled client "vm-1" start client-ClientLaws refl

abbrev pages :
    String → World (Unit {0}) → Result Failure (List VmObject × String) × World (Unit {0})
pages = client.list_vms []

two_pages : Pages client pages "" start 2 (named_vm ∷ named_vm ∷ []) start
unfolding retry_with_backoff attempt retried
two_pages = one_page {next = "more"} {items = named_vm ∷ []} refl refl (last_page refl)

list_all-Pages_example :
    list_all client pages 2 "" start ≡ (some (ok (named_vm ∷ named_vm ∷ [])), start)
list_all-Pages_example =
    list_all-Pages client pages "" start start 2 (named_vm ∷ named_vm ∷ []) 2 two_pages
      (omega arith)

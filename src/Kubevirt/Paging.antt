-- ===== src/Kubevirt/Paging.antt =====
-- The lists of drivers/kubevirt/kubeapi.go, which are read page by page.
use openshell_drivers_contri.Prelude.{
  ℕ, zero, suc, ◌≤◌, ◌≡◌, refl, String, false, some, List, [], ◌++◌, arith, ◌==◌,
}
use openshell_drivers_contri.Prelude.Result.{ok}
use openshell_drivers_contri.Service.{World}
use openshell_drivers_contri.Kubevirt.Client.{Call, KubeApi, retry_with_backoff, list_all}

module _ {S : Type 0} (api : KubeApi S) {A : Type 0}
    (page : String → Call S (List A × String)) where
  -- The API answers, from a token on, with so many pages, each with the token of the next and the last
  -- with none; the items of all of them, and the world that they leave.
  pub data Pages : String → World S → ℕ → List A → World S → Type 0 where
    last_page :
        {token : String} {w : World S} {items : List A}
        → (retry_with_backoff api ([], "") (page token) w).0 ≡ ok (items, "")
        → Pages token w 1 items (retry_with_backoff api ([], "") (page token) w).1
    one_page :
        {token next : String} {w w' : World S} {items rest : List A} {n : ℕ}
        → (retry_with_backoff api ([], "") (page token) w).0 ≡ ok (items, next)
        → (next == "") ≡ false
        → Pages next (retry_with_backoff api ([], "") (page token) w).1 n rest w'
        → Pages token w (suc n) (items ++ rest) w'

  -- With fuel for the pages that the API answers with, the list is the items of all of them, in order,
  -- and no other; whatever the API would answer to a token that it did not give.
  pub list_all-Pages :
      (token : String) (w w' : World S) (n : ℕ) (items : List A) (fuel : ℕ)
      → Pages token w n items w'
      → n ≤ fuel
      → list_all api page fuel token w ≡ (some (ok items), w')
  unfolding list_all
  list_all-Pages _ _ _ _ _ zero (last_page e) h = absurd (omega arith)
  list_all-Pages _ _ _ _ _ (suc fuel) (last_page e) h = rw (list_all, e) refl
  list_all-Pages _ _ _ _ _ zero (one_page e more rest) h = absurd (omega arith)
  list_all-Pages _ _ _ _ _ (suc fuel) (one_page {next = next} e more rest) h =
      rw (list_all, e, more, list_all-Pages next _ _ _ _ fuel rest (omega arith)) refl

-- ===== src/Service/Ensures.antt =====
-- Handlers whose success ensures a property of the world that they leave.
use openshell_drivers_contri.Prelude.{◌≡◌, refl, String}
use openshell_drivers_contri.Prelude.Result.{Result, ok, err}
use openshell_drivers_contri.Service.{Status, World, Exec, lift, ◌>>=◌}
use openshell_drivers_contri.Service.Rollback.{undo_unless_ok}

module _ {S : Type 0} (P : World S → Type 0) where
  abbrev pub Ensures : Result Status (Unit {0}) × World S → Type 0
  Ensures (ok _, w) = P w
  Ensures (err _, w) = Unit

  pub lift-Ensures :
      {E A : Type 0} (w : World S) (to_status : E → Status) (r : Result E A)
      (k : A → Exec S (Unit {0}))
      → ((a : A) → Ensures (k a w))
      → Ensures ((lift to_status r >>= k) w)
  lift-Ensures w to_status (ok a) k h = h a
  lift-Ensures w to_status (err e) k h = tt

  pub called-Ensures :
      {E A : Type 0} (w : World S) (to_status : E → Status) (x : Result E A × World S)
      (k : A → Exec S (Unit {0}))
      → ((a : A) (w' : World S) → x.0 ≡ ok a → x.1 ≡ w' → Ensures (k a w'))
      → Ensures (((λ _. lift to_status x.0 x.1) >>= k) w)
  called-Ensures w to_status (ok a, w') k h = h a w' refl refl
  called-Ensures w to_status (err e, w') k h = tt

  pub undo-Ensures :
      (id : String) (x : Result Status (Unit {0}) × World S)
      → Ensures x
      → Ensures (undo_unless_ok id x)
  unfolding undo_unless_ok
  undo-Ensures id (ok a, w) h = h
  undo-Ensures id (err e, w) h = tt

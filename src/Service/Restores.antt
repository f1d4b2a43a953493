-- ===== src/Service/Restores.antt =====
-- Handlers that leave the registry's records as they were where they fail.
use openshell_drivers_contri.Prelude.{◌≡◌, refl, ◌∙◌, String}
use openshell_drivers_contri.Prelude.Result.{Result, ok, err}
use openshell_drivers_contri.Safeguards.Registry.{rollback}
use openshell_drivers_contri.Safeguards.Lookups.{rollback_same}
use openshell_drivers_contri.Service.{Status, World, Exec, lift, ◌>>=◌}
use openshell_drivers_contri.Service.Rollback.{undo_unless_ok}

module _ {S : Type 0} where
  -- The handler fails and the registry tracks what it tracked before, or it succeeds.
  abbrev pub Restores : World S → Result Status (Unit {0}) × World S → Type 0
  Restores w (ok _, w') = Unit
  Restores w (err _, w') = w'.registry.records ≡ w.registry.records

  module _ {E A : Type 0} (w : World S) where
    pub lift-Restores :
        (to_status : E → Status) (r : Result E A) (k : A → Exec S (Unit {0}))
        → ((a : A) → Restores w (k a w))
        → Restores w ((lift to_status r >>= k) w)
    lift-Restores to_status (ok a) k h = h a
    lift-Restores to_status (err e) k h = refl

  pub called-Restores :
      {E A : Type 0} (w : World S) (to_status : E → Status) (x : Result E A × World S)
      (k : A → Exec S (Unit {0}))
      → x.1.registry.records ≡ w.registry.records
      → ((a : A) (w' : World S) → w'.registry.records ≡ w.registry.records → Restores w (k a w'))
      → Restores w (((λ _. lift to_status x.0 x.1) >>= k) w)
  called-Restores w to_status (ok a, w') k same h = h a w' same
  called-Restores w to_status (err e, w') k same h = same

  pub undo-Restores :
      (w w' : World S) (id : String) (x : Result Status (Unit {0}) × World S)
      → (rollback w'.registry id).records ≡ w.registry.records
      → Restores w' x
      → Restores w (undo_unless_ok id x)
  unfolding undo_unless_ok
  undo-Restores w w' id (ok a, w'') back h = tt
  undo-Restores w w' id (err e, w'') back h = rollback_same w'.registry w''.registry id h ∙ back

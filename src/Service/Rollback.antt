-- ===== src/Service/Rollback.antt =====
-- `defer func() { if rollback { … } }()` of both drivers' `CreateSandbox`.
use openshell_drivers_contri.Prelude.{String}
use openshell_drivers_contri.Prelude.Result.{Result, ok, err}
use openshell_drivers_contri.Safeguards.Registry.{rollback}
use openshell_drivers_contri.Service.{Status, World, Exec}

module _ {S : Type 0} where
  -- defer func() { if rollback { d.registry.Rollback(id) } }(), where the body succeeds exactly if
  -- it has set `rollback` to false.
  unfoldable pub undo_unless_ok :
      {A : Type 0} → String → Result Status A × World S → Result Status A × World S
  undo_unless_ok id (ok a, w) = (ok a, w)
  undo_unless_ok id (err s, w) = (err s, record w { registry = rollback w.registry id })

  unfoldable pub rolling_back : {A : Type 0} → String → Exec S A → Exec S A
  unfolding undo_unless_ok
  rolling_back id body w = undo_unless_ok id (body w)

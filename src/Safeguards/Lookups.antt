-- ===== src/Safeguards/Lookups.antt =====
-- What the methods of pkg/safeguards/safeguards.go do to the records, case by case.
use openshell_drivers_contri.Prelude.{
  ◌≡◌, refl, sym, ap, eq_iff, ◌∙◌, String, Bool, true, false, Option, none, some, arith, ◌==◌,
  if◌then◌else◌, Option-cases, Bool-cases, inl, inr,
}
use openshell_drivers_contri.Prelude.Assoc.{lookup, erase, lookup-insert, lookup-erase}
use openshell_drivers_contri.Safeguards.Records.{Record, zero_record, clone_record}
use openshell_drivers_contri.Safeguards.Registry.{
  Registry, store, forget, broadcast_deleted, broadcast_sandbox, delete, delete_if, update,
  update_if, rollback, get,
}
use openshell_drivers_contri.Safeguards.Invariant.{records-broadcast}

pub records-broadcast_deleted :
    (r : Registry) (id : String) → (broadcast_deleted r id).records ≡ r.records
unfolding broadcast_deleted
records-broadcast_deleted r id = records-broadcast r _

pub records-delete : (r : Registry) (id : String) → (delete r id).0.records ≡ erase id r.records
unfolding delete
records-delete r id = refl

-- An update of a record that is tracked.
pub update-some :
    (r : Registry) (id : String) (f : Record → Record) (rec : Record)
    → lookup id r.records ≡ some rec
    → update r id f ≡ (store id (f rec) r, clone_record (clone_record (f rec)), true)
unfolding update update_if
update-some r id f rec tracked = rw (update_if, tracked) refl

pub update-none :
    (r : Registry) (id : String) (f : Record → Record)
    → lookup id r.records ≡ none
    → update r id f ≡ (r, zero_record, false)
unfolding update update_if
update-none r id f e = rw (update_if, e) refl

pub records-broadcast_sandbox :
    (r : Registry) (rec : Record) → (broadcast_sandbox r rec).records ≡ r.records
unfolding broadcast_sandbox
records-broadcast_sandbox r rec = records-broadcast r _

-- A guarded update of a record that is not there, that its guard accepts, or that it refuses.
pub update_if-none :
    (r : Registry) (id : String) (guard : Option (Record → Bool)) (f : Record → Record)
    → lookup id r.records ≡ none
    → update_if r id guard f ≡ (r, zero_record, false)
unfolding update_if
update_if-none r id guard f e = rw (update_if, e) refl

pub update_if-accepted :
    (r : Registry) (id : String) (guard : Record → Bool) (f : Record → Record) (rec : Record)
    → lookup id r.records ≡ some rec
    → guard (clone_record rec) ≡ true
    → update_if r id (some guard) f
      ≡ (store id (f rec) r, clone_record (clone_record (f rec)), true)
unfolding update_if
update_if-accepted r id guard f rec e fits = rw (update_if, e, fits) refl

pub update_if-refused :
    (r : Registry) (id : String) (guard : Record → Bool) (f : Record → Record) (rec : Record)
    → lookup id r.records ≡ some rec
    → guard (clone_record rec) ≡ false
    → update_if r id (some guard) f ≡ (r, zero_record, false)
unfolding update_if
update_if-refused r id guard f rec e barred = rw (update_if, e, barred) refl

pub delete_if-accepted :
    (r : Registry) (id : String) (guard : Record → Bool) (rec : Record)
    → lookup id r.records ≡ some rec
    → guard (clone_record rec) ≡ true
    → delete_if r id (some guard) ≡ (forget id r, clone_record rec, true)
unfolding delete_if
delete_if-accepted r id guard rec e fits = rw (delete_if, e, fits) refl

delete_if-none :
    (r : Registry) (id : String) (guard : Option (Record → Bool))
    → lookup id r.records ≡ none
    → delete_if r id guard ≡ (r, zero_record, false)
unfolding delete_if
delete_if-none r id guard e = rw (delete_if, e) refl

delete_if-refused :
    (r : Registry) (id : String) (guard : Record → Bool) (rec : Record)
    → lookup id r.records ≡ some rec
    → guard (clone_record rec) ≡ false
    → delete_if r id (some guard) ≡ (r, zero_record, false)
unfolding delete_if
delete_if-refused r id guard rec e barred = rw (delete_if, e, barred) refl

pub get-some :
    (r : Registry) (id : String) (rec : Record)
    → lookup id r.records ≡ some rec
    → get r id ≡ (clone_record rec, true)
unfolding get
get-some r id rec e = rw (get, e) refl

pub get-none :
    (r : Registry) (id : String) → lookup id r.records ≡ none → get r id ≡ (zero_record, false)
unfolding get clone_record
get-none r id e = rw (get, e) refl

rollback-none :
    (r : Registry) (id : String) → lookup id r.records ≡ none → (rollback r id).records ≡ r.records
unfolding rollback
rollback-none r id e = rw (rollback, e) refl

rollback-some :
    (r : Registry) (id : String) (rec : Record)
    → lookup id r.records ≡ some rec
    → (rollback r id).records ≡ (if rec.instance_id == "" then erase id r.records else r.records)
unfolding rollback
rollback-some r id rec e = rw (rollback, e) (ground arith)

pub rollback_same :
    (r r' : Registry) (id : String)
    → r'.records ≡ r.records
    → (rollback r' id).records ≡ (rollback r id).records
rollback_same r r' id same = elim (Option-cases (lookup id r.records)) [
  | inl e ↦ rollback-none r' id (ap (lookup id) same ∙ e) ∙ same ∙ sym (rollback-none r id e)
  | inr (rec, e) ↦
      rollback-some r' id rec (ap (lookup id) same ∙ e)
      ∙ ap (λ m. if rec.instance_id == "" then erase id m else m) same
      ∙ sym (rollback-some r id rec e)
]

-- The guard of a call for one ID refuses the record that is tracked under another, or the IDs differ.
abbrev pub Spares : String → (Record → Bool) → String → Record → Type 0
Spares sid guard id rec = (sid == id) ≡ true → guard (clone_record rec) ≡ false

module _ (r : Registry) (sid id : String) (guard : Record → Bool) (rec : Record)
    (tracked : lookup id r.records ≡ some rec) (spares : Spares sid guard id rec) where
  spared_differs :
      (old : Record)
      → lookup sid r.records ≡ some old
      → guard (clone_record old) ≡ true
      → (sid == id) ≡ false
  spared_differs old e fits = elim (Bool-cases (sid == id)) [
    | inr differ ↦ differ
    | inl same ↦
        (let barred = spares same in
          let at_id = ap (λ x. lookup x r.records) (sym ((eq_iff sid id).0 same)) ∙ e in
          absurd (cc))
  ]

  -- A guarded update leaves a record alone that it spares, and so does a guarded deletion.
  pub update_if-Spares :
      (f : Record → Record) → lookup id (update_if r sid (some guard) f).0.records ≡ some rec
  update_if-Spares f = elim (Option-cases (lookup sid r.records)) [
    | inl e ↦ rw (update_if-none r sid (some guard) f e) tracked
    | inr (old, e) ↦ elim (Bool-cases (guard (clone_record old))) [
      | inr barred ↦ rw (update_if-refused r sid guard f old e barred) tracked
      | inl fits ↦
          rw (update_if-accepted r sid guard f old e fits, lookup-insert, spared_differs old e fits)
            tracked
    ]
  ]

  pub delete_if-Spares : lookup id (delete_if r sid (some guard)).0.records ≡ some rec
  delete_if-Spares = elim (Option-cases (lookup sid r.records)) [
    | inl e ↦ rw (delete_if-none r sid (some guard) e) tracked
    | inr (old, e) ↦ elim (Bool-cases (guard (clone_record old))) [
      | inr barred ↦ rw (delete_if-refused r sid guard old e barred) tracked
      | inl fits ↦
          rw (delete_if-accepted r sid guard old e fits, lookup-erase, spared_differs old e fits)
            tracked
    ]
  ]

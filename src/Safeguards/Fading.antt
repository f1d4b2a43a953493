-- ===== src/Safeguards/Fading.antt =====
-- Records of pkg/safeguards/safeguards.go that are missed by more and more polls, until they are dropped.
use openshell_drivers_contri.Prelude.{
  ℕ, ◌≡◌, refl, sym, ap, subst, ◌∙◌, eq_iff, ◌⊎◌, String, true, false, Option, some, none, List, [],
  ◌∷◌, map, ◌==◌, Option-cases, Bool-cases, inl, inr, eq_refl,
}
use openshell_drivers_contri.Prelude.Assoc.{lookup, values, lookup-insert, lookup-erase}
use openshell_drivers_contri.Safeguards.Records.{Record, clone_record}
use openshell_drivers_contri.Safeguards.Registry.{Registry, update, delete, all}
use openshell_drivers_contri.Safeguards.Lookups.{update-some, update-none, records-delete}

-- The record of the ID has a machine and was missed so often.
pub record IsFading (id : String) (P : ℕ → Type 0) (rec : Record) : Type 0 where
  pub keyed : rec.sandbox_id ≡ id
  pub bound : (rec.instance_id == "") ≡ false
  pub often : P rec.missing_polls

-- Or it is gone; with no number that satisfies `P`, it is gone.
abbrev pub Fading : String → (ℕ → Type 0) → List (String × Record) → Type 0
Fading id P records =
    (lookup id records ≡ none)
    ⊎ ((rec : Record) × (lookup id records ≡ some rec) × IsFading id P rec)

-- An update of records that keeps them fading.
abbrev pub Fades : (ℕ → Type 0) → (Record → Record) → Type 0
Fades P f = (id : String) (rec : Record) → IsFading id P rec → IsFading id P (f rec)

clone_record-IsFading :
    (id : String) (P : ℕ → Type 0) (rec : Record)
    → IsFading id P rec
    → IsFading id P (clone_record rec)
unfolding clone_record
clone_record-IsFading id P rec h = record { keyed = h.keyed; bound = h.bound; often = h.often }

module _ (id : String) (P : ℕ → Type 0) (r : Registry) where
  pub delete-Fading : (sid : String) → Fading id P r.records → Fading id P (delete r sid).0.records
  delete-Fading sid h =
      rw (records-delete r sid, lookup-erase sid id r.records)
        (elim (Bool-cases (sid == id)) [ inl same ↦ rw same (inl refl) | inr other ↦ rw other h ])

  pub update-Fading :
      (sid : String) (f : Record → Record)
      → Fades P f
      → Fading id P r.records
      → Fading id P (update r sid f).0.records
  update-Fading sid f fades h = elim (Option-cases (lookup sid r.records)) [
    | inl e ↦ rw (update-none r sid f e) h
    | inr (old, e) ↦
        rw (update-some r sid f old e, lookup-insert sid id (clone_record (f old)) r.records)
          (elim (Bool-cases (sid == id)) [
            | inr other ↦ rw other h
            | inl same ↦ rw same (inr (clone_record (f old), refl, stored old (at_id same old e) h))
          ])
  ]
    where
      at_id :
          (sid == id) ≡ true
          → (old : Record) → lookup sid r.records ≡ some old
          → lookup id r.records ≡ some old
      at_id same old e = ap (λ x. lookup x r.records) (sym ((eq_iff sid id).0 same)) ∙ e

      same_record :
          {rec old : Record}
          → lookup id r.records ≡ some rec
          → lookup id r.records ≡ some old
          → rec ≡ old
      same_record e e' = cc

      stored :
          (old : Record)
          → lookup id r.records ≡ some old
          → Fading id P r.records
          → IsFading id P (clone_record (f old))
      stored old e (inl gone) = absurd (cc)
      stored old e (inr (rec, e', fading)) =
          clone_record-IsFading id P (f old)
            (fades id old (subst (IsFading id P) (same_record e' e) fading))

  -- An update of the record itself may raise the number.
  pub update-Fading_own :
      (P' : ℕ → Type 0) (f : Record → Record)
      → ((rec : Record) → IsFading id P rec → IsFading id P' (f rec))
      → Fading id P r.records
      → Fading id P' (update r id f).0.records
  update-Fading_own P' f fades (inl gone) = rw (update-none r id f gone) (inl gone)
  update-Fading_own P' f fades (inr (rec, e, fading)) =
      rw
        (update-some r id f rec e, lookup-insert id id (clone_record (f rec)) r.records, eq_refl id)
        (inr (clone_record (f rec), refl, clone_record-IsFading id P' (f rec) (fades rec fading)))

-- A record of the list stands for a machine of the ID.
abbrev pub HasMachine : String → List Record → Type 0
HasMachine id [] = ⊥
HasMachine id (rec ∷ recs) =
    ((rec.sandbox_id ≡ id) × ((rec.instance_id == "") ≡ false)) ⊎ HasMachine id recs

pub all-HasMachine :
    (id : String) (r : Registry) (P : ℕ → Type 0) (rec : Record)
    → lookup id r.records ≡ some rec
    → IsFading id P rec
    → HasMachine id (all r)
unfolding all lookup
all-HasMachine id r k rec e h = of_entries r.records e
  where
    of_entries :
        (m : List (String × Record))
        → lookup id m ≡ some rec
        → HasMachine id (map clone_record (values m))
    of_entries [] e = absurd (cc)
    of_entries ((slot, found) ∷ m) e = elim (Bool-cases (slot == id)) [
      | inr other ↦ inr (of_entries m (rw other at e))
      | inl same ↦ inl (named (rw same at e))
    ]
      where
        named :
            ◌≡◌ {A = Option Record} (some found) (some rec)
            → ((clone_record found).sandbox_id ≡ id)
              × (((clone_record found).instance_id == "") ≡ false)
        named e =
            let same : rec ≡ found = cc in
            subst
              (λ x.
                ((clone_record x).sandbox_id ≡ id) × (((clone_record x).instance_id == "") ≡ false))
              same (unfold clone_record in (h.keyed, h.bound))

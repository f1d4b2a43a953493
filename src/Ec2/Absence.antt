-- ===== src/Ec2/Absence.antt =====
-- What becomes of a record of drivers/ec2/driver.go whose instance `poll` of drivers/ec2/watcher.go does
-- not list any more, over several polls.
use openshell_drivers_contri.Prelude.{
  ℕ, ◌+◌, ◌≤◌, ◌≡◌, refl, String, true, false, ◌&&◌, ◌||◌, List, [], ◌∷◌, arith, ◌==◌, leb,
  Bool-cases, inl, inr, eq_refl,
}
use openshell_drivers_contri.Prelude.Assoc.{lookup-erase}
use openshell_drivers_contri.Safeguards.Records.{Record, clone_record}
use openshell_drivers_contri.Safeguards.Registry.{update}
use openshell_drivers_contri.Safeguards.Lookups.{
  update-some, update-none, records-delete, records-broadcast_deleted,
}
use openshell_drivers_contri.Safeguards.Fading.{
  IsFading, Fading, delete-Fading, update-Fading, update-Fading_own, HasMachine,
}
use openshell_drivers_contri.Service.{World}
use openshell_drivers_contri.Service.Grouping.{has_text}
use openshell_drivers_contri.Ec2.Poll.{miss, miss_all}

abbrev counted : Record → Record
counted current = record current { missing_polls = current.missing_polls + 1 }

-- Bounds on the number of polls that hold on as it grows.
abbrev pub Grows : (ℕ → Type 0) → Type 0
Grows P = (n : ℕ) → P n → P (n + 1)

counted-IsFading :
    (P P' : ℕ → Type 0) (id : String) (rec : Record)
    → ((n : ℕ) → P n → P' (n + 1))
    → IsFading id P rec
    → IsFading id P' (counted rec)
counted-IsFading P P' id rec grows h = record {
  keyed = h.keyed;
  bound = h.bound;
  often = grows rec.missing_polls h.often;
}

module _ (S : Type 0) (id : String) where
  abbrev pub FadingIn : (ℕ → Type 0) → World S → Type 0
  FadingIn P w = Fading id P w.registry.records

module _ (S : Type 0) (id : String) (seen : List String) where
  module _ (P : ℕ → Type 0) (grows : Grows P) where
    miss-Fading :
        (rec : Record) (w : World S) → FadingIn S id P w → FadingIn S id P (miss seen rec w)
    unfolding miss
    miss-Fading rec w h =
        let u = update w.registry rec.sandbox_id counted in
        let kept : Fading id P u.0.records =
          update-Fading id P w.registry rec.sandbox_id counted
            (λ id rec. counted-IsFading P P id rec grows) h in
        elim (Bool-cases (rec.instance_id == "" || has_text rec.sandbox_id seen)) [
          | inl unbound ↦ rw unbound h
          | inr bound ↦ elim (Bool-cases (u.2 && leb 3 u.1.missing_polls)) [
            | inr few ↦ rw (bound, few) kept
            | inl many ↦
                rw (bound, many, records-broadcast_deleted)
                  (delete-Fading id P u.0 rec.sandbox_id kept)
          ]
        ]

    pub miss_all-Fading :
        (recs : List Record) (w : World S)
        → FadingIn S id P w
        → FadingIn S id P (miss_all seen recs w)
    unfolding miss_all
    miss_all-Fading [] w h = h
    miss_all-Fading (rec ∷ recs) w h = miss_all-Fading recs (miss seen rec w) (miss-Fading rec w h)

  -- Between polls, a record in the list that stands for a machine takes the bound from one to the
  -- next.
  abbrev pub Misses : (P P' : ℕ → Type 0) → Type 0
  Misses P P' =
      (rec : Record) (w : World S)
      → rec.sandbox_id ≡ id
      → (rec.instance_id == "") ≡ false
      → FadingIn S id P w
      → FadingIn S id P' (miss seen rec w)

  pub miss_all-Misses :
      (P P' : ℕ → Type 0)
      → Grows P
      → Grows P'
      → Misses P P'
      → (recs : List Record) (w : World S) → HasMachine id recs
      → FadingIn S id P w
      → FadingIn S id P' (miss_all seen recs w)
  unfolding miss_all
  miss_all-Misses P P' grows grows' misses [] w has h = absurd has
  miss_all-Misses P P' grows grows' misses (rec ∷ recs) w (inl (same, bound)) h =
      miss_all-Fading P' grows' recs (miss seen rec w) (misses rec w same bound h)
  miss_all-Misses P P' grows grows' misses (rec ∷ recs) w (inr later) h =
      miss_all-Misses P P' grows grows' misses recs (miss seen rec w) later
        (miss-Fading P grows rec w h)

  pub miss-counts :
      (P P' : ℕ → Type 0) → has_text id seen ≡ false → ((n : ℕ) → P n → P' (n + 1)) → Misses P P'
  unfolding miss
  miss-counts P P' unseen grows rec w same bound h =
      let not_seen : has_text rec.sandbox_id seen ≡ false = rw same unseen in
      let u = update w.registry rec.sandbox_id counted in
      let kept : Fading id P' u.0.records = rw same (
        update-Fading_own id P w.registry P' counted (λ rec. counted-IsFading P P' id rec grows)
          h) in
      elim (Bool-cases (u.2 && leb 3 u.1.missing_polls)) [
        | inr few ↦ rw (bound, not_seen, few) kept
        | inl many ↦
            rw (bound, not_seen, many, records-broadcast_deleted)
              (delete-Fading id P' u.0 rec.sandbox_id kept)
      ]

  -- The third poll drops the record.
  pub miss-drops : has_text id seen ≡ false → Misses (λ n. 2 ≤ n) (λ _. ⊥)
  unfolding miss
  miss-drops unseen rec w same bound (inl gone) =
      let not_seen : has_text rec.sandbox_id seen ≡ false = rw same unseen in
      rw (bound, not_seen, update-none w.registry rec.sandbox_id counted (rw same gone)) (inl gone)
  miss-drops unseen rec w same bound (inr (old, e, fading)) =
      let not_seen : has_text rec.sandbox_id seen ≡ false = rw same unseen in
      rw
        (
          bound,
          not_seen,
          update-some w.registry rec.sandbox_id counted old (rw same e),
          many old fading,
          records-broadcast_deleted,
          records-delete,
          lookup-erase,
        )
        (inl (rw (same, eq_refl id) refl))
    where
      many :
          (old : Record)
          → IsFading id (λ n. 2 ≤ n) old
          → leb 3 (clone_record (clone_record (counted old))).missing_polls ≡ true
      many old fading = let often = fading.often in unfold clone_record in ground (arith, often)

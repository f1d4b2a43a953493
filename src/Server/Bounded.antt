-- ===== src/Server/Bounded.antt =====
-- What the limit on concurrent RPCs of pkg/server/server.go guarantees.
use openshell_drivers_contri.Prelude.{
  ℕ, zero, suc, ◌≤◌, ◌<◌, ◌≡◌, ◌↔◌, ◌≢◌, refl, none, some, List, [], ◌∷◌, ◌++◌, length,
  length-append, ltb, arith, Bool-cases, inl, inr, ◌⊎◌, ltb→lt, subst, sym, ◌∙◌, ap,
}
use openshell_drivers_contri.Prelude.Int.{ℤ, pos, negsuc, pos_part}
use openshell_drivers_contri.Server.Options.{Options, with_defaults, or_default}
use openshell_drivers_contri.Server.Limit.{
  Limiter, idle, capacity, arrive, taken, finish, admitted, refused, ended, Reachable, started,
  later,
}

-- The semaphore counts the handlers, and there is room for all of them.
pub record IsBounded (opts : Options) (l : Limiter) : Type 0 where
  pub counted : l.sem ≡ length l.handling
  pub bounded : l.sem ≤ capacity opts

arrive_cases :
    (opts : Options) (rpc : ℕ) (l : Limiter)
    → ((l.sem < capacity opts)
        × (arrive opts rpc l ≡ some (record { sem = suc l.sem; handling = rpc ∷ l.handling })))
      ⊎ ((capacity opts ≤ l.sem) × (arrive opts rpc l ≡ none))
unfolding arrive
arrive_cases opts rpc l = elim (Bool-cases (ltb l.sem (capacity opts))) [
  | inl room ↦ inl (ltb→lt l.sem (capacity opts) room, rw room refl)
  | inr full ↦ inr (ground arith, rw full refl)
]

some_inj : {A : Type 0} {a b : A} → some a ≡ some b → a ≡ b
some_inj h = cc

arrive-IsBounded :
    (opts : Options) (rpc : ℕ) (l l' : Limiter)
    → IsBounded opts l
    → arrive opts rpc l ≡ some l'
    → IsBounded opts l'
arrive-IsBounded opts rpc l l' v h = elim (arrive_cases opts rpc l) [
  | inl (room, is) ↦
      subst (IsBounded opts) (some_inj (sym is ∙ h))
        (record { counted = omega (arith, v.counted); bounded = room })
  | inr (full, is) ↦ absurd cc
]

taken-some :
    (n : ℕ) (rest : List ℕ)
    → 1 ≤ n
    → (m : ℕ) × (n ≡ suc m) × (taken n rest ≡ some (record { sem = m; handling = rest }))
taken-some zero rest h = absurd (omega arith)
taken-some (suc n) rest h = (n, refl, refl)

-- A handler that ends finds an element to receive.
finish-some :
    (rest : List ℕ) (l : Limiter)
    → 1 ≤ l.sem
    → (n : ℕ) × (l.sem ≡ suc n) × (finish rest l ≡ some (record { sem = n; handling = rest }))
unfolding finish
finish-some rest l h = taken-some l.sem rest h

finish-IsBounded :
    (opts : Options) (before : List ℕ) (rpc : ℕ) (after : List ℕ) (l l' : Limiter)
    → IsBounded opts l
    → l.handling ≡ before ++ rpc ∷ after
    → finish (before ++ after) l ≡ some l'
    → IsBounded opts l'
finish-IsBounded opts before rpc after l l' v e h =
    let sum = ap length e ∙ length-append before (rpc ∷ after) in
    let (n, many, is) = finish-some (before ++ after) l (omega (arith, sum, v.counted)) in
    subst (IsBounded opts) (some_inj (sym is ∙ h)) (record {
      counted = omega (arith, sum, v.counted, many, length-append before after);
      bounded = omega (arith, many, v.bounded);
    })

Reachable-IsBounded : (opts : Options) (l : Limiter) → Reachable opts l → IsBounded opts l
unfolding idle
Reachable-IsBounded opts _ started = record { counted = refl; bounded = omega arith }
Reachable-IsBounded opts _ (later r (admitted rpc h)) =
    arrive-IsBounded opts rpc _ _ (Reachable-IsBounded opts _ r) h
Reachable-IsBounded opts _ (later r (refused rpc h)) = Reachable-IsBounded opts _ r
Reachable-IsBounded opts _ (later r (ended before rpc after e h)) =
    finish-IsBounded opts before rpc after _ _ (Reachable-IsBounded opts _ r) e h

positive : (n : ℤ) → 1 ≤ pos_part (or_default n (pos 32))
unfolding or_default
positive (pos zero) = omega arith
positive (pos (suc n)) = grind arith
positive (negsuc n) = grind arith

nonempty : (xs : List ℕ) → xs ≢ [] → 1 ≤ length xs
nonempty [] h = absurd (h refl)
nonempty (x ∷ xs) h = omega arith

capacity_positive : (opts : Options) → 1 ≤ capacity opts
unfolding capacity with_defaults or_default
capacity_positive opts = positive opts.max_concurrent_rpcs

-- Whatever the option is and whatever has happened: no more unary RPCs are handled than the capacity,
-- which is at least one; a unary RPC that arrives is refused exactly if that many are handled; and a
-- handler of one that ends never blocks. Streams are not counted.
pub Reachable-limits :
    (opts : Options) (l : Limiter) (rpc : ℕ)
    → Reachable opts l
    → (1 ≤ capacity opts)
      × (length l.handling ≤ capacity opts)
      × ((arrive opts rpc l ≡ none) ↔ (length l.handling ≡ capacity opts))
      × ((rest : List ℕ) → l.handling ≢ [] → finish rest l ≢ none)
Reachable-limits opts l rpc reached =
    let v = Reachable-IsBounded opts l reached in
    (
      capacity_positive opts,
      omega (arith, v.counted, v.bounded),
      elim (arrive_cases opts rpc l) [
        | inl (room, is) ↦ ((λ no. absurd cc), (λ all. absurd (omega (arith, v.counted))))
        | inr (full, is) ↦ ((λ no. omega (arith, v.counted, v.bounded)), (λ all. is))
      ],
      λ rest some_run no.
          let (n, many, is) = finish-some rest l (rw v.counted (nonempty l.handling some_run)) in
          absurd cc,
    )

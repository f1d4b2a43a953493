-- ===== src/Safeguards/Sending.antt =====
-- What one broadcast of pkg/safeguards/safeguards.go does to one watcher: its channel gets the event, or
-- it is cut off.
use openshell_drivers_contri.Prelude.{
  ℕ, ◌≡◌, ◌≢◌, refl, ◌∙◌, ◌⊎◌, inl, inr, true, false, List, [], ◌∷◌, ◌++◌, arith, length, get_elem?,
  ltb, eqb, eqb_iff, Bool-cases,
}
use openshell_drivers_contri.Proto.Messages.{WatchSandboxesEvent}
use openshell_drivers_contri.Safeguards.Records.{watch_buffer_size}
use openshell_drivers_contri.Safeguards.Channels.{
  try_send, Holds, Holds-write, try_send_room, try_send_full, close_open, get_elem?-try_send_ne,
  get_elem?-close_ne,
}
use openshell_drivers_contri.Safeguards.Registry.{Registry, contains, offer, offer_all}
use openshell_drivers_contri.Safeguards.Watchers.{
  DistinctChannels, contains-remove_self, contains-offer_ne,
}

abbrev pub Events : Type 0
Events = List WatchSandboxesEvent

-- The watcher is subscribed and its channel open, or neither.
abbrev pub Live : ℕ → Events → Registry → Type 0
Live ch buffer r = Holds ch false buffer r.heap × (contains ch r.watchers ≡ true)

abbrev pub Cut : ℕ → Events → Registry → Type 0
Cut ch buffer r = Holds ch true buffer r.heap × (contains ch r.watchers ≡ false)

-- The channel and the membership of `ch` are the same in both.
abbrev pub Same : ℕ → Registry → Registry → Type 0
Same ch r q =
    (get_elem? q.heap.channels ch ≡ get_elem? r.heap.channels ch)
    × (contains ch q.watchers ≡ contains ch r.watchers)

module _ (e : WatchSandboxesEvent) (ch : ℕ) where
  pub offer-Same : (d : ℕ) (r : Registry) → d ≢ ch → Same ch r (offer e d r)
  unfolding offer
  offer-Same d r ne = (
    ground (
      arith,
      get_elem?-try_send_ne d ch ne r.heap e,
      get_elem?-close_ne d ch ne (try_send d e r.heap).0,
    ),
    unfold offer in contains-offer_ne d r e ch ne,
  )

  pub offer_all-Same :
      (chs : List ℕ) (r : Registry) → contains ch chs ≡ false → Same ch r (offer_all e chs r)
  unfolding offer_all contains
  offer_all-Same [] r h = (refl, refl)
  offer_all-Same (d ∷ chs) r h =
      let (a, b) = offer-Same d r (ground arith) in
      let (a', b') = offer_all-Same chs (offer e d r) (ground arith) in (a' ∙ a, b' ∙ b)

  -- The event is put behind the others, or the watcher is cut off.
  abbrev pub Sent : Events → Registry → Type 0
  Sent buffer r = Live ch (buffer ++ e ∷ []) r ⊎ Cut ch buffer r

  pub offer-Sent : (buffer : Events) (r : Registry) → Live ch buffer r → Sent buffer (offer e ch r)
  unfolding offer
  offer-Sent buffer r (held, member) = elim (Bool-cases (ltb (length buffer) watch_buffer_size)) [
    | inl room ↦
        rw (try_send_room ch buffer r.heap e held room)
          (inl (Holds-write ch buffer r.heap _ held, member))
    | inr full ↦
        rw (try_send_full ch buffer r.heap e held full, close_open ch buffer r.heap held)
          (inr (Holds-write ch buffer r.heap _ held, contains-remove_self ch r.watchers))
  ]

  pub Sent-Same : (buffer : Events) (r q : Registry) → Same ch r q → Sent buffer r → Sent buffer q
  Sent-Same buffer r q (a, b) (inl (held, member)) = inl (a ∙ held, b ∙ member)
  Sent-Same buffer r q (a, b) (inr (held, member)) = inr (a ∙ held, b ∙ member)

  pub offer_all-Sent :
      (chs : List ℕ) (buffer : Events) (r : Registry)
      → DistinctChannels chs
      → contains ch chs ≡ true
      → Live ch buffer r
      → Sent buffer (offer_all e chs r)
  unfolding offer_all contains
  offer_all-Sent [] buffer r distinct h live = cc
  offer_all-Sent (d ∷ chs) buffer r distinct h (held, member) = elim (Bool-cases (eqb d ch)) [
    | inl own ↦
        (let same : d ≡ ch = (eqb_iff d ch).0 own in
          rw same (
            Sent-Same buffer (offer e ch r) (offer_all e chs (offer e ch r))
              (offer_all-Same chs (offer e ch r) (rw same at distinct.0))
              (offer-Sent buffer r (held, member))))
    | inr other ↦
        (let (a, b) = offer-Same d r (ground arith) in
          offer_all-Sent chs buffer (offer e d r) distinct.1 (ground arith) (a ∙ held, b ∙ member))
  ]

-- ===== src/Safeguards/Delivery.antt =====
-- What a watcher of pkg/safeguards/safeguards.go gets to see: `Subscribe`, any calls of the registry,
-- and receives from the channel.
use openshell_drivers_contri.Prelude.{
  ℕ, ◌<◌, ◌≡◌, ◌≢◌, refl, sym, ◌∙◌, inl, inr, Bool, true, false, none, some, List, [], ◌∷◌, ◌++◌,
  append_assoc, append-nil, arith, length, eqb, eqb_iff, eqb_self, Bool-cases, lt-length_of_get,
  get_elem?-append_left, get_elem?-append_new,
}
use openshell_drivers_contri.Proto.Messages.{WatchSandboxesEvent}
use openshell_drivers_contri.Safeguards.Channels.{
  make, receive, Received, event, Holds, Holds-write, close_open, receive_next, receive_none,
  get_elem?-close_ne, get_elem?-receive_ne,
}
use openshell_drivers_contri.Safeguards.Registry.{
  Registry, contains, broadcast, subscribe, remove_watcher, reserve_with_lease, add, delete,
  rollback, update_if, delete_if,
}
use openshell_drivers_contri.Safeguards.Watchers.{
  DistinctChannels, contains-remove_self, contains-remove_ne, receive-WatchersAreValid,
}
use openshell_drivers_contri.Safeguards.Invariant.{
  IsValid, Call, reserving, adding, deleting, rolling_back, updating, deleting_if, subscribing,
  removing_watcher, broadcasting, step, step-IsValid,
}
use openshell_drivers_contri.Safeguards.Sending.{
  Events, Live, Cut, Same, offer_all-Same, Sent, offer_all-Sent,
}

-- The registry as it goes on, with the events that were broadcast since the subscription, and those
-- that the watcher received.
pub record Trace : Type 0 where
  pub registry : Registry
  pub sent : Events
  pub received : Events

-- A call of the registry, or a receive by the holder of some channel.
pub data Move : Type 0 where
  calls : Call → Move
  receives : ℕ → Move

abbrev pub sent_by : Call → Events
sent_by (broadcasting e) = e ∷ []
sent_by _ = []

abbrev pub received_by : Bool → Received → Events
received_by true (event e) = e ∷ []
received_by _ _ = []

-- The moves as the watcher of `ch` sees them.
pub advance : ℕ → Trace → Move → Trace
advance ch t (calls c) = record t { registry = step t.registry c; sent = t.sent ++ sent_by c }
advance ch t (receives d) =
    let (heap, what) = receive d t.registry.heap in
    record t {
      registry = record t.registry { heap = heap };
      received = t.received ++ received_by (eqb d ch) what;
    }

pub advance_all : ℕ → Trace → List Move → Trace
advance_all ch t [] = t
advance_all ch t (m ∷ ms) = advance_all ch (advance ch t m) ms

-- What was received and what is buffered are the events sent, in order: all of them while the
-- watcher is subscribed, and the first of them once its channel is closed.
pub data Follows (ch : ℕ) (t : Trace) : Type 0 where
  live :
      (buffer : Events) → Live ch buffer t.registry → t.received ++ buffer ≡ t.sent → Follows ch t
  cut :
      (buffer lost : Events)
      → Cut ch buffer t.registry
      → t.received ++ (buffer ++ lost) ≡ t.sent
      → Follows ch t

-- A call that sends nothing and keeps the watcher's channel.
quiet-Follows :
    (ch : ℕ) (t : Trace) (q : Registry)
    → Same ch t.registry q
    → Follows ch t
    → Follows ch (record t { registry = q; sent = t.sent ++ [] })
quiet-Follows ch t q (a, b) (live buffer (held, member) e) =
    live buffer (a ∙ held, b ∙ member) (e ∙ sym (append-nil t.sent))
quiet-Follows ch t q (a, b) (cut buffer lost (held, member) e) =
    cut buffer lost (a ∙ held, b ∙ member) (e ∙ sym (append-nil t.sent))

broadcast-Follows :
    (ch : ℕ) (t : Trace) (e : WatchSandboxesEvent)
    → DistinctChannels t.registry.watchers
    → Follows ch t
    → Follows ch (record t { registry = broadcast t.registry e; sent = t.sent ++ e ∷ [] })
unfolding broadcast
broadcast-Follows ch t e distinct (cut buffer lost (held, member) p) =
    let (a, b) = offer_all-Same e ch t.registry.watchers t.registry member in
    cut buffer (lost ++ e ∷ []) (a ∙ held, b ∙ member) (rw (← p) (simp append_assoc))
broadcast-Follows ch t e distinct (live buffer (held, member) p) =
    go (offer_all-Sent e ch t.registry.watchers buffer t.registry distinct member (held, member))
  where
    go :
        Sent e ch buffer (broadcast t.registry e)
        → Follows ch (record t { registry = broadcast t.registry e; sent = t.sent ++ e ∷ [] })
    go (inl l) = live (buffer ++ e ∷ []) l (rw (← p) (simp append_assoc))
    go (inr c) = cut buffer (e ∷ []) c (rw (← p) (simp append_assoc))

subscribe-Same :
    (ch : ℕ) (r : Registry)
    → ch ≢ length r.heap.channels
    → ch < length r.heap.channels
    → Same ch r (subscribe r).0
unfolding subscribe make contains
subscribe-Same ch r ne old = (get_elem?-append_left r.heap.channels _ ch old, ground arith)

remove_watcher-Same : (ch d : ℕ) (r : Registry) → d ≢ ch → Same ch r (remove_watcher r d)
unfolding remove_watcher
remove_watcher-Same ch d r ne =
    ground (arith, get_elem?-close_ne d ch ne r.heap, contains-remove_ne d ch r.watchers ne)

-- The watcher's channel is in the heap.
known : (ch : ℕ) (t : Trace) → Follows ch t → ch < length t.registry.heap.channels
known ch t (live buffer (held, _) _) = lt-length_of_get t.registry.heap.channels ch held
known ch t (cut buffer lost (held, _) _) = lt-length_of_get t.registry.heap.channels ch held

remove_own-Follows :
    (ch : ℕ) (t : Trace)
    → Follows ch t
    → Follows ch (record t { registry = remove_watcher t.registry ch; sent = t.sent ++ [] })
unfolding remove_watcher
remove_own-Follows ch t (cut buffer lost (held, member) e) =
    rw member (cut buffer lost (held, member) (e ∙ sym (append-nil t.sent)))
remove_own-Follows ch t (live buffer (held, member) e) =
    rw (member, close_open ch buffer t.registry.heap held)
      (cut buffer []
        (Holds-write ch buffer t.registry.heap _ held, contains-remove_self ch t.registry.watchers)
        (rw (append-nil buffer) (e ∙ sym (append-nil t.sent))))

call-Follows :
    (ch : ℕ) (t : Trace) (c : Call)
    → DistinctChannels t.registry.watchers
    → Follows ch t
    → Follows ch (advance ch t (calls c))
unfolding advance step
call-Follows ch t (broadcasting e) distinct f = broadcast-Follows ch t e distinct f
call-Follows ch t subscribing distinct f =
    quiet-Follows ch t (subscribe t.registry).0
      (subscribe-Same ch t.registry (let k = known ch t f in ground arith) (known ch t f)) f
call-Follows ch t (removing_watcher d) distinct f = elim (Bool-cases (eqb d ch)) [
  | inl own ↦ (let same : d ≡ ch = (eqb_iff d ch).0 own in rw same (remove_own-Follows ch t f))
  | inr other ↦
      quiet-Follows ch t (remove_watcher t.registry d)
        (remove_watcher-Same ch d t.registry (ground arith)) f
]
call-Follows ch t (reserving rec) distinct f =
    quiet-Follows ch t (reserve_with_lease t.registry rec).0
      (unfold reserve_with_lease in ground arith) f
call-Follows ch t (adding none) distinct f =
    quiet-Follows ch t (add t.registry none).0 (unfold add in ground arith) f
call-Follows ch t (adding (some rec)) distinct f =
    quiet-Follows ch t (add t.registry (some rec)).0 (unfold add in ground arith) f
call-Follows ch t (deleting id) distinct f =
    quiet-Follows ch t (delete t.registry id).0 (unfold delete in (refl, refl)) f
call-Follows ch t (rolling_back id) distinct f =
    quiet-Follows ch t (rollback t.registry id) (unfold rollback in ground arith) f
call-Follows ch t (updating id predicate g _) distinct f =
    quiet-Follows ch t (update_if t.registry id predicate g).0 (unfold update_if in ground arith) f
call-Follows ch t (deleting_if id predicate) distinct f =
    quiet-Follows ch t (delete_if t.registry id predicate).0 (unfold delete_if in ground arith) f

receive_other-Follows :
    (ch d : ℕ) (t : Trace) → d ≢ ch → Follows ch t → Follows ch (advance ch t (receives d))
unfolding advance
receive_other-Follows ch d t ne (live buffer (held, member) e) =
    live buffer (get_elem?-receive_ne d ch ne t.registry.heap ∙ held, member) (nothing_new ∙ e)
  where
    nothing_new :
        (t.received ++ received_by (eqb d ch) (receive d t.registry.heap).1) ++ buffer
        ≡ t.received ++ buffer
    nothing_new = let other : eqb d ch ≡ false = ground arith in rw (other, append-nil t.received)
receive_other-Follows ch d t ne (cut buffer lost (held, member) e) =
    cut buffer lost (get_elem?-receive_ne d ch ne t.registry.heap ∙ held, member) (nothing_new ∙ e)
  where
    nothing_new :
        (t.received ++ received_by (eqb d ch) (receive d t.registry.heap).1) ++ (buffer ++ lost)
        ≡ t.received ++ (buffer ++ lost)
    nothing_new = let other : eqb d ch ≡ false = ground arith in rw (other, append-nil t.received)

receive_own-Follows : (ch : ℕ) (t : Trace) → Follows ch t → Follows ch (advance ch t (receives ch))
unfolding advance
receive_own-Follows ch t (live [] (held, member) e) =
    rw (eqb_self ch, receive_none ch [] t.registry.heap refl held, append-nil t.received)
      (live [] (held, member) e)
receive_own-Follows ch t (live (x ∷ rest) (held, member) e) =
    rw (eqb_self ch, receive_next ch rest t.registry.heap x held)
      (live rest (Holds-write ch (x ∷ rest) t.registry.heap _ held, member) (rw append_assoc e))
receive_own-Follows ch t (cut [] lost (held, member) e) =
    rw (eqb_self ch, receive_none ch [] t.registry.heap refl held, append-nil t.received)
      (cut [] lost (held, member) e)
receive_own-Follows ch t (cut (x ∷ rest) lost (held, member) e) =
    rw (eqb_self ch, receive_next ch rest t.registry.heap x held)
      (cut rest lost (Holds-write ch (x ∷ rest) t.registry.heap _ held, member) (rw append_assoc e))

advance-Follows :
    (ch : ℕ) (t : Trace) (m : Move)
    → DistinctChannels t.registry.watchers
    → Follows ch t
    → Follows ch (advance ch t m)
advance-Follows ch t (calls c) distinct f = call-Follows ch t c distinct f
advance-Follows ch t (receives d) distinct f = elim (Bool-cases (eqb d ch)) [
  | inl own ↦ (let same : d ≡ ch = (eqb_iff d ch).0 own in rw same (receive_own-Follows ch t f))
  | inr other ↦ receive_other-Follows ch d t (ground arith) f
]

advance-IsValid :
    (ch : ℕ) (t : Trace) (m : Move) → IsValid t.registry → IsValid (advance ch t m).registry
unfolding advance
advance-IsValid ch t (calls c) valid = step-IsValid t.registry c valid
advance-IsValid ch t (receives d) valid = record {
  distinct = valid.distinct;
  entries = valid.entries;
  watching = receive-WatchersAreValid t.registry d valid.watching;
}

advance_all-Follows :
    (ch : ℕ) (t : Trace) (ms : List Move)
    → IsValid t.registry
    → Follows ch t
    → Follows ch (advance_all ch t ms)
unfolding advance_all
advance_all-Follows ch t [] valid f = f
advance_all-Follows ch t (m ∷ ms) valid f =
    advance_all-Follows ch (advance ch t m) ms (advance-IsValid ch t m valid)
      (advance-Follows ch t m valid.watching.distinct f)

-- The trace that begins with a subscription.
abbrev pub subscribed : Registry → Trace
subscribed r = record { registry = (subscribe r).0; sent = []; received = [] }

-- Whatever is called after a subscription to a valid registry, and whoever receives: the watcher
-- got a first part of the events that were broadcast since, in order, its buffer holds the next
-- ones, and only if its channel is closed, so that it learns of it, may later ones be missing.
pub subscribe-Follows :
    (r : Registry) (ms : List Move)
    → IsValid r
    → Follows (subscribe r).1 (advance_all (subscribe r).1 (subscribed r) ms)
unfolding subscribe
subscribe-Follows r ms valid =
    advance_all-Follows (subscribe r).1 (subscribed r) ms (step-IsValid_subscribe valid)
      (live [] (new_channel, member) refl)
  where
    step-IsValid_subscribe : IsValid r → IsValid (subscribe r).0
    step-IsValid_subscribe v = unfold step in step-IsValid r subscribing v

    new_channel : Holds (subscribe r).1 false [] (subscribe r).0.heap
    new_channel = unfold make in get_elem?-append_new r.heap.channels _

    member : contains (subscribe r).1 (subscribe r).0.watchers ≡ true
    member = unfold make contains in ground (arith, eqb_self (length r.heap.channels))

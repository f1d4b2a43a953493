-- ===== src/Safeguards/Watchers.antt =====
-- The watchers' part of the registry's invariant: every channel in the set is open, no channel is
-- in it twice, no buffer is over its size, and nothing has panicked.
use openshell_drivers_contri.Prelude.{
  ℕ, ◌≤◌, ◌≡◌, ◌≢◌, refl, ◌∙◌, inl, inr, true, false, List, [], ◌∷◌, ◌++◌, arith, eqb, eqb_iff,
  length, length-append, get_elem?-set_ne, All, All-map, ltb, Bool-cases, get_elem?-append_left,
  get_elem?-append_new, lt-length_of_get,
}
use openshell_drivers_contri.Proto.Messages.{WatchSandboxesEvent}
use openshell_drivers_contri.Safeguards.Records.{watch_buffer_size}
use openshell_drivers_contri.Safeguards.Channels.{
  Heap, make, close, Holds, Holds-write, write, try_send_room, try_send_full, close_open,
  get_elem?-close_ne, get_elem?-receive_ne, receive, receive_none, receive_next, panicked-receive,
}
use openshell_drivers_contri.Safeguards.Registry.{
  Registry, add_one_uint64, contains, remove, offer, offer_all, broadcast, subscribe,
  remove_watcher, drop_watcher,
}

-- No channel stands twice.
abbrev pub DistinctChannels : List ℕ → Type 0
DistinctChannels [] = Unit
DistinctChannels (x ∷ xs) = (contains x xs ≡ false) × DistinctChannels xs

pub contains-remove_self : (ch : ℕ) (xs : List ℕ) → contains ch (remove ch xs) ≡ false
unfolding contains remove
contains-remove_self ch [] = refl
contains-remove_self ch (x ∷ xs) = ground (arith, contains-remove_self ch xs)

pub contains-remove_ne :
    (ch d : ℕ) (xs : List ℕ) → ch ≢ d → contains d (remove ch xs) ≡ contains d xs
unfolding contains remove
contains-remove_ne ch d [] ne = refl
contains-remove_ne ch d (x ∷ xs) ne = ground (arith, contains-remove_ne ch d xs ne)

pub remove-DistinctChannels :
    (ch : ℕ) (xs : List ℕ) → DistinctChannels xs → DistinctChannels (remove ch xs)
unfolding remove
remove-DistinctChannels ch [] h = tt
remove-DistinctChannels ch (x ∷ xs) h =
    ground (arith, remove-DistinctChannels ch xs h.1, contains-remove_ne ch x xs)

-- The channel is open and its buffer fits.
pub record IsOpen (h : Heap) (ch : ℕ) : Type 0 where
  pub content : List WatchSandboxesEvent
  pub held : Holds ch false content h
  pub fits : length content ≤ watch_buffer_size

module _ {ℓ} (P : ℕ → Type ℓ) where
  pub contains-All : (ch : ℕ) (xs : List ℕ) → contains ch xs ≡ true → All P xs → P ch
  unfolding contains
  contains-All ch [] h a = cc
  contains-All ch (x ∷ xs) h a = elim (Bool-cases (eqb x ch)) [
    | inl e ↦ (let p : x ≡ ch = (eqb_iff x ch).0 e in rw p at a.0)
    | inr e ↦ contains-All ch xs (ground arith) a.1
  ]

  -- A property that every other member keeps holds of all that stay.
  pub remove-All :
      (Q : ℕ → Type ℓ) (ch : ℕ) (xs : List ℕ)
      → ((d : ℕ) → ch ≢ d → Q d → P d)
      → All Q xs
      → All P (remove ch xs)
  unfolding remove
  remove-All Q ch [] f a = tt
  remove-All Q ch (x ∷ xs) f a = elim (Bool-cases (eqb x ch)) [
    | inl e ↦ rw e (remove-All Q ch xs f a.1)
    | inr e ↦ rw e (f x (ground arith) a.0, remove-All Q ch xs f a.1)
  ]

pub record WatchersAreValid (r : Registry) : Type 0 where
  pub opened : All (IsOpen r.heap) r.watchers
  pub distinct : DistinctChannels r.watchers
  pub calm : r.heap.panicked ≡ false

module _ (ch : ℕ) (r : Registry) (o : IsOpen r.heap ch) where
  -- A watcher with room gets the event.
  pub offer_room :
      (e : WatchSandboxesEvent)
      → ltb (length o.content) watch_buffer_size ≡ true
      → offer e ch r ≡ record r {
        heap = write ch (record { buffer = o.content ++ e ∷ []; closed = false }) r.heap;
      }
  unfolding offer
  offer_room e room = rw (try_send_room ch o.content r.heap e o.held room)

  -- A watcher without room is counted and dropped.
  pub offer_full :
      (e : WatchSandboxesEvent)
      → ltb (length o.content) watch_buffer_size ≡ false
      → offer e ch r
        ≡ drop_watcher ch
            (record r { watch_overflow_disconnects = add_one_uint64 r.watch_overflow_disconnects })
  unfolding offer
  offer_full e full = rw (try_send_full ch o.content r.heap e o.held full)

  drop_watcher-WatchersAreValid : WatchersAreValid r → WatchersAreValid (drop_watcher ch r)
  drop_watcher-WatchersAreValid valid = record {
    opened =
        remove-All (IsOpen (close ch r.heap)) (IsOpen r.heap) ch r.watchers
          (λ d ne o. record {
            content = o.content;
            held = get_elem?-close_ne ch d ne r.heap ∙ o.held;
            fits = o.fits;
          })
          valid.opened;
    distinct = remove-DistinctChannels ch r.watchers valid.distinct;
    calm = rw (close_open ch o.content r.heap o.held) valid.calm;
  }

  write-IsOpen :
      (events : List WatchSandboxesEvent)
      → length events ≤ watch_buffer_size
      → (d : ℕ) → IsOpen r.heap d
      → IsOpen (write ch (record { buffer = events; closed = false }) r.heap) d
  write-IsOpen events fits d p = elim (Bool-cases (eqb ch d)) [
    | inl e ↦
        (let same : ch ≡ d = (eqb_iff ch d).0 e in
          rw (← same) (record {
            content = events;
            held =
                Holds-write ch o.content r.heap (record { buffer = events; closed = false }) o.held;
            fits = fits;
          }))
    | inr e ↦ record {
      content = p.content;
      held =
          get_elem?-set_ne r.heap.channels (record { buffer = events; closed = false }) (ne e)
          ∙ p.held;
      fits = p.fits;
    }
  ]
    where
      ne : eqb ch d ≡ false → ch ≢ d
      ne e = ground arith

  pub offer-WatchersAreValid :
      (e : WatchSandboxesEvent) → WatchersAreValid r → WatchersAreValid (offer e ch r)
  offer-WatchersAreValid e valid = elim (Bool-cases (ltb (length o.content) watch_buffer_size)) [
    | inl room ↦ rw (offer_room e room) (record {
      opened =
          All-map _ r.watchers
            (write-IsOpen (o.content ++ e ∷ []) (ground (arith, length-append o.content (e ∷ []))))
            valid.opened;
      distinct = valid.distinct;
      calm = valid.calm;
    })
    | inr full ↦ rw (offer_full e full) (
        let v = drop_watcher-WatchersAreValid valid in
        record { opened = v.opened; distinct = v.distinct; calm = v.calm })
  ]

module _ (ch : ℕ) (r : Registry) (e : WatchSandboxesEvent) where
  -- An offer to one watcher keeps every other in the set.
  pub contains-offer_ne :
      (d : ℕ) → ch ≢ d → contains d (offer e ch r).watchers ≡ contains d r.watchers
  unfolding offer
  contains-offer_ne d ne = ground (arith, contains-remove_ne ch d r.watchers ne)

All-offer :
    (ch : ℕ) (r : Registry) (e : WatchSandboxesEvent) (chs : List ℕ)
    → contains ch chs ≡ false
    → All (λ d. contains d r.watchers ≡ true) chs
    → All (λ d. contains d (offer e ch r).watchers ≡ true) chs
unfolding contains
All-offer ch r e [] new a = tt
All-offer ch r e (d ∷ chs) new a =
    (contains-offer_ne ch r e d (ground arith) ∙ a.0, All-offer ch r e chs (ground arith) a.1)

offer_all-WatchersAreValid :
    (e : WatchSandboxesEvent) (chs : List ℕ) (r : Registry)
    → DistinctChannels chs
    → All (λ d. contains d r.watchers ≡ true) chs
    → WatchersAreValid r
    → WatchersAreValid (offer_all e chs r)
unfolding offer_all
offer_all-WatchersAreValid e [] r distinct members valid = valid
offer_all-WatchersAreValid e (ch ∷ chs) r distinct members valid =
    offer_all-WatchersAreValid e chs (offer e ch r) distinct.1
      (All-offer ch r e chs distinct.0 members.1)
      (offer-WatchersAreValid ch r
        (contains-All (IsOpen r.heap) ch r.watchers members.0 valid.opened) e valid)

eqb_refl : (n : ℕ) → eqb n n ≡ true
eqb_refl n = ground arith

pub contains-self_All :
    (xs ys : List ℕ)
    → ((d : ℕ) → contains d xs ≡ true → contains d ys ≡ true)
    → All (λ d. contains d ys ≡ true) xs
unfolding contains
contains-self_All [] ys f = tt
contains-self_All (x ∷ xs) ys f =
    (f x (ground (arith, eqb_refl x)), contains-self_All xs ys (λ d h. f d (ground arith)))

-- A broadcast sends on no closed channel and closes none twice.
pub broadcast-WatchersAreValid :
    (r : Registry) (e : WatchSandboxesEvent) → WatchersAreValid r → WatchersAreValid (broadcast r e)
unfolding broadcast
broadcast-WatchersAreValid r e valid =
    offer_all-WatchersAreValid e r.watchers r valid.distinct
      (contains-self_All r.watchers r.watchers (λ d h. h)) valid

pub remove_watcher-WatchersAreValid :
    (r : Registry) (ch : ℕ) → WatchersAreValid r → WatchersAreValid (remove_watcher r ch)
unfolding remove_watcher
remove_watcher-WatchersAreValid r ch valid = elim (Bool-cases (contains ch r.watchers)) [
  | inl member ↦ rw member (
      drop_watcher-WatchersAreValid ch r
        (contains-All (IsOpen r.heap) ch r.watchers member valid.opened) valid)
  | inr stranger ↦ rw stranger valid
]

-- A new channel is none of the watchers'.
fresh_of_opened :
    (h : Heap) (xs : List ℕ) → All (IsOpen h) xs → contains (length h.channels) xs ≡ false
unfolding contains
fresh_of_opened h [] a = refl
fresh_of_opened h (x ∷ xs) a =
    ground (arith, lt-length_of_get h.channels x a.0.held, fresh_of_opened h xs a.1)

pub subscribe-WatchersAreValid :
    (r : Registry) → WatchersAreValid r → WatchersAreValid (subscribe r).0
unfolding subscribe make
subscribe-WatchersAreValid r valid = record {
  opened = (
    record { content = []; held = get_elem?-append_new r.heap.channels _; fits = omega arith },
    All-map _ r.watchers
        (λ d o. record {
          content = o.content;
          held =
              get_elem?-append_left r.heap.channels _ d (lt-length_of_get r.heap.channels d o.held)
              ∙ o.held;
          fits = o.fits;
        })
        valid.opened,
  );
  distinct = (fresh_of_opened r.heap r.watchers valid.opened, valid.distinct);
  calm = valid.calm;
}

receive-IsOpen : (h : Heap) (d ch : ℕ) → IsOpen h d → IsOpen (receive ch h).0 d
receive-IsOpen h d ch o = elim (Bool-cases (eqb ch d)) [
  | inl own ↦ (let same : ch ≡ d = (eqb_iff ch d).0 own in rw same (taken o.content o.held o.fits))
  | inr other ↦ record {
    content = o.content;
    held = get_elem?-receive_ne ch d (ground arith) h ∙ o.held;
    fits = o.fits;
  }
]
  where
    taken :
        (events : List WatchSandboxesEvent)
        → Holds d false events h
        → length events ≤ watch_buffer_size
        → IsOpen (receive d h).0 d
    taken [] held fits = rw (receive_none d [] h refl held) o
    taken (e ∷ rest) held fits =
        rw (receive_next d rest h e held)
          (record { content = rest; held = Holds-write d (e ∷ rest) h _ held; fits = omega arith })

-- A receive by the holder of a channel.
pub receive-WatchersAreValid :
    (r : Registry) (ch : ℕ)
    → WatchersAreValid r
    → WatchersAreValid (record r { heap = (receive ch r.heap).0 })
receive-WatchersAreValid r ch valid = record {
  opened = All-map _ r.watchers (λ d o. receive-IsOpen r.heap d ch o) valid.opened;
  distinct = valid.distinct;
  calm = panicked-receive r.heap ch ∙ valid.calm;
}

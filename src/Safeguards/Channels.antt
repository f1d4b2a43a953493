-- ===== src/Safeguards/Channels.antt =====
-- The Go channels that pkg/safeguards/safeguards.go makes for its watchers: a heap of buffered
-- channels, named by the order in which they were made. A send on a closed channel, or a second
-- close, is a panic of the process.
use openshell_drivers_contri.Prelude.{
  ℕ, ◌≡◌, ◌≢◌, refl, Bool, true, false, Option, none, some, List, [], ◌∷◌, ◌++◌, arith, ltb,
  if◌then◌else◌, length, get_elem?, set, get_elem?-set_self, get_elem?-set_ne, lt-length_of_get,
}
use openshell_drivers_contri.Proto.Messages.{WatchSandboxesEvent}
use openshell_drivers_contri.Safeguards.Records.{watch_buffer_size}

pub record Channel : Type 0 where
  pub buffer : List WatchSandboxesEvent
  pub closed : Bool

pub record Heap : Type 0 where
  pub channels : List Channel
  pub panicked : Bool

abbrev empty_channel : Channel
empty_channel = record { buffer = []; closed = false }

-- make(chan *pb.WatchSandboxesEvent, watchBufferSize)
unfoldable pub make : Heap → Heap × ℕ
make h = (record h { channels = h.channels ++ empty_channel ∷ [] }, length h.channels)

abbrev pub panic : Heap → Heap
panic h = record h { panicked = true }

abbrev pub write : ℕ → Channel → Heap → Heap
write ch c h = record h { channels = set h.channels ch c }

-- select { case ch <- event: … default: … }, and whether the event was sent
send_to : ℕ → WatchSandboxesEvent → Option Channel → Heap → Heap × Bool
send_to ch event none h = (h, false)
send_to ch event (some c) h =
    if c.closed
    then (panic h, false)
    else if ltb (length c.buffer) watch_buffer_size
    then (write ch (record c { buffer = c.buffer ++ event ∷ [] }) h, true)
    else (h, false)

unfoldable pub try_send : ℕ → WatchSandboxesEvent → Heap → Heap × Bool
unfolding send_to
try_send ch event h = send_to ch event (get_elem? h.channels ch) h

-- close(ch)
close_at : ℕ → Option Channel → Heap → Heap
close_at ch none h = h
close_at ch (some c) h = if c.closed then panic h else write ch (record c { closed = true }) h

unfoldable pub close : ℕ → Heap → Heap
unfolding close_at
close ch h = close_at ch (get_elem? h.channels ch) h

-- event, ok := <-ch
pub data Received : Type 0 where
  event : WatchSandboxesEvent → Received
  end_of_channel blocked : Received

take_from : ℕ → Channel → List WatchSandboxesEvent → Heap → Heap × Received
take_from ch c [] h = (h, if c.closed then end_of_channel else blocked)
take_from ch c (e ∷ rest) h = (write ch (record c { buffer = rest }) h, event e)

receive_at : ℕ → Option Channel → Heap → Heap × Received
unfolding take_from
receive_at ch none h = (h, blocked)
receive_at ch (some c) h = take_from ch c c.buffer h

unfoldable pub receive : ℕ → Heap → Heap × Received
unfolding receive_at
receive ch h = receive_at ch (get_elem? h.channels ch) h

module _ (ch d : ℕ) (ne : ch ≢ d) (h : Heap) where
  get_elem?-send_to_ne :
      (e : WatchSandboxesEvent) (o : Option Channel)
      → get_elem? (send_to ch e o h).0.channels d ≡ get_elem? h.channels d
  unfolding send_to
  get_elem?-send_to_ne e none = refl
  get_elem?-send_to_ne e (some c) =
      ground (arith, get_elem?-set_ne h.channels (record c { buffer = c.buffer ++ e ∷ [] }) ne)

  get_elem?-close_at_ne :
      (o : Option Channel) → get_elem? (close_at ch o h).channels d ≡ get_elem? h.channels d
  unfolding close_at
  get_elem?-close_at_ne none = refl
  get_elem?-close_at_ne (some c) =
      ground (arith, get_elem?-set_ne h.channels (record c { closed = true }) ne)

  get_elem?-take_from_ne :
      (c : Channel) (events : List WatchSandboxesEvent)
      → get_elem? (take_from ch c events h).0.channels d ≡ get_elem? h.channels d
  unfolding take_from
  get_elem?-take_from_ne c [] = refl
  get_elem?-take_from_ne c (e ∷ rest) = get_elem?-set_ne h.channels (record c { buffer = rest }) ne

  get_elem?-receive_at_ne :
      (o : Option Channel) → get_elem? (receive_at ch o h).0.channels d ≡ get_elem? h.channels d
  unfolding receive_at
  get_elem?-receive_at_ne none = refl
  get_elem?-receive_at_ne (some c) = get_elem?-take_from_ne c c.buffer

  -- An operation on one channel leaves every other as it is.
  pub get_elem?-try_send_ne :
      (e : WatchSandboxesEvent) → get_elem? (try_send ch e h).0.channels d ≡ get_elem? h.channels d
  unfolding try_send
  get_elem?-try_send_ne e = get_elem?-send_to_ne e (get_elem? h.channels ch)

  pub get_elem?-close_ne : get_elem? (close ch h).channels d ≡ get_elem? h.channels d
  unfolding close
  get_elem?-close_ne = get_elem?-close_at_ne (get_elem? h.channels ch)

  pub get_elem?-receive_ne : get_elem? (receive ch h).0.channels d ≡ get_elem? h.channels d
  unfolding receive
  get_elem?-receive_ne = get_elem?-receive_at_ne (get_elem? h.channels ch)

panicked-take_from :
    (ch : ℕ) (c : Channel) (events : List WatchSandboxesEvent) (h : Heap)
    → (take_from ch c events h).0.panicked ≡ h.panicked
unfolding take_from
panicked-take_from ch c [] h = refl
panicked-take_from ch c (e ∷ rest) h = refl

panicked-receive_at :
    (ch : ℕ) (o : Option Channel) (h : Heap) → (receive_at ch o h).0.panicked ≡ h.panicked
unfolding receive_at
panicked-receive_at ch none h = refl
panicked-receive_at ch (some c) h = panicked-take_from ch c c.buffer h

pub panicked-receive : (h : Heap) (ch : ℕ) → (receive ch h).0.panicked ≡ h.panicked
unfolding receive
panicked-receive h ch = panicked-receive_at ch (get_elem? h.channels ch) h

-- The channel's content, and whether it is closed.
abbrev pub Holds : ℕ → Bool → List WatchSandboxesEvent → Heap → Type 0
Holds ch shut events h = get_elem? h.channels ch ≡ some (record { buffer = events; closed = shut })

module _ (ch : ℕ) (events : List WatchSandboxesEvent) (h : Heap) where
  -- A send on an open channel is appended if there is room, and otherwise changes nothing.
  pub try_send_room :
      (e : WatchSandboxesEvent)
      → Holds ch false events h
      → ltb (length events) watch_buffer_size ≡ true
      → try_send ch e h ≡ (write ch (record { buffer = events ++ e ∷ []; closed = false }) h, true)
  unfolding try_send
  try_send_room e held room = rw (held, try_send, room)

  pub try_send_full :
      (e : WatchSandboxesEvent)
      → Holds ch false events h
      → ltb (length events) watch_buffer_size ≡ false
      → try_send ch e h ≡ (h, false)
  unfolding try_send
  try_send_full e held full = rw (held, try_send, full)

  pub close_open :
      Holds ch false events h → close ch h ≡ write ch (record { buffer = events; closed = true }) h
  unfolding close
  close_open held = rw (held, close)

  -- What is received is the oldest event of the buffer.
  pub receive_next :
      {shut : Bool} (e : WatchSandboxesEvent)
      → Holds ch shut (e ∷ events) h
      → receive ch h ≡ (write ch (record { buffer = events; closed = shut }) h, event e)
  unfolding receive
  receive_next e held = rw (held, receive)

  -- Nothing is received from an empty buffer.
  pub receive_none :
      {shut : Bool}
      → events ≡ []
      → Holds ch shut events h
      → receive ch h ≡ (h, if shut then end_of_channel else blocked)
  unfolding receive
  receive_none e held = rw (held, receive, e)

  pub Holds-write :
      {shut : Bool} (c : Channel)
      → Holds ch shut events h
      → get_elem? (write ch c h).channels ch ≡ some c
  Holds-write c held = get_elem?-set_self h.channels ch c (lt-length_of_get h.channels ch held)

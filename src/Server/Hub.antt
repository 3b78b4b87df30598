-- ===== src/Server/Hub.antt =====
-- websocket/hub.go and manager.go: the clients of each poll, and the three channels of `Run`.
pub mod Counts
pub mod Safe
pub mod Fed
pub mod Jam
use hcl_assignment.Common.{
  ℕ, suc, ◌+◌, ◌<◌, String, Bool, true, false, not, ◌||◌, ◌&&◌, List, [], ◌∷◌, ◌++◌, ◌≡◌, length,
  filter, ltb, eqb, ◌==◌, if◌then◌else◌, Option, none,
}
use hcl_assignment.Services.Model.{PollResults}

-- A connection. `send` is its channel; what `close` did to it is `is_closed`.
pub record Client : Type 0 where
  pub poll_id : String
  pub send : List PollResults
  pub is_closed : Bool

-- The payload is kept as the event whose JSON it is.
pub record Message : Type 0 where
  pub poll_id : String
  pub payload : PollResults

-- A client is a pointer into `heap`. `clients` are the pointers in the map of sets, where a poll
-- without clients has no entry. `targets` are those that the loop of a broadcast has left, of which
-- it takes any one next, as a loop over a map does; `current` is its message. `has_panicked` tells
-- that a closed channel was closed again, or sent on.
pub record Hub : Type 0 where
  pub heap : ℕ → Client
  pub next_pointer : ℕ
  pub clients : List ℕ
  pub register : List ℕ
  pub unregister : List ℕ
  pub broadcast : List Message
  pub targets : List ℕ
  pub current : Message
  pub has_panicked : Bool

abbrev pub send_capacity : ℕ
send_capacity = 256

abbrev pub register_capacity : ℕ
register_capacity = 256

abbrev pub broadcast_capacity : ℕ
broadcast_capacity = 1024

abbrev pub update : (ℕ → Client) → ℕ → Client → ℕ → Client
update heap i c j = if eqb i j then c else heap j

abbrev pub mem : ℕ → List ℕ → Bool
mem i [] = false
mem i (j ∷ rest) = eqb j i || mem i rest

abbrev pub remove : ℕ → List ℕ → List ℕ
remove i xs = filter (λ j. not (eqb j i)) xs

-- NewClient and `hub.Register`, the handler of `ServeWS` after the upgrade.
unfoldable pub connect : String → Hub → Hub
connect poll_id h = record h {
  heap = update h.heap h.next_pointer (record { poll_id = poll_id; send = []; is_closed = false });
  next_pointer = h.next_pointer + 1;
  register = h.register ++ h.next_pointer ∷ [];
}

-- The handler that main.go registers: an event from Redis is broadcast to its poll.
unfoldable pub dispatch : PollResults → Hub → Hub
dispatch event h = record h {
  broadcast = h.broadcast ++ record { poll_id = event.poll_id; payload = event } ∷ [];
}

-- The three cases of `Run`.
unfoldable pub on_register : ℕ → Hub → Hub
on_register c h = record h { clients = if mem c h.clients then h.clients else c ∷ h.clients }

close_send : ℕ → Hub → Hub
close_send c h = record h {
  heap = update h.heap c (record (h.heap c) { is_closed = true });
  has_panicked = h.has_panicked || (h.heap c).is_closed;
}

unfoldable pub on_unregister : ℕ → Hub → Hub
unfolding close_send
on_unregister c h =
    if mem c h.clients then close_send c (record h { clients = remove c h.clients }) else h

unfoldable pub on_broadcast : Message → Hub → Hub
on_broadcast m h = record h {
  targets = filter (λ c. (h.heap c).poll_id == m.poll_id) h.clients;
  current = m;
}

-- One round of the loop over the targets: a client whose buffer is full is unregistered.
unfoldable pub send_to : ℕ → Hub → Hub
send_to c h =
    let client = h.heap c in
    if client.is_closed
    then record h { has_panicked = true }
    else if ltb (length client.send) send_capacity
    then record h {
      heap = update h.heap c (record client { send = client.send ++ h.current.payload ∷ [] });
    }
    else record h { unregister = h.unregister ++ c ∷ [] }

-- The round is not blocked: only a full buffer and a full channel `unregister` block it.
abbrev pub can_send : ℕ → Hub → Bool
can_send c h =
    (h.heap c).is_closed
    || ltb (length (h.heap c).send) send_capacity
    || ltb (length h.unregister) register_capacity

-- What can happen: a connection, the end of a connection, an event from Redis, each where the channel
-- has room; a case of `Run`, which takes from a channel while no broadcast is under way; a round of a
-- broadcast; and a receipt by the `WritePump` of a client.
pub data Turn (h : Hub) : Hub → Type 0 where
  connects : (poll_id : String) → length h.register < register_capacity → Turn h (connect poll_id h)
  leaves :
      (c : ℕ)
      → c < h.next_pointer
      → length h.unregister < register_capacity
      → Turn h (record h { unregister = h.unregister ++ c ∷ [] })
  dispatches :
      (event : PollResults) → length h.broadcast < broadcast_capacity → Turn h (dispatch event h)
  takes_register :
      (c : ℕ) (rest : List ℕ)
      → h.targets ≡ []
      → h.register ≡ c ∷ rest
      → Turn h (on_register c (record h { register = rest }))
  takes_unregister :
      (c : ℕ) (rest : List ℕ)
      → h.targets ≡ []
      → h.unregister ≡ c ∷ rest
      → Turn h (on_unregister c (record h { unregister = rest }))
  takes_broadcast :
      (m : Message) (rest : List Message)
      → h.targets ≡ []
      → h.broadcast ≡ m ∷ rest
      → Turn h (on_broadcast m (record h { broadcast = rest }))
  sends :
      (before : List ℕ) (c : ℕ) (after : List ℕ)
      → h.targets ≡ before ++ c ∷ after
      → can_send c h ≡ true
      → Turn h (send_to c (record h { targets = before ++ after }))
  receives :
      (c : ℕ) (event : PollResults) (rest : List PollResults)
      → (h.heap c).send ≡ event ∷ rest
      → Turn h (record h { heap = update h.heap c (record (h.heap c) { send = rest }) })

pub data Reach (h : Hub) : Hub → Type 0 where
  here : Reach h h
  next : {g k : Hub} → Reach h g → Turn g k → Reach h k

abbrev no_event : PollResults
no_event = record { type = ""; poll_id = ""; counts = none; total_votes = none; timestamp = "" }

-- NewHub
abbrev pub new_hub : Hub
new_hub = record {
  heap = λ c. record { poll_id = ""; send = []; is_closed = false };
  next_pointer = 0;
  clients = [];
  register = [];
  unregister = [];
  broadcast = [];
  targets = [];
  current = record { poll_id = ""; payload = no_event };
  has_panicked = false;
}

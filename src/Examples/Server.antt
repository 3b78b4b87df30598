-- ===== src/Examples/Server.antt =====
-- The server: runs of the hub, and votes.
use hcl_assignment.Common.{
  ℕ, zero, suc, ◌≤◌, false, none, some, List, [], ◌∷◌, ◌≡◌, ◌⊎◌, refl, All, arith,
}
use hcl_assignment.Services.Model.{PollResults}
use hcl_assignment.Realtime.{Hook, Socket, mount}
use hcl_assignment.Realtime.Phases.{Live}
use hcl_assignment.Server.Hub.{
  Hub, Reach, here, next, new_hub, connects, dispatches, takes_register, takes_broadcast, sends,
  connect, dispatch, on_register, on_broadcast, send_to,
}
use hcl_assignment.Server.Hub.Counts.{count}
use hcl_assignment.Server.Hub.Safe.{Inv}
use hcl_assignment.Server.Hub.Fed.{new_hub_safe}
use hcl_assignment.Server.Hub.Jam.{Jammed, Received, Stays, Turn-Jammed}
use hcl_assignment.Server.Feed.{hear, new_hub-heard}
use hcl_assignment.Examples.Databases.{events_wire}

abbrev event : PollResults
event = record {
  type = "POLL_RESULTS_UPDATED";
  poll_id = "p1";
  counts = some (("a", 1) ∷ []);
  total_votes = some 1;
  timestamp = "t";
}

-- A client of the poll connects and is registered; an event comes from Redis, and is sent to it.
abbrev connected : Hub
connected = connect "p1" new_hub

abbrev registered : Hub
registered = on_register 0 (record connected { register = [] })

abbrev dispatched : Hub
dispatched = dispatch event registered

abbrev broadcasting : Hub
broadcasting =
    on_broadcast (record { poll_id = "p1"; payload = event }) (record dispatched { broadcast = [] })

abbrev sent : Hub
sent = send_to 0 (record broadcasting { targets = [] })

sent_reached : Reach new_hub sent
unfolding connect on_register dispatch on_broadcast
sent_reached =
    next
      (next
        (next (next (next here (connects "p1" (omega arith))) (takes_register 0 [] refl refl))
          (dispatches event (omega arith)))
        (takes_broadcast _ [] refl refl))
      (sends [] 0 [] refl refl)

sent_event : (sent.heap 0).send ≡ event ∷ []
unfolding connect on_register dispatch on_broadcast send_to
sent_event = refl

new_hub_safe_example :
    (sent.has_panicked ≡ false)
    × ((c : ℕ) → count c sent.clients ≤ 1)
    × ((c : ℕ) → All (λ e. e.poll_id ≡ (sent.heap c).poll_id) (sent.heap c).send)
new_hub_safe_example = new_hub_safe sent_reached

abbrev hook : Hook
hook = mount (some "p1") none

abbrev socket : Socket
socket = record { id = 0; poll_id = "p1" }

hook-Live : Live hook socket
unfolding mount
hook-Live = ground arith

watched : (sent.heap 0).poll_id ≡ "p1"
unfolding connect on_register dispatch on_broadcast send_to
watched = refl

new_hub-heard_example :
    ((hear events_wire 0 event [] hook).results ≡ some event)
    × (hear events_wire 0 event (event ∷ []) hook ≡ hook)
new_hub-heard_example =
    new_hub-heard events_wire 0 event event [] [] hook socket sent_reached sent_event watched
      hook-Live refl

abbrev replicate {ℓ} : {A : Type ℓ} → ℕ → A → List A
replicate zero a = []
replicate (suc n) a = a ∷ replicate n a

-- The buffer of the only client is full, and so is the channel `unregister`.
abbrev jammed : Hub
jammed = record new_hub {
  heap = λ c. record { poll_id = "p1"; send = replicate 256 event; is_closed = false };
  next_pointer = 1;
  clients = 0 ∷ [];
  unregister = replicate 256 0;
  targets = 0 ∷ [];
  current = record { poll_id = "p1"; payload = event };
}

jammed-Inv : Inv jammed
jammed-Inv = record {
  calm = refl;
  once = λ i. ground arith;
  opened = λ i h. refl;
  known = λ i. ground arith;
  aimed = λ i h. h;
}

jammed-Jammed : Jammed jammed
jammed-Jammed = record {
  some_target = (0, omega arith);
  full = λ i h. (refl, omega arith);
  no_room = omega arith;
}

Turn-Jammed_example : Stays jammed (dispatch event jammed) ⊎ Received jammed (dispatch event jammed)
Turn-Jammed_example = Turn-Jammed jammed-Inv jammed-Jammed (dispatches event (omega arith))

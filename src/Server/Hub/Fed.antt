-- ===== src/Server/Hub/Fed.antt =====
-- A client is sent only events of the poll that it watches.
use hcl_assignment.Common.{
  ℕ, ◌≤◌, ◌<◌, String, false, List, [], ◌∷◌, ◌++◌, ◌≡◌, refl, All, sym, subst, ◌∙◌, All-append, eqb,
  eq_iff, ◌==◌, length, ltb, Bool-cases, inl, inr, arith,
}
use hcl_assignment.Services.Model.{PollResults}
use hcl_assignment.Server.Hub.{
  Hub, Client, Message, mem, update, connect, dispatch, on_register, on_unregister, on_broadcast,
  send_to, send_capacity, Turn, connects, leaves, dispatches, takes_register, takes_unregister,
  takes_broadcast, sends, receives, Reach, here, next, new_hub,
}
use hcl_assignment.Server.Hub.Counts.{count, count-filter}
use hcl_assignment.Server.Hub.Safe.{count-targets, Inv, Turn-Inv, new_hub-Inv}

-- The message is about the poll that it is broadcast to.
abbrev Fits : Message → Type 0
Fits m = m.payload.poll_id ≡ m.poll_id

abbrev IsFed : Client → Type 0
IsFed c = All (λ event. event.poll_id ≡ c.poll_id) c.send

-- What is sent to a client, and what the hub is about to send, is about the client's poll.
pub record Fed (h : Hub) : Type 0 where
  pub fed : (i : ℕ) → IsFed (h.heap i)
  pub waiting : All Fits h.broadcast
  pub fits : Fits h.current
  pub watched : (i : ℕ) → 0 < count i h.targets → (h.heap i).poll_id ≡ h.current.poll_id

-- A change of one client that keeps its poll and its events fed.
update-IsFed :
    (heap : ℕ → Client) (c : ℕ) (client : Client) (i : ℕ)
    → IsFed client
    → IsFed (heap i)
    → IsFed (update heap c client i)
update-IsFed heap c client i new old = elim (Bool-cases (eqb c i)) [
  | inl same ↦ rw same new
  | inr other ↦ rw other old
]

connect-Fed : (p : String) (h : Hub) → Inv h → Fed h → Fed (connect p h)
unfolding connect
connect-Fed p h inv fed = record {
  fed = λ i. update-IsFed h.heap h.next_pointer _ i tt (fed.fed i);
  waiting = fed.waiting;
  fits = fed.fits;
  watched = λ i. ground (arith, fed.watched i, inv.aimed i, inv.known i);
}

dispatch-Fed : (event : PollResults) (h : Hub) → Fed h → Fed (dispatch event h)
unfolding dispatch
dispatch-Fed event h fed = record {
  fed = fed.fed;
  waiting = All-append Fits h.broadcast _ fed.waiting (refl, tt);
  fits = fed.fits;
  watched = fed.watched;
}

on_unregister-Fed :
    (c : ℕ) (rest : List ℕ) (h : Hub)
    → h.targets ≡ []
    → Fed h
    → Fed (on_unregister c (record h { unregister = rest }))
unfolding on_unregister
on_unregister-Fed c rest h free fed = elim (Bool-cases (mem c h.clients)) [
  | inl old ↦ rw old (record {
    fed = λ i. update-IsFed h.heap c _ i (fed.fed c) (fed.fed i);
    waiting = fed.waiting;
    fits = fed.fits;
    watched = λ i. ground (arith, free);
  })
  | inr gone ↦
      rw gone
        (record { fed = fed.fed; waiting = fed.waiting; fits = fed.fits; watched = fed.watched })
]

on_broadcast-Fed :
    (m : Message) (rest : List Message) (h : Hub)
    → h.broadcast ≡ m ∷ rest
    → Fed h
    → Fed (on_broadcast m (record h { broadcast = rest }))
unfolding on_broadcast
on_broadcast-Fed m rest h e fed =
    let all : All Fits (m ∷ rest) = subst (All Fits) e fed.waiting in
    record {
      fed = fed.fed;
      waiting = all.1;
      fits = all.0;
      watched = λ i. ground (
        arith,
        count-filter i (λ c. (h.heap c).poll_id == m.poll_id) h.clients,
        eq_iff (h.heap i).poll_id m.poll_id,
      );
    }

send_to-Fed :
    (before : List ℕ) (c : ℕ) (after : List ℕ) (h : Hub)
    → h.targets ≡ before ++ c ∷ after
    → Fed h
    → Fed (send_to c (record h { targets = before ++ after }))
unfolding send_to
send_to-Fed before c after h e fed =
    let left : (i : ℕ) → 0 < count i (before ++ after) → (h.heap i).poll_id ≡ h.current.poll_id =
      λ i q. ground (arith, fed.watched i, count-targets before c after h i e) in
    let here : (h.heap c).poll_id ≡ h.current.poll_id =
      ground (arith, fed.watched c, count-targets before c after h c e) in
    elim (Bool-cases (h.heap c).is_closed) [
      | inl shut ↦
          rw shut (record { fed = fed.fed; waiting = fed.waiting; fits = fed.fits; watched = left })
      | inr open_still ↦ elim (Bool-cases (ltb (length (h.heap c).send) send_capacity)) [
        | inl room ↦
            rw (open_still, room)
              (record {
                fed = λ i.
                    update-IsFed h.heap c _ i
                      (All-append (λ event. event.poll_id ≡ (h.heap c).poll_id) (h.heap c).send _
                        (fed.fed c) (fed.fits ∙ sym here, tt))
                      (fed.fed i);
                waiting = fed.waiting;
                fits = fed.fits;
                watched = λ i. ground (arith, left i);
              })
        | inr full ↦
            rw (open_still, full)
              (record { fed = fed.fed; waiting = fed.waiting; fits = fed.fits; watched = left })
      ]
    ]

receives-Fed :
    (c : ℕ) (event : PollResults) (rest : List PollResults) (h : Hub)
    → (h.heap c).send ≡ event ∷ rest
    → Fed h
    → Fed (record h { heap = update h.heap c (record (h.heap c) { send = rest }) })
receives-Fed c event rest h e fed =
    let all : All (λ event. event.poll_id ≡ (h.heap c).poll_id) (event ∷ rest) =
      subst (All (λ event. event.poll_id ≡ (h.heap c).poll_id)) e (fed.fed c) in
    record {
      fed = λ i. update-IsFed h.heap c _ i all.1 (fed.fed i);
      waiting = fed.waiting;
      fits = fed.fits;
      watched = λ i. ground (arith, fed.watched i);
    }

Turn-Fed : {g h : Hub} → Turn g h → Inv g → Fed g → Fed h
Turn-Fed {g} (connects p room) inv fed = connect-Fed p g inv fed
Turn-Fed (leaves c old room) inv fed = record {
  fed = fed.fed;
  waiting = fed.waiting;
  fits = fed.fits;
  watched = fed.watched;
}
Turn-Fed {g} (dispatches event room) inv fed = dispatch-Fed event g fed
Turn-Fed (takes_register c rest free e) inv fed =
    unfold on_register in
    record { fed = fed.fed; waiting = fed.waiting; fits = fed.fits; watched = fed.watched }
Turn-Fed {g} (takes_unregister c rest free e) inv fed = on_unregister-Fed c rest g free fed
Turn-Fed {g} (takes_broadcast m rest free e) inv fed = on_broadcast-Fed m rest g e fed
Turn-Fed {g} (sends before c after e ready) inv fed = send_to-Fed before c after g e fed
Turn-Fed {g} (receives c event rest e) inv fed = receives-Fed c event rest g e fed

Reach-Fed : {g h : Hub} → Inv g → Fed g → Reach g h → Inv h × Fed h
Reach-Fed inv fed here = (inv, fed)
Reach-Fed inv fed (next r t) =
    let (inv', fed') = Reach-Fed inv fed r in (Turn-Inv t inv', Turn-Fed t inv' fed')

new_hub-Fed : Fed new_hub
new_hub-Fed = record { fed = λ i. tt; waiting = tt; fits = refl; watched = λ i q. refl }

-- From a new hub, by connections, disconnections, events from Redis, the cases of `Run` and receipts in
-- any order: no channel is closed twice or sent on after it was closed, so that `Run` does not panic; a
-- client stands at most once among the clients; and every event that is sent to a client is about the
-- poll that the client watches.
pub new_hub_safe :
    {h : Hub}
    → Reach new_hub h
    → (h.has_panicked ≡ false)
      × ((c : ℕ) → count c h.clients ≤ 1)
      × ((c : ℕ) → All (λ event. event.poll_id ≡ (h.heap c).poll_id) (h.heap c).send)
new_hub_safe r =
    let (inv, fed) = Reach-Fed new_hub-Inv new_hub-Fed r in
    (inv.calm, λ c. omega (arith, inv.once c), fed.fed)

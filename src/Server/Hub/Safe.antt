-- ===== src/Server/Hub/Safe.antt =====
-- The hub never closes a channel twice and never sends on a closed one, and a client is sent only what
-- happens in its own poll.
use hcl_assignment.Common.{
  ℕ, ◌+◌, ◌≤◌, ◌<◌, String, false, List, [], ◌∷◌, ◌++◌, ◌≡◌, refl, eqb, ◌==◌, if◌then◌else◌, arith,
}
use hcl_assignment.Server.Hub.{
  Hub, Message, connect, dispatch, on_register, on_unregister, on_broadcast, send_to, Turn,
  connects, leaves, dispatches, takes_register, takes_unregister, takes_broadcast, sends, receives,
  Reach, here, next, new_hub,
}
use hcl_assignment.Server.Hub.Counts.{count, count-append, count-remove, count-filter, mem_iff}

abbrev pub places : ℕ → Hub → ℕ
places i h = count i h.clients + count i h.register

-- A pointer stands at most once among the clients and those that wait to be registered, and its
-- channel is open while it does; the loop of a broadcast runs over clients.
pub record Inv (h : Hub) : Type 0 where
  pub calm : h.has_panicked ≡ false
  pub once : (i : ℕ) → places i h ≤ 1
  pub opened : (i : ℕ) → 0 < places i h → (h.heap i).is_closed ≡ false
  pub known : (i : ℕ) → 0 < places i h → i < h.next_pointer
  pub aimed : (i : ℕ) → 0 < count i h.targets → 0 < count i h.clients

connect-Inv : (p : String) (h : Hub) → Inv h → Inv (connect p h)
unfolding connect
connect-Inv p h inv = record {
  calm = inv.calm;
  once =
      λ i. ground (arith, count-append i h.register (h.next_pointer ∷ []), inv.once i, inv.known i);
  opened = λ i. ground (arith, count-append i h.register (h.next_pointer ∷ []), inv.opened i);
  known = λ i. ground (arith, count-append i h.register (h.next_pointer ∷ []), inv.known i);
  aimed = λ i. ground (arith, inv.aimed i);
}

on_register-Inv :
    (c : ℕ) (rest : List ℕ) (h : Hub)
    → h.register ≡ c ∷ rest
    → Inv h
    → Inv (on_register c (record h { register = rest }))
unfolding on_register
on_register-Inv c rest h e inv = record {
  calm = inv.calm;
  once = λ i. ground (arith, inv.once i, mem_iff c h.clients);
  opened = λ i. ground (arith, inv.once c, inv.opened i, mem_iff c h.clients);
  known = λ i. ground (arith, inv.known i, mem_iff c h.clients);
  aimed = λ i. ground (arith, inv.aimed i, mem_iff c h.clients);
}

on_unregister-Inv :
    (c : ℕ) (rest : List ℕ) (h : Hub)
    → h.targets ≡ []
    → Inv h
    → Inv (on_unregister c (record h { unregister = rest }))
unfolding on_unregister
on_unregister-Inv c rest h e inv = record {
  calm = ground (arith, inv.calm, inv.opened c, mem_iff c h.clients);
  once = λ i. ground (arith, inv.once i, count-remove i c h.clients);
  opened = λ i.
      ground (arith, inv.once i, inv.opened i, count-remove i c h.clients, mem_iff c h.clients);
  known = λ i. ground (arith, inv.known i, count-remove i c h.clients);
  aimed = λ i. ground (arith, e);
}

on_broadcast-Inv :
    (m : Message) (rest : List Message) (h : Hub)
    → Inv h
    → Inv (on_broadcast m (record h { broadcast = rest }))
unfolding on_broadcast
on_broadcast-Inv m rest h inv = record {
  calm = inv.calm;
  once = inv.once;
  opened = inv.opened;
  known = inv.known;
  aimed = λ i. ground (arith, count-filter i (λ c. (h.heap c).poll_id == m.poll_id) h.clients);
}

-- A pointer of the rest of a loop, or the one that is taken out of it, was in the loop.
pub count-targets :
    (before : List ℕ) (c : ℕ) (after : List ℕ) (h : Hub) (i : ℕ)
    → h.targets ≡ before ++ c ∷ after
    → count i h.targets ≡ count i (before ++ after) + (if eqb c i then 1 else 0)
count-targets before c after h i e =
    rw e (omega (arith, count-append i before (c ∷ after), count-append i before after))

send_to-Inv :
    (before : List ℕ) (c : ℕ) (after : List ℕ) (h : Hub)
    → h.targets ≡ before ++ c ∷ after
    → Inv h
    → Inv (send_to c (record h { targets = before ++ after }))
unfolding send_to
send_to-Inv before c after h e inv = record {
  calm = ground (arith, inv.calm, inv.aimed c, inv.opened c, count-targets before c after h c e);
  once = λ i. ground (arith, inv.once i);
  opened = λ i. ground (arith, inv.opened i);
  known = λ i. ground (arith, inv.known i);
  aimed = λ i. ground (arith, inv.aimed i, count-targets before c after h i e);
}

pub Turn-Inv : {g h : Hub} → Turn g h → Inv g → Inv h
Turn-Inv {g} (connects p room) inv = connect-Inv p g inv
Turn-Inv (leaves c old room) inv = record {
  calm = inv.calm;
  once = inv.once;
  opened = inv.opened;
  known = inv.known;
  aimed = inv.aimed;
}
Turn-Inv (dispatches event room) inv =
    unfold dispatch in
    record {
      calm = inv.calm;
      once = inv.once;
      opened = inv.opened;
      known = inv.known;
      aimed = inv.aimed;
    }
Turn-Inv {g} (takes_register c rest free e) inv = on_register-Inv c rest g e inv
Turn-Inv {g} (takes_unregister c rest free e) inv = on_unregister-Inv c rest g free inv
Turn-Inv {g} (takes_broadcast m rest free e) inv = on_broadcast-Inv m rest g inv
Turn-Inv {g} (sends before c after e ready) inv = send_to-Inv before c after g e inv
Turn-Inv (receives c event rest e) inv = record {
  calm = inv.calm;
  once = inv.once;
  opened = λ i. ground (arith, inv.opened i);
  known = inv.known;
  aimed = inv.aimed;
}

pub Reach-Inv : {g h : Hub} → Inv g → Reach g h → Inv h
Reach-Inv inv here = inv
Reach-Inv inv (next r t) = Turn-Inv t (Reach-Inv inv r)

pub new_hub-Inv : Inv new_hub
new_hub-Inv = record {
  calm = refl;
  once = λ i. omega arith;
  opened = λ i h. refl;
  known = λ i h. absurd (omega (arith, h));
  aimed = λ i h. absurd (omega (arith, h));
}

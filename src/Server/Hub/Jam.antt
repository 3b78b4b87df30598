-- ===== src/Server/Hub/Jam.antt =====
-- `Run` takes from the channel `unregister`, and in the loop of a broadcast it also sends to it.
use hcl_assignment.Common.{
  ℕ, ◌≤◌, ◌<◌, String, false, [], ◌≡◌, ◌⊎◌, refl, ap, length, inl, inr, Bool-cases, arith,
}
use hcl_assignment.Server.Hub.{
  Hub, Client, mem, connect, dispatch, send_capacity, register_capacity, Turn, connects, leaves,
  dispatches, takes_register, takes_unregister, takes_broadcast, sends, receives,
}
use hcl_assignment.Server.Hub.Counts.{count, mem_iff}
use hcl_assignment.Server.Hub.Safe.{Inv, count-targets}

abbrev pub IsFull : Client → Type 0
IsFull c = (c.is_closed ≡ false) × (send_capacity ≤ length c.send)

-- A broadcast is under way, the buffers of all the targets that are left are full, and so is the
-- channel `unregister`.
pub record Jammed (h : Hub) : Type 0 where
  pub some_target : (c : ℕ) × (0 < count c h.targets)
  pub full : (i : ℕ) → 0 < count i h.targets → IsFull (h.heap i)
  pub no_room : register_capacity ≤ length h.unregister

-- A target has received an event.
abbrev pub Received : Hub → Hub → Type 0
Received g h = (c : ℕ) × (0 < count c g.targets) × (length (h.heap c).send < length (g.heap c).send)

abbrev pub Stays : Hub → Hub → Type 0
Stays g h =
    Jammed h × (h.clients ≡ g.clients) × (h.targets ≡ g.targets) × (h.unregister ≡ g.unregister)

connects-Stays : (p : String) (g : Hub) → Inv g → Jammed g → Stays g (connect p g)
unfolding connect
connects-Stays p g inv jam = (
  record {
    some_target = jam.some_target;
    full = λ i. ground (arith, jam.full i, inv.aimed i, inv.known i);
    no_room = jam.no_room;
  },
  refl,
  refl,
  refl,
)

busy : (g : Hub) → g.targets ≡ [] → Jammed g → ⊥
busy g free jam = let (c, q) = jam.some_target in ground (arith, free)

-- While the hub is jammed, nothing that happens registers a client, removes one or goes on with the
-- broadcast, and the hub stays jammed, unless a client whose buffer is full receives an event.
pub Turn-Jammed : {g h : Hub} → Inv g → Jammed g → Turn g h → Stays g h ⊎ Received g h
Turn-Jammed {g} inv jam (connects p room) = inl (connects-Stays p g inv jam)
Turn-Jammed inv jam (leaves c old room) = absurd (omega (arith, jam.no_room))
Turn-Jammed inv jam (dispatches event room) = inl (
    unfold dispatch in
    (
      record { some_target = jam.some_target; full = jam.full; no_room = jam.no_room },
      refl,
      refl,
      refl,
    ))
Turn-Jammed {g} inv jam (takes_register c rest free e) = absurd (busy g free jam)
Turn-Jammed {g} inv jam (takes_unregister c rest free e) = absurd (busy g free jam)
Turn-Jammed {g} inv jam (takes_broadcast m rest free e) = absurd (busy g free jam)
Turn-Jammed {g} inv jam (sends before c after e ready) =
    absurd (ground (arith, jam.full c, jam.no_room, count-targets before c after g c e))
Turn-Jammed {g} inv jam (receives c event rest e) = elim (Bool-cases (mem c g.targets)) [
  | inl target ↦ inr (c, (mem_iff c g.targets).0 target, ground (arith, ap length e))
  | inr other ↦ inl (
    record {
      some_target = jam.some_target;
      full = λ i. ground (arith, jam.full i, mem_iff c g.targets, other);
      no_room = jam.no_room;
    },
    refl,
    refl,
    refl,
  )
]

-- ===== src/Realtime/Owner.antt =====
-- Which poll the hook is for.
use hcl_assignment.Common.{String, true, Option, none, some, ◌≡◌, refl, arith}
use hcl_assignment.Services.Model.{PollResults}
use hcl_assignment.Realtime.{
  Hook, Event, opened, message, errored, closed, fired, changed, unmounted, initial, step, mount,
  connect, connect_to,
}
use hcl_assignment.Realtime.Unmounted.{IsLate}

-- The two parts of the hook that say which poll it is for, and whether it is mounted.
abbrev pub Owner : Hook → Option String → Type 0
Owner h p = (h.poll_id ≡ p) × (h.mounted ≡ true)

connect_to-Owner :
    (q : String) (h : Hook) (p : Option String) → Owner h p → Owner (connect_to q h) p
unfolding connect_to
connect_to-Owner q h p o = ground (arith, o.0, o.1)

connect-Owner :
    (q : Option String) (h : Hook) (p : Option String) → Owner h p → Owner (connect q h) p
unfolding connect
connect-Owner none h p o = o
connect-Owner (some q) h p o = connect_to-Owner q h p o

pub late-Owner :
    (e : Event) (h : Hook) (p : Option String) → IsLate e → Owner h p → Owner (step e h) p
unfolding step
late-Owner (opened id) h p l o = ground (arith, o.0, o.1)
late-Owner (message id none) h p l o = ground (arith, o.0, o.1)
late-Owner (message id (some m)) h p l o = ground (arith, o.0, o.1)
late-Owner (errored id) h p l o = o
late-Owner (closed id) h p l o = ground (arith, o.0, o.1)
late-Owner (fired id) h p l o = ground (arith, o.0, o.1)
late-Owner (changed q) h p l o = absurd l
late-Owner unmounted h p l o = absurd l
late-Owner (initial value) h p l o = absurd l

pub changed-Owner : (q : Option String) (h : Hook) → Owner (step (changed q) h) q
unfolding step
changed-Owner q h = connect-Owner q _ q (refl, refl)

pub mount-Owner : (q : Option String) (value : Option PollResults) → Owner (mount q value) q
unfolding mount
mount-Owner q value = connect-Owner q _ q (refl, refl)

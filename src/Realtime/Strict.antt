-- ===== src/Realtime/Strict.antt =====
-- main.tsx renders the app in StrictMode: in development React runs each effect of a new component, its
-- cleanup, and the effect again.
use hcl_assignment.Common.{String, Option, List, ◌∷◌, ◌≡◌}
use hcl_assignment.Services.Model.{PollResults}
use hcl_assignment.Realtime.{Hook, Event, changed, cleanup, effect, mount, step, run}
use hcl_assignment.Realtime.Phases.{Inv, step-Inv, mount-Inv}
use hcl_assignment.Realtime.Spec.{view, replay, signals, Shows}
use hcl_assignment.Realtime.Spec.Refines.{start, run-mount_refines}

unfoldable pub strict_mount : Option String → Option PollResults → Hook
unfolding effect cleanup
strict_mount poll_id value = effect poll_id (cleanup (mount poll_id value))

pub strict_mount-Inv : (p : Option String) (value : Option PollResults) → Inv (strict_mount p value)
unfolding strict_mount step
strict_mount-Inv p value = step-Inv (changed p) (mount p value) (mount-Inv p value)

-- A strict mount makes no difference to the promise: from it, by any events in any order, the hook
-- stands for the link that their signals lead to from a fresh one, as after a single mount.
pub strict_mount-run_refines :
    (p : Option String) (value : Option PollResults) (events : List Event)
    → let s = run events (strict_mount p value) in
      (view s ≡ replay (signals events (strict_mount p value)) (start p)) × Shows (view s) s.status
unfolding strict_mount step run signals replay
strict_mount-run_refines p value events = run-mount_refines p value (changed p ∷ events)

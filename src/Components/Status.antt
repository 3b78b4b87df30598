-- ===== src/Components/Status.antt =====
-- components/polls/PollStatus.tsx and components/results/LiveIndicator.tsx
use hcl_assignment.Common.{String, [], ◌∷◌}
use hcl_assignment.Services.Model.{Status, active, closed}
use hcl_assignment.Realtime.{WsStatus, connecting, connected, reconnecting, disconnected}
use hcl_assignment.Ui.{View, el, text, ◌⊕◌, nothing, prop}

unfoldable pub poll_status : {A : Type 0} → Status → View A
poll_status active = el "Badge" (prop "variant" "live" ∷ []) (text "● Live")
poll_status closed = el "Badge" (prop "variant" "secondary" ∷ []) (text "Closed")

abbrev dot : {A : Type 0} → View A → View A
dot v = el "span" [] v

abbrev spot : {A : Type 0} → String → View A
spot colour = el "span" (prop "class" colour ∷ []) nothing

abbrev label : {A : Type 0} → String → String → View A
label colour s = el "span" (prop "class" colour ∷ []) (text s)

indicator : {A : Type 0} → WsStatus → View A
indicator connected =
    dot (spot "bg-green-400 animate-ping" ⊕ spot "bg-green-500") ⊕ label "text-green-600" "Live"
indicator connecting = dot (spot "bg-yellow-400") ⊕ label "text-yellow-600" "Connecting..."
indicator reconnecting =
    dot (spot "bg-orange-400 animate-bounce" ⊕ spot "bg-orange-500")
    ⊕ label "text-orange-600" "Reconnecting..."
indicator disconnected = dot (spot "bg-red-400") ⊕ label "text-red-600" "Offline"

-- No caller passes the optional class name.
unfoldable pub live_indicator : {A : Type 0} → WsStatus → View A
unfolding indicator
live_indicator status = el "div" [] (indicator status)

-- ===== src/Server/Feed.antt =====
-- websocket/client.go: `WritePump` writes what waits in a client's channel as one message of the
-- WebSocket, which hooks/useRealtimePoll.ts parses.
use hcl_assignment.Common.{
  ℕ, Bool, false, Option, none, some, List, [], ◌∷◌, ◌≡◌, ◌∙◌, eq_iff, subst, All, arith,
}
use hcl_assignment.Services.Model.{PollResults}
use hcl_assignment.Realtime.{Hook, Socket, message, step}
use hcl_assignment.Realtime.Phases.{Live}
use hcl_assignment.Server.Hub.{Hub, Reach, new_hub}
use hcl_assignment.Server.Hub.Fed.{new_hub_safe}

-- The JSON texts that go over the connection: json.Marshal of Go, JSON.parse of the browser, and two
-- texts with a newline between them. A text is blank if it has nothing but white space. JSON.parse
-- reads what json.Marshal writes, and throws on a value that a newline and more text follow.
pub record Wire : Type 1 where
  pub Text : Type 0
  pub marshal : PollResults → Text
  pub parse : Text → Option PollResults
  pub line : Text → Text → Text
  pub is_blank : Text → Bool
  pub parse-marshal : (event : PollResults) → parse (marshal event) ≡ some event
  pub marshal_written : (event : PollResults) → is_blank (marshal event) ≡ false
  pub line_written : (s t : Text) → is_blank t ≡ false → is_blank (line s t) ≡ false
  pub parse-line :
      (event : PollResults) (t : Text) → is_blank t ≡ false → parse (line (marshal event) t) ≡ none

module _ (wire : Wire) where
  -- The first event, and those that wait behind it, each after a newline.
  unfoldable pub frame : PollResults → List PollResults → wire.Text
  frame event [] = wire.marshal event
  frame event (later ∷ rest) = wire.line (wire.marshal event) (frame later rest)

  frame_written :
      (event : PollResults) (rest : List PollResults) → wire.is_blank (frame event rest) ≡ false
  unfolding frame
  frame_written event [] = wire.marshal_written event
  frame_written event (later ∷ rest) = wire.line_written _ _ (frame_written later rest)

  -- What the hook does with the message.
  abbrev pub hear : ℕ → PollResults → List PollResults → Hook → Hook
  hear id event rest s = step (message id (wire.parse (frame event rest))) s

  hear_one :
      (s : Hook) (w : Socket) (event : PollResults)
      → Live s w
      → event.type ≡ "POLL_RESULTS_UPDATED"
      → event.poll_id ≡ w.poll_id
      → (hear w.id event [] s).results ≡ some event
  unfolding step frame
  hear_one s w event live type poll = rw (wire.parse-marshal event) (
      ground (
        arith,
        live.only,
        live.on,
        eq_iff event.type "POLL_RESULTS_UPDATED",
        eq_iff event.poll_id w.poll_id,
      ))

  hear_more :
      (s : Hook) (w : Socket) (event later : PollResults) (rest : List PollResults)
      → Live s w
      → hear w.id event (later ∷ rest) s ≡ s
  unfolding step frame
  hear_more s w event later rest live =
      rw (wire.parse-line event (frame later rest) (frame_written later rest))
        (ground (arith, live.only))

  -- In every state that the hub reaches, take a client that a browser's live socket is connected to, and
  -- the next event for it, one of the type that the hook reads. Written alone, the event becomes the
  -- hook's results. Written as one message with the events that wait behind it, it leaves the hook as
  -- it was, and so do they: none of them is shown.
  pub new_hub-heard :
      {h : Hub} (c : ℕ) (event later : PollResults) (waiting rest : List PollResults) (s : Hook)
      (w : Socket)
      → Reach new_hub h
      → (h.heap c).send ≡ event ∷ waiting
      → (h.heap c).poll_id ≡ w.poll_id
      → Live s w
      → event.type ≡ "POLL_RESULTS_UPDATED"
      → ((hear w.id event [] s).results ≡ some event) × (hear w.id event (later ∷ rest) s ≡ s)
  new_hub-heard {h} c event later waiting rest s w reached next watched live type =
      let fed : All (λ e. e.poll_id ≡ (h.heap c).poll_id) (event ∷ waiting) =
        subst (All (λ e. e.poll_id ≡ (h.heap c).poll_id)) next ((new_hub_safe reached).2 c) in
      (hear_one s w event live type (fed.0 ∙ watched), hear_more s w event later rest live)

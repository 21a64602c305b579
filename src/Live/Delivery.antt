-- ===== src/Live/Delivery.antt =====
-- `deliverLive` of internal/http/handlers_messages.go: the delivery and the event of each plan.
use intermute.Base.{
  ℕ, suc, Bool, false, ◌||◌, Option, none, some, List, [], ◌∷◌, ◌++◌, if◌then◌else◌, Text, text_eq,
  codes, Map, put,
}
use intermute.Memory.{Message, Event}
use intermute.Envelope.{wrap_envelope}
use intermute.Messages.{event_peer_window_poke, poke_result_deferred, poke_result_injected}
use intermute.Live.{
  transport_live, poke_result_failed, Outside, RecipientPlan, Deliver, deliver_async, deliver_defer,
  deliver_inject,
}

-- The event about one recipient of a message that is sent on.
abbrev pub poke_event : Text → Message → ℕ → Text → Map Text → Event
poke_event project msg at agent metadata = record {
  type = event_peer_window_poke;
  agent = agent;
  project = project;
  message = record {
    id = msg.id;
    thread_id = [];
    project = project;
    from = msg.from;
    to = agent ∷ [];
    cc = [];
    bcc = [];
    subject = [];
    topic = [];
    body = msg.body;
    metadata = metadata;
    importance = [];
    transport = msg.transport;
    ack_required = false;
    status = [];
    created_at = at;
    cursor = 0;
  };
  created_at = 0;
}

abbrev pub poke_metadata : Text → Text → Map Text
poke_metadata result reason = (codes "poke_result", result) ∷ (codes "poke_reason", reason) ∷ []

abbrev pub delivery_failed_text : Text
delivery_failed_text = codes "failed"

abbrev pub delivery_deferred : Text
delivery_deferred = codes "deferred"

-- After an inject: `none` is success, `some` the text of the error.
unfoldable pub inject_one : Text → Message → Text → ℕ → Text → Option Text → Text × List Event
inject_one project msg transport at agent none = (
  codes "injected",
  poke_event project msg at agent ((codes "poke_result", poke_result_injected) ∷ []) ∷ [],
)
inject_one project msg transport at agent (some why) =
    if text_eq transport transport_live
    then (
      delivery_failed_text,
      poke_event project msg at agent (poke_metadata poke_result_failed why) ∷ [],
    )
    else (
      delivery_deferred,
      poke_event project msg at agent
            (poke_metadata poke_result_deferred (codes "inject_failed: " ++ why))
          ∷ [],
    )

-- One turn of the loop of `deliverLive`: the delivery that is reported, and the events.
unfoldable pub deliver_one :
    Outside → Text → Message → Text → ℕ → Text → Text → Deliver → Text × List Event
unfolding inject_one wrap_envelope
deliver_one o project msg transport n agent focus deliver_async = (codes "async", [])
deliver_one o project msg transport n agent focus deliver_defer = (
  delivery_deferred,
  poke_event project msg (Outside.clock o n) agent
        (poke_metadata poke_result_deferred (codes "recipient_" ++ focus))
      ∷ [],
)
deliver_one o project msg transport n agent focus (deliver_inject target) =
    inject_one project msg transport (Outside.clock o n) agent
      (Outside.deliver o n target (wrap_envelope msg.from msg.thread_id msg.body))

-- A recipient that is named twice is reported once, by its last delivery.
unfoldable pub deliver_live :
    Outside → Text → Message → Text → ℕ → List RecipientPlan → Map Text → Map Text × List Event
deliver_live o project msg transport n [] deliveries = (deliveries, [])
deliver_live o project msg transport n (plan ∷ plans) deliveries =
    let one = deliver_one o project msg transport n plan.agent plan.focus_state plan.deliver in
    let rest =
      deliver_live o project msg transport (suc n) plans (put plan.agent one.0 deliveries) in
    (rest.0, one.1 ++ rest.1)

unfoldable pub has_failed_delivery : Map Text → Bool
has_failed_delivery [] = false
has_failed_delivery ((agent, delivery) ∷ rest) =
    text_eq delivery delivery_failed_text || has_failed_delivery rest

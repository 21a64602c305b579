-- ===== src/Live/Send.antt =====
-- `handleSendMessage` of internal/http/handlers_messages.go, on a decoded request: the gate of
-- Contact, the limiter, the plans, the deliveries, and the append to the tables of Messages. Driver
-- errors of the append are left out.
use intermute.Base.{
  ℕ, Bool, true, false, not, ◌||◌, List, [], ◌∷◌, map, if◌then◌else◌, Text, text_eq, is_empty, Map,
  Result, ok, err,
}
use intermute.Memory.{Message, Event, event_message_created}
use intermute.Auth.{Info, mode_localhost, mode_api_key}
use intermute.Contact.{
  Lookups, SendMessageRequest, AllowedRecipients, valid_transport, resolve_transport,
  resolve_allowed_recipients,
}
use intermute.Resilience.Limiter.{RateLimiter}
use intermute.Messages.{Tables, append_all}
use intermute.Live.{
  transport_live, Windows, Outside, RecipientPlan, enforce_live_rate_limit, build_send_message,
  resolve_recipient_plans,
}
use intermute.Live.Delivery.{deliver_live, has_failed_delivery}

-- A response without deliveries has none, one delivery is written alone.
pub data SendResponse : Type 0 where
  invalid_transport : SendResponse
  policy_denied : List Text → SendResponse
  rate_limited : SendResponse
  recipient_busy : Text → Text → SendResponse
  delivery_failed : Map Text → SendResponse
  delivered : Map Text → List Text → SendResponse
  sent : Text → ℕ → List Text → Map Text → SendResponse

-- A message on the bus: the agent, the message's id, its cursor.
pub record Broadcast : Type 0 where
  pub project : Text
  pub agent : Text
  pub message_id : Text
  pub cursor : ℕ

-- What a send leaves behind.
pub record Outcome : Type 0 where
  pub response : SendResponse
  pub broadcasts : List Broadcast
  pub limiter : RateLimiter
  pub tables : Tables

abbrev pub refused : SendResponse → RateLimiter → Tables → Outcome
refused response l db = record { response = response; broadcasts = []; limiter = l; tables = db }

abbrev pub is_empty_events : List Event → Bool
is_empty_events [] = true
is_empty_events (ev ∷ evs) = false

abbrev first_cursor : List ℕ → ℕ
first_cursor [] = 0
first_cursor (c ∷ cs) = c

-- Each event with the reading of the clock that its append takes.
abbrev pub clocked : ℕ → List Event → List (ℕ × Event)
clocked now evs = map (λ ev. (now, ev)) evs

module _ (trim_space to_lower : Text → Text) where
  unfoldable pub respond_live :
      ℕ → List Event → Map Text → List Text → RateLimiter → Tables → Outcome
  unfolding has_failed_delivery
  respond_live now pokes deliveries denied l db =
      if is_empty_events pokes || has_failed_delivery deliveries
      then refused (delivery_failed deliveries) l db
      else record {
        response = delivered deliveries denied;
        broadcasts = [];
        limiter = l;
        tables = (append_all trim_space to_lower (clocked now pokes) db).1;
      }

  unfoldable pub respond_durable :
      ℕ → Text → Message → List Event → Map Text → List Text → RateLimiter → Tables → Outcome
  respond_durable now project msg pokes deliveries denied l db =
      let created : Event = record {
        type = event_message_created;
        agent = [];
        project = project;
        message = msg;
        created_at = 0;
      } in
      let done = append_all trim_space to_lower (clocked now (created ∷ pokes)) db in
      let cursor = first_cursor done.0 in
      record {
        response = sent msg.id cursor denied deliveries;
        broadcasts =
            map
              (λ agent. record {
                project = project;
                agent = agent;
                message_id = msg.id;
                cursor = cursor;
              })
              msg.to;
        limiter = l;
        tables = done.1;
      }

  -- From the plans on.
  unfoldable pub send_planned :
      Outside
      → ℕ
      → Text
      → Message
      → Text
      → List Text
      → Result (Text × Text) (List RecipientPlan)
      → RateLimiter
      → Tables
      → Outcome
  unfolding deliver_live respond_live respond_durable
  send_planned o now project msg transport denied (err busy) l db =
      refused (recipient_busy busy.0 busy.1) l db
  send_planned o now project msg transport denied (ok plans) l db =
      let live = deliver_live o project msg transport 0 plans [] in
      if text_eq transport transport_live
      then respond_live now live.1 live.0 denied l db
      else respond_durable now project msg live.1 live.0 denied l db

  -- From the gate on.
  unfoldable pub send_allowed :
      Windows
      → Outside
      → Text
      → ℕ
      → SendMessageRequest
      → Text
      → Text
      → Result (List Text) AllowedRecipients
      → RateLimiter
      → Tables
      → Outcome
  unfolding enforce_live_rate_limit resolve_recipient_plans build_send_message send_planned
  send_allowed w o new_id now req project transport (err denied) l db =
      refused (policy_denied denied) l db
  send_allowed w o new_id now req project transport (ok allowed) l db =
      let spent = enforce_live_rate_limit now req.from allowed.to transport l in
      if not spent.0
      then refused rate_limited spent.1 db
      else send_planned o now project (build_send_message new_id now req project transport allowed)
          transport allowed.denied
          (resolve_recipient_plans trim_space w req.target_window_uuid transport allowed.to) spent.1
          db

  -- `handleSendMessage` from the decoded request on.
  unfoldable pub handle_send_message :
      (Text → Lookups)
      → Windows
      → Outside
      → Text
      → ℕ
      → SendMessageRequest
      → RateLimiter
      → Tables
      → Outcome
  unfolding resolve_transport resolve_allowed_recipients send_allowed
  handle_send_message lookups w o new_id now req l db =
      let project = trim_space req.project in
      let transport = resolve_transport (lookups project) req.transport in
      if not (valid_transport transport)
      then refused invalid_transport l db
      else send_allowed w o new_id now req project transport
          (resolve_allowed_recipients (lookups project) req transport) l db

-- `parseSendRequest` on a decoded body. With an API key the project is that of the key.
pub data ParseError : Type 0 where
  bad_request : ParseError
  forbidden : ParseError

abbrev pub no_texts : List Text → Bool
no_texts [] = true
no_texts (t ∷ ts) = false

unfoldable pub parse_send_request :
    (Text → Text) → Info → SendMessageRequest → Result ParseError SendMessageRequest
parse_send_request trim_space info req =
    if is_empty (trim_space req.from) || no_texts req.to then err bad_request else elim info.mode [
      | mode_localhost ↦ ok req
      | mode_api_key ↦
          if is_empty (trim_space req.project)
          then err bad_request
          else if text_eq req.project info.project
          then ok req
          else err forbidden
    ]

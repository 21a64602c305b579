-- ===== src/Handlers/Writing.antt =====
-- The handlers that write to the message tables: `handleMessageAction`, `handleBroadcast` and
-- `ackInboxPoke`.
use intermute.Base.{
  ℕ, false, not, ◌||◌, List, [], ◌++◌, map, filter, length, if◌then◌else◌, Text, text_eq, codes,
  is_empty, Result, ok, err,
}
use intermute.Auth.{Info, mode_localhost, mode_api_key}
use intermute.Memory.{Message, Event, Agent, event_message_created}
use intermute.Contact.{Lookups, filter_by_policy}
use intermute.Resilience.Limiter.{RateLimiter, allow}
use intermute.Messages.{Tables, append_event_tx}
use intermute.Messages.Receipts.{ReceiptError, mark_read, mark_ack, mark_poke_surfaced}
use intermute.Registry
use intermute.Live.Send.{Broadcast, no_texts}
use intermute.Handlers.{
  HandlerError, bad_request, forbidden, rate_limited, policy_denied, project_or_query,
}
use intermute.Handlers.Reading.{inbox_poke_scope}

-- The action of a path /api/messages/{id}/{action}; any other is not found.
pub data Action : Type 0 where
  ack_action : Action
  read_action : Action

abbrev action_type : Action → Text
action_type ack_action = codes "message.ack"
action_type read_action = codes "message.read"

abbrev empty_message : Message
empty_message = record {
  id = [];
  thread_id = [];
  project = [];
  from = [];
  to = [];
  cc = [];
  bcc = [];
  subject = [];
  topic = [];
  body = [];
  metadata = [];
  importance = [];
  transport = [];
  ack_required = false;
  status = [];
  created_at = 0;
  cursor = 0;
}

-- An error of the receipt is not looked at.
abbrev kept_or : Tables → Result ReceiptError Tables → Tables
kept_or db (ok next) = next
kept_or db (err e) = db

mark_action : Action → Text → Text → Text → ℕ → Tables → Tables
unfolding mark_read mark_ack
mark_action read_action project id agent now db = kept_or db (mark_read project id agent now db)
mark_action ack_action project id agent now db = kept_or db (mark_ack project id agent now db)

module _ (trim_space to_lower : Text → Text) where
  -- The agent of the body, or else of the query.
  unfoldable pub handle_message_action :
      Info → Text → Action → Text → Text → Text → ℕ → Tables → Tables
  unfolding mark_action append_event_tx
  handle_message_action info query action id body_agent query_agent now db =
      let project = project_or_query trim_space info query in
      let agent = if is_empty body_agent then query_agent else body_agent in
      let marked = if is_empty agent then db else mark_action action project id agent now db in
      let ev : Event = record {
        type = action_type action;
        agent = agent;
        project = project;
        message = record empty_message { id = id; project = project };
        created_at = 0;
      } in
      (append_event_tx trim_space to_lower now ev marked).1

-- The body of a broadcast.
pub record BroadcastRequest : Type 0 where
  pub from : Text
  pub project : Text
  pub topic : Text
  pub body : Text
  pub subject : Text

-- The message, its cursor, the recipients and the denied; `none` where there is nobody to send to.
pub record BroadcastResponse : Type 0 where
  pub message_id : Text
  pub cursor : ℕ
  pub delivered : ℕ
  pub denied : List Text

abbrev nobody : BroadcastResponse
nobody = record { message_id = []; cursor = 0; delivered = 0; denied = [] }

-- The project of the broadcast; with an API key it is there, and that of the key.
unfoldable pub broadcast_project :
    (Text → Text) → Info → BroadcastRequest → Result HandlerError Text
broadcast_project trim_space info req =
    let project = trim_space req.project in
    if is_empty (trim_space req.from)
      || (is_empty (trim_space req.topic) || is_empty (trim_space req.body))
    then err bad_request
    else elim info.mode [
      | mode_localhost ↦ ok project
      | mode_api_key ↦
          if is_empty project
          then err bad_request
          else if text_eq project info.project
          then ok project
          else err forbidden
    ]

-- All agents but the sender.
unfoldable pub broadcast_to : Text → List Agent → List Text
broadcast_to from agents = filter (λ id. not (text_eq id from)) (map (λ (a : Agent). a.id) agents)

abbrev broadcast_message : BroadcastRequest → Text → Text → ℕ → List Text → Message
broadcast_message req project id now to = record empty_message {
  id = id;
  project = project;
  from = req.from;
  to = to;
  subject = req.subject;
  topic = req.topic;
  body = req.body;
  created_at = now;
}

pub record BroadcastOutcome : Type 0 where
  pub response : Result HandlerError BroadcastResponse
  pub broadcasts : List Broadcast
  pub limiter : RateLimiter
  pub tables : Tables

abbrev stopped : Result HandlerError BroadcastResponse → RateLimiter → Tables → BroadcastOutcome
stopped response l db = record { response = response; broadcasts = []; limiter = l; tables = db }

module _ (trim_space to_lower : Text → Text) where
  -- To the recipients that the policies let the sender write to.
  unfoldable pub broadcast_allowed :
      BroadcastRequest
      → Text
      → Text
      → ℕ
      → List Text
      → List Text
      → RateLimiter
      → Tables
      → BroadcastOutcome
  unfolding append_event_tx
  broadcast_allowed req project new_id now allowed denied l db =
      let ev : Event = record {
        type = event_message_created;
        agent = [];
        project = project;
        message = broadcast_message req project new_id now allowed;
        created_at = 0;
      } in
      let done = append_event_tx trim_space to_lower now ev db in
      if no_texts allowed then stopped (err (policy_denied denied)) l db else record {
        response = ok (record {
          message_id = new_id;
          cursor = done.0;
          delivered = length allowed;
          denied = denied;
        });
        broadcasts =
            map
              (λ agent. record {
                project = project;
                agent = agent;
                message_id = new_id;
                cursor = done.0;
              })
              allowed;
        limiter = l;
        tables = done.1;
      }

  unfoldable pub handle_broadcast :
      (Text → Lookups)
      → List Agent
      → Info
      → Text
      → ℕ
      → BroadcastRequest
      → RateLimiter
      → Tables
      → BroadcastOutcome
  unfolding Registry.list_agents broadcast_project broadcast_to filter_by_policy broadcast_allowed
      allow
  handle_broadcast lookups agents info new_id now req l db =
      elim (broadcast_project trim_space info req) [
        | err e ↦ stopped (err e) l db
        | ok project ↦
            let spent = allow now (project ++ codes ":" ++ req.from) l in
            let to = broadcast_to req.from (Registry.list_agents project [] agents) in
            let gated = filter_by_policy (lookups project) req.from [] to in
            if not spent.0
            then stopped (err rate_limited) spent.1 db
            else if no_texts to
            then stopped (ok nobody) spent.1 db
            else broadcast_allowed req project new_id now gated.0 gated.1 spent.1 db
      ]

-- The id of the path /api/inbox/pokes/{id}/ack.
unfoldable pub ack_inbox_poke :
    (Text → Text) → Info → Text → Text → Text → ℕ → Tables → Result HandlerError Tables
unfolding inbox_poke_scope mark_poke_surfaced
ack_inbox_poke trim_space info query agent message_id now db =
    elim (inbox_poke_scope trim_space info query agent) [
      | err e ↦ err e
      | ok scope ↦
          if is_empty message_id
          then err bad_request
          else ok (mark_poke_surfaced scope.0 scope.1 message_id now db)
    ]

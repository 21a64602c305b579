-- ===== src/Live.antt =====
-- The plans of a send over the live transport: internal/http/handlers_messages.go, on the limiter of
-- internal/http/service.go. `Windows` is what the store answers about focus and windows; `Outside`
-- is the delivery into a terminal and the clock, for the n-th plan of a send.
pub mod Delivery
pub mod Send
pub mod Outcomes
pub mod Deferred
pub mod Refused
use intermute.Base.{
  ℕ, zero, suc, ◌+◌, Bool, true, false, not, ◌&&◌, ◌||◌, Option, none, some, List, [], ◌∷◌, ◌++◌,
  map, if◌then◌else◌, Text, text_eq, codes, is_empty, Map, put, Result, ok, err,
}
use intermute.Memory.Agents.{WindowIdentity}
use intermute.Memory.{Message, Event, event_message_created}
use intermute.Auth.{Mode, Info}
use intermute.Contact.{
  LookupError, Lookups, SendMessageRequest, AllowedRecipients, transport_async, valid_transport,
  resolve_transport, resolve_allowed_recipients,
}
use intermute.Envelope.{wrap_envelope}
use intermute.Resilience.Limiter.{RateLimiter, allow}
use intermute.Messages.{
  Tables, event_peer_window_poke, poke_result_deferred, poke_result_injected, append_all,
}

abbrev pub transport_live : Text
transport_live = codes "live"

abbrev pub focus_at_prompt : Text
focus_at_prompt = codes "at-prompt"

abbrev pub focus_unknown : Text
focus_unknown = codes "unknown"

abbrev pub poke_result_failed : Text
poke_result_failed = codes "failed"

pub record WindowTarget : Type 0 where
  pub agent_id : Text
  pub tmux_target : Text

pub record Windows : Type 0 where
  pub focus_state : Text → Result LookupError Text
  pub lookup_window : Text → Result LookupError (Option WindowIdentity)
  pub list_windows : Result LookupError (List WindowIdentity)

-- The text of the error of a delivery that fails.
pub record Outside : Type 0 where
  pub deliver : ℕ → WindowTarget → Text → Option Text
  pub clock : ℕ → ℕ

-- "async", "defer", and "inject" with its target.
pub data Deliver : Type 0 where
  deliver_async : Deliver
  deliver_defer : Deliver
  deliver_inject : WindowTarget → Deliver

pub record RecipientPlan : Type 0 where
  pub agent : Text
  pub focus_state : Text
  pub deliver : Deliver

-- `enforceLiveRateLimit`; what was spent before the recipient that is refused stays spent.
unfoldable pub enforce_live_rate_limit :
    ℕ → Text → List Text → Text → RateLimiter → Bool × RateLimiter
unfolding allow
enforce_live_rate_limit now from [] transport l = (true, l)
enforce_live_rate_limit now from (r ∷ rs) transport l =
    let one = allow now (from ++ codes ":" ++ r) l in
    let rest = enforce_live_rate_limit now from rs transport one.1 in
    if text_eq transport transport_async then (true, l) else if one.0 then rest else (false, one.1)

unfoldable pub build_send_message :
    Text → ℕ → SendMessageRequest → Text → Text → AllowedRecipients → Message
build_send_message new_id now req project transport allowed = record {
  id = if is_empty req.id then new_id else req.id;
  thread_id = req.thread_id;
  project = project;
  from = req.from;
  to = allowed.to;
  cc = allowed.cc;
  bcc = allowed.bcc;
  subject = req.subject;
  topic = req.topic;
  body = req.body;
  metadata = [];
  importance = req.importance;
  transport = transport;
  ack_required = req.ack_required;
  status = [];
  created_at = now;
  cursor = 0;
}

module _ (trim_space : Text → Text) where
  abbrev usable : Text → WindowIdentity → Bool
  usable agent_id wi = text_eq wi.agent_id agent_id && not (is_empty (trim_space wi.tmux_target))

  abbrev target_of : Text → WindowIdentity → WindowTarget
  target_of agent_id wi = record { agent_id = agent_id; tmux_target = wi.tmux_target }

  first_usable : Text → List WindowIdentity → Option WindowTarget
  first_usable agent_id [] = none
  first_usable agent_id (wi ∷ windows) =
      let rest = first_usable agent_id windows in
      if usable agent_id wi then some (target_of agent_id wi) else rest

  -- `none` where there is no target, or the store fails.
  unfoldable pub resolve_target : Windows → Text → Text → Option WindowTarget
  unfolding first_usable
  resolve_target w agent_id requested =
      if is_empty (trim_space requested)
      then (elim (Windows.list_windows w) [
        | ok windows ↦ first_usable agent_id windows
        | err e ↦ none
      ])
      else (elim (Windows.lookup_window w requested) [
        | ok none ↦ none
        | ok (some wi) ↦ if usable agent_id wi then some (target_of agent_id wi) else none
        | err e ↦ none
      ])

  focus_of : Windows → Text → Text
  focus_of w recipient = elim (Windows.focus_state w recipient) [
    | ok state ↦ if is_empty state then focus_unknown else state
    | err e ↦ focus_unknown
  ]

  -- `none` is busy: over transport "live" a recipient that cannot be reached now stops the send.
  unfoldable pub plan_of : Windows → Text → Text → Text → Option RecipientPlan
  unfolding focus_of resolve_target
  plan_of w requested transport recipient =
      let focus = focus_of w recipient in
      let deferred : RecipientPlan = record {
        agent = recipient;
        focus_state = focus;
        deliver = deliver_defer;
      } in
      let unreachable = if text_eq transport transport_live then none else some deferred in
      if text_eq transport transport_async
      then some (record { agent = recipient; focus_state = []; deliver = deliver_async })
      else if text_eq focus focus_at_prompt
      then (elim (resolve_target w recipient requested) [
        | none ↦ unreachable
        | some target ↦
            some
              (record { agent = recipient; focus_state = focus; deliver = deliver_inject target })
      ])
      else unreachable

  -- The error is the agent that is busy, and its focus.
  unfoldable pub resolve_recipient_plans :
      Windows → Text → Text → List Text → Result (Text × Text) (List RecipientPlan)
  unfolding plan_of focus_of
  resolve_recipient_plans w requested transport [] = ok []
  resolve_recipient_plans w requested transport (r ∷ rs) =
      let rest = resolve_recipient_plans w requested transport rs in
      elim (plan_of w requested transport r) [
        | none ↦ err (r, focus_of w r)
        | some plan ↦ elim rest [ ok plans ↦ ok (plan ∷ plans) | err busy ↦ err busy ]
      ]

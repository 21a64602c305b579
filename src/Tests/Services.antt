-- ===== src/Tests/Services.antt =====
-- The theorems on the store in memory, the contact policies and the middleware at concrete inputs.
use intermute.Base.{
  ◌+◌, ◌≡◌, ◌<◌, ◌↔◌, ◌^◌, ◌++◌, refl, inl, true, false, Option, none, some, List, [], ◌∷◌, codes,
  Text, text_eq, length, filter, Mem, find, put, find_or, is_empty, if◌then◌else◌, ok, err, arith,
}
use intermute.Contact.{
  gate_to, check_policy, Lookups, LookupError, policy_block_all, policy_contacts_only,
  sender_allowed, filter_by_policy, SendMessageRequest, transport_async,
}
use intermute.Contact.Policies.{Welcome, WelcomeLive}
use intermute.Contact.Filter.{filter_by_policy-allowed}
use intermute.Contact.Fields.{gate_to-live}
use intermute.Auth.{Env, HttpRequest, Info, mode_api_key, middleware}
use intermute.Auth.Identity.{Shown, middleware-Shown, middleware-owner}
use intermute.Memory.{
  Message, Event, Agent, InMemory, new_in_memory, event_message_created, event_project, recipients,
  stamped, append_event, append_events, inbox_of, inbox_since, thread_messages, in_thread, values,
}
use intermute.Memory.Order.{Sorted, SameMembers, thread_messages_lem}
use intermute.Memory.Delivery.{copies, append_event-inbox_of}
use intermute.Memory.Inboxes.{count_from, append_events-count_from}
use intermute.Memory.Pages.{Page, inbox_since-Page}
use intermute.Memory.Agents.{
  WindowIdentity, agent_at, agent_for_token, upsert_window_identity_with_token,
  upsert_window_identity_with_token-owner, set_contact_policy, get_contact_policy,
  set_contact_policy-get,
}

abbrev ada : Text
ada = codes "ada"

abbrev bob : Text
bob = codes "bob"

-- Everybody takes messages from contacts alone, and everybody is a contact of bob's.
abbrev lookups : Lookups
lookups = record {
  get_contact_policy = λ recipient. ok policy_contacts_only;
  get_live_contact_policy = λ recipient. ok policy_contacts_only;
  is_contact = λ recipient sender. ok (text_eq recipient bob);
  is_thread_participant = λ thread_id sender. err LookupError.lookup_error;
  has_reservation_overlap = λ a b. ok false;
  live_transport_enabled = ok true;
}

filter_by_policy-allowed_example :
    Mem bob (filter_by_policy lookups ada [] (ada ∷ bob ∷ [])).0
    ↔ (Mem bob (ada ∷ bob ∷ []) × Welcome lookups ada bob [])
filter_by_policy-allowed_example = filter_by_policy-allowed lookups ada [] bob (ada ∷ bob ∷ [])

-- Both sides hold: bob is let through, as ada is a contact of his.
bob_allowed : Mem bob (filter_by_policy lookups ada [] (ada ∷ bob ∷ [])).0
unfolding filter_by_policy check_policy sender_allowed text_eq
bob_allowed = inl refl

abbrev to_both : SendMessageRequest
to_both = record {
  id = [];
  thread_id = [];
  project = [];
  from = ada;
  to = ada ∷ bob ∷ [];
  cc = [];
  bcc = ada ∷ [];
  subject = [];
  topic = [];
  body = [];
  importance = [];
  transport = [];
  target_window_uuid = [];
  ack_required = false;
}

live_not_async : text_eq (codes "live") transport_async ≡ false
unfolding text_eq
live_not_async = refl

gate_to-live_example :
    Mem bob (gate_to lookups to_both (codes "live")).0
    ↔ (Mem bob (ada ∷ bob ∷ []) × WelcomeLive lookups ada bob [])
gate_to-live_example = gate_to-live lookups to_both (codes "live") bob live_not_async

abbrev as_it_is : Text → Text
as_it_is s = s

-- Token `t` is bound to ada, and key `k` to project `p`.
abbrev lookup : Text → Option Text
lookup token = if text_eq token (codes "t") then some ada else none

abbrev env : Env
env = record {
  trim_space = as_it_is;
  equal_fold = text_eq;
  project_for_key = λ key. if text_eq key (codes "k") then some (codes "p") else none;
  lookup_token = some lookup;
  allow_localhost_without_auth = true;
}

abbrev request : HttpRequest
request = record {
  x_agent_id = ada;
  x_agent_token = codes "t";
  authorization = codes "Bearer k";
  is_local = false;
}

abbrev info : Info
info = record { mode = mode_api_key; project = codes "p"; agent_id = ada; localhost = false }

ada_let_in : middleware env request ≡ ok info
unfolding middleware text_eq
ada_let_in = refl

middleware-Shown_example : Shown env request info
middleware-Shown_example = middleware-Shown env request info ada_let_in

token_bound : lookup (codes "t") ≡ some ada
unfolding text_eq
token_bound = refl

middleware-owner_example : Info.agent_id info ≡ ada
middleware-owner_example =
    middleware-owner env request info lookup ada refl refl token_bound ada_let_in

abbrev message : Message
message = record {
  id = codes "m1";
  thread_id = codes "th";
  project = codes "p";
  from = ada;
  to = bob ∷ [];
  cc = [];
  bcc = [];
  subject = [];
  topic = [];
  body = codes "hello";
  metadata = [];
  importance = [];
  transport = transport_async;
  ack_required = false;
  status = [];
  created_at = 5;
  cursor = 0;
}

abbrev sent : Event
sent = record {
  type = event_message_created;
  agent = [];
  project = codes "p";
  message = message;
  created_at = 5;
}

abbrev two_sent : List Event
two_sent = sent ∷ sent ∷ []

two_fit : length two_sent < 2 ^ 64
two_fit = omega arith

inbox_since-Page_example :
    Page
      (inbox_of (codes "p") bob (append_events two_sent new_in_memory).1)
      1
      5
      (inbox_since (codes "p") bob 1 5 (append_events two_sent new_in_memory).1)
inbox_since-Page_example = inbox_since-Page two_sent two_fit (codes "p") bob 1 5 refl

append_event-inbox_of_example : inbox_of (codes "p") bob (append_event sent new_in_memory).1 ≡ (
    if text_eq (Event.type sent) event_message_created
    then if text_eq (event_project sent) (codes "p")
      then inbox_of (codes "p") bob new_in_memory
        ++ copies bob (recipients sent) (stamped new_in_memory sent)
      else inbox_of (codes "p") bob new_in_memory
    else inbox_of (codes "p") bob new_in_memory)
append_event-inbox_of_example = append_event-inbox_of sent new_in_memory (codes "p") bob

thread_messages_lem_example :
    Sorted (thread_messages (codes "p") (codes "th") 0 (append_events two_sent new_in_memory).1)
    × SameMembers
        (thread_messages (codes "p") (codes "th") 0 (append_events two_sent new_in_memory).1)
        (filter (in_thread (codes "th") 0) (
          values
            (find_or [] (codes "p") (InMemory.messages (append_events two_sent new_in_memory).1))))
thread_messages_lem_example =
    thread_messages_lem (codes "p") (codes "th") 0 (append_events two_sent new_in_memory).1

room : InMemory.cursor new_in_memory + length two_sent < 2 ^ 64
unfolding new_in_memory
room = omega arith

append_events-count_from_example :
    (append_events two_sent new_in_memory).0 ≡ count_from (InMemory.cursor new_in_memory + 1) 2
append_events-count_from_example = append_events-count_from two_sent new_in_memory room

abbrev ada_agent : Agent
ada_agent = record {
  id = ada;
  session_id = [];
  name = ada;
  project = codes "p";
  token = codes "t";
  capabilities = [];
  metadata = [];
  status = [];
  contact_policy = [];
  focus_state = [];
  live_contact_policy = [];
  focus_state_updated = 0;
  last_seen = 0;
  created_at = 0;
}

abbrev with_agents : Agent → InMemory
with_agents a = record {
  cursor = 0;
  agents = (ada, a) ∷ [];
  inbox = [];
  messages = [];
  thread_index = [];
}

abbrev window : WindowIdentity
window = record {
  id = codes "w";
  project = codes "p";
  window_uuid = codes "u";
  agent_id = ada;
  display_name = [];
  tmux_target = [];
}

window_taken :
    upsert_window_identity_with_token window (codes "t") (with_agents ada_agent) ≡ ok window
unfolding upsert_window_identity_with_token agent_for_token text_eq
window_taken = refl

upsert_window_identity_with_token-owner_example :
    (is_empty (codes "t") ≡ false)
    × ((a : Agent) × Mem a (values (InMemory.agents (with_agents ada_agent)))
        × (Agent.token a ≡ codes "t")
        × (Agent.id a ≡ ada))
upsert_window_identity_with_token-owner_example =
    upsert_window_identity_with_token-owner window window (codes "t") (with_agents ada_agent)
      window_taken

abbrev after_block : InMemory
after_block = with_agents (record ada_agent { contact_policy = policy_block_all })

policy_set : set_contact_policy ada policy_block_all (with_agents ada_agent) ≡ ok after_block
unfolding set_contact_policy agent_at find put text_eq
policy_set = refl

set_contact_policy-get_example :
    (get_contact_policy ada after_block ≡ policy_block_all)
    × (text_eq ada bob ≡ false
        → get_contact_policy bob after_block ≡ get_contact_policy bob (with_agents ada_agent))
set_contact_policy-get_example =
    set_contact_policy-get ada bob policy_block_all (with_agents ada_agent) after_block policy_set

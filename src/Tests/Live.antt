-- ===== src/Tests/Live.antt =====
-- Runs of a send over the live transport.
use intermute.Base.{
  ◌≡◌, refl, true, false, none, some, [], ◌∷◌, Mem, Text, text_eq, codes, find, ok,
}
use intermute.Contact.{Lookups, SendMessageRequest, policy_open, valid_transport, check_policy}
use intermute.Resilience.Limiter.{RateLimiter}
use intermute.Messages.{PokeRow, no_tables, message_created, append_event_tx, append_all}
use intermute.Messages.Receipts.{list_pending_pokes}
use intermute.Live.{Windows, Outside}
use intermute.Live.Delivery.{delivery_deferred, deliver_one}
use intermute.Live.Send.{Outcome, sent, handle_send_message}
use intermute.Live.Deferred.{handle_send_message-pending}

-- Everyone is open, and the transport is enabled.
abbrev open_store : Text → Lookups
open_store project = record {
  get_contact_policy = λ agent. ok policy_open;
  get_live_contact_policy = λ agent. ok policy_open;
  is_contact = λ a b. ok false;
  is_thread_participant = λ t a. ok false;
  has_reservation_overlap = λ a b. ok false;
  live_transport_enabled = ok true;
}

-- No window, and everyone is thinking.
abbrev thinking : Windows
thinking = record {
  focus_state = λ agent. ok (codes "thinking");
  lookup_window = λ window. ok none;
  list_windows = ok [];
}

abbrev terminal : Outside
terminal = record { deliver = λ n target text. none; clock = λ n. n }

abbrev as_given : Text → Text
as_given s = s

abbrev bob : Text
bob = codes "bob"

abbrev request : Text → SendMessageRequest
request transport = record {
  id = codes "m1";
  thread_id = [];
  project = codes "p";
  from = codes "ada";
  to = bob ∷ [];
  cc = [];
  bcc = [];
  subject = [];
  topic = [];
  body = codes "hello";
  importance = [];
  transport = transport;
  target_window_uuid = [];
  ack_required = false;
}

abbrev unspent : RateLimiter
unspent = record { buckets = []; limit = 10; window = 60 }

abbrev send : Text → Outcome
send transport =
    handle_send_message as_given as_given open_store thinking terminal (codes "new") 5
      (request transport) unspent no_tables

deferred :
    Outcome.response (send (codes "both")) ≡ sent (codes "m1") 1 [] ((bob, delivery_deferred) ∷ [])
unfolding handle_send_message valid_transport check_policy deliver_one text_eq append_all
    append_event_tx message_created no_tables
deferred = refl

reported : find bob ((bob, delivery_deferred) ∷ []) ≡ some delivery_deferred
unfolding find text_eq
reported = refl

handle_send_message-pending_example :
    (p : PokeRow) × Mem p
      (list_pending_pokes (codes "p") bob (Outcome.tables (send (codes "both"))))
    × (p.message_id ≡ codes "m1")
unfolding no_tables
handle_send_message-pending_example =
    handle_send_message-pending as_given as_given open_store thinking terminal (codes "new") 5
      (request (codes "both")) unspent no_tables (codes "m1") 1 [] ((bob, delivery_deferred) ∷ [])
      bob deferred reported tt

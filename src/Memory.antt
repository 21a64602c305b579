-- ===== src/Memory.antt =====
-- The store in memory: internal/storage/storage.go (`InMemory`), over the types of core/models.go.
-- The maps are association lists; the clock's reading is an argument. The field Attachments, which
-- no operation here reads, is left out.
pub mod Delivery
pub mod Order
pub mod Inboxes
pub mod Pages
pub mod Agents
pub mod Threads
use intermute.Base.{
  ℕ, zero, suc, ◌+◌, ◌%◌, ◌^◌, Bool, true, false, not, ◌&&◌, ◌||◌, Option, none, some, List, [],
  ◌∷◌, ◌++◌, map, length, filter, take, ltb, leb, ◌==◌, if◌then◌else◌, Text, text_eq, codes,
  is_empty, Map, find, find_or, put, Result, ok, err,
}

pub record Message : Type 0 where
  pub id : Text
  pub thread_id : Text
  pub project : Text
  pub from : Text
  pub to : List Text
  pub cc : List Text
  pub bcc : List Text
  pub subject : Text
  pub topic : Text
  pub body : Text
  pub metadata : Map Text
  pub importance : Text
  pub transport : Text
  pub ack_required : Bool
  pub status : Text
  pub created_at : ℕ
  pub cursor : ℕ

pub record Event : Type 0 where
  pub type : Text
  pub agent : Text
  pub project : Text
  pub message : Message
  pub created_at : ℕ

pub record Agent : Type 0 where
  pub id : Text
  pub session_id : Text
  pub name : Text
  pub project : Text
  pub token : Text
  pub capabilities : List Text
  pub metadata : Map Text
  pub status : Text
  pub contact_policy : Text
  pub focus_state : Text
  pub live_contact_policy : Text
  pub focus_state_updated : ℕ
  pub last_seen : ℕ
  pub created_at : ℕ

pub record InMemory : Type 0 where
  pub cursor : ℕ
  pub agents : Map Agent
  pub inbox : Map (Map (List Message))
  pub messages : Map (Map Message)
  pub thread_index : Map (Map (Map ℕ))

unfoldable pub new_in_memory : InMemory
new_in_memory = record { cursor = 0; agents = []; inbox = []; messages = []; thread_index = [] }

abbrev pub event_message_created : Text
event_message_created = codes "message.created"

-- `m.cursor++` on a uint64.
unfoldable pub next_cursor : InMemory → ℕ
next_cursor m = (InMemory.cursor m + 1) % 2 ^ 64

unfoldable pub event_project : Event → Text
event_project ev =
    if is_empty (Message.project (Event.message ev))
    then Event.project ev
    else Message.project (Event.message ev)

or_agent : Text → List Text → List Text
or_agent agent [] = if is_empty agent then [] else agent ∷ []
or_agent agent (r ∷ rs) = r ∷ rs

unfoldable pub recipients : Event → List Text
unfolding or_agent
recipients ev = or_agent (Event.agent ev) (Message.to (Event.message ev))

unfoldable pub deliver : List Text → Message → Map (List Message) → Map (List Message)
unfolding find_or put
deliver [] msg boxes = boxes
deliver (agent ∷ rest) msg boxes =
    deliver rest msg (put agent (find_or [] agent boxes ++ msg ∷ []) boxes)

mark : List Text → ℕ → Map ℕ → Map ℕ
unfolding put
mark [] cursor seen = seen
mark (agent ∷ rest) cursor seen = mark rest cursor (put agent cursor seen)

unfoldable pub stamped : InMemory → Event → Message
unfolding next_cursor event_project
stamped m ev = record (Event.message ev) { cursor = next_cursor m; project = event_project ev }

pub index_thread : Message → List Text → Map (Map (Map ℕ)) → Map (Map (Map ℕ))
unfolding mark find_or put
index_thread msg to index =
    if is_empty (Message.thread_id msg)
    then index
    else let threads = find_or [] (Message.project msg) index in
      let seen = find_or [] (Message.thread_id msg) threads in
      put (Message.project msg)
        (put (Message.thread_id msg) (mark (Message.from msg ∷ to) (Message.cursor msg) seen)
          threads)
        index

pub store_message : Event → InMemory → InMemory
unfolding stamped deliver index_thread find_or put recipients next_cursor
store_message ev m =
    let msg = stamped m ev in
    let project = Message.project msg in
    record m {
      cursor = next_cursor m;
      inbox =
          put project (deliver (recipients ev) msg (find_or [] project (InMemory.inbox m)))
            (InMemory.inbox m);
      messages =
          put project (put (Message.id msg) msg (find_or [] project (InMemory.messages m)))
            (InMemory.messages m);
      thread_index = index_thread msg (recipients ev) (InMemory.thread_index m);
    }

unfoldable pub append_event : Event → InMemory → ℕ × InMemory
unfolding store_message next_cursor
append_event ev m =
    if text_eq (Event.type ev) event_message_created
    then (next_cursor m, store_message ev m)
    else (next_cursor m, record m { cursor = next_cursor m })

unfoldable pub append_events : List Event → InMemory → List ℕ × InMemory
append_events [] m = ([], m)
append_events (ev ∷ evs) m =
    let one = append_event ev m in let rest = append_events evs one.1 in (one.0 ∷ rest.0, rest.1)

-- `m.inbox[project][agent]`
unfoldable pub inbox_of : Text → Text → InMemory → List Message
unfolding find_or
inbox_of project agent m = find_or [] agent (find_or [] project (InMemory.inbox m))

unfoldable pub after_cursor : ℕ → Message → Bool
after_cursor cursor msg = ltb cursor (Message.cursor msg)

-- `if limit > 0 && len(out) > limit { out = out[:limit] }`
unfoldable pub limited {ℓ} : {A : Type ℓ} → ℕ → List A → List A
limited zero out = out
limited (suc n) out = take (suc n) out

all_boxes : Text → ℕ → Map (Map (List Message)) → List Message
unfolding find_or after_cursor
all_boxes agent cursor [] = []
all_boxes agent cursor ((project, boxes) ∷ rest) =
    filter (after_cursor cursor) (find_or [] agent boxes) ++ all_boxes agent cursor rest

unfoldable pub inbox_since : Text → Text → ℕ → ℕ → InMemory → List Message
unfolding inbox_of after_cursor all_boxes limited
inbox_since project agent cursor limit m = limited limit (
    if is_empty project
    then all_boxes agent cursor (InMemory.inbox m)
    else filter (after_cursor cursor) (inbox_of project agent m))

pub values {ℓ} : {V : Type ℓ} → Map V → List V
values [] = []
values ((k, v) ∷ rest) = v ∷ values rest

-- The two loops that sort by exchanges. One pass of the inner loop over what stands behind `x`: the
-- element that comes to the front, and the others in their new order.
unfoldable pub exchange : Message → List Message → Message × List Message
exchange x [] = (x, [])
exchange x (y ∷ ys) =
    let swap = ltb (Message.cursor y) (Message.cursor x) in
    let rest = exchange (if swap then y else x) ys in (rest.0, (if swap then x else y) ∷ rest.1)

unfoldable pub sort_passes : ℕ → List Message → List Message
unfolding exchange
sort_passes zero out = out
sort_passes (suc n) [] = []
sort_passes (suc n) (x ∷ xs) = let pass = exchange x xs in pass.0 ∷ sort_passes n pass.1

unfoldable pub sort_by_cursor : List Message → List Message
unfolding sort_passes
sort_by_cursor out = sort_passes (length out) out

pub in_thread : Text → ℕ → Message → Bool
in_thread thread_id cursor msg =
    text_eq (Message.thread_id msg) thread_id && ltb cursor (Message.cursor msg)

unfoldable pub thread_messages : Text → Text → ℕ → InMemory → List Message
unfolding values in_thread sort_by_cursor find_or
thread_messages project thread_id cursor m =
    sort_by_cursor
      (filter (in_thread thread_id cursor) (values (find_or [] project (InMemory.messages m))))

in_topic : Text → ℕ → Message → Bool
in_topic topic cursor msg = text_eq (Message.topic msg) topic && ltb cursor (Message.cursor msg)

unfoldable pub topic_messages : Text → Text → ℕ → ℕ → InMemory → List Message
unfolding values limited find_or in_topic
topic_messages project topic cursor limit m =
    limited limit
      (filter (in_topic topic cursor) (values (find_or [] project (InMemory.messages m))))

unfoldable pub inbox_counts : Text → Text → InMemory → ℕ × ℕ
unfolding inbox_of
inbox_counts project agent m =
    (length (inbox_of project agent m), length (inbox_of project agent m))

unfoldable pub is_thread_participant : Text → Text → Text → InMemory → Bool
unfolding find find_or
is_thread_participant project thread_id agent m =
    let seen = find_or [] thread_id (find_or [] project (InMemory.thread_index m)) in
    elim (find agent seen) [ none ↦ false | some c ↦ true ]

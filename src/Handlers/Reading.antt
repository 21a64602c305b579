-- ===== src/Handlers/Reading.antt =====
-- The handlers that read: `handleInbox`, `handleInboxCounts`, `handleStaleAcks`,
-- `handleTopicMessages`, `handleListThreads`, `handleThreadMessages` and `listInboxPokes`. The texts
-- of the times, which are written into the responses, are left out.
use intermute.Base.{
  ℕ, not, ◌||◌, Option, none, some, List, [], ◌∷◌, map, length, ltb, ◌==◌, if◌then◌else◌, Text,
  is_empty, Result, ok, err,
}
use intermute.Auth.{Info}
use intermute.Memory.{Message}
use intermute.Envelope.{wrap_envelope}
use intermute.Messages.{PokeRow, ThreadRow, Tables}
use intermute.Messages.Queries
use intermute.Messages.Receipts
use intermute.Messages.Receipts.{StaleAck, inbox_stale_acks, list_pending_pokes}
use intermute.Handlers.{HandlerError, bad_request, forbidden, project_or_query, may_use}

-- The cursor of the last message, where there is one.
abbrev pub last_cursor : ℕ → List Message → ℕ
last_cursor cursor [] = cursor
last_cursor cursor (m ∷ msgs) = last_cursor m.cursor msgs

unfoldable pub handle_inbox :
    (Text → Text) → Info → Text → Text → ℕ → ℕ → Tables → Result HandlerError (List Message × ℕ)
unfolding Queries.inbox_since
handle_inbox trim_space info query agent cursor limit db =
    let project = project_or_query trim_space info query in
    let msgs = Queries.inbox_since project agent cursor limit db in
    if is_empty agent then err bad_request else ok (msgs, last_cursor cursor msgs)

unfoldable pub handle_inbox_counts :
    (Text → Text) → Info → Text → Text → Tables → Result HandlerError (ℕ × ℕ)
unfolding Receipts.inbox_counts
handle_inbox_counts trim_space info query agent db =
    if is_empty agent
    then err bad_request
    else ok (Receipts.inbox_counts (project_or_query trim_space info query) agent db)

-- `none` is a time to live that is not given, or not a number from 0.
unfoldable pub handle_stale_acks :
    (Text → Text)
    → Info
    → Text
    → Text
    → ℕ
    → Option ℕ
    → ℕ
    → Tables
    → Result HandlerError (ℕ × ℕ × List StaleAck)
unfolding inbox_stale_acks
handle_stale_acks trim_space info query agent now ttl limit db =
    let project = project_or_query trim_space info query in
    let ttl_seconds : ℕ = elim ttl [ none ↦ 1800 | some t ↦ t ] in
    let items =
      inbox_stale_acks project agent now ttl_seconds (if limit == 0 then 20 else limit) db in
    if is_empty agent then err bad_request else ok (ttl_seconds, length items, items)

unfoldable pub handle_topic_messages :
    (Text → Text)
    → (Text → Text)
    → Info
    → Text
    → Text
    → ℕ
    → ℕ
    → Tables
    → Result HandlerError (List Message × ℕ)
unfolding Queries.topic_messages
handle_topic_messages trim_space to_lower info project topic cursor limit db =
    let msgs = Queries.topic_messages trim_space to_lower project topic cursor limit db in
    if is_empty project || is_empty topic
    then err bad_request
    else if not (may_use info project)
    then err forbidden
    else ok (msgs, last_cursor cursor msgs)

abbrev last_thread : ℕ → List ThreadRow → ℕ
last_thread cursor [] = cursor
last_thread cursor (t ∷ threads) = last_thread t.last_cursor threads

-- The next cursor is that of the oldest thread of the page.
unfoldable pub handle_list_threads :
    (Text → Text) → Info → Text → Text → ℕ → ℕ → Tables → Result HandlerError (List ThreadRow × ℕ)
unfolding Queries.list_threads
handle_list_threads trim_space info query agent cursor limit db =
    let project = project_or_query trim_space info query in
    let threads =
      Queries.list_threads project (trim_space agent) cursor (if limit == 0 then 50 else limit)
        db in
    if is_empty (trim_space agent)
    then err bad_request
    else ok (threads, last_thread cursor threads)

-- Messages of a thread come in the order of their times, so the greatest cursor is looked for.
greatest_cursor : ℕ → List Message → ℕ
greatest_cursor c [] = c
greatest_cursor c (m ∷ msgs) = greatest_cursor (if ltb c m.cursor then m.cursor else c) msgs

unfoldable pub handle_thread_messages :
    (Text → Text) → Info → Text → Text → ℕ → Tables → Result HandlerError (List Message × ℕ)
unfolding Queries.thread_messages greatest_cursor
handle_thread_messages trim_space info query thread_id cursor db =
    let project = project_or_query trim_space info query in
    let msgs = Queries.thread_messages project thread_id cursor db in
    let greatest = greatest_cursor 0 msgs in
    if is_empty thread_id
    then err bad_request
    else ok (msgs, if greatest == 0 then cursor else greatest)

-- A poke as it is shown: the message, the sender, the body in an envelope without a thread.
pub record InboxPoke : Type 0 where
  pub message_id : Text
  pub sender : Text
  pub body : Text
  pub created_at : ℕ

unfoldable pub inbox_poke : PokeRow → InboxPoke
unfolding wrap_envelope
inbox_poke p = record {
  message_id = p.message_id;
  sender = p.sender;
  body = wrap_envelope p.sender [] p.body;
  created_at = p.created_at;
}

-- The project and the agent; neither can be empty.
unfoldable pub inbox_poke_scope :
    (Text → Text) → Info → Text → Text → Result HandlerError (Text × Text)
inbox_poke_scope trim_space info query agent =
    let own = trim_space info.project in
    let project = if is_empty own then trim_space query else own in
    if is_empty project || is_empty (trim_space agent)
    then err bad_request
    else ok (project, trim_space agent)

unfoldable pub list_inbox_pokes :
    (Text → Text) → Info → Text → Text → Tables → Result HandlerError (List InboxPoke)
unfolding inbox_poke_scope inbox_poke list_pending_pokes
list_inbox_pokes trim_space info query agent db =
    elim (inbox_poke_scope trim_space info query agent) [
      | err e ↦ err e
      | ok scope ↦ ok (map inbox_poke (list_pending_pokes scope.0 scope.1 db))
    ]

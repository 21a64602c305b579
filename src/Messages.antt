-- ===== src/Messages.antt =====
-- The messages of the SQLite store: `AppendEvents`, `appendEventTx`, `upsertMessageTx` and
-- `insertRecipientsTx` of internal/storage/sqlite/sqlite.go over the tables of schema.sql. A call is
-- one transaction. Driver errors are left out, and so are the generated id of an event and the
-- columns of `events` that only repeat the event. A table is the list of its rows, the oldest first;
-- `trim_space` and `to_lower` are Go's functions on Unicode text.
pub mod Queries
pub mod Receipts
pub mod Mailbox
pub mod Rows
pub mod Sound
pub mod Reads
pub mod Refinement
pub mod Pending
use intermute.Base.{
  ℕ, zero, suc, ◌+◌, ◌*◌, ◌/◌, ◌%◌, ◌-◌, Bool, true, false, not, ◌&&◌, ◌||◌, Option, none, some,
  List, [], ◌∷◌, ◌++◌, map, filter, length, take, ltb, leb, ◌==◌, if◌then◌else◌, Text, text_eq,
  codes, is_empty, find_or,
}
use intermute.Memory.{Message, Event, event_message_created, recipients}
use intermute.Contact.{transport_or_default}

pub record InboxRow : Type 0 where
  pub project : Text
  pub agent : Text
  pub cursor : ℕ
  pub message_id : Text

pub record RecipientRow : Type 0 where
  pub project : Text
  pub message_id : Text
  pub agent_id : Text
  pub kind : Text
  pub read_at : Option ℕ
  pub ack_at : Option ℕ
  pub injected_at : Option ℕ

pub record PokeRow : Type 0 where
  pub project : Text
  pub recipient : Text
  pub message_id : Text
  pub sender : Text
  pub body : Text
  pub created_at : ℕ
  pub surfaced_at : Option ℕ

-- `last_body` is bytes.
pub record ThreadRow : Type 0 where
  pub project : Text
  pub thread_id : Text
  pub agent : Text
  pub last_cursor : ℕ
  pub message_count : ℕ
  pub last_from : Text
  pub last_body : List ℕ
  pub last_at : ℕ

-- `cursor` is the last one that AUTOINCREMENT gave; `messages` is in the order of the row ids.
pub record Tables : Type 0 where
  pub cursor : ℕ
  pub messages : List Message
  pub inbox : List InboxRow
  pub recipients : List RecipientRow
  pub pokes : List PokeRow
  pub threads : List ThreadRow

unfoldable pub no_tables : Tables
no_tables = record {
  cursor = 0;
  messages = [];
  inbox = [];
  recipients = [];
  pokes = [];
  threads = [];
}

abbrev pub event_peer_window_poke : Text
event_peer_window_poke = codes "peer.window_poke"

abbrev pub poke_result_deferred : Text
poke_result_deferred = codes "deferred"

abbrev pub poke_result_injected : Text
poke_result_injected = codes "injected"

abbrev pub same_message : Text → Text → Message → Bool
same_message project id m = text_eq m.project project && text_eq m.id id

-- `ON CONFLICT(project, message_id) DO UPDATE`: the row keeps its place and its created_at.
unfoldable pub upsert_row : Message → List Message → List Message
upsert_row msg [] = msg ∷ []
upsert_row msg (m ∷ rows) =
    let rest = upsert_row msg rows in
    if same_message msg.project msg.id m
    then record msg { created_at = m.created_at } ∷ rows
    else m ∷ rest

abbrev pub same_recipient : Text → Text → Text → RecipientRow → Bool
same_recipient project id agent r =
    text_eq r.project project && (text_eq r.message_id id && text_eq r.agent_id agent)

-- `ON CONFLICT(project, message_id, agent_id) DO NOTHING`
unfoldable pub add_recipient : Text → Text → Text → Text → List RecipientRow → List RecipientRow
add_recipient project id kind agent [] =
    record {
      project = project;
      message_id = id;
      agent_id = agent;
      kind = kind;
      read_at = none;
      ack_at = none;
      injected_at = none;
    }
    ∷ []
add_recipient project id kind agent (r ∷ rows) =
    let rest = add_recipient project id kind agent rows in
    if same_recipient project id agent r then r ∷ rows else r ∷ rest

unfoldable pub insert_recipients :
    Text → Text → List Text → Text → List RecipientRow → List RecipientRow
unfolding add_recipient
insert_recipients project id [] kind rows = rows
insert_recipients project id (agent ∷ agents) kind rows =
    insert_recipients project id agents kind (add_recipient project id kind agent rows)

unfoldable pub inbox_rows : Text → ℕ → Text → List Text → List InboxRow
inbox_rows project cursor id agents =
    map (λ agent. record { project = project; agent = agent; cursor = cursor; message_id = id })
      agents

-- The UTF-8 bytes of a code point.
utf8 : ℕ → List ℕ
utf8 c =
    if ltb c 0x80
    then c ∷ []
    else if ltb c 0x800
    then (0xC0 + c / 64) ∷ (0x80 + c % 64) ∷ []
    else if ltb c 0x10000
    then (0xE0 + c / 4096) ∷ (0x80 + c / 64 % 64) ∷ (0x80 + c % 64) ∷ []
    else (0xF0 + c / 262144) ∷ (0x80 + c / 4096 % 64) ∷ (0x80 + c / 64 % 64) ∷ (0x80 + c % 64) ∷ []

bytes : Text → List ℕ
unfolding utf8
bytes [] = []
bytes (c ∷ s) = utf8 c ++ bytes s

-- The columns that a message sets in the row of each participant.
thread_row : Text → ℕ → Message → ℕ → Text → ThreadRow
unfolding bytes
thread_row project cursor msg at agent = record {
  project = project;
  thread_id = msg.thread_id;
  agent = agent;
  last_cursor = cursor;
  message_count = 1;
  last_from = msg.from;
  last_body = take 200 (bytes msg.body);
  last_at = at;
}

-- `ON CONFLICT(project, thread_id, agent) DO UPDATE`
upsert_thread : ThreadRow → List ThreadRow → List ThreadRow
upsert_thread new [] = new ∷ []
upsert_thread new (t ∷ rows) =
    let rest = upsert_thread new rows in
    if text_eq t.project new.project
      && (text_eq t.thread_id new.thread_id && text_eq t.agent new.agent)
    then record new { message_count = t.message_count + 1 } ∷ rows
    else t ∷ rest

upsert_threads : List ThreadRow → List ThreadRow → List ThreadRow
unfolding upsert_thread
upsert_threads [] rows = rows
upsert_threads (new ∷ news) rows = upsert_threads news (upsert_thread new rows)

index_participants : Text → ℕ → Message → ℕ → List Text → List ThreadRow → List ThreadRow
unfolding upsert_threads thread_row
index_participants project cursor msg at agents rows =
    if is_empty msg.thread_id
    then rows
    else upsert_threads (map (thread_row project cursor msg at) (msg.from ∷ agents)) rows

abbrev pub same_poke : Text → Text → Text → PokeRow → Bool
same_poke project recipient id p =
    text_eq p.project project && (text_eq p.recipient recipient && text_eq p.message_id id)

-- `INSERT OR IGNORE`
unfoldable pub add_poke : PokeRow → List PokeRow → List PokeRow
add_poke new [] = new ∷ []
add_poke new (p ∷ rows) =
    let rest = add_poke new rows in
    if same_poke new.project new.recipient new.message_id p then p ∷ rows else p ∷ rest

unfoldable pub stage_pokes : Text → Message → ℕ → List Text → List PokeRow → List PokeRow
unfolding add_poke
stage_pokes project msg at [] rows = rows
stage_pokes project msg at (agent ∷ agents) rows =
    let new : PokeRow = record {
      project = project;
      recipient = agent;
      message_id = msg.id;
      sender = msg.from;
      body = msg.body;
      created_at = at;
      surfaced_at = none;
    } in
    stage_pokes project msg at agents (add_poke new rows)

unfoldable pub inject_row : Text → Text → Text → ℕ → RecipientRow → RecipientRow
inject_row project id agent at r =
    if same_recipient project id agent r then record r { injected_at = some at } else r

mark_injected : Text → Text → ℕ → List Text → List RecipientRow → List RecipientRow
unfolding inject_row
mark_injected project id at [] rows = rows
mark_injected project id at (agent ∷ agents) rows =
    mark_injected project id at agents (map (inject_row project id agent at) rows)

-- `if t.IsZero()`
abbrev pub or_now : ℕ → ℕ → ℕ
or_now now at = if at == 0 then now else at

module _ (trim_space to_lower : Text → Text) where
  unfoldable pub tables_project : Event → Text
  tables_project ev =
      if is_empty (trim_space ev.project)
      then trim_space (Message.project ev.message)
      else trim_space ev.project

  -- The row that `upsertMessageTx` writes. Metadata and Status have no column.
  unfoldable pub message_row : Text → ℕ → Message → Message
  message_row project at msg = record msg {
    project = project;
    topic = to_lower (trim_space msg.topic);
    metadata = [];
    status = [];
    transport = transport_or_default msg.transport;
    created_at = or_now at msg.created_at;
    cursor = 0;
  }

  unfoldable pub message_created : ℕ → ℕ → Text → Event → Tables → Tables
  unfolding message_row upsert_row insert_recipients inbox_rows index_participants recipients
      transport_or_default
  message_created cursor at project ev db =
      let msg = message_row project at ev.message in
      let agents = recipients ev in
      record db {
        cursor = cursor;
        messages = upsert_row msg db.messages;
        inbox = db.inbox ++ inbox_rows project cursor msg.id agents;
        recipients = insert_recipients project msg.id msg.bcc (codes "bcc") (
            insert_recipients project msg.id msg.cc (codes "cc")
              (insert_recipients project msg.id msg.to (codes "to") db.recipients));
        threads = index_participants project cursor ev.message at agents db.threads;
      }

  unfoldable pub window_poke : ℕ → ℕ → Text → Event → Tables → Tables
  unfolding stage_pokes mark_injected find_or
  window_poke cursor at project ev db =
      let msg = ev.message in
      let result = find_or [] (codes "poke_result") msg.metadata in
      let deferred = text_eq result poke_result_deferred in
      let injected = text_eq result poke_result_injected in
      record db {
        cursor = cursor;
        pokes = if deferred then stage_pokes project msg at msg.to db.pokes else db.pokes;
        recipients =
            if injected
            then mark_injected project msg.id at msg.to db.recipients
            else db.recipients;
      }

  -- `appendEventTx`, at a reading of the clock.
  unfoldable pub append_event_tx : ℕ → Event → Tables → ℕ × Tables
  unfolding tables_project message_created window_poke
  append_event_tx now ev db =
      let cursor = db.cursor + 1 in
      let at = or_now now ev.created_at in
      let project = tables_project ev in
      if text_eq ev.type event_message_created
      then (cursor, message_created cursor at project ev db)
      else if text_eq ev.type event_peer_window_poke
      then (cursor, window_poke cursor at project ev db)
      else (cursor, record db { cursor = cursor })

  -- `AppendEvents`: each event with the clock's reading.
  unfoldable pub append_all : List (ℕ × Event) → Tables → List ℕ × Tables
  append_all [] db = ([], db)
  append_all ((now, ev) ∷ evs) db =
      let one = append_event_tx now ev db in
      let rest = append_all evs one.1 in (one.0 ∷ rest.0, rest.1)

-- ===== src/Messages/Queries.antt =====
-- What is read back of messages and threads: `InboxSince`, `ThreadMessages`, `ListThreads`,
-- `TopicMessages`, `IsThreadParticipant` and `scanMessageRow` of internal/storage/sqlite/sqlite.go.
-- A limit is an int of Go that is not negative here; 0 stands for a limit that is not given.
use intermute.Base.{
  ℕ, suc, Bool, false, ◌&&◌, ◌||◌, Option, none, some, List, [], ◌∷◌, filter, take, ltb, ◌==◌,
  if◌then◌else◌, Text, text_eq, is_empty,
}
use intermute.Stamp.{stamp_lt}
use intermute.Memory.{Message}
use intermute.Contact.{transport_or_default}
use intermute.Messages.{InboxRow, ThreadRow, Tables, same_message}

-- The default for 0, and the cap.
abbrev pub page_limit : ℕ → ℕ
page_limit limit = if limit == 0 then 100 else if ltb 1000 limit then 1000 else limit

unfoldable pub message_at : Text → Text → List Message → Option Message
message_at project id [] = none
message_at project id (m ∷ rows) =
    let rest = message_at project id rows in if same_message project id m then some m else rest

-- `scanMessageRow`, with the cursor of the row that it was joined to.
unfoldable pub scan_message : ℕ → Message → Message
scan_message cursor m = record m { transport = transport_or_default m.transport; cursor = cursor }

-- `ORDER BY cursor`, by insertion.
unfoldable pub insert_row : InboxRow → List InboxRow → List InboxRow
insert_row r [] = r ∷ []
insert_row r (s ∷ rows) =
    let later = s ∷ insert_row r rows in if ltb s.cursor r.cursor then later else r ∷ s ∷ rows

unfoldable pub by_cursor : List InboxRow → List InboxRow
unfolding insert_row
by_cursor [] = []
by_cursor (r ∷ rows) = insert_row r (by_cursor rows)

-- The join with `messages`: a row without its message is dropped.
unfoldable pub joined : List Message → List InboxRow → List Message
unfolding message_at scan_message transport_or_default
joined messages [] = []
joined messages (r ∷ rows) =
    let rest = joined messages rows in
    elim (message_at r.project r.message_id messages) [
      | none ↦ rest
      | some m ↦ scan_message r.cursor m ∷ rest
    ]

unfoldable pub row_since : Text → Text → ℕ → InboxRow → Bool
row_since project agent cursor r =
    (text_eq r.agent agent && ltb cursor r.cursor)
    && (is_empty project || text_eq r.project project)

unfoldable pub inbox_since : Text → Text → ℕ → ℕ → Tables → List Message
unfolding row_since by_cursor joined
inbox_since project agent cursor limit db =
    take (page_limit limit)
      (joined db.messages (by_cursor (filter (row_since project agent cursor) db.inbox)))

-- `MAX(i.cursor)` over the rows of a message above `cursor`; `none` where there is none.
last_above : ℕ → Text → Text → List InboxRow → Option ℕ
last_above cursor project id [] = none
last_above cursor project id (r ∷ rows) =
    let rest = last_above cursor project id rows in
    if text_eq r.project project && (text_eq r.message_id id && ltb cursor r.cursor)
    then (elim rest [
      | none ↦ some r.cursor
      | some c ↦ some (if ltb c r.cursor then r.cursor else c)
    ])
    else rest

thread_rows : Text → Text → ℕ → List InboxRow → List Message → List Message
unfolding last_above scan_message transport_or_default
thread_rows project thread_id cursor inbox [] = []
thread_rows project thread_id cursor inbox (m ∷ rows) =
    let rest = thread_rows project thread_id cursor inbox rows in
    if text_eq m.project project && text_eq m.thread_id thread_id
    then (elim (last_above cursor project m.id inbox) [
      | none ↦ rest
      | some c ↦ scan_message c m ∷ rest
    ])
    else rest

-- `ORDER BY m.created_at`, on the texts of the times.
insert_created : Message → List Message → List Message
insert_created m [] = m ∷ []
insert_created m (n ∷ rows) =
    let later = n ∷ insert_created m rows in
    if stamp_lt n.created_at m.created_at then later else m ∷ n ∷ rows

by_created : List Message → List Message
unfolding insert_created
by_created [] = []
by_created (m ∷ rows) = insert_created m (by_created rows)

unfoldable pub thread_messages : Text → Text → ℕ → Tables → List Message
unfolding thread_rows by_created
thread_messages project thread_id cursor db =
    by_created (thread_rows project thread_id cursor db.inbox db.messages)

-- `ORDER BY last_cursor DESC`
insert_latest : ThreadRow → List ThreadRow → List ThreadRow
insert_latest t [] = t ∷ []
insert_latest t (u ∷ rows) =
    let later = u ∷ insert_latest t rows in
    if ltb t.last_cursor u.last_cursor then later else t ∷ u ∷ rows

latest_threads : List ThreadRow → List ThreadRow
unfolding insert_latest
latest_threads [] = []
latest_threads (t ∷ rows) = insert_latest t (latest_threads rows)

-- A cursor is an upper bound, for older pages; 0 is none.
thread_listed : Text → Text → ℕ → ThreadRow → Bool
thread_listed project agent cursor t =
    (text_eq t.project project && text_eq t.agent agent)
    && (cursor == 0 || ltb t.last_cursor cursor)

unfoldable pub list_threads : Text → Text → ℕ → ℕ → Tables → List ThreadRow
unfolding latest_threads thread_listed
list_threads project agent cursor limit db =
    take (if limit == 0 then 50 else limit)
      (latest_threads (filter (thread_listed project agent cursor) db.threads))

-- The row id of a message is its place; rows are never deleted.
topic_rows : Text → Text → ℕ → ℕ → List Message → List Message
unfolding scan_message transport_or_default
topic_rows project topic cursor n [] = []
topic_rows project topic cursor n (m ∷ rows) =
    let rest = topic_rows project topic cursor (suc n) rows in
    if text_eq m.project project && (text_eq m.topic topic && ltb cursor n)
    then scan_message n m ∷ rest
    else rest

unfoldable pub topic_messages :
    (Text → Text) → (Text → Text) → Text → Text → ℕ → ℕ → Tables → List Message
unfolding topic_rows
topic_messages trim_space to_lower project topic cursor limit db =
    take (page_limit limit) (topic_rows project (to_lower (trim_space topic)) cursor 1 db.messages)

is_participant_row : Text → Text → Text → ThreadRow → Bool
is_participant_row project thread_id agent t =
    text_eq t.project project && (text_eq t.thread_id thread_id && text_eq t.agent agent)

any_row : (ThreadRow → Bool) → List ThreadRow → Bool
any_row p [] = false
any_row p (t ∷ rows) = p t || any_row p rows

unfoldable pub is_thread_participant : Text → Text → Text → Tables → Bool
unfolding is_participant_row any_row
is_thread_participant project thread_id agent db =
    any_row (is_participant_row project thread_id agent) db.threads

-- ===== src/Messages/Receipts.antt =====
-- Receipts and pokes: `MarkRead`, `MarkAck`, `RecipientStatus`, `InboxCounts`, `InboxStaleAcks`,
-- `ListPendingPokes`, `MarkPokeSurfaced` and `MarkMessageInjected` of
-- internal/storage/sqlite/sqlite.go.
pub mod Marks
use intermute.Base.{
  ℕ, zero, suc, ◌+◌, ◌-◌, ◌/◌, Bool, true, false, not, ◌&&◌, ◌||◌, Option, none, some, List, [],
  ◌∷◌, ◌++◌, map, filter, take, length, ltb, leb, ◌==◌, if◌then◌else◌, Text, text_eq, Result, ok,
  err,
}
use intermute.Stamp.{second, stamp_lt}
use intermute.Memory.{Message}
use intermute.Contact.{transport_or_default}
use intermute.Messages.{
  InboxRow, RecipientRow, PokeRow, Tables, same_recipient, same_poke, inject_row,
}
use intermute.Messages.Queries.{message_at}

pub data ReceiptError : Type 0 where
  not_a_recipient : ReceiptError

abbrev pub is_unset : Option ℕ → Bool
is_unset none = true
is_unset (some t) = false

unfoldable pub any_recipient : (RecipientRow → Bool) → List RecipientRow → Bool
any_recipient p [] = false
any_recipient p (r ∷ rows) = let rest = any_recipient p rows in p r || rest

-- `SET read_at = ? WHERE ... AND read_at IS NULL`
unfoldable pub read_row : Text → Text → Text → ℕ → RecipientRow → RecipientRow
read_row project id agent now r =
    if same_recipient project id agent r && is_unset r.read_at
    then record r { read_at = some now }
    else r

unfoldable pub ack_row : Text → Text → Text → ℕ → RecipientRow → RecipientRow
ack_row project id agent now r =
    if same_recipient project id agent r && is_unset r.ack_at
    then record r { ack_at = some now }
    else r

-- An update that changes no row is an error unless there is a row that it could have changed.
unfoldable pub mark_read : Text → Text → Text → ℕ → Tables → Result ReceiptError Tables
unfolding read_row any_recipient
mark_read project id agent now db =
    if any_recipient (same_recipient project id agent) db.recipients
    then ok (record db { recipients = map (read_row project id agent now) db.recipients })
    else err not_a_recipient

unfoldable pub mark_ack : Text → Text → Text → ℕ → Tables → Result ReceiptError Tables
unfolding ack_row any_recipient
mark_ack project id agent now db =
    if any_recipient (same_recipient project id agent) db.recipients
    then ok (record db { recipients = map (ack_row project id agent now) db.recipients })
    else err not_a_recipient

-- `core.RecipientStatus` for each recipient; the map is keyed by the agent, one row for each.
pub record RecipientStatus : Type 0 where
  pub agent_id : Text
  pub kind : Text
  pub read_at : Option ℕ
  pub ack_at : Option ℕ

abbrev status_of : RecipientRow → RecipientStatus
status_of r = record {
  agent_id = r.agent_id;
  kind = r.kind;
  read_at = r.read_at;
  ack_at = r.ack_at;
}

unfoldable pub recipient_status : Text → Text → Tables → List RecipientStatus
recipient_status project id db =
    map status_of (filter (λ r. text_eq r.project project && text_eq r.message_id id) db.recipients)

unfoldable pub is_unread : Text → Text → RecipientRow → Bool
is_unread project agent r =
    text_eq r.project project && (text_eq r.agent_id agent && is_unset r.read_at)

-- Total and unread.
unfoldable pub inbox_counts : Text → Text → Tables → ℕ × ℕ
unfolding is_unread
inbox_counts project agent db = (
  length (filter (λ (r : InboxRow). text_eq r.project project && text_eq r.agent agent) db.inbox),
  length (filter (is_unread project agent) db.recipients),
)

pub record StaleAck : Type 0 where
  pub message : Message
  pub kind : Text
  pub read_at : Option ℕ
  pub age_seconds : ℕ

-- `strftime('%s', ...)` counts whole seconds.
unfoldable pub is_stale : ℕ → ℕ → Message → Bool
is_stale now ttl_seconds m =
    m.ack_required && leb (m.created_at / second + ttl_seconds) (now / second)

stale_rows : Text → Text → ℕ → ℕ → List Message → List RecipientRow → List StaleAck
unfolding is_stale message_at transport_or_default
stale_rows project agent now ttl_seconds messages [] = []
stale_rows project agent now ttl_seconds messages (r ∷ rows) =
    let rest = stale_rows project agent now ttl_seconds messages rows in
    if text_eq r.project project && (text_eq r.agent_id agent && is_unset r.ack_at)
    then (elim (message_at r.project r.message_id messages) [
      | none ↦ rest
      | some m ↦
          if is_stale now ttl_seconds m
          then record {
            message = record m { transport = transport_or_default m.transport; cursor = 0 };
            kind = r.kind;
            read_at = r.read_at;
            age_seconds = (now - m.created_at) / second;
          }
            ∷ rest
          else rest
    ])
    else rest

insert_oldest : StaleAck → List StaleAck → List StaleAck
insert_oldest a [] = a ∷ []
insert_oldest a (b ∷ rows) =
    let later = b ∷ insert_oldest a rows in
    if stamp_lt (Message.created_at b.message) (Message.created_at a.message)
    then later
    else a ∷ b ∷ rows

oldest_first : List StaleAck → List StaleAck
unfolding insert_oldest
oldest_first [] = []
oldest_first (a ∷ rows) = insert_oldest a (oldest_first rows)

unfoldable pub inbox_stale_acks : Text → Text → ℕ → ℕ → ℕ → Tables → List StaleAck
unfolding stale_rows oldest_first
inbox_stale_acks project agent now ttl_seconds limit db =
    take (if limit == 0 then 20 else if ltb 1000 limit then 1000 else limit)
      (oldest_first (stale_rows project agent now ttl_seconds db.messages db.recipients))

unfoldable pub insert_poke : PokeRow → List PokeRow → List PokeRow
insert_poke p [] = p ∷ []
insert_poke p (q ∷ rows) =
    let later = q ∷ insert_poke p rows in
    if stamp_lt q.created_at p.created_at then later else p ∷ q ∷ rows

unfoldable pub pokes_by_time : List PokeRow → List PokeRow
unfolding insert_poke
pokes_by_time [] = []
pokes_by_time (p ∷ rows) = insert_poke p (pokes_by_time rows)

unfoldable pub is_pending : Text → Text → PokeRow → Bool
is_pending project recipient p =
    text_eq p.project project && (text_eq p.recipient recipient && is_unset p.surfaced_at)

unfoldable pub list_pending_pokes : Text → Text → Tables → List PokeRow
unfolding pokes_by_time is_pending
list_pending_pokes project recipient db =
    pokes_by_time (filter (is_pending project recipient) db.pokes)

surface_row : Text → Text → Text → ℕ → PokeRow → PokeRow
surface_row project recipient id now p =
    if same_poke project recipient id p && is_unset p.surfaced_at
    then record p { surfaced_at = some now }
    else p

unfoldable pub mark_poke_surfaced : Text → Text → Text → ℕ → Tables → Tables
unfolding surface_row
mark_poke_surfaced project recipient id now db = record db {
  pokes = map (surface_row project recipient id now) db.pokes;
}

unfoldable pub mark_message_injected : Text → Text → Text → ℕ → Tables → Tables
unfolding inject_row
mark_message_injected project id agent now db = record db {
  recipients = map (inject_row project id agent now) db.recipients;
}

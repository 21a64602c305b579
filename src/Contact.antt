-- ===== src/Contact.antt =====
-- Who may write to whom: the contact policies of internal/http/handlers_messages.go
-- (`filterByPolicy`, `checkPolicy`, `senderAllowed`, `senderAllowedAuto`, `resolveTransport`,
-- `resolveAllowedRecipients`) and the strings of core/domain.go. The store is behind an interface:
-- what the handlers ask it is a record of functions, whose `err` is any error of a lookup.
pub mod Fields
pub mod Filter
pub mod Policies
use intermute.Base.{
  ℕ, Bool, true, false, not, ◌&&◌, ◌||◌, List, [], ◌∷◌, ◌++◌, if◌then◌else◌, Text, text_eq, codes,
  is_empty, Result, ok, err,
}

abbrev pub policy_open : Text
policy_open = codes "open"

abbrev pub policy_auto : Text
policy_auto = codes "auto"

abbrev pub policy_contacts_only : Text
policy_contacts_only = codes "contacts_only"

abbrev pub policy_block_all : Text
policy_block_all = codes "block_all"

abbrev pub transport_async : Text
transport_async = codes "async"

unfoldable pub valid_contact_policy : Text → Bool
valid_contact_policy s =
    text_eq s policy_open
    || (text_eq s policy_auto || (text_eq s policy_contacts_only || text_eq s policy_block_all))

unfoldable pub valid_transport : Text → Bool
valid_transport mode =
    is_empty mode
    || (text_eq mode transport_async
        || (text_eq mode (codes "live") || text_eq mode (codes "both")))

unfoldable pub transport_or_default : Text → Text
transport_or_default mode = if is_empty mode then transport_async else mode

pub data LookupError : Type 0 where
  lookup_error : LookupError

-- `IsContact recipient sender`, `IsThreadParticipant threadID sender` and so on, in one project.
pub record Lookups : Type 0 where
  pub get_contact_policy : Text → Result LookupError Text
  pub get_live_contact_policy : Text → Result LookupError Text
  pub is_contact : Text → Text → Result LookupError Bool
  pub is_thread_participant : Text → Text → Result LookupError Bool
  pub has_reservation_overlap : Text → Text → Result LookupError Bool
  pub live_transport_enabled : Result LookupError Bool

-- `ok, err := ...; err == nil && ok`
unfoldable pub affirmed : Result LookupError Bool → Bool
affirmed (ok b) = b
affirmed (err e) = false

unfoldable pub sender_allowed : Lookups → Text → Text → Text → Bool
unfolding affirmed
sender_allowed s sender recipient thread_id =
    if affirmed (Lookups.is_contact s recipient sender)
    then true
    else not (is_empty thread_id) && affirmed (Lookups.is_thread_participant s thread_id sender)

unfoldable pub sender_allowed_auto : Lookups → Text → Text → Text → Bool
unfolding affirmed
sender_allowed_auto s sender recipient thread_id =
    if affirmed (Lookups.has_reservation_overlap s recipient sender)
    then true
    else sender_allowed s sender recipient thread_id

unfoldable pub check_policy : Lookups → Text → Text → Text → Text → Bool
check_policy s sender recipient thread_id policy =
    if text_eq policy policy_open || is_empty policy
    then true
    else if text_eq policy policy_block_all
    then false
    else if text_eq policy policy_contacts_only
    then sender_allowed s sender recipient thread_id
    else if text_eq policy policy_auto
    then sender_allowed_auto s sender recipient thread_id
    else true

-- Whether one recipient passes: a policy that cannot be read counts as open.
unfoldable pub passes : Lookups → Text → Text → Text → Bool
passes s sender thread_id recipient = elim (Lookups.get_contact_policy s recipient) [
  | ok policy ↦ check_policy s sender recipient thread_id policy
  | err e ↦ true
]

-- The gate of live delivery: here a policy that cannot be read counts as contacts_only.
unfoldable pub passes_live : Lookups → Text → Text → Text → Bool
passes_live s sender thread_id recipient = elim (Lookups.get_live_contact_policy s recipient) [
  | ok policy ↦ check_policy s sender recipient thread_id policy
  | err e ↦ check_policy s sender recipient thread_id policy_contacts_only
]

-- The loop that both gates run: the recipients that pass, and the others.
unfoldable pub partition : (Text → Bool) → List Text → List Text × List Text
partition p [] = ([], [])
partition p (r ∷ rs) =
    let rest = partition p rs in if p r then (r ∷ rest.0, rest.1) else (rest.0, r ∷ rest.1)

unfoldable pub filter_by_policy : Lookups → Text → Text → List Text → List Text × List Text
unfolding partition passes
filter_by_policy s sender thread_id recipients = partition (passes s sender thread_id) recipients

unfoldable pub resolve_transport : Lookups → Text → Text
unfolding transport_or_default
resolve_transport s requested =
    if text_eq (transport_or_default requested) transport_async
    then transport_or_default requested
    else elim (Lookups.live_transport_enabled s) [
      | ok true ↦ transport_or_default requested
      | ok false ↦ transport_async
      | err e ↦ transport_or_default requested
    ]

pub record SendMessageRequest : Type 0 where
  pub id : Text
  pub thread_id : Text
  pub project : Text
  pub from : Text
  pub to : List Text
  pub cc : List Text
  pub bcc : List Text
  pub subject : Text
  pub topic : Text
  pub body : Text
  pub importance : Text
  pub transport : Text
  pub target_window_uuid : Text
  pub ack_required : Bool

pub record AllowedRecipients : Type 0 where
  pub to : List Text
  pub cc : List Text
  pub bcc : List Text
  pub denied : List Text

pub gate_to : Lookups → SendMessageRequest → Text → List Text × List Text
unfolding filter_by_policy partition passes_live
gate_to s req transport =
    if text_eq transport transport_async
    then filter_by_policy s (SendMessageRequest.from req) (SendMessageRequest.thread_id req)
        (SendMessageRequest.to req)
    else partition (passes_live s (SendMessageRequest.from req) (SendMessageRequest.thread_id req))
        (SendMessageRequest.to req)

pub none_left : List Text → Bool
none_left [] = true
none_left (_ ∷ _) = false

-- `err` stands for the 403 response, with the recipients that were denied.
unfoldable pub resolve_allowed_recipients :
    Lookups → SendMessageRequest → Text → Result (List Text) AllowedRecipients
unfolding gate_to filter_by_policy none_left
resolve_allowed_recipients s req transport =
    let t = gate_to s req transport in
    let c =
      filter_by_policy s (SendMessageRequest.from req) (SendMessageRequest.thread_id req)
        (SendMessageRequest.cc req) in
    let b =
      filter_by_policy s (SendMessageRequest.from req) (SendMessageRequest.thread_id req)
        (SendMessageRequest.bcc req) in
    let denied = (t.1 ++ c.1) ++ b.1 in
    if none_left t.0 && (none_left c.0 && none_left b.0)
    then err denied
    else ok (record { to = t.0; cc = c.0; bcc = b.0; denied = denied })

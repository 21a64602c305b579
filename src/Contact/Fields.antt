-- ===== src/Contact/Fields.antt =====
-- What becomes of the To, CC and BCC fields of a request: `resolveAllowedRecipients` of
-- internal/http/handlers_messages.go.
use intermute.Base.{
  Bool, false, not, List, [], ◌++◌, ◌≡◌, ◌↔◌, if◌then◌else◌, filter, Mem, Text, text_eq, Result, ok,
  err,
}
use intermute.Contact.{
  transport_async, Lookups, passes, SendMessageRequest, AllowedRecipients, gate_to, passes_live,
}
use intermute.Contact.Policies.{WelcomeLive, passes_live-WelcomeLive, WelcomeLive-passes_live}
use intermute.Contact.Filter.{partition-allowed, partition-keeps}

-- Whether one of the To field passes: the live gate stands before it for every transport but async.
abbrev pub passes_to : Lookups → SendMessageRequest → Text → Text → Bool
passes_to s req transport r =
    if text_eq transport transport_async
    then passes s (SendMessageRequest.from req) (SendMessageRequest.thread_id req) r
    else passes_live s (SendMessageRequest.from req) (SendMessageRequest.thread_id req) r

-- Whether one of the CC and BCC fields passes.
abbrev pub passes_copy : Lookups → SendMessageRequest → Text → Bool
passes_copy s req r = passes s (SendMessageRequest.from req) (SendMessageRequest.thread_id req) r

abbrev pub rejected : (Text → Bool) → List Text → List Text
rejected p rs = filter (λ r. not (p r)) rs

-- Each field keeps those of it that pass, in their order, and who does not pass is listed; where nobody passes,
-- that is everybody.
abbrev pub Routed :
    Lookups → SendMessageRequest → Text → Result (List Text) AllowedRecipients → Type 0
Routed s req transport (ok a) =
    (AllowedRecipients.to a ≡ filter (passes_to s req transport) (SendMessageRequest.to req))
    × (AllowedRecipients.cc a ≡ filter (passes_copy s req) (SendMessageRequest.cc req))
    × (AllowedRecipients.bcc a ≡ filter (passes_copy s req) (SendMessageRequest.bcc req))
    × (AllowedRecipients.denied a
        ≡ (rejected (passes_to s req transport) (SendMessageRequest.to req)
            ++ rejected (passes_copy s req) (SendMessageRequest.cc req))
          ++ rejected (passes_copy s req) (SendMessageRequest.bcc req))
    × ((r : Text) × Mem r
          ((AllowedRecipients.to a ++ AllowedRecipients.cc a) ++ AllowedRecipients.bcc a))
Routed s req transport (err denied) =
    (filter (passes_to s req transport) (SendMessageRequest.to req) ≡ [])
    × (filter (passes_copy s req) (SendMessageRequest.cc req) ≡ [])
    × (filter (passes_copy s req) (SendMessageRequest.bcc req) ≡ [])
    × (denied
        ≡ (SendMessageRequest.to req ++ SendMessageRequest.cc req) ++ SendMessageRequest.bcc req)

-- For every transport but async, the gate of To keeps exactly those of the field whose live policy lets the sender
-- write, as a policy of filterByPolicy would; where the live policy cannot be read, only one of whom the lookups say
-- that the sender is a contact, or that the thread is named and the sender takes part in it.
pub gate_to-live :
    (s : Lookups) (req : SendMessageRequest) (transport r : Text)
    → text_eq transport transport_async ≡ false
    → Mem r (gate_to s req transport).0 ↔ (
        Mem r (SendMessageRequest.to req)
        × WelcomeLive s (SendMessageRequest.from req) r (SendMessageRequest.thread_id req))
unfolding gate_to
gate_to-live s req transport r e = rw e (
  λ m.
      let kept = partition-allowed live (SendMessageRequest.to req) r m in
      (
        kept.0,
        passes_live-WelcomeLive s (SendMessageRequest.from req) r (SendMessageRequest.thread_id req)
            kept.1,
      ),
  λ w. partition-keeps live (SendMessageRequest.to req) r w.0 (
      WelcomeLive-passes_live s (SendMessageRequest.from req) r (SendMessageRequest.thread_id req)
        w.1),
)
  where
    live : Text → Bool
    live = passes_live s (SendMessageRequest.from req) (SendMessageRequest.thread_id req)

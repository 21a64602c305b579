-- ===== src/Memory/Delivery.antt =====
-- What an appended event delivers, and what the inboxes hold after a run of events.
use intermute.Base.{
  List, [], ◌∷◌, ◌++◌, ◌≡◌, inl, inr, sym, ◌∙◌, ap, subst, append_assoc, append-nil, find_or, put,
  find_or-put_same, find_or-put_other, Map, if◌then◌else◌, Bool-cases, Text, text_eq, text_eq_iff,
}
use intermute.Memory.{
  Message, Event, InMemory, event_message_created, event_project, recipients, deliver, stamped,
  store_message, append_event, inbox_of,
}

-- One copy of the message for each time the agent is named.
abbrev pub copies : Text → List Text → Message → List Message
copies agent [] msg = []
copies agent (r ∷ rs) msg =
    let rest = copies agent rs msg in if text_eq r agent then msg ∷ rest else rest

deliver-find_or :
    (agent : Text) (rs : List Text) (msg : Message) (boxes : Map (List Message))
    → find_or [] agent (deliver rs msg boxes) ≡ find_or [] agent boxes ++ copies agent rs msg
unfolding deliver
deliver-find_or agent [] msg boxes = sym (append-nil (find_or [] agent boxes))
deliver-find_or agent (r ∷ rs) msg boxes = elim (Bool-cases (text_eq r agent)) [
  | inl e ↦ rw e (
      deliver-find_or agent rs msg (put r box boxes)
      ∙ ap (λ (xs : List Message). xs ++ copies agent rs msg) (same ((text_eq_iff r agent).0 e))
      ∙ append_assoc (find_or [] agent boxes) (msg ∷ []) (copies agent rs msg))
  | inr e ↦ rw e (
      deliver-find_or agent rs msg (put r box boxes)
      ∙ ap (λ (xs : List Message). xs ++ copies agent rs msg)
          (find_or-put_other [] r agent box boxes e))
]
  where
    box : List Message
    box = find_or [] r boxes ++ msg ∷ []

    same : r ≡ agent → find_or [] agent (put r box boxes) ≡ find_or [] agent boxes ++ msg ∷ []
    same q =
        subst (λ (k : Text). find_or [] k (put r box boxes) ≡ find_or [] k boxes ++ msg ∷ []) q
          (find_or-put_same [] r box boxes)

store_message-inbox_of :
    (ev : Event) (m : InMemory) (project agent : Text)
    → inbox_of project agent (store_message ev m) ≡ (
        if text_eq (event_project ev) project
        then inbox_of project agent m ++ copies agent (recipients ev) (stamped m ev)
        else inbox_of project agent m)
unfolding store_message inbox_of stamped
store_message-inbox_of ev m project agent = elim (Bool-cases (text_eq (event_project ev) project)) [
  | inl e ↦ rw e (
      subst
        (λ (k : Text).
          find_or [] agent (
            find_or [] k (
              put (event_project ev) (deliver (recipients ev) (stamped m ev) boxes)
                (InMemory.inbox m)))
          ≡ find_or [] agent (find_or [] k (InMemory.inbox m))
            ++ copies agent (recipients ev) (stamped m ev))
        ((text_eq_iff (event_project ev) project).0 e)
        (ap (λ (b : Map (List Message)). find_or [] agent b)
            (find_or-put_same [] (event_project ev) _ (InMemory.inbox m))
          ∙ deliver-find_or agent (recipients ev) (stamped m ev) boxes))
  | inr e ↦ rw e (
      ap (λ (b : Map (List Message)). find_or [] agent b)
        (find_or-put_other [] (event_project ev) project _ (InMemory.inbox m) e))
]
  where
    boxes : Map (List Message)
    boxes = find_or [] (event_project ev) (InMemory.inbox m)

-- Where the event goes to another project, or creates no message, the inbox stays as it was; else it gets one copy,
-- with the new cursor, for each time the agent is a recipient, behind what it held.
pub append_event-inbox_of :
    (ev : Event) (m : InMemory) (project agent : Text)
    → inbox_of project agent (append_event ev m).1 ≡ (
        if text_eq (Event.type ev) event_message_created
        then if text_eq (event_project ev) project
          then inbox_of project agent m ++ copies agent (recipients ev) (stamped m ev)
          else inbox_of project agent m
        else inbox_of project agent m)
unfolding append_event inbox_of
append_event-inbox_of ev m project agent =
    elim (Bool-cases (text_eq (Event.type ev) event_message_created)) [
      | inl e ↦ rw e (store_message-inbox_of ev m project agent)
      | inr e ↦ rw e
    ]

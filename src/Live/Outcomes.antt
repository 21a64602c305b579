-- ===== src/Live/Outcomes.antt =====
-- How a send ends: a refusal, or one of the two responses.
use intermute.Base.{
  ℕ, ◌≡◌, refl, sym, subst, Bool, true, false, not, List, [], if_cases, Text, text_eq, Map, Result,
  ok, err,
}
use intermute.Memory.{Message, Event}
use intermute.Contact.{
  Lookups, SendMessageRequest, AllowedRecipients, valid_transport, resolve_transport,
  resolve_allowed_recipients,
}
use intermute.Resilience.Limiter.{RateLimiter}
use intermute.Messages.{Tables}
use intermute.Live.{
  transport_live, Windows, Outside, RecipientPlan, enforce_live_rate_limit, build_send_message,
  resolve_recipient_plans,
}
use intermute.Live.Delivery.{deliver_live}
use intermute.Live.Send.{
  SendResponse, invalid_transport, policy_denied, rate_limited, recipient_busy, delivery_failed,
  delivered, sent, Outcome, refused, respond_live, respond_durable, send_planned, send_allowed,
  handle_send_message,
}

abbrev pub is_refusal : SendResponse → Bool
is_refusal invalid_transport = true
is_refusal (policy_denied denied) = true
is_refusal rate_limited = true
is_refusal (recipient_busy agent focus) = true
is_refusal (delivery_failed deliveries) = true
is_refusal (delivered deliveries denied) = false
is_refusal (sent id cursor denied deliveries) = false

module _ (trim_space to_lower : Text → Text) (project : Text) (Q : Outcome → Type 0) (db : Tables)
    (stop : (r : SendResponse) (l : RateLimiter) → is_refusal r ≡ true → Q (refused r l db))
    (live : (now : ℕ) (pokes : List Event) (deliveries : Map Text) (denied : List Text)
        (l : RateLimiter)
      → Q (respond_live trim_space to_lower now pokes deliveries denied l db))
    (durable : (o : Outside) (now : ℕ) (msg : Message) (transport : Text)
        (plans : List RecipientPlan) (denied : List Text) (l : RateLimiter)
      → Q (
          respond_durable trim_space to_lower now project msg
            (deliver_live o project msg transport 0 plans []).1
            (deliver_live o project msg transport 0 plans []).0
            denied
            l
            db)) where
  send_planned-outcome :
      (o : Outside) (now : ℕ) (msg : Message) (transport : Text) (denied : List Text)
      (plans : Result (Text × Text) (List RecipientPlan)) (l : RateLimiter)
      → Q (send_planned trim_space to_lower o now project msg transport denied plans l db)
  unfolding send_planned
  send_planned-outcome o now msg transport denied (err busy) l =
      stop (recipient_busy busy.0 busy.1) l refl
  send_planned-outcome o now msg transport denied (ok plans) l =
      let done = deliver_live o project msg transport 0 plans [] in
      if_cases Q (text_eq transport transport_live) _ _ (λ _. live now done.1 done.0 denied l)
        (λ _. durable o now msg transport plans denied l)

  send_allowed-outcome :
      (w : Windows) (o : Outside) (new_id : Text) (now : ℕ) (req : SendMessageRequest)
      (transport : Text) (allowed : Result (List Text) AllowedRecipients) (l : RateLimiter)
      → Q (send_allowed trim_space to_lower w o new_id now req project transport allowed l db)
  unfolding send_allowed
  send_allowed-outcome w o new_id now req transport (err denied) l =
      stop (policy_denied denied) l refl
  send_allowed-outcome w o new_id now req transport (ok allowed) l =
      let spent = enforce_live_rate_limit now req.from allowed.to transport l in
      if_cases Q (not spent.0) _ _ (λ _. stop rate_limited spent.1 refl)
        (λ _.
          send_planned-outcome o now (build_send_message new_id now req project transport allowed)
            transport allowed.denied
            (resolve_recipient_plans trim_space w req.target_window_uuid transport allowed.to)
            spent.1)

  -- What holds of every refusal and of both responses holds of the send.
  pub handle_send_message-outcome :
      (lookups : Text → Lookups) (w : Windows) (o : Outside) (new_id : Text) (now : ℕ)
      (req : SendMessageRequest) (l : RateLimiter)
      → trim_space req.project ≡ project
      → Q (handle_send_message trim_space to_lower lookups w o new_id now req l db)
  unfolding handle_send_message
  handle_send_message-outcome lookups w o new_id now req l named =
      let transport = resolve_transport (lookups (trim_space req.project)) req.transport in
      if_cases Q (not (valid_transport transport)) _ _ (λ _. stop invalid_transport l refl)
        (λ _.
          subst
            (λ (p : Text). Q (
              send_allowed trim_space to_lower w o new_id now req p transport
                (resolve_allowed_recipients (lookups (trim_space req.project)) req transport) l db))
            (sym named)
            (send_allowed-outcome w o new_id now req transport
              (resolve_allowed_recipients (lookups (trim_space req.project)) req transport) l))

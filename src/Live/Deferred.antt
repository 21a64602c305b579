-- ===== src/Live/Deferred.antt =====
-- A delivery that is reported as deferred is kept for the recipient: from the response down to the
-- pokes of the store.
use intermute.Base.{
  bools_differ, ℕ, suc, ◌≡◌, refl, sym, ap, subst, ◌∙◌, ◌⊎◌, inl, inr, true, false, ◌||◌, Option,
  none, some, List, [], ◌∷◌, ◌++◌, if_cases, Bool-cases, Mem, Text, text_eq, text_eq_iff, codes,
  is_empty, Map, find, find_or, put, find-put_same, find-put_other, arith,
}
use intermute.Memory.{Message, Event}
use intermute.Contact.{Lookups, SendMessageRequest}
use intermute.Resilience.Limiter.{RateLimiter}
use intermute.Messages.{PokeRow, Tables, poke_result_deferred, tables_project}
use intermute.Messages.Receipts.{list_pending_pokes}
use intermute.Messages.Refinement.{either_way}
use intermute.Messages.Pending.{Unsurfaced, Defers, append_all-Waiting, list_pending_pokes-Waiting}
use intermute.Live.{
  transport_live, Windows, Outside, RecipientPlan, Deliver, deliver_async, deliver_defer,
  deliver_inject,
}
use intermute.Live.Delivery.{
  poke_event, poke_metadata, delivery_deferred, delivery_failed_text, inject_one, deliver_one,
  deliver_live, has_failed_delivery,
}
use intermute.Live.Send.{
  is_empty_events, SendResponse, delivery_failed, delivered, sent, Outcome, clocked, respond_live,
  respond_durable, handle_send_message,
}
use intermute.Live.Outcomes.{is_refusal, handle_send_message-outcome}

-- One of the events defers the message for the agent.
abbrev DeferredIn : Text → Message → Text → List Event → Type 0
DeferredIn project msg agent evs =
    (at : ℕ) × (reason : Text) × Mem
      (poke_event project msg at agent (poke_metadata poke_result_deferred reason)) evs

not_deferred : (s : Text) → text_eq s delivery_deferred ≡ false → s ≡ delivery_deferred → ⊥
not_deferred s ne q = absurd (ground (arith, (text_eq_iff s delivery_deferred).1 q))

others_differ :
    (codes "injected" ≡ delivery_deferred → ⊥)
    × (delivery_failed_text ≡ delivery_deferred → ⊥)
    × (codes "async" ≡ delivery_deferred → ⊥)
unfolding text_eq
others_differ = (
  not_deferred (codes "injected") refl,
  not_deferred delivery_failed_text refl,
  not_deferred (codes "async") refl,
)

inject_one-DeferredIn :
    (project : Text) (msg : Message) (transport : Text) (at : ℕ) (agent : Text) (out : Option Text)
    → (inject_one project msg transport at agent out).0 ≡ delivery_deferred
    → DeferredIn project msg agent (inject_one project msg transport at agent out).1
unfolding inject_one
inject_one-DeferredIn project msg transport at agent none = λ h. absurd (others_differ.0 h)
inject_one-DeferredIn project msg transport at agent (some why) =
    if_cases (λ (d : Text × List Event). d.0 ≡ delivery_deferred → DeferredIn project msg agent d.1)
      (text_eq transport transport_live) _ _ (λ _ h. absurd (others_differ.1 h))
      (λ _ h. (at, codes "inject_failed: " ++ why, inl refl))

deliver_one-DeferredIn :
    (o : Outside) (project : Text) (msg : Message) (transport : Text) (n : ℕ) (agent focus : Text)
    (d : Deliver)
    → (deliver_one o project msg transport n agent focus d).0 ≡ delivery_deferred
    → DeferredIn project msg agent (deliver_one o project msg transport n agent focus d).1
unfolding deliver_one
deliver_one-DeferredIn o project msg transport n agent focus deliver_async h =
    absurd (others_differ.2 h)
deliver_one-DeferredIn o project msg transport n agent focus deliver_defer h =
    (Outside.clock o n, codes "recipient_" ++ focus, inl refl)
deliver_one-DeferredIn o project msg transport n agent focus (deliver_inject target) h =
    inject_one-DeferredIn project msg transport (Outside.clock o n) agent _ h

Mem-left : {A : Type 0} (x : A) (xs ys : List A) → Mem x xs → Mem x (xs ++ ys)
Mem-left x [] ys h = elim h [ ]
Mem-left x (z ∷ xs) ys (inl e) = inl e
Mem-left x (z ∷ xs) ys (inr m) = inr (Mem-left x xs ys m)

Mem-right : {A : Type 0} (x : A) (xs ys : List A) → Mem x ys → Mem x (xs ++ ys)
Mem-right x [] ys h = h
Mem-right x (z ∷ xs) ys h = inr (Mem-right x xs ys h)

-- A deferral that is reported at the end was there before, or has its event.
deliver_live-DeferredIn :
    (o : Outside) (project : Text) (msg : Message) (transport : Text) (n : ℕ)
    (plans : List RecipientPlan) (deliveries : Map Text) (agent : Text)
    → find agent (deliver_live o project msg transport n plans deliveries).0
      ≡ some delivery_deferred
    → (find agent deliveries ≡ some delivery_deferred)
      ⊎ DeferredIn project msg agent (deliver_live o project msg transport n plans deliveries).1
unfolding deliver_live
deliver_live-DeferredIn o project msg transport n [] deliveries agent h = inl h
deliver_live-DeferredIn o project msg transport n (plan ∷ plans) deliveries agent h =
    let one = deliver_one o project msg transport n plan.agent plan.focus_state plan.deliver in
    let next = put plan.agent one.0 deliveries in
    let rest = deliver_live o project msg transport (suc n) plans next in
    elim (deliver_live-DeferredIn o project msg transport (suc n) plans next agent h) [
      | inr (at, reason, m) ↦ inr (at, reason, Mem-right _ one.1 rest.1 m)
      | inl before ↦ elim (Bool-cases (text_eq plan.agent agent)) [
        | inr e ↦ inl (sym (find-put_other plan.agent agent one.0 deliveries e) ∙ before)
        | inl e ↦
            let same = (text_eq_iff plan.agent agent).0 e in
            let reported : one.0 ≡ delivery_deferred = some_inj (
              sym (find-put_same plan.agent one.0 deliveries)
              ∙ ap (λ (a : Text). find a next) same
              ∙ before) in
            let kept =
              deliver_one-DeferredIn o project msg transport n plan.agent plan.focus_state
                plan.deliver reported in
            inr (
              subst (λ (a : Text). DeferredIn project msg a (one.1 ++ rest.1)) same
                (kept.0, kept.1, Mem-left _ one.1 rest.1 kept.2))
      ]
    ]
  where
    some_inj : {x y : Text} → Path (Option Text) (some x) (some y) → x ≡ y
    some_inj q = cc

clocked-Mem :
    (now : ℕ) (ev : Event) (evs : List Event) → Mem ev evs → Mem (now, ev) (clocked now evs)
clocked-Mem now ev [] m = elim m [ ]
clocked-Mem now ev (e ∷ evs) (inl q) = inl (ap (λ x. (now, x)) q)
clocked-Mem now ev (e ∷ evs) (inr m) = inr (clocked-Mem now ev evs m)

find-nil : (agent x : Text) → Path (Option Text) (find agent []) (some x) → ⊥
unfolding find
find-nil agent x q = cc

no_earlier : {B : Type 0} → (agent : Text) → (find agent [] ≡ some delivery_deferred) ⊎ B → B
no_earlier agent (inl q) = absurd (find-nil agent delivery_deferred q)
no_earlier agent (inr b) = b

not_sent :
    {id : Text} {cursor : ℕ} {denied : List Text} {deliveries : Map Text}
    → (r : SendResponse) → is_refusal r ≡ true
    → r ≡ sent id cursor denied deliveries
    → ⊥
not_sent r refusal q = bools_differ (sym refusal ∙ ap is_refusal q)

module _ (trim_space to_lower : Text → Text) where
  poke_event-Defers :
      (project : Text) (msg : Message) (at : ℕ) (agent reason : Text)
      → Defers trim_space to_lower
          (trim_space project)
          agent
          msg.id
          (poke_event project msg at agent (poke_metadata poke_result_deferred reason))
  unfolding text_eq find_or find tables_project
  poke_event-Defers project msg at agent reason = record {
    poke = refl;
    created = refl;
    deferred = refl;
    to = refl;
    message = refl;
    at = either_way (trim_space project) (is_empty (trim_space project));
  }

  -- A response that reports an agent's delivery as deferred, in a store where no poke of the message
  -- to the agent has been surfaced, leaves the message among the agent's pending pokes.
  abbrev pub KeptForLater : Text → Tables → Outcome → Type 0
  KeptForLater project db out =
      (id : Text) (cursor : ℕ) (denied : List Text) (deliveries : Map Text) (agent : Text)
      → out.response ≡ sent id cursor denied deliveries
      → find agent deliveries ≡ some delivery_deferred
      → Unsurfaced project agent id db.pokes
      → (p : PokeRow) × Mem p (list_pending_pokes project agent (Outcome.tables out))
        × (p.message_id ≡ id)

  respond_durable-KeptForLater :
      (project : Text) (db : Tables) (o : Outside) (now : ℕ) (msg : Message) (transport : Text)
      (plans : List RecipientPlan) (denied : List Text) (l : RateLimiter)
      → KeptForLater (trim_space project) db (
          respond_durable trim_space to_lower now project msg
            (deliver_live o project msg transport 0 plans []).1
            (deliver_live o project msg transport 0 plans []).0
            denied
            l
            db)
  unfolding respond_durable
  respond_durable-KeptForLater project db o now msg transport plans denied l id cursor d deliveries
        agent response reported fresh =
      let live = deliver_live o project msg transport 0 plans [] in
      let same = sent_inj response in
      let kept = no_earlier agent (
        deliver_live-DeferredIn o project msg transport 0 plans [] agent
          (ap (find agent) same.1 ∙ reported)) in
      let ev = poke_event project msg kept.0 agent (poke_metadata poke_result_deferred kept.1) in
      list_pending_pokes-Waiting (trim_space project) agent id _ (
        append_all-Waiting trim_space to_lower (trim_space project) agent id _ db now ev
          (inr (clocked-Mem now ev live.1 kept.2))
          (subst (λ (i : Text). Defers trim_space to_lower (trim_space project) agent i ev) same.0
            (poke_event-Defers project msg kept.0 agent kept.1))
          fresh)
    where
      sent_inj :
          {i j : Text} {b c : ℕ} {x y : List Text} {m n : Map Text}
          → Path SendResponse (sent i b x m) (sent j c y n)
          → (i ≡ j) × (m ≡ n)
      sent_inj q = (cc, cc)

  respond_live-KeptForLater :
      (project : Text) (db : Tables) (now : ℕ) (pokes : List Event) (deliveries : Map Text)
      (denied : List Text) (l : RateLimiter)
      → KeptForLater project db (respond_live trim_space to_lower now pokes deliveries denied l db)
  unfolding respond_live
  respond_live-KeptForLater project db now pokes deliveries denied l id c d m agent =
      if_cases
        (λ (out : Outcome).
          out.response ≡ sent id c d m
          → find agent m ≡ some delivery_deferred
          → Unsurfaced project agent id db.pokes
          → (p : PokeRow) × Mem p (list_pending_pokes project agent (Outcome.tables out))
            × (p.message_id ≡ id))
        (is_empty_events pokes || has_failed_delivery deliveries) _ _ (λ _ q. absurd (failed q))
        (λ _ q. absurd (done q))
    where
      failed : Path SendResponse (delivery_failed deliveries) (sent id c d m) → ⊥
      failed q = cc

      done : Path SendResponse (delivered deliveries denied) (sent id c d m) → ⊥
      done q = cc

  handle_send_message-KeptForLater :
      (lookups : Text → Lookups) (w : Windows) (o : Outside) (new_id : Text) (now : ℕ)
      (req : SendMessageRequest) (l : RateLimiter) (db : Tables)
      → KeptForLater
          (trim_space (trim_space req.project))
          db
          (handle_send_message trim_space to_lower lookups w o new_id now req l db)
  handle_send_message-KeptForLater lookups w o new_id now req l db =
      handle_send_message-outcome trim_space to_lower (trim_space req.project)
        (KeptForLater (trim_space (trim_space req.project)) db) db
        (λ r l refusal id cursor denied deliveries agent response.
          absurd (not_sent r refusal response))
        (respond_live-KeptForLater (trim_space (trim_space req.project)) db)
        (λ o now msg transport plans denied l.
          respond_durable-KeptForLater (trim_space req.project) db o now msg transport plans denied
            l)
        lookups w o new_id now req l refl

  -- When a send is answered with a list of deliveries that reports an agent as deferred, and no poke of
  -- the message to the agent had been surfaced, a poke with the message's id is among the agent's
  -- pending pokes afterwards.
  pub handle_send_message-pending :
      (lookups : Text → Lookups) (w : Windows) (o : Outside) (new_id : Text) (now : ℕ)
      (req : SendMessageRequest) (l : RateLimiter) (db : Tables) (id : Text) (cursor : ℕ)
      (denied : List Text) (deliveries : Map Text) (agent : Text)
      → Outcome.response (handle_send_message trim_space to_lower lookups w o new_id now req l db)
        ≡ sent id cursor denied deliveries
      → find agent deliveries ≡ some delivery_deferred
      → Unsurfaced (trim_space (trim_space req.project)) agent id db.pokes
      → (p : PokeRow) × Mem p (
          list_pending_pokes (trim_space (trim_space req.project)) agent (
            Outcome.tables
              (handle_send_message trim_space to_lower lookups w o new_id now req l db)))
        × (p.message_id ≡ id)
  handle_send_message-pending lookups w o new_id now req l db =
      handle_send_message-KeptForLater lookups w o new_id now req l db

-- ===== src/Contact/Policies.antt =====
-- What a contact policy asks of a sender: `checkPolicy`, `senderAllowed` and `senderAllowedAuto` of
-- internal/http/handlers_messages.go, in terms of what the lookups say.
use intermute.Base.{
  is_empty, Bool, true, false, not, ◌&&◌, ◌||◌, bools_differ, ◌≡◌, ◌≢◌, ◌↔◌, ◌⊎◌, inl, inr, refl,
  sym, subst, ◌∙◌, ap, if◌then◌else◌, if_cases, Bool-cases, Text, text_eq, Result, ok, err, arith,
  ok_inj, text_eq_iff,
}
use intermute.Contact.{
  policy_auto, policy_block_all, policy_contacts_only, policy_open, Lookups, LookupError,
  lookup_error, affirmed, sender_allowed, sender_allowed_auto, check_policy, passes, passes_live,
}

check_other :
    (s : Lookups) (sender recipient thread_id policy : Text)
    → text_eq policy policy_block_all ≡ false
    → text_eq policy policy_contacts_only ≡ false
    → text_eq policy policy_auto ≡ false
    → check_policy s sender recipient thread_id policy ≡ true
unfolding check_policy
check_other s sender recipient thread_id policy b c a =
    rw (b, c, a)
      (if_cases (λ (x : Bool). x ≡ true) (text_eq policy policy_open || is_empty policy) _ _
        (λ _. refl) (λ _. refl))

check_block_all :
    (s : Lookups) (sender recipient thread_id : Text)
    → check_policy s sender recipient thread_id policy_block_all ≡ false
unfolding check_policy text_eq
check_block_all s sender recipient thread_id = refl

check_contacts_only :
    (s : Lookups) (sender recipient thread_id : Text)
    → check_policy s sender recipient thread_id policy_contacts_only
      ≡ sender_allowed s sender recipient thread_id
unfolding check_policy sender_allowed text_eq
check_contacts_only s sender recipient thread_id = refl

check_auto :
    (s : Lookups) (sender recipient thread_id : Text)
    → check_policy s sender recipient thread_id policy_auto
      ≡ sender_allowed_auto s sender recipient thread_id
unfolding check_policy sender_allowed_auto text_eq
check_auto s sender recipient thread_id = refl

affirmed_iff : (v : Result LookupError Bool) → (affirmed v ≡ true) ↔ (v ≡ ok true)
unfolding affirmed
affirmed_iff (ok b) = (λ e. ap ok e, λ e. ok_inj e)
affirmed_iff (err x) = (λ e. cc, λ e. cc)

module _ (s : Lookups) (sender recipient thread_id : Text) where
  -- The sender is a contact of the recipient, or the message is in a thread in which it takes part.
  pub data Vouched : Type 0 where
    contact : Lookups.is_contact s recipient sender ≡ ok true → Vouched
    participant :
        is_empty thread_id ≡ false
        → Lookups.is_thread_participant s thread_id sender ≡ ok true
        → Vouched

  -- What a policy lets through: strings that are no policy are open.
  pub data Permits (policy : Text) : Type 0 where
    anyone :
        policy ≢ policy_block_all
        → policy ≢ policy_contacts_only
        → policy ≢ policy_auto
        → Permits policy
    vouched : (policy ≡ policy_contacts_only) ⊎ (policy ≡ policy_auto) → Vouched → Permits policy
    overlapping :
        policy ≡ policy_auto
        → Lookups.has_reservation_overlap s recipient sender ≡ ok true
        → Permits policy

  -- A policy that cannot be read lets everybody through.
  pub data Welcome : Type 0 where
    unread : Lookups.get_contact_policy s recipient ≡ err lookup_error → Welcome
    permitted :
        (policy : Text)
        → Lookups.get_contact_policy s recipient ≡ ok policy
        → Permits policy
        → Welcome

  -- For live delivery a policy that cannot be read asks what contacts_only asks.
  pub data WelcomeLive : Type 0 where
    unread_live :
        Lookups.get_live_contact_policy s recipient ≡ err lookup_error → Vouched → WelcomeLive
    permitted_live :
        (policy : Text)
        → Lookups.get_live_contact_policy s recipient ≡ ok policy
        → Permits policy
        → WelcomeLive

  sender_allowed_iff : (sender_allowed s sender recipient thread_id ≡ true) ↔ Vouched
  unfolding sender_allowed
  sender_allowed_iff =
      (λ h. go (Bool-cases (affirmed (Lookups.is_contact s recipient sender))) h, λ v. back v)
    where
      thread : Bool
      thread =
          not (is_empty thread_id) && affirmed (Lookups.is_thread_participant s thread_id sender)

      go :
          (affirmed (Lookups.is_contact s recipient sender) ≡ true)
            ⊎ (affirmed (Lookups.is_contact s recipient sender) ≡ false)
          → (if affirmed (Lookups.is_contact s recipient sender) then true else thread) ≡ true
          → Vouched
      go (inl e) h = contact ((affirmed_iff _).0 e)
      go (inr e) h = participant (ground (arith, e, h)) ((affirmed_iff _).0 (ground (arith, e, h)))

      back :
          Vouched
          → (if affirmed (Lookups.is_contact s recipient sender) then true else thread) ≡ true
      back (contact e) = rw ((affirmed_iff _).1 e)
      back (participant n e) = ground (arith, n, (affirmed_iff _).1 e)

  sender_allowed_auto-to :
      sender_allowed_auto s sender recipient thread_id ≡ true
      → (Lookups.has_reservation_overlap s recipient sender ≡ ok true) ⊎ Vouched
  unfolding sender_allowed_auto
  sender_allowed_auto-to h =
      go (Bool-cases (affirmed (Lookups.has_reservation_overlap s recipient sender))) h
    where
      overlap : Bool
      overlap = affirmed (Lookups.has_reservation_overlap s recipient sender)

      go :
          (overlap ≡ true) ⊎ (overlap ≡ false)
          → (if overlap then true else sender_allowed s sender recipient thread_id) ≡ true
          → (Lookups.has_reservation_overlap s recipient sender ≡ ok true) ⊎ Vouched
      go (inl e) h = inl ((affirmed_iff _).0 e)
      go (inr e) h = inr (sender_allowed_iff.0 (ground (arith, e, h)))

  sender_allowed_auto-of :
      (Lookups.has_reservation_overlap s recipient sender ≡ ok true) ⊎ Vouched
      → sender_allowed_auto s sender recipient thread_id ≡ true
  unfolding sender_allowed_auto
  sender_allowed_auto-of (inl e) = rw ((affirmed_iff _).1 e)
  sender_allowed_auto-of (inr v) = ground (arith, sender_allowed_iff.1 v)

  check_policy-Permits :
      (policy : Text) → check_policy s sender recipient thread_id policy ≡ true → Permits policy
  check_policy-Permits policy h =
      go (Bool-cases (text_eq policy policy_block_all))
        (Bool-cases (text_eq policy policy_contacts_only)) (Bool-cases (text_eq policy policy_auto))
    where
      under :
          (q : Text) → text_eq policy q ≡ true → check_policy s sender recipient thread_id q ≡ true
      under q e =
          subst (λ t. check_policy s sender recipient thread_id t ≡ true)
            ((text_eq_iff policy q).0 e) h

      differs : (q : Text) → text_eq policy q ≡ false → policy ≢ q
      differs q e i = bools_differ (sym ((text_eq_iff policy q).1 i) ∙ e)

      go :
          (text_eq policy policy_block_all ≡ true) ⊎ (text_eq policy policy_block_all ≡ false)
          → (text_eq policy policy_contacts_only ≡ true)
            ⊎ (text_eq policy policy_contacts_only ≡ false)
          → (text_eq policy policy_auto ≡ true) ⊎ (text_eq policy policy_auto ≡ false)
          → Permits policy
      go (inl e) c a =
          elim (bools_differ
            (sym (under policy_block_all e) ∙ check_block_all s sender recipient thread_id)) [ ]
      go (inr e) (inl c) a = vouched (inl ((text_eq_iff policy policy_contacts_only).0 c)) (
          sender_allowed_iff.0
            (sym (check_contacts_only s sender recipient thread_id) ∙ under policy_contacts_only c))
      go (inr e) (inr c) (inl a) =
          elim (sender_allowed_auto-to
            (sym (check_auto s sender recipient thread_id) ∙ under policy_auto a)) [
              | inl o ↦ overlapping ((text_eq_iff policy policy_auto).0 a) o
              | inr v ↦ vouched (inr ((text_eq_iff policy policy_auto).0 a)) v
            ]
      go (inr e) (inr c) (inr a) =
          anyone (differs policy_block_all e) (differs policy_contacts_only c)
            (differs policy_auto a)

  Permits-check_policy :
      (policy : Text) → Permits policy → check_policy s sender recipient thread_id policy ≡ true
  Permits-check_policy policy (anyone b c a) =
      other (differs policy_block_all b) (differs policy_contacts_only c) (differs policy_auto a)
    where
      differs : (q : Text) → policy ≢ q → text_eq policy q ≡ false
      differs q n = elim (Bool-cases (text_eq policy q)) [
        | inl e ↦ elim (n ((text_eq_iff policy q).0 e)) [ ]
        | inr e ↦ e
      ]

      other :
          text_eq policy policy_block_all ≡ false
          → text_eq policy policy_contacts_only ≡ false
          → text_eq policy policy_auto ≡ false
          → check_policy s sender recipient thread_id policy ≡ true
      other = check_other s sender recipient thread_id policy
  Permits-check_policy policy (vouched (inl e) v) =
      rw (e, check_contacts_only) (sender_allowed_iff.1 v)
  Permits-check_policy policy (vouched (inr e) v) =
      rw (e, check_auto) (sender_allowed_auto-of (inr v))
  Permits-check_policy policy (overlapping e o) =
      rw (e, check_auto) (sender_allowed_auto-of (inl o))

  pub passes-Welcome : passes s sender thread_id recipient ≡ true → Welcome
  unfolding passes
  passes-Welcome h = go (Lookups.get_contact_policy s recipient) refl h
    where
      go :
          (p : Result LookupError Text)
          → Lookups.get_contact_policy s recipient ≡ p
          → elim p [ ok policy ↦ check_policy s sender recipient thread_id policy | err e ↦ true ]
            ≡ true
          → Welcome
      go (ok policy) e h = permitted policy e (check_policy-Permits policy h)
      go (err lookup_error) e h = unread e

  pub Welcome-passes : Welcome → passes s sender thread_id recipient ≡ true
  unfolding passes
  Welcome-passes (unread e) = rw (passes, e)
  Welcome-passes (permitted policy e p) = rw (passes, e) (Permits-check_policy policy p)

  pub passes_live-WelcomeLive : passes_live s sender thread_id recipient ≡ true → WelcomeLive
  unfolding passes_live
  passes_live-WelcomeLive h = go (Lookups.get_live_contact_policy s recipient) refl h
    where
      go :
          (p : Result LookupError Text)
          → Lookups.get_live_contact_policy s recipient ≡ p
          → elim p [
            | ok policy ↦ check_policy s sender recipient thread_id policy
            | err e ↦ check_policy s sender recipient thread_id policy_contacts_only
          ]
            ≡ true
          → WelcomeLive
      go (ok policy) e h = permitted_live policy e (check_policy-Permits policy h)
      go (err lookup_error) e h =
          unread_live e
            (sender_allowed_iff.0 (sym (check_contacts_only s sender recipient thread_id) ∙ h))

  pub WelcomeLive-passes_live : WelcomeLive → passes_live s sender thread_id recipient ≡ true
  unfolding passes_live
  WelcomeLive-passes_live (unread_live e v) =
      rw (passes_live, e, check_contacts_only) (sender_allowed_iff.1 v)
  WelcomeLive-passes_live (permitted_live policy e p) =
      rw (passes_live, e) (Permits-check_policy policy p)

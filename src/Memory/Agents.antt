-- ===== src/Memory/Agents.antt =====
-- The agents of `InMemory`, in internal/storage/storage.go: heartbeats, tokens, policies and the
-- listing. A lookup that fails is `err`.
use intermute.Base.{
  ℕ, Bool, false, ◌&&◌, ◌||◌, Option, none, some, List, [], ◌∷◌, ◌≡◌, inl, inr, refl, sym, ◌∙◌, ap,
  subst, filter, Mem, if◌then◌else◌, Bool-cases, Text, text_eq, text_eq_iff, is_empty, Map, find,
  put, find-put_same, find-put_other, Result, ok, err, >>=-eq-ok, Result-cases, guard-eq-ok,
  check-eq-ok, ok_inj, ◌>>=◌,
}
use intermute.Memory.{Agent, InMemory, values}
use intermute.Contact.{policy_open}

pub data AgentError : Type 0 where
  agent_not_found : AgentError
  empty_token : AgentError
  token_not_found : AgentError
  agent_token_mismatch : AgentError

-- `m.agents[agentID]`
unfoldable pub agent_at : Text → InMemory → Result AgentError Agent
agent_at id m = elim (find id (InMemory.agents m)) [ none ↦ err agent_not_found | some a ↦ ok a ]

in_project : Text → Agent → Bool
in_project project a = is_empty project || text_eq (Agent.project a) project

-- The agent as it is after the call, with the store.
unfoldable pub heartbeat : ℕ → Text → Text → InMemory → Result AgentError (Agent × InMemory)
unfolding in_project
heartbeat now project id m = agent_at id m >>= λ a.
    let seen : Agent = record a { last_seen = now } in
    if in_project project a
    then ok (seen, record m { agents = put id seen (InMemory.agents m) })
    else err agent_not_found

unfoldable pub set_contact_policy : Text → Text → InMemory → Result AgentError InMemory
set_contact_policy id policy m = agent_at id m >>= λ a.
    let kept : Agent = record a { contact_policy = policy } in
    ok (record m { agents = put id kept (InMemory.agents m) })

policy_of : Option Agent → Text
policy_of none = policy_open
policy_of (some a) =
    if is_empty (Agent.contact_policy a) then policy_open else Agent.contact_policy a

unfoldable pub get_contact_policy : Text → InMemory → Text
unfolding policy_of
get_contact_policy id m = policy_of (find id (InMemory.agents m))

with_token : Text → List Agent → Result AgentError Text
with_token token [] = err token_not_found
with_token token (a ∷ rest) =
    let later = with_token token rest in
    if text_eq (Agent.token a) token then ok (Agent.id a) else later

unfoldable pub agent_for_token : Text → InMemory → Result AgentError Text
unfolding with_token values
agent_for_token token m =
    if is_empty token then err empty_token else with_token token (values (InMemory.agents m))

pub record WindowIdentity : Type 0 where
  pub id : Text
  pub project : Text
  pub window_uuid : Text
  pub agent_id : Text
  pub display_name : Text
  pub tmux_target : Text

mismatch_unless : Text → WindowIdentity → Result AgentError Text → Result AgentError WindowIdentity
mismatch_unless agent_id wi (err e) = err agent_token_mismatch
mismatch_unless agent_id wi (ok owner) =
    if text_eq owner agent_id then ok wi else err agent_token_mismatch

-- The upsert behind the check keeps nothing in this store, and returns what it was given.
unfoldable pub upsert_window_identity_with_token :
    WindowIdentity → Text → InMemory → Result AgentError WindowIdentity
unfolding mismatch_unless
upsert_window_identity_with_token wi token m =
    if is_empty token
    then err empty_token
    else mismatch_unless (WindowIdentity.agent_id wi) wi (agent_for_token token m)

has_capability : Text → List Text → Bool
has_capability query [] = false
has_capability query (c ∷ cs) = text_eq c query || has_capability query cs

unfoldable pub has_any_capability : List Text → List Text → Bool
unfolding has_capability
has_any_capability agent_caps [] = false
has_any_capability agent_caps (q ∷ qs) =
    has_capability q agent_caps || has_any_capability agent_caps qs

is_listed : Text → List Text → Agent → Bool
unfolding in_project has_any_capability
is_listed project [] a = in_project project a
is_listed project (c ∷ cs) a =
    in_project project a && has_any_capability (Agent.capabilities a) (c ∷ cs)

unfoldable pub list_agents : Text → List Text → InMemory → List Agent
unfolding is_listed values
list_agents project capabilities m =
    filter (is_listed project capabilities) (values (InMemory.agents m))

with_token-owner :
    (token : Text) (all : List Agent) (id : Text)
    → with_token token all ≡ ok id
    → (a : Agent) × Mem a all × (Agent.token a ≡ token) × (Agent.id a ≡ id)
unfolding with_token
with_token-owner token [] id h = cc
with_token-owner token (a ∷ rest) id h = elim (Bool-cases (text_eq (Agent.token a) token)) [
  | inl e ↦ (a, inl refl, (text_eq_iff (Agent.token a) token).0 e, ok_inj (subst answer e h))
  | inr e ↦
      let found = with_token-owner token rest id (subst answer e h) in
      (found.0, inr found.1, found.2, found.3)
]
  where
    answer : Bool → Type 0
    answer b = (if b then ok (Agent.id a) else with_token token rest) ≡ ok id

-- A window identity is accepted only with a nonempty token, which a registered agent has whose id the identity claims.
pub upsert_window_identity_with_token-owner :
    (wi out : WindowIdentity) (token : Text) (m : InMemory)
    → upsert_window_identity_with_token wi token m ≡ ok out
    → (is_empty token ≡ false)
      × ((a : Agent) × Mem a (values (InMemory.agents m))
          × (Agent.token a ≡ token)
          × (Agent.id a ≡ WindowIdentity.agent_id wi))
unfolding upsert_window_identity_with_token agent_for_token
upsert_window_identity_with_token-owner wi out token m h =
    let named = guard-eq-ok (is_empty token) empty_token _ h in
    elim (Result-cases (agent_for_token token m)) [
      | inl r ↦
          let claim =
            check-eq-ok (text_eq r.0 (WindowIdentity.agent_id wi)) agent_token_mismatch _
              (ap (mismatch_unless (WindowIdentity.agent_id wi) wi) (sym r.1) ∙ named.1) in
          let owner = with_token-owner token (values (InMemory.agents m)) r.0 (found r.0 r.1) in
          (
            named.0,
            (
              owner.0,
              owner.1,
              owner.2,
              owner.3 ∙ (text_eq_iff r.0 (WindowIdentity.agent_id wi)).0 claim.0,
            ),
          )
      | inr r ↦
          elim (never
            (ap (mismatch_unless (WindowIdentity.agent_id wi) wi) (sym r.1) ∙ named.1)) [ ]
    ]
  where
    found :
        (owner : Text)
        → agent_for_token token m ≡ ok owner
        → with_token token (values (InMemory.agents m)) ≡ ok owner
    found owner e =
        (guard-eq-ok (is_empty token) empty_token (with_token token (values (InMemory.agents m)))
          e).1

    never : Path (Result AgentError WindowIdentity) (err agent_token_mismatch) (ok out) → ⊥
    never p = cc

-- A policy that was set is the one read, the empty one being read as open; no other agent's changes.
pub set_contact_policy-get :
    (id other policy : Text) (m n : InMemory)
    → set_contact_policy id policy m ≡ ok n
    → (get_contact_policy id n ≡ (if is_empty policy then policy_open else policy))
      × (text_eq id other ≡ false → get_contact_policy other n ≡ get_contact_policy other m)
unfolding set_contact_policy get_contact_policy
set_contact_policy-get id other policy m n h =
    let found = >>=-eq-ok (agent_at id m) _ h in
    let stored = ap InMemory.agents (ok_inj found.2) in
    let kept : Agent = record found.0 { contact_policy = policy } in
    let read : (k : Text) → find k (InMemory.agents n) ≡ find k (put id kept (InMemory.agents m)) =
      λ k. ap (λ (all : Map Agent). find k all) (sym stored) in
    (
      ap policy_of (read id ∙ find-put_same id kept (InMemory.agents m)),
      λ ne. ap policy_of (read other ∙ find-put_other id other kept (InMemory.agents m) ne),
    )

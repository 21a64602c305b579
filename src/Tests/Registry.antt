-- ===== src/Tests/Registry.antt =====
-- Runs of the registration of agents: a session that is taken over.
use intermute.Base.{ℕ, ◌*◌, ◌≡◌, refl, true, List, [], ◌∷◌, text_eq, codes, Result, ok, err}
use intermute.Stamp.{second}
use intermute.Memory.{Agent}
use intermute.Registry.{RegistryError, active_session_conflict, register_agent}

abbrev ada : Agent
ada = record {
  id = codes "a1";
  session_id = codes "s";
  name = codes "ada";
  project = codes "p";
  token = codes "t";
  capabilities = [];
  metadata = [];
  status = [];
  contact_policy = codes "open";
  focus_state = codes "unknown";
  live_contact_policy = codes "contacts_only";
  focus_state_updated = 100 * second;
  last_seen = 100 * second;
  created_at = 100 * second;
}

abbrev back : Agent
back = record ada { id = []; token = []; last_seen = 0 }

abbrev register : ℕ → Agent → Result RegistryError (Agent × List Agent)
register now agent =
    register_agent (λ s. true) (codes "new") (codes "a2") (codes "s2") now [] agent (ada ∷ [])

-- A minute later the session is in use.
in_use : register (160 * second) back ≡ err active_session_conflict
unfolding register_agent text_eq
in_use = refl

-- Ten minutes later its agent is stale, and keeps its id under the new token.
taken_over :
    register (700 * second) back
    ≡ ok (
      record ada { token = codes "new"; last_seen = 700 * second },
      record ada { token = codes "new"; last_seen = 700 * second } ∷ [],
    )
unfolding register_agent text_eq
taken_over = refl

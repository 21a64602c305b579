-- ===== src/Auth.antt =====
-- Requests let in: internal/auth/middleware.go (`Middleware`, `verifyAgentToken`, `authorize`). The
-- keyring's lookup of a key, the store's lookup of a token, whether the peer is local, and the two
-- functions of Go's strings package on Unicode text are fields of `Env`.
pub mod Identity
use intermute.Base.{
  ℕ, Bool, true, false, not, ◌&&◌, Option, none, some, List, [], ◌∷◌, ◌==◌, if◌then◌else◌, Text,
  text_eq, codes, is_empty, Result, ok, err, ◌>>=◌,
}

pub data Mode : Type 0 where
  mode_localhost : Mode
  mode_api_key : Mode

pub record Info : Type 0 where
  pub mode : Mode
  pub project : Text
  pub agent_id : Text
  pub localhost : Bool

-- The responses that the middleware writes itself: 403 and 401.
pub data Refusal : Type 0 where
  identity_missing : Refusal
  identity_mismatch : Refusal
  unauthorized : Refusal

-- `lookup_token` is `none` where the server was given no lookup; a lookup that errs gives `none`.
pub record Env : Type 0 where
  pub trim_space : Text → Text
  pub equal_fold : Text → Text → Bool
  pub project_for_key : Text → Option Text
  pub lookup_token : Option (Text → Option Text)
  pub allow_localhost_without_auth : Bool

-- The headers, and what `isLocalRequest` says of the request.
pub record HttpRequest : Type 0 where
  pub x_agent_id : Text
  pub x_agent_token : Text
  pub authorization : Text
  pub is_local : Bool

-- `none` is Go's nil error.
unfoldable pub verify_agent_token : (Text → Option Text) → Text → Text → Option Refusal
verify_agent_token lookup agent_id token = elim (lookup token) [
  | none ↦ none
  | some registered ↦
      if is_empty agent_id
      then some identity_missing
      else if text_eq registered agent_id
      then none
      else some identity_mismatch
]

-- `strings.SplitN(header, " ", 2)`: the parts around the first space, if there is one.
unfoldable pub split_space : Text → Option (Text × Text)
split_space [] = none
split_space (c ∷ cs) =
    let rest = split_space cs in
    if c == b' ' then some ([], cs) else elim rest [ none ↦ none | some p ↦ some (c ∷ p.0, p.1) ]

-- The key of a bearer header, trimmed.
unfoldable pub bearer_key : Env → Text → Option Text
unfolding split_space
bearer_key env header = elim (split_space (Env.trim_space env header)) [
  | none ↦ none
  | some p ↦ if Env.equal_fold env p.0 (codes "Bearer") then some (Env.trim_space env p.1) else none
]

unfoldable pub authorize : Env → Text → Option Text
unfolding bearer_key
authorize env header = elim (bearer_key env header) [
  | none ↦ none
  | some key ↦ if is_empty key then none else Env.project_for_key env key
]

-- The check of the token, where there is a lookup and a token.
unfoldable pub identity_check : Env → HttpRequest → Option Refusal
unfolding verify_agent_token
identity_check env r = elim (Env.lookup_token env) [
  | none ↦ none
  | some lookup ↦
      let token = Env.trim_space env (HttpRequest.x_agent_token r) in
      if is_empty token
      then none
      else verify_agent_token lookup (Env.trim_space env (HttpRequest.x_agent_id r)) token
]

pub with_key : Text → Option Text → Result Refusal Info
with_key agent_id none = err unauthorized
with_key agent_id (some project) =
    ok (record { mode = mode_api_key; project = project; agent_id = agent_id; localhost = false })

pub admitted : Env → HttpRequest → Result Refusal Info
unfolding authorize with_key
admitted env r =
    let agent_id = Env.trim_space env (HttpRequest.x_agent_id r) in
    if Env.allow_localhost_without_auth env && HttpRequest.is_local r
    then ok (record { mode = mode_localhost; project = []; agent_id = agent_id; localhost = true })
    else with_key agent_id (authorize env (HttpRequest.authorization r))

pub refuse_or : Result Refusal Info → Option Refusal → Result Refusal Info
refuse_or r none = r
refuse_or r (some e) = err e

-- What the handler behind the middleware finds in its context, or the refusal.
unfoldable pub middleware : Env → HttpRequest → Result Refusal Info
unfolding identity_check admitted refuse_or
middleware env r = refuse_or (admitted env r) (identity_check env r)

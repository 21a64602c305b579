-- ===== src/Auth/Identity.antt =====
-- Whom the middleware lets through as whom: internal/auth/middleware.go.
use intermute.Base.{
  Bool, true, false, ◌&&◌, ℕ, [], ◌∷◌, ◌++◌, ◌==◌, codes, Mem, ap, Bool-cases, arith, Option, none,
  some, ◌≡◌, ◌⊎◌, inl, inr, refl, sym, ◌∙◌, subst, if◌then◌else◌, if_cases, Text, text_eq,
  text_eq_iff, is_empty, Result, ok, err, and-parts,
}
use intermute.Auth.{
  mode_localhost, mode_api_key, Info, Refusal, identity_missing, Env, HttpRequest,
  verify_agent_token, split_space, bearer_key, authorize, identity_check, identity_mismatch,
  with_key, refuse_or, admitted, middleware,
}

-- A header `<scheme> <key>`, apart from spaces around it and around the key, in which the scheme is Bearer in any
-- case and the key is not empty and is one of the project.
pub record HasKey (env : Env) (header project : Text) : Type 0 where
  pub scheme : Text
  pub rest : Text
  pub header_parts : Env.trim_space env header ≡ scheme ++ b' ' ∷ rest
  pub one_word : ¬ Mem b' ' scheme
  pub is_bearer : Env.equal_fold env scheme (codes "Bearer") ≡ true
  pub key_given : is_empty (Env.trim_space env rest) ≡ false
  pub key_known : Env.project_for_key env (Env.trim_space env rest) ≡ some project

some_eq : {p q : Text × Text} → some p ≡ some q → p ≡ q
some_eq h = cc

split_space-parts :
    (header : Text) (p : Text × Text)
    → split_space header ≡ some p
    → (header ≡ p.0 ++ b' ' ∷ p.1) × ¬ Mem b' ' p.0
unfolding split_space
split_space-parts [] p h = cc
split_space-parts (c ∷ cs) p h =
    go (Bool-cases (c == b' ')) (split_space cs) (λ q. split_space-parts cs q) h
  where
    Parts : Text → Text × Text → Type 0
    Parts t q = (t ≡ q.0 ++ b' ' ∷ q.1) × ¬ Mem b' ' q.0

    grown : (q : Text × Text) → (c == b' ') ≡ false → Parts cs q → Parts (c ∷ cs) (c ∷ q.0, q.1)
    grown q n parts = (
      ap (λ (t : Text). c ∷ t) parts.0,
      λ m. elim m [ inl e ↦ absurd (ground (arith, e, n)) | inr k ↦ parts.1 k ],
    )

    go :
        ((c == b' ') ≡ true) ⊎ ((c == b' ') ≡ false)
        → (found : Option (Text × Text)) → ((q : Text × Text) → found ≡ some q → Parts cs q)
        → (if c == b' '
            then some ([], cs)
            else elim found [ none ↦ none | some q ↦ some (c ∷ q.0, q.1) ])
          ≡ some p
        → Parts (c ∷ cs) p
    go (inl e) found k h =
        let q : ([], cs) ≡ p = some_eq (ground (arith, e, h)) in
        subst (Parts (c ∷ cs)) q (ap (λ (d : ℕ). d ∷ cs) (ground (arith, e)), λ m. elim m [ ])
    go (inr e) none k h = absurd (ground (arith, e, h))
    go (inr e) (some q) k h =
        let same : (c ∷ q.0, q.1) ≡ p = some_eq (ground (arith, e, h)) in
        subst (Parts (c ∷ cs)) same (grown q e (k q refl))

bearer_key-parts :
    (env : Env) (header key : Text)
    → bearer_key env header ≡ some key
    → (p : Text × Text) × (split_space (Env.trim_space env header) ≡ some p)
      × (Env.equal_fold env p.0 (codes "Bearer") ≡ true)
      × (Env.trim_space env p.1 ≡ key)
unfolding bearer_key
bearer_key-parts env header key h = go (split_space (Env.trim_space env header)) h
  where
    go :
        (found : Option (Text × Text))
        → elim found [
          | none ↦ none
          | some p ↦
              if Env.equal_fold env p.0 (codes "Bearer")
              then some (Env.trim_space env p.1)
              else none
        ]
          ≡ some key
        → (p : Text × Text) × (found ≡ some p)
          × (Env.equal_fold env p.0 (codes "Bearer") ≡ true)
          × (Env.trim_space env p.1 ≡ key)
    go none e = absurd (ground (arith, e))
    go (some p) e = (p, refl, ground (arith, e), ground (arith, e))

authorize-HasKey :
    (env : Env) (header project : Text)
    → authorize env header ≡ some project
    → HasKey env header project
unfolding authorize
authorize-HasKey env header project h = go (bearer_key env header) refl h
  where
    go :
        (found : Option Text)
        → bearer_key env header ≡ found
        → elim found [
          | none ↦ none
          | some key ↦ if is_empty key then none else Env.project_for_key env key
        ]
          ≡ some project
        → HasKey env header project
    go none k e = absurd (ground (arith, e))
    go (some key) k e =
        let (p, found, bearer, trimmed) = bearer_key-parts env header key k in
        let parts = split_space-parts (Env.trim_space env header) p found in
        record {
          scheme = p.0;
          rest = p.1;
          header_parts = parts.0;
          one_word = parts.1;
          is_bearer = bearer;
          key_given = rw trimmed (ground (arith, e));
          key_known = rw trimmed (ground (arith, e));
        }

-- What an admitted request has shown: its agent is the header's, and it is local or has a project's key.
abbrev pub Shown : Env → HttpRequest → Info → Type 0
Shown env r info =
    (Info.agent_id info ≡ Env.trim_space env (HttpRequest.x_agent_id r))
    × (((Info.mode info ≡ mode_localhost)
          × (Env.allow_localhost_without_auth env ≡ true)
          × (HttpRequest.is_local r ≡ true))
        ⊎ ((Info.mode info ≡ mode_api_key)
            × (HasKey env (HttpRequest.authorization r) (Info.project info))))

abbrev Lets : Env → HttpRequest → Result Refusal Info → Type 0
Lets env r (ok info) = Shown env r info
Lets env r (err e) = Unit

with_key-Lets :
    (env : Env) (r : HttpRequest) (project : Option Text)
    → authorize env (HttpRequest.authorization r) ≡ project
    → Lets env r (with_key (Env.trim_space env (HttpRequest.x_agent_id r)) project)
unfolding with_key
with_key-Lets env r none e = tt
with_key-Lets env r (some p) e =
    (refl, inr (refl, authorize-HasKey env (HttpRequest.authorization r) p e))

admitted-Lets : (env : Env) (r : HttpRequest) → Lets env r (admitted env r)
unfolding admitted
admitted-Lets env r =
    if_cases (Lets env r) (Env.allow_localhost_without_auth env && HttpRequest.is_local r) _ _
      (λ h. (
        refl,
        inl (
          refl,
          (and-parts (Env.allow_localhost_without_auth env) (HttpRequest.is_local r) h).0,
          (and-parts (Env.allow_localhost_without_auth env) (HttpRequest.is_local r) h).1,
        ),
      ))
      (λ h. with_key-Lets env r (authorize env (HttpRequest.authorization r)) refl)

refuse_or-eq-ok :
    (r : Result Refusal Info) (e : Option Refusal) {info : Info}
    → refuse_or r e ≡ ok info
    → (e ≡ none) × (r ≡ ok info)
unfolding refuse_or
refuse_or-eq-ok r none h = (refl, h)
refuse_or-eq-ok r (some e) h = cc

-- A request that the middleware lets through runs as the agent that its header names, and either it is local and local
-- requests need no key, or its Authorization header, trimmed, is a word that is Bearer in any case, a space, and a
-- key that is not empty when trimmed, and the keyring has the trimmed key for the project that the request runs in.
pub middleware-Shown :
    (env : Env) (r : HttpRequest) (info : Info) → middleware env r ≡ ok info → Shown env r info
unfolding middleware
middleware-Shown env r info h =
    let let_in = refuse_or-eq-ok (admitted env r) (identity_check env r) h in
    subst (Lets env r) let_in.1 (admitted-Lets env r)

checked :
    (a b : Bool)
    → (if a then some identity_missing else if b then none else some identity_mismatch) ≡ none
    → b ≡ true
checked true b p = cc
checked false true p = refl
checked false false p = cc

identity_check-owner :
    (env : Env) (r : HttpRequest) (lookup : Text → Option Text) (owner : Text)
    → Env.lookup_token env ≡ some lookup
    → is_empty (Env.trim_space env (HttpRequest.x_agent_token r)) ≡ false
    → lookup (Env.trim_space env (HttpRequest.x_agent_token r)) ≡ some owner
    → identity_check env r ≡ none
    → owner ≡ Env.trim_space env (HttpRequest.x_agent_id r)
unfolding identity_check verify_agent_token
identity_check-owner env r lookup owner given named bound h =
    let id = Env.trim_space env (HttpRequest.x_agent_id r) in
    (text_eq_iff owner id).0 (checked (is_empty id) (text_eq owner id) (sym opened ∙ h))
  where
    opened : identity_check env r ≡ (
        if is_empty (Env.trim_space env (HttpRequest.x_agent_id r))
        then some identity_missing
        else if text_eq owner (Env.trim_space env (HttpRequest.x_agent_id r))
        then none
        else some identity_mismatch)
    opened = rw (identity_check, given, named, verify_agent_token, bound)

-- Where the server looks tokens up, a request with a token that is bound to an agent runs as that
-- agent or not at all, also when it is local.
pub middleware-owner :
    (env : Env) (r : HttpRequest) (info : Info) (lookup : Text → Option Text) (owner : Text)
    → Env.lookup_token env ≡ some lookup
    → is_empty (Env.trim_space env (HttpRequest.x_agent_token r)) ≡ false
    → lookup (Env.trim_space env (HttpRequest.x_agent_token r)) ≡ some owner
    → middleware env r ≡ ok info
    → Info.agent_id info ≡ owner
unfolding middleware
middleware-owner env r info lookup owner given named bound h =
    let let_in = refuse_or-eq-ok (admitted env r) (identity_check env r) h in
    (subst (Lets env r) let_in.1 (admitted-Lets env r)).0
    ∙ sym (identity_check-owner env r lookup owner given named bound let_in.0)

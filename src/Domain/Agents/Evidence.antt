-- ===== src/Domain/Agents/Evidence.antt =====
-- What an accepted observation of an agent's authentication shows.
use cuna_lib_ts.Base.{
  ◌≡◌, ◌≤◌, ◌<◌, ◌+◌, ℕ, some, true, arith, ◌⊎◌, Bool-cases, ◌||◌, Text, same, same→eq, lit,
  Option-cases, inl, inr, String, ◌∷◌, [], sym,
}
use cuna_lib_ts.Json.{Json}
use cuna_lib_ts.Domain.Chains.{>>=-some, >>-some, some_injective}
use cuna_lib_ts.Domain.Dates.{DateParse}
use cuna_lib_ts.Domain.Agents.Auth.{
  AgentSessionAuth, is_evidence, is_fresh, decode_agent_session_auth, is_unavailable,
  is_interactive, is_credential, is_version,
}
use cuna_lib_ts.Domain.Grammar.{one_of}

-- An observation that holds for a time: of a known process of a known version, seen at `observed`, not
-- more than five seconds from now, and good until `valid`, which is still to come.
pub record Fresh (now observed valid : ℕ) (a : AgentSessionAuth) : Type 0 where
  pub epoch : (e : Text) × (a.process_epoch ≡ some e)
  pub version : is_version a.agent_version ≡ true
  pub lasting : observed < valid
  pub brief : valid ≤ observed + 30000
  pub current : now < valid
  pub seen : observed ≤ now + 5000

-- What an observation may show. Nothing is asked of the times of one that is unavailable but that they
-- are the same.
pub data Shown (now observed valid : ℕ) (a : AgentSessionAuth) : Type 0 where
  unavailable :
      a.state ≡ lit "unavailable"
      → a.evidence_class ≡ lit "insufficient"
      → valid ≡ observed
      → Shown now observed valid a
  login :
      (a.state ≡ lit "login_required") ⊎ (a.state ≡ lit "authenticated")
      → a.auth_mode ≡ lit "interactive_login"
      → a.evidence_class ≡ lit "provider_cli_login_status"
      → Fresh now observed valid a
      → Shown now observed valid a
  credential :
      a.state ≡ lit "configured"
      → a.auth_mode ≡ lit "credential_binding"
      → a.evidence_class ≡ lit "credential_binding_authority"
      → Fresh now observed valid a
      → Shown now observed valid a

pub record Evident (date_parse : DateParse) (now : ℕ) (a : AgentSessionAuth) : Type 0 where
  pub observed : ℕ
  pub valid : ℕ
  pub observed_then : date_parse a.observed_at ≡ some observed
  pub valid_then : date_parse a.valid_until ≡ some valid
  pub adapter :
      (a.adapter_version ≡ lit "cuna.agent-auth.v1")
      ⊎ (a.adapter_version ≡ lit "runa.agent-auth.v1")
  pub shown : Shown now observed valid a

is_fresh-Fresh :
    (now observed valid : ℕ) (a : AgentSessionAuth)
    → is_fresh a.process_epoch a.agent_version now observed valid ≡ true
    → Fresh now observed valid a
unfolding is_fresh
is_fresh-Fresh now observed valid a h = elim (Option-cases a.process_epoch) [
  | inl e ↦ absurd (ground arith)
  | inr (epoch, e) ↦ record {
    epoch = (epoch, e);
    version = ground arith;
    lasting = ground arith;
    brief = ground arith;
    current = ground arith;
    seen = ground arith;
  }
]

either_of :
    (first second : String) (s : Text)
    → one_of (first ∷ second ∷ []) s ≡ true
    → (s ≡ lit first) ⊎ (s ≡ lit second)
unfolding one_of
either_of first second s h = elim (Bool-cases (same (lit first) s)) [
  | inl e ↦ inl (sym (same→eq _ _ e))
  | inr e ↦ inr (sym (same→eq _ _ (ground arith)))
]

login_state :
    (state : Text)
    → (same state (lit "login_required") || same state (lit "authenticated")) ≡ true
    → (state ≡ lit "login_required") ⊎ (state ≡ lit "authenticated")
login_state state h = elim (Bool-cases (same state (lit "login_required"))) [
  | inl e ↦ inl (same→eq _ _ e)
  | inr e ↦ inr (same→eq _ _ (ground arith))
]

-- What the test says, by what it takes the observation for.
module _ (now observed valid : ℕ) (a : AgentSessionAuth)
    (h : is_evidence now observed valid a ≡ true) where
  tested :
      (is_unavailable a.evidence_class a.state ≡ true) × (valid ≡ observed)
      ⊎ (is_fresh a.process_epoch a.agent_version now observed valid ≡ true)
        × ((is_interactive a.auth_mode a.evidence_class a.state ≡ true)
            ⊎ (is_credential a.auth_mode a.evidence_class a.state ≡ true))
  unfolding is_evidence
  tested = elim (Bool-cases (is_unavailable a.evidence_class a.state)) [
    | inl u ↦ inl (u, ground arith)
    | inr u ↦ inr (ground arith, ground arith)
  ]

  adapted :
      (a.adapter_version ≡ lit "cuna.agent-auth.v1")
      ⊎ (a.adapter_version ≡ lit "runa.agent-auth.v1")
  unfolding is_evidence
  adapted = either_of _ _ _ (ground arith)

  is_evidence-Shown : Shown now observed valid a
  is_evidence-Shown = elim tested [
    | inl (u, e) ↦ Shown.unavailable (same→eq _ _ (ground arith)) (same→eq _ _ (ground arith)) e
    | inr (f, inl i) ↦
        login (login_state _ (ground arith)) (same→eq _ _ (ground arith))
          (same→eq _ _ (ground arith)) (is_fresh-Fresh now observed valid a f)
    | inr (f, inr c) ↦
        credential (same→eq _ _ (ground arith)) (same→eq _ _ (ground arith))
          (same→eq _ _ (ground arith)) (is_fresh-Fresh now observed valid a f)
  ]

-- An observation of authentication that is accepted is of one of two adapters and shows one of three
-- things: a login or the want of one, only in that mode and from the provider's own status; a configured
-- credential, only in the other mode and from its authority; or that the state is unavailable. The first
-- two are of a known process and version, hold for at most thirty seconds, have not run out now, and were
-- made no more than five seconds from now; the last holds for no time, and is not compared with now.
pub decode_agent_session_auth-Evident :
    (date_parse : DateParse) (now : ℕ) (value : Json) {a : AgentSessionAuth}
    → decode_agent_session_auth date_parse now value ≡ some a
    → Evident date_parse now a
unfolding decode_agent_session_auth
decode_agent_session_auth-Evident date_parse now value {a} h =
    let (auth, _, h1) = >>=-some h in
    let (observed, o, h2) = >>=-some h1 in
    let (valid, v, h3) = >>=-some h2 in
    let (t, h4) = >>-some h3 in
    rw (some_injective h4) (record {
      observed = observed;
      valid = valid;
      observed_then = o;
      valid_then = v;
      adapter = adapted now observed valid auth t;
      shown = is_evidence-Shown now observed valid auth t;
    })

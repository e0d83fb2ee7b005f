-- ===== src/Domain/Agents/Paired.antt =====
-- What an accepted session of an agent and an accepted page of them satisfy.
use cuna_lib_ts.Base.{
  ◌≡◌, ◌≤◌, some, none, refl, true, false, arith, length, All, Bool, Option, is_some,
}
use cuna_lib_ts.Json.{Json, Fields}
use cuna_lib_ts.Domain.Read.{optional_of}
use cuna_lib_ts.Domain.Chains.{map_items-length, map_items-All, >>=-some, >>-some, some_injective}
use cuna_lib_ts.Domain.Dates.{DateParse}
use cuna_lib_ts.Domain.Agents.Sessions.{
  AgentSession, AgentSessionPage, Passing, read_passing, decode_agent_session,
  decode_agent_session_page, both_or_neither,
}

-- A session that is bound to a workspace names a committed generation of it, and no other session does.
abbrev pub Paired : AgentSession → Type 0
Paired a = is_some a.passing.workspace_binding_id ≡ is_some a.passing.workspace_generation

optional_of-is_some :
    {A : Type 0} (decode : Json → Option A) (o : Option Json) {r : Option A}
    → optional_of decode o ≡ some r
    → is_some r ≡ is_some o
optional_of-is_some decode none h = rw (some_injective h) refl
optional_of-is_some decode (some value) h =
    let (a, _, h1) = >>=-some h in rw (some_injective h1) refl

same_flag : (a b : Bool) → both_or_neither a b ≡ true → a ≡ b
same_flag true b h = cc
same_flag false true h = cc
same_flag false false h = refl

read_passing-paired :
    (date_parse : DateParse) (source : Fields) {p : Passing}
    → read_passing date_parse source ≡ some p
    → is_some p.workspace_binding_id ≡ is_some p.workspace_generation
unfolding read_passing
read_passing-paired date_parse source h =
    let (_, _, h1) = >>=-some h in
    let (_, b, h2) = >>=-some h1 in
    let (_, g, h3) = >>=-some h2 in
    let (t, h4) = >>-some h3 in
    let (_, _, h5) = >>=-some h4 in
    let (_, _, h6) = >>=-some h5 in
    let (_, _, h7) = >>=-some h6 in
    let eb = optional_of-is_some _ _ b in
    let eg = optional_of-is_some _ _ g in rw (some_injective h7, eb, eg) (same_flag _ _ t)

decode_agent_session-Paired :
    (date_parse : DateParse) (value : Json) {a : AgentSession}
    → decode_agent_session date_parse value ≡ some a
    → Paired a
unfolding decode_agent_session
decode_agent_session-Paired date_parse value h =
    let (source, _, h1) = >>=-some h in
    let (_, _, h2) = >>=-some h1 in
    let (_, p, h3) = >>=-some h2 in rw (some_injective h3) (read_passing-paired date_parse source p)

-- A page of sessions that is accepted has at most a hundred of them, and each names a workspace binding
-- exactly if it names a generation.
pub decode_agent_session_page-Paired :
    (date_parse : DateParse) (value : Json) {page : AgentSessionPage}
    → decode_agent_session_page date_parse value ≡ some page
    → (length page.items ≤ 100) × All Paired page.items
unfolding decode_agent_session_page
decode_agent_session_page-Paired date_parse value h =
    let (_, _, h1) = >>=-some h in
    let (sent, _, h2) = >>=-some h1 in
    let (few, h3) = >>-some h2 in
    let (_, _, h4) = >>=-some h3 in
    let (_, m, h5) = >>=-some h4 in
    let n = map_items-length (decode_agent_session date_parse) sent m in
    rw (some_injective h5) (
      ground arith,
      map_items-All Paired (decode_agent_session date_parse)
          (λ value a. decode_agent_session-Paired date_parse value {a = a}) sent m,
    )

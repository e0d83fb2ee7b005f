-- ===== src/Domain/Terminal/Bound.antt =====
-- What an accepted grant of a terminal connection is bound to.
use cuna_lib_ts.Base.{
  none, some, true, refl, inl, inr, Option, Text, not, is_some, ◌≡◌, arith, lit, Bool-cases, same,
  same→eq, map,
}
use cuna_lib_ts.Wire.{cuna, runa, Brand, branded_api_origin}
use cuna_lib_ts.Domain.Terminal.{
  is_expected_url, decode_terminal_connection_grant, TerminalGrant, stream_url,
}
use cuna_lib_ts.Domain.Dates.{DateParse}
use cuna_lib_ts.Json.{Json}
use cuna_lib_ts.Domain.Chains.{>>=-some, >>-some, some_injective}
use cuna_lib_ts.Domain.Grammar.{around}
use cuna_lib_ts.Domain.Sync.Entries.{distinct}

-- A grant whose address is that of its own session at the host of a brand, without the token, and which
-- has five capabilities.
pub record Granted (g : TerminalGrant) : Type 0 where
  pub brand : Brand
  pub addressed :
      g.connect_url ≡ stream_url g.terminal_session_id (branded_api_origin (lit "wss") brand)
  pub apart : around g.connect_token g.connect_url ≡ none
  pub five : distinct (map (λ c. c.name) g.capabilities) ≡ 5

not_there : {A : Type 0} (o : Option A) → not (is_some o) ≡ true → o ≡ none
not_there none h = refl
not_there (some a) h = cc

expected_brand :
    (id url : Text)
    → is_expected_url id url ≡ true
    → (brand : Brand) × (url ≡ stream_url id (branded_api_origin (lit "wss") brand))
unfolding is_expected_url
expected_brand id url h =
    elim (Bool-cases (same url (stream_url id (branded_api_origin (lit "wss") cuna)))) [
      | inl t ↦ (cuna, same→eq url _ t)
      | inr f ↦ (runa, same→eq url _ (ground arith))
    ]

-- An accepted grant connects to its own session at the host of a brand, by an address in which its token
-- does not stand, and has each of the five capabilities.
pub decode_terminal_connection_grant-Granted :
    (date_parse : DateParse) (value : Json) {g : TerminalGrant}
    → decode_terminal_connection_grant date_parse value ≡ some g
    → Granted g
unfolding decode_terminal_connection_grant
decode_terminal_connection_grant-Granted date_parse value h =
    let (_, _, h1) = >>=-some h in
    let (id, _, h2) = >>=-some h1 in
    let (url, _, h3) = >>=-some h2 in
    let (token, _, h4) = >>=-some h3 in
    let (_, _, h5) = >>=-some h4 in
    let (_, h6) = >>-some h5 in
    let (u, h7) = >>-some h6 in
    let (t, h8) = >>-some h7 in
    let (_, _, h9) = >>=-some h8 in
    let (_, h10) = >>-some h9 in
    let (capabilities, _, h11) = >>=-some h10 in
    let (n, h12) = >>-some h11 in
    let (_, _, h13) = >>=-some h12 in
    let (_, _, h14) = >>=-some h13 in
    let (brand, e) = expected_brand id url (ground arith) in
    rw (some_injective h14) (record {
      brand = brand;
      addressed = e;
      apart = not_there (around token url) (ground arith);
      five = ground arith;
    })

-- ===== src/Requests/Dispatched.antt =====
-- What the managers give to the transport, prepared: src/internal/transport.ts below the managers.
pub mod Shapes
pub mod Sync
pub mod Agents
pub mod Sessions
pub mod Asked
mod Tests
use cuna_lib_ts.Base.{
  some, List, true, refl, Bool, ◌≡◌, Text, ◌&&◌, ◌||◌, ◌++◌, Option, not, lit, arith, is_some, same,
  same_refl,
}
use cuna_lib_ts.Errors.{ok}
use cuna_lib_ts.Transport.Prepare.{
  Web, request_of, with_target, prepare, Target, Request, render_path, Body, body_of, query_of,
  with_body, with_path, is_chunk,
}
use cuna_lib_ts.Contract.{OperationKey, generated}
use cuna_lib_ts.Transport.Prepare.Paths.{is_path}
use cuna_lib_ts.Requests.Call.{DispatchInput}
use cuna_lib_ts.Contract.Safety.{needs_idempotency_key}

-- What the code relies on in `new URL`: a plain path below an origin is left as it is.
pub record Resolves (web : Web) (base_url : Text) : Type 0 where
  pub resolved :
      (path : Text) (query : List (Text × Text))
      → is_path path ≡ true
      → (t : Target) × (web.resolve path (base_url ++ lit "/") query ≡ some t)
        × (t.origin ≡ base_url)
        × (t.href ≡ base_url ++ (path ++ t.search))

-- An input that fits its operation.
pub record Fits (web : Web) (key : OperationKey) (input : DispatchInput) : Type 0 where
  pub path : Text
  pub rendered :
      render_path (generated key).path_template input.id input.digest input.binding_id ≡ some path
  pub below : is_path path ≡ true
  pub body : Option Body
  pub carried : body_of web key input ≡ some body
  pub keyed : needs_idempotency_key key ≡ is_some input.idempotency_key

-- A request that is prepared for an operation.
pub record Prepared (P : Type 0) (web : Web) (base_url api_key : Text) (key : OperationKey)
    (input : DispatchInput) : Type 0 where
  pub request : Request
  pub prepared : prepare {P = P} web base_url api_key key input ≡ ok request
  pub path : Text
  pub search : Text
  pub rendered :
      render_path (generated key).path_template input.id input.digest input.binding_id ≡ some path
  pub plain : is_path path ≡ true
  pub at_path : request.url ≡ base_url ++ (path ++ search)
  pub by_method : request.method ≡ (generated key).method
  pub bodied : is_some request.body ≡ (is_chunk key || (generated key).has_request_body)
  pub keyed : needs_idempotency_key key ≡ is_some input.idempotency_key

keyed_so : (needs there : Bool) → needs ≡ there → (needs && there || not needs && not there) ≡ true
keyed_so needs there h = ground arith

with_body-ok :
    {P : Type 0} (api_key : Text) (key : OperationKey) (input : DispatchInput) (t : Target)
    (body : Option Body)
    → needs_idempotency_key key ≡ is_some input.idempotency_key
    → with_body {P = P} api_key key input t (some body) ≡ ok (request_of api_key key input t body)
unfolding with_body
with_body-ok api_key key input t body k = rw (keyed_so _ _ k) refl

prepare-ok :
    {P : Type 0} (web : Web) (base_url api_key : Text) (key : OperationKey) (input : DispatchInput)
    {path : Text} {t : Target} {body : Option Body}
    → render_path (generated key).path_template input.id input.digest input.binding_id ≡ some path
    → web.resolve path (base_url ++ lit "/") (query_of input.query) ≡ some t
    → t.origin ≡ base_url
    → t.href ≡ base_url ++ (path ++ t.search)
    → body_of web key input ≡ some body
    → needs_idempotency_key key ≡ is_some input.idempotency_key
    → prepare {P = P} web base_url api_key key input ≡ ok (request_of api_key key input t body)
unfolding prepare with_path with_target
prepare-ok {P} web base_url api_key key input {path} {t} {body} r w o h b k =
    let s : same t.origin base_url ≡ true = rw o (same_refl base_url) in
    let u : same t.href (base_url ++ (path ++ t.search)) ≡ true =
      rw h (same_refl (base_url ++ (path ++ t.search))) in
    rw (r, w, s, u, b) (with_body-ok {P = P} api_key key input t body k)

body_of-is_some :
    (web : Web) (key : OperationKey) (input : DispatchInput) (body : Option Body)
    → body_of web key input ≡ some body
    → is_some body ≡ (is_chunk key || (generated key).has_request_body)
unfolding body_of
body_of-is_some web key input body h = ground arith

pub Fits-Prepared :
    (P : Type 0) (web : Web) (base_url api_key : Text) (key : OperationKey) (input : DispatchInput)
    → Resolves web base_url
    → Fits web key input
    → Prepared P web base_url api_key key input
unfolding request_of
Fits-Prepared P web base_url api_key key input w f =
    let (t, e, o, h) = w.resolved f.path (query_of input.query) f.below in
    record {
      request = request_of api_key key input t f.body;
      prepared =
          prepare-ok {P = P} web base_url api_key key input f.rendered e o h f.carried f.keyed;
      path = f.path;
      search = t.search;
      rendered = f.rendered;
      plain = f.below;
      at_path = h;
      by_method = refl;
      bodied = body_of-is_some web key input f.body f.carried;
      keyed = f.keyed;
    }

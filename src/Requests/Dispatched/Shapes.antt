-- ===== src/Requests/Dispatched/Shapes.antt =====
-- The inputs that fit the operations of each kind of path.
use cuna_lib_ts.Domain.Grammar.{around}
use cuna_lib_ts.Base.{
  none, some, true, false, refl, Option, Text, Bool, ◌≡◌, ◌&&◌, arith, lit, is_some,
}
use cuna_lib_ts.Transport.Prepare.{Web, Body, body_of}
use cuna_lib_ts.Contract.{OperationKey, generated}
use cuna_lib_ts.Requests.Call.{DispatchInput}
use cuna_lib_ts.Transport.Prepare.Paths.{
  is_path, is_plain, path_of_id, path_alone, is_uuid-is_plain, is_plain_unit, path_of_binding,
  path_of_digest,
}
use cuna_lib_ts.Contract.Safety.{needs_idempotency_key}
use cuna_lib_ts.Domain.Grammar.{is_uuid, after_prefix, is_sha256}
use cuna_lib_ts.Requests.Dispatched.{Fits}

-- A template that is plain but for one parameter.
unfoldable pub is_split : Option (Text × Text) → Bool
is_split none = false
is_split (some (before, after)) = is_path before && is_plain after

split_parts :
    (o : Option (Text × Text))
    → is_split o ≡ true
    → (before after : Text) × (o ≡ some (before, after))
      × (is_path before ≡ true)
      × (is_plain after ≡ true)
unfolding is_split
split_parts none h = cc
split_parts (some (before, after)) h = (before, after, refl, ground arith, ground arith)

-- An operation on a thing with an identifier.
pub id-Fits :
    (web : Web) (key : OperationKey) (input : DispatchInput) (id : Text) (body : Option Body)
    → is_split (around (lit ":id") (generated key).path_template) ≡ true
    → input.id ≡ some id
    → input.digest ≡ none
    → input.binding_id ≡ none
    → is_uuid id ≡ true
    → body_of web key input ≡ some body
    → needs_idempotency_key key ≡ is_some input.idempotency_key
    → Fits web key input
id-Fits web key input id body t i d b u c k =
    let (before, after, e, f, g) = split_parts _ t in
    let (path, r, p) = path_of_id (generated key).path_template id e f g (is_uuid-is_plain id u) in
    record {
      path = path;
      rendered = rw (i, d, b) r;
      below = p;
      body = body;
      carried = c;
      keyed = k;
    }

-- An operation whose path has no parameter.
pub alone-Fits :
    (web : Web) (key : OperationKey) (input : DispatchInput) (body : Option Body)
    → is_path (generated key).path_template ≡ true
    → input.id ≡ none
    → input.digest ≡ none
    → input.binding_id ≡ none
    → body_of web key input ≡ some body
    → needs_idempotency_key key ≡ is_some input.idempotency_key
    → Fits web key input
alone-Fits web key input body t i d b c k = record {
  path = (generated key).path_template;
  rendered = rw (i, d, b) (path_alone (generated key).path_template t);
  below = t;
  body = body;
  carried = c;
  keyed = k;
}

-- An operation on a chunk.
pub chunk-Fits :
    (web : Web) (key : OperationKey) (input : DispatchInput) (id digest : Text) (body : Option Body)
    → (generated key).path_template ≡ lit "/v1/workspace-sync/:id/chunks/:digest"
    → input.id ≡ some id
    → input.digest ≡ some digest
    → input.binding_id ≡ none
    → is_uuid id ≡ true
    → is_sha256 digest ≡ true
    → body_of web key input ≡ some body
    → needs_idempotency_key key ≡ is_some input.idempotency_key
    → Fits web key input
unfolding around lit is_path after_prefix is_plain_unit
chunk-Fits web key input id digest body t i d b u v c k =
    let (path, r, p) =
      path_of_digest (lit "/v1/workspace-sync/:id/chunks/:digest") id digest
        {before = lit "/v1/workspace-sync/"} {between_them = lit "/chunks/"} refl refl refl refl
        (is_uuid-is_plain id u) v in
    record {
      path = path;
      rendered = rw (t, i, d, b) r;
      below = p;
      body = body;
      carried = c;
      keyed = k;
    }

-- An operation on a binding.
pub binding-Fits :
    (web : Web) (key : OperationKey) (input : DispatchInput) (id : Text) (body : Option Body)
    → (generated key).path_template ≡ lit "/v1/workspace-bindings/:binding_id"
    → input.id ≡ none
    → input.digest ≡ none
    → input.binding_id ≡ some id
    → is_uuid id ≡ true
    → body_of web key input ≡ some body
    → needs_idempotency_key key ≡ is_some input.idempotency_key
    → Fits web key input
unfolding around lit is_path after_prefix is_plain_unit
binding-Fits web key input id body t i d b u c k =
    let (path, r, p) =
      path_of_binding (lit "/v1/workspace-bindings/:binding_id") id
        {before = lit "/v1/workspace-bindings/"} refl refl refl refl (is_uuid-is_plain id u) in
    record {
      path = path;
      rendered = rw (t, i, d, b) r;
      below = p;
      body = body;
      carried = c;
      keyed = k;
    }

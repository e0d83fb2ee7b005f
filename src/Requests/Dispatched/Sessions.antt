-- ===== src/Requests/Dispatched/Sessions.antt =====
-- Every call of a session handle, of the managers of src/client.ts and of the machine creates manager
-- fits the operation that it names.
use cuna_lib_ts.Domain.Grammar.{around}
use cuna_lib_ts.Requests.Call.{Call, no_input}
use cuna_lib_ts.Requests.Sessions
use cuna_lib_ts.Requests.Sessions.Create
use cuna_lib_ts.Base.{none, some, true, false, refl, lit, Text, Option, ◌≡◌}
use cuna_lib_ts.Requests.Sessions.{
  refresh, start, pause, resume, stop, Handle, Replacement, replacement_key,
}
use cuna_lib_ts.Transport.Prepare.{Web, body_of, is_chunk}
use cuna_lib_ts.Contract.{OperationKey, generated}
use cuna_lib_ts.Contract.Safety.{needs_idempotency_key}
use cuna_lib_ts.Requests.Dispatched.Shapes.{is_split, alone-Fits, id-Fits}
use cuna_lib_ts.Transport.Prepare.Paths.{is_path, is_plain_unit}
use cuna_lib_ts.Domain.Grammar.{after_prefix, is_uuid}
use cuna_lib_ts.Requests.Value.{Value}
use cuna_lib_ts.Requests.Dispatched.{Fits, Body}
use cuna_lib_ts.Domain.Sessions.{SessionSnapshot}
use cuna_lib_ts.Domain.Chains.{>>=-some, >>-some, some_injective}
use cuna_lib_ts.Requests.Value.Laws.{text_value-satisfies}

pub session_delete-Fits :
    {A : Type 0} (web : Web) (h : Handle) (c : Call A A)
    → Sessions.delete {A = A} h ≡ some c
    → Fits web c.key c.input
unfolding Sessions.delete body_of is_chunk generated needs_idempotency_key is_split around lit
    is_path after_prefix is_plain_unit
session_delete-Fits web h c g =
    let (u, g1) = >>-some g in
    rw (some_injective g1) (id-Fits web _ _ h.snapshot.id _ refl refl refl refl u refl refl)

pub session_open-Fits :
    {A : Type 0} (web : Web) (h : Handle) (c : Call A A)
    → Sessions.open_session {A = A} h ≡ some c
    → Fits web c.key c.input
unfolding Sessions.open_session body_of is_chunk generated needs_idempotency_key is_split around lit
    is_path after_prefix is_plain_unit
session_open-Fits web h c g =
    let (u, g1) = >>-some g in
    rw (some_injective g1) (id-Fits web _ _ h.snapshot.id _ refl refl refl refl u refl refl)

pub session_checkpoint-Fits :
    {A : Type 0} (web : Web) (h : Handle) (r : Value) (c : Call A A)
    → Sessions.checkpoint {A = A} h r ≡ some c
    → Fits web c.key c.input
unfolding Sessions.checkpoint body_of is_chunk generated needs_idempotency_key is_split around lit
    is_path after_prefix is_plain_unit
session_checkpoint-Fits web h r c g =
    let (_, _, g1) = >>=-some g in
    let (u, g2) = >>-some g1 in
    rw (some_injective g2) (id-Fits web _ _ h.snapshot.id _ refl refl refl refl u refl refl)

pub session_exec-Fits :
    {A : Type 0} (web : Web) (h : Handle) (r k : Value) (c : Call A A)
    → Sessions.exec {A = A} h r k ≡ some c
    → Fits web c.key c.input
unfolding Sessions.exec body_of is_chunk generated needs_idempotency_key is_split around lit is_path
    after_prefix is_plain_unit
session_exec-Fits web h r k c g =
    let (_, _, g1) = >>=-some g in
    let (u, g2) = >>-some g1 in
    rw (some_injective g2) (id-Fits web _ _ h.snapshot.id _ refl refl refl refl u refl refl)

pub sessions_got-Fits :
    (web : Web) (w : Value) (c : Call SessionSnapshot Handle)
    → Sessions.get w ≡ some c
    → Fits web c.key c.input
unfolding Sessions.get body_of is_chunk generated needs_idempotency_key is_split around lit is_path
    after_prefix is_plain_unit
sessions_got-Fits web w c g =
    let (id, u, g1) = >>=-some g in
    rw (some_injective g1)
      (id-Fits web _ _ id _ refl refl refl refl (text_value-satisfies is_uuid _ u) refl refl)

pub session_made-Fits :
    (web : Web) (fresh : Text) (w r : Value) (c : Call SessionSnapshot Handle)
    → Create.create fresh w r ≡ some c
    → Fits web c.key c.input
unfolding Create.create body_of is_chunk generated needs_idempotency_key is_split around lit is_path
    after_prefix is_plain_unit
session_made-Fits web fresh w r c g =
    let (_, _, g1) = >>=-some g in
    let (_, _, g2) = >>=-some g1 in
    let (_, _, g3) = >>=-some g2 in
    rw (some_injective g3) (alone-Fits web _ _ _ refl refl refl refl refl refl)

pub create_got-Fits :
    {A : Type 0} (web : Web) (w : Value) (c : Call A A)
    → Sessions.get_create {A = A} w ≡ some c
    → Fits web c.key c.input
unfolding Sessions.get_create body_of is_chunk generated needs_idempotency_key is_split around lit
    is_path after_prefix is_plain_unit
create_got-Fits web w c g =
    let (id, u, g1) = >>=-some g in
    rw (some_injective g1)
      (id-Fits web _ _ id _ refl refl refl refl (text_value-satisfies is_uuid _ u) refl refl)

pub create_reconciled-Fits :
    {A : Type 0} (web : Web) (w : Value) (c : Call A A)
    → Sessions.reconcile_create {A = A} w ≡ some c
    → Fits web c.key c.input
unfolding Sessions.reconcile_create body_of is_chunk generated needs_idempotency_key is_split around
    lit is_path after_prefix is_plain_unit
create_reconciled-Fits web w c g =
    let (id, u, g1) = >>=-some g in
    rw (some_injective g1)
      (id-Fits web _ _ id _ refl refl refl refl (text_value-satisfies is_uuid _ u) refl refl)

replace-Fits :
    (web : Web) (key : OperationKey) (h : Handle) (c : Call SessionSnapshot Handle)
    (body : Option Body)
    → is_split (around (lit ":id") (generated key).path_template) ≡ true
    → body_of web key (record no_input { id = some h.snapshot.id }) ≡ some body
    → needs_idempotency_key key ≡ false
    → Sessions.replace key h ≡ some c
    → Fits web c.key c.input
unfolding Sessions.replace
replace-Fits web key h c body t b n g =
    let (u, g1) = >>-some g in
    rw (some_injective g1) (id-Fits web key _ h.snapshot.id body t refl refl refl u b n)

pub session_replaced-Fits :
    (web : Web) (method : Replacement) (h : Handle) (c : Call SessionSnapshot Handle)
    → Sessions.replace (replacement_key method) h ≡ some c
    → Fits web c.key c.input
unfolding body_of is_chunk generated needs_idempotency_key is_split around lit is_path after_prefix
    is_plain_unit
session_replaced-Fits web refresh h c g = replace-Fits web _ h c none refl refl refl g
session_replaced-Fits web start h c g = replace-Fits web _ h c none refl refl refl g
session_replaced-Fits web pause h c g = replace-Fits web _ h c none refl refl refl g
session_replaced-Fits web resume h c g = replace-Fits web _ h c none refl refl refl g
session_replaced-Fits web stop h c g = replace-Fits web _ h c none refl refl refl g

pub sessions_listed-Fits : (web : Web) → Fits web Sessions.list.key Sessions.list.input
unfolding Sessions.list body_of is_chunk generated needs_idempotency_key is_split around lit is_path
    after_prefix is_plain_unit
sessions_listed-Fits web = alone-Fits web _ _ _ refl refl refl refl refl refl

pub records_listed-Fits :
    (A : Type 0) (web : Web)
    → Fits web (Sessions.list_records {A = A}).key (Sessions.list_records {A = A}).input
unfolding Sessions.list_records body_of is_chunk generated needs_idempotency_key is_split around lit
    is_path after_prefix is_plain_unit
records_listed-Fits A web = alone-Fits web _ _ _ refl refl refl refl refl refl

pub me_asked-Fits :
    (A : Type 0) (web : Web)
    → Fits web (Sessions.me_call {A = A}).key (Sessions.me_call {A = A}).input
unfolding Sessions.me_call body_of is_chunk generated needs_idempotency_key is_split around lit
    is_path after_prefix is_plain_unit
me_asked-Fits A web = alone-Fits web _ _ _ refl refl refl refl refl refl

pub capabilities_got-Fits :
    {A : Type 0} (web : Web) (subject_scope : A → Text) (subject_id : A → Option Text) (w r : Value)
    (c : Call A A)
    → Sessions.get_capabilities subject_scope subject_id w r ≡ some c
    → Fits web c.key c.input
unfolding Sessions.get_capabilities body_of is_chunk generated needs_idempotency_key is_split around
    lit is_path after_prefix is_plain_unit
capabilities_got-Fits web subject_scope subject_id w r c g =
    let (_, _, g1) = >>=-some g in
    let (_, _, g2) = >>=-some g1 in
    rw (some_injective g2) (alone-Fits web _ _ _ refl refl refl refl refl refl)

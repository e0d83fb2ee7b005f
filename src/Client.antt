-- ===== src/Client.antt =====
-- The life of a client: `ClientContext` of src/client.ts. An invocation is two steps, since the code
-- awaits its transport between them; any number of them may be under way at once.
pub mod Invariant
pub mod Closing
pub mod Refinement
mod Tests
use cuna_lib_ts.Base.{ℕ, ◌+◌, ◌-◌, ◌<◌, ◌==◌, if◌then◌else◌, Bool, true, false, ◌||◌, not}

-- `#state`; its "open" is `accepting` here.
pub data State : Type 0 where
  accepting closing closed : State

-- The fields of the class. A transport, a promise and a resolver are either there or not. The last
-- three fields are no part of the class: they count the transports that were made, the calls of their
-- `close`, and the calls of the resolver.
pub record Context : Type 0 where
  pub state : State
  pub active : ℕ
  pub transport : Bool
  pub close_promise : Bool
  pub close_resolver : Bool
  pub made : ℕ
  pub shut : ℕ
  pub resolved : ℕ

unfoldable pub new : Context
new = record {
  state = accepting;
  active = 0;
  transport = false;
  close_promise = false;
  close_resolver = false;
  made = 0;
  shut = 0;
  resolved = 0;
}

abbrev pub is_accepting : State → Bool
is_accepting accepting = true
is_accepting _ = false

abbrev pub is_closing : State → Bool
is_closing closing = true
is_closing _ = false

-- `this.#transport?.close(); this.#transport = undefined;`
drop_transport : Context → Context
drop_transport c = if c.transport then record c { transport = false; shut = c.shut + 1 } else c

-- `#finishClose`
unfoldable pub finish_close : Context → Context
unfolding drop_transport
finish_close c =
    if not (is_closing c.state) || not (c.active == 0) || not c.close_resolver
    then c
    else (let d = drop_transport c in
        record d { state = closed; close_resolver = false; resolved = d.resolved + 1 })

-- What a call of `invoke` has come to when it first waits: a `TypeError`, the error of the
-- transport's constructor, or a request that is under way.
pub data Admission : Type 0 where
  refused failed pending : Admission

-- The `finally` block, which runs when the transport has answered or thrown.
unfoldable pub settle : Context → Context
unfolding finish_close
settle c = finish_close (record c { active = c.active - 1 })

-- `invoke` up to its `await`; `constructs` says whether making a transport would succeed.
unfoldable pub invoke : Bool → Context → Context × Admission
unfolding settle
invoke constructs c =
    if not (is_accepting c.state)
    then (c, refused)
    else (let d = record c { active = c.active + 1 } in
        if d.transport
        then (d, pending)
        else if constructs
        then (record d { transport = true; made = d.made + 1 }, pending)
        else (settle d, failed))

-- `close`
unfoldable pub close : Context → Context
unfolding finish_close
close c =
    if c.close_promise
    then c
    else finish_close (record c { state = closing; close_promise = true; close_resolver = true })

-- What may happen next: a call of `invoke`, the end of a request that is under way, a call of
-- `close`.
pub data Step (c : Context) : Context → Type 0 where
  invoked : (constructs : Bool) → Step c (invoke constructs c).0
  settled : 0 < c.active → Step c (settle c)
  close_called : Step c (close c)

pub data Reach : Context → Type 0 where
  start : Reach new
  next : {c d : Context} → Reach c → Step c d → Reach d

-- ===== src/Client/Invariant.antt =====
-- What holds of a client between two steps.
use cuna_lib_ts.Base.{ℕ, ◌+◌, ◌≤◌, ◌<◌, ◌≡◌, Bool, true, false, arith}
use cuna_lib_ts.Client.{
  State, accepting, closing, closed, Context, new, settle, invoke, close, Step, invoked, settled,
  close_called, Reach, start, next,
}

abbrev pub is_closed : State → ℕ
is_closed closed = 1
is_closed _ = 0

abbrev pub count : Bool → ℕ
count true = 1
count false = 0

pub record Inv (c : Context) : Type 0 where
  pub accepting_fresh : c.state ≡ accepting → (c.close_promise ≡ false) × (c.close_resolver ≡ false)
  pub closing_busy :
      c.state ≡ closing → (0 < c.active) × (c.close_promise ≡ true) × (c.close_resolver ≡ true)
  pub closed_idle :
      c.state ≡ closed
      → (c.active ≡ 0)
        × (c.transport ≡ false)
        × (c.close_promise ≡ true)
        × (c.close_resolver ≡ false)
  pub busy_connected : 0 < c.active → c.transport ≡ true
  pub balanced : c.made ≡ c.shut + count c.transport
  pub made_once : c.made ≤ 1
  pub shut_late : c.state ≡ accepting → c.shut ≡ 0
  pub shut_busy : c.state ≡ closing → c.shut ≡ 0
  pub resolved_once : c.resolved ≡ is_closed c.state

pub new-Inv : Inv new
unfolding new
new-Inv = ground arith

pub settle-Inv : (c : Context) → Inv c → 0 < c.active → Inv (settle c)
unfolding settle
settle-Inv c h p = ground arith

pub invoke-Inv : (constructs : Bool) (c : Context) → Inv c → Inv (invoke constructs c).0
unfolding invoke
invoke-Inv constructs c h = ground arith

pub close-Inv : (c : Context) → Inv c → Inv (close c)
unfolding close
close-Inv c h = ground arith

pub Step-Inv : {c d : Context} → Step c d → Inv c → Inv d
Step-Inv {c} (invoked constructs) h = invoke-Inv constructs c h
Step-Inv {c} (settled p) h = settle-Inv c h p
Step-Inv {c} close_called h = close-Inv c h

-- Every client that any sequence of calls and answers leads to satisfies the invariant: it makes at
-- most one transport, closes it at most once and never while a request is under way, and resolves the
-- promise of `close` exactly when it is closed.
pub Reach-Inv : {c : Context} → Reach c → Inv c
Reach-Inv start = new-Inv
Reach-Inv (next r s) = Step-Inv s (Reach-Inv r)

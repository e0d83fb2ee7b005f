-- ===== src/Client/Tests.antt =====
-- Two requests under way when the client is closed, and the theorems at that client.
use cuna_lib_ts.Base.{◌≡◌, ◌≢◌, refl, true, false, arith, ◌↔◌}
use cuna_lib_ts.Client.{
  accepting, Context, Step, new, settle, invoke, close, invoked, settled, Reach, start, next,
  refused, pending, failed, closed,
}
use cuna_lib_ts.Client.Invariant.{Inv, Reach-Inv}
use cuna_lib_ts.Client.Closing.{
  closing_refuses, settle_all, shut_when_idle, close_drains, close_once,
}
use cuna_lib_ts.Client.Refinement.{view, open_with, Simulates, Reach-Simulates}

abbrev two_pending : Context
two_pending = (invoke true (invoke true new).0).0

two_pending-Reach : Reach two_pending
two_pending-Reach = next (next start (invoked true)) (invoked true)

second_call_waits : (invoke true (invoke true new).0).1 ≡ pending
unfolding invoke new
second_call_waits = refl

failed_call_leaves_no_trace : invoke false new ≡ (new, failed)
unfolding invoke new
failed_call_leaves_no_trace = refl

Reach-Inv_example : Inv two_pending
Reach-Inv_example = Reach-Inv two_pending-Reach

closing_refuses_example :
    ((settle (close two_pending)).state ≢ accepting)
    × (invoke true (settle (close two_pending)) ≡ (settle (close two_pending), refused))
unfolding invoke new close settle
closing_refuses_example =
    closing_refuses {c = close two_pending} true (settled (omega arith))
      (Reach-Inv (next two_pending-Reach Step.close_called)) (λ e. cc)

close_once_example :
    (close (close two_pending) ≡ close two_pending)
    × (((close two_pending).state ≡ closed) ↔ (two_pending.active ≡ 0))
close_once_example = close_once two_pending (Reach-Inv two_pending-Reach)

abbrev last_pending : Context
last_pending = settle (close two_pending)

last_pending-Reach : Reach last_pending
unfolding invoke new close
last_pending-Reach = next (next two_pending-Reach Step.close_called) (settled (omega arith))

shut_when_idle_example : ((settle last_pending).active ≡ 0) × ((settle last_pending).state ≡ closed)
unfolding invoke new close settle
shut_when_idle_example =
    shut_when_idle {c = last_pending} (settled (omega arith)) (Reach-Inv last_pending-Reach)
      (omega arith)

close_drains_example :
    let d = settle_all two_pending.active (close two_pending) in
    (d.state ≡ closed) × (d.transport ≡ false) × (d.shut ≡ d.made) × (d.resolved ≡ 1)
close_drains_example = close_drains two_pending (Reach-Inv two_pending-Reach)

Reach-Simulates_example : (view new ≡ open_with 0) × Simulates last_pending
Reach-Simulates_example = Reach-Simulates last_pending-Reach

-- ===== src/Client/Closing.antt =====
-- How a client closes.
use cuna_lib_ts.Base.{ℕ, zero, suc, ◌↔◌, inl, inr, ◌<◌, ◌≡◌, Bool, false, ◌⊎◌, ◌≢◌, arith}
use cuna_lib_ts.Client.{
  accepting, closing, closed, Context, settle, invoke, close, Step, invoked, settled, close_called,
  refused,
}
use cuna_lib_ts.Client.Invariant.{Inv, settle-Inv, close-Inv}

invoke_turned_away :
    (constructs : Bool) (c : Context) → c.state ≢ accepting → invoke constructs c ≡ (c, refused)
unfolding invoke
invoke_turned_away constructs c n = ground arith

refused_state :
    (constructs : Bool) (c : Context)
    → c.state ≢ accepting
    → (invoke constructs c).0.state ≢ accepting
unfolding invoke
refused_state constructs c n = ground arith

settle_state : (c : Context) → c.state ≢ accepting → (settle c).state ≢ accepting
unfolding settle
settle_state c n = ground arith

close_state : (c : Context) → Inv c → c.state ≢ accepting → (close c).state ≢ accepting
unfolding close
close_state c h n = ground arith

invoke-shut : (constructs : Bool) (c : Context) → Inv c → (invoke constructs c).0.shut ≢ c.shut → ⊥
unfolding invoke
invoke-shut constructs c h n = ground arith

settle-shut :
    (c : Context) → (settle c).shut ≢ c.shut → ((settle c).active ≡ 0) × ((settle c).state ≡ closed)
unfolding settle
settle-shut c n = ground arith

close-shut :
    (c : Context) → (close c).shut ≢ c.shut → ((close c).active ≡ 0) × ((close c).state ≡ closed)
unfolding close
close-shut c n = ground arith

settle_last : (c : Context) → c.state ≡ closing → Inv c → c.active ≡ 1 → (settle c).state ≡ closed
unfolding settle
settle_last c s h a = ground arith

settle_busy :
    (c : Context) (n : ℕ)
    → c.state ≡ closing
    → c.active ≡ suc (suc n)
    → ((settle c).state ≡ closing) × ((settle c).active ≡ suc n)
unfolding settle
settle_busy c n s a = ground arith

close-cases :
    (c : Context)
    → Inv c
    → (((close c).state ≡ closed) × (c.active ≡ 0))
      ⊎ (((close c).state ≡ closing) × ((close c).active ≡ c.active) × (0 < c.active))
unfolding close
close-cases c h = ground arith

-- Once a client is no longer accepting, no step makes it accept again, and a call of `invoke` after
-- that step is refused and changes nothing.
pub closing_refuses :
    {c d : Context} (constructs : Bool)
    → Step c d
    → Inv c
    → c.state ≢ accepting
    → (d.state ≢ accepting) × (invoke constructs d ≡ (d, refused))
closing_refuses {c} constructs (invoked k) h n =
    (refused_state k c n, invoke_turned_away constructs _ (refused_state k c n))
closing_refuses {c} constructs (settled p) h n =
    (settle_state c n, invoke_turned_away constructs _ (settle_state c n))
closing_refuses {c} constructs close_called h n =
    (close_state c h n, invoke_turned_away constructs _ (close_state c h n))

-- A second call of `close` changes nothing, and the first closes the client at once exactly if no
-- request is under way.
pub close_once :
    (c : Context)
    → Inv c
    → (close (close c) ≡ close c) × (((close c).state ≡ closed) ↔ (c.active ≡ 0))
unfolding close
close_once c h = ground arith

-- A step closes the transport only if no request is under way when it ends, and closes the client
-- with it.
pub shut_when_idle :
    {c d : Context} → Step c d → Inv c → d.shut ≢ c.shut → (d.active ≡ 0) × (d.state ≡ closed)
shut_when_idle {c} (invoked constructs) h n = absurd (invoke-shut constructs c h n)
shut_when_idle {c} (settled p) h n = settle-shut c n
shut_when_idle {c} close_called h n = close-shut c n

abbrev pub settle_all : ℕ → Context → Context
settle_all zero c = c
settle_all (suc n) c = settle_all n (settle c)

settle_all-closes :
    (n : ℕ) (c : Context)
    → Inv c
    → c.state ≡ closing
    → c.active ≡ suc n
    → Inv (settle_all (suc n) c) × ((settle_all (suc n) c).state ≡ closed)
settle_all-closes zero c h s a = (settle-Inv c h (omega arith), settle_last c s h a)
settle_all-closes (suc n) c h s a =
    settle_all-closes n (settle c) (settle-Inv c h (omega arith)) (settle_busy c n s a).0
      (settle_busy c n s a).1

-- What the invariant says of a closed client.
closed_facts :
    (c : Context)
    → Inv c
    → c.state ≡ closed
    → (c.state ≡ closed) × (c.transport ≡ false) × (c.shut ≡ c.made) × (c.resolved ≡ 1)
closed_facts c h s = ground arith

drained :
    (n : ℕ) (c : Context)
    → Inv c
    → ((c.state ≡ closed) × (n ≡ 0)) ⊎ ((c.state ≡ closing) × (c.active ≡ n) × (0 < n))
    → (settle_all n c).state ≡ closed
drained zero c h (inl (s, e)) = s
drained (suc n) c h (inl (s, e)) = absurd (omega arith)
drained zero c h (inr (s, a, p)) = absurd (omega arith)
drained (suc n) c h (inr (s, a, p)) = (settle_all-closes n c h s a).1

drained-Inv :
    (n : ℕ) (c : Context)
    → Inv c
    → ((c.state ≡ closed) × (n ≡ 0)) ⊎ ((c.state ≡ closing) × (c.active ≡ n) × (0 < n))
    → Inv (settle_all n c)
drained-Inv zero c h q = h
drained-Inv (suc n) c h (inl (s, e)) = absurd (omega arith)
drained-Inv (suc n) c h (inr (s, a, p)) = (settle_all-closes n c h s a).0

-- After `close`, the client is closed, has let its transport go and has resolved the promise once, as
-- soon as every request that was under way has ended, whatever their number.
pub close_drains :
    (c : Context)
    → Inv c
    → let d = settle_all c.active (close c) in
      (d.state ≡ closed) × (d.transport ≡ false) × (d.shut ≡ d.made) × (d.resolved ≡ 1)
close_drains c h =
    closed_facts (settle_all c.active (close c))
      (drained-Inv c.active (close c) (close-Inv c h) (close-cases c h))
      (drained c.active (close c) (close-Inv c h) (close-cases c h))

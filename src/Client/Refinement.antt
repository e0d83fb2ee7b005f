-- ===== src/Client/Refinement.antt =====
-- What a client promises, as the three operations of an abstract life: `invoke`, its end, and `close` of
-- src/client.ts.
use cuna_lib_ts.Base.{
  ◌∙◌, ap, zero, suc, ◌<◌, inl, inr, refl, ℕ, ◌≡◌, Bool, true, false, ◌||◌, if◌then◌else◌, ◌⊎◌,
  arith,
}
use cuna_lib_ts.Client.{
  Context, State, accepting, closing, closed, invoke, settle, close, Admission, refused, failed,
  pending, Reach, new,
}
use cuna_lib_ts.Client.Invariant.{Inv, Reach-Inv}

-- A client that is open, one that waits for its last requests, and one that is closed.
pub data Lifecycle : Type 0 where
  open_with waiting_for : ℕ → Lifecycle
  ended : Lifecycle

-- A call of `invoke`: it is refused unless the client is open, and fails, without a trace, if there is
-- no transport to be had.
abbrev pub called : Bool → Lifecycle → Lifecycle × Admission
called connects (open_with n) =
    if connects then (open_with (suc n), pending) else (open_with n, failed)
called connects (waiting_for n) = (waiting_for n, refused)
called connects ended = (ended, refused)

-- The end of a request that is under way.
abbrev pub finished : Lifecycle → Lifecycle
finished (open_with zero) = open_with zero
finished (open_with (suc n)) = open_with n
finished (waiting_for zero) = ended
finished (waiting_for (suc zero)) = ended
finished (waiting_for (suc (suc n))) = waiting_for (suc n)
finished ended = ended

-- A call of `close`.
abbrev pub shutting : Lifecycle → Lifecycle
shutting (open_with zero) = ended
shutting (open_with (suc n)) = waiting_for (suc n)
shutting (waiting_for n) = waiting_for n
shutting ended = ended

abbrev pub stage : State → ℕ → Lifecycle
stage accepting n = open_with n
stage closing n = waiting_for n
stage closed n = ended

abbrev pub view : Context → Lifecycle
view c = stage c.state c.active

busy : (n : ℕ) → 0 < n → (m : ℕ) × (n ≡ suc m)
busy zero p = absurd (omega arith)
busy (suc m) p = (m, refl)

-- The three operations of the code, at one client, are those of the abstract life.
pub record Simulates (c : Context) : Type 0 where
  pub calls :
      (constructs : Bool)
      → (view (invoke constructs c).0, (invoke constructs c).1)
        ≡ called (c.transport || constructs) (view c)
  pub finishes : 0 < c.active → view (settle c) ≡ finished (view c)
  pub closes : view (close c) ≡ shutting (view c)

moved :
    {s t s' t' : State} {m n m' n' : ℕ} (f : Lifecycle → Lifecycle)
    → s ≡ s'
    → m ≡ m'
    → t ≡ t'
    → n ≡ n'
    → stage t' n' ≡ f (stage s' m')
    → stage t n ≡ f (stage s m)
moved f p q r u x = rw (p, q, r, u) x

admitted :
    {s t s' t' : State} {n n' : ℕ} {b b' : Bool} {o o' : Admission} (m : ℕ)
    → s ≡ s'
    → t ≡ t'
    → n ≡ n'
    → b ≡ b'
    → o ≡ o'
    → (stage t' n', o') ≡ called b' (stage s' m)
    → (stage t n, o) ≡ called b (stage s m)
admitted m p q r u v x = rw (p, q, r, u, v) x

-- The state, the count and the outcome after each operation.
module _ (c : Context) (h : Inv c) where
  invoke-stage :
      (constructs : Bool)
      → let d = (invoke constructs c).0 in
        let outcome = (invoke constructs c).1 in
        let connects = c.transport || constructs in
        (c.state ≡ accepting)
          × (d.state ≡ accepting)
          × ((connects ≡ true) × (d.active ≡ suc c.active) × (outcome ≡ pending)
              ⊎ (connects ≡ false) × (d.active ≡ c.active) × (outcome ≡ failed))
        ⊎ (d.state ≡ c.state)
          × (d.active ≡ c.active)
          × (outcome ≡ refused)
          × ((c.state ≡ closing) ⊎ (c.state ≡ closed))
  unfolding invoke
  invoke-stage constructs = ground arith

  settle-stage :
      0 < c.active
      → (c.state ≡ accepting) × ((settle c).state ≡ accepting) × (c.active ≡ suc (settle c).active)
        ⊎ (c.state ≡ closing)
          × (c.active ≡ suc (settle c).active)
          × (((settle c).state ≡ closing) × (0 < (settle c).active)
              ⊎ ((settle c).state ≡ closed) × ((settle c).active ≡ 0))
  unfolding settle
  settle-stage p = ground arith

  close-stage :
      ((close c).state ≡ c.state)
        × ((close c).active ≡ c.active)
        × ((c.state ≡ closing) ⊎ (c.state ≡ closed))
      ⊎ (c.state ≡ accepting)
        × (((close c).state ≡ closing) × ((close c).active ≡ c.active) × (0 < c.active)
            ⊎ ((close c).state ≡ closed) × (c.active ≡ 0))
  unfolding close
  close-stage = ground arith

  invoke-called :
      (constructs : Bool)
      → (view (invoke constructs c).0, (invoke constructs c).1)
        ≡ called (c.transport || constructs) (view c)
  invoke-called constructs = elim (invoke-stage constructs) [
    | inl (s, t, inl (b, a, o)) ↦ admitted c.active s t a b o refl
    | inl (s, t, inr (b, a, o)) ↦ admitted c.active s t a b o refl
    | inr (t, a, o, inl s) ↦ admitted c.active s (t ∙ s) a refl o refl
    | inr (t, a, o, inr s) ↦ admitted c.active s (t ∙ s) a refl o refl
  ]

  settle-finished : 0 < c.active → view (settle c) ≡ finished (view c)
  settle-finished p = elim (settle-stage p) [
    | inl (s, t, a) ↦ moved finished s a t refl refl
    | inr (s, a, inl (t, q)) ↦
        let (m, e) = busy (settle c).active q in moved finished s (a ∙ ap suc e) t e refl
    | inr (s, a, inr (t, z)) ↦ moved finished s (a ∙ ap suc z) t z refl
  ]

  close-shutting : view (close c) ≡ shutting (view c)
  close-shutting = elim close-stage [
    | inl (t, a, inl s) ↦ moved shutting s refl (t ∙ s) a refl
    | inl (t, a, inr s) ↦ moved shutting s refl (t ∙ s) a refl
    | inr (s, inl (t, a, q)) ↦ let (m, e) = busy c.active q in moved shutting s e t (a ∙ e) refl
    | inr (s, inr (t, z)) ↦ moved shutting s z t refl refl
  ]

-- Every client that calls and answers lead to goes on as the abstract life does, which knows only whether
-- it is open and how many requests are under way: a call of `invoke` on an open client is one more
-- request, or none and a failure if no transport can be made, and on any other it is refused; `close`
-- ends an idle client, and makes a busy one wait; the last of its requests ends that wait. A new client
-- is open and idle.
pub Reach-Simulates : {c : Context} → Reach c → (view new ≡ open_with 0) × Simulates c
unfolding new
Reach-Simulates {c} r =
    let h = Reach-Inv r in
    (
      refl,
      record {
        calls = invoke-called c h;
        finishes = settle-finished c h;
        closes = close-shutting c h;
      },
    )

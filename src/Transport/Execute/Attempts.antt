-- ===== src/Transport/Execute/Attempts.antt =====
-- How often an operation is sent, and when it is sent again.
use cuna_lib_ts.Base.{
  ℕ, zero, suc, ◌+◌, ◌-◌, ◌≤◌, ◌<◌, ◌≡◌, refl, Bool, true, false, Option, none, some, List, [], ◌∷◌,
  ◌++◌, arith, min, Bool-cases, Option-cases, inl, inr, ◌⊎◌, else_of,
}
use cuna_lib_ts.Contract.{OperationKey, operation_descriptor}
use cuna_lib_ts.Contract.Safety.{is_read, is_get, is_read-eq-is_get}
use cuna_lib_ts.Errors.{thrown, Thrown, abort_error}
use cuna_lib_ts.Transport.Delay.{uniform_delay, uniform_delay-le-bound}
use cuna_lib_ts.Transport.Deadline.{deadline_for, total_deadline_for, maximum_attempts, delay_cap}
use cuna_lib_ts.Transport.Disposition.{Decoders}
use cuna_lib_ts.Transport.Observer.{attempt_start, retry_scheduled}
use cuna_lib_ts.Transport.Execute.{
  Round, Act, observed, armed, fetching, sleeping, Verdict, again, done, round, Trace, loop,
  execute, finish_round, close_trace, close_all,
}

-- How many requests some acts send.
abbrev pub sent : List Act → ℕ
sent [] = 0
sent (fetching ∷ acts) = suc (sent acts)
sent (_ ∷ acts) = sent acts

pub sent-append : (xs ys : List Act) → sent (xs ++ ys) ≡ sent xs + sent ys
sent-append [] ys = omega arith
sent-append (observed e ∷ xs) ys = sent-append xs ys
sent-append (armed n ∷ xs) ys = sent-append xs ys
sent-append (sleeping n ∷ xs) ys = sent-append xs ys
sent-append (fetching ∷ xs) ys = omega (arith, sent-append xs ys)

-- The delay that the random words of a round give.
unfoldable pub delay_drawn : ℕ → Round → ℕ
delay_drawn attempt r = elim (uniform_delay (delay_cap attempt) r.draws) [
  | none ↦ 0
  | some (delay, rest) ↦ delay
]

delay_drawn-le : (attempt : ℕ) (r : Round) → delay_drawn attempt r ≤ delay_cap attempt
unfolding delay_drawn
delay_drawn-le attempt r = elim (Option-cases (uniform_delay (delay_cap attempt) r.draws)) [
  | inl e ↦ rw (e, delay_drawn) (omega arith)
  | inr ((delay, rest), e) ↦
      rw (e, delay_drawn) (uniform_delay-le-bound (delay_cap attempt) r.draws e)
]

module _ {P A : Type 0} (d : Decoders P A) (key : OperationKey) (timeout_secs : Option ℕ)
    (started : ℕ) where
  -- What a round that is to be repeated has come to.
  pub record Repeats (attempt : ℕ) (r : Round) (acts : List Act) : Type 0 where
    pub read : is_read key ≡ true
    pub rejected : r.fetched ≡ none
    pub wanted : r.aborted_after_fetch ≡ false
    pub delay : ℕ
    pub capped : delay ≤ delay_cap attempt
    pub in_time : r.now_after_draw - started + delay < total_deadline_for key timeout_secs
    pub shown :
        acts
        ≡ armed (
            min
              (deadline_for key timeout_secs)
              (total_deadline_for key timeout_secs - (r.now - started)))
          ∷ observed (attempt_start attempt)
          ∷ fetching
          ∷ observed (retry_scheduled (attempt + 1) delay)
          ∷ sleeping delay
          ∷ []

  -- A round of the loop is followed by another only if the operation is a read, its request was rejected
  -- before any response came, the caller has not given up, and the delay, which is within its cap, ends
  -- before the deadline of the whole operation; the round then sent one request, under a timer for what
  -- was left of the time, announced the next attempt and slept for the delay.
  pub again-Repeats :
      (attempt : ℕ) (r : Round) {acts : List Act}
      → round d key timeout_secs started attempt r ≡ some (acts, again)
      → Repeats attempt r acts
  unfolding round delay_drawn
  again-Repeats attempt r h = record {
    read = ground arith;
    rejected = ground arith;
    wanted = ground arith;
    delay = delay_drawn attempt r;
    capped = delay_drawn-le attempt r;
    in_time = ground arith;
    shown = ground arith;
  }

  round-sent :
      (attempt : ℕ) (r : Round) {acts : List Act} {verdict : Verdict P A}
      → round d key timeout_secs started attempt r ≡ some (acts, verdict)
      → sent acts ≤ 1
  unfolding round
  round-sent attempt r h = ground arith

  -- The parts of a loop that goes on: a round that is repeated, and the rest of the loop.
  pub record GoesOn (world : ℕ → Round) (left attempt : ℕ) (t : Trace P A) : Type 0 where
    pub acts : List Act
    pub rest : Trace P A
    pub before : round d key timeout_secs started (attempt + 1) (world attempt) ≡ some (acts, again)
    pub after : loop d key timeout_secs started world left (attempt + 1) ≡ some rest
    pub joined : t ≡ record rest { acts = acts ++ rest.acts }

  -- The parts of a loop that ends with its next round.
  pub record Stops (world : ℕ → Round) (attempt : ℕ) (t : Trace P A) : Type 0 where
    pub live : (world attempt).aborted ≡ false
    pub last :
        round d key timeout_secs started (attempt + 1) (world attempt)
        ≡ some (t.acts, done t.result)
    pub counted : t.attempt ≡ attempt + 1

  finish_round-cases :
      (world : ℕ → Round) (left attempt : ℕ) (t : Trace P A) (rest : Option (Trace P A))
      (o : Option (List Act × Verdict P A))
      → (world attempt).aborted ≡ false
      → loop d key timeout_secs started world left (attempt + 1) ≡ rest
      → round d key timeout_secs started (attempt + 1) (world attempt) ≡ o
      → finish_round (attempt + 1) rest o ≡ some t
      → Stops world attempt t ⊎ GoesOn world left attempt t
  finish_round-cases world left attempt t rest none live e f h = cc
  finish_round-cases world left attempt t none (some (acts, again)) live e f h = cc
  finish_round-cases world left attempt t (some u) (some (acts, again)) live e f h =
      inr (record { acts = acts; rest = u; before = f; after = e; joined = cc })
  finish_round-cases world left attempt t rest (some (acts, done result)) live e f h =
      inl (record { live = live; last = cc; counted = cc })

  pub loop-cases :
      (world : ℕ → Round) (left attempt : ℕ) (t : Trace P A)
      → loop d key timeout_secs started world (suc left) attempt ≡ some t
      → (t ≡ record { acts = []; attempt = attempt; result = thrown abort_error })
        ⊎ (Stops world attempt t ⊎ GoesOn world left attempt t)
  unfolding loop
  loop-cases world left attempt t h = elim (Bool-cases (world attempt).aborted) [
    | inl stop ↦ inl (ground arith)
    | inr go ↦ inr (
        finish_round-cases world left attempt t
          (loop d key timeout_secs started world left (attempt + 1))
          (round d key timeout_secs started (attempt + 1) (world attempt)) go refl refl
          (else_of (world attempt).aborted _ _ _ go h))
  ]

  loop-sent :
      (world : ℕ → Round) (left attempt : ℕ) (t : Trace P A)
      → loop d key timeout_secs started world left attempt ≡ some t
      → sent t.acts ≤ left
  unfolding loop
  loop-sent world zero attempt t h = ground arith
  loop-sent world (suc left) attempt t h = elim (loop-cases world left attempt t h) [
    | inl e ↦ rw e (omega arith)
    | inr (inl s) ↦ omega (arith, round-sent (attempt + 1) (world attempt) s.last)
    | inr (inr g) ↦ rw g.joined (
        omega (
          arith,
          sent-append g.acts g.rest.acts,
          round-sent (attempt + 1) (world attempt) g.before,
          loop-sent world left (attempt + 1) g.rest g.after,
        ))
  ]

pub close_all-some :
    {P A : Type 0} (elapsed : ℕ) (o : Option (Trace P A)) {t : Trace P A}
    → close_all elapsed o ≡ some t
    → (u : Trace P A) × (o ≡ some u) × (t ≡ close_trace elapsed u)
close_all-some elapsed none h = cc
close_all-some elapsed (some u) h = (u, refl, cc)

sent-close_trace :
    {P A : Type 0} (elapsed : ℕ) (u : Trace P A) → sent (close_trace elapsed u).acts ≡ sent u.acts
sent-close_trace elapsed u = omega (arith, sent-append u.acts _)

one_attempt : (key : OperationKey) → is_read key ≡ false → maximum_attempts key ≡ 1
unfolding maximum_attempts
one_attempt key h = rw h

-- How often a request may be sent.
abbrev pub most_requests : Bool → ℕ
most_requests true = 3
most_requests false = 1

maximum_attempts-le :
    (key : OperationKey)
    → maximum_attempts key ≤ most_requests (is_get (operation_descriptor key).method)
unfolding maximum_attempts
maximum_attempts-le key =
    let e = is_read-eq-is_get key in
    elim (Bool-cases (is_get (operation_descriptor key).method)) [
      | inl g ↦ ground arith
      | inr g ↦ ground arith
    ]

-- An operation whose method is GET sends at most three requests, and any other at most one. An operation
-- that is not a read sends at most one whatever its method.
pub execute-sent :
    {P A : Type 0} (d : Decoders P A) (key : OperationKey) (timeout_secs : Option ℕ)
    (before : Option (Thrown P)) (made started ended : ℕ) (world : ℕ → Round) {t : Trace P A}
    → execute d key timeout_secs before made started ended world ≡ some t
    → (sent t.acts ≤ most_requests (is_get (operation_descriptor key).method))
      × (is_read key ≡ false → sent t.acts ≤ 1)
unfolding execute
execute-sent d key timeout_secs (some error) made started ended world {t} h =
    let e : t ≡ record { acts = []; attempt = 0; result = thrown error } = cc in rw e (omega arith)
execute-sent d key timeout_secs none made started ended world {t} h =
    let (u, e, f) = close_all-some (ended - made) _ h in
    let bound = loop-sent d key timeout_secs started world (maximum_attempts key) 0 u e in
    rw (f, sent-close_trace (ended - made) u)
      (omega (arith, bound, maximum_attempts-le key), λ w. rw (one_attempt key w) at bound)

-- ===== src/Transport/Execute.antt =====
-- The loop over the attempts of one operation: `FetchTransport.execute` of src/internal/transport.ts.
-- What the code waits for or asks of its runtime is an argument: each round of the loop has a record of
-- the answers. A clock reading that is behind an earlier one counts as no time gone by.
pub mod Attempts
pub mod Timers
pub mod Report
pub mod Samples
mod Tests
use cuna_lib_ts.Base.{
  ℕ, zero, suc, ◌+◌, ◌-◌, ltb, leb, if◌then◌else◌, Bool, ◌&&◌, not, Option, none, some, List, [],
  ◌∷◌, ◌++◌, min,
}
use cuna_lib_ts.Contract.{OperationKey}
use cuna_lib_ts.Contract.Safety.{is_read}
use cuna_lib_ts.Errors.{Result, ok, thrown, Thrown, abort_error, timeout_error, type_error}
use cuna_lib_ts.Transport.Delay.{uniform_delay}
use cuna_lib_ts.Transport.Deadline.{deadline_for, total_deadline_for, maximum_attempts, delay_cap}
use cuna_lib_ts.Transport.Disposition.{Decoders, Response, disposition}
use cuna_lib_ts.Transport.Observer.{
  Event, operation_start, attempt_start, retry_scheduled, operation_end, end_of,
}

-- The answers in one round, in the order of the code.
pub record Round : Type 0 where
  -- whether the caller's signal is aborted at the head of the loop, and the clock there
  pub aborted : Bool
  pub now : ℕ
  -- what `fetch` comes to; a rejection is `none`
  pub fetched : Option Response
  -- whether the caller's signal is aborted once `fetch` has settled
  pub aborted_after_fetch : Bool
  -- whether the attempt's own signal is aborted when an error is caught
  pub timed_out : Bool
  -- after a rejection: the clock, the random words, the clock once more, and whether the sleep runs to
  -- its end rather than being interrupted by the caller
  pub now_after_fetch : ℕ
  pub draws : List ℕ
  pub now_after_draw : ℕ
  pub slept : Bool
  -- whether the caller's signal is aborted once the response has been read
  pub aborted_after_read : Bool

-- What the transport does that can be seen from outside.
pub data Act : Type 0 where
  observed : Event → Act
  armed : ℕ → Act
  fetching : Act
  sleeping : ℕ → Act

-- How a round ends: the loop goes on, or the operation has its result.
pub data Verdict (P A : Type 0) : Type 0 where
  again : Verdict P A
  done : Result P A → Verdict P A

-- What the loop comes to: its acts, the last value of `attempt`, and the result.
pub record Trace (P A : Type 0) : Type 0 where
  pub acts : List Act
  pub attempt : ℕ
  pub result : Result P A

abbrev pub after_acts : {P A : Type 0} → List Act → Option (Trace P A) → Option (Trace P A)
after_acts before none = none
after_acts before (some t) = some (record t { acts = before ++ t.acts })

-- What follows a round: the result, or the rest of the loop.
abbrev pub finish_round :
    {P A : Type 0} → ℕ → Option (Trace P A) → Option (List Act × Verdict P A) → Option (Trace P A)
finish_round attempt rest none = none
finish_round attempt rest (some (acts, done result)) =
    some (record { acts = acts; attempt = attempt; result = result })
finish_round attempt rest (some (acts, again)) = after_acts acts rest

module _ {P A : Type 0} (d : Decoders P A) (key : OperationKey) (timeout_secs : Option ℕ)
    (started : ℕ) where
  abbrev total : ℕ
  total = total_deadline_for key timeout_secs

  -- The `catch` round `fetch`; `none` when the random words that are given have all been rejected.
  unfoldable pub after_rejection : ℕ → Round → Option (List Act × Verdict P A)
  after_rejection attempt r =
      let can_retry =
        is_read key
        && (ltb attempt (maximum_attempts key) && ltb (r.now_after_fetch - started) total) in
      if r.aborted_after_fetch
      then some ([], done (thrown abort_error))
      else if not can_retry
      then some ([], done (thrown (if r.timed_out then timeout_error else type_error)))
      else elim (uniform_delay (delay_cap attempt) r.draws) [
        | none ↦ none
        | some (delay, rest) ↦
            if leb total (r.now_after_draw - started + delay)
            then some ([], done (thrown timeout_error))
            else some (
              observed (retry_scheduled (attempt + 1) delay) ∷ sleeping delay ∷ [],
              if r.slept then again else done (thrown abort_error),
            )
      ]

  -- The second `try` and its `catch`.
  unfoldable pub after_response : Round → Response → Result P A
  after_response r response =
      if r.aborted_after_fetch then thrown abort_error else elim (disposition d key response) [
        | ok a ↦ if r.aborted_after_read then thrown abort_error else ok a
        | thrown error ↦
            if r.aborted_after_read
            then thrown abort_error
            else if r.timed_out
            then thrown timeout_error
            else thrown error
      ]

  -- From the start of the attempt's timer on.
  send : ℕ → Round → Option (List Act × Verdict P A)
  unfolding after_rejection after_response
  send attempt r = elim r.fetched [
    | none ↦ after_rejection attempt r
    | some response ↦ some ([], done (after_response r response))
  ]

  abbrev pub prefix : List Act → Option (List Act × Verdict P A) → Option (List Act × Verdict P A)
  prefix acts none = none
  prefix acts (some (more, verdict)) = some (acts ++ more, verdict)

  -- The body of the loop, once the attempt is counted.
  unfoldable pub round : ℕ → Round → Option (List Act × Verdict P A)
  unfolding send
  round attempt r =
      let elapsed = r.now - started in
      if leb total elapsed
      then some ([], done (thrown timeout_error))
      else prefix
          (armed (min (deadline_for key timeout_secs) (total - elapsed))
            ∷ observed (attempt_start attempt)
            ∷ fetching
            ∷ [])
          (send attempt r)

  -- The loop, with the rounds that are left of `maximumAttempts` and the value of `attempt`; `world` has
  -- the answers of the round that begins at each such value.
  unfoldable pub loop : (ℕ → Round) → ℕ → ℕ → Option (Trace P A)
  loop world zero attempt =
      some (record { acts = []; attempt = attempt; result = thrown timeout_error })
  loop world (suc left) attempt =
      if (world attempt).aborted
      then some (record { acts = []; attempt = attempt; result = thrown abort_error })
      else (let rest = loop world left (attempt + 1) in
          finish_round (attempt + 1) rest (round (attempt + 1) (world attempt)))

-- The error of a result, as `end` is given it.
abbrev pub error_in : {P A : Type 0} → Result P A → Option (Thrown P)
error_in (ok a) = none
error_in (thrown error) = some error

-- The outer `catch`, and the `end` of the successful return.
abbrev pub close_trace : {P A : Type 0} → ℕ → Trace P A → Trace P A
close_trace elapsed t = record t {
  acts =
      observed operation_start
      ∷ (t.acts ++ observed (operation_end (end_of t.attempt elapsed (error_in t.result))) ∷ []);
}

abbrev pub close_all : {P A : Type 0} → ℕ → Option (Trace P A) → Option (Trace P A)
close_all elapsed none = none
close_all elapsed (some t) = some (close_trace elapsed t)

-- `execute`, for what `prepare` throws, if it does; the clock when the observer is made and when it
-- ends, and in between when the operation starts.
unfoldable pub execute :
    {P A : Type 0}
    → Decoders P A
    → OperationKey
    → Option ℕ
    → Option (Thrown P)
    → ℕ
    → ℕ
    → ℕ
    → (ℕ → Round)
    → Option (Trace P A)
unfolding loop
execute d key timeout_secs (some error) made started ended world =
    some (record { acts = []; attempt = 0; result = thrown error })
execute d key timeout_secs none made started ended world =
    close_all (ended - made) (loop d key timeout_secs started world (maximum_attempts key) 0)

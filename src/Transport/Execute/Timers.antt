-- ===== src/Transport/Execute/Timers.antt =====
-- How long an attempt of `execute` of src/internal/transport.ts may take.
use cuna_lib_ts.Transport.Deadline.{InRange, deadlines, deadline_for, total_deadline_for}
use cuna_lib_ts.Base.{
  ℕ, List, ◌≤◌, [], ◌<◌, ◌+◌, ◌⊎◌, ◌≡◌, Option, ◌∷◌, some, none, ◌++◌, ◌-◌, true, Bool-cases, leb,
  inl, inr, arith, ap, min, then_of, else_of, false,
}
use cuna_lib_ts.Transport.Execute.{
  Act, Verdict, done, prefix, armed, round, Round, observed, fetching,
}
use cuna_lib_ts.Errors.{thrown, timeout_error}
use cuna_lib_ts.Transport.Disposition.{Decoders}
use cuna_lib_ts.Contract.{OperationKey}
use cuna_lib_ts.Contract.Safety.{is_read}
use cuna_lib_ts.Transport.Observer.{attempt_start}
use cuna_lib_ts.Domain.Chains.{some_injective}

-- The acts and the end of a round that begins `elapsed` milliseconds after the operation, which may take
-- `whole` milliseconds in all, and `longest` in one attempt.
pub data Timed {P A : Type 0} (whole longest elapsed attempt : ℕ)
    : List Act → Verdict P A → Type 0 where
  -- the time has run out: nothing is sent, and the operation fails as timed out
  late : whole ≤ elapsed → Timed whole longest elapsed attempt [] (done (thrown timeout_error))
  -- the request is sent under a timer that ends with the attempt's time or with the operation's, and
  -- with the one that ends first
  timed :
      {acts : List Act} {verdict : Verdict P A} (allowed : ℕ)
      → 0 < allowed
      → allowed ≤ longest
      → elapsed + allowed ≤ whole
      → (allowed ≡ longest) ⊎ (elapsed + allowed ≡ whole)
      → Timed whole longest elapsed attempt
          (armed allowed ∷ observed (attempt_start attempt) ∷ fetching ∷ acts)
          verdict

longest_of :
    (key : OperationKey) (timeout_secs : Option ℕ)
    → (is_read key ≡ true → deadline_for key timeout_secs ≡ 10000)
      × (is_read key ≡ false → deadline_for key timeout_secs ≡ total_deadline_for key timeout_secs)
unfolding total_deadline_for deadline_for
longest_of key timeout_secs = (λ e. ground arith, λ e. ground arith)

module _ {P A : Type 0} (d : Decoders P A) (key : OperationKey) (timeout_secs : Option ℕ)
    (started : ℕ) where
  prefixed :
      (before : List Act) (o : Option (List Act × Verdict P A)) {acts : List Act}
      {verdict : Verdict P A}
      → prefix d key timeout_secs started before o ≡ some (acts, verdict)
      → (more : List Act) × (before ++ more ≡ acts)
  prefixed before none h = cc
  prefixed before (some (more, v)) h = (more, cc)

  timer_kept :
      (attempt : ℕ) (r : Round) {acts : List Act} {verdict : Verdict P A}
      → 10000 ≤ deadline_for key timeout_secs
      → round d key timeout_secs started attempt r ≡ some (acts, verdict)
      → Timed
          (total_deadline_for key timeout_secs)
          (deadline_for key timeout_secs)
          (r.now - started)
          attempt
          acts
          verdict
  unfolding round
  timer_kept attempt r {acts} {verdict} least h =
      let whole = total_deadline_for key timeout_secs in
      elim (Bool-cases (leb whole (r.now - started))) [
        | inl e ↦
            let q : some ([], done (thrown timeout_error)) ≡ some (acts, verdict) =
              then_of _ _ _ _ e h in
            rw (ap (λ x. x.0) (some_injective q), ap (λ x. x.1) (some_injective q))
              (late (ground arith))
        | inr e ↦
            let allowed = min (deadline_for key timeout_secs) (whole - (r.now - started)) in
            let sending = armed allowed ∷ observed (attempt_start attempt) ∷ fetching ∷ [] in
            let (more, f) = prefixed sending _ (else_of (leb whole (r.now - started)) _ _ _ e h) in
            rw⁻¹ f (
              timed {acts = more} allowed (ground arith) (ground arith) (ground arith)
                (ground arith))
      ]

  -- A round that sends arms its timer first, for a time that is not nothing, for as long as an attempt may
  -- take or until the end of the time of the whole operation, whichever is shorter. A round that begins too
  -- late sends nothing and times out. An attempt of a read may take ten seconds, and the whole read thirty.
  -- Any other operation may take all its time in its attempt, which is from ten seconds to 31 minutes for
  -- the timeouts that `exec` admits.
  pub round-Timed :
      InRange timeout_secs
      → (attempt : ℕ) (r : Round) {acts : List Act} {verdict : Verdict P A}
      → round d key timeout_secs started attempt r ≡ some (acts, verdict)
      → let whole = total_deadline_for key timeout_secs in
        let longest = deadline_for key timeout_secs in
        Timed whole longest (r.now - started) attempt acts verdict
        × (is_read key ≡ true → (longest ≡ 10000) × (whole ≡ 30000))
        × (is_read key ≡ false → (longest ≡ whole) × (10000 ≤ whole) × (whole ≤ 1860000))
  round-Timed range attempt r {acts} {verdict} h =
      let (within, top, least, reads) = deadlines key timeout_secs range in
      let (read_longest, write_longest) = longest_of key timeout_secs in
      (
        timer_kept attempt r least h,
        λ e. (read_longest e, reads e),
        λ e. (write_longest e, omega arith, top),
      )

-- ===== src/T3ams/Submission/Queue.antt =====
-- The serialized submitter. A job is a statement with its `beforeSend`; the promises of `beforeSend`
-- and of `send` are events that answer for the job in front. Between a job's end and the `finally`
-- that counts it out, other events may run.
pub mod Order
pub mod Run
use polkadot_chat_agents.Base.{
  ℕ, zero, suc, ◌-◌, Bool, true, false, Option, none, some, List, [], ◌∷◌, ◌++◌, leb, if◌then◌else◌,
}

-- what was passed as `beforeSend`: nothing, a function, or something else
pub data Guard : Type 0 where
  unguarded guarded malformed : Guard

pub record Job (O : Type 0) : Type 0 where
  pub statement : O
  pub guard : Guard

-- how the promise of `submit` settled: as `send` did, or by an error of `run` before it
pub data Outcome : Type 0 where
  sent : Bool → Outcome
  fenced guard_failed guard_malformed : Outcome

pub data Phase : Type 0 where
  checking sending : Phase

pub record Submitter (O : Type 0) : Type 0 where
  pub cap : ℕ
  pub pending : ℕ
  -- the jobs whose `run` has not begun
  pub waiting : List (Job O)
  pub active : Option (Job O × Phase)
  -- the jobs that have ended, whose `finally` has not run
  pub ending : ℕ
  pub results : List (Job O × Outcome)
  -- the statements handed to `send`
  pub network : List (Job O)

abbrev pub cap_or_default : Option ℕ → ℕ
cap_or_default none = 128
cap_or_default (some n) = if leb 1 n then n else 128

module _ {O : Type 0} where
  unfoldable pub create : Option ℕ → Submitter O
  create max_pending = record {
    cap = cap_or_default max_pending;
    pending = 0;
    waiting = [];
    active = none;
    ending = 0;
    results = [];
    network = [];
  }

  -- `submit`; false is the rejection of a full queue
  unfoldable pub submit : Job O → Submitter O → Submitter O × Bool
  submit job s =
      if leb s.cap s.pending
      then (s, false)
      else (record s { pending = suc s.pending; waiting = s.waiting ++ job ∷ [] }, true)

  abbrev pub end_with : Outcome → Job O → Submitter O → Submitter O
  end_with outcome job s = record s {
    active = none;
    ending = suc s.ending;
    results = s.results ++ (job, outcome) ∷ [];
  }

  abbrev pub send : Job O → Submitter O → Submitter O
  send job s = record s { active = some (job, sending); network = s.network ++ job ∷ [] }

  abbrev pub start : Job O → Guard → Submitter O → Submitter O
  start job unguarded s = send job s
  start job guarded s = record s { active = some (job, checking) }
  start job malformed s = end_with guard_malformed job s

  -- the tail has settled, and `run` of the next job begins
  unfoldable pub begin : Submitter O → Submitter O
  begin s = elim s.active [
    | some _ ↦ s
    | none ↦ elim s.waiting [
      | [] ↦ s
      | job ∷ rest ↦ start job job.guard (record s { waiting = rest })
    ]
  ]

  -- what `beforeSend` gave: an error, or whether it was something else than `false`
  abbrev pub guarded_send : Job O → Option Bool → Submitter O → Submitter O
  guarded_send job none s = end_with guard_failed job s
  guarded_send job (some false) s = end_with fenced job s
  guarded_send job (some true) s = send job s

  unfoldable pub guard_answers : Option Bool → Submitter O → Submitter O
  guard_answers answer s = elim s.active [
    | none ↦ s
    | some (job, phase) ↦ elim phase [ checking ↦ guarded_send job answer s | sending ↦ s ]
  ]

  unfoldable pub send_answers : Bool → Submitter O → Submitter O
  send_answers ok s = elim s.active [
    | none ↦ s
    | some (job, phase) ↦ elim phase [ checking ↦ s | sending ↦ end_with (sent ok) job s ]
  ]

  -- a `finally` of `submit`
  unfoldable pub count_out : Submitter O → Submitter O
  count_out s = elim s.ending [
    | zero ↦ s
    | suc n ↦ record s { pending = s.pending - 1; ending = n }
  ]

pub data Event (O : Type 0) : Type 0 where
  submitted : Job O → Event O
  begins counted_out : Event O
  guard_answered : Option Bool → Event O
  send_answered : Bool → Event O

module _ {O : Type 0} where
  unfoldable pub step : Event O → Submitter O → Submitter O
  unfolding submit begin guard_answers send_answers count_out
  step (submitted job) s = (submit job s).0
  step begins s = begin s
  step (guard_answered answer) s = guard_answers answer s
  step (send_answered ok) s = send_answers ok s
  step counted_out s = count_out s

  unfoldable pub run : List (Event O) → Submitter O → Submitter O
  unfolding step
  run [] s = s
  run (e ∷ es) s = run es (step e s)

  -- the jobs that the events submit and the queue takes, in order
  unfoldable pub taken : List (Event O) → Submitter O → List (Job O)
  unfolding step submit
  taken [] s = []
  taken (submitted job ∷ es) s =
      let rest = taken es (step (submitted job) s) in if (submit job s).1 then job ∷ rest else rest
  taken (begins ∷ es) s = taken es (step begins s)
  taken (guard_answered answer ∷ es) s = taken es (step (guard_answered answer) s)
  taken (send_answered ok ∷ es) s = taken es (step (send_answered ok) s)
  taken (counted_out ∷ es) s = taken es (step counted_out s)

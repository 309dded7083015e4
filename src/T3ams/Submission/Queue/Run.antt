-- ===== src/T3ams/Submission/Queue/Run.antt =====
-- Histories of the submitter, from a new one.
use polkadot_chat_agents.Base.{
  ℕ, Option, List, [], ◌∷◌, ◌++◌, refl, subst, arith, if◌then◌else◌, Bool-cases, inl, inr,
  append-nil, append_assoc,
}
use polkadot_chat_agents.T3ams.Submission.Queue.{
  Job, Submitter, create, submit, begin, guard_answers, send_answers, count_out, Event, submitted,
  begins, counted_out, guard_answered, send_answered, step, run, taken,
}
use polkadot_chat_agents.T3ams.Submission.Queue.Order.{
  IsOrdered, sent_jobs, submit-IsOrdered, begin-IsOrdered, guard_answers-IsOrdered,
  send_answers-IsOrdered, count_out-IsOrdered,
}

module _ {O : Type 0} where
  create-IsOrdered : (max_pending : Option ℕ) → IsOrdered [] (create {O = O} max_pending)
  unfolding create sent_jobs
  create-IsOrdered max_pending = record {
    order = refl;
    effects = refl;
    count = refl;
    bound = omega arith;
  }

  run_from-IsOrdered :
      (es : List (Event O)) (jobs : List (Job O)) (s : Submitter O)
      → IsOrdered jobs s
      → IsOrdered (jobs ++ taken es s) (run es s)
  unfolding run taken step
  run_from-IsOrdered [] jobs s h = rw (append-nil) h
  run_from-IsOrdered (submitted job ∷ es) jobs s h = elim (Bool-cases (submit job s).1) [
    | inl took ↦ rw took (
        subst (λ js. IsOrdered js (run es (submit job s).0)) (append_assoc jobs (job ∷ []) _)
          (run_from-IsOrdered es (jobs ++ job ∷ []) (submit job s).0 (
            subst (λ b. IsOrdered (if b then jobs ++ job ∷ [] else jobs) (submit job s).0) took
              (submit-IsOrdered jobs s h job))))
    | inr full ↦ rw full (
        run_from-IsOrdered es jobs (submit job s).0 (
          subst (λ b. IsOrdered (if b then jobs ++ job ∷ [] else jobs) (submit job s).0) full
            (submit-IsOrdered jobs s h job)))
  ]
  run_from-IsOrdered (begins ∷ es) jobs s h =
      run_from-IsOrdered es jobs (begin s) (begin-IsOrdered jobs s h)
  run_from-IsOrdered (guard_answered answer ∷ es) jobs s h =
      run_from-IsOrdered es jobs (guard_answers answer s) (guard_answers-IsOrdered jobs s answer h)
  run_from-IsOrdered (send_answered ok ∷ es) jobs s h =
      run_from-IsOrdered es jobs (send_answers ok s) (send_answers-IsOrdered jobs s ok h)
  run_from-IsOrdered (counted_out ∷ es) jobs s h =
      run_from-IsOrdered es jobs (count_out s) (count_out-IsOrdered jobs s h)

  -- In every history of a new submitter, the jobs that the queue took stand in the order of
  -- submission as settled, at work and waiting; the network has seen exactly those of them whose
  -- outcome is that of `send`, and the one being sent, in that order; and the jobs that are waiting,
  -- at work or not yet counted out are at most the cap.
  pub run-IsOrdered :
      (max_pending : Option ℕ) (es : List (Event O))
      → IsOrdered (taken es (create max_pending)) (run es (create max_pending))
  run-IsOrdered max_pending es =
      run_from-IsOrdered es [] (create max_pending) (create-IsOrdered max_pending)

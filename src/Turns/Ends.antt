-- ===== src/Turns/Ends.antt =====
-- The queue's accounts over the end of a turn and over calls that are turned away.
use polkadot_chat_agents.Base.JsMap
use polkadot_chat_agents.Base.JsMap.{IsDistinct-delete, JsMap, IsDistinct, Absent, IsDistinct-set}
use polkadot_chat_agents.Base.MapSums.{sum_of-delete, sum_of-set, value_at}
use polkadot_chat_agents.Turns.Queue.{
  put_jobs, drop_found, drop_from, take_job, is_numbered, is_same, find_job, end_with, end_job,
  outcome_of, resolve, jobs_of, end, Job, Outcome, Limits, Turns, of_peer, jobs_at,
}
use polkadot_chat_agents.Turns.Calls.{expected-next, answers-append, tally-drop_from}
use polkadot_chat_agents.Turns.Peers.{take_job-head, total}
use polkadot_chat_agents.Turns.Books.{IsDrained, drain-IsDrained}
use polkadot_chat_agents.Base.{
  ite, key_dec, ◌-◌, ◌+◌, ◌≤◌, ◌++◌, ◌&&◌, Option, none, some, ℕ, suc, String, Bool, true, false,
  List, [], ◌∷◌, ◌≡◌, refl, ap, sym, subst, arith, length, length-append, if◌then◌else◌, if-cases,
}
use polkadot_chat_agents.Turns.Cancel.{IsSound}

module _ (limits : Limits) where
  -- a found job is of the peer and of the list
  abbrev IsFound : String → List Job → Option Job → Type 0
  IsFound key jobs none = Unit
  IsFound key jobs (some job) =
      (of_peer key job ≡ true) × (length jobs ≡ suc (length (take_job job jobs)))

  find_job-IsFound :
      (key : String) (number : ℕ) (jobs : List Job) → IsFound key jobs (find_job key number jobs)
  unfolding find_job take_job
  find_job-IsFound key number [] = tt
  find_job-IsFound key number (j ∷ js) =
      if-cases (IsFound key (j ∷ js)) (of_peer key j && is_numbered number j) _ _
        (λ y. (ground (arith, y), ap (λ xs. suc (length xs)) (sym (take_job-head j js))))
        (λ n. later (find_job key number js) (find_job-IsFound key number js))
    where
      gone :
          (job : Job) (b : Bool)
          → length js ≡ suc (length (take_job job js))
          → length (j ∷ js) ≡ suc (length (if b then js else j ∷ take_job job js))
      gone job true h = refl
      gone job false h = ap suc h

      later : (o : Option Job) → IsFound key js o → IsFound key (j ∷ js) o
      later none h = tt
      later (some job) h = (h.0, gone job (is_same job j) h.1)

  total-drop_from :
      (job : Job) (m : JsMap (List Job))
      → IsDistinct m
      → length (jobs_at job.peer_key m) ≡ suc (length (take_job job (jobs_at job.peer_key m)))
      → IsDistinct (drop_from job m) × (suc (total (drop_from job m)) ≡ total m)
  unfolding drop_from
  total-drop_from job m d h = go (JsMap.get job.peer_key m) refl h
    where
      put :
          (jobs rest : List Job)
          → JsMap.get job.peer_key m ≡ some jobs
          → length jobs ≡ suc (length rest)
          → IsDistinct (put_jobs job.peer_key rest m)
            × (suc (total (put_jobs job.peer_key rest m)) ≡ total m)
      put jobs [] eq one = (
        IsDistinct-delete job.peer_key m d,
        omega (arith, sum_of-delete length job.peer_key m d, ap (value_at length) eq, one),
      )
      put jobs (j ∷ js) eq one = (
        IsDistinct-set job.peer_key (j ∷ js) m d,
        omega (arith, sum_of-set length job.peer_key (j ∷ js) m, ap (value_at length) eq, one),
      )

      go :
          (o : Option (List Job))
          → JsMap.get job.peer_key m ≡ o
          → length (jobs_of o) ≡ suc (length (take_job job (jobs_of o)))
          → IsDistinct (drop_found job o m) × (suc (total (drop_found job o m)) ≡ total m)
      go none eq one = absurd (omega (arith, one))
      go (some jobs) eq one = put jobs (take_job job jobs) eq one

  pub drained-IsSound :
      (queue : List Job) (s : Turns)
      → IsDrained limits queue s
      → length queue ≤ limits.queued_turn_limit
      → IsSound limits s
  drained-IsSound queue s h few = record {
    booked = h.booked;
    busy = h.busy;
    few = omega (arith, h.shorter, few);
  }

  pub end-IsSound :
      (key : String) (number : ℕ) (outcome : Outcome) (s : Turns)
      → IsSound limits s
      → IsSound limits (end limits key number outcome s)
  unfolding end resolve
  end-IsSound key number outcome s h =
      go (find_job key number (jobs_at key s.active_by_peer))
        (find_job-IsFound key number (jobs_at key s.active_by_peer))
    where
      ended :
          (job : Job) (o : Option Outcome)
          → length (jobs_at job.peer_key s.active_by_peer)
            ≡ suc (length (take_job job (jobs_at job.peer_key s.active_by_peer)))
          → IsSound limits (end_with limits job o s)
      ended job none here = h
      ended job (some result) here =
          let gone = total-drop_from job s.active_by_peer h.booked.distinct here in
          drained-IsSound s.queued_turns _
            (drain-IsDrained limits
              (record s {
                active_turn_count = s.active_turn_count - 1;
                active_by_peer = drop_from job s.active_by_peer;
                resolved = s.resolved ++ (job, result) ∷ [];
              })
              (record {
                mirror = h.booked.mirror;
                distinct = gone.0;
                counted = omega (arith, h.booked.counted, gone.1);
                bounded = omega (arith, h.booked.bounded);
                answered = omega (
                  arith,
                  h.booked.answered,
                  h.booked.counted,
                  gone.1,
                  length-append s.resolved ((job, result) ∷ []),
                );
                once = λ n. omega (
                  arith,
                  h.booked.once n,
                  answers-append n s.resolved ((job, result) ∷ []),
                  tally-drop_from n job s.active_by_peer h.booked.distinct here,
                );
              }))
            h.few

      peer :
          (job : Job) (d : Dec (job.peer_key ≡ key)) → ite d true false ≡ true → key ≡ job.peer_key
      peer job (yes p) e = sym p
      peer job (no p) e = absurd (cc e)

      go :
          (o : Option Job)
          → IsFound key (jobs_at key s.active_by_peer) o
          → IsSound limits (end_job limits o outcome s)
      go none f = h
      go (some job) f = ended job (outcome_of job outcome) (
          subst
            (λ k.
              length (jobs_at k s.active_by_peer)
              ≡ suc (length (take_job job (jobs_at k s.active_by_peer))))
            (peer job (key_dec job.peer_key key) f.0) f.1)

  pub answered-IsSound :
      (job : Job) (outcome : Outcome) (s : Turns)
      → job.number ≡ s.next_number
      → IsSound limits s
      → IsSound limits (resolve job outcome (record s { next_number = s.next_number + 1 }))
  unfolding resolve
  answered-IsSound job outcome s number h = record {
    booked = record {
      mirror = h.booked.mirror;
      distinct = h.booked.distinct;
      counted = h.booked.counted;
      bounded = h.booked.bounded;
      answered = omega (arith, h.booked.answered, length-append s.resolved ((job, outcome) ∷ []));
      once = λ n. omega (
        arith,
        h.booked.once n,
        answers-append n s.resolved ((job, outcome) ∷ []),
        expected-next n job s.next_number number,
      );
    };
    busy = h.busy;
    few = h.few;
  }

-- ===== src/T3ams/Submission/Queue/Order.antt =====
-- The order of the network writes, and the bound of the queue.
use polkadot_chat_agents.Base.{
  ℕ, zero, suc, ◌+◌, ◌≤◌, Bool, true, false, Option, none, some, List, [], ◌∷◌, ◌++◌, map, ◌≡◌,
  refl, ap, sym, ◌∙◌, subst, arith, leb, length, length-append, if◌then◌else◌, Bool-cases, inl, inr,
  append-nil, append_assoc,
}
use polkadot_chat_agents.T3ams.Submission.Queue.{
  Guard, unguarded, guarded, malformed, Job, Outcome, sent, fenced, guard_failed, guard_malformed,
  Phase, checking, sending, Submitter, submit, start, begin, guarded_send, end_with, guard_answers,
  send_answers, count_out,
}

module _ {O : Type 0} where
  abbrev pub active_jobs : Option (Job O × Phase) → List (Job O)
  active_jobs none = []
  active_jobs (some a) = a.0 ∷ []

  abbrev pub sending_jobs : Option (Job O × Phase) → List (Job O)
  sending_jobs none = []
  sending_jobs (some (job, checking)) = []
  sending_jobs (some (job, sending)) = job ∷ []

  -- the jobs whose outcome is that of `send`
  unfoldable pub sent_jobs : List (Job O × Outcome) → List (Job O)
  sent_jobs [] = []
  sent_jobs ((job, sent ok) ∷ rs) = job ∷ sent_jobs rs
  sent_jobs ((job, fenced) ∷ rs) = sent_jobs rs
  sent_jobs ((job, guard_failed) ∷ rs) = sent_jobs rs
  sent_jobs ((job, guard_malformed) ∷ rs) = sent_jobs rs

  sent_jobs-append :
      (xs ys : List (Job O × Outcome)) → sent_jobs (xs ++ ys) ≡ sent_jobs xs ++ sent_jobs ys
  unfolding sent_jobs
  sent_jobs-append [] ys = refl
  sent_jobs-append ((job, sent ok) ∷ rs) ys = ap (◌∷◌ job) (sent_jobs-append rs ys)
  sent_jobs-append ((job, fenced) ∷ rs) ys = sent_jobs-append rs ys
  sent_jobs-append ((job, guard_failed) ∷ rs) ys = sent_jobs-append rs ys
  sent_jobs-append ((job, guard_malformed) ∷ rs) ys = sent_jobs-append rs ys

  abbrev pub settled_jobs : List (Job O × Outcome) → List (Job O)
  settled_jobs = map (λ r. r.0)

  -- the jobs taken stand as settled, at work and waiting; the network has seen in that order those
  -- that a `send` settled, and the one being sent; and every job not counted out is counted
  pub record IsOrdered (jobs : List (Job O)) (s : Submitter O) : Type 0 where
    pub order : settled_jobs s.results ++ (active_jobs s.active ++ s.waiting) ≡ jobs
    pub effects : s.network ≡ sent_jobs s.results ++ sending_jobs s.active
    pub count : s.pending ≡ length s.waiting + length (active_jobs s.active) + s.ending
    pub bound : s.pending ≤ s.cap

  map-append :
      (xs ys : List (Job O × Outcome))
      → settled_jobs (xs ++ ys) ≡ settled_jobs xs ++ settled_jobs ys
  map-append [] ys = refl
  map-append (x ∷ xs) ys = ap (◌∷◌ x.0) (map-append xs ys)

  append_assoc3 : (a b c d : List (Job O)) → a ++ (b ++ (c ++ d)) ≡ (a ++ (b ++ c)) ++ d
  append_assoc3 a b c d =
      ap (λ x. a ++ x) (sym (append_assoc b c d)) ∙ sym (append_assoc a (b ++ c) d)

  module _ (jobs : List (Job O)) (s : Submitter O) (h : IsOrdered jobs s) where
    pub submit-IsOrdered :
        (job : Job O)
        → IsOrdered (if (submit job s).1 then jobs ++ job ∷ [] else jobs) (submit job s).0
    unfolding submit
    submit-IsOrdered job = elim (Bool-cases (leb s.cap s.pending)) [
      | inl full ↦ rw full h
      | inr free ↦ rw free (record {
        order =
            rw (sym h.order)
              (append_assoc3 (settled_jobs s.results) (active_jobs s.active) s.waiting (job ∷ []));
        effects = h.effects;
        count = rw (length-append) (omega (arith, h.count));
        bound = ground (arith, h.bound, free);
      })
    ]

    module _ (job : Job O) (phase : Phase) (busy : s.active ≡ some (job, phase)) where
      active_order : settled_jobs s.results ++ job ∷ s.waiting ≡ jobs
      active_order =
          subst (λ a. settled_jobs s.results ++ (active_jobs a ++ s.waiting) ≡ jobs) busy h.order

      active_effects : s.network ≡ sent_jobs s.results ++ sending_jobs (some (job, phase))
      active_effects = subst (λ a. s.network ≡ sent_jobs s.results ++ sending_jobs a) busy h.effects

      active_count : s.pending ≡ length s.waiting + 1 + s.ending
      active_count =
          subst (λ a. s.pending ≡ length s.waiting + length (active_jobs a) + s.ending) busy h.count

      -- the job at work settles, by `send` where it was sent
      end_with-IsOrdered :
          (outcome : Outcome)
          → sent_jobs ((job, outcome) ∷ []) ≡ sending_jobs (some (job, phase))
          → IsOrdered jobs (end_with outcome job s)
      end_with-IsOrdered outcome same = record {
        order =
            rw (map-append)
              (append_assoc (settled_jobs s.results) (job ∷ []) s.waiting ∙ active_order);
        effects = rw (append-nil, sent_jobs-append, same) active_effects;
        count = omega (arith, active_count);
        bound = h.bound;
      }

    send-IsOrdered :
        (job : Job O)
        → s.active ≡ some (job, checking)
        → IsOrdered jobs
            (record s { active = some (job, sending); network = s.network ++ job ∷ [] })
    send-IsOrdered job busy = record {
      order = active_order job checking busy;
      effects =
          ap (λ n. n ++ job ∷ [])
            (active_effects job checking busy ∙ append-nil (sent_jobs s.results));
      count = active_count job checking busy;
      bound = h.bound;
    }

  guarded_send-IsOrdered :
      (jobs : List (Job O)) (s : Submitter O) (job : Job O) (answer : Option Bool)
      → IsOrdered jobs s
      → s.active ≡ some (job, checking)
      → IsOrdered jobs (guarded_send job answer s)
  guarded_send-IsOrdered jobs s job none h busy =
      end_with-IsOrdered jobs s h job checking busy guard_failed (unfold sent_jobs in refl)
  guarded_send-IsOrdered jobs s job (some false) h busy =
      end_with-IsOrdered jobs s h job checking busy fenced (unfold sent_jobs in refl)
  guarded_send-IsOrdered jobs s job (some true) h busy = send-IsOrdered jobs s h job busy

  -- `run` of a job begins as it would go on from its check
  start-IsOrdered :
      (jobs : List (Job O)) (s : Submitter O) (job : Job O) (guard : Guard)
      → IsOrdered jobs (record s { active = some (job, checking) })
      → IsOrdered jobs (start job guard s)
  start-IsOrdered jobs s job unguarded h = send-IsOrdered jobs _ h job refl
  start-IsOrdered jobs s job guarded h = h
  start-IsOrdered jobs s job malformed h =
      end_with-IsOrdered jobs _ h job checking refl guard_malformed (unfold sent_jobs in refl)

  pub begin-IsOrdered :
      (jobs : List (Job O)) (s : Submitter O) → IsOrdered jobs s → IsOrdered jobs (begin s)
  unfolding begin
  begin-IsOrdered jobs s h = go s.active refl s.waiting refl
    where
      idle_count :
          (n w : ℕ) → s.pending ≡ w + 0 + s.ending → w ≡ suc n → s.pending ≡ n + 1 + s.ending
      idle_count n w p q = omega (arith, p, q)

      go :
          (a : Option (Job O × Phase))
          → s.active ≡ a
          → (w : List (Job O)) → s.waiting ≡ w
          → IsOrdered jobs (begin s)
      go (some x) e w f = rw (e, begin) h
      go none e [] f = rw (e, f, begin) h
      go none e (job ∷ rest) f =
          rw (e, f, begin)
            (start-IsOrdered jobs (record s { waiting = rest }) job job.guard
              (record {
                order =
                    subst (λ x. settled_jobs s.results ++ (active_jobs x ++ (job ∷ rest)) ≡ jobs) e
                      (subst (λ x. settled_jobs s.results ++ (active_jobs s.active ++ x) ≡ jobs) f
                        h.order);
                effects =
                    subst (λ x. s.network ≡ sent_jobs s.results ++ sending_jobs x) e h.effects;
                count =
                    idle_count (length rest) _
                      (subst (λ x. s.pending ≡ length s.waiting + length (active_jobs x) + s.ending)
                        e h.count)
                      (ap length f);
                bound = h.bound;
              }))

  pub guard_answers-IsOrdered :
      (jobs : List (Job O)) (s : Submitter O) (answer : Option Bool)
      → IsOrdered jobs s
      → IsOrdered jobs (guard_answers answer s)
  unfolding guard_answers
  guard_answers-IsOrdered jobs s answer h = go s.active refl
    where
      go : (a : Option (Job O × Phase)) → s.active ≡ a → IsOrdered jobs (guard_answers answer s)
      go none e = rw (e, guard_answers) h
      go (some (job, checking)) e =
          rw (e, guard_answers) (guarded_send-IsOrdered jobs s job answer h e)
      go (some (job, sending)) e = rw (e, guard_answers) h

  pub send_answers-IsOrdered :
      (jobs : List (Job O)) (s : Submitter O) (ok : Bool)
      → IsOrdered jobs s
      → IsOrdered jobs (send_answers ok s)
  unfolding send_answers
  send_answers-IsOrdered jobs s ok h = go s.active refl
    where
      go : (a : Option (Job O × Phase)) → s.active ≡ a → IsOrdered jobs (send_answers ok s)
      go none e = rw (e, send_answers) h
      go (some (job, checking)) e = rw (e, send_answers) h
      go (some (job, sending)) e =
          rw (e, send_answers)
            (end_with-IsOrdered jobs s h job sending e (sent ok) (unfold sent_jobs in refl))

  pub count_out-IsOrdered :
      (jobs : List (Job O)) (s : Submitter O) → IsOrdered jobs s → IsOrdered jobs (count_out s)
  unfolding count_out
  count_out-IsOrdered jobs s h = go s.ending refl
    where
      go : (n : ℕ) → s.ending ≡ n → IsOrdered jobs (count_out s)
      go zero e = rw (e, count_out) h
      go (suc n) e =
          rw (e, count_out)
            (record {
              order = h.order;
              effects = h.effects;
              count = omega (arith, h.count, e);
              bound = omega (arith, h.bound);
            })

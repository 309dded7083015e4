-- ===== src/Turns/Books.antt =====
-- The accounts of the queue: the admission and the drain.
use polkadot_chat_agents.Base.JsMap
use polkadot_chat_agents.Base.JsMap.{
  JsMap, IsDistinct, Absent, IsDistinct-set, IsDistinct-delete, get-set_self, get-set_ne,
  get-delete_self, get-delete_ne,
}
use polkadot_chat_agents.Base.MapSums.{sum_of, value_at, sum_of-set}
use polkadot_chat_agents.Turns.Queue.{
  Job, stopped, Limits, Turns, of_peer, jobs_of, jobs_at, take_job, add_to, drop_from, resolve,
  admit, drain_on, drain, cancel_all,
}
use polkadot_chat_agents.Turns.Calls.{tally, answers, expected, answers-append, tally-add_to}
use polkadot_chat_agents.Turns.Peers.{
  total, take_job-head, jobs_at-add_to, jobs_at-drop_from, keep_if-snoc, keep_if-take_job, take_all,
}
use polkadot_chat_agents.Base.{
  ℕ, suc, ◌+◌, ◌≤◌, ◌<◌, String, false, not, ◌&&◌, Option, none, some, List, [], ◌∷◌, ◌++◌, map,
  ◌≡◌, refl, ap, sym, ◌∙◌, arith, ltb, length, keep_if, length-append, if◌then◌else◌, if-cases,
  append-nil, append_assoc,
}

-- the jobs of each peer in the map are those of the queue
abbrev pub Mirrors : JsMap (List Job) → List Job → Type 0
Mirrors m queue = (k : String) → jobs_at k m ≡ keep_if (of_peer k) queue

pub Mirrors-take :
    (job : Job) (m : JsMap (List Job)) (queue : List Job)
    → Mirrors m queue
    → Mirrors (drop_from job m) (take_job job queue)
Mirrors-take job m queue h = λ k.
    jobs_at-drop_from k job m
    ∙ ap (λ x. if of_peer k job then take_job job x else x) (h k)
    ∙ sym (keep_if-take_job k job queue)

pub Mirrors-add :
    (job : Job) (m : JsMap (List Job)) (queue : List Job)
    → Mirrors m queue
    → Mirrors (add_to job m) (queue ++ job ∷ [])
Mirrors-add job m queue h = λ k.
    jobs_at-add_to k job m
    ∙ ap (λ x. if of_peer k job then x ++ job ∷ [] else x) (h k)
    ∙ sym (keep_if-snoc (of_peer k) queue job)

length-jobs_of : (o : Option (List Job)) → length (jobs_of o) ≡ value_at length o
length-jobs_of none = refl
length-jobs_of (some jobs) = refl

pub total-add_to : (job : Job) (m : JsMap (List Job)) → total (add_to job m) ≡ suc (total m)
unfolding add_to
total-add_to job m =
    let jobs = jobs_at job.peer_key m in
    omega (
      arith,
      sum_of-set length job.peer_key (jobs ++ job ∷ []) m,
      length-append jobs (job ∷ []),
      length-jobs_of (JsMap.get job.peer_key m),
    )

-- what a cancellation of jobs does
pub record IsCancelled (jobs : List Job) (s s' : Turns) : Type 0 where
  pub queue : s'.queued_turns ≡ take_all jobs s.queued_turns
  pub log : s'.resolved ≡ s.resolved ++ map (λ j. (j, stopped)) jobs
  pub mirror : Mirrors s'.queued_by_peer s'.queued_turns
  pub active : s'.active_by_peer ≡ s.active_by_peer
  pub count : s'.active_turn_count ≡ s.active_turn_count
  pub number : s'.next_number ≡ s.next_number
  pub shutting : s'.shutting_down ≡ s.shutting_down

pub cancel_all-IsCancelled :
    (jobs : List Job) (s : Turns)
    → Mirrors s.queued_by_peer s.queued_turns
    → IsCancelled jobs s (cancel_all jobs s)
unfolding cancel_all resolve take_all
cancel_all-IsCancelled [] s h = record {
  queue = refl;
  log = sym (append-nil s.resolved);
  mirror = h;
  active = refl;
  count = refl;
  number = refl;
  shutting = refl;
}
cancel_all-IsCancelled (job ∷ jobs) s h =
    let ih = cancel_all-IsCancelled jobs _ (Mirrors-take job s.queued_by_peer s.queued_turns h) in
    record {
      queue = ih.queue;
      log = ih.log ∙ append_assoc s.resolved ((job, stopped) ∷ []) (map (λ j. (j, stopped)) jobs);
      mirror = ih.mirror;
      active = ih.active;
      count = ih.count;
      number = ih.number;
      shutting = ih.shutting;
    }

module _ (limits : Limits) where
  -- the accounts with `queue` as the queue
  pub record IsBooked (queue : List Job) (s : Turns) : Type 0 where
    pub mirror : Mirrors s.queued_by_peer queue
    pub distinct : IsDistinct s.active_by_peer
    pub counted : s.active_turn_count ≡ total s.active_by_peer
    pub bounded : s.active_turn_count ≤ limits.turn_limit
    pub answered : length s.resolved + length queue + s.active_turn_count ≡ s.next_number
    -- every call is at one place: answered, waiting or active
    pub once :
        (n : ℕ)
        → answers n s.resolved + tally n queue + sum_of (tally n) s.active_by_peer
          ≡ expected n s.next_number

  admit-IsBooked :
      (job : Job) (jobs : List Job) (s : Turns)
      → s.active_turn_count < limits.turn_limit
      → IsBooked (job ∷ jobs) s
      → IsBooked jobs (admit job s)
  unfolding admit resolve
  admit-IsBooked job jobs s room h =
      let mirror : Mirrors (drop_from job s.queued_by_peer) jobs = λ k.
        Mirrors-take job s.queued_by_peer (job ∷ jobs) h.mirror k
        ∙ ap (keep_if (of_peer k)) (take_job-head job jobs) in
      if-cases (IsBooked jobs) job.cancelled _ _
        (λ y. record {
          mirror = mirror;
          distinct = h.distinct;
          counted = h.counted;
          bounded = h.bounded;
          answered = omega (arith, h.answered, length-append s.resolved ((job, stopped) ∷ []));
          once = λ n. omega (arith, h.once n, answers-append n s.resolved ((job, stopped) ∷ []));
        })
        (λ n. record {
          mirror = mirror;
          distinct = unfold add_to in IsDistinct-set job.peer_key _ s.active_by_peer h.distinct;
          counted = omega (arith, h.counted, total-add_to job s.active_by_peer);
          bounded = omega (arith, room);
          answered = omega (arith, h.answered);
          once = λ n. omega (arith, h.once n, tally-add_to n job s.active_by_peer);
        })

  -- no job waits while there is room
  abbrev pub IsBusy : Turns → Type 0
  IsBusy s =
      s.shutting_down ≡ false → s.active_turn_count < limits.turn_limit → length s.queued_turns ≡ 0

  pub record IsDrained (queue : List Job) (s : Turns) : Type 0 where
    pub booked : IsBooked s.queued_turns s
    pub busy : IsBusy s
    pub shorter : length s.queued_turns ≤ length queue

  drain_on-IsDrained :
      (queue : List Job) (s : Turns) → IsBooked queue s → IsDrained queue (drain_on limits queue s)
  unfolding drain_on
  drain_on-IsDrained [] s h = record {
    booked = record {
      mirror = h.mirror;
      distinct = h.distinct;
      counted = h.counted;
      bounded = h.bounded;
      answered = h.answered;
      once = h.once;
    };
    busy = λ o r. refl;
    shorter = omega arith;
  }
  drain_on-IsDrained (job ∷ jobs) s h =
      if-cases (IsDrained (job ∷ jobs))
        (not s.shutting_down && ltb s.active_turn_count limits.turn_limit) _ _
        (λ y.
          let rest =
            drain_on-IsDrained jobs (admit job s)
              (admit-IsBooked job jobs s (ground (arith, y)) h) in
          record { booked = rest.booked; busy = rest.busy; shorter = omega (arith, rest.shorter) })
        (λ n. record {
          booked = record {
            mirror = h.mirror;
            distinct = h.distinct;
            counted = h.counted;
            bounded = h.bounded;
            answered = h.answered;
            once = h.once;
          };
          busy = λ o r. absurd (ground (arith, n, o, r));
          shorter = omega arith;
        })

  pub drain-IsDrained :
      (s : Turns) → IsBooked s.queued_turns s → IsDrained s.queued_turns (drain limits s)
  unfolding drain
  drain-IsDrained s h = drain_on-IsDrained s.queued_turns s h

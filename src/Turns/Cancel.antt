-- ===== src/Turns/Cancel.antt =====
-- The queue's accounts over cancellations and the shutdown.
use polkadot_chat_agents.Base.JsMap
use polkadot_chat_agents.Base.JsMap.{IsDistinct-delete, JsMap, IsDistinct, Absent, IsDistinct-set}
use polkadot_chat_agents.Base.MapSums.{sum_of, sum_of-set, value_at}
use polkadot_chat_agents.Turns.Queue.{
  Job, Outcome, stopped, Limits, Turns, create, of_peer, jobs_at, update_found, update_at,
  cancel_all, cancel_queued, cancel_job, cancel_peers, shutdown,
}
use polkadot_chat_agents.Turns.Calls.{
  tally, answers, expected, answers-append, answers-stopped, tally-split, tally-map,
}
use polkadot_chat_agents.Turns.Peers.{total, take_all-keep_if}
use polkadot_chat_agents.Turns.Books.{
  Mirrors, IsBooked, IsBusy, IsCancelled, cancel_all-IsCancelled,
}
use polkadot_chat_agents.Base.{
  ℕ, ◌+◌, ◌≤◌, Option, none, some, suc, String, true, not, List, [], ◌∷◌, map, ◌≡◌, refl, ap, sym,
  ◌∙◌, subst, arith, length, keep_if, length-append, if-cases,
}

-- the others and the jobs of a peer, of a queue
length-split :
    (k : String) (q : List Job)
    → length q ≡ length (keep_if (of_peer k) q) + length (keep_if (λ j. not (of_peer k j)) q)
length-split k [] = omega arith
length-split k (j ∷ js) = ground (arith, length-split k js)

length-map : {A B : Type 0} (f : A → B) (xs : List A) → length (map f xs) ≡ length xs
length-map f [] = refl
length-map f (x ∷ xs) = ap suc (length-map f xs)

length-stopped :
    (jobs : List Job) → length {A = Job × Outcome} (map (λ j. (j, stopped)) jobs) ≡ length jobs
length-stopped [] = refl
length-stopped (j ∷ js) = ap suc (length-stopped js)

-- what `cancelQueuedTurns` of a peer does
pub cancel_queued-IsCancelled :
    (k : String) (s : Turns)
    → Mirrors s.queued_by_peer s.queued_turns
    → IsCancelled (keep_if (of_peer k) s.queued_turns) s (cancel_queued k s)
unfolding cancel_queued
cancel_queued-IsCancelled k s h =
    subst (λ (jobs : List Job). IsCancelled jobs s (cancel_all (jobs_at k s.queued_by_peer) s))
      (h k) (cancel_all-IsCancelled (jobs_at k s.queued_by_peer) s h)

pub cancel_queued-others :
    (k : String) (s : Turns)
    → Mirrors s.queued_by_peer s.queued_turns
    → (cancel_queued k s).queued_turns ≡ keep_if (λ j. not (of_peer k j)) s.queued_turns
cancel_queued-others k s h =
    (cancel_queued-IsCancelled k s h).queue ∙ take_all-keep_if k s.queued_turns

-- the number of jobs of a map does not change, nor which calls they are
pub record SameSize (m m' : JsMap (List Job)) : Type 0 where
  pub distinct : IsDistinct m → IsDistinct m'
  pub same : total m' ≡ total m
  pub tallies : (n : ℕ) → sum_of (tally n) m' ≡ sum_of (tally n) m

pub update_at-SameSize :
    (k : String) (f : Job → Job) (m : JsMap (List Job))
    → ((j : Job) → (f j).number ≡ j.number)
    → SameSize m (update_at k f m)
unfolding update_at
update_at-SameSize k f m keeps = go (JsMap.get k m) refl
  where
    go : (o : Option (List Job)) → JsMap.get k m ≡ o → SameSize m (update_found k f o m)
    go none eq = record { distinct = λ d. d; same = refl; tallies = λ n. refl }
    go (some jobs) eq = record {
      distinct = IsDistinct-set k (map f jobs) m;
      same =
          omega
            (arith, sum_of-set length k (map f jobs) m, length-map f jobs, ap (value_at length) eq);
      tallies = λ n. omega (
        arith,
        sum_of-set (tally n) k (map f jobs) m,
        tally-map n f jobs keeps,
        ap (value_at (tally n)) eq,
      );
    }

map_all-SameSize :
    (f : Job → Job) (m : JsMap (List Job))
    → ((j : Job) → (f j).number ≡ j.number)
    → SameSize m (map (λ e. (e.0, map f e.1)) m)
map_all-SameSize f [] keeps = record { distinct = λ d. d; same = refl; tallies = λ n. refl }
map_all-SameSize f ((k, jobs) ∷ m) keeps =
    let ih = map_all-SameSize f m keeps in
    record {
      distinct = λ d. (absent m d.0, ih.distinct d.1);
      same = omega (arith, ih.same, length-map f jobs);
      tallies = λ n. omega (arith, ih.tallies n, tally-map n f jobs keeps);
    }
  where
    absent : (m : JsMap (List Job)) → Absent k m → Absent k (map (λ e. (e.0, map f e.1)) m)
    absent [] h = tt
    absent (e ∷ m) h = (h.0, absent m h.1)

module _ (limits : Limits) where
  pub record IsSound (s : Turns) : Type 0 where
    pub booked : IsBooked limits s.queued_turns s
    pub busy : IsBusy limits s
    pub few : length s.queued_turns ≤ limits.queued_turn_limit

  pub create-IsSound : IsSound create
  unfolding create JsMap.get
  create-IsSound = record {
    booked = record {
      mirror = λ k. refl;
      distinct = tt;
      counted = refl;
      bounded = omega arith;
      answered = omega arith;
      once = λ n. ground arith;
    };
    busy = λ o r. refl;
    few = omega arith;
  }

  -- a change of the active jobs that keeps their number
  pub active-IsSound :
      (m : JsMap (List Job)) (log : List Job) (s : Turns)
      → SameSize s.active_by_peer m
      → IsSound s
      → IsSound (record s { active_by_peer = m; begun = log })
  active-IsSound m log s same h = record {
    booked = record {
      mirror = h.booked.mirror;
      distinct = same.distinct h.booked.distinct;
      counted = omega (arith, h.booked.counted, same.same);
      bounded = h.booked.bounded;
      answered = h.booked.answered;
      once = λ n. omega (arith, h.booked.once n, same.tallies n);
    };
    busy = h.busy;
    few = h.few;
  }

  pub cancel_queued-IsSound : (k : String) (s : Turns) → IsSound s → IsSound (cancel_queued k s)
  cancel_queued-IsSound k s h =
      let c = cancel_queued-IsCancelled k s h.booked.mirror in
      let left = ap length (cancel_queued-others k s h.booked.mirror) in
      let split = length-split k s.queued_turns in
      record {
        booked = record {
          mirror = c.mirror;
          distinct = subst IsDistinct (sym c.active) h.booked.distinct;
          counted = omega (arith, h.booked.counted, c.count, ap total c.active);
          bounded = omega (arith, h.booked.bounded, c.count);
          answered = omega (
            arith,
            h.booked.answered,
            ap length c.log,
            c.count,
            c.number,
            left,
            split,
            length-append s.resolved (map (λ j. (j, stopped)) (keep_if (of_peer k) s.queued_turns)),
            length-stopped (keep_if (of_peer k) s.queued_turns),
          );
          once = λ n. omega (
            arith,
            h.booked.once n,
            ap (answers n) c.log,
            answers-append n s.resolved
                (map (λ j. (j, stopped)) (keep_if (of_peer k) s.queued_turns)),
            answers-stopped n (keep_if (of_peer k) s.queued_turns),
            tally-split n k s.queued_turns,
            ap (tally n) (cancel_queued-others k s h.booked.mirror),
            ap (sum_of (tally n)) c.active,
            ap (expected n) c.number,
          );
        };
        busy = λ o r.
            omega (arith, h.busy (sym c.shutting ∙ o) (omega (arith, r, c.count)), left, split);
        few = omega (arith, h.few, left, split);
      }

  cancel_peers-IsSound : (ks : List String) (s : Turns) → IsSound s → IsSound (cancel_peers ks s)
  unfolding cancel_peers
  cancel_peers-IsSound [] s h = h
  cancel_peers-IsSound (k ∷ ks) s h = cancel_peers-IsSound ks _ (cancel_queued-IsSound k s h)

  pub shutdown-IsSound : (s : Turns) → IsSound s → IsSound (shutdown s)
  unfolding shutdown
  shutdown-IsSound s h =
      if-cases IsSound s.shutting_down _ _ (λ y. h)
        (λ n.
          let closed : IsSound (record s { shutting_down = true }) = record {
            booked = record {
              mirror = h.booked.mirror;
              distinct = h.booked.distinct;
              counted = h.booked.counted;
              bounded = h.booked.bounded;
              answered = h.booked.answered;
              once = h.booked.once;
            };
            busy = λ o r. absurd (cc o);
            few = h.few;
          } in
          active-IsSound _ _ _ (map_all-SameSize cancel_job _ (λ j. refl))
            (cancel_peers-IsSound (map (λ e. e.0) s.queued_by_peer) _ closed))

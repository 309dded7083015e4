-- ===== src/Turns/Queue.antt =====
-- The queue. A job is known by its peer key and number, where the code compares objects. An admitted
-- job waits for the microtask that calls its `run`; when a turn ends and with what is an event, as is
-- its microtask. `resolved` logs the calls of the jobs' `resolve`, `begun` those of their `run`.
use polkadot_chat_agents.Base.JsMap
use polkadot_chat_agents.Base.JsMap.{JsMap}
use polkadot_chat_agents.Base.{
  ℕ, ◌+◌, ◌-◌, String, Bool, true, false, not, ◌&&◌, Option, none, some, List, [], ◌∷◌, ◌++◌, map,
  leb, ltb, ◌==◌, length, if◌then◌else◌, key_dec, ite,
}

pub record Job : Type 0 where
  pub peer_key : String
  pub number : ℕ
  pub cancelled : Bool
  pub began : Bool

pub data Outcome : Type 0 where
  stopped failed busy : Outcome
  answered : String → Outcome

pub record Limits : Type 0 where
  pub turn_limit : ℕ
  pub queued_turn_limit : ℕ

pub record Turns : Type 0 where
  pub shutting_down : Bool
  pub active_turn_count : ℕ
  pub queued_turns : List Job
  pub queued_by_peer : JsMap (List Job)
  pub active_by_peer : JsMap (List Job)
  pub next_number : ℕ
  pub resolved : List (Job × Outcome)
  pub begun : List Job

unfoldable pub create : Turns
create = record {
  shutting_down = false;
  active_turn_count = 0;
  queued_turns = [];
  queued_by_peer = [];
  active_by_peer = [];
  next_number = 0;
  resolved = [];
  begun = [];
}

abbrev pub is_text : String → String → Bool
is_text a b = ite (key_dec a b) true false

abbrev pub of_peer : String → Job → Bool
of_peer key job = is_text job.peer_key key

abbrev pub is_same : Job → Job → Bool
is_same a b = of_peer a.peer_key b && b.number == a.number

abbrev pub jobs_of : Option (List Job) → List Job
jobs_of none = []
jobs_of (some jobs) = jobs

abbrev pub jobs_at : String → JsMap (List Job) → List Job
jobs_at key m = jobs_of (JsMap.get key m)

-- the removal of one job: `delete` of a set, `splice` of an array
unfoldable pub take_job : Job → List Job → List Job
take_job job [] = []
take_job job (j ∷ js) = let rest = take_job job js in if is_same job j then js else j ∷ rest

-- `addQueuedTurn` and `addActiveTurn`, on their map
unfoldable pub add_to : Job → JsMap (List Job) → JsMap (List Job)
unfolding JsMap.get JsMap.set
add_to job m = JsMap.set job.peer_key (jobs_at job.peer_key m ++ job ∷ []) m

abbrev pub put_jobs : String → List Job → JsMap (List Job) → JsMap (List Job)
put_jobs key [] m = JsMap.delete key m
put_jobs key (j ∷ js) m = JsMap.set key (j ∷ js) m

abbrev pub drop_found : Job → Option (List Job) → JsMap (List Job) → JsMap (List Job)
drop_found job none m = m
drop_found job (some jobs) m = put_jobs job.peer_key (take_job job jobs) m

-- `removeQueuedTurn` and `removeActiveTurn`, on their map
unfoldable pub drop_from : Job → JsMap (List Job) → JsMap (List Job)
unfolding JsMap.get JsMap.set JsMap.delete take_job
drop_from job m = drop_found job (JsMap.get job.peer_key m) m

unfoldable pub resolve : Job → Outcome → Turns → Turns
resolve job outcome s = record s { resolved = s.resolved ++ (job, outcome) ∷ [] }

-- a job that `drainTurnQueue` has shifted from the queue
unfoldable pub admit : Job → Turns → Turns
unfolding resolve add_to drop_from
admit job s =
    let s' = record s { queued_by_peer = drop_from job s.queued_by_peer } in
    if job.cancelled then resolve job stopped s' else record s' {
      active_turn_count = s'.active_turn_count + 1;
      active_by_peer = add_to job s'.active_by_peer;
    }

-- `cancelQueuedTurns`, for the jobs of the peer
unfoldable pub cancel_all : List Job → Turns → Turns
unfolding resolve take_job drop_from
cancel_all [] s = s
cancel_all (job ∷ jobs) s = cancel_all jobs (
    resolve job stopped (record s {
      queued_turns = take_job job s.queued_turns;
      queued_by_peer = drop_from job s.queued_by_peer;
    }))

unfoldable pub cancel_queued : String → Turns → Turns
unfolding cancel_all JsMap.get
cancel_queued key s = cancel_all (jobs_at key s.queued_by_peer) s

-- a change of the active jobs of a peer
abbrev pub update_found :
    String → (Job → Job) → Option (List Job) → JsMap (List Job) → JsMap (List Job)
update_found key f none m = m
update_found key f (some jobs) m = JsMap.set key (map f jobs) m

unfoldable pub update_at : String → (Job → Job) → JsMap (List Job) → JsMap (List Job)
unfolding JsMap.get JsMap.set
update_at key f m = update_found key f (JsMap.get key m) m

abbrev pub cancel_job : Job → Job
cancel_job job = record job { cancelled = true }

-- the active jobs of a peer are told to stop; those that have begun end by their process
unfoldable pub cancel_active : String → Turns → Turns
unfolding update_at
cancel_active key s = record s { active_by_peer = update_at key cancel_job s.active_by_peer }

unfoldable pub stop : String → Turns → Turns
unfolding cancel_queued cancel_active
stop key s = cancel_active key (cancel_queued key s)

unfoldable pub cancel_peers : List String → Turns → Turns
unfolding cancel_queued
cancel_peers [] s = s
cancel_peers (key ∷ keys) s = cancel_peers keys (cancel_queued key s)

unfoldable pub shutdown : Turns → Turns
unfolding cancel_peers
shutdown s =
    if s.shutting_down
    then s
    else (let s' =
          cancel_peers (map (λ e. e.0) s.queued_by_peer) (record s { shutting_down = true }) in
        record s' { active_by_peer = map (λ e. (e.0, map cancel_job e.1)) s'.active_by_peer })

-- the microtask of the job: where it is cancelled, it is not run
abbrev pub is_numbered : ℕ → Job → Bool
is_numbered number job = job.number == number

abbrev pub begin_job : ℕ → Job → Job
begin_job number job =
    if is_numbered number job && not job.cancelled then record job { began = true } else job

unfoldable pub begins_in : ℕ → List Job → List Job
begins_in number [] = []
begins_in number (job ∷ jobs) =
    let rest = begins_in number jobs in
    if is_numbered number job && not job.cancelled && not job.began then job ∷ rest else rest

unfoldable pub begin : String → ℕ → Turns → Turns
unfolding update_at begins_in JsMap.get
begin key number s = record s {
  begun = s.begun ++ begins_in number (jobs_at key s.active_by_peer);
  active_by_peer = update_at key (begin_job number) s.active_by_peer;
}

unfoldable pub find_job : String → ℕ → List Job → Option Job
find_job key number [] = none
find_job key number (job ∷ jobs) =
    let rest = find_job key number jobs in
    if of_peer key job && is_numbered number job then some job else rest

-- what the job resolves with, `none` before its microtask
abbrev pub outcome_of : Job → Outcome → Option Outcome
outcome_of job outcome =
    if job.began then some outcome else if job.cancelled then some stopped else none

module _ (limits : Limits) where
  -- the loop of `drainTurnQueue` over the queue
  unfoldable pub drain_on : List Job → Turns → Turns
  unfolding admit
  drain_on [] s = record s { queued_turns = [] }
  drain_on (job ∷ jobs) s =
      let next = drain_on jobs (admit job s) in
      if not s.shutting_down && ltb s.active_turn_count limits.turn_limit
      then next
      else record s { queued_turns = job ∷ jobs }

  unfoldable pub drain : Turns → Turns
  unfolding drain_on
  drain s = drain_on s.queued_turns s

  -- the end of an active job, with its `finally`
  abbrev pub end_with : Job → Option Outcome → Turns → Turns
  end_with job none s = s
  end_with job (some outcome) s = drain (
      resolve job outcome (record s {
        active_turn_count = s.active_turn_count - 1;
        active_by_peer = drop_from job s.active_by_peer;
      }))

  abbrev pub end_job : Option Job → Outcome → Turns → Turns
  end_job none outcome s = s
  end_job (some job) outcome s = end_with job (outcome_of job outcome) s

  unfoldable pub end : String → ℕ → Outcome → Turns → Turns
  unfolding find_job resolve drop_from drain JsMap.get
  end key number outcome s = end_job (find_job key number (jobs_at key s.active_by_peer)) outcome s

  abbrev pub new_job : String → Turns → Job
  new_job key s = record {
    peer_key = key;
    number = s.next_number;
    cancelled = false;
    began = false;
  }

  -- `queueEngineTurn`; a call that is turned away is answered at once
  unfoldable pub queue_turn : String → Turns → Turns
  unfolding resolve add_to drain
  queue_turn key s =
      let job = new_job key s in
      let s' = record s { next_number = s.next_number + 1 } in
      if s.shutting_down
      then resolve job stopped s'
      else if leb limits.turn_limit s.active_turn_count
          && leb limits.queued_turn_limit (length s.queued_turns)
      then resolve job busy s'
      else drain (record s' {
        queued_turns = s.queued_turns ++ job ∷ [];
        queued_by_peer = add_to job s.queued_by_peer;
      })

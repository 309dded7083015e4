-- ===== src/Dispatcher.antt =====
-- bot-core/lib/keyed-dispatcher.mjs: tasks of one key run in order, and all keys share a number of
-- workers. A task is a parameter; `started` lists the tasks begun, and `finish` is the `finally` of
-- the task that runs for a key.
pub mod Sums
pub mod Sound
pub mod Steps
pub mod Calls
pub mod Limits
pub mod Histories
pub mod Order
pub mod Fifo
mod Tests
use polkadot_chat_agents.Base.{
  ℕ, zero, suc, ◌-◌, ◌<◌, String, Bool, true, false, Option, none, some, List, [], ◌∷◌, ◌++◌, leb,
  ltb, if◌then◌else◌, max, not, ◌||◌, ◌&&◌,
}
use polkadot_chat_agents.Base.JsMap
use polkadot_chat_agents.Base.JsMap.{JsMap}

pub record KeyQueue (T : Type 0) : Type 0 where
  pub tasks : List T
  pub running : Bool
  pub ready : Bool

pub record Dispatcher (T : Type 0) : Type 0 where
  pub worker_limit : ℕ
  pub queue_limit : ℕ
  pub queues : JsMap (KeyQueue T)
  pub ready_keys : List String
  pub active : ℕ
  pub queued : ℕ
  pub started : List (String × T)

module _ {T : Type 0} where
  unfoldable pub create : ℕ → ℕ → Dispatcher T
  create concurrency max_queued = record {
    worker_limit = max 1 concurrency;
    queue_limit = max 1 max_queued;
    queues = [];
    ready_keys = [];
    active = 0;
    queued = 0;
    started = [];
  }

  abbrev pub has_tasks : List T → Bool
  has_tasks [] = false
  has_tasks (t ∷ ts) = true

  -- `makeReady(key, entry)`, for the entry that the map then holds at the key
  unfoldable pub make_ready : String → KeyQueue T → Dispatcher T → Dispatcher T
  unfolding JsMap.set
  make_ready key q s =
      if q.running || q.ready || not (has_tasks q.tasks)
      then record s { queues = JsMap.set key q s.queues }
      else record s {
        queues = JsMap.set key (record q { ready = true }) s.queues;
        ready_keys = s.ready_keys ++ key ∷ [];
      }

  -- the loop's body for the entry of a key, once it is no longer marked ready
  unfoldable pub dispatch : String → KeyQueue T → List T → Dispatcher T → Dispatcher T
  unfolding JsMap.set
  dispatch key q [] s = record s { queues = JsMap.set key (record q { ready = false }) s.queues }
  dispatch key q (job ∷ rest) s =
      if q.running
      then record s { queues = JsMap.set key (record q { ready = false }) s.queues }
      else record s {
        queues = JsMap.set key (record { tasks = rest; running = true; ready = false }) s.queues;
        queued = s.queued - 1;
        active = suc s.active;
        started = s.started ++ (key, job) ∷ [];
      }

  unfoldable pub take_ready : String → Option (KeyQueue T) → Dispatcher T → Dispatcher T
  unfolding dispatch
  take_ready key none s = s
  take_ready key (some q) s = dispatch key q q.tasks s

  -- the `while` loop of `drain` over the ready keys
  unfoldable pub drain_loop : List String → Dispatcher T → Dispatcher T
  unfolding take_ready JsMap.get
  drain_loop [] s = record s { ready_keys = [] }
  drain_loop (key ∷ rest) s = elim (ltb s.active s.worker_limit) [
    | true ↦ drain_loop rest (take_ready key (JsMap.get key s.queues) s)
    | false ↦ record s { ready_keys = key ∷ rest }
  ]

  unfoldable pub drain : Dispatcher T → Dispatcher T
  unfolding drain_loop
  drain s = drain_loop s.ready_keys s

  abbrev pub or_new : Option (KeyQueue T) → KeyQueue T
  or_new none = record { tasks = []; running = false; ready = false }
  or_new (some q) = q

  abbrev pub push : T → KeyQueue T → KeyQueue T
  push task q = record q { tasks = q.tasks ++ task ∷ [] }

  -- `run`; false is the `null` of a full backlog
  unfoldable pub run : String → T → Dispatcher T → Dispatcher T × Bool
  unfolding make_ready drain JsMap.get
  run key task s = if leb s.queue_limit s.queued then (s, false) else (
    drain (
        make_ready key (push task (or_new (JsMap.get key s.queues)))
          (record s { queued = suc s.queued })),
    true,
  )

  -- the entry of a task that has ended: ready again, or gone
  unfoldable pub settle : String → KeyQueue T → Dispatcher T → Dispatcher T
  unfolding make_ready JsMap.set JsMap.delete
  settle key q s =
      if has_tasks q.tasks
      then make_ready key q s
      else if q.ready
      then record s { queues = JsMap.set key q s.queues }
      else record s { queues = JsMap.delete key s.queues }

  abbrev pub finish_of : String → Option (KeyQueue T) → Dispatcher T → Dispatcher T
  finish_of key none s = s
  finish_of key (some q) s =
      if q.running
      then drain (settle key (record q { running = false }) (record s { active = s.active - 1 }))
      else s

  unfoldable pub finish : String → Dispatcher T → Dispatcher T
  unfolding settle drain JsMap.get
  finish key s = finish_of key (JsMap.get key s.queues) s

pub data Event (T : Type 0) : Type 0 where
  submitted : String → T → Event T
  finished : String → Event T

module _ {T : Type 0} where
  unfoldable pub step : Event T → Dispatcher T → Dispatcher T
  unfolding run finish
  step (submitted key task) s = (run key task s).0
  step (finished key) s = finish key s

  unfoldable pub history : List (Event T) → Dispatcher T → Dispatcher T
  unfolding step
  history [] s = s
  history (e ∷ es) s = history es (step e s)

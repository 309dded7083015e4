-- ===== src/T3ams/Context/Snapshot.antt =====
-- The call `snapshot`, and the histories of a store.
use polkadot_chat_agents.Base.JsMap
use polkadot_chat_agents.Base.JsMap.{JsMap}
use polkadot_chat_agents.T3ams.Context.Chat.{Entry, Limits}
use polkadot_chat_agents.T3ams.Context.Store.{Store, Raw, prune}
use polkadot_chat_agents.T3ams.Context.Calls.{entries_of, append}
use polkadot_chat_agents.T3ams.Context.Changes.{
  Target, snapshot_limit, pick, clear, reach, replace, remove,
}
use polkadot_chat_agents.Base.{ℕ, String, Option, none, some, List, [], ◌∷◌, if◌then◌else◌}

-- the ids of a call of `snapshot`, and its limits, `none` where none is given
pub record Request : Type 0 where
  pub chat_id : String
  pub thread_root_id : Option String
  pub max_records : Option ℕ
  pub max_bytes : Option ℕ

pub data Event : Type 0 where
  appends : ℕ → Option String → Raw → Event
  replaces : ℕ → Option Target → Option String → Event
  removes : ℕ → Option Target → Event
  snapshots : ℕ → Option Request → Event
  clears : Option String → Event
  prunes : ℕ → Event

module _ (limits : Limits) where
  abbrev pub snapshot_of : ℕ → Option Request → Store → Store × List Entry
  snapshot_of now none s = (s, [])
  snapshot_of now (some r) s =
      let s' = reach limits now r.chat_id s in
      (
        s',
        pick (snapshot_limit r.max_records limits.records_per_chat)
            (snapshot_limit r.max_bytes limits.bytes_per_chat) r.thread_root_id
            (entries_of (JsMap.get r.chat_id s'.chats)),
      )

  unfoldable pub snapshot : ℕ → Option Request → Store → Store × List Entry
  unfolding reach pick JsMap.get
  snapshot now request s = if limits.enabled then snapshot_of now request s else (s, [])

  unfoldable pub step : Event → Store → Store
  unfolding append replace remove snapshot clear prune
  step (appends now id raw) s = (append limits now id raw s).0
  step (replaces now target text) s = (replace limits now target text s).0
  step (removes now target) s = (remove limits now target s).0
  step (snapshots now request) s = (snapshot now request s).0
  step (clears id) s = (clear id s).0
  step (prunes now) s = prune limits now s

  unfoldable pub run : List Event → Store → Store
  unfolding step
  run [] s = s
  run (e ∷ es) s = run es (step e s)

-- ===== src/T3ams/Lifecycle/Restart.antt =====
-- Histories of the store's calls, and a restart after them.
use polkadot_chat_agents.T3ams.Lifecycle.Store.{
  Limits, Ids, Records, Operation, prune, apply_message, apply_operation, clear_chat,
}
use polkadot_chat_agents.T3ams.Lifecycle.Saved.{snapshot, restore}
use polkadot_chat_agents.T3ams.Lifecycle.RoundTrip.{
  restore-snapshot, IsDistinct-keep_if, All-keep_if,
}
use polkadot_chat_agents.Base.{ℕ, ◌≤◌, String, Option, List, [], ◌∷◌, ◌≡◌, All}
use polkadot_chat_agents.T3ams.Lifecycle.Savable.{Keeps, apply_message-Keeps}
use polkadot_chat_agents.T3ams.Lifecycle.Operations.{apply_operation-Keeps}

pub data Call : Type 0 where
  message : ℕ → Option Ids → String → Option ℕ → Call
  operation : ℕ → Option Ids → Operation → Option ℕ → Call
  clears : String → Call

-- the call is no later than the time
abbrev pub IsBefore : ℕ → Call → Type 0
IsBefore later (message now ids text timestamp) = now ≤ later
IsBefore later (operation now ids op timestamp) = now ≤ later
IsBefore later (clears prefix) = Unit

module _ (limits : Limits) where
  unfoldable pub step : Call → Records → Records
  unfolding apply_message apply_operation clear_chat
  step (message now ids text timestamp) m = (apply_message limits now ids text timestamp m).0
  step (operation now ids op timestamp) m = (apply_operation limits now ids op timestamp m).0
  step (clears prefix) m = (clear_chat prefix m).0

  unfoldable pub run : List Call → Records → Records
  unfolding step
  run [] m = m
  run (c ∷ cs) m = run cs (step c m)

module _ (limits : Limits) (later : ℕ) where
  step-Keeps :
      (c : Call) (m : Records)
      → IsBefore later c
      → Keeps limits later m
      → Keeps limits later (step limits c m)
  unfolding step clear_chat
  step-Keeps (message now ids text t) m le h =
      apply_message-Keeps limits later now ids text t m le h
  step-Keeps (operation now ids op t) m le h =
      apply_operation-Keeps limits later now ids op t m le h
  step-Keeps (clears prefix) m le h = record {
    distinct = IsDistinct-keep_if limits _ m h.distinct;
    savable = All-keep_if limits _ _ m h.savable;
  }

  run-Keeps :
      (cs : List Call) (m : Records)
      → All (IsBefore later) cs
      → Keeps limits later m
      → Keeps limits later (run limits cs m)
  unfolding run
  run-Keeps [] m le h = h
  run-Keeps (c ∷ cs) m le h = run-Keeps cs (step limits c m) le.1 (step-Keeps c m le.0 h)

  -- After any history of calls, the state file that `snapshot` writes is read by `restore` in a later
  -- process, with a clock that is behind none of the calls, as the store that the old process would
  -- have after its next `prune`.
  pub restore-run :
      (now : ℕ) (cs : List Call)
      → All (IsBefore later) cs
      → (restore limits later (snapshot limits now (run limits cs [])).1).0
        ≡ prune limits later (prune limits now (run limits cs []))
  restore-run now cs le =
      let h = run-Keeps cs [] le (record { distinct = tt; savable = tt }) in
      restore-snapshot limits now later (run limits cs []) h.distinct h.savable

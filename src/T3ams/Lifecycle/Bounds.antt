-- ===== src/T3ams/Lifecycle/Bounds.antt =====
-- The sizes of the store over its operations.
use polkadot_chat_agents.Base.{
  ℕ, ◌≤◌, String, Option, none, some, [], ◌∷◌, arith, ◌==◌, length, Bool-cases, Option-cases, inl,
  inr,
}
use polkadot_chat_agents.Base.JsMap
use polkadot_chat_agents.Base.JsMap.{JsMap}
use polkadot_chat_agents.T3ams.Lifecycle.Entry.{Entry}
use polkadot_chat_agents.T3ams.Lifecycle.Store.{
  Limits, Ids, Records, Operation, edit_to, delete, other, total_bytes, trim_to_limits,
  drop_expired, prune, touch, normalize_text, receive, apply_message, store, operate, operate_on,
  apply_operation,
}

abbrev pub Fits : Limits → Records → Type 0
Fits limits m = (length m ≤ limits.max_records) × (total_bytes m ≤ limits.max_state_bytes)

module _ (limits : Limits) where
  trim_to_limits-Fits : (m : Records) → Fits limits (trim_to_limits limits m)
  unfolding trim_to_limits total_bytes
  trim_to_limits-Fits [] = (omega arith, omega arith)
  trim_to_limits-Fits ((k, e) ∷ m) =
      let ih = trim_to_limits-Fits m in (ground (arith, ih.0), ground (arith, ih.1))

  pub prune-Fits : (now : ℕ) (m : Records) → Fits limits (prune limits now m)
  unfolding prune
  prune-Fits now m = elim (Bool-cases (limits.ttl_ms == 0)) [
    | inl off ↦ rw off (unfold total_bytes in (omega arith, omega arith))
    | inr on ↦ rw on (trim_to_limits-Fits (drop_expired limits now m))
  ]

  touch-Fits : (key : String) (e : Entry) (m : Records) → Fits limits (touch limits key e m)
  unfolding touch
  touch-Fits key e m = trim_to_limits-Fits (JsMap.set key e (JsMap.delete key m))

  -- Whatever arrives, and whatever the store held before, `applyMessage` leaves at most the
  -- configured number of records and of bytes.
  pub apply_message-Fits :
      (now : ℕ) (ids : Option Ids) (text : String) (timestamp : Option ℕ) (m : Records)
      → Fits limits (apply_message limits now ids text timestamp m).0
  unfolding apply_message receive
  apply_message-Fits now none text timestamp m = prune-Fits now m
  apply_message-Fits now (some ids) text none m = prune-Fits now m
  apply_message-Fits now (some ids) text (some t) m =
      elim (Option-cases (normalize_text limits text)) [
        | inl bad ↦ rw (bad, apply_message) (prune-Fits now m)
        | inr (body, ok) ↦ rw (ok, apply_message) (touch-Fits ids.key _ (prune limits now m))
      ]

  operate-Fits :
      (now : ℕ) (ids : Ids) (op : Operation) (t : ℕ) (e : Entry) (m : Records)
      → Fits limits m
      → Fits limits (operate limits now ids op t e m).0
  unfolding operate store
  operate-Fits now ids (edit_to text) t e m h = elim (Option-cases (normalize_text limits text)) [
    | inl bad ↦ rw (bad, operate) h
    | inr (body, ok) ↦ rw (ok, operate) (touch-Fits ids.key _ m)
  ]
  operate-Fits now ids delete t e m h = touch-Fits ids.key _ m
  operate-Fits now ids other t e m h = h

  operate_on-Fits :
      (now : ℕ) (ids : Ids) (op : Operation) (t : ℕ) (base : Option Entry) (m : Records)
      → Fits limits m
      → Fits limits (operate_on limits now ids op t base m).0
  unfolding operate_on
  operate_on-Fits now ids op t none m h = h
  operate_on-Fits now ids op t (some e) m h = operate-Fits now ids op t e m h

  -- Whatever arrives, and whatever the store held before, `applyOperation` leaves at most the
  -- configured number of records and of bytes.
  pub apply_operation-Fits :
      (now : ℕ) (ids : Option Ids) (op : Operation) (timestamp : Option ℕ) (m : Records)
      → Fits limits (apply_operation limits now ids op timestamp m).0
  unfolding apply_operation
  apply_operation-Fits now none op timestamp m = prune-Fits now m
  apply_operation-Fits now (some ids) op none m = prune-Fits now m
  apply_operation-Fits now (some ids) other (some t) m = prune-Fits now m
  apply_operation-Fits now (some ids) (edit_to text) (some t) m =
      operate_on-Fits now ids (edit_to text) t _ (prune limits now m) (prune-Fits now m)
  apply_operation-Fits now (some ids) delete (some t) m =
      operate_on-Fits now ids delete t _ (prune limits now m) (prune-Fits now m)

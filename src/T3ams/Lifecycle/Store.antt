-- ===== src/T3ams/Lifecycle/Store.antt =====
-- The bounded map of records, in least-recently-touched order, and the two operations on it. The
-- ids of a raw event are those that `normalizedBase` returns: `none` where one is malformed.
use polkadot_chat_agents.Base.{
  ℕ, ◌+◌, String, Bool, false, not, ◌||◌, Option, none, some, [], ◌∷◌, leb, ltb, ◌==◌, length,
  keep_if, if◌then◌else◌, key_dec, ite,
}
use Prim.Native.String.{len}
use text.Mathlib.Text.{starts_with}
use polkadot_chat_agents.Base.JsMap
use polkadot_chat_agents.Base.JsMap.{JsMap}
use polkadot_chat_agents.T3ams.Lifecycle.Entry.{
  Edit, Entry, blank, message_base, see, MessageResult, invalid_message, message_result, edit_entry,
  edit_changed, delete_entry, delete_changed,
}

pub record Limits : Type 0 where
  pub max_records : ℕ
  pub ttl_ms : ℕ
  pub max_text_bytes : ℕ
  pub max_state_bytes : ℕ

pub record Ids : Type 0 where
  pub sender_xid : String
  pub key : String

abbrev pub Records : Type 0
Records = JsMap Entry

abbrev pub edit_bytes : Option Edit → ℕ
edit_bytes none = 0
edit_bytes (some e) = len e.text + 16

unfoldable pub record_bytes : String → Entry → ℕ
record_bytes key e = len key + len e.sender_xid + edit_bytes e.edit + 64

unfoldable pub total_bytes : Records → ℕ
unfolding record_bytes
total_bytes [] = 0
total_bytes ((k, e) ∷ m) = record_bytes k e + total_bytes m

-- what an operation asks for: `kind` is neither where it is another kind
pub data Operation : Type 0 where
  edit_to : String → Operation
  delete : Operation
  other : Operation

pub data OperationResult : Type 0 where
  invalid_operation sender_mismatch invalid_edit : OperationResult
  accepted : Bool → Entry → OperationResult

module _ (limits : Limits) where
  -- `trimToLimits`: the oldest records go until both bounds hold
  unfoldable pub trim_to_limits : Records → Records
  unfolding total_bytes
  trim_to_limits [] = []
  trim_to_limits ((k, e) ∷ m) =
      let rest = trim_to_limits m in
      if ltb limits.max_records (length ((k, e) ∷ m))
        || ltb limits.max_state_bytes (total_bytes ((k, e) ∷ m))
      then rest
      else (k, e) ∷ m

  -- the loop of `prune` over the records, at the time `now`
  unfoldable pub drop_expired : ℕ → Records → Records
  drop_expired now = keep_if (λ r. ltb now (r.1.touched_at + limits.ttl_ms))

  unfoldable pub prune : ℕ → Records → Records
  unfolding drop_expired trim_to_limits
  prune now m = if limits.ttl_ms == 0 then [] else trim_to_limits (drop_expired now m)

  unfoldable pub touch : String → Entry → Records → Records
  unfolding trim_to_limits JsMap.delete JsMap.set
  touch key e m = trim_to_limits (JsMap.set key e (JsMap.delete key m))

  -- `normalizeText` with `allowEmpty`
  unfoldable pub normalize_text : String → Option String
  normalize_text text = if leb (len text) limits.max_text_bytes then some text else none

  unfoldable pub receive : ℕ → Ids → String → ℕ → Records → Records × MessageResult
  unfolding message_base see message_result touch JsMap.get
  receive now ids text timestamp m =
      let e =
        see ids.sender_xid timestamp now (message_base ids.sender_xid now (JsMap.get ids.key m)) in
      (touch ids.key e m, message_result text e)

  -- `applyMessage`, at the time `now`
  unfoldable pub apply_message :
      ℕ → Option Ids → String → Option ℕ → Records → Records × MessageResult
  unfolding prune normalize_text receive
  apply_message now none text timestamp m = (prune now m, invalid_message)
  apply_message now (some ids) text none m = (prune now m, invalid_message)
  apply_message now (some ids) text (some t) m = elim (normalize_text text) [
    | none ↦ (prune now m, invalid_message)
    | some body ↦ receive now ids body t (prune now m)
  ]

  -- the record that `existing ?? {…}` gives, or the mismatch of its sender
  unfoldable pub operation_base : String → ℕ → Option Entry → Option Entry
  operation_base sender_xid now none = some (blank sender_xid now)
  operation_base sender_xid now (some e) = ite (key_dec e.sender_xid sender_xid) (some e) none

  unfoldable pub store : ℕ → String → Bool → Entry → Records → Records × OperationResult
  unfolding touch
  store now key changed e m =
      let e' : Entry = record e { touched_at = now } in (touch key e' m, accepted changed e')

  unfoldable pub operate : ℕ → Ids → Operation → ℕ → Entry → Records → Records × OperationResult
  unfolding store normalize_text edit_entry edit_changed delete_entry delete_changed
  operate now ids (edit_to text) t e m = elim (normalize_text text) [
    | none ↦ (m, invalid_edit)
    | some body ↦ store now ids.key (edit_changed body t e) (edit_entry body t e) m
  ]
  operate now ids delete t e m = store now ids.key (delete_changed t e) (delete_entry t e) m
  operate now ids other t e m = (m, invalid_operation)

  unfoldable pub operate_on :
      ℕ → Ids → Operation → ℕ → Option Entry → Records → Records × OperationResult
  unfolding operate
  operate_on now ids op t none m = (m, sender_mismatch)
  operate_on now ids op t (some e) m = operate now ids op t e m

  -- `applyOperation`, at the time `now`
  unfoldable pub apply_operation :
      ℕ → Option Ids → Operation → Option ℕ → Records → Records × OperationResult
  unfolding prune operate_on operation_base JsMap.get
  apply_operation now none op timestamp m = (prune now m, invalid_operation)
  apply_operation now (some ids) op none m = (prune now m, invalid_operation)
  apply_operation now (some ids) other (some t) m = (prune now m, invalid_operation)
  apply_operation now (some ids) op (some t) m =
      let kept = prune now m in
      operate_on now ids op t (operation_base ids.sender_xid now (JsMap.get ids.key kept)) kept

unfoldable pub has_prefix : String → Records → Bool
has_prefix prefix [] = false
has_prefix prefix ((k, e) ∷ m) = starts_with k prefix || has_prefix prefix m

-- `clearChat`, for a valid chat id followed by a NUL: the keys of a chat begin with these
unfoldable pub clear_chat : String → Records → Records × Bool
unfolding has_prefix
clear_chat prefix m = (keep_if (λ r. not (starts_with r.0 prefix)) m, has_prefix prefix m)

-- ===== src/T3ams/Context/Calls.antt =====
-- The call `append`, and what the calls that write share.
use Prim.Native.String.{len}
use polkadot_chat_agents.Base.JsMap
use polkadot_chat_agents.Base.JsMap.{JsMap}
use polkadot_chat_agents.T3ams.Context.Chat.{
  Entry, Chat, Limits, trim_chat, take_out, any_entry, has_id,
}
use polkadot_chat_agents.T3ams.Context.Store.{
  Store, Raw, disabled, invalid_chat, invalid_record, empty_text, record_too_large, duplicate,
  capacity, Result, refused, accepted, Normalized, bad, good, touch, put_chat, evict_chats,
  trim_global, prune,
}
use polkadot_chat_agents.Base.{
  ℕ, ◌+◌, ◌-◌, String, Option, none, some, List, [], ◌∷◌, ◌++◌, leb, ltb, ◌==◌, if◌then◌else◌,
}

abbrev pub len_of : Option String → ℕ
len_of none = 0
len_of (some s) = len s

abbrev pub entries_of : Option Chat → List Entry
entries_of none = []
entries_of (some chat) = chat.entries

abbrev pub chat_or_new : Option Chat → Chat
chat_or_new none = record { entries = []; bytes = 0 }
chat_or_new (some chat) = chat

-- the answer of a write: the record, where the chat still has it
abbrev pub answer_of : Option (Entry × List Entry) → Result
answer_of none = refused capacity
answer_of (some (e, rest)) = accepted e

abbrev pub within : Option String → ℕ → Option String
within none limit = none
within (some name) limit = if leb (len name) limit then some name else none

-- the `index` of a record, its replacement in place
unfoldable pub replace_entry : String → Entry → List Entry → List Entry
replace_entry id new [] = []
replace_entry id new (e ∷ es) = if has_id id e then new ∷ es else e ∷ replace_entry id new es

module _ (limits : Limits) where
  abbrev pub fit : Entry → Normalized
  fit e =
      if len e.text == 0
      then bad empty_text
      else if ltb limits.record_bytes_limit e.bytes
      then bad record_too_large
      else good e

  abbrev pub entry_of : String → String → Option String → String → Option String → ℕ → ℕ → Entry
  entry_of message_id sender_xid root text name received_at sequence = record {
    message_id = message_id;
    sender_xid = sender_xid;
    sender_name = name;
    text = text;
    thread_root_id = root;
    received_at = received_at;
    sequence = sequence;
    bytes = 96 + len message_id + len sender_xid + len text + len_of name + len_of root;
  }

  abbrev pub normalize_fields :
      Option String
      → Option String
      → Option (Option String)
      → Option String
      → Option String
      → ℕ
      → ℕ
      → Normalized
  normalize_fields (some id) (some xid) (some root) (some text) name received_at sequence = fit (
      entry_of id xid root text (within name limits.sender_name_bytes_limit) received_at
        (sequence + 1))
  normalize_fields _ _ _ _ name received_at sequence = bad invalid_record

  unfoldable pub normalize_record : Raw → ℕ → ℕ → Normalized
  normalize_record raw received_at sequence =
      normalize_fields raw.message_id raw.sender_xid raw.thread_root_id raw.text raw.sender_name
        received_at sequence

  -- `ensureChat`, up to the chat that the caller puts
  unfoldable pub make_room : String → Store → Store
  unfolding touch JsMap.has evict_chats
  make_room id s =
      if JsMap.has id s.chats
      then record s { chats = touch id s.chats }
      else (let kept = evict_chats (limits.chat_limit - 1) s.chats s.total_bytes in
          record s { chats = kept.0; total_bytes = kept.1 })

  -- the trimming at the end of a write, and the answer
  unfoldable pub settle : String → String → Chat → ℕ → Store → Store × Result
  unfolding trim_chat put_chat trim_global JsMap.get take_out
  settle id message_id chat total s =
      let s' =
        trim_global limits
          (put_chat id (trim_chat limits (record { chat = chat; total = total })) s) in
      (s', answer_of (take_out (has_id message_id) (entries_of (JsMap.get id s'.chats))))

  unfoldable pub insert : String → Entry → Store → Store × Result
  unfolding make_room settle
  insert id e s =
      let s' = make_room id s in
      let chat = chat_or_new (JsMap.get id s'.chats) in
      settle id e.message_id
        (record { entries = chat.entries ++ (e ∷ []); bytes = chat.bytes + e.bytes })
        (s'.total_bytes + e.bytes) (record s' { sequence = s'.sequence + 1 })

  abbrev pub append_record : String → Normalized → Store → Store × Result
  append_record id (bad reason) s = (s, refused reason)
  append_record id (good e) s =
      if any_entry (has_id e.message_id) (entries_of (JsMap.get id s.chats))
      then (s, refused duplicate)
      else insert id e s

  abbrev pub append_to : ℕ → Option String → Raw → Store → Store × Result
  append_to now none raw s = (s, refused invalid_chat)
  append_to now (some id) raw s =
      let s' = prune limits now s in
      append_record id (normalize_record raw s'.last_receipt_at s'.sequence) s'

  unfoldable pub append : ℕ → Option String → Raw → Store → Store × Result
  unfolding prune normalize_record insert
  append now chat_id raw s =
      if limits.enabled then append_to now chat_id raw s else (s, refused disabled)

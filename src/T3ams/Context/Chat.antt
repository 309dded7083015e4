-- ===== src/T3ams/Context/Chat.antt =====
-- One chat of the channel context: its records, and the trimming to the bounds of a sender and of a
-- chat. A Trim is a chat that is trimmed with the store's count of bytes, from which the bytes of
-- removed records are taken as well.
use polkadot_chat_agents.Base.JsMap
use polkadot_chat_agents.Base.JsMap.{JsMap}
use polkadot_chat_agents.Base.{
  ℕ, zero, suc, ◌+◌, ◌-◌, String, Bool, true, false, ◌||◌, Option, none, some, List, [], ◌∷◌, ltb,
  length, if◌then◌else◌, key_dec, ite, min,
}

pub record Entry : Type 0 where
  pub message_id : String
  pub sender_xid : String
  pub sender_name : Option String
  pub text : String
  pub thread_root_id : Option String
  pub received_at : ℕ
  pub sequence : ℕ
  pub bytes : ℕ

pub record Chat : Type 0 where
  pub entries : List Entry
  pub bytes : ℕ

-- the options of the store, `none` where one is no integer in its range
pub record Options : Type 0 where
  pub enabled : Bool
  pub ttl_ms : Option ℕ
  pub max_chats : Option ℕ
  pub max_records_per_chat : Option ℕ
  pub max_bytes_per_chat : Option ℕ
  pub max_record_bytes : Option ℕ
  pub max_records_per_sender : Option ℕ
  pub max_bytes_per_sender : Option ℕ
  pub max_total_bytes : Option ℕ
  pub max_sender_name_bytes : Option ℕ

pub record Limits : Type 0 where
  pub enabled : Bool
  pub lifetime_ms : ℕ
  pub chat_limit : ℕ
  pub records_per_chat : ℕ
  pub bytes_per_chat : ℕ
  pub records_per_sender : ℕ
  pub bytes_per_sender : ℕ
  pub record_bytes_limit : ℕ
  pub sender_name_bytes_limit : ℕ
  pub total_bytes_limit : ℕ

abbrev pub positive_integer : Option ℕ → ℕ → ℕ
positive_integer none fallback = fallback
positive_integer (some zero) fallback = fallback
positive_integer (some (suc n)) fallback = suc n

abbrev pub non_negative_integer : Option ℕ → ℕ → ℕ
non_negative_integer none fallback = fallback
non_negative_integer (some n) fallback = n

unfoldable pub limits_of : Options → Limits
limits_of o =
    let total = positive_integer o.max_total_bytes 262144 in
    let per_chat = positive_integer o.max_records_per_chat 16 in
    let chat_bytes = min (positive_integer o.max_bytes_per_chat 8192) total in
    let sender_bytes = min (positive_integer o.max_bytes_per_sender 2048) chat_bytes in
    let record_bytes = min (positive_integer o.max_record_bytes 2048) sender_bytes in
    record {
      enabled = o.enabled;
      lifetime_ms = non_negative_integer o.ttl_ms 1800000;
      chat_limit = positive_integer o.max_chats 128;
      records_per_chat = per_chat;
      bytes_per_chat = chat_bytes;
      records_per_sender = min (positive_integer o.max_records_per_sender 4) per_chat;
      bytes_per_sender = sender_bytes;
      record_bytes_limit = record_bytes;
      sender_name_bytes_limit = min (positive_integer o.max_sender_name_bytes 512) record_bytes;
      total_bytes_limit = total;
    }

abbrev pub is_text : String → String → Bool
is_text a b = ite (key_dec a b) true false

abbrev pub is_from : String → Entry → Bool
is_from xid e = is_text e.sender_xid xid

abbrev pub has_id : String → Entry → Bool
has_id id e = is_text e.message_id id

abbrev pub any_entry : (Entry → Bool) → List Entry → Bool
any_entry p [] = false
any_entry p (e ∷ es) = p e || any_entry p es

-- the first entry that passes the test, and the list without it: `findIndex` and `splice`
unfoldable pub take_out : (Entry → Bool) → List Entry → Option (Entry × List Entry)
take_out p [] = none
take_out p (e ∷ es) =
    let rest = take_out p es in
    if p e then some (e, es) else elim rest [ none ↦ none | some (x, xs) ↦ some (x, e ∷ xs) ]

pub record Total : Type 0 where
  pub records : ℕ
  pub bytes : ℕ

abbrev pub or_zero : Option Total → Total
or_zero none = record { records = 0; bytes = 0 }
or_zero (some t) = t

abbrev pub add_entry : Entry → Total → Total
add_entry e t = record { records = t.records + 1; bytes = t.bytes + e.bytes }

unfoldable pub totals_from : JsMap Total → List Entry → JsMap Total
unfolding JsMap.get JsMap.set
totals_from m [] = m
totals_from m (e ∷ es) =
    totals_from (JsMap.set e.sender_xid (add_entry e (or_zero (JsMap.get e.sender_xid m))) m) es

abbrev pub sender_totals : List Entry → JsMap Total
sender_totals = totals_from []

pub record Trim : Type 0 where
  pub chat : Chat
  pub total : ℕ

abbrev pub remove_from : Trim → Option (Entry × List Entry) → Option Trim
remove_from t none = none
remove_from t (some (e, rest)) = some (record {
  chat = record { entries = rest; bytes = t.chat.bytes - e.bytes };
  total = t.total - e.bytes;
})

module _ (limits : Limits) where
  abbrev pub is_over : Total → Bool
  is_over t = ltb limits.records_per_sender t.records || ltb limits.bytes_per_sender t.bytes

  unfoldable pub find_offender : JsMap Total → Option String
  find_offender [] = none
  find_offender ((xid, t) ∷ m) = let rest = find_offender m in if is_over t then some xid else rest

  abbrev pub remove_oldest : Trim → Option String → Option Trim
  remove_oldest t none = none
  remove_oldest t (some xid) = remove_from t (take_out (is_from xid) t.chat.entries)

  -- a round of the loop over the senders, `none` where it breaks
  unfoldable pub fair_round : Trim → Option Trim
  unfolding find_offender totals_from take_out
  fair_round t = remove_oldest t (find_offender (sender_totals t.chat.entries))

  unfoldable pub trim_senders : ℕ → Trim → Trim
  unfolding fair_round
  trim_senders zero t = t
  trim_senders (suc n) t = elim (fair_round t) [ none ↦ t | some next ↦ trim_senders n next ]

  -- the `while` of `trimChat`; a chat without entries has no bytes, and the loop ends there
  unfoldable pub trim_oldest : List Entry → ℕ → ℕ → Trim
  trim_oldest [] bytes total = record {
    chat = record { entries = []; bytes = bytes };
    total = total;
  }
  trim_oldest (e ∷ es) bytes total =
      let next = trim_oldest es (bytes - e.bytes) (total - e.bytes) in
      if ltb limits.records_per_chat (length (e ∷ es)) || ltb limits.bytes_per_chat bytes
      then next
      else record { chat = record { entries = e ∷ es; bytes = bytes }; total = total }

  unfoldable pub trim_chat : Trim → Trim
  unfolding trim_senders trim_oldest
  trim_chat t =
      let fair = trim_senders (length t.chat.entries) t in
      trim_oldest fair.chat.entries fair.chat.bytes fair.total

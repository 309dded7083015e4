-- ===== src/T3ams/Context/Store.antt =====
-- The store of the chats and its operations. The ids of a call are those that `normalizeChatId` and
-- `normalizeXid` return: `none` where one is malformed. `now` is the reading of the clock, and a
-- record is known by its sequence number, where the code compares objects.
use polkadot_chat_agents.Base.JsMap
use polkadot_chat_agents.Base.JsMap.{JsMap}
use polkadot_chat_agents.T3ams.Context.Chat.{Entry, Chat, Limits, Trim}
use polkadot_chat_agents.Base.MapSums.{sum_of}
use polkadot_chat_agents.Base.{
  ℕ, zero, suc, ◌+◌, ◌-◌, String, Bool, true, false, not, ◌||◌, Option, none, some, List, [], ◌∷◌,
  leb, ltb, ◌==◌, length, keep_if, if◌then◌else◌, max,
}

pub record Store : Type 0 where
  pub chats : JsMap Chat
  pub total_bytes : ℕ
  pub sequence : ℕ
  pub last_receipt_at : ℕ

-- what a call of `append` gives: `thread_root_id` has its own `none` for an absent root, and the
-- name is trimmed, `none` where it is empty or has control characters
pub record Raw : Type 0 where
  pub message_id : Option String
  pub sender_xid : Option String
  pub thread_root_id : Option (Option String)
  pub text : Option String
  pub sender_name : Option String

pub data Reason : Type 0 where
  disabled invalid_chat invalid_record empty_text record_too_large duplicate missing : Reason
  sender_mismatch capacity : Reason

pub data Result : Type 0 where
  refused : Reason → Result
  accepted : Entry → Result

pub data Normalized : Type 0 where
  bad : Reason → Normalized
  good : Entry → Normalized

unfoldable pub create : Store
create = record { chats = []; total_bytes = 0; sequence = 0; last_receipt_at = 0 }

unfoldable pub receipt_now : ℕ → Store → Store
receipt_now now s = record s { last_receipt_at = max s.last_receipt_at now }

abbrev pub remove_found : String → Option Chat → Store → Store × Bool
remove_found id none s = (s, false)
remove_found id (some chat) s =
    (record s { chats = JsMap.delete id s.chats; total_bytes = s.total_bytes - chat.bytes }, true)

unfoldable pub remove_chat : String → Store → Store × Bool
unfolding JsMap.get JsMap.delete
remove_chat id s = remove_found id (JsMap.get id s.chats) s

abbrev pub touch_found : String → Option Chat → JsMap Chat → JsMap Chat
touch_found id none m = m
touch_found id (some chat) m = JsMap.set id chat (JsMap.delete id m)

unfoldable pub touch : String → JsMap Chat → JsMap Chat
unfolding JsMap.get JsMap.set JsMap.delete
touch id m = touch_found id (JsMap.get id m) m

abbrev pub is_empty : List Entry → Bool
is_empty [] = true
is_empty (e ∷ es) = false

-- a chat whose records went in place: the last one takes the chat with it
unfoldable pub put_chat : String → Trim → Store → Store
unfolding JsMap.set JsMap.delete
put_chat id t s = record s {
  chats = if is_empty t.chat.entries then JsMap.delete id s.chats else JsMap.set id t.chat s.chats;
  total_bytes = t.total;
}

abbrev pub bytes_of : List Entry → ℕ
bytes_of [] = 0
bytes_of (e ∷ es) = e.bytes + bytes_of es

-- a loop that removes the first chat as long as there are more than `limit`
unfoldable pub evict_chats : ℕ → JsMap Chat → ℕ → JsMap Chat × ℕ
evict_chats limit [] total = ([], total)
evict_chats limit ((id, chat) ∷ m) total =
    let rest = evict_chats limit m (total - chat.bytes) in
    if ltb limit (length ((id, chat) ∷ m)) then rest else ((id, chat) ∷ m, total)

-- the chat with the oldest record, with that record and the others
pub record Candidate : Type 0 where
  pub id : String
  pub entry : Entry
  pub rest : List Entry
  pub bytes : ℕ

abbrev pub is_older : Entry → Option Candidate → Bool
is_older e none = true
is_older e (some c) = ltb e.sequence c.entry.sequence

abbrev pub better : String → Chat → List Entry → Option Candidate → Option Candidate
better id chat [] best = best
better id chat (e ∷ es) best =
    if is_older e best
    then some (record { id = id; entry = e; rest = es; bytes = chat.bytes })
    else best

unfoldable pub find_candidate : JsMap Chat → Option Candidate → Option Candidate
find_candidate [] best = best
find_candidate ((id, chat) ∷ m) best = find_candidate m (better id chat chat.entries best)

abbrev pub drop_oldest : Candidate → Store → Store
drop_oldest c s =
    put_chat c.id
      (record {
        chat = record { entries = c.rest; bytes = c.bytes - c.entry.bytes };
        total = s.total_bytes - c.entry.bytes;
      })
      s

abbrev pub records_of : JsMap Chat → ℕ
records_of = sum_of (λ chat. length chat.entries)

abbrev pub shrink_by : Option Candidate → Store → Option Store
shrink_by none s = none
shrink_by (some c) s = some (drop_oldest c s)

module _ (limits : Limits) where
  -- a round of the loop over the bytes, `none` where it ends
  unfoldable pub shrink_round : Store → Option Store
  unfolding find_candidate
  shrink_round s =
      if ltb limits.total_bytes_limit s.total_bytes
      then shrink_by (find_candidate s.chats none) s
      else none

  unfoldable pub shrink : ℕ → Store → Store
  unfolding shrink_round
  shrink zero s = s
  shrink (suc n) s = elim (shrink_round s) [ none ↦ s | some next ↦ shrink n next ]

  -- every round of the loop removes a record, so their number is fuel enough
  unfoldable pub trim_global : Store → Store
  unfolding evict_chats shrink
  trim_global s =
      let kept = evict_chats limits.chat_limit s.chats s.total_bytes in
      shrink (records_of kept.0) (record s { chats = kept.0; total_bytes = kept.1 })

  abbrev pub is_expired : ℕ → Entry → Bool
  is_expired current e = limits.lifetime_ms == 0 || leb (e.received_at + limits.lifetime_ms) current

  unfoldable pub expire_chats : ℕ → JsMap Chat → ℕ → JsMap Chat × ℕ
  expire_chats current [] total = ([], total)
  expire_chats current ((id, chat) ∷ m) total =
      let lost = bytes_of (keep_if (is_expired current) chat.entries) in
      let kept = keep_if (λ e. not (is_expired current e)) chat.entries in
      let rest = expire_chats current m (total - lost) in
      if is_empty kept
      then rest
      else ((id, record { entries = kept; bytes = chat.bytes - lost }) ∷ rest.0, rest.1)

  unfoldable pub prune_expired : ℕ → Store → Store
  unfolding expire_chats trim_global
  prune_expired current s =
      let kept = expire_chats current s.chats s.total_bytes in
      trim_global (record s { chats = kept.0; total_bytes = kept.1 })

  -- `pruneExpired(receiptNow())`
  unfoldable pub prune : ℕ → Store → Store
  unfolding receipt_now prune_expired
  prune now s = let s' = receipt_now now s in prune_expired s'.last_receipt_at s'

-- ===== src/T3ams/Context/Changes.antt =====
-- The calls that change or read what the store has: `replace`, `remove`, `snapshot` and `clear`.
use polkadot_chat_agents.Base.JsMap
use polkadot_chat_agents.Base.JsMap.{JsMap}
use polkadot_chat_agents.T3ams.Context.Chat.{Entry, Chat, Limits, take_out, has_id, is_text}
use polkadot_chat_agents.T3ams.Context.Store.{
  Store, disabled, invalid_record, missing, sender_mismatch, Result, refused, accepted, Normalized,
  bad, good, remove_chat, touch, put_chat, bytes_of, prune,
}
use polkadot_chat_agents.T3ams.Context.Calls.{replace_entry, normalize_record, settle}
use polkadot_chat_agents.Base.{
  ℕ, ◌+◌, ◌-◌, String, Bool, true, false, not, ◌&&◌, ◌||◌, Option, none, some, List, [], ◌∷◌, leb,
  ltb, ◌==◌, length, keep_if, if◌then◌else◌, min,
}

-- the ids of a call of `replace` or `remove`: the sender is `none` where the call names none
pub record Target : Type 0 where
  pub chat_id : String
  pub message_id : String
  pub sender_xid : Option String

abbrev pub is_other_sender : Option String → Entry → Bool
is_other_sender none e = false
is_other_sender (some xid) e = not (is_text e.sender_xid xid)

abbrev pub is_root : Option String → Bool
is_root none = true
is_root (some root) = false

abbrev pub is_in_thread : String → Entry → Option String → Bool
is_in_thread root e none = has_id root e
is_in_thread root e (some r) = is_text r root

-- what a request at top level (`none`) or in a thread may see
abbrev pub is_relevant : Option String → Entry → Bool
is_relevant none e = is_root e.thread_root_id
is_relevant (some root) e = is_in_thread root e e.thread_root_id

abbrev pub is_root_of : String → Entry → Bool
is_root_of root e = is_root e.thread_root_id && has_id root e

abbrev pub is_pinned : Option Entry → Entry → Bool
is_pinned none e = false
is_pinned (some root) e = e.sequence == root.sequence

-- the loop over the relevant records, the newest first, with those chosen so far and their bytes
unfoldable pub choose : ℕ → ℕ → Option Entry → List Entry → List Entry → ℕ → List Entry
choose record_limit byte_limit root [] chosen used = chosen
choose record_limit byte_limit root (e ∷ es) chosen used =
    let skipped = choose record_limit byte_limit root es chosen used in
    let taken = choose record_limit byte_limit root es (e ∷ chosen) (used + e.bytes) in
    if is_pinned root e || leb record_limit (length chosen) || ltb byte_limit (used + e.bytes)
    then skipped
    else taken

unfoldable pub reverse_onto : List Entry → List Entry → List Entry
reverse_onto [] acc = acc
reverse_onto (e ∷ es) acc = reverse_onto es (e ∷ acc)

-- `sort` by the sequence numbers, which are distinct
unfoldable pub insert_sorted : Entry → List Entry → List Entry
insert_sorted e [] = e ∷ []
insert_sorted e (x ∷ xs) = if leb e.sequence x.sequence then e ∷ x ∷ xs else x ∷ insert_sorted e xs

unfoldable pub sort : List Entry → List Entry
unfolding insert_sorted
sort [] = []
sort (e ∷ es) = insert_sorted e (sort es)

abbrev pub first_of : Option (Entry × List Entry) → Option Entry
first_of none = none
first_of (some (e, rest)) = some e

abbrev pub find_root : Option String → List Entry → Option Entry
find_root none relevant = none
find_root (some root) relevant = first_of (take_out (is_root_of root) relevant)

abbrev pub pin : ℕ → Option Entry → List Entry
pin byte_limit none = []
pin byte_limit (some root) = if leb root.bytes byte_limit then root ∷ [] else []

abbrev pub snapshot_limit : Option ℕ → ℕ → ℕ
snapshot_limit none maximum = maximum
snapshot_limit (some n) maximum = min n maximum

unfoldable pub pick : ℕ → ℕ → Option String → List Entry → List Entry
unfolding choose reverse_onto sort take_out
pick record_limit byte_limit root entries =
    if record_limit == 0 || byte_limit == 0
    then []
    else (let relevant = keep_if (is_relevant root) entries in
        let top = find_root root relevant in
        let pinned = pin byte_limit top in
        sort
          (choose record_limit byte_limit top (reverse_onto relevant []) pinned (bytes_of pinned)))

unfoldable pub clear : Option String → Store → Store × Bool
unfolding remove_chat
clear none s = (s, false)
clear (some id) s = remove_chat id s

module _ (limits : Limits) where
  abbrev pub replaced : Target → Chat → Entry → Normalized → Store → Store × Result
  replaced t chat old (bad reason) s = (s, refused reason)
  replaced t chat old (good e) s =
      let new = record e { received_at = old.received_at; sequence = old.sequence } in
      settle limits t.chat_id t.message_id
        (record {
          entries = replace_entry t.message_id new chat.entries;
          bytes = (chat.bytes + new.bytes) - old.bytes;
        })
        ((s.total_bytes + new.bytes) - old.bytes) s

  abbrev pub replace_found :
      Target → Option String → Chat → Option (Entry × List Entry) → Store → Store × Result
  replace_found t text chat none s = (s, refused missing)
  replace_found t text chat (some (old, rest)) s =
      if is_other_sender t.sender_xid old
      then (s, refused sender_mismatch)
      else replaced t chat old
          (normalize_record limits
            (record {
              message_id = some old.message_id;
              sender_xid = some old.sender_xid;
              thread_root_id = some old.thread_root_id;
              text = text;
              sender_name = old.sender_name;
            })
            old.received_at s.sequence)
          s

  abbrev pub replace_in : Target → Option String → Option Chat → Store → Store × Result
  replace_in t text none s = (s, refused missing)
  replace_in t text (some chat) s =
      replace_found t text chat (take_out (has_id t.message_id) chat.entries) s

  -- `pruneExpired`, then `touch`
  unfoldable pub reach : ℕ → String → Store → Store
  unfolding prune touch
  reach now id s = let s' = prune limits now s in record s' { chats = touch id s'.chats }

  abbrev pub replace_target : ℕ → Option Target → Option String → Store → Store × Result
  replace_target now none text s = (s, refused invalid_record)
  replace_target now (some t) text s =
      let s' = reach now t.chat_id s in replace_in t text (JsMap.get t.chat_id s'.chats) s'

  unfoldable pub replace : ℕ → Option Target → Option String → Store → Store × Result
  unfolding reach settle normalize_record replace_entry take_out JsMap.get
  replace now target text s =
      if limits.enabled then replace_target now target text s else (s, refused disabled)

  abbrev pub remove_entry : Target → Chat → Option (Entry × List Entry) → Store → Store × Result
  remove_entry t chat none s = (s, refused missing)
  remove_entry t chat (some (e, rest)) s =
      if is_other_sender t.sender_xid e then (s, refused sender_mismatch) else (
        put_chat t.chat_id
            (record {
              chat = record { entries = rest; bytes = chat.bytes - e.bytes };
              total = s.total_bytes - e.bytes;
            })
            s,
        accepted e,
      )

  abbrev pub remove_in : Target → Option Chat → Store → Store × Result
  remove_in t none s = (s, refused missing)
  remove_in t (some chat) s = remove_entry t chat (take_out (has_id t.message_id) chat.entries) s

  abbrev pub remove_target : ℕ → Option Target → Store → Store × Result
  remove_target now none s = (s, refused invalid_record)
  remove_target now (some t) s =
      let s' = reach now t.chat_id s in remove_in t (JsMap.get t.chat_id s'.chats) s'

  unfoldable pub remove : ℕ → Option Target → Store → Store × Result
  unfolding reach put_chat take_out JsMap.get
  remove now target s = if limits.enabled then remove_target now target s else (s, refused disabled)

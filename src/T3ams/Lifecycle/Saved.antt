-- ===== src/T3ams/Lifecycle/Saved.antt =====
-- `snapshot` and `restore`. A record of the state file is seen through the normalizers: the ids are
-- those that `normalizedBase` returns (`none` where one is malformed), which for a record of
-- `snapshot` are those of its key, and a field that may be missing has its own `none` for that.
use polkadot_chat_agents.T3ams.Lifecycle.Entry.{Edit, Entry}
use polkadot_chat_agents.T3ams.Lifecycle.Store.{Limits, Ids, Records, normalize_text, touch, prune}
use polkadot_chat_agents.Base.{
  ℕ, zero, suc, ◌+◌, ◌-◌, String, Bool, true, false, not, ◌&&◌, Option, none, some, List, [], ◌∷◌,
  map, ltb, ◌==◌, length, if◌then◌else◌, min,
}

-- an edit in the file: none, one that is no record or has no text, or one with a text
pub data SavedEdit : Type 0 where
  no_edit bad_edit : SavedEdit
  text_edit : String → Option ℕ → SavedEdit

pub record Saved : Type 0 where
  pub base : Option Ids
  pub message_seen : Option Bool
  pub touched_at : Option ℕ
  pub message_timestamp : Option (Option ℕ)
  pub edit : SavedEdit
  pub deleted_at : Option (Option ℕ)

-- a message that was seen has a timestamp, and no other has
abbrev pub is_timed : Bool → Option ℕ → Bool
is_timed true none = false
is_timed true (some t) = true
is_timed false none = true
is_timed false (some t) = false

abbrev pub has_content : Bool → Option Edit → Option ℕ → Bool
has_content true edit deleted_at = true
has_content false none none = false
has_content false none (some t) = true
has_content false (some e) deleted_at = true

abbrev pub save_edit : Option Edit → SavedEdit
save_edit none = no_edit
save_edit (some e) = text_edit e.text (some e.timestamp)

abbrev pub save : String × Entry → Saved
save (key, e) = record {
  base = some (record { sender_xid = e.sender_xid; key = key });
  message_seen = some e.message_seen;
  touched_at = some e.touched_at;
  message_timestamp = some e.message_timestamp;
  edit = save_edit e.edit;
  deleted_at = some e.deleted_at;
}

unfoldable pub drop_first : ℕ → List Saved → List Saved
drop_first zero xs = xs
drop_first (suc n) [] = []
drop_first (suc n) (x ∷ xs) = drop_first n xs

module _ (limits : Limits) where
  unfoldable pub snapshot : ℕ → Records → Records × List Saved
  unfolding prune
  snapshot now m = let kept = prune limits now m in (kept, map save kept)

  abbrev pub edit_with : Option String → ℕ → Option (Option Edit)
  edit_with none t = none
  edit_with (some text) t = some (some (record { text = text; timestamp = t }))

  -- `none` where the edit spoils the record
  unfoldable pub restore_edit : SavedEdit → Option (Option Edit)
  unfolding normalize_text
  restore_edit no_edit = some none
  restore_edit bad_edit = none
  restore_edit (text_edit text none) = none
  restore_edit (text_edit text (some t)) = edit_with (normalize_text limits text) t

  abbrev pub restore_fields :
      ℕ
      → Option Ids
      → Option Bool
      → Option ℕ
      → Option (Option ℕ)
      → Option (Option Edit)
      → Option (Option ℕ)
      → Option (String × Entry)
  restore_fields current (some ids) (some seen) (some touched) (some stamp) (some edit)
        (some deleted) =
      if is_timed seen stamp && has_content seen edit deleted
      then some (
        ids.key,
        record {
          sender_xid = ids.sender_xid;
          message_timestamp = stamp;
          edit = edit;
          deleted_at = deleted;
          message_seen = seen;
          touched_at = min touched current;
        },
      )
      else none
  restore_fields current _ _ _ _ _ _ = none

  unfoldable pub restore_record : ℕ → Saved → Option (String × Entry)
  unfolding restore_edit
  restore_record current raw =
      restore_fields current raw.base raw.message_seen raw.touched_at raw.message_timestamp
        (restore_edit raw.edit) raw.deleted_at

  abbrev pub is_fresh : ℕ → Entry → Bool
  is_fresh current e = not (limits.ttl_ms == 0) && ltb current (e.touched_at + limits.ttl_ms)

  abbrev pub keep_fresh : ℕ → Option (String × Entry) → Records → Records
  keep_fresh current none rest = rest
  keep_fresh current (some r) rest = if is_fresh current r.1 then r ∷ rest else rest

  -- the records of the file that are read, in their order
  unfoldable pub read_all : ℕ → List Saved → Records
  unfolding restore_record
  read_all current [] = []
  read_all current (raw ∷ raws) =
      keep_fresh current (restore_record current raw) (read_all current raws)

  unfoldable pub touch_all : Records → Records → Records
  unfolding touch
  touch_all [] m = m
  touch_all ((key, e) ∷ es) m = touch_all es (touch limits key e m)

  -- the store that is restored, whatever it was, and the number of ignored records
  unfoldable pub restore : ℕ → List Saved → Records × ℕ
  unfolding drop_first read_all touch_all prune
  restore current raws =
      let read = read_all current (drop_first (length raws - limits.max_records) raws) in
      (prune limits current (touch_all read []), length raws - length read)

-- ===== src/T3ams/Lifecycle/Entry.antt =====
-- One message's lifecycle record, and what a message, an edit and a deletion make of it.
use polkadot_chat_agents.Base.{
  ℕ, String, Bool, true, false, not, ◌&&◌, Option, none, some, leb, ltb, ◌==◌, if◌then◌else◌,
  key_dec, ite, max,
}

pub record Edit : Type 0 where
  pub text : String
  pub timestamp : ℕ

pub record Entry : Type 0 where
  pub sender_xid : String
  pub message_timestamp : Option ℕ
  pub edit : Option Edit
  pub deleted_at : Option ℕ
  pub message_seen : Bool
  pub touched_at : ℕ

-- the record that a message or an operation starts from
abbrev pub blank : String → ℕ → Entry
blank sender_xid now = record {
  sender_xid = sender_xid;
  message_timestamp = none;
  edit = none;
  deleted_at = none;
  message_seen = false;
  touched_at = now;
}

-- `compatible && existing != null ? existing : {…}`
unfoldable pub message_base : String → ℕ → Option Entry → Entry
message_base sender_xid now none = blank sender_xid now
message_base sender_xid now (some e) =
    ite (key_dec e.sender_xid sender_xid) e (blank sender_xid now)

-- the assignments of `applyMessage`
unfoldable pub see : String → ℕ → ℕ → Entry → Entry
see sender_xid timestamp now e = record e {
  sender_xid = sender_xid;
  message_timestamp = if e.message_seen then e.message_timestamp else some timestamp;
  message_seen = true;
  touched_at = now;
}

-- the edit, if it is newer than the carrier's timestamp
unfoldable pub newer_edit : Option ℕ → Option Edit → Option Edit
newer_edit none edit = edit
newer_edit (some t) none = none
newer_edit (some t) (some e) = if ltb t e.timestamp then some e else none

pub data MessageResult : Type 0 where
  invalid_message : MessageResult
  deleted_message : ℕ → MessageResult
  effective : String → Option ℕ → MessageResult

abbrev pub show_edit : String → Option Edit → MessageResult
show_edit text none = effective text none
show_edit text (some e) = effective e.text (some e.timestamp)

-- what `applyMessage` returns of the record
unfoldable pub message_result : String → Entry → MessageResult
unfolding newer_edit
message_result text e = elim e.deleted_at [
  | some at_time ↦ deleted_message at_time
  | none ↦ show_edit text (newer_edit e.message_timestamp e.edit)
]

abbrev pub or_zero : Option ℕ → ℕ
or_zero none = 0
or_zero (some n) = n

abbrev pub edit_time : Option Edit → Option ℕ
edit_time none = none
edit_time (some e) = some e.timestamp

unfoldable pub current_version : Entry → Option ℕ
current_version e =
    if e.message_seen
    then some (max (or_zero e.message_timestamp) (or_zero (edit_time e.edit)))
    else edit_time e.edit

abbrev pub is_newer : ℕ → Option ℕ → Bool
is_newer t none = true
is_newer t (some version) = ltb version t

abbrev pub is_none : {A : Type 0} → Option A → Bool
is_none none = true
is_none (some a) = false

-- the `edit` branch of `applyOperation`, on the record
unfoldable pub edit_entry : String → ℕ → Entry → Entry
unfolding current_version
edit_entry text timestamp e =
    if is_none e.deleted_at && is_newer timestamp (current_version e)
    then record e { edit = some (record { text = text; timestamp = timestamp }) }
    else e

-- the edit that was visible before this one
unfoldable pub visible_edit : Entry → Option Edit
unfolding newer_edit
visible_edit e = if e.message_seen then newer_edit e.message_timestamp e.edit else e.edit

abbrev pub differs : String → ℕ → Option Edit → Bool
differs text timestamp none = true
differs text timestamp (some e) = ite (key_dec e.text text) (not (e.timestamp == timestamp)) true

unfoldable pub edit_changed : String → ℕ → Entry → Bool
unfolding current_version visible_edit
edit_changed text timestamp e =
    is_none e.deleted_at
    && is_newer timestamp (current_version e)
    && differs text timestamp (visible_edit e)

-- the `delete` branch: the latest deletion stands
unfoldable pub delete_entry : ℕ → Entry → Entry
delete_entry timestamp e = elim e.deleted_at [
  | none ↦ record e { deleted_at = some timestamp }
  | some prior ↦ if leb prior timestamp then record e { deleted_at = some timestamp } else e
]

unfoldable pub delete_changed : ℕ → Entry → Bool
delete_changed timestamp e = elim e.deleted_at [ none ↦ true | some prior ↦ ltb prior timestamp ]

-- ===== src/T3ams/Context/Tests.antt =====
-- Three messages of two senders in a chat whose senders have one record each.
use polkadot_chat_agents.T3ams.Context.Chat.{Limits, limits_of}
use polkadot_chat_agents.T3ams.Context.Store.{Raw, create}
use polkadot_chat_agents.T3ams.Context.Snapshot.{Request, Event, appends, run, snapshot}
use polkadot_chat_agents.T3ams.Context.Bounds.{run-IsWithin}
use polkadot_chat_agents.T3ams.Context.Trimmed.{IsBounded}
use polkadot_chat_agents.T3ams.Context.Shows.{IsAnswer, snapshot-IsShown}
use polkadot_chat_agents.Base.{
  String, true, Option, none, some, List, [], ◌∷◌, map, ◌≡◌, refl, key_dec,
}
use polkadot_chat_agents.T3ams.Context.Chat.{Entry, Trim, fair_round, trim_senders}
use polkadot_chat_agents.T3ams.Context.Rounds.{trim_senders-ends}
use polkadot_chat_agents.Base.{ℕ, arith, none}

abbrev limits : Limits
unfolding limits_of
limits = limits_of (record {
  enabled = true;
  ttl_ms = some 1000;
  max_chats = some 2;
  max_records_per_chat = none;
  max_bytes_per_chat = none;
  max_record_bytes = none;
  max_records_per_sender = some 1;
  max_bytes_per_sender = none;
  max_total_bytes = none;
  max_sender_name_bytes = none;
})

abbrev message : String → String → Option String → Raw
message id xid root = record {
  message_id = some id;
  sender_xid = some xid;
  thread_root_id = some root;
  text = some "hi";
  sender_name = none;
}

abbrev events : List Event
events =
    appends 10 (some "chat") (message "m1" "ann" none)
    ∷ appends 20 (some "chat") (message "m2" "bob" none)
    ∷ appends 30 (some "chat") (message "m3" "ann" none)
    ∷ []

abbrev request : Request
request = record { chat_id = "chat"; thread_root_id = none; max_records = some 5; max_bytes = none }

run-IsWithin_example : IsBounded limits (run limits events create)
run-IsWithin_example = run-IsWithin limits events

snapshot-IsShown_example :
    IsAnswer limits 40 request
      (run limits events create)
      (snapshot limits 40 (some request) (run limits events create)).1
snapshot-IsShown_example = snapshot-IsShown limits 40 request (run limits events create)

-- the first message of `ann` made room for the second
shown_ids :
    map (λ e. e.message_id) (snapshot limits 40 (some request) (run limits events create)).1
    ≡ "m2" ∷ "m3" ∷ []
unfolding snapshot run create key_dec limits
shown_ids = refl

abbrev entry : String → ℕ → Entry
entry xid n = record {
  message_id = "m";
  sender_xid = xid;
  sender_name = none;
  text = "hi";
  thread_root_id = none;
  received_at = n;
  sequence = n;
  bytes = 100;
}

abbrev noisy : Trim
noisy = record {
  chat = record { entries = entry "ann" 1 ∷ entry "bob" 2 ∷ entry "ann" 3 ∷ []; bytes = 300 };
  total = 300;
}

trim_senders-ends_example : fair_round limits (trim_senders limits 3 noisy) ≡ none
trim_senders-ends_example = trim_senders-ends limits 3 noisy (omega arith)

-- ===== src/T3ams/Lifecycle/Tests.antt =====
-- Messages and operations at concrete inputs.
use polkadot_chat_agents.Base.{arith, List, [], ◌∷◌, length, some, ◌++◌, ◌≡◌, refl, key_dec}
use polkadot_chat_agents.T3ams.Lifecycle.Entry.{blank, see, message_result, effective}
use polkadot_chat_agents.T3ams.Lifecycle.Store.{
  Limits, Ids, Records, edit_to, delete, apply_message, apply_operation, sender_mismatch,
}
use polkadot_chat_agents.T3ams.Lifecycle.Merge.{
  Op, edit_op, Arrival, operation, replayed, operations, apply_ops, apply_arrivals, outcome,
  result-arrivals,
}
use polkadot_chat_agents.T3ams.Lifecycle.Bounds.{Fits, apply_message-Fits, apply_operation-Fits}
use polkadot_chat_agents.T3ams.Lifecycle.Store.{prune}
use polkadot_chat_agents.T3ams.Lifecycle.Saved.{snapshot, restore}
use polkadot_chat_agents.T3ams.Lifecycle.Restart.{Call, message, operation, run, restore-run}
use polkadot_chat_agents.Base.{arith}

abbrev early : List Op
early = edit_op "draft" 3 ∷ edit_op "second" 9 ∷ []

abbrev late : List Arrival
late = replayed 20 ∷ operation (edit_op "stale" 8) ∷ operation (edit_op "third" 12) ∷ []

merged : outcome 5 "hello" (early ++ operations late) ≡ effective "third" (some 12)
unfolding outcome
merged = refl

result-arrivals_example :
    message_result "hello"
      (apply_arrivals 1 late (see "alice" 5 1 (apply_ops early (blank "alice" 1))))
    ≡ outcome 5 "hello" (early ++ operations late)
result-arrivals_example = result-arrivals "alice" "hello" 5 1 early late

abbrev small : Limits
small = record { max_records = 1; ttl_ms = 100; max_text_bytes = 10; max_state_bytes = 500 }

abbrev second : Ids
second = record { sender_xid = "bob"; key = "room:2" }

abbrev crowded : Records
crowded = ("room:1", blank "alice" 5) ∷ []

-- the message of the full store goes for the new one
evicts : length (apply_message small 10 (some second) "hi" (some 4) crowded).0 ≡ 1
unfolding apply_message key_dec
evicts = refl

apply_message-Fits_example :
    Fits small (apply_message small 10 (some second) "hi" (some 4) crowded).0
apply_message-Fits_example = apply_message-Fits small 10 (some second) "hi" (some 4) crowded

apply_operation-Fits_example :
    Fits small (apply_operation small 10 (some second) (edit_to "hi") (some 4) crowded).0
apply_operation-Fits_example =
    apply_operation-Fits small 10 (some second) (edit_to "hi") (some 4) crowded

mismatch :
    (apply_operation small 10
      (some (record { sender_xid = "bob"; key = "room:1" }))
      delete
      (some 4)
      crowded).1
    ≡ sender_mismatch
unfolding apply_operation key_dec
mismatch = refl

abbrev roomy : Limits
roomy = record { max_records = 5; ttl_ms = 100; max_text_bytes = 10; max_state_bytes = 500 }

abbrev first : Ids
first = record { sender_xid = "alice"; key = "room:1" }

abbrev calls : List Call
calls =
    message 10 (some first) "hi" (some 3)
    ∷ operation 40 (some second) delete (some 5)
    ∷ operation 60 (some first) (edit_to "later") (some 4)
    ∷ []

-- the deletion expires before the restart
restore-run_example :
    (restore roomy 150 (snapshot roomy 70 (run roomy calls [])).1).0
    ≡ prune roomy 150 (prune roomy 70 (run roomy calls []))
restore-run_example = restore-run roomy 150 70 calls (omega arith, (omega arith, (omega arith, tt)))

restarted : length (restore roomy 150 (snapshot roomy 70 (run roomy calls [])).1).0 ≡ 1
unfolding restore snapshot run key_dec
restarted = refl

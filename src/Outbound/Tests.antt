-- ===== src/Outbound/Tests.antt =====
-- A lane over numbers as messages: a run of its events, and the theorems at concrete inputs.
use polkadot_chat_agents.Base.{
  ℕ, zero, suc, ◌+◌, String, Bool, true, false, ◌||◌, none, some, List, [], ◌∷◌, ◌++◌, ◌≡◌, refl,
  arith, ◌==◌, if◌then◌else◌, key_dec,
}
use polkadot_chat_agents.Outbound.Lane.{
  Env, Entry, Batch, Lane, idle, woken, new_lane, submitted, delivered,
}
use polkadot_chat_agents.Outbound.Pack.{candidate}
use polkadot_chat_agents.Outbound.Pump.{
  Event, enqueued, acked, woke, submit_resolved, base_of, wake,
}
use polkadot_chat_agents.Outbound.Bounds.{IsBounded}
use polkadot_chat_agents.Outbound.Accounting.{tally, deliveries, in_flight, IsAccounted}
use polkadot_chat_agents.Outbound.Lossless.{LosslessPhase, wake-lossless}
use polkadot_chat_agents.Outbound.History.{
  run-IsAccounted, new_lane-IsAccounted, NeverRaces, run, run-conserves, run-IsBounded,
  ExtendedAtMost,
}
use polkadot_chat_agents.Outbound.Extensions.{extended}
use polkadot_chat_agents.Outbound.Stall.{wake-stalls}

-- the message 99 cannot be encoded; a payload is the list of its messages
fails : List ℕ → Bool
fails [] = false
fails (x ∷ xs) = x == 99 || fails xs

ids : ℕ → String
ids zero = "a"
ids (suc zero) = "b"
ids (suc (suc n)) = "c"

abbrev env : Env ℕ
env = record {
  encode = λ rid opaques flag. if fails opaques then none else some opaques;
  request_id = ids;
  max_payload_bytes = 3;
  max_extensions = 2;
  max_queued = 4;
  ack_grace_ms = 1000;
}

-- a placeholder is submitted, and the answer that supersedes it is queued behind it
abbrev placeholder : List (Event ℕ)
placeholder =
    enqueued 7 (some "m1") false []
    ∷ woke
    ∷ submit_resolved 10
    ∷ enqueued 8 (some "m2") false ("m1" ∷ [])
    ∷ []

abbrev conversation : List (Event ℕ)
conversation = placeholder ++ woke ∷ submit_resolved 20 ∷ acked "b" ∷ []

conversation_log :
    (run env conversation new_lane).log
    ≡ submitted 0 ∷ delivered 0 false ∷ submitted 1 ∷ delivered 1 true ∷ []
unfolding run fails ids key_dec candidate
conversation_log = refl

placeholder-NeverRaces : NeverRaces env placeholder new_lane
unfolding run fails ids
placeholder-NeverRaces =
    ((λ now e r. cc), ((λ now e r. cc), ((λ now e r. ground arith), ((λ now e r. cc), tt))))

placeholder_serials : (run env placeholder new_lane).next_serial ≡ 2
unfolding run fails ids candidate
placeholder_serials = refl

run-conserves_example :
    tally 1 (run env placeholder new_lane).queue
      + tally 1 (base_of (run env placeholder new_lane).current)
      + deliveries 1 (run env placeholder new_lane).log
      + in_flight 1 (run env placeholder new_lane).phase
    ≡ 1
run-conserves_example =
    run-conserves env placeholder 1 placeholder-NeverRaces (omega (arith, placeholder_serials))

-- the answer extends the placeholder, which has not been acknowledged
abbrev extends_once : List (Event ℕ)
extends_once = placeholder ++ woke ∷ submit_resolved 20 ∷ []

counts_once : extended env extends_once new_lane 0 ≡ 1
unfolding extended run fails ids key_dec candidate
counts_once = refl

run-IsBounded_example :
    IsBounded env (run env extends_once new_lane)
    × ExtendedAtMost env 2
        (run env extends_once new_lane).current
        (extended env extends_once new_lane 0)
run-IsBounded_example = run-IsBounded env extends_once

-- the lane while the answer waits behind its placeholder
abbrev waiting : Lane ℕ
waiting = run env placeholder new_lane

waiting-IsAccounted : IsAccounted waiting
waiting-IsAccounted =
    run-IsAccounted env placeholder new_lane placeholder-NeverRaces (new_lane-IsAccounted env)

waiting_woken : waiting.phase ≡ woken
unfolding run fails ids candidate
waiting_woken = refl

-- what the next statement carries: the answer alone, in place of the placeholder
wake-lossless_example : LosslessPhase env waiting.current (wake env waiting).phase
wake-lossless_example = wake-lossless env waiting waiting-IsAccounted waiting_woken

-- the answer is in flight, and the peer's ACK for the placeholder arrives before the submit resolves
abbrev race : List (Event ℕ)
race = placeholder ++ woke ∷ acked "a" ∷ []

abbrev raced : Lane ℕ
raced = run env race new_lane

abbrev answer : Entry ℕ
answer = record {
  serial = 1;
  opaque = 8;
  message_id = some "m2";
  force_identity = false;
  supersedes = "m1" ∷ [];
}

abbrev placed : Entry ℕ
placed = record {
  serial = 0;
  opaque = 7;
  message_id = some "m1";
  force_identity = false;
  supersedes = [];
}

abbrev answer_batch : Batch ℕ
answer_batch = record {
  request_id = "b";
  entries = answer ∷ [];
  payload = 8 ∷ [];
  flag = false;
  extending = true;
  fresh = answer ∷ [];
  dropped = placed ∷ [];
}

abbrev poison : Entry ℕ
poison = record {
  serial = 0;
  opaque = 99;
  message_id = none;
  force_identity = false;
  supersedes = [];
}

abbrev healthy : Entry ℕ
healthy = record {
  serial = 1;
  opaque = 5;
  message_id = none;
  force_identity = true;
  supersedes = [];
}

abbrev blocked : Lane ℕ
blocked = record (new_lane {O = ℕ}) {
  phase = woken;
  queue = poison ∷ healthy ∷ [];
  next_serial = 2;
}

wake-stalls_example :
    ((wake env blocked).queue ≡ healthy ∷ [])
    × ((wake env blocked).phase ≡ idle)
    × ((wake env blocked).grace_timer ≡ false)
    × ((wake env blocked).scheduled ≡ false)
    × ((wake env blocked).current ≡ none)
unfolding fails
wake-stalls_example = wake-stalls env blocked poison healthy [] refl refl refl refl refl refl refl

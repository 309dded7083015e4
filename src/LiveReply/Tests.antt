-- ===== src/LiveReply/Tests.antt =====
-- Lanes at concrete inputs.
use polkadot_chat_agents.Base.{true, false, none, some, List, [], ◌∷◌, ◌≡◌, refl, key_dec}
use polkadot_chat_agents.LiveReply.Lane.{
  fires, failed, progress, final_edit, plain, Timing, Lane, begin, assume, flush, Event, updates,
  throttles, resumes, lands, acks, finalizes, goes, ends, step, run,
}
use polkadot_chat_agents.LiveReply.Unlock.{NoEdits, StaysQuiet, run-locked}
use polkadot_chat_agents.LiveReply.Kept.{last_landed}
use polkadot_chat_agents.LiveReply.Shown.{SendsAfter, run-Sends}
use polkadot_chat_agents.LiveReply.Wedge.{frames, refused-wedges}

abbrev timing : Timing
timing = record { min_interval_ms = 3000; max_interval_ms = 15000 }

-- two updates before the ACK, which the second survives, and an answer
abbrev events : List Event
events =
    updates 1000 true false "step 1"
    ∷ updates 2000 true false "step 2"
    ∷ acks true 4000 true
    ∷ lands 4100
    ∷ resumes 4100 true
    ∷ finalizes "done" false none
    ∷ goes 0 false true
    ∷ ends 0 false
    ∷ []

abbrev placeholder : Lane
placeholder = begin "thinking" false 500

sends_latest : (run timing events placeholder).sent ≡ progress "step 2" ∷ final_edit "done" ∷ []
unfolding run begin key_dec
sends_latest = refl

-- without an ACK the answer supersedes the placeholder
abbrev unfetched : List Event
unfetched =
    updates 1000 true false "step 1"
    ∷ acks false 4000 true
    ∷ finalizes "status" false (some "answer")
    ∷ goes 0 true true
    ∷ []

supersedes : (run timing unfetched placeholder).sent ≡ plain "answer" ∷ []
unfolding run begin key_dec
supersedes = refl

-- the wait fails, and then the ACK arrives, an update is made, and the answer goes out
abbrev failing : List Event
failing = updates 1000 true false "step 1" ∷ acks false 4000 true ∷ []

abbrev late : List Event
late =
    acks true 5000 true
    ∷ updates 9000 true false "step 2"
    ∷ finalizes "status" false (some "answer")
    ∷ goes 0 true true
    ∷ []

run-locked_example :
    NoEdits (run timing failing placeholder).sent
    × StaysQuiet timing failed (run timing late (run timing failing placeholder))
unfolding run begin key_dec
run-locked_example = run-locked timing failing late "thinking" false 500 refl

abbrev first_landed : List Event
first_landed =
    acks true 600 true
    ∷ updates 1000 true false "step 1"
    ∷ fires 3500 true
    ∷ lands 3600
    ∷ resumes 3600 true
    ∷ updates 4000 true false "step 2"
    ∷ []

landed_first :
    last_landed timing first_landed placeholder
      (record { text = some "thinking"; at = some 500; count = 0 })
    ≡ record { text = some "step 1"; at = some 3600; count = 1 }
unfolding last_landed run begin key_dec
landed_first = refl

-- the timer sends the second update
fires_second :
    (step timing (fires 6600 true) (run timing first_landed placeholder)).sent
    ≡ progress "step 1" ∷ progress "step 2" ∷ []
unfolding run begin key_dec
fires_second = refl

run-Sends_example :
    SendsAfter timing 6600
      (last_landed timing first_landed placeholder
        (record { text = some "thinking"; at = some 500; count = 0 }))
      (run timing first_landed placeholder).sent
      (step timing (fires 6600 true) (run timing first_landed placeholder)).sent
run-Sends_example = run-Sends timing first_landed (fires 6600 true) "thinking" false 500

-- a lease that was revoked, and then a new one
abbrev fenced : Lane
fenced = record assume { pending_text = some "draft"; pending_guarded = true }

refused-wedges_example :
    frames
      (run timing (resumes 1 true ∷ throttles 2 true true "later" ∷ []) (flush false fenced)).sent
    ≡ []
unfolding assume
refused-wedges_example =
    refused-wedges timing (resumes 1 true ∷ throttles 2 true true "later" ∷ []) fenced "draft" refl
      refl refl refl refl

-- a final edit is not recorded: an edit of the finalized message with the same text is sent again
repeats :
    (run timing
      (finalizes "done" false none
        ∷ goes 0 false true
        ∷ ends 0 false
        ∷ throttles 1 true false "done"
        ∷ [])
      assume).sent
    ≡ final_edit "done" ∷ progress "done" ∷ []
unfolding run assume key_dec
repeats = refl

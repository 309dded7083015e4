-- ===== src/Outbound/RosterTests.antt =====
-- The map of lanes at its bound.
use Prim.Native.String.{len, ◌++◌ as str_append}
use text.Mathlib.TextPositions.{len-append}
use polkadot_chat_agents.Base.{
  ℕ, zero, suc, ◌≤◌, String, true, false, none, some, [], ◌∷◌, ◌≡◌, ◌≢◌, refl, ap, arith, length,
}
use polkadot_chat_agents.Base.JsMap
use polkadot_chat_agents.Base.JsMap.{JsMap}
use polkadot_chat_agents.Outbound.Lane.{Entry, Batch, Lane, submitting, new_lane, has_pending}
use polkadot_chat_agents.Outbound.Roster.{
  lane_for, evictable, lane_for-keeps, lane_for-drops_in_flight,
}

-- the peer with the number `n`
peer : ℕ → String
peer zero = ""
peer (suc n) = str_append "x" (peer n)

len-peer : (n : ℕ) → len (peer n) ≡ n
unfolding peer
len-peer zero = refl
len-peer (suc n) = omega (arith, len-append "x" (peer n), len-peer n)

peer-ne : (m n : ℕ) → m ≢ n → peer m ≢ peer n
peer-ne m n ne = λ e. ne (omega (arith, ap len e, len-peer m, len-peer n))

-- idle lanes of the first `n` peers
idle_lanes : ℕ → JsMap (Lane ℕ)
unfolding peer
idle_lanes zero = []
idle_lanes (suc n) = (peer n, new_lane) ∷ idle_lanes n

length-idle_lanes : (n : ℕ) → length (idle_lanes n) ≡ n
unfolding idle_lanes
length-idle_lanes zero = refl
length-idle_lanes (suc n) = ap suc (length-idle_lanes n)

Absent-idle_lanes : (m n : ℕ) → n ≤ m → JsMap.Absent (peer m) (idle_lanes n)
unfolding idle_lanes
Absent-idle_lanes m zero h = tt
Absent-idle_lanes m (suc n) h =
    (peer-ne n m (λ e. omega (arith, e, h)), Absent-idle_lanes m n (omega (arith, h)))

IsDistinct-idle_lanes : (n : ℕ) → JsMap.IsDistinct (idle_lanes n)
unfolding idle_lanes
IsDistinct-idle_lanes zero = tt
IsDistinct-idle_lanes (suc n) = (Absent-idle_lanes n n (omega arith), IsDistinct-idle_lanes n)

abbrev message : Entry ℕ
message = record {
  serial = 0;
  opaque = 7;
  message_id = none;
  force_identity = false;
  supersedes = [];
}

abbrev busy_lane : Lane ℕ
busy_lane = record (new_lane {O = ℕ}) { queue = message ∷ [] }

-- as many lanes as the map may hold, the oldest of them with a message in its queue
abbrev full : JsMap (Lane ℕ)
full = (peer 499, busy_lane) ∷ idle_lanes 499

lane_for-keeps_example :
    (JsMap.get (peer 500) (lane_for (peer 500) full).0 ≡ some (lane_for (peer 500) full).1)
    × ((k : String) (lane : Lane ℕ)
        → JsMap.get k full ≡ some lane
        → evictable lane ≡ false
        → JsMap.get k (lane_for (peer 500) full).0 ≡ some lane)
lane_for-keeps_example =
    lane_for-keeps (peer 500) full
      (Absent-idle_lanes 499 499 (omega arith), IsDistinct-idle_lanes 499)

-- what is in the queue protects the oldest lane
busy_kept : evictable busy_lane ≡ false
unfolding evictable
busy_kept = refl

abbrev batch : Batch ℕ
batch = record {
  request_id = "a";
  entries = message ∷ [];
  payload = 7 ∷ [];
  flag = false;
  extending = false;
  fresh = message ∷ [];
  dropped = [];
}

abbrev in_flight_lane : Lane ℕ
in_flight_lane = record (new_lane {O = ℕ}) { phase = submitting batch }

lane_for-drops_in_flight_example :
    (has_pending in_flight_lane ≡ true)
    × (JsMap.get (peer 499) (lane_for (peer 500) ((peer 499, in_flight_lane) ∷ idle_lanes 499)).0
        ≡ none)
lane_for-drops_in_flight_example =
    lane_for-drops_in_flight (peer 500) (peer 499) (idle_lanes 499) in_flight_lane batch refl refl
      refl (peer-ne 499 500 (λ e. omega (arith, e))) (Absent-idle_lanes 500 499 (omega arith))
      (omega (arith, length-idle_lanes 499))

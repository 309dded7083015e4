-- ===== src/PeerClock.antt =====
-- bot-core/lib/peer-clock.mjs: the timestamps of outgoing messages, against those that the peer has
-- sent. A timestamp that an observed message carries is `none` where it is no number, not finite or
-- negative; times are whole milliseconds.
pub mod Stamps
mod Tests
use polkadot_chat_agents.Base.{
  ℕ, zero, suc, ◌*◌, ◌%◌, ◌/◌, ◌+◌, ◌-◌, ◌≤◌, ◌<◌, String, Bool, true, false, not, ◌&&◌, ◌||◌,
  Option, none, some, List, [], ◌∷◌, ◌++◌, map, ◌≡◌, ◌≢◌, refl, ap, sym, ◌∙◌, subst, arith, leb,
  ltb, ◌==◌, length, keep_if, All, All-append, All-imp, length-append, length-keep_if-le,
  if◌then◌else◌, Bool-cases, Option-cases, inl, inr, key_dec, ite, if_pos, if_neg, ltb→lt,
  not_ltb→le, ◌⊎◌, append-nil, append_assoc, max, min, ◌↔◌,
}
use polkadot_chat_agents.Base.JsMap
use polkadot_chat_agents.Base.JsMap.{JsMap}

-- the oldest entry goes where there are more than `max_peers`
unfoldable pub drop_oldest : ℕ → JsMap ℕ → JsMap ℕ
unfolding JsMap.delete
drop_oldest max_peers [] = []
drop_oldest max_peers ((k, t) ∷ m) =
    if ltb max_peers (length ((k, t) ∷ m)) then JsMap.delete k ((k, t) ∷ m) else (k, t) ∷ m

unfoldable pub remember : ℕ → String → ℕ → JsMap ℕ → JsMap ℕ
unfolding drop_oldest JsMap.set JsMap.delete
remember max_peers peer value floors =
    drop_oldest max_peers (JsMap.set peer value (JsMap.delete peer floors))

abbrev pub or_zero : Option ℕ → ℕ
or_zero none = 0
or_zero (some t) = t

abbrev pub floor_of : String → JsMap ℕ → ℕ
floor_of peer floors = or_zero (JsMap.get peer floors)

abbrev pub day_ms : ℕ
day_ms = 86400000

-- `observe`, at the time `now`
unfoldable pub observe : ℕ → ℕ → String → Option ℕ → JsMap ℕ → JsMap ℕ
unfolding remember JsMap.get
observe max_peers now peer none floors = floors
observe max_peers now peer (some ts) floors =
    if ts == 0 || ltb (now + day_ms) ts
    then floors
    else if ltb (floor_of peer floors) ts
    then remember max_peers peer ts floors
    else floors

-- `next`, at the time `now`
unfoldable pub next : ℕ → ℕ → String → JsMap ℕ → JsMap ℕ × ℕ
unfolding remember JsMap.get
next max_peers now peer floors =
    let value = max now (suc (floor_of peer floors)) in
    (remember max_peers peer value floors, value)

unfoldable pub restore : ℕ → ℕ → List (String × Option ℕ) → JsMap ℕ → JsMap ℕ
unfolding observe
restore max_peers now [] floors = floors
restore max_peers now ((peer, ts) ∷ entries) floors =
    restore max_peers now entries (observe max_peers now peer ts floors)

pub data Event : Type 0 where
  observes : ℕ → String → Option ℕ → Event
  stamps : ℕ → String → Event

unfoldable pub step : ℕ → Event → JsMap ℕ → JsMap ℕ
unfolding observe next
step max_peers (observes now peer ts) floors = observe max_peers now peer ts floors
step max_peers (stamps now peer) floors = (next max_peers now peer floors).0

unfoldable pub run : ℕ → List Event → JsMap ℕ → JsMap ℕ
unfolding step
run max_peers [] floors = floors
run max_peers (e ∷ es) floors = run max_peers es (step max_peers e floors)

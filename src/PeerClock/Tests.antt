-- ===== src/PeerClock/Tests.antt =====
-- The clock at concrete inputs.
use polkadot_chat_agents.Base.{
  eq_iff, str_eq, ℕ, ◌≤◌, ◌<◌, String, false, none, some, List, [], ◌∷◌, ◌≡◌, ◌≢◌, refl, arith,
  key_dec, ◌⊎◌,
}
use polkadot_chat_agents.Base.JsMap
use polkadot_chat_agents.Base.JsMap.{JsMap, IsDistinct}
use polkadot_chat_agents.PeerClock.{floor_of, next, Event, observes, stamps, run}
use polkadot_chat_agents.PeerClock.Stamps.{Bounded, run-Bounded, next-newest}

abbrev floors : JsMap ℕ
floors = ("a", 50) ∷ ("b", 7) ∷ []

-- the clock of the peer is ahead of ours
ahead : (next 2 40 "a" floors).1 ≡ 51
unfolding next key_dec
ahead = refl

ne : (s t : String) → str_eq s t ≡ false → s ≢ t
ne s t e p = cc (e, (eq_iff s t).1 p)

next-newest_example :
    (40 ≤ (next 2 40 "a" floors).1)
    × (floor_of "a" floors < (next 2 40 "a" floors).1)
    × (JsMap.get "a" (next 2 40 "a" floors).0 ≡ some (next 2 40 "a" floors).1)
    × (◌≢◌ {A = String} "a" "b"
        → (JsMap.get "b" (next 2 40 "a" floors).0 ≡ none)
          ⊎ (JsMap.get "b" (next 2 40 "a" floors).0 ≡ JsMap.get "b" floors))
next-newest_example = next-newest 2 40 "a" "b" floors (omega arith)

abbrev events : List Event
events = observes 40 "c" (some 45) ∷ stamps 41 "a" ∷ observes 41 "a" (some 99000000) ∷ []

-- a third peer takes the place of the oldest entry, and an absurd stamp is ignored
keeps_two : run 2 events floors ≡ ("c", 45) ∷ ("a", 41) ∷ []
unfolding run key_dec
keeps_two = refl

run-Bounded_example : Bounded 2 (run 2 events floors)
run-Bounded_example = run-Bounded 2 events floors (((ne "b" "a" refl, tt), (tt, tt)), omega arith)

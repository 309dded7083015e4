-- ===== src/T3ams/Failure/Tests.antt =====
-- Three equal failures with a threshold of three.
use polkadot_chat_agents.T3ams.Failure.{failures}
use polkadot_chat_agents.T3ams.Failure.Reports.{repeat, escalations, failures-reported}
use polkadot_chat_agents.Base.{
  ◌≤◌, ◌++◌, true, false, none, [], ◌∷◌, map, ◌≡◌, refl, arith, key_dec,
}

failures-reported_example :
    (escalations (failures 3 ("a" ∷ "b" ∷ "a" ∷ []) none) ≤ 1)
    × (escalations (failures 3 (("a" ∷ "b" ∷ "a" ∷ []) ++ repeat 4 "b") none) ≡ 1)
failures-reported_example =
    failures-reported 3 ("a" ∷ "b" ∷ "a" ∷ []) none 3 "b" (omega arith) (omega arith)

-- the third of the equal failures escalates, and no other
escalated :
    map (λ f. f.escalate) (failures 3 ("a" ∷ repeat 4 "b") none)
    ≡ false ∷ false ∷ false ∷ true ∷ false ∷ []
unfolding failures key_dec
escalated = refl

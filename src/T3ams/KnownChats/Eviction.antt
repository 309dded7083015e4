-- ===== src/T3ams/KnownChats/Eviction.antt =====
-- What `trim` leaves, against a specification of the eviction.
use polkadot_chat_agents.Base.{
  ℕ, zero, suc, ◌+◌, ◌-◌, ◌≤◌, String, Bool, true, false, none, some, [], ◌∷◌, ◌≡◌, refl, arith,
  ltb, length, Bool-cases, Option-cases, inl, inr, ltb→lt, not_ltb→le, sym, ◌∙◌,
}
use polkadot_chat_agents.Base.JsMap
use polkadot_chat_agents.Base.JsMap.{JsMap, IsDistinct, Absent}
use polkadot_chat_agents.T3ams.KnownChats.{find_victim, trim_loop}

-- The specification of eviction: walk from the oldest chat, and drop the first `n` that are not
-- protected.
unfoldable pub drop_oldest : ℕ → (String → Bool) → JsMap Bool → JsMap Bool
drop_oldest zero p m = m
drop_oldest (suc n) p [] = []
drop_oldest (suc n) p ((k, v) ∷ m) = elim (p k) [
  | true ↦ (k, v) ∷ drop_oldest (suc n) p m
  | false ↦ drop_oldest n p m
]

module _ (p : String → Bool) where
  drop_oldest-none : (n : ℕ) (m : JsMap Bool) → find_victim p m ≡ none → drop_oldest n p m ≡ m
  unfolding drop_oldest find_victim
  drop_oldest-none zero m h = refl
  drop_oldest-none (suc n) [] h = refl
  drop_oldest-none (suc n) ((k, v) ∷ m) h = ground (arith, drop_oldest-none (suc n) m)

  Absent-ne : (k j : String) (m : JsMap Bool) → Absent k m → find_victim p m ≡ some j → ¬ (k ≡ j)
  unfolding find_victim
  Absent-ne k j [] a h = λ e. cc
  Absent-ne k j ((i, v) ∷ m) a h = ground (arith, a.0, Absent-ne k j m a.1)

  drop_oldest-one :
      (m : JsMap Bool) (victim : String)
      → IsDistinct m
      → find_victim p m ≡ some victim
      → drop_oldest 1 p m ≡ JsMap.delete victim m
  unfolding drop_oldest find_victim JsMap.delete
  drop_oldest-one [] victim d h = cc
  drop_oldest-one ((k, v) ∷ m) victim d h = elim (Bool-cases (p k)) [
    | inl e ↦ ground (arith, Absent-ne k victim m d.0, drop_oldest-one m victim d.1)
    | inr e ↦ ground (arith, JsMap.delete-Absent k m d.0)
  ]

  length-drop_oldest-one :
      (m : JsMap Bool) (victim : String)
      → find_victim p m ≡ some victim
      → length (drop_oldest 1 p m) + 1 ≡ length m
  unfolding drop_oldest find_victim
  length-drop_oldest-one [] victim h = cc
  length-drop_oldest-one ((k, v) ∷ m) victim h = ground (arith, length-drop_oldest-one m victim)

  drop_oldest-suc :
      (n : ℕ) (m : JsMap Bool) → drop_oldest n p (drop_oldest 1 p m) ≡ drop_oldest (suc n) p m
  unfolding drop_oldest
  drop_oldest-suc zero m = refl
  drop_oldest-suc (suc n) [] = refl
  drop_oldest-suc (suc n) ((k, v) ∷ m) = ground (arith, drop_oldest-suc (suc n) m)

  pub trim_loop-drop_oldest :
      (fuel limit : ℕ) (m : JsMap Bool)
      → IsDistinct m
      → length m ≤ fuel
      → trim_loop fuel limit p m ≡ drop_oldest (length m - limit) p m
  unfolding trim_loop
  trim_loop-drop_oldest zero limit [] d h = unfold drop_oldest in ground arith
  trim_loop-drop_oldest zero limit (e ∷ m) d h = absurd (omega arith)
  trim_loop-drop_oldest (suc fuel) limit m d h = elim (Bool-cases (ltb limit (length m))) [
    | inr small ↦
        let zero_left : length m - limit ≡ 0 = omega (arith, not_ltb→le limit (length m) small) in
        rw (small, trim_loop) (rw zero_left (unfold drop_oldest in refl))
    | inl big ↦ elim (Option-cases (find_victim p m)) [
      | inl gone ↦
          rw (big, trim_loop)
            (rw (gone, trim_loop) (sym (drop_oldest-none (length m - limit) m gone)))
      | inr (victim, found) ↦
          let one = drop_oldest-one m victim d found in
          let shorter = length-drop_oldest-one m victim found in
          let left : length m - limit ≡ suc (length (drop_oldest 1 p m) - limit) =
            omega (arith, ltb→lt limit (length m) big) in
          rw (big, trim_loop)
            (rw (found, trim_loop)
              (rw (← one, left)
                (trim_loop-drop_oldest fuel limit (drop_oldest 1 p m)
                    (rw one (JsMap.IsDistinct-delete victim m d)) (omega arith)
                  ∙ drop_oldest-suc (length (drop_oldest 1 p m) - limit) m)))
    ]
  ]

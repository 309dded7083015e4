-- ===== src/Base/MapSums.antt =====
-- Sums over the values of a map.
use Prim.Native.Nat.{ℕ, ◌+◌}
use Prim.Native.String.{String}
use mathlib.Core.List.{[], ◌∷◌}
use mathlib.Core.Logic.{if_pos, if_neg}
use mathlib.Core.Option.{Option, none, some}
use mathlib.Core.Path.{◌≡◌, ap, subst}
use native.Mathlib.Omega.{arith}
use polkadot_chat_agents.Base.Tests.{key_dec}
use polkadot_chat_agents.Base.JsMap
use polkadot_chat_agents.Base.JsMap.{JsMap, IsDistinct, Absent, get-Absent}

module _ {ℓ} {V : Type ℓ} where
  abbrev pub sum_of : (V → ℕ) → JsMap V → ℕ
  sum_of weight [] = 0
  sum_of weight ((id, v) ∷ m) = weight v + sum_of weight m

  abbrev pub value_at : (V → ℕ) → Option V → ℕ
  value_at weight none = 0
  value_at weight (some v) = weight v

  pub sum_of-delete :
      (weight : V → ℕ) (id : String) (m : JsMap V)
      → IsDistinct m
      → sum_of weight m ≡ value_at weight (JsMap.get id m) + sum_of weight (JsMap.delete id m)
  unfolding JsMap.get JsMap.delete
  sum_of-delete weight id [] d = omega arith
  sum_of-delete weight id ((j, c) ∷ m) d =
      let ih = sum_of-delete weight id m d.1 in
      elim (key_dec j id) [
        | yes p ↦
            let gone = get-Absent id m (subst (λ x. Absent x m) p d.0) in
            rw (if_pos (key_dec j id) p, if_pos (key_dec j id) p)
              (omega (arith, ih, ap (value_at weight) gone))
        | no p ↦ rw (if_neg (key_dec j id) p, if_neg (key_dec j id) p) (omega (arith, ih))
      ]

  pub sum_of-set :
      (weight : V → ℕ) (id : String) (c : V) (m : JsMap V)
      → value_at weight (JsMap.get id m) + sum_of weight (JsMap.set id c m)
        ≡ weight c + sum_of weight m
  unfolding JsMap.get JsMap.set
  sum_of-set weight id c [] = omega arith
  sum_of-set weight id c ((j, b) ∷ m) =
      let ih = sum_of-set weight id c m in
      elim (key_dec j id) [
        | yes p ↦ rw (if_pos (key_dec j id) p, if_pos (key_dec j id) p) (omega arith)
        | no p ↦ rw (if_neg (key_dec j id) p, if_neg (key_dec j id) p) (omega (arith, ih))
      ]

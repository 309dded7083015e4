-- ===== src/Dispatcher/Sums.antt =====
-- Sums over the entries of a map, as an entry is set or deleted.
use polkadot_chat_agents.Base.{ℕ, ◌+◌, String, none, some, [], ◌∷◌, ◌≡◌, arith, key_dec, ap, subst}
use polkadot_chat_agents.Base.JsMap
use polkadot_chat_agents.Base.JsMap.{JsMap, Absent, IsDistinct, delete-Absent}

module _ {V : Type 0} (f : V → ℕ) where
  unfoldable pub sum : JsMap V → ℕ
  sum [] = 0
  sum ((k, v) ∷ m) = f v + sum m

  pub sum-set :
      (k : String) (v w : V) (m : JsMap V)
      → JsMap.get k m ≡ some v
      → sum (JsMap.set k w m) + f v ≡ sum m + f w
  unfolding sum JsMap.get JsMap.set
  sum-set k v w [] h = ground arith
  sum-set k v w ((j, u) ∷ m) h = ground (arith, sum-set k v w m)

  pub sum-set_new :
      (k : String) (w : V) (m : JsMap V)
      → JsMap.get k m ≡ none
      → sum (JsMap.set k w m) ≡ sum m + f w
  unfolding sum JsMap.get JsMap.set
  sum-set_new k w [] h = omega arith
  sum-set_new k w ((j, u) ∷ m) h = ground (arith, sum-set_new k w m)

  pub sum-delete :
      (k : String) (v : V) (m : JsMap V)
      → IsDistinct m
      → JsMap.get k m ≡ some v
      → sum (JsMap.delete k m) + f v ≡ sum m
  unfolding sum JsMap.get JsMap.delete
  sum-delete k v [] d h = ground arith
  sum-delete k v ((j, u) ∷ m) d h = elim (key_dec j k) [
    | yes p ↦
        let same : JsMap.delete k m ≡ m = delete-Absent k m (subst (λ x. Absent x m) p d.0) in
        ground (arith, ap sum same)
    | no p ↦ ground (arith, sum-delete k v m d.1)
  ]

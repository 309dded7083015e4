-- ===== src/Commands/Trims.antt =====
-- The maps of the runtime within their cap.
use polkadot_chat_agents.Base.{
  ℕ, suc, ◌≤◌, String, Option, none, some, [], ◌∷◌, ◌≡◌, ◌≢◌, refl, ap, sym, ◌∙◌, arith, ltb,
  length, All, key_dec, if_pos, if_neg, inl, inr, ◌⊎◌, ltb→lt, not_ltb→le, Bool-cases,
}
use polkadot_chat_agents.Base.JsMap
use polkadot_chat_agents.Base.JsMap.{
  JsMap, get-set_ne, get-delete_ne, length-delete-le, length-set-le,
}
use polkadot_chat_agents.Commands.{trim_map}

-- the key that was inserted first
abbrev pub oldest : {V : Type 0} → JsMap V → Option String
oldest [] = none
oldest ((j, v) ∷ m) = some j

module _ {V : Type 0} (cap : ℕ) where
  -- the entry of a key is as it was, but where the map was full and this was its oldest key
  abbrev pub Spares : String → JsMap V → JsMap V → Type 0
  Spares k m m' = (JsMap.get k m' ≡ JsMap.get k m) ⊎ ((length m ≡ cap) × (oldest m ≡ some k))

  pub trim-fits : (m : JsMap V) → length m ≤ cap → trim_map cap m ≡ m
  unfolding trim_map
  trim-fits [] h = refl
  trim-fits (e ∷ m) h = ground (arith, h)

  trim-full : (e : String × V) (m : JsMap V) → length m ≡ cap → trim_map cap (e ∷ m) ≡ m
  unfolding trim_map
  trim-full e m h = ground (arith, h, trim-fits m (omega (arith, h)))

  pub trim-le : (m : JsMap V) → length (trim_map cap m) ≤ cap
  unfolding trim_map
  trim-le [] = omega arith
  trim-le (e ∷ m) = ground (arith, trim-le m)

  pub trim-All {κ} : (P : String × V → Type κ) (m : JsMap V) → All P m → All P (trim_map cap m)
  unfolding trim_map
  trim-All P [] h = tt
  trim-All P (e ∷ m) h = elim (Bool-cases (ltb cap (length (e ∷ m)))) [
    | inl over ↦ rw over (trim-All P m h.1)
    | inr fits ↦ rw fits h
  ]

  pub trim-delete-Spares :
      (k j : String) (m : JsMap V)
      → length m ≤ cap
      → k ≢ j
      → Spares j m (trim_map cap (JsMap.delete k m))
  trim-delete-Spares k j m h ne = inl (
      ap (JsMap.get j) (trim-fits (JsMap.delete k m) (omega (arith, h, length-delete-le k m)))
      ∙ get-delete_ne k j m ne)

  -- a new entry in a full map
  trim-new :
      (k j : String) (v : V) (m : JsMap V)
      → k ≢ j
      → length m ≡ cap
      → length (JsMap.set k v m) ≡ suc cap
      → Spares j m (trim_map cap (JsMap.set k v m))
  unfolding JsMap.set JsMap.get
  trim-new k j v [] ne h more = inl (ap (JsMap.get j) (trim-full (k, v) [] h))
  trim-new k j v ((i, w) ∷ m) ne h more = elim (key_dec i k) [
    | yes p ↦ absurd (let same = rw (if_pos (key_dec i k) p) at more in omega (arith, h, same))
    | no p ↦ elim (key_dec i j) [
      | yes q ↦ inr (h, ap some q)
      | no q ↦ inl (
          ap (JsMap.get j) (
            ap (trim_map cap) (if_neg (key_dec i k) p ((k, v) ∷ m) ((i, w) ∷ JsMap.set k v m))
            ∙ trim-full (i, w) (JsMap.set k v m)
                (let longer = rw (if_neg (key_dec i k) p) at more in omega (arith, longer)))
          ∙ get-set_ne k j v m ne
          ∙ sym (if_neg (key_dec i j) q (some w) (JsMap.get j m)))
    ]
  ]

  pub trim-set-Spares :
      (k j : String) (v : V) (m : JsMap V)
      → length m ≤ cap
      → k ≢ j
      → Spares j m (trim_map cap (JsMap.set k v m))
  trim-set-Spares k j v m h ne = elim (Bool-cases (ltb cap (length (JsMap.set k v m)))) [
    | inl over ↦
        let more = ltb→lt cap (length (JsMap.set k v m)) over in
        let step = length-set-le k v m in
        trim-new k j v m ne (omega (arith, h, more, step)) (omega (arith, h, more, step))
    | inr fits ↦ inl (
        ap (JsMap.get j)
          (trim-fits (JsMap.set k v m) (not_ltb→le cap (length (JsMap.set k v m)) fits))
        ∙ get-set_ne k j v m ne)
  ]

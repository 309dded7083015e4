-- ===== src/PeerClock/Stamps.antt =====
-- The size of the map of floors, and the stamps of `next`.
use polkadot_chat_agents.Base.{
  ℕ, suc, ◌+◌, ◌≤◌, ◌<◌, String, Bool, true, false, ◌||◌, Option, none, some, List, [], ◌∷◌, ◌++◌,
  ◌≡◌, ◌≢◌, refl, ◌∙◌, subst, arith, ltb, ◌==◌, length, if◌then◌else◌, Bool-cases, inl, inr,
  key_dec, if_pos, ltb→lt, not_ltb→le, ◌⊎◌, max,
}
use polkadot_chat_agents.Base.JsMap
use polkadot_chat_agents.Base.JsMap.{
  JsMap, Absent, IsDistinct, IsDistinct-set, IsDistinct-delete, Absent-delete_self, set-Absent,
  get-snoc_self, get-delete_ne, get-delete_self, get-set_ne, length-set-le, length-delete-le,
}
use polkadot_chat_agents.PeerClock.{
  drop_oldest, remember, floor_of, day_ms, observe, next, Event, observes, stamps, step, run,
}

module _ (max_peers : ℕ) where
  abbrev pub Bounded : JsMap ℕ → Type 0
  Bounded m = IsDistinct m × (length m ≤ max_peers)

  drop_oldest-Bounded :
      (m : JsMap ℕ) → IsDistinct m → length m ≤ max_peers + 1 → Bounded (drop_oldest max_peers m)
  unfolding drop_oldest
  drop_oldest-Bounded [] d l = (tt, omega arith)
  drop_oldest-Bounded ((k, t) ∷ m) d l = elim (Bool-cases (ltb max_peers (length ((k, t) ∷ m)))) [
    | inl over ↦ rw over (IsDistinct-delete k ((k, t) ∷ m) d, shorter)
    | inr fits ↦ rw fits (d, not_ltb→le _ _ fits)
  ]
    where
      shorter : length (JsMap.delete k ((k, t) ∷ m)) ≤ max_peers
      shorter =
          unfold JsMap.delete in
          rw (if_pos (key_dec k k) refl) (omega (arith, length-delete-le k m, l))

  remember-Bounded :
      (peer : String) (value : ℕ) (m : JsMap ℕ)
      → Bounded m
      → Bounded (remember max_peers peer value m)
  unfolding remember
  remember-Bounded peer value m h =
      drop_oldest-Bounded (JsMap.set peer value (JsMap.delete peer m))
        (IsDistinct-set peer value (JsMap.delete peer m) (IsDistinct-delete peer m h.0))
        (omega
          (arith, length-set-le peer value (JsMap.delete peer m), length-delete-le peer m, h.1))

  observe-Bounded :
      (now : ℕ) (peer : String) (ts : Option ℕ) (m : JsMap ℕ)
      → Bounded m
      → Bounded (observe max_peers now peer ts m)
  unfolding observe
  observe-Bounded now peer none m h = h
  observe-Bounded now peer (some ts) m h = if-Bounded (ts == 0 || ltb (now + day_ms) ts) m _ h (
      if-Bounded (ltb (floor_of peer m) ts) (remember max_peers peer ts m) m
        (remember-Bounded peer ts m h) h)
    where
      if-Bounded : (b : Bool) (x y : JsMap ℕ) → Bounded x → Bounded y → Bounded (if b then x else y)
      if-Bounded true x y p q = p
      if-Bounded false x y p q = q

  -- Every history of a bounded clock keeps at most `maxPeers` peers, each once.
  pub run-Bounded : (es : List Event) (m : JsMap ℕ) → Bounded m → Bounded (run max_peers es m)
  unfolding run step next
  run-Bounded [] m h = h
  run-Bounded (observes now peer ts ∷ es) m h =
      run-Bounded es (observe max_peers now peer ts m) (observe-Bounded now peer ts m h)
  run-Bounded (stamps now peer ∷ es) m h =
      run-Bounded es (next max_peers now peer m).0
        (remember-Bounded peer (next max_peers now peer m).1 m h)

  get-drop_oldest :
      (k : String) (m : JsMap ℕ)
      → (JsMap.get k (drop_oldest max_peers m) ≡ none)
        ⊎ (JsMap.get k (drop_oldest max_peers m) ≡ JsMap.get k m)
  unfolding drop_oldest
  get-drop_oldest k [] = inr refl
  get-drop_oldest k ((j, t) ∷ m) = elim (Bool-cases (ltb max_peers (length ((j, t) ∷ m)))) [
    | inl over ↦ rw over (elim (key_dec j k) [
      | yes p ↦ inl (
          subst (λ x. JsMap.get x (JsMap.delete j ((j, t) ∷ m)) ≡ none) p
            (get-delete_self j ((j, t) ∷ m)))
      | no p ↦ inr (get-delete_ne j k ((j, t) ∷ m) p)
    ])
    | inr fits ↦ rw fits (inr refl)
  ]

  get-drop_oldest_snoc :
      (k : String) (v : ℕ) (m : JsMap ℕ)
      → 1 ≤ max_peers
      → Absent k m
      → JsMap.get k (drop_oldest max_peers (m ++ (k, v) ∷ [])) ≡ some v
  unfolding drop_oldest
  get-drop_oldest_snoc k v [] room h = elim (Bool-cases (ltb max_peers 1)) [
    | inl over ↦ absurd (lt_one room (ltb→lt _ _ over))
    | inr fits ↦ rw fits (get-snoc_self k v [] tt)
  ]
    where
      lt_one : 1 ≤ max_peers → max_peers < 1 → ⊥
      lt_one a b = omega (arith, a, b)
  get-drop_oldest_snoc k v ((j, t) ∷ m) room h =
      elim (Bool-cases (ltb max_peers (length ((j, t) ∷ (m ++ (k, v) ∷ []))))) [
        | inl over ↦
            rw over (
              get-delete_ne j k ((j, t) ∷ (m ++ (k, v) ∷ [])) h.0
              ∙ get-snoc_self k v ((j, t) ∷ m) h)
        | inr fits ↦ rw fits (get-snoc_self k v ((j, t) ∷ m) h)
      ]

  get-remember_self :
      (peer : String) (value : ℕ) (m : JsMap ℕ)
      → 1 ≤ max_peers
      → JsMap.get peer (remember max_peers peer value m) ≡ some value
  unfolding remember
  get-remember_self peer value m room =
      rw (set-Absent peer value (JsMap.delete peer m) (Absent-delete_self peer m))
        (get-drop_oldest_snoc peer value (JsMap.delete peer m) room (Absent-delete_self peer m))

  get-remember_ne :
      (peer k : String) (value : ℕ) (m : JsMap ℕ)
      → peer ≢ k
      → (JsMap.get k (remember max_peers peer value m) ≡ none)
        ⊎ (JsMap.get k (remember max_peers peer value m) ≡ JsMap.get k m)
  unfolding remember
  get-remember_ne peer k value m ne =
      elim (get-drop_oldest k (JsMap.set peer value (JsMap.delete peer m))) [
        | inl dropped ↦ inl dropped
        | inr kept ↦
            inr
              (kept ∙ get-set_ne peer k value (JsMap.delete peer m) ne ∙ get-delete_ne peer k m ne)
      ]

  -- With room for a peer, the stamp of `next` is at least the present time and above everything that
  -- is remembered of the peer, it is what the clock then remembers of the peer, and of another peer
  -- the clock remembers what it did, or nothing.
  pub next-newest :
      (now : ℕ) (peer k : String) (m : JsMap ℕ)
      → 1 ≤ max_peers
      → (now ≤ (next max_peers now peer m).1)
        × (floor_of peer m < (next max_peers now peer m).1)
        × (JsMap.get peer (next max_peers now peer m).0 ≡ some (next max_peers now peer m).1)
        × (peer ≢ k
            → (JsMap.get k (next max_peers now peer m).0 ≡ none)
              ⊎ (JsMap.get k (next max_peers now peer m).0 ≡ JsMap.get k m))
  unfolding next
  next-newest now peer k m room =
      let value = max now (suc (floor_of peer m)) in
      (
        omega arith,
        omega arith,
        get-remember_self peer value m room,
        get-remember_ne peer k value m,
      )

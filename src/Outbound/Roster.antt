-- ===== src/Outbound/Roster.antt =====
-- The map of all lanes: `laneFor` and its bound. Each function is given the map and returns it.
use polkadot_chat_agents.Outbound.Lane.{Lane, Batch, submitting, new_lane, has_pending}
use polkadot_chat_agents.Base.JsMap
use polkadot_chat_agents.Base.JsMap.{JsMap, IsDistinct}
use polkadot_chat_agents.Base.{
  lt→ltb, length-append, ℕ, ◌+◌, String, Bool, true, false, Option, none, some, [], ◌∷◌, ◌++◌, ◌≡◌,
  ◌≢◌, refl, ap, ◌∙◌, arith, ltb, length, if◌then◌else◌, Bool-cases, Option-cases, inl, inr,
  key_dec, ite, ◌⊎◌,
}

abbrev pub lane_cap : ℕ
lane_cap = 500

module _ {O : Type 0} where
  -- `!l.current && l.queue.length === 0`
  unfoldable pub evictable : Lane O → Bool
  evictable lane = elim lane.current [
    | some _ ↦ false
    | none ↦ elim lane.queue [ [] ↦ true | _ ∷ _ ↦ false ]
  ]

  -- the `for` loop of `laneFor`: the oldest lane that can go
  unfoldable pub find_idle : String → JsMap (Lane O) → Option String
  unfolding evictable
  find_idle peer [] = none
  find_idle peer ((k, lane) ∷ lanes) =
      let rest = find_idle peer lanes in
      ite (key_dec k peer) rest (if evictable lane then some k else rest)

  unfoldable pub evict_one : String → JsMap (Lane O) → JsMap (Lane O)
  unfolding find_idle JsMap.delete
  evict_one peer lanes =
      if ltb lane_cap (length lanes)
      then elim (find_idle peer lanes) [ none ↦ lanes | some k ↦ JsMap.delete k lanes ]
      else lanes

  unfoldable pub lane_for : String → JsMap (Lane O) → JsMap (Lane O) × Lane O
  unfolding evict_one JsMap.get JsMap.set
  lane_for peer lanes = elim (JsMap.get peer lanes) [
    | some lane ↦ (lanes, lane)
    | none ↦ (evict_one peer (JsMap.set peer new_lane lanes), new_lane)
  ]

  find_idle-ne_peer :
      (peer k : String) (lanes : JsMap (Lane O)) → find_idle peer lanes ≡ some k → k ≢ peer
  unfolding find_idle
  find_idle-ne_peer peer k [] h = λ e. cc
  find_idle-ne_peer peer k ((j, lane) ∷ lanes) h = ground (arith, find_idle-ne_peer peer k lanes)

  find_idle-Absent :
      (peer k : String) (lanes : JsMap (Lane O))
      → JsMap.Absent k lanes
      → find_idle peer lanes ≢ some k
  unfolding find_idle
  find_idle-Absent peer k [] a = λ e. cc
  find_idle-Absent peer k ((j, lane) ∷ lanes) a =
      λ h. ground (arith, a.0, find_idle-Absent peer k lanes a.1)

  find_idle-evictable :
      (peer k : String) (lanes : JsMap (Lane O)) (lane : Lane O)
      → JsMap.IsDistinct lanes
      → find_idle peer lanes ≡ some k
      → JsMap.get k lanes ≡ some lane
      → evictable lane ≡ true
  unfolding find_idle JsMap.get
  find_idle-evictable peer k [] lane d h g = cc
  find_idle-evictable peer k ((j, l) ∷ lanes) lane d h g =
      ground (arith, find_idle-evictable peer k lanes lane d.1, find_idle-Absent peer j lanes d.0)

  evict_one-keeps :
      (peer k : String) (lanes : JsMap (Lane O)) (lane : Lane O)
      → IsDistinct lanes
      → JsMap.get k lanes ≡ some lane
      → (k ≡ peer) ⊎ (evictable lane ≡ false)
      → JsMap.get k (evict_one peer lanes) ≡ some lane
  unfolding evict_one
  evict_one-keeps peer k lanes lane d g w = elim (Bool-cases (ltb lane_cap (length lanes))) [
    | inr small ↦ rw small g
    | inl big ↦ elim (Option-cases (find_idle peer lanes)) [
      | inl gone ↦ rw (big, gone) g
      | inr (j, found) ↦ elim (key_dec j k) [
        | no ne ↦ rw (big, found) (JsMap.get-delete_ne j k lanes ne ∙ g)
        | yes same ↦
            let idle_k = find_idle-evictable peer k lanes lane d (rw same at found) g in
            let other = find_idle-ne_peer peer k lanes (rw same at found) in absurd (ground arith)
      ]
    ]
  ]

  -- `laneFor` answers with the lane that the map holds for the peer after the call, and every lane
  -- that has a statement in its slot or messages in its queue is in the map after the call as it was
  -- before.
  pub lane_for-keeps :
      (peer : String) (lanes : JsMap (Lane O))
      → IsDistinct lanes
      → (JsMap.get peer (lane_for peer lanes).0 ≡ some (lane_for peer lanes).1)
        × ((k : String) (lane : Lane O)
            → JsMap.get k lanes ≡ some lane
            → evictable lane ≡ false
            → JsMap.get k (lane_for peer lanes).0 ≡ some lane)
  unfolding lane_for
  lane_for-keeps peer lanes d = elim (Option-cases (JsMap.get peer lanes)) [
    | inr (here, found) ↦ (rw (found, lane_for) found, λ k lane g busy. rw (found, lane_for) g)
    | inl missing ↦
        let m = JsMap.set peer (new_lane {O = O}) lanes in
        let dm = JsMap.IsDistinct-set peer (new_lane {O = O}) lanes d in
        (
          rw (missing, lane_for)
              (evict_one-keeps peer peer m new_lane dm (JsMap.get-set_self peer new_lane lanes)
                (inl refl)),
          λ k lane g busy.
              let ne : peer ≢ k = λ e. cc (g, missing, ap (λ x. JsMap.get x lanes) e) in
              rw (missing, lane_for)
                (evict_one-keeps peer k m lane dm (JsMap.get-set_ne peer k new_lane lanes ne ∙ g)
                  (inr busy)),
        )
  ]

  find_idle-head :
      (peer k : String) (lanes : JsMap (Lane O)) (lane : Lane O)
      → k ≢ peer
      → evictable lane ≡ true
      → find_idle peer ((k, lane) ∷ lanes) ≡ some k
  unfolding find_idle
  find_idle-head peer k lanes lane ne free = ground arith

  evict_one-head :
      (peer k : String) (lanes : JsMap (Lane O)) (lane : Lane O)
      → k ≢ peer
      → evictable lane ≡ true
      → ltb lane_cap (length ((k, lane) ∷ lanes)) ≡ true
      → JsMap.get k (evict_one peer ((k, lane) ∷ lanes)) ≡ none
  unfolding evict_one
  evict_one-head peer k lanes lane ne free big =
      rw (big, find_idle-head peer k lanes lane ne free)
        (JsMap.get-delete_self k ((k, lane) ∷ lanes))

  lane_for_new :
      (peer : String) (lanes : JsMap (Lane O))
      → JsMap.get peer lanes ≡ none
      → (lane_for peer lanes).0 ≡ evict_one peer (JsMap.set peer new_lane lanes)
  unfolding lane_for
  lane_for_new peer lanes missing = rw (missing, lane_for)

  -- A lane whose first statement is in flight, with nothing queued, passes for idle: at the bound of
  -- the map it is dropped for a new peer when it is the oldest, though it has work pending.
  pub lane_for-drops_in_flight :
      (peer k : String) (lanes : JsMap (Lane O)) (lane : Lane O) (b : Batch O)
      → lane.phase ≡ submitting b
      → lane.current ≡ none
      → lane.queue ≡ []
      → k ≢ peer
      → JsMap.Absent peer lanes
      → length lanes + 1 ≡ lane_cap
      → (has_pending lane ≡ true) × (JsMap.get k (lane_for peer ((k, lane) ∷ lanes)).0 ≡ none)
  lane_for-drops_in_flight peer k lanes lane b f c q ne a full =
      let missing = JsMap.get-Absent peer ((k, lane) ∷ lanes) (ne, a) in
      let appended = JsMap.set-Absent peer (new_lane {O = O}) ((k, lane) ∷ lanes) (ne, a) in
      let free : evictable lane ≡ true = unfold evictable in ground arith in
      let more = length-append lanes ((peer, new_lane {O = O}) ∷ []) in
      (
        (unfold has_pending in ground arith),
        rw (lane_for_new peer ((k, lane) ∷ lanes) missing) (
            rw appended (
              evict_one-head peer k (lanes ++ (peer, new_lane) ∷ []) lane ne free (
                lt→ltb lane_cap (length ((k, lane) ∷ lanes ++ (peer, new_lane {O = O}) ∷ []))
                  (omega arith)))),
      )

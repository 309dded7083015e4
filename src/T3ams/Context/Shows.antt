-- ===== src/T3ams/Context/Shows.antt =====
-- What a call of `snapshot` shows.
use polkadot_chat_agents.Base.JsMap.{JsMap}
use polkadot_chat_agents.T3ams.Context.Chat.{Entry, Chat, Limits}
use polkadot_chat_agents.T3ams.Context.Store.{
  Store, bytes_of, is_empty, is_expired, expire_chats, prune_expired, receipt_now, prune,
}
use polkadot_chat_agents.T3ams.Context.Calls.{entries_of}
use polkadot_chat_agents.T3ams.Context.Changes.{is_relevant, snapshot_limit, reach}
use polkadot_chat_agents.T3ams.Context.Snapshot.{Request, snapshot}
use polkadot_chat_agents.T3ams.Context.Books.{Holds, Everywhere, Everywhere-get, Everywhere-touch}
use polkadot_chat_agents.T3ams.Context.Global.{Everywhere-trim_global}
use polkadot_chat_agents.Base.{
  ℕ, ◌-◌, String, Bool, true, false, not, Option, none, some, List, [], ◌∷◌, ◌≡◌, refl, arith,
  keep_if, All, if-cases, max,
}
use polkadot_chat_agents.T3ams.Context.Choice.{IsShown, pick-IsShown}

module _ (limits : Limits) where
  abbrev IsFresh : ℕ → Entry → Type 0
  IsFresh current e = is_expired limits current e ≡ false

  abbrev HasFresh : ℕ → Chat → Type 0
  HasFresh current c = All (IsFresh current) c.entries

  not-true : (b : Bool) → not b ≡ true → b ≡ false
  not-true true h = absurd (cc h)
  not-true false h = refl

  keep_if-IsFresh :
      (current : ℕ) (es : List Entry)
      → All (IsFresh current) (keep_if (λ e. not (is_expired limits current e)) es)
  keep_if-IsFresh current [] = tt
  keep_if-IsFresh current (e ∷ es) =
      if-cases (All (IsFresh current)) (not (is_expired limits current e)) _ _
        (λ y. (not-true _ y, keep_if-IsFresh current es)) (λ n. keep_if-IsFresh current es)

  expire_chats-HasFresh :
      (current : ℕ) (m : JsMap Chat) (total : ℕ)
      → Everywhere (HasFresh current) (expire_chats limits current m total).0
  unfolding expire_chats
  expire_chats-HasFresh current [] total = tt
  expire_chats-HasFresh current ((i, c) ∷ m) total =
      let kept = keep_if (λ e. not (is_expired limits current e)) c.entries in
      let lost = bytes_of (keep_if (is_expired limits current) c.entries) in
      let rest = expire_chats limits current m (total - lost) in
      let ih = expire_chats-HasFresh current m (total - lost) in
      if-cases (λ (r : JsMap Chat × ℕ). Everywhere (HasFresh current) r.0) (is_empty kept) rest
        ((i, record { entries = kept; bytes = c.bytes - lost }) ∷ rest.0, rest.1) (λ y. ih)
        (λ n. (keep_if-IsFresh current c.entries, ih))

  reach-HasFresh :
      (now : ℕ) (id : String) (s : Store)
      → Everywhere (HasFresh (max s.last_receipt_at now)) (reach limits now id s).chats
  unfolding reach prune prune_expired receipt_now
  reach-HasFresh now id s =
      let current = max s.last_receipt_at now in
      Everywhere-touch (HasFresh current) id _ (
        Everywhere-trim_global (HasFresh current) limits (λ e es b h. h.1) _
          (expire_chats-HasFresh current s.chats s.total_bytes))

  -- what the answer to a request is to be
  abbrev pub IsAnswer : ℕ → Request → Store → List Entry → Type 0
  IsAnswer now r s =
      IsShown
        (λ e.
          (is_expired limits (max s.last_receipt_at now) e ≡ false)
          × (is_relevant r.thread_root_id e ≡ true))
        (snapshot_limit r.max_records limits.records_per_chat)
        (snapshot_limit r.max_bytes limits.bytes_per_chat)

  -- A snapshot has at most as many records and bytes as the call and the store allow, in the order
  -- of their receipt, none of them expired, and all of them of the thread that is asked for (the root
  -- and its replies), or of the top level.
  pub snapshot-IsShown :
      (now : ℕ) (r : Request) (s : Store) → IsAnswer now r s (snapshot limits now (some r) s).1
  unfolding snapshot
  snapshot-IsShown now r s =
      if-cases (λ (x : Store × List Entry). IsAnswer now r s x.1) limits.enabled _ _
        (λ y. pick-IsShown (IsFresh (max s.last_receipt_at now)) _ _ r.thread_root_id _ (
          shown _ (
            Everywhere-get (HasFresh (max s.last_receipt_at now)) r.chat_id _
              (reach-HasFresh now r.chat_id s))))
        (λ n. record { few = omega arith; light = omega arith; ascending = tt; all = tt })
    where
      shown :
          (o : Option Chat)
          → Holds (HasFresh (max s.last_receipt_at now)) o
          → All (IsFresh (max s.last_receipt_at now)) (entries_of o)
      shown none h = tt
      shown (some c) h = h

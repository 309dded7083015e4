-- ===== src/T3ams/Context/Writes.antt =====
-- The bounds of the store over the writes of a record.
use polkadot_chat_agents.Base.JsMap
use polkadot_chat_agents.Base.JsMap.{JsMap, IsDistinct, length-delete-le, length-set-le}
use polkadot_chat_agents.T3ams.Context.Chat.{Entry, Chat, Limits, any_entry, has_id}
use polkadot_chat_agents.T3ams.Context.Store.{
  Store, Raw, Normalized, bad, good, Result, create, remove_found, remove_chat, touch, touch_found,
  bytes_of,
}
use polkadot_chat_agents.T3ams.Context.Calls.{
  chat_or_new, entries_of, make_room, settle, insert, append_record, append_to, append,
}
use polkadot_chat_agents.T3ams.Context.Fair.{IsSound, trim_chat-IsTrimmed}
use polkadot_chat_agents.T3ams.Context.Books.{
  sum_bytes, bytes_at, Holds, Everywhere-get, HasBooks, put_chat-HasBooks, remove_chat-HasBooks,
  touch-HasBooks, sum_bytes-delete,
}
use polkadot_chat_agents.T3ams.Context.Trimmed.{
  IsBounded, IsCounted-HasBooks, trim_global-IsBounded, evict_chats-IsCounted,
}
use polkadot_chat_agents.T3ams.Context.Expired.{prune-IsBounded}
use polkadot_chat_agents.Base.{
  ℕ, suc, ◌+◌, ◌-◌, ◌≤◌, String, Option, none, some, List, [], ◌∷◌, ◌++◌, ◌≡◌, refl, arith, length,
  if-cases, key_dec, ite,
}

bytes_of-snoc : (es : List Entry) (e : Entry) → bytes_of (es ++ e ∷ []) ≡ bytes_of es + e.bytes
bytes_of-snoc [] e = omega arith
bytes_of-snoc (x ∷ es) e = omega (arith, bytes_of-snoc es e)

length-delete_present :
    (id : String) (b : Chat) (m : JsMap Chat)
    → JsMap.get id m ≡ some b
    → suc (length (JsMap.delete id m)) ≤ length m
unfolding JsMap.get JsMap.delete
length-delete_present id b [] h = absurd (cc h)
length-delete_present id b ((j, a) ∷ m) h = go (key_dec j id) (length-delete_present id b m) h
  where
    go :
        (d : Dec (j ≡ id))
        → (JsMap.get id m ≡ some b → suc (length (JsMap.delete id m)) ≤ length m)
        → ite d (some a) (JsMap.get id m) ≡ some b
        → suc (length (ite d (JsMap.delete id m) ((j, a) ∷ JsMap.delete id m)))
          ≤ length ((j, a) ∷ m)
    go (yes p) ih h = omega (arith, length-delete-le id m)
    go (no p) ih h = omega (arith, ih h)

module _ (limits : Limits) where
  pub create-IsBounded : IsBounded limits create
  unfolding create
  create-IsBounded = record {
    books = record { distinct = tt; sound = tt; sums = refl };
    few_chats = omega arith;
    few_bytes = omega arith;
  }

  pub touch-IsBounded :
      (id : String) (s : Store)
      → IsBounded limits s
      → IsBounded limits (record s { chats = touch id s.chats })
  touch-IsBounded id s h = record {
    books = touch-HasBooks limits id s h.books;
    few_chats = unfold touch in omega (arith, h.few_chats, go (JsMap.get id s.chats) refl);
    few_bytes = h.few_bytes;
  }
    where
      go :
          (o : Option Chat)
          → JsMap.get id s.chats ≡ o
          → length (touch_found id o s.chats) ≤ length s.chats
      go none eq = omega arith
      go (some c) eq = omega (
        arith,
        length-delete_present id c s.chats eq,
        length-set-le id c (JsMap.delete id s.chats),
      )

  pub remove_chat-IsBounded :
      (id : String) (s : Store) → IsBounded limits s → IsBounded limits (remove_chat id s).0
  remove_chat-IsBounded id s h = record {
    books = remove_chat-HasBooks limits id s h.books;
    few_chats = unfold remove_chat in (go (JsMap.get id s.chats)).0;
    few_bytes = unfold remove_chat in (go (JsMap.get id s.chats)).1;
  }
    where
      go :
          (o : Option Chat)
          → (length (remove_found id o s).0.chats ≤ limits.chat_limit)
            × ((remove_found id o s).0.total_bytes ≤ limits.total_bytes_limit)
      go none = (h.few_chats, h.few_bytes)
      go (some c) =
          (omega (arith, h.few_chats, length-delete-le id s.chats), omega (arith, h.few_bytes))

  -- a write of a chat with its bytes counted
  pub settle-IsBounded :
      (id message_id : String) (chat : Chat) (total : ℕ) (s : Store)
      → HasBooks limits s
      → chat.bytes ≡ bytes_of chat.entries
      → total + bytes_at (JsMap.get id s.chats) ≡ s.total_bytes + chat.bytes
      → IsBounded limits (settle limits id message_id chat total s).0
  unfolding settle
  settle-IsBounded id message_id chat total s h counted eq =
      let here = sum_bytes-delete id s.chats h.distinct in
      let t =
        trim_chat-IsTrimmed limits (sum_bytes (JsMap.delete id s.chats))
          (record { chat = chat; total = total }) counted (omega (arith, eq, h.sums, here)) in
      trim_global-IsBounded limits _
        (put_chat-HasBooks limits id _ s h.distinct h.sound t.0 (omega (arith, t.1, here)))

  make_room-HasBooks :
      (id : String) (s : Store) → HasBooks limits s → HasBooks limits (make_room limits id s)
  unfolding make_room
  make_room-HasBooks id s h =
      if-cases (HasBooks limits) (JsMap.has id s.chats) _ _ (λ y. touch-HasBooks limits id s h)
        (λ n.
          IsCounted-HasBooks limits _ s
            (evict_chats-IsCounted limits (limits.chat_limit - 1) s.chats s.total_bytes
              (record { distinct = h.distinct; sound = h.sound; sums = h.sums })).0)

  insert-IsBounded :
      (id : String) (e : Entry) (s : Store)
      → HasBooks limits s
      → IsBounded limits (insert limits id e s).0
  unfolding insert
  insert-IsBounded id e s h0 =
      let h = make_room-HasBooks id s h0 in
      let s' = make_room limits id s in
      let chat = chat_or_new (JsMap.get id s'.chats) in
      let here =
        counted (JsMap.get id s'.chats) (Everywhere-get (IsSound limits) id s'.chats h.sound) in
      settle-IsBounded id e.message_id
        (record { entries = chat.entries ++ (e ∷ []); bytes = chat.bytes + e.bytes })
        (s'.total_bytes + e.bytes) (record s' { sequence = s'.sequence + 1 })
        (record { distinct = h.distinct; sound = h.sound; sums = h.sums })
        (omega (arith, here.0, bytes_of-snoc chat.entries e)) (omega (arith, here.1))
    where
      counted :
          (o : Option Chat)
          → Holds (IsSound limits) o
          → ((chat_or_new o).bytes ≡ bytes_of (chat_or_new o).entries)
            × ((chat_or_new o).bytes ≡ bytes_at o)
      counted none ok = (refl, refl)
      counted (some c) ok = (ok.counted, refl)

  append_record-IsBounded :
      (id : String) (n : Normalized) (s : Store)
      → IsBounded limits s
      → IsBounded limits (append_record limits id n s).0
  append_record-IsBounded id (bad reason) s h = h
  append_record-IsBounded id (good e) s h =
      if-cases (λ (r : Store × Result). IsBounded limits r.0)
        (any_entry (has_id e.message_id) (entries_of (JsMap.get id s.chats))) _ _ (λ y. h)
        (λ n. insert-IsBounded id e s h.books)

  pub append-IsBounded :
      (now : ℕ) (id : Option String) (raw : Raw) (s : Store)
      → IsBounded limits s
      → IsBounded limits (append limits now id raw s).0
  unfolding append
  append-IsBounded now id raw s h =
      if-cases (λ (r : Store × Result). IsBounded limits r.0) limits.enabled _ _ (λ y. go id)
        (λ n. h)
    where
      go : (o : Option String) → IsBounded limits (append_to limits now o raw s).0
      go none = h
      go (some i) = append_record-IsBounded i _ _ (prune-IsBounded limits now s h.books)

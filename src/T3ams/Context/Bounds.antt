-- ===== src/T3ams/Context/Bounds.antt =====
-- The bounds of the store over its calls.
use polkadot_chat_agents.Base.JsMap
use polkadot_chat_agents.Base.JsMap.{JsMap, IsDistinct, length-delete-le, length-set-le}
use polkadot_chat_agents.T3ams.Context.Chat.{Entry, Chat, Limits, take_out, has_id}
use polkadot_chat_agents.T3ams.Context.Store.{
  Store, Normalized, bad, good, Result, create, put_chat, bytes_of,
}
use polkadot_chat_agents.T3ams.Context.Calls.{replace_entry}
use polkadot_chat_agents.T3ams.Context.Changes.{
  Target, is_other_sender, clear, replaced, replace_found, replace_in, reach, replace_target,
  replace, remove_entry, remove_in, remove_target, remove,
}
use polkadot_chat_agents.T3ams.Context.Snapshot.{
  Event, appends, replaces, removes, snapshots, clears, prunes, snapshot, step, run,
}
use polkadot_chat_agents.T3ams.Context.Parts.{Taken, TakenOf, take_out-Taken}
use polkadot_chat_agents.T3ams.Context.Fair.{IsSound, IsSound-part}
use polkadot_chat_agents.T3ams.Context.Books.{
  bytes_at, Holds, Everywhere-get, put_chat-HasBooks, sum_bytes-delete,
}
use polkadot_chat_agents.T3ams.Context.Trimmed.{IsBounded, length-put_chat}
use polkadot_chat_agents.T3ams.Context.Writes.{
  create-IsBounded, touch-IsBounded, remove_chat-IsBounded, settle-IsBounded, append-IsBounded,
}
use polkadot_chat_agents.T3ams.Context.Expired.{prune-IsBounded}
use polkadot_chat_agents.Base.{
  ℕ, ◌+◌, ◌-◌, String, Bool, true, false, Option, none, some, List, [], ◌∷◌, ◌≡◌, refl, ap, arith,
  if◌then◌else◌, if-cases,
}

-- the bytes of a list in which a record, where there is one, was replaced
abbrev Replaced : Entry → List Entry → List Entry → Option (Entry × List Entry) → Type 0
Replaced new es after none = Unit
Replaced new es after (some (x, rest)) = bytes_of after + x.bytes ≡ bytes_of es + new.bytes

replace_entry-Replaced :
    (id : String) (new : Entry) (es : List Entry)
    → Replaced new es (replace_entry id new es) (take_out (has_id id) es)
unfolding take_out replace_entry
replace_entry-Replaced id new [] = tt
replace_entry-Replaced id new (e ∷ es) =
    at (has_id id e) (take_out (has_id id) es) (replace_entry-Replaced id new es)
  where
    at :
        (b : Bool) (o : Option (Entry × List Entry))
        → Replaced new es (replace_entry id new es) o
        → Replaced new
            (e ∷ es)
            (if b then new ∷ es else e ∷ replace_entry id new es)
            (if b then some (e, es) else elim o [ none ↦ none | some (x, xs) ↦ some (x, e ∷ xs) ])
    at true o h = omega arith
    at false none h = tt
    at false (some (x, rest)) h = omega (arith, h)

module _ (limits : Limits) where
  reach-IsBounded :
      (now : ℕ) (id : String) (s : Store)
      → IsBounded limits s
      → IsBounded limits (reach limits now id s)
  unfolding reach
  reach-IsBounded now id s h = touch-IsBounded limits id _ (prune-IsBounded limits now s h.books)

  replace_target-IsBounded :
      (now : ℕ) (t : Target) (text : Option String) (s : Store)
      → IsBounded limits s
      → IsBounded limits (replace_target limits now (some t) text s).0
  replace_target-IsBounded now t text s h0 =
      go (JsMap.get t.chat_id s'.chats) refl
        (Everywhere-get (IsSound limits) t.chat_id s'.chats h.books.sound)
    where
      s' : Store
      s' = reach limits now t.chat_id s

      h : IsBounded limits s'
      h = reach-IsBounded now t.chat_id s h0

      written :
          (chat : Chat) (old : Entry) (rest : List Entry) (n : Normalized)
          → JsMap.get t.chat_id s'.chats ≡ some chat
          → IsSound limits chat
          → Taken (has_id t.message_id) chat.entries old rest
          → ((new : Entry)
              → bytes_of (replace_entry t.message_id new chat.entries) + old.bytes
                ≡ bytes_of chat.entries + new.bytes)
          → IsBounded limits (replaced limits t chat old n s').0
      written chat old rest (bad reason) eq ok taken weighs = h
      written chat old rest (good e) eq ok taken weighs =
          let new = record e { received_at = old.received_at; sequence = old.sequence } in
          settle-IsBounded limits t.chat_id t.message_id
            (record {
              entries = replace_entry t.message_id new chat.entries;
              bytes = (chat.bytes + new.bytes) - old.bytes;
            })
            ((s'.total_bytes + new.bytes) - old.bytes) s' h.books
            (omega (arith, ok.counted, weighs new))
            (omega (
              arith,
              ap bytes_at eq,
              ok.counted,
              taken.weighs,
              h.books.sums,
              sum_bytes-delete t.chat_id s'.chats h.books.distinct,
            ))

      found :
          (chat : Chat) (o : Option (Entry × List Entry))
          → JsMap.get t.chat_id s'.chats ≡ some chat
          → IsSound limits chat
          → TakenOf (has_id t.message_id) chat.entries o
          → ((new : Entry)
              → Replaced new chat.entries (replace_entry t.message_id new chat.entries) o)
          → IsBounded limits (replace_found limits t text chat o s').0
      found chat none eq ok taken weighs = h
      found chat (some (old, rest)) eq ok taken weighs =
          if-cases (λ (r : Store × Result). IsBounded limits r.0) (is_other_sender t.sender_xid old)
            _ _ (λ y. h) (λ n. written chat old rest _ eq ok taken weighs)

      go :
          (o : Option Chat)
          → JsMap.get t.chat_id s'.chats ≡ o
          → Holds (IsSound limits) o
          → IsBounded limits (replace_in limits t text o s').0
      go none eq ok = h
      go (some chat) eq ok =
          found chat (take_out (has_id t.message_id) chat.entries) eq ok
            (take_out-Taken (has_id t.message_id) chat.entries)
            (λ new. replace_entry-Replaced t.message_id new chat.entries)

  remove_target-IsBounded :
      (now : ℕ) (t : Target) (s : Store)
      → IsBounded limits s
      → IsBounded limits (remove_target limits now (some t) s).0
  remove_target-IsBounded now t s h0 =
      go (JsMap.get t.chat_id s'.chats) refl
        (Everywhere-get (IsSound limits) t.chat_id s'.chats h.books.sound)
    where
      s' : Store
      s' = reach limits now t.chat_id s

      h : IsBounded limits s'
      h = reach-IsBounded now t.chat_id s h0

      found :
          (chat : Chat) (o : Option (Entry × List Entry))
          → JsMap.get t.chat_id s'.chats ≡ some chat
          → IsSound limits chat
          → TakenOf (has_id t.message_id) chat.entries o
          → IsBounded limits (remove_entry limits t chat o s').0
      found chat none eq ok taken = h
      found chat (some (e, rest)) eq ok taken =
          if-cases (λ (r : Store × Result). IsBounded limits r.0) (is_other_sender t.sender_xid e) _
            _ (λ y. h)
            (λ n. record {
              books =
                  put_chat-HasBooks limits t.chat_id _ s' h.books.distinct h.books.sound
                    (IsSound-part limits chat rest (chat.bytes - e.bytes) ok taken.part
                      (omega (arith, ok.counted, taken.weighs)))
                    (omega (
                      arith,
                      ap bytes_at eq,
                      ok.counted,
                      taken.weighs,
                      h.books.sums,
                      sum_bytes-delete t.chat_id s'.chats h.books.distinct,
                    ));
              few_chats = omega (arith, h.few_chats, length-put_chat limits t.chat_id _ chat s' eq);
              few_bytes = unfold put_chat in omega (arith, h.few_bytes);
            })

      go :
          (o : Option Chat)
          → JsMap.get t.chat_id s'.chats ≡ o
          → Holds (IsSound limits) o
          → IsBounded limits (remove_in limits t o s').0
      go none eq ok = h
      go (some chat) eq ok =
          found chat (take_out (has_id t.message_id) chat.entries) eq ok
            (take_out-Taken (has_id t.message_id) chat.entries)

  step-IsBounded : (e : Event) (s : Store) → IsBounded limits s → IsBounded limits (step limits e s)
  unfolding step replace remove snapshot clear
  step-IsBounded (appends now id raw) s h = append-IsBounded limits now id raw s h
  step-IsBounded (replaces now none text) s h =
      if-cases (λ (r : Store × Result). IsBounded limits r.0) limits.enabled _ _ (λ y. h) (λ n. h)
  step-IsBounded (replaces now (some t) text) s h =
      if-cases (λ (r : Store × Result). IsBounded limits r.0) limits.enabled _ _
        (λ y. replace_target-IsBounded now t text s h) (λ n. h)
  step-IsBounded (removes now none) s h =
      if-cases (λ (r : Store × Result). IsBounded limits r.0) limits.enabled _ _ (λ y. h) (λ n. h)
  step-IsBounded (removes now (some t)) s h =
      if-cases (λ (r : Store × Result). IsBounded limits r.0) limits.enabled _ _
        (λ y. remove_target-IsBounded now t s h) (λ n. h)
  step-IsBounded (snapshots now none) s h =
      if-cases (λ (r : Store × List Entry). IsBounded limits r.0) limits.enabled _ _ (λ y. h)
        (λ n. h)
  step-IsBounded (snapshots now (some r)) s h =
      if-cases (λ (r : Store × List Entry). IsBounded limits r.0) limits.enabled _ _
        (λ y. reach-IsBounded now r.chat_id s h) (λ n. h)
  step-IsBounded (clears none) s h = h
  step-IsBounded (clears (some id)) s h = remove_chat-IsBounded limits id s h
  step-IsBounded (prunes now) s h = prune-IsBounded limits now s h.books

  run-from : (es : List Event) (s : Store) → IsBounded limits s → IsBounded limits (run limits es s)
  unfolding run
  run-from [] s h = h
  run-from (e ∷ es) s h = run-from es (step limits e s) (step-IsBounded e s h)

  -- In every history of a new store, there are at most as many chats as configured, the store's
  -- count of bytes is the sum over its records and within its bound, every chat is within its bounds
  -- of records and bytes, and in every chat each sender is within the sender's bounds.
  pub run-IsWithin : (es : List Event) → IsBounded limits (run limits es create)
  run-IsWithin es = run-from es create (create-IsBounded limits)

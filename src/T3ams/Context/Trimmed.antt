-- ===== src/T3ams/Context/Trimmed.antt =====
-- The bounds of a store, and `trimGlobal`.
use polkadot_chat_agents.Base.JsMap
use polkadot_chat_agents.Base.JsMap.{
  JsMap, IsDistinct, Absent, IsDistinct-set, IsDistinct-delete, All-delete, get-Absent,
  Absent-of_get, length-delete-le, length-set-le,
}
use polkadot_chat_agents.T3ams.Context.Chat.{Entry, Chat, Limits, Trim}
use polkadot_chat_agents.T3ams.Context.Store.{
  Store, bytes_of, is_empty, put_chat, evict_chats, Candidate, find_candidate, drop_oldest,
  records_of, shrink_by, shrink_round, shrink, trim_global,
}
use polkadot_chat_agents.T3ams.Context.Parts.{IsPart-tail}
use polkadot_chat_agents.T3ams.Context.Fair.{IsSound, IsSound-part}
use polkadot_chat_agents.T3ams.Context.Books.{
  sum_bytes, bytes_at, Holds, Everywhere, Everywhere-get, HasBooks, put_chat-HasBooks,
}
use polkadot_chat_agents.T3ams.Context.Global.{HeadsHave, Finds, find_candidate-Finds}
use polkadot_chat_agents.Base.MapSums.{value_at, sum_of-delete, sum_of-set}
use polkadot_chat_agents.Base.{
  ℕ, zero, suc, ◌-◌, ◌≤◌, String, true, Option, none, some, List, [], ◌∷◌, ◌≡◌, refl, ap, ◌∙◌,
  subst, arith, ltb, length, All, All-imp, if-cases, key_dec, ite, if_pos, if_neg,
}

-- in a map with distinct keys, each entry is what its key finds
All-get :
    (m : JsMap Chat) → IsDistinct m → All (λ (c : String × Chat). JsMap.get c.0 m ≡ some c.1) m
unfolding JsMap.get
All-get [] d = tt
All-get ((j, b) ∷ m) d = (
  if_pos (key_dec j j) refl _ _,
  All-imp _ _ m (λ c h. later c h (key_dec j c.0)) (All-get m d.1),
)
  where
    later :
        (c : String × Chat)
        → JsMap.get c.0 m ≡ some c.1
        → Dec (j ≡ c.0)
        → JsMap.get c.0 ((j, b) ∷ m) ≡ some c.1
    later c h (yes p) = absurd (cc (h, get-Absent c.0 m (subst (λ x. Absent x m) p d.0)))
    later c h (no p) = if_neg (key_dec j c.0) p _ _ ∙ h

-- the oldest record of a chat of the map
abbrev IsIn : JsMap Chat → Candidate → Type 0
IsIn m c = JsMap.get c.id m ≡ some (record { entries = c.entry ∷ c.rest; bytes = c.bytes })

heads-IsIn : (m : JsMap Chat) → IsDistinct m → HeadsHave (IsIn m) m
heads-IsIn m d =
    All-imp _ _ m
      (λ c h e es eq.
        h ∙ ap (λ (xs : List Entry). some (record { entries = xs; bytes = c.1.bytes })) eq)
      (All-get m d)

length-set_present :
    (id : String) (c b : Chat) (m : JsMap Chat)
    → JsMap.get id m ≡ some b
    → length (JsMap.set id c m) ≡ length m
unfolding JsMap.get JsMap.set
length-set_present id c b [] h = absurd (cc h)
length-set_present id c b ((j, a) ∷ m) h = go (key_dec j id) (length-set_present id c b m) h
  where
    go :
        (d : Dec (j ≡ id))
        → (JsMap.get id m ≡ some b → length (JsMap.set id c m) ≡ length m)
        → ite d (some a) (JsMap.get id m) ≡ some b
        → length (ite d ((id, c) ∷ m) ((j, a) ∷ JsMap.set id c m)) ≡ length ((j, a) ∷ m)
    go (yes p) ih h = refl
    go (no p) ih h = ap suc (ih h)

module _ (limits : Limits) where
  pub length-put_chat :
      (id : String) (t : Trim) (b : Chat) (s : Store)
      → JsMap.get id s.chats ≡ some b
      → length (put_chat id t s).chats ≤ length s.chats
  unfolding put_chat
  length-put_chat id t b s h =
      if-cases (λ (m : JsMap Chat). length m ≤ length s.chats) (is_empty t.chat.entries) _ _
        (λ y. length-delete-le id s.chats)
        (λ n. omega (arith, length-set_present id t.chat b s.chats h))

  pub record IsBounded (s : Store) : Type 0 where
    pub books : HasBooks limits s
    pub few_chats : length s.chats ≤ limits.chat_limit
    pub few_bytes : s.total_bytes ≤ limits.total_bytes_limit

  sum_bytes-none :
      (m : JsMap Chat) → Everywhere (IsSound limits) m → records_of m ≡ 0 → sum_bytes m ≡ 0
  sum_bytes-none [] h e = refl
  sum_bytes-none ((j, c) ∷ m) h e = omega (
    arith,
    sum_bytes-none m h.1 (omega (arith, e)),
    h.0.counted,
    no_bytes c.entries (omega (arith, e)),
  )
    where
      no_bytes : (es : List Entry) → length es ≡ 0 → bytes_of es ≡ 0
      no_bytes [] q = refl
      no_bytes (e ∷ es) q = absurd (omega (arith, q))

  -- a round removes a record, or the bytes are within their bound
  abbrev Rounds : Store → Option Store → Type 0
  Rounds s none = s.total_bytes ≤ limits.total_bytes_limit
  Rounds s (some next) =
      HasBooks limits next
      × (records_of s.chats ≡ suc (records_of next.chats))
      × (length next.chats ≤ length s.chats)

  records_of-drop :
      (c : Candidate) (s : Store)
      → HasBooks limits s
      → IsIn s.chats c
      → records_of s.chats ≡ suc (records_of (drop_oldest c s).chats)
  unfolding put_chat
  records_of-drop c s h at =
      if-cases (λ (m : JsMap Chat). records_of s.chats ≡ suc (records_of m)) (is_empty c.rest) _ _
        (λ y. omega (
          arith,
          sum_of-delete weight c.id s.chats h.distinct,
          ap (value_at weight) at,
          no_more c.rest y,
        ))
        (λ n. omega (arith, sum_of-set weight c.id chat s.chats, ap (value_at weight) at))
    where
      weight : Chat → ℕ
      weight x = length x.entries

      chat : Chat
      chat = record { entries = c.rest; bytes = c.bytes - c.entry.bytes }

      no_more : (es : List Entry) → is_empty es ≡ true → length es ≡ 0
      no_more [] q = refl
      no_more (e ∷ es) q = absurd (cc q)

  drop_oldest-HasBooks :
      (c : Candidate) (s : Store)
      → HasBooks limits s
      → IsIn s.chats c
      → HasBooks limits (drop_oldest c s)
  drop_oldest-HasBooks c s h at =
      let ok =
        subst (Holds (IsSound limits)) at (Everywhere-get (IsSound limits) c.id s.chats h.sound) in
      let here = sum_of-delete (λ x. x.bytes) c.id s.chats h.distinct in
      put_chat-HasBooks limits c.id _ s h.distinct h.sound
        (IsSound-part limits _ c.rest (c.bytes - c.entry.bytes) ok (IsPart-tail c.entry c.rest)
          (omega (arith, ok.counted)))
        (omega (arith, h.sums, ok.counted, here, ap bytes_at at))

  shrink_round-Rounds : (s : Store) → HasBooks limits s → Rounds s (shrink_round limits s)
  unfolding shrink_round
  shrink_round-Rounds s h =
      if-cases (Rounds s) (ltb limits.total_bytes_limit s.total_bytes) _ _
        (λ y.
          go (find_candidate s.chats none)
            (find_candidate-Finds (IsIn s.chats) s.chats none (heads-IsIn s.chats h.distinct) tt))
        (λ n. ground (arith, n))
    where
      go : (o : Option Candidate) → Finds (IsIn s.chats) s.chats none o → Rounds s (shrink_by o s)
      go none f = omega (arith, h.sums, sum_bytes-none s.chats h.sound f.1)
      go (some c) at =
          (drop_oldest-HasBooks c s h at, records_of-drop c s h at, length-put_chat c.id _ _ s at)

  shrink-IsBounded :
      (n : ℕ) (s : Store)
      → HasBooks limits s
      → length s.chats ≤ limits.chat_limit
      → records_of s.chats ≤ n
      → IsBounded (shrink limits n s)
  unfolding shrink
  shrink-IsBounded zero s h few fuel = record {
    books = h;
    few_chats = few;
    few_bytes = omega (arith, h.sums, sum_bytes-none s.chats h.sound (omega (arith, fuel)));
  }
  shrink-IsBounded (suc n) s h few fuel =
      go (shrink_round limits s) (shrink_round-Rounds s h) (λ next. shrink-IsBounded n next)
    where
      go :
          (o : Option Store)
          → Rounds s o
          → ((next : Store)
              → HasBooks limits next
              → length next.chats ≤ limits.chat_limit
              → records_of next.chats ≤ n
              → IsBounded (shrink limits n next))
          → IsBounded (elim o [ none ↦ s | some next ↦ shrink limits n next ])
      go none r ih = record { books = h; few_chats = few; few_bytes = r }
      go (some next) r ih = ih next r.0 (omega (arith, r.2, few)) (omega (arith, r.1, fuel))

  -- a map with a count of its bytes
  pub record IsCounted (r : JsMap Chat × ℕ) : Type 0 where
    pub distinct : IsDistinct r.0
    pub sound : Everywhere (IsSound limits) r.0
    pub sums : r.1 ≡ sum_bytes r.0

  pub IsCounted-HasBooks :
      (r : JsMap Chat × ℕ) (s : Store)
      → IsCounted r
      → HasBooks limits (record s { chats = r.0; total_bytes = r.1 })
  IsCounted-HasBooks r s h = record { distinct = h.distinct; sound = h.sound; sums = h.sums }

  pub evict_chats-IsCounted :
      (limit : ℕ) (m : JsMap Chat) (total : ℕ)
      → IsCounted (m, total)
      → IsCounted (evict_chats limit m total) × (length (evict_chats limit m total).0 ≤ limit)
  unfolding evict_chats
  evict_chats-IsCounted limit [] total h = (h, omega arith)
  evict_chats-IsCounted limit ((j, c) ∷ m) total h =
      if-cases (λ (r : JsMap Chat × ℕ). IsCounted r × (length r.0 ≤ limit))
        (ltb limit (length ((j, c) ∷ m))) _ _
        (λ y.
          evict_chats-IsCounted limit m (total - c.bytes)
            (record { distinct = h.distinct.1; sound = h.sound.1; sums = omega (arith, h.sums) }))
        (λ n. (h, ground (arith, n)))

  pub trim_global-IsBounded : (s : Store) → HasBooks limits s → IsBounded (trim_global limits s)
  unfolding trim_global
  trim_global-IsBounded s h =
      let kept =
        evict_chats-IsCounted limits.chat_limit s.chats s.total_bytes
          (record { distinct = h.distinct; sound = h.sound; sums = h.sums }) in
      shrink-IsBounded _ _ (IsCounted-HasBooks _ s kept.0) kept.1 (omega arith)

-- ===== src/T3ams/Context/Global.antt =====
-- Predicates of chats over the loops on all of them.
use polkadot_chat_agents.Base.JsMap.{JsMap}
use polkadot_chat_agents.T3ams.Context.Chat.{Entry, Chat, Limits}
use polkadot_chat_agents.T3ams.Context.Store.{
  Store, Candidate, is_older, better, find_candidate, records_of, shrink_by, shrink_round, shrink,
  trim_global,
}
use polkadot_chat_agents.T3ams.Context.Books.{Everywhere, Everywhere-put, Everywhere-evict}
use polkadot_chat_agents.Base.{
  ℕ, zero, suc, ◌-◌, String, Option, none, some, List, [], ◌∷◌, ◌≡◌, ◌≢◌, refl, subst, arith, ltb,
  length, All, All-imp, if-cases,
}

-- what is true of the oldest record of a chat
abbrev pub HeadsHave : (Candidate → Type 0) → JsMap Chat → Type 0
HeadsHave V = All (λ (c : String × Chat).
    (e : Entry) (es : List Entry)
    → c.1.entries ≡ e ∷ es
    → V (record { id = c.0; entry = e; rest = es; bytes = c.1.bytes }))

module _ (V : Candidate → Type 0) where
  abbrev pub HasCandidate : Option Candidate → Type 0
  HasCandidate none = Unit
  HasCandidate (some c) = V c

  -- the candidate is the oldest record of a chat, or there are no records
  abbrev pub Finds : JsMap Chat → Option Candidate → Option Candidate → Type 0
  Finds m best none = (best ≡ none) × (records_of m ≡ 0)
  Finds m best (some c) = V c

  better-HasCandidate :
      (id : String) (chat : Chat) (es : List Entry) (best : Option Candidate)
      → ((x : Entry) (xs : List Entry)
          → es ≡ x ∷ xs
          → V (record { id = id; entry = x; rest = xs; bytes = chat.bytes }))
      → HasCandidate best
      → HasCandidate (better id chat es best)
  better-HasCandidate id chat [] best h b = b
  better-HasCandidate id chat (e ∷ es) best h b =
      if-cases HasCandidate (is_older e best) _ _ (λ y. h e es refl) (λ n. b)

  better-none :
      (id : String) (chat : Chat) (es : List Entry) (best : Option Candidate)
      → better id chat es best ≡ none
      → (best ≡ none) × (length es ≡ 0)
  better-none id chat [] best h = (h, refl)
  better-none id chat (e ∷ es) none h = absurd (cc h)
  better-none id chat (e ∷ es) (some c) h = absurd (
      if-cases (λ (o : Option Candidate). o ≢ none) (is_older e (some c)) _ _ (λ y p. cc p)
        (λ n p. cc p) h)

  pub find_candidate-Finds :
      (m : JsMap Chat) (best : Option Candidate)
      → HeadsHave V m
      → HasCandidate best
      → Finds m best (find_candidate m best)
  unfolding find_candidate
  find_candidate-Finds [] none h b = (refl, refl)
  find_candidate-Finds [] (some c) h b = b
  find_candidate-Finds ((id, chat) ∷ m) best h b =
      later (find_candidate m (better id chat chat.entries best)) (
        find_candidate-Finds m (better id chat chat.entries best) h.1
          (better-HasCandidate id chat chat.entries best h.0 b))
    where
      later :
          (o : Option Candidate)
          → Finds m (better id chat chat.entries best) o
          → Finds ((id, chat) ∷ m) best o
      later none f =
          let b = better-none id chat chat.entries best f.0 in (b.0, omega (arith, b.1, f.1))
      later (some c) f = f

-- a predicate that a chat without its oldest record still has
module _ (P : Chat → Type 0) (limits : Limits)
    (closed : (e : Entry) (es : List Entry) (bytes : ℕ)
      → P (record { entries = e ∷ es; bytes = bytes })
      → P (record { entries = es; bytes = bytes - e.bytes })) where
  abbrev IsHeadOf : Candidate → Type 0
  IsHeadOf c = P (record { entries = c.entry ∷ c.rest; bytes = c.bytes })

  heads : (m : JsMap Chat) → Everywhere P m → HeadsHave IsHeadOf m
  heads m h =
      All-imp _ _ m
        (λ c p e es eq.
          subst (λ (xs : List Entry). P (record { entries = xs; bytes = c.1.bytes })) eq p)
        h

  abbrev Next : Option Store → Type 0
  Next none = Unit
  Next (some s) = Everywhere P s.chats

  shrink_by-Next :
      (s : Store) (o : Option Candidate)
      → Everywhere P s.chats
      → Finds IsHeadOf s.chats none o
      → Next (shrink_by o s)
  shrink_by-Next s none h f = tt
  shrink_by-Next s (some c) h f = Everywhere-put P c.id _ s (closed c.entry c.rest c.bytes f) h

  shrink_round-Next : (s : Store) → Everywhere P s.chats → Next (shrink_round limits s)
  unfolding shrink_round
  shrink_round-Next s h =
      if-cases Next (ltb limits.total_bytes_limit s.total_bytes) _ _
        (λ y.
          shrink_by-Next s _ h (find_candidate-Finds IsHeadOf s.chats none (heads s.chats h) tt))
        (λ n. tt)

  Everywhere-shrink :
      (n : ℕ) (s : Store) → Everywhere P s.chats → Everywhere P (shrink limits n s).chats
  unfolding shrink
  Everywhere-shrink zero s h = h
  Everywhere-shrink (suc n) s h =
      go (shrink_round limits s) (shrink_round-Next s h) (λ next. Everywhere-shrink n next)
    where
      Goal : Store → Type 0
      Goal s' = Everywhere P s'.chats

      go :
          (o : Option Store)
          → Next o
          → ((next : Store) → Goal next → Goal (shrink limits n next))
          → Goal (elim o [ none ↦ s | some next ↦ shrink limits n next ])
      go none p ih = h
      go (some next) p ih = ih next p

  pub Everywhere-trim_global :
      (s : Store) → Everywhere P s.chats → Everywhere P (trim_global limits s).chats
  unfolding trim_global
  Everywhere-trim_global s h =
      Everywhere-shrink _ _ (Everywhere-evict P limits.chat_limit s.chats s.total_bytes h)

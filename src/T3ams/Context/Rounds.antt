-- ===== src/T3ams/Context/Rounds.antt =====
-- The rounds of the loop of `trimChat` over the senders.
use polkadot_chat_agents.T3ams.Context.Chat.{
  Entry, Limits, Trim, sender_totals, is_from, take_out, find_offender, remove_from, remove_oldest,
  fair_round, trim_senders, totals_from,
}
use polkadot_chat_agents.T3ams.Context.Parts.{TakenOf, take_out-Taken}
use polkadot_chat_agents.Base.{
  ℕ, zero, suc, ◌≤◌, String, Bool, Option, none, some, List, [], ◌∷◌, ◌≡◌, refl, ap, arith, length,
}

-- a round, where there is one, removes a record
abbrev Shortens : Trim → Option Trim → Type 0
Shortens t none = Unit
Shortens t (some next) = length t.chat.entries ≡ suc (length next.chat.entries)

module _ (limits : Limits) where
  fair_round-Shortens : (t : Trim) → Shortens t (fair_round limits t)
  unfolding fair_round
  fair_round-Shortens t = go (find_offender limits (sender_totals t.chat.entries))
    where
      removed :
          (p : Entry → Bool) (o : Option (Entry × List Entry))
          → TakenOf p t.chat.entries o
          → Shortens t (remove_from t o)
      removed p none h = tt
      removed p (some (e, rest)) h = h.one_less

      go : (o : Option String) → Shortens t (remove_oldest limits t o)
      go none = tt
      go (some xid) =
          removed (is_from xid) (take_out (is_from xid) t.chat.entries)
            (take_out-Taken (is_from xid) t.chat.entries)

  empty-ends :
      (t : Trim) (es : List Entry) → length es ≤ 0 → find_offender limits (sender_totals es) ≡ none
  unfolding find_offender totals_from
  empty-ends t [] short = refl
  empty-ends t (e ∷ es) short = absurd (omega (arith, short))

  -- Whatever the chat's records are, the loop of `trimChat` over the senders breaks after at most as
  -- many rounds as the chat has records: after that many or more, there is no further round.
  pub trim_senders-ends :
      (n : ℕ) (t : Trim)
      → length t.chat.entries ≤ n
      → fair_round limits (trim_senders limits n t) ≡ none
  unfolding trim_senders fair_round
  trim_senders-ends zero t short = ap (remove_oldest limits t) (empty-ends t t.chat.entries short)
  trim_senders-ends (suc n) t short =
      go (fair_round limits t) refl (fair_round-Shortens t) (λ next. trim_senders-ends n next)
    where
      Ended : Trim → Type 0
      Ended t' = fair_round limits t' ≡ none

      go :
          (o : Option Trim)
          → fair_round limits t ≡ o
          → Shortens t o
          → ((next : Trim) → length next.chat.entries ≤ n → Ended (trim_senders limits n next))
          → Ended (elim o [ none ↦ t | some next ↦ trim_senders limits n next ])
      go none eq less ih = eq
      go (some next) eq less ih = ih next (omega (arith, less, short))

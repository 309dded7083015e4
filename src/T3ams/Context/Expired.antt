-- ===== src/T3ams/Context/Expired.antt =====
-- The expiry of records.
use polkadot_chat_agents.Base.JsMap.{JsMap, IsDistinct, Absent}
use polkadot_chat_agents.T3ams.Context.Chat.{Entry, Chat, Limits}
use polkadot_chat_agents.T3ams.Context.Store.{
  Store, bytes_of, is_empty, is_expired, expire_chats, prune_expired, receipt_now, prune,
}
use polkadot_chat_agents.T3ams.Context.Parts.{IsPart-keep_if}
use polkadot_chat_agents.T3ams.Context.Fair.{IsSound, IsSound-part}
use polkadot_chat_agents.T3ams.Context.Books.{sum_bytes, Everywhere, HasBooks}
use polkadot_chat_agents.T3ams.Context.Trimmed.{
  IsBounded, IsCounted-HasBooks, trim_global-IsBounded,
}
use polkadot_chat_agents.Base.{
  ℕ, ◌+◌, ◌-◌, String, Bool, true, not, List, [], ◌∷◌, ◌≡◌, refl, arith, keep_if, if-cases,
}

module _ (limits : Limits) where
  -- the records that expire, and those that stay
  bytes_of-split :
      (p : Entry → Bool) (es : List Entry)
      → bytes_of es ≡ bytes_of (keep_if p es) + bytes_of (keep_if (λ e. not (p e)) es)
  bytes_of-split p [] = omega arith
  bytes_of-split p (e ∷ es) = ground (arith, bytes_of-split p es)

  Absent-expire :
      (current : ℕ) (j : String) (m : JsMap Chat) (total : ℕ)
      → Absent j m
      → Absent j (expire_chats limits current m total).0
  unfolding expire_chats
  Absent-expire current j [] total h = tt
  Absent-expire current j ((i, c) ∷ m) total h =
      let kept = keep_if (λ e. not (is_expired limits current e)) c.entries in
      let lost = bytes_of (keep_if (is_expired limits current) c.entries) in
      let rest = expire_chats limits current m (total - lost) in
      if-cases (λ (r : JsMap Chat × ℕ). Absent j r.0) (is_empty kept) rest
        ((i, record { entries = kept; bytes = c.bytes - lost }) ∷ rest.0, rest.1)
        (λ y. Absent-expire current j m (total - lost) h.1)
        (λ n. (h.0, Absent-expire current j m (total - lost) h.1))

  -- the same with the bytes of other chats in the count
  record IsCountedOver (before : ℕ) (r : JsMap Chat × ℕ) : Type 0 where
    distinct : IsDistinct r.0
    sound : Everywhere (IsSound limits) r.0
    sums : r.1 ≡ before + sum_bytes r.0

  empty-weight : (es : List Entry) → is_empty es ≡ true → bytes_of es ≡ 0
  empty-weight [] h = refl
  empty-weight (e ∷ es) h = absurd (cc h)

  expire_chats-IsCounted :
      (current : ℕ) (m : JsMap Chat) (total before : ℕ)
      → IsDistinct m
      → Everywhere (IsSound limits) m
      → total ≡ before + sum_bytes m
      → IsCountedOver before (expire_chats limits current m total)
  unfolding expire_chats
  expire_chats-IsCounted current [] total before d h eq = record {
    distinct = tt;
    sound = tt;
    sums = eq;
  }
  expire_chats-IsCounted current ((i, c) ∷ m) total before d h eq =
      let kept = keep_if (λ e. not (is_expired limits current e)) c.entries in
      let lost = bytes_of (keep_if (is_expired limits current) c.entries) in
      let rest = expire_chats limits current m (total - lost) in
      let split = bytes_of-split (is_expired limits current) c.entries in
      let ih =
        expire_chats-IsCounted current m (total - lost) (before + bytes_of kept) d.1 h.1
          (omega (arith, eq, h.0.counted, split)) in
      if-cases (IsCountedOver before) (is_empty kept) rest
        ((i, record { entries = kept; bytes = c.bytes - lost }) ∷ rest.0, rest.1)
        (λ y. record {
          distinct = ih.distinct;
          sound = ih.sound;
          sums = omega (arith, ih.sums, empty-weight kept y);
        })
        (λ n. record {
          distinct = (Absent-expire current i m (total - lost) d.0, ih.distinct);
          sound = (
            IsSound-part limits c kept (c.bytes - lost) h.0
                (IsPart-keep_if (λ e. not (is_expired limits current e)) c.entries)
                (omega (arith, h.0.counted, split)),
            ih.sound,
          );
          sums = omega (arith, ih.sums, h.0.counted, split);
        })

  pub prune-IsBounded :
      (now : ℕ) (s : Store) → HasBooks limits s → IsBounded limits (prune limits now s)
  unfolding prune prune_expired receipt_now
  prune-IsBounded now s h =
      let kept =
        expire_chats-IsCounted (receipt_now now s).last_receipt_at s.chats s.total_bytes 0
          h.distinct h.sound (omega (arith, h.sums)) in
      trim_global-IsBounded limits _ (
        IsCounted-HasBooks limits _ (receipt_now now s) (record {
          distinct = kept.distinct;
          sound = kept.sound;
          sums = omega (arith, kept.sums);
        }))

-- ===== src/T3ams/Context/Fair.antt =====
-- The trimming of a chat.
use polkadot_chat_agents.Base.JsMap
use polkadot_chat_agents.Base.JsMap.{
  JsMap, IsDistinct, IsDistinct-set, get-set, get-set_ne, get-Absent, Absent,
}
use polkadot_chat_agents.T3ams.Context.Chat.{
  Entry, Chat, Limits, Trim, Total, or_zero, add_entry, totals_from, sender_totals, is_from,
  take_out, is_over, find_offender, remove_from, remove_oldest, fair_round, trim_senders,
  trim_oldest, trim_chat,
}
use polkadot_chat_agents.T3ams.Context.Store.{bytes_of}
use polkadot_chat_agents.T3ams.Context.Parts.{
  IsPart, IsPart-tail, sum_from, count_from, bytes_from, TakenOf, take_out-Taken, is_from-absent,
}
use polkadot_chat_agents.Base.{
  ◌≤◌, ◌-◌, ◌+◌, ◌||◌, zero, suc, ltb, ℕ, String, true, false, Option, none, some, List, [], ◌∷◌,
  ◌≡◌, ◌≢◌, refl, ap, ◌∙◌, subst, arith, length, if-cases, key_dec, if_pos, if_neg,
}

-- the tallies say of each sender what its records amount to
tally-at :
    (xid : String) (e : Entry) (t : Total) (m : JsMap Total)
    → e.sender_xid ≡ xid
    → JsMap.get xid (JsMap.set e.sender_xid t m) ≡ some t
tally-at xid e t m same =
    get-set e.sender_xid xid t m ∙ if_pos (key_dec e.sender_xid xid) same (some t) (JsMap.get xid m)

tally-off :
    (xid : String) (e : Entry) (t : Total) (m : JsMap Total)
    → e.sender_xid ≢ xid
    → JsMap.get xid (JsMap.set e.sender_xid t m) ≡ JsMap.get xid m
tally-off xid e t m other = get-set_ne e.sender_xid xid t m other

totals-sum :
    (value : Total → ℕ) (weight : Entry → ℕ)
    → ((e : Entry) (t : Total) → value (add_entry e t) ≡ value t + weight e)
    → (xid : String) (es : List Entry) (m : JsMap Total)
    → value (or_zero (JsMap.get xid (totals_from m es)))
      ≡ value (or_zero (JsMap.get xid m)) + sum_from weight xid es
unfolding totals_from
totals-sum value weight adds xid [] m = omega arith
totals-sum value weight adds xid (e ∷ es) m =
    go (key_dec e.sender_xid xid)
      (totals-sum value weight adds xid es (JsMap.set e.sender_xid (added e m) m))
  where
    added : Entry → JsMap Total → Total
    added e m = add_entry e (or_zero (JsMap.get e.sender_xid m))

    go :
        Dec (e.sender_xid ≡ xid)
        → value (or_zero (JsMap.get xid (totals_from m (e ∷ es))))
          ≡ value (or_zero (JsMap.get xid (JsMap.set e.sender_xid (added e m) m)))
            + sum_from weight xid es
        → value (or_zero (JsMap.get xid (totals_from m (e ∷ es))))
          ≡ value (or_zero (JsMap.get xid m)) + sum_from weight xid (e ∷ es)
    go (yes same) ih = rw (if_pos (key_dec e.sender_xid xid) same) (
        omega (
          arith,
          ih,
          ap (λ o. value (or_zero o)) (tally-at xid e (added e m) m same),
          adds e (or_zero (JsMap.get e.sender_xid m)),
          ap (λ k. value (or_zero (JsMap.get k m))) same,
        ))
    go (no other) ih =
        rw (if_neg (key_dec e.sender_xid xid) other)
          (omega (arith, ih, ap (λ o. value (or_zero o)) (tally-off xid e (added e m) m other)))

totals-IsDistinct :
    (es : List Entry) (m : JsMap Total) → IsDistinct m → IsDistinct (totals_from m es)
unfolding totals_from
totals-IsDistinct [] m d = d
totals-IsDistinct (e ∷ es) m d =
    totals-IsDistinct es _
      (IsDistinct-set e.sender_xid (add_entry e (or_zero (JsMap.get e.sender_xid m))) m d)

records_of :
    (xid : String) (es : List Entry)
    → (or_zero (JsMap.get xid (sender_totals es))).records ≡ count_from xid es
unfolding JsMap.get
records_of xid es = omega (arith, totals-sum (λ t. t.records) (λ e. 1) (λ e t. refl) xid es [])

weight_of :
    (xid : String) (es : List Entry)
    → (or_zero (JsMap.get xid (sender_totals es))).bytes ≡ bytes_from xid es
unfolding JsMap.get
weight_of xid es = omega (arith, totals-sum (λ t. t.bytes) (λ e. e.bytes) (λ e t. refl) xid es [])

module _ (limits : Limits) where
  abbrev pub IsFair : List Entry → Type 0
  IsFair es =
      (xid : String)
      → (count_from xid es ≤ limits.records_per_sender)
        × (bytes_from xid es ≤ limits.bytes_per_sender)

  abbrev Finds : JsMap Total → Option String → Type 0
  Finds m none = (xid : String) → is_over limits (or_zero (JsMap.get xid m)) ≡ false
  Finds m (some xid) = is_over limits (or_zero (JsMap.get xid m)) ≡ true

  not_over : (o : Option Total) → o ≡ none → is_over limits (or_zero o) ≡ false
  not_over none e = ground arith
  not_over (some t) e = absurd (cc e)

  find_offender-Finds : (m : JsMap Total) → IsDistinct m → Finds m (find_offender limits m)
  unfolding find_offender JsMap.get
  find_offender-Finds [] d = λ xid. not_over none refl
  find_offender-Finds ((k, t) ∷ m) d =
      if-cases (Finds ((k, t) ∷ m)) (is_over limits t) _ _ (λ y. rw (if_pos (key_dec k k) refl) y)
        (λ n. later n (find_offender limits m) (find_offender-Finds m d.1))
    where
      later : is_over limits t ≡ false → (o : Option String) → Finds m o → Finds ((k, t) ∷ m) o
      later n none h = λ xid. elim (key_dec k xid) [
        | yes p ↦ rw (if_pos (key_dec k xid) p) n
        | no p ↦ rw (if_neg (key_dec k xid) p) (h xid)
      ]
      later n (some xid) h = elim (key_dec k xid) [
        | yes p ↦
            absurd (
              cc (h, not_over (JsMap.get xid m) (get-Absent xid m (subst (λ j. Absent j m) p d.0))))
        | no p ↦ rw (if_neg (key_dec k xid) p) h
      ]

  -- a chat whose count is that of its records, and the rest of the store's count
  abbrev IsKept : ℕ → Trim → Type 0
  IsKept other t = (t.chat.bytes ≡ bytes_of t.chat.entries) × (t.total ≡ other + t.chat.bytes)

  -- a round removes a record of a sender that is over its bounds, or there is none
  abbrev Rounds : ℕ → Trim → Option Trim → Type 0
  Rounds other t none = IsFair t.chat.entries
  Rounds other t (some next) =
      IsKept other next × (length t.chat.entries ≡ suc (length next.chat.entries))

  fair_round-Rounds : (other : ℕ) (t : Trim) → IsKept other t → Rounds other t (fair_round limits t)
  unfolding fair_round
  fair_round-Rounds other t h =
      go (find_offender limits (sender_totals t.chat.entries)) (
        find_offender-Finds (sender_totals t.chat.entries) (totals-IsDistinct t.chat.entries [] tt))
    where
      removed :
          (xid : String) (o : Option (Entry × List Entry))
          → Finds (sender_totals t.chat.entries) (some xid)
          → TakenOf (is_from xid) t.chat.entries o
          → Rounds other t (remove_from t o)
      removed xid none over none_from =
          let absent = is_from-absent xid t.chat.entries none_from in
          absurd ground (
            arith,
            over,
            absent.0,
            absent.1,
            records_of xid t.chat.entries,
            weight_of xid t.chat.entries,
          )
      removed xid (some (e, rest)) over taken = (
        (omega (arith, h.0, taken.weighs), omega (arith, h.0, h.1, taken.weighs)),
        taken.one_less,
      )

      go :
          (o : Option String)
          → Finds (sender_totals t.chat.entries) o
          → Rounds other t (remove_oldest limits t o)
      go none fair = λ xid.
          ground (arith, fair xid, records_of xid t.chat.entries, weight_of xid t.chat.entries)
      go (some xid) over =
          removed xid (take_out (is_from xid) t.chat.entries) over
            (take_out-Taken (is_from xid) t.chat.entries)

  trim_senders-IsFair :
      (n : ℕ) (other : ℕ) (t : Trim)
      → IsKept other t
      → length t.chat.entries ≤ n
      → IsKept other (trim_senders limits n t) × IsFair (trim_senders limits n t).chat.entries
  unfolding trim_senders
  trim_senders-IsFair zero other t h short = (h, none_left t.chat.entries short)
    where
      none_left : (es : List Entry) → length es ≤ 0 → IsFair es
      none_left [] s = λ xid. (omega arith, omega arith)
      none_left (e ∷ es) s = absurd (omega (arith, s))
  trim_senders-IsFair (suc n) other t h short =
      go (fair_round limits t) (fair_round-Rounds other t h)
        (λ next. trim_senders-IsFair n other next)
    where
      Goal : Trim → Type 0
      Goal t' = IsKept other t' × IsFair t'.chat.entries

      go :
          (o : Option Trim)
          → Rounds other t o
          → ((next : Trim)
              → IsKept other next
              → length next.chat.entries ≤ n
              → Goal (trim_senders limits n next))
          → Goal (elim o [ none ↦ t | some next ↦ trim_senders limits n next ])
      go none fair ih = (h, fair)
      go (some next) kept ih = ih next kept.0 (omega (arith, kept.1, short))

  IsFair-part : (xs ys : List Entry) → IsPart xs ys → IsFair ys → IsFair xs
  IsFair-part xs ys p fair =
      λ xid. (omega (arith, p.fewer xid, (fair xid).0), omega (arith, p.smaller xid, (fair xid).1))

  -- a chat within the bounds of a chat and of its senders
  pub record IsSound (chat : Chat) : Type 0 where
    pub counted : chat.bytes ≡ bytes_of chat.entries
    pub short : length chat.entries ≤ limits.records_per_chat
    pub light : chat.bytes ≤ limits.bytes_per_chat
    pub fair : IsFair chat.entries

  pub IsSound-part :
      (chat : Chat) (xs : List Entry) (bytes : ℕ)
      → IsSound chat
      → IsPart xs chat.entries
      → bytes ≡ bytes_of xs
      → IsSound (record { entries = xs; bytes = bytes })
  IsSound-part chat xs bytes h p eq = record {
    counted = eq;
    short = omega (arith, h.short, p.shorter);
    light = omega (arith, h.light, h.counted, p.lighter, eq);
    fair = IsFair-part xs chat.entries p h.fair;
  }

  abbrev pub IsTrimmed : ℕ → Trim → Type 0
  IsTrimmed other t = IsSound t.chat × (t.total ≡ other + t.chat.bytes)

  trim_oldest-IsTrimmed :
      (es : List Entry) (bytes total other : ℕ)
      → bytes ≡ bytes_of es
      → total ≡ other + bytes
      → IsFair es
      → IsTrimmed other (trim_oldest limits es bytes total)
  unfolding trim_oldest
  trim_oldest-IsTrimmed [] bytes total other h b fair =
      (record { counted = h; short = omega arith; light = omega (arith, h); fair = fair }, b)
  trim_oldest-IsTrimmed (e ∷ es) bytes total other h b fair =
      if-cases (IsTrimmed other)
        (ltb limits.records_per_chat (length (e ∷ es)) || ltb limits.bytes_per_chat bytes) _ _
        (λ y.
          trim_oldest-IsTrimmed es (bytes - e.bytes) (total - e.bytes) other (omega (arith, h))
            (omega (arith, h, b)) (IsFair-part es (e ∷ es) (IsPart-tail e es) fair))
        (λ n. (
          record { counted = h; short = ground (arith, n); light = ground (arith, n); fair = fair },
          b,
        ))

  -- whatever the records of a chat are, the trimmed chat is within its bounds
  pub trim_chat-IsTrimmed :
      (other : ℕ) (t : Trim)
      → t.chat.bytes ≡ bytes_of t.chat.entries
      → t.total ≡ other + t.chat.bytes
      → IsTrimmed other (trim_chat limits t)
  unfolding trim_chat
  trim_chat-IsTrimmed other t h b =
      let fair = trim_senders-IsFair (length t.chat.entries) other t (h, b) (omega arith) in
      trim_oldest-IsTrimmed _ _ _ other fair.0.0 fair.0.1 fair.1

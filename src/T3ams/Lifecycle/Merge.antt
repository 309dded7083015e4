-- ===== src/T3ams/Lifecycle/Merge.antt =====
-- Operations and replays in any order of arrival: the record against a specification that does
-- not know when the message itself came.
use polkadot_chat_agents.Base.{
  ℕ, String, true, false, Option, none, some, List, [], ◌∷◌, ◌++◌, ◌≡◌, ◌≢◌, refl, ap, sym, ◌∙◌,
  arith, ltb, if◌then◌else◌, Bool-cases, inl, inr, ◌⊎◌, max,
}
use polkadot_chat_agents.T3ams.Lifecycle.Entry.{
  Edit, Entry, blank, see, newer_edit, MessageResult, deleted_message, show_edit, message_result,
  edit_entry, delete_entry, edit_time, or_zero,
}

-- an authenticated operation on the message, and what else arrives for it
pub data Op : Type 0 where
  edit_op : String → ℕ → Op
  delete_op : ℕ → Op

pub data Arrival : Type 0 where
  operation : Op → Arrival
  -- the message's statement once more, with some timestamp
  replayed : ℕ → Arrival

unfoldable pub apply_op : Op → Entry → Entry
unfolding edit_entry delete_entry
apply_op (edit_op text u) e = edit_entry text u e
apply_op (delete_op u) e = delete_entry u e

unfoldable pub apply_ops : List Op → Entry → Entry
apply_ops [] e = e
apply_ops (o ∷ ops) e = apply_ops ops (apply_op o e)

unfoldable pub apply_arrivals : ℕ → List Arrival → Entry → Entry
apply_arrivals now [] e = e
apply_arrivals now (operation o ∷ rest) e = apply_arrivals now rest (apply_op o e)
apply_arrivals now (replayed t ∷ rest) e = apply_arrivals now rest (see e.sender_xid t now e)

abbrev pub operations : List Arrival → List Op
operations [] = []
operations (operation o ∷ rest) = o ∷ operations rest
operations (replayed t ∷ rest) = operations rest

-- The specification. Of the edits later than the message the first with the largest timestamp
-- stands, and of the deletions the latest.
unfoldable pub write : ℕ → Option Edit → Op → Option Edit
write t best (delete_op u) = best
write t best (edit_op text u) =
    if ltb (max t (or_zero (edit_time best))) u
    then some (record { text = text; timestamp = u })
    else best

unfoldable pub remove : Option ℕ → Op → Option ℕ
remove at_time (edit_op text u) = at_time
remove none (delete_op u) = some u
remove (some v) (delete_op u) = some (max v u)

unfoldable pub last_write : ℕ → Option Edit → List Op → Option Edit
unfolding write
last_write t best [] = best
last_write t best (o ∷ ops) = last_write t (write t best o) ops

unfoldable pub last_removal : Option ℕ → List Op → Option ℕ
unfolding remove
last_removal at_time [] = at_time
last_removal at_time (o ∷ ops) = last_removal (remove at_time o) ops

abbrev show_outcome : String → Option ℕ → Option Edit → MessageResult
show_outcome text none best = show_edit text best
show_outcome text (some u) best = deleted_message u

unfoldable pub outcome : ℕ → String → List Op → MessageResult
unfolding last_write last_removal
outcome t text ops = show_outcome text (last_removal none ops) (last_write t none ops)

-- the record holds what the specification has computed so far
record Tracks (t : ℕ) (best : Option Edit) (removal : Option ℕ) (e : Entry) : Type 0 where
  clock : e.message_seen ≡ true → e.message_timestamp ≡ some t
  removed : e.deleted_at ≡ removal
  visible : removal ≡ none → newer_edit (some t) e.edit ≡ best

visible-edit_entry :
    (t : ℕ) (best : Option Edit) (text : String) (u : ℕ) (e : Entry)
    → (e.message_seen ≡ true → e.message_timestamp ≡ some t)
    → e.deleted_at ≡ none
    → newer_edit (some t) e.edit ≡ best
    → newer_edit (some t) (edit_entry text u e).edit ≡ write t best (edit_op text u)
unfolding edit_entry newer_edit write
visible-edit_entry t best text u e clock live shown = go e.edit refl (Bool-cases e.message_seen)
  where
    go :
        (d : Option Edit)
        → e.edit ≡ d
        → (e.message_seen ≡ true) ⊎ (e.message_seen ≡ false)
        → newer_edit (some t) (edit_entry text u e).edit ≡ write t best (edit_op text u)
    go none q (inl s) = ground (arith, clock s)
    go none q (inr s) = ground arith
    go (some d) q (inl s) = ground (arith, clock s)
    go (some d) q (inr s) = ground arith

edit_entry_rest :
    (text : String) (u : ℕ) (e : Entry)
    → ((edit_entry text u e).message_seen ≡ e.message_seen)
      × ((edit_entry text u e).message_timestamp ≡ e.message_timestamp)
      × ((edit_entry text u e).deleted_at ≡ e.deleted_at)
unfolding edit_entry
edit_entry_rest text u e = ground arith

delete_entry_rest :
    (u : ℕ) (e : Entry)
    → ((delete_entry u e).message_seen ≡ e.message_seen)
      × ((delete_entry u e).message_timestamp ≡ e.message_timestamp)
      × ((delete_entry u e).edit ≡ e.edit)
unfolding delete_entry
delete_entry_rest u e = ground arith

remove-delete_entry :
    (u : ℕ) (e : Entry) → (delete_entry u e).deleted_at ≡ remove e.deleted_at (delete_op u)
unfolding delete_entry remove
remove-delete_entry u e = ground arith

remove_some : (removal : Option ℕ) (u : ℕ) → remove removal (delete_op u) ≢ none
unfolding remove
remove_some none u e = cc
remove_some (some v) u e = cc

apply_op-Tracks :
    (t : ℕ) (best : Option Edit) (removal : Option ℕ) (o : Op) (e : Entry)
    → Tracks t best removal e
    → Tracks t (write t best o) (remove removal o) (apply_op o e)
unfolding apply_op
apply_op-Tracks t best removal (edit_op text u) e h =
    let (s, m, d) = edit_entry_rest text u e in
    record {
      clock = λ q. m ∙ h.clock (sym s ∙ q);
      removed = unfold remove in d ∙ h.removed;
      visible =
          unfold remove in
          (λ q. visible-edit_entry t best text u e h.clock (h.removed ∙ q) (h.visible q));
    }
apply_op-Tracks t best removal (delete_op u) e h =
    let (s, m, d) = delete_entry_rest u e in
    record {
      clock = λ q. m ∙ h.clock (sym s ∙ q);
      removed = remove-delete_entry u e ∙ ap (λ g. remove g (delete_op u)) h.removed;
      visible = λ q. absurd (remove_some removal u q);
    }

seen-apply_op : (o : Op) (e : Entry) → (apply_op o e).message_seen ≡ e.message_seen
unfolding apply_op
seen-apply_op (edit_op text u) e = (edit_entry_rest text u e).0
seen-apply_op (delete_op u) e = (delete_entry_rest u e).0

see-Tracks :
    (sender : String) (t now : ℕ) (best : Option Edit) (removal : Option ℕ) (e : Entry)
    → e.message_seen ≡ false
    → Tracks t best removal e
    → Tracks t best removal (see sender t now e)
unfolding see
see-Tracks sender t now best removal e new h = record {
  clock = λ q. rw new refl;
  removed = h.removed;
  visible = h.visible;
}

-- a replay cannot move the clock of the message
replay-Tracks :
    (sender : String) (t t' now : ℕ) (best : Option Edit) (removal : Option ℕ) (e : Entry)
    → e.message_seen ≡ true
    → Tracks t best removal e
    → Tracks t best removal (see sender t' now e)
unfolding see
replay-Tracks sender t t' now best removal e old h = record {
  clock = λ q. rw old (h.clock old);
  removed = h.removed;
  visible = h.visible;
}

apply_ops-Tracks :
    (t : ℕ) (best : Option Edit) (removal : Option ℕ) (ops : List Op) (e : Entry)
    → e.message_seen ≡ false
    → Tracks t best removal e
    → Tracks t (last_write t best ops) (last_removal removal ops) (apply_ops ops e)
      × ((apply_ops ops e).message_seen ≡ false)
unfolding apply_ops last_write last_removal
apply_ops-Tracks t best removal [] e new h = (h, new)
apply_ops-Tracks t best removal (o ∷ ops) e new h =
    apply_ops-Tracks t (write t best o) (remove removal o) ops (apply_op o e)
      (seen-apply_op o e ∙ new) (apply_op-Tracks t best removal o e h)

apply_arrivals-Tracks :
    (t now : ℕ) (best : Option Edit) (removal : Option ℕ) (arrivals : List Arrival) (e : Entry)
    → e.message_seen ≡ true
    → Tracks t best removal e
    → Tracks t
        (last_write t best (operations arrivals))
        (last_removal removal (operations arrivals))
        (apply_arrivals now arrivals e)
      × ((apply_arrivals now arrivals e).message_seen ≡ true)
unfolding apply_arrivals last_write last_removal
apply_arrivals-Tracks t now best removal [] e old h = (h, old)
apply_arrivals-Tracks t now best removal (operation o ∷ rest) e old h =
    apply_arrivals-Tracks t now (write t best o) (remove removal o) rest (apply_op o e)
      (seen-apply_op o e ∙ old) (apply_op-Tracks t best removal o e h)
apply_arrivals-Tracks t now best removal (replayed t' ∷ rest) e old h =
    apply_arrivals-Tracks t now best removal rest (see e.sender_xid t' now e) (unfold see in refl)
      (replay-Tracks e.sender_xid t t' now best removal e old h)

result-Tracks :
    (t : ℕ) (text : String) (best : Option Edit) (removal : Option ℕ) (e : Entry)
    → e.message_seen ≡ true
    → Tracks t best removal e
    → message_result text e ≡ show_outcome text removal best
unfolding message_result
result-Tracks t text best none e old h =
    rw (h.removed, h.clock old, message_result) (ap (show_edit text) (h.visible refl))
result-Tracks t text best (some u) e old h = rw (h.removed, message_result) refl

last_write-append :
    (t : ℕ) (best : Option Edit) (xs ys : List Op)
    → last_write t best (xs ++ ys) ≡ last_write t (last_write t best xs) ys
unfolding last_write
last_write-append t best [] ys = refl
last_write-append t best (x ∷ xs) ys = last_write-append t (write t best x) xs ys

last_removal-append :
    (removal : Option ℕ) (xs ys : List Op)
    → last_removal removal (xs ++ ys) ≡ last_removal (last_removal removal xs) ys
unfolding last_removal
last_removal-append removal [] ys = refl
last_removal-append removal (x ∷ xs) ys = last_removal-append (remove removal x) xs ys

-- However an author's operations and replays of a message are spread before and after its first
-- arrival, the message reads as the specification says of the operations alone: deleted at the
-- latest deletion if there is one, or else the edit with the largest timestamp above the message's
-- (the first to arrive of equals), or else its own text.
pub result-arrivals :
    (sender text : String) (t now : ℕ) (before : List Op) (after : List Arrival)
    → message_result text
        (apply_arrivals now after (see sender t now (apply_ops before (blank sender now))))
      ≡ outcome t text (before ++ operations after)
unfolding outcome
result-arrivals sender text t now before after =
    let start : Tracks t none none (blank sender now) = record {
      clock = λ q. cc;
      removed = refl;
      visible = λ q. unfold newer_edit in refl;
    } in
    let early = apply_ops-Tracks t none none before (blank sender now) refl start in
    let e = see sender t now (apply_ops before (blank sender now)) in
    let seen : e.message_seen ≡ true = unfold see in refl in
    let late =
      apply_arrivals-Tracks t now (last_write t none before) (last_removal none before) after e seen
        (see-Tracks sender t now (last_write t none before) (last_removal none before)
          (apply_ops before (blank sender now)) early.1 early.0) in
    rw (last_write-append, last_removal-append)
      (result-Tracks t text _ _ (apply_arrivals now after e) late.1 late.0)

-- ===== src/T3ams/Lifecycle/Operations.antt =====
-- `applyOperation` and the state file.
use polkadot_chat_agents.Base.JsMap
use polkadot_chat_agents.Base.JsMap.{
  JsMap, IsDistinct, Absent, IsDistinct-set, IsDistinct-delete, All-delete, Absent-delete_self,
  set-Absent,
}
use polkadot_chat_agents.T3ams.Lifecycle.Entry.{
  delete_changed, edit_changed, is_none, is_newer, current_version, edit_entry, delete_entry, Entry,
}
use polkadot_chat_agents.T3ams.Lifecycle.Store.{
  edit_to, delete, other, operation_base, store, operate, operate_on, Limits, Ids, Records,
  Operation, normalize_text, prune, apply_operation,
}
use polkadot_chat_agents.T3ams.Lifecycle.Saved.{has_content}
use polkadot_chat_agents.T3ams.Lifecycle.RoundTrip.{IsSavable}
use Prim.Native.String.{len}
use polkadot_chat_agents.Base.{
  Option-cases, inl, inr, ◌⊎◌, ◌&&◌, subst, leb, ℕ, ◌≤◌, String, Bool, true, false, Option, none,
  some, ◌≡◌, refl, arith, if◌then◌else◌, if-cases, key_dec, if_pos, if_neg,
}
use polkadot_chat_agents.T3ams.Lifecycle.Savable.{
  At, content_edit, content_delete, All-get, Keeps, IsBase, prune-Keeps, touch-Keeps, blank-IsBase,
  savable-IsBase,
}

module _ (limits : Limits) (later : ℕ) where
  -- a text that `normalizeText` passes
  abbrev Short : Option String → Type 0
  Short none = Unit
  Short (some body) = len body ≤ limits.max_text_bytes

  normalize_text-Short : (text : String) → Short (normalize_text limits text)
  unfolding normalize_text
  normalize_text-Short text =
      if-cases Short (leb (len text) limits.max_text_bytes) _ _ (λ y. ground (arith, y)) (λ n. tt)

  -- the record with its content, or without and open to an edit
  record IsReady (e : Entry) : Type 0 where
    base : IsBase limits later e
    edits :
        (t : ℕ)
        → (has_content e.message_seen e.edit e.deleted_at ≡ true)
          ⊎ ((is_none e.deleted_at && is_newer t (current_version e)) ≡ true)

  abbrev Ready : Option Entry → Type 0
  Ready none = Unit
  Ready (some e) = IsReady e

  operation_base-Ready :
      (xid : String) (now : ℕ) (o : Option Entry)
      → At (λ e. (k : String) × IsSavable limits later (k, e)) o
      → Ready (operation_base limits xid now o)
  unfolding operation_base current_version
  operation_base-Ready xid now none h = record {
    base = blank-IsBase limits later xid now;
    edits = λ t. inr refl;
  }
  operation_base-Ready xid now (some e) h = elim (key_dec e.sender_xid xid) [
    | yes p ↦
        rw (if_pos (key_dec e.sender_xid xid) p)
          (record { base = savable-IsBase limits later e h; edits = λ t. inl h.1.content })
    | no p ↦ rw (if_neg (key_dec e.sender_xid xid) p) tt
  ]

  store-Keeps :
      (now : ℕ) (key : String) (changed : Bool) (e : Entry) (m : Records)
      → now ≤ later
      → IsBase limits later e
      → has_content e.message_seen e.edit e.deleted_at ≡ true
      → Keeps limits later m
      → Keeps limits later (store limits now key changed e m).0
  unfolding store
  store-Keeps now key changed e m le base content h =
      touch-Keeps limits later key _ m
        (record { timed = base.timed; content = content; short = base.short; past = le }) h

  -- the record after an operation
  abbrev IsDone : Entry → Type 0
  IsDone e = IsBase limits later e × (has_content e.message_seen e.edit e.deleted_at ≡ true)

  edit_entry-IsDone :
      (body : String) (t : ℕ) (e : Entry)
      → len body ≤ limits.max_text_bytes
      → IsReady e
      → IsDone (edit_entry body t e)
  unfolding edit_entry
  edit_entry-IsDone body t e short h =
      if-cases IsDone (is_none e.deleted_at && is_newer t (current_version e)) _ _
        (λ y. (
          record { timed = h.base.timed; short = short },
          content_edit e.message_seen _ e.deleted_at,
        ))
        (λ n. (h.base, content n (h.edits t)))
    where
      content :
          (is_none e.deleted_at && is_newer t (current_version e)) ≡ false
          → (has_content e.message_seen e.edit e.deleted_at ≡ true)
            ⊎ ((is_none e.deleted_at && is_newer t (current_version e)) ≡ true)
          → has_content e.message_seen e.edit e.deleted_at ≡ true
      content n (inl c) = c
      content n (inr y) = absurd (cc (n, y))

  delete_entry-IsDone : (t : ℕ) (e : Entry) → IsBase limits later e → IsDone (delete_entry t e)
  unfolding delete_entry
  delete_entry-IsDone t e h = go e.deleted_at refl
    where
      done : (at_time : ℕ) → IsDone (record e { deleted_at = some at_time })
      done at_time = (
        record { timed = h.timed; short = h.short },
        content_delete e.message_seen e.edit at_time,
      )

      go :
          (o : Option ℕ)
          → e.deleted_at ≡ o
          → IsDone (elim o [
            | none ↦ record e { deleted_at = some t }
            | some prior ↦ if leb prior t then record e { deleted_at = some t } else e
          ])
      go none eq = done t
      go (some prior) eq =
          if-cases IsDone (leb prior t) _ _ (λ y. done t)
            (λ n. (h, rw eq (content_delete e.message_seen e.edit prior)))

  operate-Keeps :
      (now : ℕ) (ids : Ids) (op : Operation) (t : ℕ) (e : Entry) (m : Records)
      → now ≤ later
      → IsReady e
      → Keeps limits later m
      → Keeps limits later (operate limits now ids op t e m).0
  unfolding operate
  operate-Keeps now ids (edit_to text) t e m le r h =
      elim (Option-cases (normalize_text limits text)) [
        | inl bad ↦ rw (bad, operate) h
        | inr (body, ok) ↦
            let done = edit_entry-IsDone body t e (subst Short ok (normalize_text-Short text)) r in
            rw (ok, operate)
              (store-Keeps now ids.key (edit_changed body t e) _ m le done.0 done.1 h)
      ]
  operate-Keeps now ids delete t e m le r h =
      let done = delete_entry-IsDone t e r.base in
      store-Keeps now ids.key (delete_changed t e) _ m le done.0 done.1 h
  operate-Keeps now ids other t e m le r h = h

  operate_on-Keeps :
      (now : ℕ) (ids : Ids) (op : Operation) (t : ℕ) (o : Option Entry) (m : Records)
      → now ≤ later
      → Ready o
      → Keeps limits later m
      → Keeps limits later (operate_on limits now ids op t o m).0
  unfolding operate_on
  operate_on-Keeps now ids op t none m le r h = h
  operate_on-Keeps now ids op t (some e) m le r h = operate-Keeps now ids op t e m le r h

  based_on :
      (now : ℕ) (ids : Ids) (m : Records)
      → Keeps limits later m
      → Ready (operation_base limits ids.sender_xid now (JsMap.get ids.key m))
  based_on now ids m h = operation_base-Ready ids.sender_xid now _ (All-get _ ids.key m h.savable)

  pub apply_operation-Keeps :
      (now : ℕ) (ids : Option Ids) (op : Operation) (t : Option ℕ) (m : Records)
      → now ≤ later
      → Keeps limits later m
      → Keeps limits later (apply_operation limits now ids op t m).0
  unfolding apply_operation
  apply_operation-Keeps now none op t m le h = prune-Keeps limits later now m h
  apply_operation-Keeps now (some ids) op none m le h = prune-Keeps limits later now m h
  apply_operation-Keeps now (some ids) other (some t) m le h = prune-Keeps limits later now m h
  apply_operation-Keeps now (some ids) (edit_to text) (some t) m le h =
      let kept = prune-Keeps limits later now m h in
      operate_on-Keeps now ids (edit_to text) t _ (prune limits now m) le (based_on now ids _ kept)
        kept
  apply_operation-Keeps now (some ids) delete (some t) m le h =
      let kept = prune-Keeps limits later now m h in
      operate_on-Keeps now ids delete t _ (prune limits now m) le (based_on now ids _ kept) kept

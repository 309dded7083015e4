-- ===== src/T3ams/Lifecycle/Savable.antt =====
-- `applyMessage` and the state file.
use polkadot_chat_agents.Base.JsMap
use polkadot_chat_agents.Base.JsMap.{
  JsMap, IsDistinct, Absent, IsDistinct-set, IsDistinct-delete, All-delete, Absent-delete_self,
  set-Absent,
}
use polkadot_chat_agents.T3ams.Lifecycle.Entry.{Edit, Entry, blank, message_base, see}
use polkadot_chat_agents.T3ams.Lifecycle.Store.{
  Limits, Ids, Records, normalize_text, touch, prune, drop_expired, receive, apply_message,
}
use polkadot_chat_agents.T3ams.Lifecycle.Saved.{is_timed, has_content}
use polkadot_chat_agents.T3ams.Lifecycle.RoundTrip.{
  IsShort, IsSavable, IsDistinct-keep_if, All-keep_if, IsDistinct-trim, All-trim,
}
use polkadot_chat_agents.Base.{
  Option-cases, inl, inr, subst, ℕ, ◌≤◌, String, Bool, true, false, Option, none, some, [], ◌∷◌,
  ◌≡◌, refl, sym, ◌==◌, All, All-append, if◌then◌else◌, if-cases, key_dec, if_pos, if_neg,
}

timed_after :
    (seen : Bool) (stamp : Option ℕ) (t : ℕ)
    → is_timed seen stamp ≡ true
    → is_timed true (if seen then stamp else some t) ≡ true
timed_after true stamp t h = h
timed_after false stamp t h = refl

pub content_edit :
    (seen : Bool) (e : Edit) (deleted : Option ℕ) → has_content seen (some e) deleted ≡ true
content_edit true e deleted = refl
content_edit false e deleted = refl

pub content_delete :
    (seen : Bool) (edit : Option Edit) (t : ℕ) → has_content seen edit (some t) ≡ true
content_delete true edit t = refl
content_delete false none t = refl
content_delete false (some e) t = refl

-- what is at the key, under the predicate
abbrev pub At : (Entry → Type 0) → Option Entry → Type 0
At P none = Unit
At P (some e) = P e

pub All-get :
    (P : String × Entry → Type 0) (key : String) (m : Records)
    → All P m
    → At (λ e. (k : String) × P (k, e)) (JsMap.get key m)
unfolding JsMap.get
All-get P key [] h = tt
All-get P key ((j, e) ∷ m) h = elim (key_dec j key) [
  | yes p ↦ rw (if_pos (key_dec j key) p) (j, h.0)
  | no p ↦ rw (if_neg (key_dec j key) p) (All-get P key m h.1)
]

module _ (limits : Limits) (later : ℕ) where
  pub record Keeps (m : Records) : Type 0 where
    pub distinct : IsDistinct m
    pub savable : All (IsSavable limits later) m

  pub prune-Keeps : (now : ℕ) (m : Records) → Keeps m → Keeps (prune limits now m)
  unfolding prune drop_expired
  prune-Keeps now m h =
      if-cases Keeps (limits.ttl_ms == 0) _ _ (λ y. record { distinct = tt; savable = tt })
        (λ n. record {
          distinct = IsDistinct-trim limits _ (IsDistinct-keep_if limits _ m h.distinct);
          savable = All-trim limits _ _ (All-keep_if limits _ _ m h.savable);
        })

  pub touch-Keeps :
      (key : String) (e : Entry) (m : Records)
      → IsSavable limits later (key, e)
      → Keeps m
      → Keeps (touch limits key e m)
  unfolding touch
  touch-Keeps key e m ok h =
      let d = IsDistinct-delete key m h.distinct in
      let all = All-delete (IsSavable limits later) key m h.savable in
      let eq = set-Absent key e (JsMap.delete key m) (Absent-delete_self key m) in
      record {
        distinct = IsDistinct-trim limits _ (IsDistinct-set key e (JsMap.delete key m) d);
        savable = All-trim limits (IsSavable limits later) _ (
            subst (All (IsSavable limits later)) (sym eq) (
              All-append (IsSavable limits later) (JsMap.delete key m) ((key, e) ∷ []) all
                (ok, tt)));
      }

  -- the record that a call starts from
  pub record IsBase (e : Entry) : Type 0 where
    pub timed : is_timed e.message_seen e.message_timestamp ≡ true
    pub short : IsShort limits e.edit

  pub blank-IsBase : (xid : String) (now : ℕ) → IsBase (blank xid now)
  blank-IsBase xid now = record { timed = refl; short = tt }

  pub savable-IsBase : (e : Entry) → (k : String) × IsSavable limits later (k, e) → IsBase e
  savable-IsBase e (k, h) = record { timed = h.timed; short = h.short }

  message_base-IsBase :
      (xid : String) (now : ℕ) (o : Option Entry)
      → At (λ e. (k : String) × IsSavable limits later (k, e)) o
      → IsBase (message_base xid now o)
  unfolding message_base
  message_base-IsBase xid now none h = blank-IsBase xid now
  message_base-IsBase xid now (some e) h = elim (key_dec e.sender_xid xid) [
    | yes p ↦ rw (if_pos (key_dec e.sender_xid xid) p) (savable-IsBase e h)
    | no p ↦ rw (if_neg (key_dec e.sender_xid xid) p) (blank-IsBase xid now)
  ]

  receive-Keeps :
      (now : ℕ) (ids : Ids) (text : String) (t : ℕ) (m : Records)
      → now ≤ later
      → Keeps m
      → Keeps (receive limits now ids text t m).0
  unfolding receive see
  receive-Keeps now ids text t m le h =
      let base =
        message_base-IsBase ids.sender_xid now (JsMap.get ids.key m)
          (All-get _ ids.key m h.savable) in
      touch-Keeps ids.key _ m
        (record {
          timed = timed_after _ _ t base.timed;
          content = refl;
          short = base.short;
          past = le;
        })
        h

  pub apply_message-Keeps :
      (now : ℕ) (ids : Option Ids) (text : String) (t : Option ℕ) (m : Records)
      → now ≤ later
      → Keeps m
      → Keeps (apply_message limits now ids text t m).0
  unfolding apply_message
  apply_message-Keeps now none text t m le h = prune-Keeps now m h
  apply_message-Keeps now (some ids) text none m le h = prune-Keeps now m h
  apply_message-Keeps now (some ids) text (some t) m le h =
      elim (Option-cases (normalize_text limits text)) [
        | inl bad ↦ rw (bad, apply_message) (prune-Keeps now m h)
        | inr (body, ok) ↦
            rw (ok, apply_message)
              (receive-Keeps now ids body t (prune limits now m) le (prune-Keeps now m h))
      ]

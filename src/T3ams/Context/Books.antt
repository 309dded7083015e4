-- ===== src/T3ams/Context/Books.antt =====
-- The accounts of the store: its count of bytes and its chats.
use polkadot_chat_agents.Base.JsMap
use polkadot_chat_agents.Base.JsMap.{
  JsMap, IsDistinct, Absent, IsDistinct-set, IsDistinct-delete, All-delete, get-Absent,
  Absent-of_get, length-delete-le, length-set-le, Absent-delete_self, get-delete_self,
  get-delete_ne, get-set_self, get-set_ne,
}
use polkadot_chat_agents.T3ams.Context.Chat.{Entry, Chat, Limits, Trim}
use polkadot_chat_agents.T3ams.Context.Store.{
  Store, bytes_of, is_empty, put_chat, remove_found, remove_chat, touch_found, touch, evict_chats,
}
use polkadot_chat_agents.T3ams.Context.Fair.{IsSound}
use polkadot_chat_agents.Base.MapSums.{sum_of, value_at, sum_of-delete, sum_of-set}
use polkadot_chat_agents.Base.{
  ℕ, ◌+◌, ◌-◌, String, true, Option, none, some, List, [], ◌∷◌, ◌≡◌, refl, ap, arith, ltb, length,
  All, if-cases, key_dec, if_pos, if_neg,
}

abbrev pub sum_bytes : JsMap Chat → ℕ
sum_bytes = sum_of (λ chat. chat.bytes)

abbrev pub bytes_at : Option Chat → ℕ
bytes_at = value_at (λ chat. chat.bytes)

-- what is at the key, under the predicate
abbrev pub Holds {κ} : (Chat → Type κ) → Option Chat → Type κ
Holds P none = Unit
Holds P (some chat) = P chat

pub sum_bytes-delete :
    (id : String) (m : JsMap Chat)
    → IsDistinct m
    → sum_bytes m ≡ bytes_at (JsMap.get id m) + sum_bytes (JsMap.delete id m)
sum_bytes-delete = sum_of-delete (λ chat. chat.bytes)

pub sum_bytes-set :
    (id : String) (c : Chat) (m : JsMap Chat)
    → bytes_at (JsMap.get id m) + sum_bytes (JsMap.set id c m) ≡ c.bytes + sum_bytes m
sum_bytes-set = sum_of-set (λ chat. chat.bytes)

module _ {κ} (P : Chat → Type κ) where
  abbrev pub Everywhere : JsMap Chat → Type κ
  Everywhere = All (λ (e : String × Chat). P e.1)

  pub Everywhere-get : (id : String) (m : JsMap Chat) → Everywhere m → Holds P (JsMap.get id m)
  unfolding JsMap.get
  Everywhere-get id [] h = tt
  Everywhere-get id ((j, c) ∷ m) h = elim (key_dec j id) [
    | yes p ↦ rw (if_pos (key_dec j id) p) h.0
    | no p ↦ rw (if_neg (key_dec j id) p) (Everywhere-get id m h.1)
  ]

  pub Everywhere-set :
      (id : String) (c : Chat) (m : JsMap Chat) → P c → Everywhere m → Everywhere (JsMap.set id c m)
  unfolding JsMap.set
  Everywhere-set id c [] pc h = (pc, tt)
  Everywhere-set id c ((j, b) ∷ m) pc h = elim (key_dec j id) [
    | yes p ↦ rw (if_pos (key_dec j id) p) (pc, h.1)
    | no p ↦ rw (if_neg (key_dec j id) p) (h.0, Everywhere-set id c m pc h.1)
  ]

  pub Everywhere-delete :
      (id : String) (m : JsMap Chat) → Everywhere m → Everywhere (JsMap.delete id m)
  Everywhere-delete id m h = All-delete (λ (e : String × Chat). P e.1) id m h

  pub Everywhere-evict :
      (limit : ℕ) (m : JsMap Chat) (total : ℕ)
      → Everywhere m
      → Everywhere (evict_chats limit m total).0
  unfolding evict_chats
  Everywhere-evict limit [] total h = tt
  Everywhere-evict limit ((j, c) ∷ m) total h =
      if-cases (λ (r : JsMap Chat × ℕ). Everywhere r.0) (ltb limit (length ((j, c) ∷ m))) _ _
        (λ y. Everywhere-evict limit m (total - c.bytes) h.1) (λ n. h)

  pub Everywhere-touch : (id : String) (m : JsMap Chat) → Everywhere m → Everywhere (touch id m)
  unfolding touch
  Everywhere-touch id m h = go (JsMap.get id m) (Everywhere-get id m h)
    where
      go : (o : Option Chat) → Holds P o → Everywhere (touch_found id o m)
      go none p = h
      go (some c) p = Everywhere-set id c (JsMap.delete id m) p (Everywhere-delete id m h)

  pub Everywhere-put :
      (id : String) (t : Trim) (s : Store)
      → P t.chat
      → Everywhere s.chats
      → Everywhere (put_chat id t s).chats
  unfolding put_chat
  Everywhere-put id t s pc h =
      if-cases Everywhere (is_empty t.chat.entries) _ _ (λ y. Everywhere-delete id s.chats h)
        (λ n. Everywhere-set id t.chat s.chats pc h)

module _ (limits : Limits) where
  pub record HasBooks (s : Store) : Type 0 where
    pub distinct : IsDistinct s.chats
    pub sound : Everywhere (IsSound limits) s.chats
    pub sums : s.total_bytes ≡ sum_bytes s.chats

  empty-bytes : (es : List Entry) → is_empty es ≡ true → bytes_of es ≡ 0
  empty-bytes [] h = refl
  empty-bytes (e ∷ es) h = absurd (cc h)

  -- a chat put back with its bytes in the store's count
  pub put_chat-HasBooks :
      (id : String) (t : Trim) (s : Store)
      → IsDistinct s.chats
      → Everywhere (IsSound limits) s.chats
      → IsSound limits t.chat
      → t.total + bytes_at (JsMap.get id s.chats) ≡ sum_bytes s.chats + t.chat.bytes
      → HasBooks (put_chat id t s)
  unfolding put_chat
  put_chat-HasBooks id t s d h ok eq =
      if-cases (λ (m : JsMap Chat). HasBooks (record s { chats = m; total_bytes = t.total }))
        (is_empty t.chat.entries) _ _
        (λ y. record {
          distinct = IsDistinct-delete id s.chats d;
          sound = Everywhere-delete (IsSound limits) id s.chats h;
          sums =
              omega (
                arith,
                eq,
                ok.counted,
                empty-bytes t.chat.entries y,
                sum_bytes-delete id s.chats d,
              );
        })
        (λ n. record {
          distinct = IsDistinct-set id t.chat s.chats d;
          sound = Everywhere-set (IsSound limits) id t.chat s.chats ok h;
          sums = omega (arith, eq, sum_bytes-set id t.chat s.chats);
        })

  pub remove_chat-HasBooks : (id : String) (s : Store) → HasBooks s → HasBooks (remove_chat id s).0
  unfolding remove_chat
  remove_chat-HasBooks id s h = go (JsMap.get id s.chats) refl
    where
      go : (o : Option Chat) → JsMap.get id s.chats ≡ o → HasBooks (remove_found id o s).0
      go none eq = h
      go (some c) eq = record {
        distinct = IsDistinct-delete id s.chats h.distinct;
        sound = Everywhere-delete (IsSound limits) id s.chats h.sound;
        sums = omega (arith, h.sums, sum_bytes-delete id s.chats h.distinct, ap bytes_at eq);
      }

  pub touch-HasBooks :
      (id : String) (s : Store) → HasBooks s → HasBooks (record s { chats = touch id s.chats })
  unfolding touch
  touch-HasBooks id s h =
      go (JsMap.get id s.chats) refl (Everywhere-get (IsSound limits) id s.chats h.sound)
    where
      go :
          (o : Option Chat)
          → JsMap.get id s.chats ≡ o
          → Holds (IsSound limits) o
          → HasBooks (record s { chats = touch_found id o s.chats })
      go none eq ok = h
      go (some c) eq ok = record {
        distinct = IsDistinct-set id c _ (IsDistinct-delete id s.chats h.distinct);
        sound =
            Everywhere-set (IsSound limits) id c _ ok
              (Everywhere-delete (IsSound limits) id s.chats h.sound);
        sums = omega (
          arith,
          h.sums,
          sum_bytes-delete id s.chats h.distinct,
          ap bytes_at eq,
          sum_bytes-set id c (JsMap.delete id s.chats),
          ap bytes_at (get-delete_self id s.chats),
        );
      }

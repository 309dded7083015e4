-- ===== src/T3ams/KnownChats/Note.antt =====
-- `trim` and `note` for their callers.
use polkadot_chat_agents.Base.{
  key_dec, none, ℕ, zero, suc, ◌-◌, ◌≤◌, String, Bool, true, some, [], ◌∷◌, ◌++◌, ◌≡◌, ◌≢◌, refl,
  arith, length, if◌then◌else◌, Bool-cases, inl, inr, if_neg, max, ◌∙◌, sym, subst,
}
use polkadot_chat_agents.Base.JsMap
use polkadot_chat_agents.Base.JsMap.{JsMap, IsDistinct, Absent}
use polkadot_chat_agents.T3ams.KnownChats.{KnownChats, trim, note}
use polkadot_chat_agents.T3ams.KnownChats.Eviction.{drop_oldest, trim_loop-drop_oldest}

-- how many of the chats are protected
pub protected_count : (String → Bool) → JsMap Bool → ℕ
protected_count p [] = 0
protected_count p ((k, v) ∷ m) = if p k then suc (protected_count p m) else protected_count p m

-- the entries once `chat_id` is the newest one
abbrev pub touched : KnownChats → String → JsMap Bool
touched s chat_id = JsMap.delete chat_id s.chats ++ (chat_id, true) ∷ []

Absent-append : (k : String) (m n : JsMap Bool) → Absent k m → Absent k n → Absent k (m ++ n)
Absent-append k [] n hm hn = hn
Absent-append k ((j, v) ∷ m) n hm hn = (hm.0, Absent-append k m n hm.1 hn)

IsDistinct-snoc :
    (k : String) (v : Bool) (m : JsMap Bool)
    → Absent k m
    → IsDistinct m
    → IsDistinct (m ++ (k, v) ∷ [])
IsDistinct-snoc k v [] a d = (tt, tt)
IsDistinct-snoc k v ((j, w) ∷ m) a d =
    (Absent-append j m ((k, v) ∷ []) d.0 ((λ e. a.0 (sym e)), tt), IsDistinct-snoc k v m a.1 d.1)

touched-IsDistinct :
    (s : KnownChats) (chat_id : String) → IsDistinct s.chats → IsDistinct (touched s chat_id)
touched-IsDistinct s chat_id d =
    IsDistinct-snoc chat_id true (JsMap.delete chat_id s.chats)
      (JsMap.Absent-delete_self chat_id s.chats) (JsMap.IsDistinct-delete chat_id s.chats d)

module _ (p : String → Bool) where
  length-drop_oldest-le :
      (n : ℕ) (m : JsMap Bool)
      → length (drop_oldest n p m) ≤ max (length m - n) (protected_count p m)
  unfolding drop_oldest protected_count
  length-drop_oldest-le zero m = omega arith
  length-drop_oldest-le (suc n) [] = omega arith
  length-drop_oldest-le (suc n) ((k, v) ∷ m) =
      ground (arith, length-drop_oldest-le (suc n) m, length-drop_oldest-le n m)

  protected_count-drop_oldest :
      (n : ℕ) (m : JsMap Bool) → protected_count p (drop_oldest n p m) ≡ protected_count p m
  unfolding drop_oldest protected_count
  protected_count-drop_oldest zero m = refl
  protected_count-drop_oldest (suc n) [] = refl
  protected_count-drop_oldest (suc n) ((k, v) ∷ m) =
      ground (arith, protected_count-drop_oldest (suc n) m, protected_count-drop_oldest n m)

  get-drop_oldest_protected :
      (n : ℕ) (k : String) (m : JsMap Bool)
      → p k ≡ true
      → JsMap.get k (drop_oldest n p m) ≡ JsMap.get k m
  unfolding drop_oldest JsMap.get
  get-drop_oldest_protected zero k m h = refl
  get-drop_oldest_protected (suc n) k [] h = refl
  get-drop_oldest_protected (suc n) k ((j, v) ∷ m) h =
      ground (arith, get-drop_oldest_protected (suc n) k m, get-drop_oldest_protected n k m)

  Absent-drop_oldest :
      (n : ℕ) (k : String) (m : JsMap Bool) → Absent k m → Absent k (drop_oldest n p m)
  unfolding drop_oldest
  Absent-drop_oldest zero k m h = h
  Absent-drop_oldest (suc n) k [] h = tt
  Absent-drop_oldest (suc n) k ((j, v) ∷ m) h = elim (Bool-cases (p j)) [
    | inl e ↦ rw (e, drop_oldest) (h.0, Absent-drop_oldest (suc n) k m h.1)
    | inr e ↦ rw (e, drop_oldest) (Absent-drop_oldest n k m h.1)
  ]

  IsDistinct-drop_oldest : (n : ℕ) (m : JsMap Bool) → IsDistinct m → IsDistinct (drop_oldest n p m)
  unfolding drop_oldest
  IsDistinct-drop_oldest zero m h = h
  IsDistinct-drop_oldest (suc n) [] h = tt
  IsDistinct-drop_oldest (suc n) ((j, v) ∷ m) h = elim (Bool-cases (p j)) [
    | inl e ↦
        rw (e, drop_oldest)
          (Absent-drop_oldest (suc n) j m h.0, IsDistinct-drop_oldest (suc n) m h.1)
    | inr e ↦ rw (e, drop_oldest) (IsDistinct-drop_oldest n m h.1)
  ]

  -- Over distinct chats, `trim` drops exactly the oldest unprotected chats, as many as the list
  -- exceeds its limit by, or all of them where they are fewer; the order stays.
  pub trim-drop_oldest :
      (s : KnownChats)
      → IsDistinct s.chats
      → (trim p s).chats ≡ drop_oldest (length s.chats - s.limit) p s.chats
  unfolding trim
  trim-drop_oldest s d = trim_loop-drop_oldest p (length s.chats) s.limit s.chats d (omega arith)

  module _ (valid : String → Bool) (s : KnownChats) (chat_id : String) where
    chats-note :
        IsDistinct s.chats
        → valid chat_id ≡ true
        → (note p valid s chat_id).0.chats
          ≡ drop_oldest (length (touched s chat_id) - s.limit) p (touched s chat_id)
    unfolding note
    chats-note d ok =
        let appended =
          JsMap.set-Absent chat_id true (JsMap.delete chat_id s.chats)
            (JsMap.Absent-delete_self chat_id s.chats) in
        rw (ok, appended)
          (trim_loop-drop_oldest p (length (touched s chat_id)) s.limit (touched s chat_id)
            (touched-IsDistinct s chat_id d) (omega arith))

    touched_ne : (k : String) → k ≢ chat_id → JsMap.get k (touched s chat_id) ≡ JsMap.get k s.chats
    touched_ne k ne =
        let ne' : chat_id ≢ k = λ e. ne (sym e) in
        JsMap.get-snoc_ne k chat_id true (JsMap.delete chat_id s.chats) ne'
        ∙ JsMap.get-delete chat_id k s.chats
        ∙ if_neg (key_dec chat_id k) ne' none (JsMap.get k s.chats)

    touched_self : JsMap.get chat_id (touched s chat_id) ≡ some true
    touched_self =
        JsMap.get-snoc_self chat_id true (JsMap.delete chat_id s.chats)
          (JsMap.Absent-delete_self chat_id s.chats)

    flag-note :
        IsDistinct s.chats
        → valid chat_id ≡ true
        → JsMap.get chat_id (note p valid s chat_id).0.chats ≡ some true
        → (note p valid s chat_id).1 ≡ true
    unfolding note JsMap.has
    flag-note d ok = ground arith

    -- A call of `note` keeps the chats distinct, and leaves no more of them than the limit, or
    -- than there are protected ones where these are more; a list that was within that bound for
    -- the same protection stays so where the chat id is refused.
    pub note-IsBounded :
        IsDistinct s.chats
        → length s.chats ≤ max s.limit (protected_count p s.chats)
        → IsDistinct (note p valid s chat_id).0.chats
          × (length (note p valid s chat_id).0.chats
              ≤ max s.limit (protected_count p (note p valid s chat_id).0.chats))
    note-IsBounded d h = elim (Bool-cases (valid chat_id)) [
      | inl ok ↦
          let m = touched s chat_id in
          let n = length m - s.limit in
          rw (chats-note d ok) (
            IsDistinct-drop_oldest n m (touched-IsDistinct s chat_id d),
            rw (protected_count-drop_oldest n m) (omega (arith, length-drop_oldest-le n m)),
          )
      | inr bad ↦ unfold note in rw bad (d, h)
    ]

    -- A protected chat survives every `note`: an accepted call keeps the entry of each protected
    -- chat other than its own, and where its own chat is protected it stores it and answers true.
    pub note-protected :
        (k : String)
        → IsDistinct s.chats
        → valid chat_id ≡ true
        → p k ≡ true
        → (k ≢ chat_id → JsMap.get k (note p valid s chat_id).0.chats ≡ JsMap.get k s.chats)
          × (k ≡ chat_id → (note p valid s chat_id).1 ≡ true)
    note-protected k d ok h =
        let m = touched s chat_id in
        let n = length m - s.limit in
        (
          (λ ne. rw (chats-note d ok) (get-drop_oldest_protected n k m h ∙ touched_ne k ne)),
          (λ e. flag-note d ok (
              rw (chats-note d ok) (
                get-drop_oldest_protected n chat_id m (subst (λ c. p c ≡ true) e h)
                ∙ touched_self))),
        )

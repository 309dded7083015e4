-- ===== src/T3ams/Lifecycle/RoundTrip.antt =====
-- A restart: the state file is written, and read by the next process.
use polkadot_chat_agents.Base.JsMap.{IsDistinct, Absent, delete-Absent, set-Absent}
use polkadot_chat_agents.T3ams.Lifecycle.Entry.{Edit, Entry}
use polkadot_chat_agents.T3ams.Lifecycle.Store.{
  Limits, Records, total_bytes, trim_to_limits, drop_expired, prune, touch, normalize_text,
}
use polkadot_chat_agents.T3ams.Lifecycle.Saved.{
  is_timed, has_content, save_edit, save, drop_first, snapshot, edit_with, restore_edit,
  restore_record, read_all, touch_all, restore,
}
use polkadot_chat_agents.T3ams.Lifecycle.Bounds.{Fits, prune-Fits}
use Prim.Native.String.{len}
use polkadot_chat_agents.Base.{
  Bool-cases, inl, inr, ℕ, suc, ◌+◌, ◌-◌, ◌≤◌, String, Bool, true, false, ◌||◌, Option, none, some,
  [], ◌∷◌, ◌++◌, map, ◌≡◌, ◌≢◌, refl, ap, sym, ◌∙◌, subst, arith, leb, ltb, ◌==◌, length, keep_if,
  All, length-append, length-keep_if-le, if◌then◌else◌, if-cases, append-nil, append_assoc,
}

module _ (limits : Limits) where
  abbrev pub IsShort : Option Edit → Type 0
  IsShort none = Unit
  IsShort (some e) = len e.text ≤ limits.max_text_bytes

  -- a record that the file can carry, touched before `later`
  pub record IsSavable (later : ℕ) (r : String × Entry) : Type 0 where
    pub timed : is_timed r.1.message_seen r.1.message_timestamp ≡ true
    pub content : has_content r.1.message_seen r.1.edit r.1.deleted_at ≡ true
    pub short : IsShort r.1.edit
    pub past : r.1.touched_at ≤ later

  restore_edit-save :
      (edit : Option Edit) → IsShort edit → restore_edit limits (save_edit edit) ≡ some edit
  unfolding restore_edit normalize_text
  restore_edit-save none h = refl
  restore_edit-save (some e) h =
      if-cases (λ (o : Option String). edit_with limits o e.timestamp ≡ some (some e))
        (leb (len e.text) limits.max_text_bytes) _ _ (λ y. refl)
        (λ n. absurd (ground (arith, n, h)))

  restore_record-save :
      (later : ℕ) (r : String × Entry)
      → IsSavable later r
      → restore_record limits later (save r) ≡ some r
  unfolding restore_record
  restore_record-save later (key, e) h =
      rw (restore_edit-save e.edit h.short, h.timed, h.content)
        (ap (λ t. some (key, record e { touched_at = t })) (ground (arith, h.past)))

  read_all-save :
      (later : ℕ) (m : Records)
      → (limits.ttl_ms == 0) ≡ false
      → All (IsSavable later) m
      → read_all limits later (map save m) ≡ drop_expired limits later m
  unfolding read_all drop_expired
  read_all-save later [] on h = refl
  read_all-save later (r ∷ m) on h =
      rw (restore_record-save later r h.0, on, read_all-save later m on h.1) refl

  -- the limits hold of a list's first part
  total_bytes-append : (m n : Records) → total_bytes (m ++ n) ≡ total_bytes m + total_bytes n
  unfolding total_bytes
  total_bytes-append [] n = omega arith
  total_bytes-append ((k, e) ∷ m) n = omega (arith, total_bytes-append m n)

  Fits-append : (m n : Records) → Fits limits (m ++ n) → Fits limits m
  Fits-append m n h =
      (omega (arith, h.0, length-append m n), omega (arith, h.1, total_bytes-append m n))

  trim_to_limits-Fitting : (m : Records) → Fits limits m → trim_to_limits limits m ≡ m
  unfolding trim_to_limits
  trim_to_limits-Fitting [] h = refl
  trim_to_limits-Fitting ((k, e) ∷ m) h =
      if-cases (λ (r : Records). r ≡ (k, e) ∷ m)
        (ltb limits.max_records (length ((k, e) ∷ m))
          || ltb limits.max_state_bytes (total_bytes ((k, e) ∷ m)))
        _ _ (λ y. absurd (ground (arith, y, h.0, h.1))) (λ n. refl)

  IsDistinct-append :
      (m : Records) (key : String) (e : Entry) (n : Records)
      → IsDistinct (m ++ (key, e) ∷ n)
      → Absent key m
  IsDistinct-append [] key e n d = tt
  IsDistinct-append ((k, x) ∷ m) key e n d = (first m d.0, IsDistinct-append m key e n d.1)
    where
      first : (m : Records) → Absent k (m ++ (key, e) ∷ n) → k ≢ key
      first [] a = λ p. a.0 (sym p)
      first (r ∷ m) a = first m a.1

  touch-new :
      (key : String) (e : Entry) (m : Records)
      → Absent key m
      → Fits limits (m ++ (key, e) ∷ [])
      → touch limits key e m ≡ m ++ (key, e) ∷ []
  unfolding touch
  touch-new key e m a h =
      rw (delete-Absent key m a, set-Absent key e m a) (trim_to_limits-Fitting _ h)

  touch_all-append :
      (n m : Records) → IsDistinct (m ++ n) → Fits limits (m ++ n) → touch_all limits n m ≡ m ++ n
  unfolding touch_all
  touch_all-append [] m d h = sym (append-nil m)
  touch_all-append ((key, e) ∷ n) m d h =
      let eq = append_assoc m ((key, e) ∷ []) n in
      let h' = subst (Fits limits) (sym eq) h in
      rw (touch-new key e m (IsDistinct-append m key e n d) (Fits-append (m ++ (key, e) ∷ []) n h'))
        (touch_all-append n (m ++ (key, e) ∷ []) (subst IsDistinct (sym eq) d) h' ∙ eq)

  -- what is left of a map by the expiry and by the trimming
  keep_if-Fits :
      (p : String × Entry → Bool) (m : Records) → Fits limits m → Fits limits (keep_if p m)
  unfolding total_bytes
  keep_if-Fits p m h = (omega (arith, h.0, length-keep_if-le p m), omega (arith, h.1, lighter m))
    where
      lighter : (m : Records) → total_bytes (keep_if p m) ≤ total_bytes m
      lighter [] = omega arith
      lighter (r ∷ m) = ground (arith, lighter m)

  Absent-keep_if :
      (p : String × Entry → Bool) (k : String) (m : Records) → Absent k m → Absent k (keep_if p m)
  Absent-keep_if p k [] h = tt
  Absent-keep_if p k (r ∷ m) h =
      if-cases (Absent k) (p r) _ _ (λ y. (h.0, Absent-keep_if p k m h.1))
        (λ n. Absent-keep_if p k m h.1)

  pub IsDistinct-keep_if :
      (p : String × Entry → Bool) (m : Records) → IsDistinct m → IsDistinct (keep_if p m)
  IsDistinct-keep_if p [] h = tt
  IsDistinct-keep_if p (r ∷ m) h =
      if-cases IsDistinct (p r) _ _ (λ y. (Absent-keep_if p r.0 m h.0, IsDistinct-keep_if p m h.1))
        (λ n. IsDistinct-keep_if p m h.1)

  pub All-keep_if :
      (P : String × Entry → Type 0) (p : String × Entry → Bool) (m : Records)
      → All P m
      → All P (keep_if p m)
  All-keep_if P p [] h = tt
  All-keep_if P p (r ∷ m) h =
      if-cases (All P) (p r) _ _ (λ y. (h.0, All-keep_if P p m h.1)) (λ n. All-keep_if P p m h.1)

  abbrev is_full : String × Entry → Records → Bool
  is_full r m =
      ltb limits.max_records (length (r ∷ m)) || ltb limits.max_state_bytes (total_bytes (r ∷ m))

  pub IsDistinct-trim : (m : Records) → IsDistinct m → IsDistinct (trim_to_limits limits m)
  unfolding trim_to_limits
  IsDistinct-trim [] h = tt
  IsDistinct-trim (r ∷ m) h =
      if-cases IsDistinct (is_full r m) (trim_to_limits limits m) (r ∷ m)
        (λ y. IsDistinct-trim m h.1) (λ n. h)

  pub All-trim :
      (P : String × Entry → Type 0) (m : Records) → All P m → All P (trim_to_limits limits m)
  unfolding trim_to_limits
  All-trim P [] h = tt
  All-trim P (r ∷ m) h =
      if-cases (All P) (is_full r m) (trim_to_limits limits m) (r ∷ m) (λ y. All-trim P m h.1)
        (λ n. h)

  keep_if-twice : (p : String × Entry → Bool) (m : Records) → keep_if p (keep_if p m) ≡ keep_if p m
  keep_if-twice p [] = refl
  keep_if-twice p (r ∷ m) = go (p r) refl (keep_if-twice p m)
    where
      go :
          (b : Bool)
          → p r ≡ b
          → keep_if p (keep_if p m) ≡ keep_if p m
          → keep_if p (if b then r ∷ keep_if p m else keep_if p m)
            ≡ (if b then r ∷ keep_if p m else keep_if p m)
      go true e ih = rw e (ap (◌∷◌ r) ih)
      go false e ih = ih

  length-map-save : (m : Records) → length (map save m) ≡ length m
  length-map-save [] = refl
  length-map-save (r ∷ m) = ap suc (length-map-save m)

  -- a file within the limit is read from its start
  drop_first-none :
      (m : Records)
      → Fits limits m
      → drop_first (length (map save m) - limits.max_records) (map save m) ≡ map save m
  unfolding drop_first
  drop_first-none m h =
      let none_before : length (map save m) - limits.max_records ≡ 0 =
        omega (arith, length-map-save m, h.0) in
      rw none_before refl

  prune-fresh :
      (later : ℕ) (m : Records)
      → prune limits later (drop_expired limits later m) ≡ prune limits later m
  unfolding prune drop_expired
  prune-fresh later m =
      ap (λ r. if limits.ttl_ms == 0 then [] else trim_to_limits limits r) (keep_if-twice _ m)

  restore-save :
      (later : ℕ) (m : Records)
      → (limits.ttl_ms == 0) ≡ false
      → IsDistinct m
      → Fits limits m
      → All (IsSavable later) m
      → (restore limits later (map save m)).0 ≡ prune limits later m
  unfolding restore drop_expired
  restore-save later m on d h ok =
      let fresh = drop_expired limits later m in
      ap (λ raws. prune limits later (touch_all limits (read_all limits later raws) []))
        (drop_first-none m h)
      ∙ ap (λ r. prune limits later (touch_all limits r [])) (read_all-save later m on ok)
      ∙ ap (prune limits later)
          (touch_all-append fresh [] (IsDistinct-keep_if _ m d) (keep_if-Fits _ m h))
      ∙ prune-fresh later m

  prune-off : (now : ℕ) (m : Records) → (limits.ttl_ms == 0) ≡ true → prune limits now m ≡ []
  unfolding prune
  prune-off now m off = rw off refl

  -- In a process that restarts, with a clock that is not behind the records, `restore` of what
  -- `snapshot` wrote gives the store that the old process would have after its next `prune`; the keys
  -- are distinct, and the records have a timestamp exactly where the message was seen, a message or
  -- an operation, and an edit within the bound of texts.
  pub restore-snapshot :
      (now later : ℕ) (m : Records)
      → IsDistinct m
      → All (IsSavable later) m
      → (restore limits later (snapshot limits now m).1).0 ≡ prune limits later (prune limits now m)
  unfolding restore snapshot prune drop_expired
  restore-snapshot now later m d ok = elim (Bool-cases (limits.ttl_ms == 0)) [
    | inl off ↦ prune-off later _ off ∙ sym (prune-off later (prune limits now m) off)
    | inr on ↦
        let kept = drop_expired limits now m in
        let pruned : prune limits now m ≡ trim_to_limits limits kept = rw on refl in
        restore-save later (prune limits now m) on
          (subst IsDistinct (sym pruned) (IsDistinct-trim kept (IsDistinct-keep_if _ m d)))
          (prune-Fits limits now m)
          (subst (All (IsSavable later)) (sym pruned)
            (All-trim (IsSavable later) kept (All-keep_if (IsSavable later) _ m ok)))
  ]

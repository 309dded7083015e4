-- ===== src/Dispatcher/Sound.antt =====
-- The invariant of the dispatcher: what its counters stand for, and which keys are marked ready.
use polkadot_chat_agents.Base.{
  ℕ, ◌+◌, ◌≤◌, String, Bool, true, false, Option, none, some, List, [], ◌∷◌, ◌++◌, ◌≡◌, ◌≢◌, refl,
  ap, sym, ◌∙◌, subst, arith, length, if◌then◌else◌, key_dec, ite, if_pos,
}
use polkadot_chat_agents.Base.JsMap
use polkadot_chat_agents.Base.JsMap.{
  JsMap, IsDistinct, IsDistinct-set, IsDistinct-delete, get-set, get-delete, get-set_self,
  get-set_ne, get-delete_ne, get-delete_self,
}
use polkadot_chat_agents.Dispatcher.Sums.{sum, sum-set, sum-set_new}
use polkadot_chat_agents.Dispatcher.{KeyQueue, Dispatcher, has_tasks, or_new}

unfoldable pub listed : String → List String → Bool
listed k [] = false
listed k (x ∷ xs) = ite (key_dec x k) true (listed k xs)

pub listed-tail :
    (key k : String) (rest : List String)
    → key ≢ k
    → listed k (key ∷ rest) ≡ true
    → listed k rest ≡ true
unfolding listed
listed-tail key k rest ne h = ground (arith, ne, h)

pub listed-append_self : (key : String) (keys : List String) → listed key (keys ++ key ∷ []) ≡ true
unfolding listed
listed-append_self key [] = rw (if_pos (key_dec key key) refl) refl
listed-append_self key (x ∷ xs) = ground (arith, listed-append_self key xs)

pub listed-append :
    (key k : String) (keys : List String)
    → listed k keys ≡ true
    → listed k (keys ++ key ∷ []) ≡ true
unfolding listed
listed-append key k (x ∷ xs) h = ground (arith, h, listed-append key k xs)
listed-append key k [] h = ground (arith, h)

module _ {T : Type 0} where
  abbrev pub task_count : KeyQueue T → ℕ
  task_count q = length q.tasks

  abbrev pub busy_count : KeyQueue T → ℕ
  busy_count q = if q.running then 1 else 0

  pub record Counted (queued active : ℕ) (m : JsMap (KeyQueue T)) : Type 0 where
    pub distinct : IsDistinct m
    pub tasks : queued ≡ sum task_count m
    pub busy : active ≡ sum busy_count m

  pub sum-put :
      (f : KeyQueue T → ℕ) (k : String) (q : KeyQueue T) (m : JsMap (KeyQueue T))
      → f (or_new none) ≡ 0
      → sum f (JsMap.set k q m) + f (or_new (JsMap.get k m)) ≡ sum f m + f q
  sum-put f k q m zero_new = go (JsMap.get k m) refl
    where
      go :
          (o : Option (KeyQueue T))
          → JsMap.get k m ≡ o
          → sum f (JsMap.set k q m) + f (or_new (JsMap.get k m)) ≡ sum f m + f q
      go none e = rw e (omega (arith, zero_new, sum-set_new f k q m e))
      go (some old) e = rw e (sum-set f k old q m e)

  pub set-Counted :
      (queued active queued' active' : ℕ) (k : String) (q : KeyQueue T) (m : JsMap (KeyQueue T))
      → Counted queued active m
      → ((x : ℕ) → x + task_count (or_new (JsMap.get k m)) ≡ queued + task_count q → queued' ≡ x)
      → ((x : ℕ) → x + busy_count (or_new (JsMap.get k m)) ≡ active + busy_count q → active' ≡ x)
      → Counted queued' active' (JsMap.set k q m)
  set-Counted queued active queued' active' k q m h ft fb = record {
    distinct = IsDistinct-set k q m h.distinct;
    tasks =
        ft (sum task_count (JsMap.set k q m))
          (sum-put task_count k q m refl ∙ ap (λ n. n + task_count q) (sym h.tasks));
    busy =
        fb (sum busy_count (JsMap.set k q m))
          (sum-put busy_count k q m refl ∙ ap (λ n. n + busy_count q) (sym h.busy));
  }

  -- an entry marked ready stands in the list, and one that could run is marked
  pub record IsAwake (in_list : Bool) (q : KeyQueue T) : Type 0 where
    pub marked : q.ready ≡ true → in_list ≡ true
    pub ready : q.running ≡ false → has_tasks q.tasks ≡ true → q.ready ≡ true

  abbrev pub Awake : List String → JsMap (KeyQueue T) → Type 0
  Awake keys m = (k : String) → IsAwake (listed k keys) (or_new (JsMap.get k m))

  pub IsAwake-map :
      (a b : Bool) (q : KeyQueue T) → (a ≡ true → b ≡ true) → IsAwake a q → IsAwake b q
  IsAwake-map a b q f h = record { marked = λ r. f (h.marked r); ready = h.ready }

  pub set-Awake :
      (keys keys' : List String) (key : String) (q : KeyQueue T) (m : JsMap (KeyQueue T))
      → Awake keys m
      → IsAwake (listed key keys') q
      → ((k : String) → key ≢ k → listed k keys ≡ true → listed k keys' ≡ true)
      → Awake keys' (JsMap.set key q m)
  set-Awake keys keys' key q m h own others k = elim (key_dec key k) [
    | yes p ↦
        subst (λ x. IsAwake (listed x keys') (or_new (JsMap.get x (JsMap.set key q m)))) p
          (rw (get-set_self) own)
    | no p ↦ rw (get-set_ne key k q m p) (IsAwake-map _ _ _ (others k p) (h k))
  ]

  -- between the steps of a call, with the ready keys that are still to be looked at
  pub record Loop (keys : List String) (s : Dispatcher T) : Type 0 where
    pub counts : Counted s.queued s.active s.queues
    pub awake : Awake keys s.queues
    pub queued_le : s.queued ≤ s.queue_limit
    pub active_le : s.active ≤ s.worker_limit

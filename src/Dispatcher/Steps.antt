-- ===== src/Dispatcher/Steps.antt =====
-- The invariant over the loop of `drain`.
use polkadot_chat_agents.Base.{
  ℕ, suc, ◌+◌, ◌-◌, ◌<◌, String, Bool, true, false, Option, none, some, List, [], ◌∷◌, ◌++◌, ◌≡◌,
  refl, ap, sym, ◌∙◌, subst, arith, ltb, length, if◌then◌else◌, Bool-cases, inl, inr, key_dec,
  ltb→lt, not_ltb→le, ◌⊎◌,
}
use polkadot_chat_agents.Base.JsMap
use polkadot_chat_agents.Base.JsMap.{
  JsMap, IsDistinct, IsDistinct-set, IsDistinct-delete, get-set, get-delete, get-set_self,
  get-set_ne, get-delete_ne, get-delete_self,
}
use polkadot_chat_agents.Dispatcher.Sound.{
  listed, task_count, busy_count, Counted, set-Counted, IsAwake, IsAwake-map, set-Awake, Loop,
  listed-tail,
}
use polkadot_chat_agents.Dispatcher.{
  KeyQueue, Dispatcher, has_tasks, dispatch, take_ready, drain_loop, or_new,
}

module _ {T : Type 0} where
  -- at rest: also, keys are left ready only where all workers are at work
  pub record Sound (s : Dispatcher T) : Type 0 where
    pub loop : Loop s.ready_keys s
    pub full : (s.ready_keys ≡ []) ⊎ (s.active ≡ s.worker_limit)

  pub if-Loop :
      (keys : List String) (b : Bool) (x y : Dispatcher T)
      → (b ≡ true → Loop keys x)
      → (b ≡ false → Loop keys y)
      → Loop keys (if b then x else y)
  if-Loop keys true x y f g = f refl
  if-Loop keys false x y f g = g refl

  -- the counters are fitted to an entry that replaces a known one
  pub replace-Counted :
      (queued active : ℕ) (key : String) (q q' : KeyQueue T) (s : Dispatcher T)
      → Counted s.queued s.active s.queues
      → JsMap.get key s.queues ≡ some q
      → ((x : ℕ) → x + task_count q ≡ s.queued + task_count q' → queued ≡ x)
      → ((x : ℕ) → x + busy_count q ≡ s.active + busy_count q' → active ≡ x)
      → Counted queued active (JsMap.set key q' s.queues)
  replace-Counted queued active key q q' s h found ft fb =
      set-Counted s.queued s.active queued active key q' s.queues h (rw found ft) (rw found fb)

  -- the key is looked at and its entry unmarked
  unmark-Loop :
      (key : String) (rest : List String) (q : KeyQueue T) (s : Dispatcher T)
      → Loop (key ∷ rest) s
      → JsMap.get key s.queues ≡ some q
      → (q.running ≡ false → has_tasks q.tasks ≡ true → ◌≡◌ {A = Bool} false true)
      → Loop rest (record s { queues = JsMap.set key (record q { ready = false }) s.queues })
  unmark-Loop key rest q s h found idle = record {
    counts =
        replace-Counted s.queued s.active key q _ s h.counts found (λ x e. omega (arith, e))
          (λ x e. omega (arith, e));
    awake =
        set-Awake (key ∷ rest) rest key _ s.queues h.awake
          (record { marked = λ r. cc; ready = idle }) (λ k ne. listed-tail key k rest ne);
    queued_le = h.queued_le;
    active_le = h.active_le;
  }

  start-Loop :
      (key : String) (rest : List String) (q : KeyQueue T) (job : T) (more : List T)
      (s : Dispatcher T)
      → Loop (key ∷ rest) s
      → JsMap.get key s.queues ≡ some q
      → q.tasks ≡ job ∷ more
      → q.running ≡ false
      → s.active < s.worker_limit
      → Loop rest (record s {
        queues = JsMap.set key (record { tasks = more; running = true; ready = false }) s.queues;
        queued = s.queued - 1;
        active = suc s.active;
        started = s.started ++ (key, job) ∷ [];
      })
  start-Loop key rest q job more s h found e idle free =
      let entry : KeyQueue T = record { tasks = more; running = true; ready = false } in
      let size : task_count q ≡ suc (length more) = ap length e in
      let rested : busy_count q ≡ 0 = ap (λ b. if b then 1 else 0) idle in
      record {
        counts =
            replace-Counted (s.queued - 1) (suc s.active) key q entry s h.counts found
              (λ x p. omega (arith, p, size)) (λ x p. omega (arith, p, rested));
        awake =
            set-Awake (key ∷ rest) rest key entry s.queues h.awake
              (record { marked = λ r. cc; ready = λ r. cc }) (λ k ne. listed-tail key k rest ne);
        queued_le = omega (arith, h.queued_le);
        active_le = omega (arith, free);
      }

  dispatch-Loop :
      (key : String) (rest : List String) (q : KeyQueue T) (tasks : List T) (s : Dispatcher T)
      → Loop (key ∷ rest) s
      → JsMap.get key s.queues ≡ some q
      → q.tasks ≡ tasks
      → s.active < s.worker_limit
      → Loop rest (dispatch key q tasks s)
  unfolding dispatch
  dispatch-Loop key rest q [] s h found e free =
      unmark-Loop key rest q s h found (λ r t. sym (ap has_tasks e) ∙ t)
  dispatch-Loop key rest q (job ∷ more) s h found e free =
      if-Loop rest q.running _ _ (λ b. unmark-Loop key rest q s h found (λ r t. sym r ∙ b))
        (λ idle. start-Loop key rest q job more s h found e idle free)

  skip-Loop :
      (key : String) (rest : List String) (s : Dispatcher T)
      → Loop (key ∷ rest) s
      → JsMap.get key s.queues ≡ none
      → Loop rest s
  skip-Loop key rest s h missing = record {
    counts = h.counts;
    awake = λ k. elim (key_dec key k) [
      | yes p ↦
          subst (λ x. IsAwake (listed x rest) (or_new (JsMap.get x s.queues))) p
            (rw missing (record { marked = λ r. cc; ready = λ r t. cc }))
      | no p ↦ IsAwake-map _ _ _ (listed-tail key k rest p) (h.awake k)
    ];
    queued_le = h.queued_le;
    active_le = h.active_le;
  }

  take_ready-Loop :
      (key : String) (rest : List String) (s : Dispatcher T)
      → Loop (key ∷ rest) s
      → s.active < s.worker_limit
      → Loop rest (take_ready key (JsMap.get key s.queues) s)
  unfolding take_ready
  take_ready-Loop key rest s h free = go (JsMap.get key s.queues) refl
    where
      go : (o : Option (KeyQueue T)) → JsMap.get key s.queues ≡ o → Loop rest (take_ready key o s)
      go none e = skip-Loop key rest s h e
      go (some q) e = dispatch-Loop key rest q q.tasks s h e refl free

  pub drain_loop-Sound :
      (keys : List String) (s : Dispatcher T) → Loop keys s → Sound (drain_loop keys s)
  unfolding drain_loop
  drain_loop-Sound [] s h = record {
    loop = record {
      counts = h.counts;
      awake = h.awake;
      queued_le = h.queued_le;
      active_le = h.active_le;
    };
    full = inl refl;
  }
  drain_loop-Sound (key ∷ rest) s h = elim (Bool-cases (ltb s.active s.worker_limit)) [
    | inl free ↦
        rw (free, drain_loop)
          (drain_loop-Sound rest (take_ready key (JsMap.get key s.queues) s)
            (take_ready-Loop key rest s h (ltb→lt _ _ free)))
    | inr busy ↦
        rw (busy, drain_loop)
          (record {
            loop = record {
              counts = h.counts;
              awake = h.awake;
              queued_le = h.queued_le;
              active_le = h.active_le;
            };
            full = inr (omega (arith, h.active_le, not_ltb→le _ _ busy));
          })
  ]

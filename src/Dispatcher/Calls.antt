-- ===== src/Dispatcher/Calls.antt =====
-- The invariant over the calls of the dispatcher.
use polkadot_chat_agents.Base.{
  ℕ, suc, ◌+◌, ◌-◌, ◌≤◌, String, Bool, true, false, not, ◌||◌, Option, none, some, List, [], ◌∷◌,
  ◌++◌, ◌≡◌, refl, ap, subst, arith, leb, length, length-append, if◌then◌else◌, Bool-cases, inl,
  inr, key_dec,
}
use polkadot_chat_agents.Base.JsMap
use polkadot_chat_agents.Base.JsMap.{
  JsMap, IsDistinct, IsDistinct-set, IsDistinct-delete, get-set, get-delete, get-set_self,
  get-set_ne, get-delete_ne, get-delete_self,
}
use polkadot_chat_agents.Dispatcher.Sums.{sum-delete}
use polkadot_chat_agents.Dispatcher.Sound.{
  listed, task_count, busy_count, Counted, set-Counted, IsAwake, Awake, set-Awake, Loop,
  listed-append, listed-append_self,
}
use polkadot_chat_agents.Dispatcher.Steps.{Sound, drain_loop-Sound, replace-Counted}
use polkadot_chat_agents.Dispatcher.{
  KeyQueue, Dispatcher, has_tasks, make_ready, drain, or_new, push, run, settle, finish_of, finish,
}

idle_or : (a b c : Bool) → a || b || not c ≡ true → a ≡ false → c ≡ true → b ≡ true
idle_or a b c h p q = ground (arith, h, p, q)

module _ {T : Type 0} where
  make_ready-Loop :
      (queued active : ℕ) (key : String) (q : KeyQueue T) (s : Dispatcher T)
      → Counted queued active s.queues
      → ((x : ℕ)
          → x + task_count (or_new (JsMap.get key s.queues)) ≡ queued + task_count q
          → s.queued ≡ x)
      → ((x : ℕ)
          → x + busy_count (or_new (JsMap.get key s.queues)) ≡ active + busy_count q
          → s.active ≡ x)
      → Awake s.ready_keys s.queues
      → (q.ready ≡ true → listed key s.ready_keys ≡ true)
      → s.queued ≤ s.queue_limit
      → s.active ≤ s.worker_limit
      → Loop (make_ready key q s).ready_keys (make_ready key q s)
  unfolding make_ready
  make_ready-Loop queued active key q s h ft fb awake own ql al =
      elim (Bool-cases (q.running || q.ready || not (has_tasks q.tasks))) [
        | inl still ↦ rw still (record {
          counts = set-Counted queued active s.queued s.active key q s.queues h ft fb;
          awake =
              set-Awake s.ready_keys s.ready_keys key q s.queues awake
                (record {
                  marked = own;
                  ready = idle_or q.running q.ready (has_tasks q.tasks) still;
                })
                (λ k ne l. l);
          queued_le = ql;
          active_le = al;
        })
        | inr new ↦ rw new (record {
          counts =
              set-Counted queued active s.queued s.active key (record q { ready = true }) s.queues h
                ft fb;
          awake =
              set-Awake s.ready_keys (s.ready_keys ++ key ∷ []) key (record q { ready = true })
                s.queues awake
                (record { marked = λ r. listed-append_self key s.ready_keys; ready = λ r t. refl })
                (λ k ne. listed-append key k s.ready_keys);
          queued_le = ql;
          active_le = al;
        })
      ]

  drain-Sound : (s : Dispatcher T) → Loop s.ready_keys s → Sound (drain s)
  unfolding drain
  drain-Sound s h = drain_loop-Sound s.ready_keys s h

  pub run-Sound : (key : String) (task : T) (s : Dispatcher T) → Sound s → Sound (run key task s).0
  unfolding run
  run-Sound key task s h = elim (Bool-cases (leb s.queue_limit s.queued)) [
    | inl full ↦ rw full h
    | inr free ↦ rw free (
        drain-Sound _ (
          make_ready-Loop s.queued s.active key (push task (or_new (JsMap.get key s.queues)))
            (record s { queued = suc s.queued }) h.loop.counts
            (λ x e.
              omega (arith, e, length-append (or_new (JsMap.get key s.queues)).tasks (task ∷ [])))
            (λ x e. omega (arith, e)) h.loop.awake (h.loop.awake key).marked (ground (arith, free))
            h.loop.active_le))
  ]

  no_tasks : (q : KeyQueue T) → has_tasks q.tasks ≡ false → task_count q ≡ 0
  no_tasks q e = go q.tasks e
    where
      go : (ts : List T) → has_tasks ts ≡ false → length ts ≡ 0
      go [] e = refl
      go (t ∷ ts) e = cc

  delete-Awake :
      (keys : List String) (key : String) (m : JsMap (KeyQueue T))
      → Awake keys m
      → Awake keys (JsMap.delete key m)
  delete-Awake keys key m h k = elim (key_dec key k) [
    | yes p ↦
        subst (λ x. IsAwake (listed x keys) (or_new (JsMap.get x (JsMap.delete key m)))) p
          (rw (get-delete_self) (record { marked = λ r. cc; ready = λ r t. cc }))
    | no p ↦ rw (get-delete_ne key k m p) (h k)
  ]

  if-Ready :
      (b : Bool) (x y : Dispatcher T)
      → (b ≡ true → Loop x.ready_keys x)
      → (b ≡ false → Loop y.ready_keys y)
      → Loop (if b then x else y).ready_keys (if b then x else y)
  if-Ready true x y f g = f refl
  if-Ready false x y f g = g refl

  -- the entry of an ended task, without a worker
  module _ (key : String) (q : KeyQueue T) (s : Dispatcher T) (h : Loop s.ready_keys s)
      (found : JsMap.get key s.queues ≡ some q) (running : q.running ≡ true) where
    abbrev rested : KeyQueue T
    rested = record q { running = false }

    abbrev released : Dispatcher T
    released = record s { active = s.active - 1 }

    one_busy : busy_count q ≡ 1
    one_busy = ap (λ b. if b then 1 else 0) running

    own_mark : rested.ready ≡ true → listed key s.ready_keys ≡ true
    own_mark r =
        (subst (λ o. IsAwake (listed key s.ready_keys) (or_new o)) found (h.awake key)).marked r

    again-Loop : Loop (make_ready key rested released).ready_keys (make_ready key rested released)
    again-Loop =
        make_ready-Loop s.queued s.active key rested released h.counts
          (rw found (λ x e. omega (arith, e))) (rw found (λ x e. omega (arith, e, one_busy)))
          h.awake own_mark h.queued_le (omega (arith, h.active_le))

    kept-Loop :
        has_tasks q.tasks ≡ false
        → Loop s.ready_keys (record released { queues = JsMap.set key rested s.queues })
    kept-Loop none_left = record {
      counts =
          replace-Counted s.queued (s.active - 1) key q rested s h.counts found
            (λ x e. omega (arith, e)) (λ x e. omega (arith, e, one_busy));
      awake =
          set-Awake s.ready_keys s.ready_keys key rested s.queues h.awake
            (record { marked = own_mark; ready = λ r t. absurd (cc (none_left, t)) }) (λ k ne l. l);
      queued_le = h.queued_le;
      active_le = omega (arith, h.active_le);
    }

    deleted-Loop :
        has_tasks q.tasks ≡ false
        → Loop s.ready_keys (record released { queues = JsMap.delete key s.queues })
    deleted-Loop none_left = record {
      counts = record {
        distinct = IsDistinct-delete key s.queues h.counts.distinct;
        tasks = omega (
          arith,
          h.counts.tasks,
          sum-delete task_count key q s.queues h.counts.distinct found,
          no_tasks q none_left,
        );
        busy = omega (
          arith,
          h.counts.busy,
          sum-delete busy_count key q s.queues h.counts.distinct found,
          one_busy,
        );
      };
      awake = delete-Awake s.ready_keys key s.queues h.awake;
      queued_le = h.queued_le;
      active_le = omega (arith, h.active_le);
    }

    settle-Loop : Loop (settle key rested released).ready_keys (settle key rested released)
    unfolding settle
    settle-Loop =
        if-Ready (has_tasks q.tasks) _ _ (λ more. again-Loop)
          (λ none_left.
            if-Ready q.ready _ _ (λ marked. kept-Loop none_left)
              (λ unmarked. deleted-Loop none_left))

  if-Sound :
      (b : Bool) (x y : Dispatcher T) → (b ≡ true → Sound x) → Sound y → Sound (if b then x else y)
  if-Sound true x y f g = f refl
  if-Sound false x y f g = g

  pub finish-Sound : (key : String) (s : Dispatcher T) → Sound s → Sound (finish key s)
  finish-Sound key s h = unfold finish in go (JsMap.get key s.queues) refl
    where
      go : (o : Option (KeyQueue T)) → JsMap.get key s.queues ≡ o → Sound (finish_of key o s)
      go none e = h
      go (some q) e =
          if-Sound q.running _ s (λ busy. drain-Sound _ (settle-Loop key q s h.loop e busy)) h

-- ===== src/Dispatcher/Fifo.antt =====
-- The tasks of one key over the calls of the dispatcher and its histories.
use polkadot_chat_agents.Base.{
  ℕ, suc, ◌-◌, String, Bool, true, false, not, ◌||◌, Option, none, some, List, [], ◌∷◌, ◌++◌, ◌≡◌,
  refl, ap, sym, ◌∙◌, subst, leb, if◌then◌else◌, Bool-cases, inl, inr, key_dec, ite, if_pos, if_neg,
  append-nil, append_assoc,
}
use polkadot_chat_agents.Base.JsMap
use polkadot_chat_agents.Base.JsMap.{
  JsMap, get-set, get-delete, get-set_self, get-set_ne, get-delete_ne, get-delete_self,
}
use polkadot_chat_agents.Dispatcher.{
  KeyQueue, Dispatcher, create, has_tasks, make_ready, drain, or_new, push, run, settle, finish_of,
  finish, Event, submitted, finished, step, history,
}
use polkadot_chat_agents.Dispatcher.Order.{
  started_of, waiting_of, tasks_of, set-waiting, drain-tasks_of,
}

module _ {T : Type 0} where
  put-waiting :
      (k key : String) (q : KeyQueue T) (m : JsMap (KeyQueue T))
      → (or_new (JsMap.get k (JsMap.set key q m))).tasks
        ≡ ite (key_dec key k) q.tasks (or_new (JsMap.get k m)).tasks
  put-waiting k key q m = rw (get-set key k q m) (go (key_dec key k))
    where
      go :
          (d : Dec (key ≡ k))
          → (or_new (ite d (some q) (JsMap.get k m))).tasks
            ≡ ite d q.tasks (or_new (JsMap.get k m)).tasks
      go (yes p) = refl
      go (no p) = refl

  make_ready-tasks_of :
      (k key : String) (q : KeyQueue T) (s : Dispatcher T)
      → tasks_of k (make_ready key q s)
        ≡ started_of k s.started ++ ite (key_dec key k) q.tasks (waiting_of k s)
  unfolding make_ready
  make_ready-tasks_of k key q s = go (q.running || q.ready || not (has_tasks q.tasks))
    where
      go :
          (b : Bool)
          → tasks_of k (
              if b then record s { queues = JsMap.set key q s.queues } else record s {
                queues = JsMap.set key (record q { ready = true }) s.queues;
                ready_keys = s.ready_keys ++ key ∷ [];
              })
            ≡ started_of k s.started ++ ite (key_dec key k) q.tasks (waiting_of k s)
      go true = ap (λ w. started_of k s.started ++ w) (put-waiting k key q s.queues)
      go false =
          ap (λ w. started_of k s.started ++ w)
            (put-waiting k key (record q { ready = true }) s.queues)

  -- the task accepted for a key, among the tasks of another
  unfoldable pub accepted_of : String → Bool → String → T → List T
  accepted_of k taken key task = if taken then ite (key_dec key k) (task ∷ []) [] else []

  run-tasks_of :
      (k key : String) (task : T) (s : Dispatcher T)
      → tasks_of k (run key task s).0 ≡ tasks_of k s ++ accepted_of k (run key task s).1 key task
  unfolding run accepted_of
  run-tasks_of k key task s = elim (Bool-cases (leb s.queue_limit s.queued)) [
    | inl full ↦ rw full (sym (append-nil (tasks_of k s)))
    | inr free ↦
        let q = push task (or_new (JsMap.get key s.queues)) in
        let s' : Dispatcher T = record s { queued = suc s.queued } in
        rw free (drain-tasks_of k (make_ready key q s') ∙ make_ready-tasks_of k key q s' ∙ pushed)
  ]
    where
      pushed :
          started_of k s.started
            ++ ite (key_dec key k) (waiting_of key s ++ task ∷ []) (waiting_of k s)
          ≡ tasks_of k s ++ ite (key_dec key k) (task ∷ []) []
      pushed = elim (key_dec key k) [
        | yes p ↦
            rw (if_pos (key_dec key k) p, if_pos (key_dec key k) p)
              (ap (λ x. started_of k s.started ++ (waiting_of x s ++ task ∷ [])) p
                ∙ sym (append_assoc (started_of k s.started) (waiting_of k s) (task ∷ [])))
        | no p ↦
            rw (if_neg (key_dec key k) p, if_neg (key_dec key k) p)
              (sym (append-nil (tasks_of k s)))
      ]

  no_tasks : (ts : List T) → has_tasks ts ≡ false → ts ≡ []
  no_tasks [] e = refl
  no_tasks (t ∷ ts) e = cc

  kept-waiting :
      (k key : String) (q : KeyQueue T) (s : Dispatcher T)
      → q.tasks ≡ waiting_of key s
      → ite (key_dec key k) q.tasks (waiting_of k s) ≡ waiting_of k s
  kept-waiting k key q s same = elim (key_dec key k) [
    | yes p ↦ rw (if_pos (key_dec key k) p) (same ∙ ap (λ x. waiting_of x s) p)
    | no p ↦ rw (if_neg (key_dec key k) p) refl
  ]

  delete-waiting :
      (k key : String) (s : Dispatcher T)
      → waiting_of key s ≡ []
      → (or_new (JsMap.get k (JsMap.delete key s.queues))).tasks ≡ waiting_of k s
  delete-waiting k key s empty = elim (key_dec key k) [
    | yes p ↦
        subst (λ x. (or_new (JsMap.get x (JsMap.delete key s.queues))).tasks ≡ waiting_of x s) p
          (rw (get-delete_self) (sym empty))
    | no p ↦ rw (get-delete_ne key k s.queues p) refl
  ]

  settle-tasks_of :
      (k key : String) (q : KeyQueue T) (s : Dispatcher T)
      → q.tasks ≡ waiting_of key s
      → tasks_of k (settle key q s) ≡ tasks_of k s
  unfolding settle
  settle-tasks_of k key q s same = go (has_tasks q.tasks) refl q.ready
    where
      go :
          (b : Bool)
          → has_tasks q.tasks ≡ b
          → (c : Bool)
          → tasks_of k (
              if b
              then make_ready key q s
              else if c
              then record s { queues = JsMap.set key q s.queues }
              else record s { queues = JsMap.delete key s.queues })
            ≡ tasks_of k s
      go true e c =
          make_ready-tasks_of k key q s
          ∙ ap (λ w. started_of k s.started ++ w) (kept-waiting k key q s same)
      go false e true = ap (λ w. started_of k s.started ++ w) (set-waiting k key q s.queues same)
      go false e false =
          ap (λ w. started_of k s.started ++ w)
            (delete-waiting k key s (sym same ∙ no_tasks q.tasks e))

  finish-tasks_of : (k key : String) (s : Dispatcher T) → tasks_of k (finish key s) ≡ tasks_of k s
  finish-tasks_of k key s = unfold finish in go (JsMap.get key s.queues) refl
    where
      released :
          (q : KeyQueue T)
          → JsMap.get key s.queues ≡ some q
          → (b : Bool)
          → tasks_of k (
              if b
              then drain
                  (settle key (record q { running = false }) (record s { active = s.active - 1 }))
              else s)
            ≡ tasks_of k s
      released q e true =
          let s' : Dispatcher T = record s { active = s.active - 1 } in
          let q' : KeyQueue T = record q { running = false } in
          drain-tasks_of k (settle key q' s')
          ∙ settle-tasks_of k key q' s' (ap (λ o. (or_new o).tasks) (sym e))
      released q e false = refl

      go :
          (o : Option (KeyQueue T))
          → JsMap.get key s.queues ≡ o
          → tasks_of k (finish_of key o s) ≡ tasks_of k s
      go none e = refl
      go (some q) e = released q e q.running

  -- the tasks of a key that the events submit and the dispatcher accepts, in order
  unfoldable pub accepted : String → List (Event T) → Dispatcher T → List T
  unfolding step run finish accepted_of
  accepted k [] s = []
  accepted k (submitted key task ∷ es) s =
      accepted_of k (run key task s).1 key task ++ accepted k es (step (submitted key task) s)
  accepted k (finished key ∷ es) s = accepted k es (step (finished key) s)

  history_from-tasks_of :
      (k : String) (es : List (Event T)) (s : Dispatcher T)
      → tasks_of k (history es s) ≡ tasks_of k s ++ accepted k es s
  unfolding history accepted step
  history_from-tasks_of k [] s = sym (append-nil (tasks_of k s))
  history_from-tasks_of k (submitted key task ∷ es) s =
      history_from-tasks_of k es (run key task s).0
      ∙ ap (λ ts. ts ++ accepted k es (run key task s).0) (run-tasks_of k key task s)
      ∙ append_assoc (tasks_of k s) (accepted_of k (run key task s).1 key task)
          (accepted k es (run key task s).0)
  history_from-tasks_of k (finished key ∷ es) s =
      history_from-tasks_of k es (finish key s)
      ∙ ap (λ ts. ts ++ accepted k es (finish key s)) (finish-tasks_of k key s)

  -- In every history of a new dispatcher, the tasks that were started for a key followed by those
  -- that wait there are the tasks accepted for the key, in the order of their acceptance.
  pub history-tasks_of :
      (concurrency max_queued : ℕ) (es : List (Event T)) (k : String)
      → tasks_of k (history es (create concurrency max_queued))
        ≡ accepted k es (create concurrency max_queued)
  unfolding create started_of JsMap.get
  history-tasks_of concurrency max_queued es k =
      history_from-tasks_of k es (create concurrency max_queued)

-- ===== src/Dispatcher/Order.antt =====
-- The tasks of one key, started and waiting, over the loop of `drain`.
use polkadot_chat_agents.Base.{
  suc, ◌-◌, String, Bool, true, false, Option, none, some, List, [], ◌∷◌, ◌++◌, ◌≡◌, refl, ap, sym,
  ◌∙◌, subst, arith, ltb, if◌then◌else◌, Bool-cases, inl, inr, key_dec, ite, if_pos, if_neg,
  append_assoc,
}
use polkadot_chat_agents.Base.JsMap
use polkadot_chat_agents.Base.JsMap.{
  JsMap, get-set, get-delete, get-set_self, get-set_ne, get-delete_ne, get-delete_self,
}
use polkadot_chat_agents.Dispatcher.{
  KeyQueue, Dispatcher, dispatch, take_ready, drain_loop, drain, or_new,
}

module _ {T : Type 0} where
  -- the tasks of a key among those started
  unfoldable pub started_of : String → List (String × T) → List T
  started_of k [] = []
  started_of k ((j, t) ∷ log) = let rest = started_of k log in ite (key_dec j k) (t ∷ rest) rest

  abbrev pub waiting_of : String → Dispatcher T → List T
  waiting_of k s = (or_new (JsMap.get k s.queues)).tasks

  -- all tasks of a key: those started, and those that wait
  abbrev pub tasks_of : String → Dispatcher T → List T
  tasks_of k s = started_of k s.started ++ waiting_of k s

  started_of-snoc :
      (k : String) (log : List (String × T)) (j : String) (t : T)
      → started_of k (log ++ (j, t) ∷ [])
        ≡ ite (key_dec j k) (started_of k log ++ t ∷ []) (started_of k log)
  unfolding started_of
  started_of-snoc k [] j t = ground arith
  started_of-snoc k ((i, u) ∷ log) j t = ground (arith, started_of-snoc k log j t)

  -- an entry that keeps its tasks
  pub set-waiting :
      (k key : String) (q : KeyQueue T) (m : JsMap (KeyQueue T))
      → q.tasks ≡ (or_new (JsMap.get key m)).tasks
      → (or_new (JsMap.get k (JsMap.set key q m))).tasks ≡ (or_new (JsMap.get k m)).tasks
  set-waiting k key q m same = elim (key_dec key k) [
    | yes p ↦
        subst
          (λ x. (or_new (JsMap.get x (JsMap.set key q m))).tasks ≡ (or_new (JsMap.get x m)).tasks) p
          (rw (get-set_self) same)
    | no p ↦ rw (get-set_ne key k q m p) refl
  ]

  start-tasks_of :
      (k key : String) (t : T) (q : KeyQueue T) (log : List (String × T)) (m : JsMap (KeyQueue T))
      → t ∷ q.tasks ≡ (or_new (JsMap.get key m)).tasks
      → started_of k (log ++ (key, t) ∷ []) ++ (or_new (JsMap.get k (JsMap.set key q m))).tasks
        ≡ started_of k log ++ (or_new (JsMap.get k m)).tasks
  start-tasks_of k key t q log m front = elim (key_dec key k) [
    | yes p ↦
        subst
          (λ x.
            started_of x (log ++ (key, t) ∷ []) ++ (or_new (JsMap.get x (JsMap.set key q m))).tasks
            ≡ started_of x log ++ (or_new (JsMap.get x m)).tasks)
          p
          (rw (started_of-snoc, if_pos (key_dec key key) refl, get-set_self, sym front)
            (append_assoc (started_of key log) (t ∷ []) q.tasks))
    | no p ↦ rw (started_of-snoc, if_neg (key_dec key k) p, get-set_ne key k q m p) refl
  ]

  dispatch-tasks_of :
      (k key : String) (q : KeyQueue T) (tasks : List T) (s : Dispatcher T)
      → q.tasks ≡ tasks
      → tasks ≡ waiting_of key s
      → tasks_of k (dispatch key q tasks s) ≡ tasks_of k s
  unfolding dispatch
  dispatch-tasks_of k key q [] s e f =
      ap (λ w. started_of k s.started ++ w)
        (set-waiting k key (record q { ready = false }) s.queues (e ∙ f))
  dispatch-tasks_of k key q (t ∷ ts) s e f = go q.running
    where
      go :
          (b : Bool)
          → tasks_of k (
              if b
              then record s { queues = JsMap.set key (record q { ready = false }) s.queues }
              else record s {
                queues =
                    JsMap.set key (record { tasks = ts; running = true; ready = false }) s.queues;
                queued = s.queued - 1;
                active = suc s.active;
                started = s.started ++ (key, t) ∷ [];
              })
            ≡ tasks_of k s
      go true =
          ap (λ w. started_of k s.started ++ w)
            (set-waiting k key (record q { ready = false }) s.queues (e ∙ f))
      go false =
          start-tasks_of k key t (record { tasks = ts; running = true; ready = false }) s.started
            s.queues f

  take_ready-tasks_of :
      (k key : String) (s : Dispatcher T)
      → tasks_of k (take_ready key (JsMap.get key s.queues) s) ≡ tasks_of k s
  take_ready-tasks_of k key s = go (JsMap.get key s.queues) refl
    where
      go :
          (o : Option (KeyQueue T))
          → JsMap.get key s.queues ≡ o
          → tasks_of k (take_ready key o s) ≡ tasks_of k s
      go none e = unfold take_ready in refl
      go (some q) e =
          unfold take_ready in
          dispatch-tasks_of k key q q.tasks s refl (ap (λ o. (or_new o).tasks) (sym e))

  drain_loop-tasks_of :
      (k : String) (keys : List String) (s : Dispatcher T)
      → tasks_of k (drain_loop keys s) ≡ tasks_of k s
  unfolding drain_loop
  drain_loop-tasks_of k [] s = refl
  drain_loop-tasks_of k (key ∷ rest) s =
      let s' = take_ready key (JsMap.get key s.queues) s in
      let later = drain_loop-tasks_of k rest s' ∙ take_ready-tasks_of k key s in
      elim (Bool-cases (ltb s.active s.worker_limit)) [
        | inl free ↦ rw (free, drain_loop) later
        | inr busy ↦ rw (busy, drain_loop) refl
      ]

  pub drain-tasks_of : (k : String) (s : Dispatcher T) → tasks_of k (drain s) ≡ tasks_of k s
  unfolding drain
  drain-tasks_of k s = drain_loop-tasks_of k s.ready_keys s

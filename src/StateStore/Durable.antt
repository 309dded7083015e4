-- ===== src/StateStore/Durable.antt =====
-- The newest snapshot in memory or in the file, over the events of the store.
use polkadot_chat_agents.Base.{
  suc, ◌++◌, Bool, true, false, Option, none, some, List, [], ◌∷◌, ◌≡◌, refl, ap, ◌∙◌, arith,
  Bool-cases, inl, inr,
}
use polkadot_chat_agents.StateStore.{
  repeat, Phase, idle, writing, ended, Store, create, schedule_flush, save, flush, timer_fires,
  written, failed, settled, Event, saves, flushes, fires, writes, fails, settles, step, run,
}

module _ {D : Type 0} where
  -- what is being written, or else what the file holds
  abbrev pub below : Phase D → Option D → Option D
  below idle file = file
  below (writing snapshot) file = some snapshot
  below (ended ok) file = file

  abbrev pub newest_of : Option D → Option D → Option D
  newest_of none rest = rest
  newest_of (some snapshot) rest = some snapshot

  -- the snapshot that stands last, in memory or in the file
  abbrev pub newest : Store D → Option D
  newest s = newest_of s.pending (below s.phase s.file)

  abbrev pub last_saved : Option D → List (Event D) → Option D
  last_saved d [] = d
  last_saved d (saves snapshot ∷ es) = last_saved (some snapshot) es
  last_saved d (flushes ∷ es) = last_saved d es
  last_saved d (fires ∷ es) = last_saved d es
  last_saved d (writes ∷ es) = last_saved d es
  last_saved d (fails ∷ es) = last_saved d es
  last_saved d (settles ∷ es) = last_saved d es

  save-newest : (snapshot : D) (s : Store D) → newest (save snapshot s) ≡ some snapshot
  unfolding save schedule_flush
  save-newest snapshot s = ground arith

  flush-newest : (s : Store D) → newest (flush s) ≡ newest s
  unfolding flush
  flush-newest s = go s.phase refl s.pending refl
    where
      go :
          (p : Phase D) → s.phase ≡ p → (o : Option D) → s.pending ≡ o → newest (flush s) ≡ newest s
      go idle e none f = rw (e, f, flush) refl
      go idle e (some snapshot) f = rw (e, f, flush) refl
      go (writing snapshot) e o f = rw (e, flush) refl
      go (ended ok) e o f = rw (e, flush) refl

  written-newest : (s : Store D) → newest (written s) ≡ newest s
  unfolding written
  written-newest s = go s.phase refl s.pending refl
    where
      go :
          (p : Phase D)
          → s.phase ≡ p
          → (o : Option D) → s.pending ≡ o
          → newest (written s) ≡ newest s
      go idle e o f = rw (e, written) refl
      go (writing snapshot) e none f = rw (e, f, written) refl
      go (writing snapshot) e (some newer) f = rw (e, f, written) refl
      go (ended ok) e o f = rw (e, written) refl

  failed-newest : (s : Store D) → newest (failed s) ≡ newest s
  unfolding failed schedule_flush
  failed-newest s = go s.phase refl s.pending refl s.timer refl
    where
      go :
          (p : Phase D)
          → s.phase ≡ p
          → (o : Option D) → s.pending ≡ o
          → (t : Bool) → s.timer ≡ t
          → newest (failed s) ≡ newest s
      go idle e o f t g = rw (e, failed) refl
      go (writing snapshot) e none f true g = rw (e, f, g, failed) refl
      go (writing snapshot) e none f false g = rw (e, f, g, failed) refl
      go (writing snapshot) e (some newer) f true g = rw (e, f, g, failed) refl
      go (writing snapshot) e (some newer) f false g = rw (e, f, g, failed) refl
      go (ended ok) e o f t g = rw (e, failed) refl

  settled-newest : (s : Store D) → newest (settled s) ≡ newest s
  unfolding settled
  settled-newest s = go s.phase refl
    where
      go : (p : Phase D) → s.phase ≡ p → newest (settled s) ≡ newest s
      go idle e = rw (e, settled) refl
      go (writing snapshot) e = rw (e, settled) refl
      go (ended ok) e = rw (e, settled) refl

  timer_fires-newest : (s : Store D) → newest (timer_fires s) ≡ newest s
  unfolding timer_fires
  timer_fires-newest s = elim (Bool-cases s.timer) [
    | inl on ↦ rw (on, timer_fires) (flush-newest s)
    | inr off ↦ rw (off, timer_fires) refl
  ]

  run_from-newest :
      (es : List (Event D)) (s : Store D) → newest (run es s) ≡ last_saved (newest s) es
  unfolding run step
  run_from-newest [] s = refl
  run_from-newest (saves snapshot ∷ es) s =
      run_from-newest es (save snapshot s) ∙ ap (λ d. last_saved d es) (save-newest snapshot s)
  run_from-newest (flushes ∷ es) s =
      run_from-newest es (flush s) ∙ ap (λ d. last_saved d es) (flush-newest s)
  run_from-newest (fires ∷ es) s =
      run_from-newest es (timer_fires s) ∙ ap (λ d. last_saved d es) (timer_fires-newest s)
  run_from-newest (writes ∷ es) s =
      run_from-newest es (written s) ∙ ap (λ d. last_saved d es) (written-newest s)
  run_from-newest (fails ∷ es) s =
      run_from-newest es (failed s) ∙ ap (λ d. last_saved d es) (failed-newest s)
  run_from-newest (settles ∷ es) s =
      run_from-newest es (settled s) ∙ ap (λ d. last_saved d es) (settled-newest s)

  drained :
      (s : Store D) (snapshot : D)
      → s.phase ≡ writing snapshot
      → (written s).phase ≡ ended true
      → (written s).file ≡ newest (written s)
  unfolding written
  drained s snapshot e = go s.pending refl
    where
      go :
          (o : Option D)
          → s.pending ≡ o
          → (written s).phase ≡ ended true
          → (written s).file ≡ newest (written s)
      go none f = rw (e, f, written) (λ p. refl)
      go (some newer) f = rw (e, f, written) (λ p. cc)

  -- In every history of a new store in which a snapshot is being written, if its write resolves and
  -- the drain ends with that, the file holds the snapshot that was saved last, whatever saves,
  -- flushes and failures came before.
  pub run-durable :
      (file : Option D) (es : List (Event D)) (snapshot : D)
      → (run es (create file)).phase ≡ writing snapshot
      → (written (run es (create file))).phase ≡ ended true
      → (written (run es (create file))).file ≡ last_saved file es
  unfolding create
  run-durable file es snapshot busy done =
      let s = run es (create file) in
      drained s snapshot busy done ∙ written-newest s ∙ run_from-newest es (create file)

  -- Where a drain has ended well but its `finally` has not run, a save followed by a flush leaves the
  -- snapshot unwritten although the flush is answered with `true`: after the `finally`, the call of
  -- `flush` and all that waited before it have got `true`, the store is idle without a timer, the
  -- snapshot is pending, and the file is as it was.
  pub late_save-stranded :
      (snapshot : D) (s : Store D)
      → s.phase ≡ ended true
      → ((settled (flush (save snapshot s))).answers ≡ s.answers ++ repeat (suc s.waiting) true)
        × ((settled (flush (save snapshot s))).waiting ≡ 0)
        × ((settled (flush (save snapshot s))).phase ≡ idle)
        × ((settled (flush (save snapshot s))).pending ≡ some snapshot)
        × ((settled (flush (save snapshot s))).timer ≡ false)
        × ((settled (flush (save snapshot s))).file ≡ s.file)
  unfolding save schedule_flush flush settled
  late_save-stranded snapshot s e = elim (Bool-cases s.timer) [
    | inl on ↦ rw (e, on, settled, flush, save) (refl, refl, refl, refl, refl, refl)
    | inr off ↦ rw (e, off, settled, flush, save) (refl, refl, refl, refl, refl, refl)
  ]

-- ===== src/StateStore/Tests.antt =====
-- The store at concrete inputs.
use polkadot_chat_agents.Base.{ℕ, true, false, none, some, List, [], ◌∷◌, ◌≡◌, refl}
use polkadot_chat_agents.StateStore.{
  idle, writing, ended, Store, create, save, flush, written, settled, Event, saves, flushes, fires,
  fails, settles, run,
}
use polkadot_chat_agents.StateStore.Durable.{last_saved, run-durable, late_save-stranded}

-- the first write fails, and a newer snapshot is saved before the timer's flush
abbrev events : List (Event ℕ)
events = saves 1 ∷ flushes ∷ fails ∷ settles ∷ saves 2 ∷ fires ∷ []

writes_newer : (written (run events (create none))).file ≡ some 2
unfolding run create written
writes_newer = refl

is_writing : (run events (create none)).phase ≡ writing 2
unfolding run create
is_writing = refl

ends_well : (written (run events (create none))).phase ≡ ended true
unfolding run create written
ends_well = refl

run-durable_example : (written (run events (create none))).file ≡ last_saved none events
run-durable_example = run-durable none events 2 is_writing ends_well

-- `flush` of a store with nothing to write has ended at once
abbrev just_flushed : Store ℕ
just_flushed = record {
  timer = false;
  pending = none;
  phase = ended true;
  warned = false;
  file = some 1;
  waiting = 1;
  answers = [];
}

flush_ends : flush (create (some 1)) ≡ just_flushed
unfolding flush create
flush_ends = refl

-- both calls of `flush` get `true`, and 2 is not in the file
late_save-stranded_example :
    ((settled (flush (save 2 just_flushed))).answers ≡ true ∷ true ∷ [])
    × ((settled (flush (save 2 just_flushed))).waiting ≡ 0)
    × ((settled (flush (save 2 just_flushed))).phase ≡ idle)
    × ((settled (flush (save 2 just_flushed))).pending ≡ some 2)
    × ((settled (flush (save 2 just_flushed))).timer ≡ false)
    × ((settled (flush (save 2 just_flushed))).file ≡ some 1)
late_save-stranded_example = late_save-stranded 2 just_flushed refl

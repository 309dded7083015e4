-- ===== src/StateStore.antt =====
-- bot-core/lib/session-store.mjs: the debounced store of one JSON snapshot. The file holds the last
-- snapshot whose `write` resolved; a `write` that rejects leaves it as it was. After the drain's
-- body has returned, `flushing` stays set until its `finally` has run: the phase `ended`.
pub mod Durable
mod Tests
use polkadot_chat_agents.Base.{
  ℕ, zero, suc, ◌*◌, ◌%◌, ◌/◌, ◌+◌, ◌-◌, ◌≤◌, ◌<◌, String, Bool, true, false, not, ◌&&◌, ◌||◌,
  Option, none, some, List, [], ◌∷◌, ◌++◌, map, ◌≡◌, ◌≢◌, refl, ap, sym, ◌∙◌, subst, arith, leb,
  ltb, ◌==◌, length, keep_if, All, All-append, All-imp, length-append, length-keep_if-le,
  if◌then◌else◌, Bool-cases, Option-cases, inl, inr, key_dec, ite, if_pos, if_neg, ltb→lt,
  not_ltb→le, ◌⊎◌, append-nil, append_assoc, max, min, ◌↔◌,
}

pub data Phase (D : Type 0) : Type 0 where
  idle : Phase D
  -- the `await` of `write`, with its data
  writing : D → Phase D
  -- with what the drain returned
  ended : Bool → Phase D

pub record Store (D : Type 0) : Type 0 where
  pub timer : Bool
  pub pending : Option D
  pub phase : Phase D
  pub warned : Bool
  pub file : Option D
  -- the calls of `flush`, the timer's among them, that await the drain, and what each got
  pub waiting : ℕ
  pub answers : List Bool

abbrev pub repeat : ℕ → Bool → List Bool
repeat zero answer = []
repeat (suc n) answer = answer ∷ repeat n answer

module _ {D : Type 0} where
  unfoldable pub create : Option D → Store D
  create file = record {
    timer = false;
    pending = none;
    phase = idle;
    warned = false;
    file = file;
    waiting = 0;
    answers = [];
  }

  abbrev pub is_some : Option D → Bool
  is_some none = false
  is_some (some d) = true

  unfoldable pub schedule_flush : Store D → Store D
  schedule_flush s = if s.timer || not (is_some s.pending) then s else record s { timer = true }

  unfoldable pub save : D → Store D → Store D
  unfolding schedule_flush
  save snapshot s = schedule_flush (record s { pending = some snapshot })

  -- the head of the drain's loop
  abbrev pub drain_on : Option D → Store D → Store D
  drain_on none s = record s { phase = ended true }
  drain_on (some snapshot) s = record s { pending = none; phase = writing snapshot }

  -- `flush`, where `flushing` is null and where it is not
  abbrev pub drain_from : Phase D → Store D → Store D
  drain_from idle s = drain_on s.pending s
  drain_from (writing snapshot) s = s
  drain_from (ended ok) s = s

  unfoldable pub flush : Store D → Store D
  flush s = drain_from s.phase (record s { timer = false; waiting = suc s.waiting })

  unfoldable pub timer_fires : Store D → Store D
  unfolding flush
  timer_fires s = if s.timer then flush s else s

  abbrev pub written_in : Phase D → Store D → Store D
  written_in idle s = s
  written_in (writing snapshot) s =
      drain_on s.pending (record s { file = some snapshot; warned = false })
  written_in (ended ok) s = s

  -- `write` has resolved
  unfoldable pub written : Store D → Store D
  written s = written_in s.phase s

  abbrev pub or_else : Option D → D → D
  or_else none snapshot = snapshot
  or_else (some newer) snapshot = newer

  abbrev pub failed_in : Phase D → Store D → Store D
  failed_in idle s = s
  failed_in (writing snapshot) s =
      schedule_flush (record s {
        pending = some (or_else s.pending snapshot);
        warned = true;
        phase = ended false;
      })
  failed_in (ended ok) s = s

  -- `write` has rejected
  unfoldable pub failed : Store D → Store D
  unfolding schedule_flush
  failed s = failed_in s.phase s

  abbrev pub settled_in : Phase D → Store D → Store D
  settled_in idle s = s
  settled_in (writing snapshot) s = s
  settled_in (ended ok) s = record s {
    phase = idle;
    waiting = 0;
    answers = s.answers ++ repeat s.waiting ok;
  }

  -- the `finally` of the drain, and the answers of all who await it
  unfoldable pub settled : Store D → Store D
  settled s = settled_in s.phase s

pub data Event (D : Type 0) : Type 0 where
  saves : D → Event D
  flushes fires writes fails settles : Event D

module _ {D : Type 0} where
  unfoldable pub step : Event D → Store D → Store D
  unfolding save flush timer_fires written failed settled
  step (saves snapshot) s = save snapshot s
  step flushes s = flush s
  step fires s = timer_fires s
  step writes s = written s
  step fails s = failed s
  step settles s = settled s

  unfoldable pub run : List (Event D) → Store D → Store D
  unfolding step
  run [] s = s
  run (e ∷ es) s = run es (step e s)

-- ===== src/T3ams/Submission/Priority.antt =====
-- The priority clock. `onAdvance` is seen as the list of the priorities it was given. A clock
-- reading is `none` where it is no safe integer or negative; a raw priority is `none` where `BigInt`
-- refuses it or gives a negative number.
use polkadot_chat_agents.Base.{
  ℕ, suc, ◌*◌, ◌%◌, ◌/◌, ◌+◌, ◌-◌, ◌≤◌, ◌<◌, Bool, true, false, Option, none, some, List, [], ◌∷◌,
  ◌++◌, ◌≡◌, refl, arith, leb, ◌==◌, if◌then◌else◌,
}

pub record Clock : Type 0 where
  pub priority : ℕ
  pub advanced : List ℕ

abbrev pub ttl_seconds : ℕ
ttl_seconds = 86400

unfoldable pub restore_priority : Option ℕ → ℕ
restore_priority none = 0
restore_priority (some n) = n

unfoldable pub create : Option ℕ → Clock
unfolding restore_priority
create initial = record { priority = restore_priority initial; advanced = [] }

-- The sum of two Numbers below `2 ^ 53`: above that bound the even numbers are left, and an odd
-- sum goes to the multiple of four beside it.
unfoldable pub add_numbers : ℕ → ℕ → ℕ
add_numbers a b =
    if leb (a + b) 9007199254740992
    then a + b
    else if (a + b) % 4 == 1
    then a + b - 1
    else if (a + b) % 4 == 3
    then a + b + 1
    else a + b

unfoldable pub expiry_priority : ℕ → ℕ
unfolding add_numbers
expiry_priority seconds = add_numbers seconds ttl_seconds * 4294967296

abbrev pub advance : ℕ → Clock → Clock
advance next c = record { priority = next; advanced = c.advanced ++ next ∷ [] }

-- `nextPriority`; `none` is the error it throws
unfoldable pub next_priority : Option ℕ → Clock → Clock × Option ℕ
unfolding expiry_priority
next_priority none c = (c, none)
next_priority (some seconds) c =
    let next =
      if leb (expiry_priority seconds) c.priority
      then suc c.priority
      else expiry_priority seconds in
    (advance next c, some next)

unfoldable pub note_rejected_priority : Option ℕ → Clock → Clock × Bool
unfolding restore_priority
note_rejected_priority minimum c =
    let candidate = restore_priority minimum in
    if leb candidate c.priority then (c, false) else (advance candidate c, true)

pub data Call : Type 0 where
  take_next : Option ℕ → Call
  rejected : Option ℕ → Call

abbrev append_option : Option ℕ → List ℕ → List ℕ
append_option none xs = xs
append_option (some n) xs = n ∷ xs

-- a history of calls, with the priorities it gave out
unfoldable pub run : List Call → Clock → Clock × List ℕ
unfolding next_priority note_rejected_priority
run [] c = (c, [])
run (take_next reading ∷ calls) c =
    let (c', issued) = next_priority reading c in
    let (end, more) = run calls c' in (end, append_option issued more)
run (rejected minimum ∷ calls) c = run calls (note_rejected_priority minimum c).0

-- strictly increasing, and above the bound
abbrev pub AscendsFrom : ℕ → List ℕ → Type 0
AscendsFrom bound [] = Unit
AscendsFrom bound (x ∷ xs) = (bound < x) × AscendsFrom x xs

AscendsFrom-weaken : (a b : ℕ) (xs : List ℕ) → a ≤ b → AscendsFrom b xs → AscendsFrom a xs
AscendsFrom-weaken a b [] le h = tt
AscendsFrom-weaken a b (x ∷ xs) le h = (omega (arith, le, h.0), h.1)

next_priority-issues :
    (seconds : ℕ) (c : Clock)
    → ((next_priority (some seconds) c).1 ≡ some (next_priority (some seconds) c).0.priority)
      × (c.priority < (next_priority (some seconds) c).0.priority)
unfolding next_priority
next_priority-issues seconds c = ground arith

note_rejected-le :
    (minimum : Option ℕ) (c : Clock) → c.priority ≤ (note_rejected_priority minimum c).0.priority
unfolding note_rejected_priority
note_rejected-le minimum c = ground arith

-- The priorities that a history of calls gives out increase strictly, from above the one that the
-- clock started at, whatever the clock readings and the rejected priorities are.
pub run-AscendsFrom : (calls : List Call) (c : Clock) → AscendsFrom c.priority (run calls c).1
unfolding run
run-AscendsFrom [] c = tt
run-AscendsFrom (take_next none ∷ calls) c = unfold next_priority in run-AscendsFrom calls c
run-AscendsFrom (take_next (some seconds) ∷ calls) c =
    let h = next_priority-issues seconds c in
    (h.1, run-AscendsFrom calls (next_priority (some seconds) c).0)
run-AscendsFrom (rejected minimum ∷ calls) c =
    AscendsFrom-weaken _ _ (run calls (note_rejected_priority minimum c).0).1
      (note_rejected-le minimum c) (run-AscendsFrom calls (note_rejected_priority minimum c).0)

-- Where the clock reads a time whose sum with the retention is exact, `nextPriority` answers, with
-- the priority that it keeps, it reports that priority, once, after what it has reported before, and
-- the high word of it lies at least the retention ahead.
pub next_priority-expires :
    (seconds : ℕ) (c : Clock)
    → seconds + ttl_seconds ≤ 9007199254740992
    → ((next_priority (some seconds) c).1 ≡ some (next_priority (some seconds) c).0.priority)
      × ((next_priority (some seconds) c).0.advanced
          ≡ c.advanced ++ (next_priority (some seconds) c).0.priority ∷ [])
      × (seconds + ttl_seconds ≤ (next_priority (some seconds) c).0.priority / 4294967296)
unfolding next_priority expiry_priority add_numbers
next_priority-expires seconds c exact = (refl, refl, ground arith)

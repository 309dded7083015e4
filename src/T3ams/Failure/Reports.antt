-- ===== src/T3ams/Failure/Reports.antt =====
-- When a failure is reported.
use polkadot_chat_agents.T3ams.Failure.{Failure, count_after, was_reported, next_failure, failures}
use polkadot_chat_agents.Base.{
  ◌&&◌, ◌||◌, ◌++◌, ◌∙◌, ap, not, min, suc, zero, ◌+◌, ◌≡◌, refl, subst, if_pos, key_dec, true,
  false, some, none, Bool, if◌then◌else◌, leb, ℕ, ◌≤◌, String, Option, List, [], ◌∷◌, arith,
}

abbrev pub repeat : ℕ → String → List String
repeat zero signature = []
repeat (suc n) signature = signature ∷ repeat n signature

abbrev pub escalations : List Failure → ℕ
escalations [] = 0
escalations (f ∷ fs) = (if f.escalate then 1 else 0) + escalations fs

abbrev allowed : Bool → ℕ
allowed reported = if reported then 0 else 1

abbrev pub last_of : Option Failure → List Failure → Option Failure
last_of previous [] = previous
last_of previous (f ∷ fs) = last_of (some f) fs

bounded_step :
    (r c : Bool) (x : ℕ)
    → x ≤ allowed (r || (not r && c))
    → (if not r && c then 1 else 0) + x ≤ allowed r
bounded_step true c x h = omega (arith, h)
bounded_step false true x h = omega (arith, h)
bounded_step false false x h = omega (arith, h)

told_step :
    (r c : Bool) (x : ℕ)
    → r ≡ false
    → ((r || (not r && c)) ≡ false → 1 ≤ x)
    → 1 ≤ (if not r && c then 1 else 0) + x
told_step true c x h later = absurd (cc h)
told_step false true x h later = omega arith
told_step false false x h later = omega (arith, later refl)

reported_step : (r c : Bool) → c ≡ true → (r || (not r && c)) ≡ true
reported_step true c h = refl
reported_step false c h = h

module _ (threshold : ℕ) where
  escalations-from :
      (signatures : List String) (previous : Option Failure)
      → escalations (failures threshold signatures previous) ≤ allowed (was_reported previous)
  unfolding failures next_failure
  escalations-from [] previous = omega arith
  escalations-from (s ∷ ss) previous =
      bounded_step (was_reported previous) (leb threshold (count_after previous s)) _
        (escalations-from ss (some (next_failure threshold previous s)))

  -- a failure that has come `n` times in a row, with the count capped at 100
  record Counts (n : ℕ) (signature : String) (f : Failure) : Type 0 where
    same : f.failure_signature ≡ signature
    enough : min 100 n ≤ f.consecutive_failures
    reported : threshold ≤ f.consecutive_failures → f.stuck_reported ≡ true

  next-reported :
      (previous : Option Failure) (s : String)
      → threshold ≤ (next_failure threshold previous s).consecutive_failures
      → (next_failure threshold previous s).stuck_reported ≡ true
  unfolding next_failure
  next-reported previous s h =
      reported_step (was_reported previous) (leb threshold (count_after previous s))
        (ground (arith, h))

  first-Counts :
      (previous : Option Failure) (s : String) → Counts 1 s (next_failure threshold previous s)
  unfolding next_failure
  first-Counts previous s = record {
    same = refl;
    enough = at_least previous;
    reported = next-reported previous s;
  }
    where
      at_least : (o : Option Failure) → min 100 1 ≤ count_after o s
      at_least none = omega arith
      at_least (some f) = ground arith

  next-Counts :
      (n : ℕ) (s : String) (f : Failure)
      → Counts n s f
      → Counts (suc n) s (next_failure threshold (some f) s)
  unfolding next_failure
  next-Counts n s f h = record {
    same = refl;
    enough = rw (if_pos (key_dec f.failure_signature s) h.same) (ground (arith, h.enough));
    reported = next-reported (some f) s;
  }

  -- the failure after more of the same
  abbrev LastCounts : ℕ → String → Option Failure → Type 0
  LastCounts n s none = ⊥
  LastCounts n s (some f) = Counts n s f

  repeat-Counts :
      (k n : ℕ) (s : String) (f : Failure)
      → Counts n s f
      → LastCounts (k + n) s (last_of (some f) (failures threshold (repeat k s) (some f)))
  unfolding failures
  repeat-Counts zero n s f h = subst (λ i. Counts i s f) (omega arith) h
  repeat-Counts (suc k) n s f h =
      subst
        (λ i. LastCounts i s (last_of (some f) (failures threshold (repeat (suc k) s) (some f))))
        (omega arith)
        (repeat-Counts k (suc n) s (next_failure threshold (some f) s) (next-Counts n s f h))

  repeat-reported :
      (k : ℕ) (s : String) (previous : Option Failure)
      → threshold ≤ suc k
      → threshold ≤ 100
      → was_reported (last_of previous (failures threshold (repeat (suc k) s) previous)) ≡ true
  unfolding failures
  repeat-reported k s previous often low =
      told
        (last_of (some (next_failure threshold previous s))
          (failures threshold (repeat k s) (some (next_failure threshold previous s))))
        (repeat-Counts k 1 s (next_failure threshold previous s) (first-Counts previous s))
    where
      told : (o : Option Failure) → LastCounts (k + 1) s o → was_reported o ≡ true
      told none h = absurd h
      told (some f) h = h.reported (ground (arith, h.enough, often, low))

  last_of-append :
      (xs ys : List String) (previous : Option Failure)
      → last_of previous (failures threshold (xs ++ ys) previous)
        ≡ last_of
            (last_of previous (failures threshold xs previous))
            (failures threshold ys (last_of previous (failures threshold xs previous)))
  unfolding failures
  last_of-append [] ys previous = refl
  last_of-append (x ∷ xs) ys previous =
      last_of-append xs ys (some (next_failure threshold previous x))

  -- what is reported in the end and was not before has been escalated in between
  reported-escalates :
      (signatures : List String) (previous : Option Failure)
      → was_reported previous ≡ false
      → was_reported (last_of previous (failures threshold signatures previous)) ≡ true
      → 1 ≤ escalations (failures threshold signatures previous)
  unfolding failures next_failure
  reported-escalates [] previous fresh told = absurd (cc (fresh, told))
  reported-escalates (s ∷ ss) previous fresh told =
      told_step (was_reported previous) (leb threshold (count_after previous s)) _ fresh
        (λ later. reported-escalates ss (some (next_failure threshold previous s)) later told)

  -- In any sequence of failures of a delivery at most one escalates; and exactly one does in a
  -- sequence from the first failure on, where the last ones are equal and as many as the threshold
  -- says or more, and the threshold is at most 100.
  pub failures-reported :
      (signatures : List String) (previous : Option Failure) (k : ℕ) (s : String)
      → threshold ≤ suc k
      → threshold ≤ 100
      → (escalations (failures threshold signatures previous) ≤ 1)
        × (escalations (failures threshold (signatures ++ repeat (suc k) s) none) ≡ 1)
  failures-reported signatures previous k s often low = (
    ground (arith, escalations-from signatures previous),
    omega (
      arith,
      escalations-from (signatures ++ repeat (suc k) s) none,
      reported-escalates (signatures ++ repeat (suc k) s) none refl (
          ap was_reported (last_of-append signatures (repeat (suc k) s) none)
          ∙ repeat-reported k s (last_of none (failures threshold signatures none)) often low),
    ),
  )

-- ===== src/Outbound/Accounting/Steps/Events.antt =====
-- The accounts of a lane over its events, and over every history.
use polkadot_chat_agents.Base.{
  ℕ, suc, String, Bool, true, false, not, Option, none, some, List, [], ◌∷◌, ◌++◌, ◌≡◌, refl, arith,
  leb, length, keep_if, All, All-append, Bool-cases, inl, inr,
}
use polkadot_chat_agents.Outbound.Lane.{
  Env, Entry, Current, Batch, Lane, Phase, idle, woken, submitting, apply_supersedes, is_superseded,
  resolve_entries, reject_entries, retire_entries,
}
use polkadot_chat_agents.Outbound.Pump.{
  base_of, submit_failed, enqueue, free_slot, expire, Event, enqueued, acked, expired, woke,
  submit_resolved, submit_rejected, grace_fired, rescheduled, step,
}
use polkadot_chat_agents.Outbound.Cases.{
  on_ack-cases, grace_fires-cases, disarmed, expire-cases, submit_ok-cases, submit_failed-cases,
  wake-cases, repump-cases,
}
use polkadot_chat_agents.Outbound.Accounting.{
  IsRaced, tally, tally-nil, IsClean, Agrees, FlightAgrees, IsAccounted, tally-append,
  tally-keep_if_split, deliveries-append, deliveries-resolve_entries, deliveries-reject_entries,
  deliveries-retire_entries,
}
use polkadot_chat_agents.Outbound.Accounting.Steps.{
  IsAccounted-same, pump-IsAccounted, round-IsAccounted, after_submit-IsAccounted,
}

module _ {O : Type 0} where
  All-keep_if {κ} :
      (P : Entry O → Type κ) (p : Entry O → Bool) (xs : List (Entry O))
      → All P xs
      → All P (keep_if p xs)
  All-keep_if P p [] h = tt
  All-keep_if P p (x ∷ xs) h = elim (Bool-cases (p x)) [
    | inl e ↦ rw e (h.0, All-keep_if P p xs h.1)
    | inr e ↦ rw e (All-keep_if P p xs h.1)
  ]

  IsClean-keep_if : (p : Entry O → Bool) (xs : List (Entry O)) → IsClean xs → IsClean (keep_if p xs)
  IsClean-keep_if p [] h = tt
  IsClean-keep_if p (x ∷ xs) h = elim (Bool-cases (p x)) [
    | inl e ↦ rw e (
      All-keep_if (λ later. is_superseded later.supersedes x ≡ false) p xs h.0,
      IsClean-keep_if p xs h.1,
    )
    | inr e ↦ rw e (IsClean-keep_if p xs h.1)
  ]

  -- once `ids` are dropped, an entry that supersedes them can join the queue
  IsClean-snoc :
      (y : Entry O) (xs : List (Entry O))
      → IsClean xs
      → All (λ x. is_superseded y.supersedes x ≡ false) xs
      → IsClean (xs ++ y ∷ [])
  IsClean-snoc y [] h a = (tt, tt)
  IsClean-snoc y (x ∷ xs) h a = (
    All-append (λ later. is_superseded later.supersedes x ≡ false) xs (y ∷ []) h.0 (a.0, tt),
    IsClean-snoc y xs h.1 a.1,
  )

  All-not_superseded :
      (ids : List String) (xs : List (Entry O))
      → All (λ x. is_superseded ids x ≡ false) (keep_if (λ e. not (is_superseded ids e)) xs)
  All-not_superseded ids [] = tt
  All-not_superseded ids (x ∷ xs) = elim (Bool-cases (is_superseded ids x)) [
    | inl e ↦ rw e (All-not_superseded ids xs)
    | inr e ↦ rw e (e, All-not_superseded ids xs)
  ]

module _ {O : Type 0} (env : Env O) where
  apply_supersedes-IsAccounted :
      (ids : List String) (lane : Lane O)
      → IsAccounted lane
      → IsAccounted (apply_supersedes ids lane)
  unfolding apply_supersedes
  apply_supersedes-IsAccounted ids lane h = record {
    once = λ n. omega (
      arith,
      h.once n,
      tally-keep_if_split n (is_superseded ids) lane.queue,
      deliveries-append n lane.log (retire_entries (keep_if (is_superseded ids) lane.queue)),
      deliveries-retire_entries n (keep_if (is_superseded ids) lane.queue),
    );
    clean = IsClean-keep_if (λ e. not (is_superseded ids e)) lane.queue h.clean;
    flight = h.flight;
  }

  push-IsAccounted :
      (lane : Lane O) (e : Entry O)
      → e.serial ≡ lane.next_serial
      → All (λ x. is_superseded e.supersedes x ≡ false) lane.queue
      → IsAccounted lane
      → IsAccounted
          (record lane { queue = lane.queue ++ e ∷ []; next_serial = suc lane.next_serial })
  unfolding tally
  push-IsAccounted lane e s a h = record {
    once = λ n. ground (arith, h.once n, tally-append n lane.queue (e ∷ []));
    clean = IsClean-snoc e lane.queue h.clean a;
    flight = h.flight;
  }

  enqueue-IsAccounted :
      (o : O) (m : Option String) (f : Bool) (ids : List String) (lane : Lane O)
      → IsAccounted lane
      → IsAccounted (enqueue env o m f ids lane).0
  unfolding enqueue
  enqueue-IsAccounted o m f ids lane h =
      let h' = apply_supersedes-IsAccounted ids lane h in
      elim (Bool-cases (leb env.max_queued (length (apply_supersedes ids lane).queue))) [
        | inl full ↦ rw full h'
        | inr room ↦ rw room (
            pump-IsAccounted env _ (
              push-IsAccounted (apply_supersedes ids lane) _ refl
                (All-not_superseded ids lane.queue) h'))
      ]

  Agrees-none : (slot : Option (Current O)) (b : Batch O) → Agrees slot b → Agrees none b
  Agrees-none none b h = h
  Agrees-none (some c) b h = λ e. cc

  FlightAgrees-none :
      (slot : Option (Current O)) (ph : Phase O) → FlightAgrees slot ph → FlightAgrees none ph
  FlightAgrees-none slot idle h = tt
  FlightAgrees-none slot woken h = tt
  FlightAgrees-none slot (submitting b) h = Agrees-none slot b h

  free_slot-IsAccounted :
      (ok : Bool) (lane : Lane O) (c : Current O)
      → lane.current ≡ some c
      → IsAccounted lane
      → IsAccounted (free_slot env ok lane c)
  unfolding free_slot
  free_slot-IsAccounted ok lane c e h =
      pump-IsAccounted env
        (record lane {
          log = lane.log ++ resolve_entries c.entries ok;
          current = none;
          grace_timer = false;
        })
        (record {
          once = λ n. omega (
            arith,
            rw e at (h.once n),
            tally-nil O n,
            deliveries-append n lane.log (resolve_entries c.entries ok),
            deliveries-resolve_entries n c.entries ok,
          );
          clean = h.clean;
          flight = FlightAgrees-none lane.current lane.phase h.flight;
        })

  expire-IsAccounted : (lane : Lane O) → IsAccounted lane → IsAccounted (expire env lane).0
  expire-IsAccounted lane h = elim (expire-cases env lane) [
    | inl same ↦ rw same h
    | inr (rest, gone) ↦ rw gone (record {
      once = λ n. omega (
        arith,
        rw rest at (h.once n),
        tally-nil O n,
        deliveries-append n lane.log
            (resolve_entries (base_of lane.current) false ++ reject_entries lane.queue),
        deliveries-append n (resolve_entries (base_of lane.current) false)
            (reject_entries lane.queue),
        deliveries-resolve_entries n (base_of lane.current) false,
        deliveries-reject_entries n lane.queue,
      );
      clean = tt;
      flight = tt;
    })
  ]

  submit_failed-IsAccounted :
      (lane : Lane O) → IsAccounted lane → IsAccounted (submit_failed env lane)
  submit_failed-IsAccounted lane h = elim (submit_failed-cases env lane) [
    | inl same ↦ rw same h
    | inr (b, flying, failed) ↦ rw failed (record {
      once = λ n. omega (
        arith,
        rw flying at (h.once n),
        deliveries-append n lane.log (reject_entries b.fresh),
        deliveries-reject_entries n b.fresh,
      );
      clean = h.clean;
      flight = tt;
    })
  ]

  -- Every event keeps the accounts of a lane: each entry it accepted is exactly once in the queue,
  -- among the new entries of the batch in flight, in the statement in the slot, or among the
  -- entries whose `delivered` was resolved, and no entry is superseded by one queued behind it. The
  -- one event left out is a submit that resolves as an extension after its base left the slot.
  pub step-IsAccounted :
      (e : Event O) (lane : Lane O)
      → ((now : ℕ) → e ≡ submit_resolved now → ¬ IsRaced lane)
      → IsAccounted lane
      → IsAccounted (step env e lane)
  unfolding step
  step-IsAccounted (enqueued o m f ids) lane safe h = enqueue-IsAccounted o m f ids lane h
  step-IsAccounted (acked rid) lane safe h = elim (on_ack-cases env lane rid) [
    | inl same ↦ rw same h
    | inr (c, slot, id, freed) ↦ rw freed (free_slot-IsAccounted true lane c slot h)
  ]
  step-IsAccounted expired lane safe h = expire-IsAccounted lane h
  step-IsAccounted woke lane safe h = elim (wake-cases env lane) [
    | inl same ↦ rw same h
    | inr (up, more) ↦
        rw more (round-IsAccounted env lane ((λ n. omega (arith, rw up at (h.once n))), h.clean))
  ]
  step-IsAccounted (submit_resolved now) lane safe h = elim (submit_ok-cases env lane now) [
    | inl same ↦ rw same h
    | inr (b, flying, landing) ↦
        rw landing (after_submit-IsAccounted env now lane b flying (safe now refl) h)
  ]
  step-IsAccounted submit_rejected lane safe h = submit_failed-IsAccounted lane h
  step-IsAccounted (grace_fired now) lane safe h = elim (grace_fires-cases env lane now) [
    | inl (inl same) ↦ rw same h
    | inl (inr off) ↦
        rw off (IsAccounted-same env lane (disarmed env lane) refl refl refl refl refl h)
    | inr (c, slot, late, freed) ↦ rw freed (free_slot-IsAccounted false lane c slot h)
  ]
  step-IsAccounted rescheduled lane safe h = elim (repump-cases env lane) [
    | inl same ↦ rw same h
    | inr again ↦ rw again (
        pump-IsAccounted env (record lane { scheduled = false })
          (IsAccounted-same env lane (record lane { scheduled = false }) refl refl refl refl refl
            h))
  ]

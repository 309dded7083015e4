-- ===== src/Outbound/Accounting.antt =====
-- Where the entries of a lane are: in the queue, new in the batch in flight, in the statement in
-- the slot, or answered. Here: the counts, and what `packBatch` does to them.
pub mod Packing
pub mod Steps
use polkadot_chat_agents.Base.{
  ℕ, zero, suc, ◌+◌, ◌-◌, ◌≤◌, ◌<◌, String, Bool, true, false, not, ◌&&◌, ◌||◌, Option, none, some,
  List, [], ◌∷◌, ◌++◌, map, ◌≡◌, ◌≢◌, refl, ap, sym, ◌∙◌, subst, arith, leb, ltb, ◌==◌, length,
  keep_if, All, All-append, All-imp, length-append, length-keep_if-le, if◌then◌else◌, Bool-cases,
  Option-cases, inl, inr, key_dec, ite, if_pos, if_neg, ltb→lt, not_ltb→le, ◌⊎◌, append-nil,
  append_assoc, max, min, ◌↔◌,
}
use polkadot_chat_agents.Outbound.Lane.{
  Env, Entry, Current, Batch, Lane, Phase, idle, woken, submitting, apply_supersedes, Outcome,
  submitted, rejected, delivered, threw, is_superseded, resolve_entries, resolve_submitted,
  reject_entries, retire_entries,
}
use polkadot_chat_agents.Outbound.Pack.{includes}
use polkadot_chat_agents.Outbound.Pump.{base_of}

module _ {O : Type 0} where
  -- how often the entry `n` stands in a list
  unfoldable pub tally : ℕ → List (Entry O) → ℕ
  tally n [] = 0
  tally n (e ∷ es) = if e.serial == n then suc (tally n es) else tally n es

pub tally-nil : (O : Type 0) (n : ℕ) → tally {O = O} n [] ≡ 0
unfolding tally
tally-nil O n = refl

-- how often `delivered` was resolved for the entry `n`
unfoldable pub deliveries : ℕ → List Outcome → ℕ
deliveries n [] = 0
deliveries n (submitted m ∷ log) = deliveries n log
deliveries n (rejected m ∷ log) = deliveries n log
deliveries n (delivered m ok ∷ log) = if m == n then suc (deliveries n log) else deliveries n log
deliveries n (threw ∷ log) = deliveries n log

abbrev pub expected : ℕ → ℕ → ℕ
expected n next_serial = if ltb n next_serial then 1 else 0

module _ {O : Type 0} where
  abbrev pub in_flight : ℕ → Phase O → ℕ
  in_flight n (submitting b) = tally n b.fresh
  in_flight n _ = 0

  abbrev pub settled_or_held : Lane O → ℕ → ℕ
  settled_or_held lane n =
      tally n lane.queue + tally n (base_of lane.current) + deliveries n lane.log

  -- no entry is superseded by one behind it
  abbrev pub Keeps : Entry O → List (Entry O) → Type 0
  Keeps e = All (λ later. is_superseded later.supersedes e ≡ false)

  abbrev pub IsClean : List (Entry O) → Type 0
  IsClean [] = Unit
  IsClean (e ∷ es) = Keeps e es × IsClean es

  -- what the locals of a `pump` at its `await` say of the statement that will stand in the slot
  abbrev pub Agrees : Option (Current O) → Batch O → Type 0
  Agrees (some c) b =
      (b.extending ≡ true)
      × ((n : ℕ) → tally n c.entries + tally n b.fresh ≡ tally n b.entries + tally n b.dropped)
  Agrees none b =
      b.extending ≡ false
      → (n : ℕ) → (tally n b.fresh ≡ tally n b.entries) × (tally n b.dropped ≡ 0)

  abbrev pub FlightAgrees : Option (Current O) → Phase O → Type 0
  FlightAgrees slot (submitting b) = Agrees slot b
  FlightAgrees slot _ = Unit

  -- An extension is in flight, and the statement that it extends has left the slot.
  abbrev pub IsRaced : Lane O → Type 0
  IsRaced lane =
      (b : Batch O) × (lane.phase ≡ submitting b) × (b.extending ≡ true) × (lane.current ≡ none)

  pub record IsAccounted (lane : Lane O) : Type 0 where
    pub once :
        (n : ℕ) → settled_or_held lane n + in_flight n lane.phase ≡ expected n lane.next_serial
    pub clean : IsClean lane.queue
    pub flight : FlightAgrees lane.current lane.phase

  pub tally-append : (n : ℕ) (xs ys : List (Entry O)) → tally n (xs ++ ys) ≡ tally n xs + tally n ys
  unfolding tally
  tally-append n [] ys = omega arith
  tally-append n (x ∷ xs) ys = ground (arith, tally-append n xs ys)

  pub tally-keep_if_split :
      (n : ℕ) (p : Entry O → Bool) (es : List (Entry O))
      → tally n (keep_if (λ e. not (p e)) es) + tally n (keep_if p es) ≡ tally n es
  unfolding tally
  tally-keep_if_split n p [] = omega arith
  tally-keep_if_split n p (e ∷ es) = ground (arith, tally-keep_if_split n p es)

  pub tally-keep_if-le :
      (n : ℕ) (p : Entry O → Bool) (es : List (Entry O)) → tally n (keep_if p es) ≤ tally n es
  tally-keep_if-le n p es = omega (arith, tally-keep_if_split n p es)

module _ {O : Type 0} (env : Env O) where
  includes-tally :
      (base : List (Entry O)) (e : Entry O) → includes env base e ≡ not (tally e.serial base == 0)
  unfolding includes tally
  includes-tally [] e = refl
  includes-tally (x ∷ base) e = ground (arith, includes-tally base e)

  -- filtering by identity, counted
  pub tally-keep_if-includes :
      (n : ℕ) (base es : List (Entry O))
      → tally n (keep_if (λ e. not (includes env base e)) es)
        ≡ (if tally n base == 0 then tally n es else 0)
  unfolding tally
  tally-keep_if-includes n base [] = ground arith
  tally-keep_if-includes n base (e ∷ es) =
      ground (arith, includes-tally base e, tally-keep_if-includes n base es)

pub deliveries-append :
    (n : ℕ) (xs ys : List Outcome) → deliveries n (xs ++ ys) ≡ deliveries n xs + deliveries n ys
unfolding deliveries
deliveries-append n [] ys = omega arith
deliveries-append n (submitted m ∷ xs) ys = deliveries-append n xs ys
deliveries-append n (rejected m ∷ xs) ys = deliveries-append n xs ys
deliveries-append n (delivered m ok ∷ xs) ys = ground (arith, deliveries-append n xs ys)
deliveries-append n (threw ∷ xs) ys = deliveries-append n xs ys

module _ {O : Type 0} (n : ℕ) where
  pub deliveries-resolve_entries :
      (es : List (Entry O)) (ok : Bool) → deliveries n (resolve_entries es ok) ≡ tally n es
  unfolding deliveries resolve_entries tally
  deliveries-resolve_entries [] ok = refl
  deliveries-resolve_entries (e ∷ es) ok = ground (arith, deliveries-resolve_entries es ok)

  pub deliveries-resolve_submitted : (es : List (Entry O)) → deliveries n (resolve_submitted es) ≡ 0
  unfolding deliveries resolve_submitted
  deliveries-resolve_submitted [] = refl
  deliveries-resolve_submitted (e ∷ es) = deliveries-resolve_submitted es

  pub deliveries-reject_entries :
      (es : List (Entry O)) → deliveries n (reject_entries es) ≡ tally n es
  unfolding deliveries reject_entries tally
  deliveries-reject_entries [] = refl
  deliveries-reject_entries (e ∷ es) = ground (arith, deliveries-reject_entries es)

  pub deliveries-retire_entries :
      (es : List (Entry O)) → deliveries n (retire_entries es) ≡ tally n es
  unfolding deliveries retire_entries tally
  deliveries-retire_entries [] = refl
  deliveries-retire_entries (e ∷ es) = ground (arith, deliveries-retire_entries es)

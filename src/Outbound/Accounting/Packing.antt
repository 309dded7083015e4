-- ===== src/Outbound/Accounting/Packing.antt =====
-- `packBatch` in counts: what it takes from the queue and what it gives out.
pub mod Locals
use polkadot_chat_agents.Base.{
  ℕ, zero, suc, ◌+◌, ◌-◌, ◌≤◌, ◌<◌, String, Bool, true, false, not, ◌&&◌, ◌||◌, Option, none, some,
  List, [], ◌∷◌, ◌++◌, map, ◌≡◌, ◌≢◌, refl, ap, sym, ◌∙◌, subst, arith, leb, ltb, ◌==◌, length,
  keep_if, All, All-append, All-imp, length-append, length-keep_if-le, if◌then◌else◌, Bool-cases,
  Option-cases, inl, inr, key_dec, ite, if_pos, if_neg, ltb→lt, not_ltb→le, ◌⊎◌, append-nil,
  append_assoc, max, min, ◌↔◌,
}
use polkadot_chat_agents.Outbound.Lane.{
  Current, Outcome, Env, Entry, Batch, Lane, is_superseded, reject_entries,
}
use polkadot_chat_agents.Outbound.Pack.{
  Packing, same_flag, candidate, refuse, accept, weigh, consider, pack_loop, batch_flag, to_batch,
  pack_batch, includes,
}
use polkadot_chat_agents.Outbound.Pump.{base_of, is_extending}
use polkadot_chat_agents.Outbound.Accounting.{
  Agrees, tally, deliveries, Keeps, IsClean, tally-append, tally-keep_if-le, tally-keep_if-includes,
  deliveries-append, deliveries-reject_entries,
}

module _ {O : Type 0} where
  keep_if-append :
      (p : Entry O → Bool) (xs ys : List (Entry O))
      → keep_if p (xs ++ ys) ≡ keep_if p xs ++ keep_if p ys
  keep_if-append p [] ys = refl
  keep_if-append p (x ∷ xs) ys = ground (arith, keep_if-append p xs ys)

  -- a clean list stays so with an entry less
  IsClean-tail : (xs ys : List (Entry O)) → IsClean (xs ++ ys) → IsClean ys
  IsClean-tail [] ys h = h
  IsClean-tail (x ∷ xs) ys h = IsClean-tail xs ys h.1

  All-remove {κ} :
      (P : Entry O → Type κ) (xs : List (Entry O)) (y : Entry O) (ys : List (Entry O))
      → All P (xs ++ y ∷ ys)
      → All P (xs ++ ys)
  All-remove P [] y ys h = h.1
  All-remove P (x ∷ xs) y ys h = (h.0, All-remove P xs y ys h.1)

  IsClean-remove :
      (xs : List (Entry O)) (y : Entry O) (ys : List (Entry O))
      → IsClean (xs ++ y ∷ ys)
      → IsClean (xs ++ ys)
  IsClean-remove [] y ys h = h.1
  IsClean-remove (x ∷ xs) y ys h = (
    All-remove (λ later. is_superseded later.supersedes x ≡ false) xs y ys h.0,
    IsClean-remove xs y ys h.1,
  )

  All-at {κ} :
      (P : Entry O → Type κ) (xs : List (Entry O)) (y : Entry O) (ys : List (Entry O))
      → All P (xs ++ y ∷ ys)
      → P y
  All-at P [] y ys h = h.0
  All-at P (x ∷ xs) y ys h = All-at P xs y ys h.1

  -- what stands before an entry of a clean list is kept by that entry
  keep_if_clean :
      (xs : List (Entry O)) (y : Entry O) (ys : List (Entry O))
      → IsClean (xs ++ y ∷ ys)
      → keep_if (λ e. not (is_superseded y.supersedes e)) xs ≡ xs
  keep_if_clean [] y ys h = refl
  keep_if_clean (x ∷ xs) y ys h =
      let kept : is_superseded y.supersedes x ≡ false =
        All-at (λ later. is_superseded later.supersedes x ≡ false) xs y ys h.0 in
      rw (kept) (ap (◌∷◌ x) (keep_if_clean xs y ys h.1))

  -- whether some entry of the list supersedes `e`
  unfoldable pub any_supersedes : List (Entry O) → Entry O → Bool
  any_supersedes [] e = false
  any_supersedes (t ∷ ts) e = is_superseded t.supersedes e || any_supersedes ts e

  any_supersedes-append :
      (ts us : List (Entry O)) (e : Entry O)
      → any_supersedes (ts ++ us) e ≡ (any_supersedes ts e || any_supersedes us e)
  unfolding any_supersedes
  any_supersedes-append [] us e = refl
  any_supersedes-append (t ∷ ts) us e = ground (arith, any_supersedes-append ts us e)

  -- the entries that no entry of `ts` supersedes
  abbrev pub spared : List (Entry O) → List (Entry O) → List (Entry O)
  spared ts = keep_if (λ e. not (any_supersedes ts e))

  spared-snoc :
      (ts : List (Entry O)) (y : Entry O) (base : List (Entry O))
      → keep_if (λ e. not (is_superseded y.supersedes e)) (spared ts base)
        ≡ spared (ts ++ y ∷ []) base
  unfolding any_supersedes
  spared-snoc ts y [] = refl
  spared-snoc ts y (e ∷ base) =
      ground (arith, any_supersedes-append ts (y ∷ []) e, spared-snoc ts y base)

  spared-nil : (base : List (Entry O)) → base ≡ spared [] base
  unfolding any_supersedes
  spared-nil [] = refl
  spared-nil (e ∷ base) = ap (◌∷◌ e) (spared-nil base)

module _ {O : Type 0} (env : Env O) where
  -- The loop's variables, split into what is left of the base and what was taken.
  record Splits (base : List (Entry O)) (mass : ℕ → ℕ) (rest : List (Entry O)) (p : Packing O)
      : Type 0 where
    kept : List (Entry O)
    taken : List (Entry O)
    split : p.entries ≡ kept ++ taken
    lossless : kept ≡ spared taken base
    within : (n : ℕ) → tally n kept ≤ tally n base
    conserved : (n : ℕ) → tally n taken + tally n rest + deliveries n p.log ≡ mass n
    clean : IsClean (taken ++ rest)
    unsealed : p.sealed ≡ none → taken ≡ []

  module _ (base : List (Entry O)) (mass : ℕ → ℕ) where
    Splits-refuse :
        (p : Packing O) (next : Entry O) (rest : List (Entry O))
        → Splits base mass (next ∷ rest) p
        → Splits base mass rest (refuse env p next)
    Splits-refuse p next rest h = record {
      kept = h.kept;
      taken = h.taken;
      split = h.split;
      lossless = h.lossless;
      within = h.within;
      conserved = λ n. omega (
        arith,
        h.conserved n,
        tally-append n (next ∷ []) rest,
        deliveries-append n p.log (reject_entries (next ∷ [])),
        deliveries-reject_entries n (next ∷ []),
      );
      clean = IsClean-remove h.taken next rest h.clean;
      unsealed = h.unsealed;
    }

    Splits-accept :
        (p : Packing O) (next : Entry O) (rest : List (Entry O)) (encoded : List ℕ)
        → Splits base mass (next ∷ rest) p
        → Splits base mass rest (accept env p next encoded)
    unfolding candidate
    Splits-accept p next rest encoded h = record {
      kept = keep_if (λ e. not (is_superseded next.supersedes e)) h.kept;
      taken = h.taken ++ next ∷ [];
      split = rw h.split (
          rw keep_if-append (
            rw (keep_if_clean h.taken next rest h.clean) (
              append_assoc (keep_if (λ e. not (is_superseded next.supersedes e)) h.kept) h.taken
                (next ∷ []))));
      lossless = rw h.lossless (spared-snoc h.taken next base);
      within = λ n. omega (
        arith,
        h.within n,
        tally-keep_if-le n (λ e. not (is_superseded next.supersedes e)) h.kept,
      );
      conserved = λ n. omega (
        arith,
        h.conserved n,
        tally-append n (next ∷ []) rest,
        tally-append n h.taken (next ∷ []),
      );
      clean = rw append_assoc h.clean;
      unsealed = λ e. cc;
    }

    Splits-same :
        (p p' : Packing O) (rest : List (Entry O))
        → p'.entries ≡ p.entries
        → p'.log ≡ p.log
        → p'.sealed ≡ p.sealed
        → Splits base mass rest p
        → Splits base mass rest p'
    Splits-same p p' rest e l s h = record {
      kept = h.kept;
      taken = h.taken;
      split = e ∙ h.split;
      lossless = h.lossless;
      within = h.within;
      conserved = λ n. rw l (h.conserved n);
      clean = h.clean;
      unsealed = λ q. h.unsealed (sym s ∙ q);
    }

    -- the queue after one entry was considered
    abbrev after : Bool → Entry O → List (Entry O) → List (Entry O)
    after true next rest = rest
    after false next rest = next ∷ rest

    weigh-Splits :
        (base_length : ℕ) (p : Packing O) (next : Entry O) (rest : List (Entry O))
        (r : Option (List ℕ))
        → Splits base mass (next ∷ rest) p
        → Splits base mass
            (after (weigh env base_length p next r).1 next rest)
            (weigh env base_length p next r).0
    unfolding weigh
    weigh-Splits base_length p next rest none h = Splits-refuse p next rest h
    weigh-Splits base_length p next rest (some encoded) h =
        elim (Bool-cases (ltb env.max_payload_bytes (length encoded))) [
          | inr small ↦ rw small (Splits-accept p next rest encoded h)
          | inl big ↦ rw big (elim (Bool-cases (ltb base_length (length p.entries))) [
            | inl more ↦ rw more (Splits-same p _ (next ∷ rest) refl refl refl h)
            | inr few ↦ rw few (elim (Bool-cases (length (candidate env p next) == 1)) [
              | inl one ↦ rw one (Splits-refuse p next rest h)
              | inr many ↦ rw many (Splits-same p _ (next ∷ rest) refl refl refl h)
            ])
          ])
        ]

    consider-Splits :
        (flag : Bool) (base_length : ℕ) (p : Packing O) (next : Entry O) (rest : List (Entry O))
        → Splits base mass (next ∷ rest) p
        → Splits base mass
            (after (consider env flag base_length p next).1 next rest)
            (consider env flag base_length p next).0
    unfolding consider
    consider-Splits flag base_length p next rest h =
        elim (Bool-cases (same_flag next.force_identity flag)) [
          | inl e ↦ rw e (weigh-Splits base_length p next rest _ h)
          | inr e ↦ rw e h
        ]

    pack_loop-Splits :
        (flag : Bool) (base_length : ℕ) (queue : List (Entry O)) (p : Packing O)
        → Splits base mass queue p
        → Splits base mass
            (pack_loop env flag base_length queue p).1
            (pack_loop env flag base_length queue p).0
    unfolding pack_loop
    pack_loop-Splits flag base_length [] p h = h
    pack_loop-Splits flag base_length (next ∷ rest) p h =
        let h' = consider-Splits flag base_length p next rest h in
        elim (Bool-cases (consider env flag base_length p next).1) [
          | inl e ↦
              rw (e, pack_loop)
                (pack_loop-Splits flag base_length rest (consider env flag base_length p next).0
                  (rw e at h'))
          | inr e ↦ rw (e, pack_loop) (rw e at h')
        ]

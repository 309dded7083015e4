-- ===== src/Outbound/Pack.antt =====
-- `packBatch`: greedily pack a prefix of the queue with one flag into one payload.
use polkadot_chat_agents.Base.{
  ℕ, suc, String, Bool, true, false, not, Option, none, some, List, [], ◌∷◌, ◌++◌, map, ltb, ◌==◌,
  length, keep_if, if◌then◌else◌,
}
use polkadot_chat_agents.Outbound.Lane.{
  Env, Entry, Batch, Lane, Outcome, is_superseded, reject_entries,
}

-- The loop's variables: `payload` and `requestId` are set together.
pub record Packing (O : Type 0) : Type 0 where
  pub entries : List (Entry O)
  pub sealed : Option (String × List ℕ)
  pub calls : ℕ
  pub log : List Outcome

abbrev pub same_flag : Bool → Bool → Bool
same_flag true b = b
same_flag false b = not b

module _ {O : Type 0} (env : Env O) where
  unfoldable pub candidate : Packing O → Entry O → List (Entry O)
  unfolding is_superseded
  candidate p next = keep_if (λ e. not (is_superseded next.supersedes e)) p.entries ++ next ∷ []

  -- the entry is spliced out and its promises fail
  abbrev pub refuse : Packing O → Entry O → Packing O
  refuse p next = record p { calls = suc p.calls; log = p.log ++ reject_entries (next ∷ []) }

  abbrev pub accept : Packing O → Entry O → List ℕ → Packing O
  accept p next encoded = record p {
    entries = candidate p next;
    sealed = some (env.request_id p.calls, encoded);
    calls = suc p.calls;
  }

  -- What the loop's body does once `encodeBatch` has answered; the Boolean says to go on.
  unfoldable pub weigh : ℕ → Packing O → Entry O → Option (List ℕ) → Packing O × Bool
  weigh base_length p next none = (refuse p next, true)
  weigh base_length p next (some encoded) =
      if ltb env.max_payload_bytes (length encoded)
      then (if ltb base_length (length p.entries)
          then (record p { calls = suc p.calls }, false)
          else if length (candidate p next) == 1
          then (refuse p next, true)
          else (record p { calls = suc p.calls }, false))
      else (accept p next encoded, true)

  -- one round of the `while` loop, its test on the flag included
  unfoldable pub consider : Bool → ℕ → Packing O → Entry O → Packing O × Bool
  unfolding weigh
  consider flag base_length p next =
      if same_flag next.force_identity flag
      then weigh base_length p next
          (env.encode (env.request_id p.calls) (map (λ e. e.opaque) (candidate p next)) flag)
      else (p, false)

  -- the loop; with the entries that stay in the queue
  unfoldable pub pack_loop : Bool → ℕ → List (Entry O) → Packing O → Packing O × List (Entry O)
  unfolding consider
  pack_loop flag base_length [] p = (p, [])
  pack_loop flag base_length (next ∷ rest) p =
      let (p', more) = consider flag base_length p next in
      elim more [ true ↦ pack_loop flag base_length rest p' | false ↦ (p', next ∷ rest) ]

  unfoldable pub batch_flag : List (Entry O) → List (Entry O) → Bool
  batch_flag (e ∷ base) queue = e.force_identity
  batch_flag [] (e ∷ queue) = e.force_identity
  batch_flag [] [] = false

  unfoldable pub includes : List (Entry O) → Entry O → Bool
  includes [] e = false
  includes (x ∷ xs) e = if x.serial == e.serial then true else includes xs e

  unfoldable pub to_batch :
      Bool → Bool → List (Entry O) → Packing O → Option (String × List ℕ) → Option (Batch O)
  unfolding includes
  to_batch flag extending base p none = none
  to_batch flag extending base p (some (rid, payload)) = some (record {
    request_id = rid;
    entries = p.entries;
    payload = payload;
    flag = flag;
    extending = extending;
    fresh = keep_if (λ e. not (includes base e)) p.entries;
    dropped = keep_if (λ e. not (includes p.entries e)) base;
  })

  -- `packBatch(peerHex, lane, base)` and the two filters that follow it in `pump`. The early
  -- return on another flag is the loop's own test at the first entry. Whether or not a batch comes
  -- out, the queue is what the loop left: nothing was taken where there is no request id.
  unfoldable pub pack_batch : Bool → List (Entry O) → Lane O → Lane O × Option (Batch O)
  unfolding pack_loop batch_flag to_batch
  pack_batch extending base lane =
      let flag = batch_flag base lane.queue in
      let start : Packing O = record {
        entries = base;
        sealed = none;
        calls = lane.calls;
        log = lane.log;
      } in
      let (p, rest) = pack_loop flag (length base) lane.queue start in
      (
        record lane { queue = rest; calls = p.calls; log = p.log },
        to_batch flag extending base p p.sealed,
      )

-- ===== src/Outbound/Lane.antt =====
-- The state of one lane, and what settles the promises of its entries.
use polkadot_chat_agents.Base.{
  ℕ, String, Bool, true, false, not, Option, none, some, List, [], ◌∷◌, ◌++◌, ite, key_dec, keep_if,
}

-- The callbacks and bounds that `createOutboundLanes` is given, for one peer. `encode` is
-- `encodeBatch`, which throws (`none`) or returns the payload's bytes; `request_id n` is what the
-- n-th call of `makeRequestId` returns.
pub record Env (O : Type 0) : Type 0 where
  pub encode : String → List O → Bool → Option (List ℕ)
  pub request_id : ℕ → String
  pub max_payload_bytes : ℕ
  pub max_extensions : ℕ
  pub max_queued : ℕ
  pub ack_grace_ms : ℕ

-- `serial` is the entry's identity as an object, by which `includes` compares.
pub record Entry (O : Type 0) : Type 0 where
  pub serial : ℕ
  pub opaque : O
  pub message_id : Option String
  pub force_identity : Bool
  pub supersedes : List String

pub record Current (O : Type 0) : Type 0 where
  pub request_id : String
  pub entries : List (Entry O)
  pub extensions : ℕ
  pub force_identity : Bool
  pub submitted_at : ℕ

-- What `packBatch` returns, with the locals that `pump` computes from it before its `await`.
pub record Batch (O : Type 0) : Type 0 where
  pub request_id : String
  pub entries : List (Entry O)
  pub payload : List ℕ
  pub flag : Bool
  pub extending : Bool
  pub fresh : List (Entry O)
  pub dropped : List (Entry O)

-- The calls that settle an entry's two promises, and an exception that leaves `pump`.
pub data Outcome : Type 0 where
  submitted : ℕ → Outcome
  rejected : ℕ → Outcome
  delivered : ℕ → Bool → Outcome
  threw : Outcome

-- Where `pump` stands: not running, before its `setImmediate`, or at `await submitPayload`.
pub data Phase (O : Type 0) : Type 0 where
  idle : Phase O
  woken : Phase O
  submitting : Batch O → Phase O

pub record Lane (O : Type 0) : Type 0 where
  pub current : Option (Current O)
  pub queue : List (Entry O)
  pub phase : Phase O
  pub grace_timer : Bool
  pub scheduled : Bool
  pub next_serial : ℕ
  pub calls : ℕ
  pub log : List Outcome

abbrev pub new_lane : {O : Type 0} → Lane O
new_lane = record {
  current = none;
  queue = [];
  phase = idle;
  grace_timer = false;
  scheduled = false;
  next_serial = 0;
  calls = 0;
  log = [];
}

abbrev pub contains : List String → String → Bool
contains [] k = false
contains (j ∷ ids) k = ite (key_dec j k) true (contains ids k)

-- `e.messageId && ids.has(e.messageId)`: an empty id is falsy
unfoldable pub is_superseded : {O : Type 0} → List String → Entry O → Bool
is_superseded ids e = elim e.message_id [
  | none ↦ false
  | some m ↦ ite (key_dec m "") false (contains ids m)
]

-- `resolveEntries`
unfoldable pub resolve_entries : {O : Type 0} → List (Entry O) → Bool → List Outcome
resolve_entries [] ok = []
resolve_entries (e ∷ es) ok = delivered e.serial ok ∷ resolve_entries es ok

unfoldable pub resolve_submitted : {O : Type 0} → List (Entry O) → List Outcome
resolve_submitted [] = []
resolve_submitted (e ∷ es) = submitted e.serial ∷ resolve_submitted es

-- `submitted.reject(…)` and `delivered.resolve(false)` for each entry
unfoldable pub reject_entries : {O : Type 0} → List (Entry O) → List Outcome
reject_entries [] = []
reject_entries (e ∷ es) = rejected e.serial ∷ delivered e.serial false ∷ reject_entries es

-- `submitted.resolve()` and `delivered.resolve(false)` for each entry
unfoldable pub retire_entries : {O : Type 0} → List (Entry O) → List Outcome
retire_entries [] = []
retire_entries (e ∷ es) = submitted e.serial ∷ delivered e.serial false ∷ retire_entries es

-- `applySupersedes`; with no ids to drop, nothing is superseded
unfoldable pub apply_supersedes : {O : Type 0} → List String → Lane O → Lane O
unfolding is_superseded retire_entries
apply_supersedes ids lane = record lane {
  queue = keep_if (λ e. not (is_superseded ids e)) lane.queue;
  log = lane.log ++ retire_entries (keep_if (is_superseded ids) lane.queue);
}

unfoldable pub has_pending : {O : Type 0} → Lane O → Bool
has_pending lane = elim lane.phase [
  | idle ↦ elim lane.current [
    | some _ ↦ true
    | none ↦ elim lane.queue [ [] ↦ false | _ ∷ _ ↦ true ]
  ]
  | _ ↦ true
]

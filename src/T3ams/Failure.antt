-- ===== src/T3ams/Failure.antt =====
-- bot-core/transports/t3ams/t3ams-delivery-failure.mjs: the count of consecutive equal failures of a
-- delivery. The signature of an error, a hash, is an argument; the text of the error is left out.
pub mod Reports
mod Tests
use polkadot_chat_agents.Base.{
  ◌^◌, ℕ, zero, suc, ◌*◌, ◌%◌, ◌/◌, ◌+◌, ◌-◌, ◌≤◌, ◌<◌, String, Bool, true, false, not, ◌&&◌, ◌||◌,
  Option, none, some, List, [], ◌∷◌, ◌++◌, map, ◌≡◌, ◌≢◌, refl, ap, sym, ◌∙◌, subst, arith, leb,
  ltb, ◌==◌, length, keep_if, All, All-append, All-imp, length-append, length-keep_if-le,
  if◌then◌else◌, if-cases, Bool-cases, Option-cases, inl, inr, key_dec, ite, if_pos, if_neg, ltb→lt,
  not_ltb→le, ◌⊎◌, append-nil, append_assoc, max, min, ◌↔◌,
}

pub record Failure : Type 0 where
  pub failure_signature : String
  pub consecutive_failures : ℕ
  pub stuck_reported : Bool
  pub escalate : Bool

-- of a previous failure, where there is one: its count if it is the same, whether it was reported
abbrev pub count_after : Option Failure → String → ℕ
count_after none signature = 1
count_after (some f) signature =
    ite (key_dec f.failure_signature signature) (min 100 (f.consecutive_failures + 1)) 1

abbrev pub was_reported : Option Failure → Bool
was_reported none = false
was_reported (some f) = f.stuck_reported

module _ (threshold : ℕ) where
  unfoldable pub next_failure : Option Failure → String → Failure
  next_failure previous signature =
      let count = count_after previous signature in
      let reported = was_reported previous in
      let escalates = not reported && leb threshold count in
      record {
        failure_signature = signature;
        consecutive_failures = count;
        stuck_reported = reported || escalates;
        escalate = escalates;
      }

  -- the failures of a delivery, in order
  unfoldable pub failures : List String → Option Failure → List Failure
  unfolding next_failure
  failures [] previous = []
  failures (signature ∷ signatures) previous =
      let f = next_failure previous signature in f ∷ failures signatures (some f)

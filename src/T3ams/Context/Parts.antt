-- ===== src/T3ams/Context/Parts.antt =====
-- What a list of records amounts to, in all and of one sender, and lists that are parts of others.
use polkadot_chat_agents.T3ams.Context.Chat.{Entry, is_from, take_out}
use polkadot_chat_agents.T3ams.Context.Store.{bytes_of}
use polkadot_chat_agents.Base.{
  ℕ, suc, ◌+◌, ◌≤◌, String, Bool, true, false, Option, none, some, List, [], ◌∷◌, ◌≡◌, refl, arith,
  length, keep_if, All, if-cases, key_dec, ite,
}

abbrev pub sum_from : (Entry → ℕ) → String → List Entry → ℕ
sum_from weight xid [] = 0
sum_from weight xid (e ∷ es) =
    ite (key_dec e.sender_xid xid) (sum_from weight xid es + weight e) (sum_from weight xid es)

abbrev pub count_from : String → List Entry → ℕ
count_from = sum_from (λ e. 1)

abbrev pub bytes_from : String → List Entry → ℕ
bytes_from = sum_from (λ e. e.bytes)

-- no more records, of any sender, and no more bytes
pub record IsPart (xs ys : List Entry) : Type 0 where
  pub shorter : length xs ≤ length ys
  pub lighter : bytes_of xs ≤ bytes_of ys
  pub fewer : (xid : String) → count_from xid xs ≤ count_from xid ys
  pub smaller : (xid : String) → bytes_from xid xs ≤ bytes_from xid ys

pub IsPart-refl : (xs : List Entry) → IsPart xs xs
IsPart-refl xs = record {
  shorter = omega arith;
  lighter = omega arith;
  fewer = λ xid. omega arith;
  smaller = λ xid. omega arith;
}

pub IsPart-skip : (e : Entry) (xs ys : List Entry) → IsPart xs ys → IsPart xs (e ∷ ys)
IsPart-skip e xs ys h = record {
  shorter = omega (arith, h.shorter);
  lighter = omega (arith, h.lighter);
  fewer = λ xid. ground (arith, h.fewer xid);
  smaller = λ xid. ground (arith, h.smaller xid);
}

pub IsPart-keep : (e : Entry) (xs ys : List Entry) → IsPart xs ys → IsPart (e ∷ xs) (e ∷ ys)
IsPart-keep e xs ys h = record {
  shorter = omega (arith, h.shorter);
  lighter = omega (arith, h.lighter);
  fewer = λ xid. ground (arith, h.fewer xid);
  smaller = λ xid. ground (arith, h.smaller xid);
}

pub IsPart-tail : (e : Entry) (es : List Entry) → IsPart es (e ∷ es)
IsPart-tail e es = IsPart-skip e es es (IsPart-refl es)

pub IsPart-keep_if : (p : Entry → Bool) (es : List Entry) → IsPart (keep_if p es) es
IsPart-keep_if p [] = IsPart-refl []
IsPart-keep_if p (e ∷ es) =
    let ih = IsPart-keep_if p es in
    if-cases (λ (xs : List Entry). IsPart xs (e ∷ es)) (p e) _ _ (λ yes. IsPart-keep e _ es ih)
      (λ no. IsPart-skip e _ es ih)

-- what `take_out` answers on a list
pub record Taken (p : Entry → Bool) (es : List Entry) (x : Entry) (rest : List Entry) : Type 0 where
  pub passes : p x ≡ true
  pub part : IsPart rest es
  pub one_less : length es ≡ suc (length rest)
  pub weighs : bytes_of es ≡ x.bytes + bytes_of rest

-- no record passes
abbrev pub NonePasses : (Entry → Bool) → List Entry → Type 0
NonePasses p = All (λ e. p e ≡ false)

abbrev pub TakenOf : (Entry → Bool) → List Entry → Option (Entry × List Entry) → Type 0
TakenOf p es none = NonePasses p es
TakenOf p es (some (x, rest)) = Taken p es x rest

pub take_out-Taken : (p : Entry → Bool) (es : List Entry) → TakenOf p es (take_out p es)
unfolding take_out
take_out-Taken p [] = tt
take_out-Taken p (e ∷ es) =
    if-cases (TakenOf p (e ∷ es)) (p e) _ _
      (λ y. record { passes = y; part = IsPart-tail e es; one_less = refl; weighs = refl })
      (λ n. later n (take_out p es) (take_out-Taken p es))
  where
    later :
        p e ≡ false
        → (o : Option (Entry × List Entry)) → TakenOf p es o
        → TakenOf p (e ∷ es) (elim o [ none ↦ none | some (x, xs) ↦ some (x, e ∷ xs) ])
    later n none h = (n, h)
    later n (some (x, xs)) h = record {
      passes = h.passes;
      part = IsPart-keep e xs es h.part;
      one_less = omega (arith, h.one_less);
      weighs = omega (arith, h.weighs);
    }

-- a sender of no record has no bytes
pub is_from-absent :
    (xid : String) (es : List Entry)
    → NonePasses (is_from xid) es
    → (count_from xid es ≡ 0) × (bytes_from xid es ≡ 0)
is_from-absent xid [] h = (refl, refl)
is_from-absent xid (e ∷ es) h =
    let ih = is_from-absent xid es h.1 in (ground (arith, h.0, ih.0), ground (arith, h.0, ih.1))

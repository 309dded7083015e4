-- ===== src/T3ams/Context/Choice.antt =====
-- The choice of records for a snapshot.
use polkadot_chat_agents.T3ams.Context.Chat.{Entry, take_out}
use polkadot_chat_agents.T3ams.Context.Store.{bytes_of}
use polkadot_chat_agents.T3ams.Context.Changes.{
  is_relevant, is_root_of, is_pinned, choose, reverse_onto, insert_sorted, sort, first_of,
  find_root, pin, pick,
}
use polkadot_chat_agents.Base.{
  ℕ, suc, ◌+◌, ◌≤◌, String, Bool, true, ◌||◌, Option, none, some, List, [], ◌∷◌, ◌≡◌, refl, arith,
  leb, ltb, ◌==◌, length, keep_if, All, All-imp, if-cases,
}

-- each record was received no later than the next
abbrev pub IsAscending : List Entry → Type 0
IsAscending [] = Unit
IsAscending (e ∷ es) = All (λ x. e.sequence ≤ x.sequence) es × IsAscending es

All-keep_if :
    (P : Entry → Type 0) (p : Entry → Bool) (es : List Entry)
    → All P es
    → All (λ e. P e × (p e ≡ true)) (keep_if p es)
All-keep_if P p [] h = tt
All-keep_if P p (e ∷ es) h =
    let ih = All-keep_if P p es h.1 in
    if-cases (λ (xs : List Entry). All (λ e. P e × (p e ≡ true)) xs) (p e) _ _ (λ y. ((h.0, y), ih))
      (λ n. ih)

module _ (P : Entry → Type 0) where
  abbrev First : Option (Entry × List Entry) → Type 0
  First none = Unit
  First (some (e, rest)) = P e

  take_out-First : (p : Entry → Bool) (es : List Entry) → All P es → First (take_out p es)
  unfolding take_out
  take_out-First p [] h = tt
  take_out-First p (e ∷ es) h =
      if-cases First (p e) _ _ (λ y. h.0) (λ n. later (take_out p es) (take_out-First p es h.1))
    where
      later :
          (o : Option (Entry × List Entry))
          → First o
          → First (elim o [ none ↦ none | some (x, xs) ↦ some (x, e ∷ xs) ])
      later none h = tt
      later (some (x, xs)) h = h

  reverse_onto-All : (es acc : List Entry) → All P es → All P acc → All P (reverse_onto es acc)
  unfolding reverse_onto
  reverse_onto-All [] acc h a = a
  reverse_onto-All (e ∷ es) acc h a = reverse_onto-All es (e ∷ acc) h.1 (h.0, a)

  -- a choice within its limits
  record IsChoice (record_limit byte_limit : ℕ) (es : List Entry) : Type 0 where
    few : length es ≤ record_limit
    light : bytes_of es ≤ byte_limit
    all : All P es

  choose-IsChoice :
      (record_limit byte_limit : ℕ) (root : Option Entry) (es chosen : List Entry) (used : ℕ)
      → All P es
      → used ≡ bytes_of chosen
      → IsChoice record_limit byte_limit chosen
      → IsChoice record_limit byte_limit (choose record_limit byte_limit root es chosen used)
  unfolding choose
  choose-IsChoice rl bl root [] chosen used h u c = c
  choose-IsChoice rl bl root (e ∷ es) chosen used h u c =
      if-cases (IsChoice rl bl)
        (is_pinned root e || leb rl (length chosen) || ltb bl (used + e.bytes)) _ _
        (λ y. choose-IsChoice rl bl root es chosen used h.1 u c)
        (λ n.
          choose-IsChoice rl bl root es (e ∷ chosen) (used + e.bytes) h.1 (omega (arith, u))
            (record { few = ground (arith, n); light = ground (arith, n, u); all = (h.0, c.all) }))

  abbrev Top : Option Entry → Type 0
  Top none = Unit
  Top (some e) = P e

  pin-IsChoice : (rl bl : ℕ) (top : Option Entry) → 1 ≤ rl → Top top → IsChoice rl bl (pin bl top)
  pin-IsChoice rl bl none pos h = record { few = omega arith; light = omega arith; all = tt }
  pin-IsChoice rl bl (some e) pos h =
      if-cases (IsChoice rl bl) (leb e.bytes bl) _ _
        (λ y. record { few = omega (arith, pos); light = ground (arith, y); all = (h, tt) })
        (λ n. record { few = omega arith; light = omega arith; all = tt })

  insert_sorted-All : (e : Entry) (xs : List Entry) → P e → All P xs → All P (insert_sorted e xs)
  unfolding insert_sorted
  insert_sorted-All e [] p h = (p, tt)
  insert_sorted-All e (x ∷ xs) p h =
      if-cases (All P) (leb e.sequence x.sequence) _ _ (λ y. (p, h))
        (λ n. (h.0, insert_sorted-All e xs p h.1))

  sort-All : (es : List Entry) → All P es → All P (sort es)
  unfolding sort
  sort-All [] h = tt
  sort-All (e ∷ es) h = insert_sorted-All e (sort es) h.0 (sort-All es h.1)

insert_sorted-sizes :
    (e : Entry) (xs : List Entry)
    → (length (insert_sorted e xs) ≡ suc (length xs))
      × (bytes_of (insert_sorted e xs) ≡ e.bytes + bytes_of xs)
unfolding insert_sorted
insert_sorted-sizes e [] = (refl, refl)
insert_sorted-sizes e (x ∷ xs) =
    let ih = insert_sorted-sizes e xs in (ground (arith, ih.0), ground (arith, ih.1))

sort-sizes : (es : List Entry) → (length (sort es) ≡ length es) × (bytes_of (sort es) ≡ bytes_of es)
unfolding sort
sort-sizes [] = (refl, refl)
sort-sizes (e ∷ es) =
    let ih = sort-sizes es in
    let here = insert_sorted-sizes e (sort es) in
    (omega (arith, ih.0, here.0), omega (arith, ih.1, here.1))

insert_sorted-IsAscending :
    (e : Entry) (xs : List Entry) → IsAscending xs → IsAscending (insert_sorted e xs)
unfolding insert_sorted
insert_sorted-IsAscending e [] h = (tt, tt)
insert_sorted-IsAscending e (x ∷ xs) h =
    if-cases IsAscending (leb e.sequence x.sequence) _ _
      (λ y. ((ground (arith, y), All-imp _ _ xs (λ z le. ground (arith, y, le)) h.0), h))
      (λ n. (
        insert_sorted-All (λ z. x.sequence ≤ z.sequence) e xs (ground (arith, n)) h.0,
        insert_sorted-IsAscending e xs h.1,
      ))

sort-IsAscending : (es : List Entry) → IsAscending (sort es)
unfolding sort
sort-IsAscending [] = tt
sort-IsAscending (e ∷ es) = insert_sorted-IsAscending e (sort es) (sort-IsAscending es)

-- the entries that are shown, within the limits, in the order of receipt, and each with the property
pub record IsShown (P : Entry → Type 0) (record_limit byte_limit : ℕ) (es : List Entry)
    : Type 0 where
  pub few : length es ≤ record_limit
  pub light : bytes_of es ≤ byte_limit
  pub ascending : IsAscending es
  pub all : All P es

pub pick-IsShown :
    (P : Entry → Type 0) (rl bl : ℕ) (root : Option String) (es : List Entry)
    → All P es
    → IsShown (λ e. P e × (is_relevant root e ≡ true)) rl bl (pick rl bl root es)
unfolding pick
pick-IsShown P rl bl root es h =
    if-cases (IsShown Q rl bl) (rl == 0 || bl == 0) _ _
      (λ y. record { few = omega arith; light = omega arith; ascending = tt; all = tt })
      (λ n.
        let top = find_root root relevant in
        let pinned = pin bl top in
        let chosen = choose rl bl top (reverse_onto relevant []) pinned (bytes_of pinned) in
        let c =
          choose-IsChoice Q rl bl top (reverse_onto relevant []) pinned (bytes_of pinned)
            (reverse_onto-All Q relevant [] hs tt) refl
            (pin-IsChoice Q rl bl top (ground (arith, n)) (top_of root relevant hs)) in
        record {
          few = omega (arith, c.few, (sort-sizes chosen).0);
          light = omega (arith, c.light, (sort-sizes chosen).1);
          ascending = sort-IsAscending chosen;
          all = sort-All Q chosen c.all;
        })
  where
    Q : Entry → Type 0
    Q e = P e × (is_relevant root e ≡ true)

    relevant : List Entry
    relevant = keep_if (is_relevant root) es

    hs : All Q relevant
    hs = All-keep_if P (is_relevant root) es h

    first : (o : Option (Entry × List Entry)) → First Q o → Top Q (first_of o)
    first none q = tt
    first (some (e, rest)) q = q

    top_of : (r : Option String) (xs : List Entry) → All Q xs → Top Q (find_root r xs)
    top_of none xs a = tt
    top_of (some r) xs a = first (take_out (is_root_of r) xs) (take_out-First Q (is_root_of r) xs a)

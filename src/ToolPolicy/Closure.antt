-- ===== src/ToolPolicy/Closure.antt =====
-- Membership in the closure and in the sorted list.
use polkadot_chat_agents.Base.{
  Bool, true, false, ◌||◌, List, [], ◌∷◌, ◌++◌, ◌≡◌, refl, ap, sym, ◌∙◌, arith, Bool-cases, inl,
  inr,
}
use polkadot_chat_agents.ToolPolicy.{
  Capability, read, write, bash, web, subagents, same, has, add, close, insert, sort,
}

pub has-append :
    (c : Capability) (xs ys : List Capability) → has c (xs ++ ys) ≡ has c xs || has c ys
unfolding has
has-append c [] ys = refl
has-append c (x ∷ xs) ys = ground (arith, has-append c xs ys)

has-same : (c d : Capability) (xs : List Capability) → same c d ≡ true → has c xs ≡ has d xs
unfolding has
has-same c d [] e = refl
has-same c d (x ∷ xs) e = ground (arith, e, has-same c d xs e)

absorb :
    (c d : Capability) (xs : List Capability) → has c xs ≡ true → same c d || has d xs ≡ has d xs
absorb c d xs there = elim (Bool-cases (same c d)) [
  | inl eq ↦ rw eq (sym there ∙ has-same c d xs eq)
  | inr ne ↦ rw ne refl
]

swap : (a b : Bool) → a || (b || false) ≡ b || a
swap a b = ground arith

has-add : (c d : Capability) (xs : List Capability) → has d (add c xs) ≡ same c d || has d xs
unfolding add has
has-add c d xs = elim (Bool-cases (has c xs)) [
  | inl there ↦ rw there (sym (absorb c d xs there))
  | inr new ↦ rw new (has-append d xs (c ∷ []) ∙ swap (has d xs) (same c d))
]

has-insert : (c d : Capability) (xs : List Capability) → has d (insert c xs) ≡ same c d || has d xs
unfolding insert has
has-insert c d [] = refl
has-insert c d (x ∷ xs) = ground (arith, has-insert c d xs)

pub has-sort : (d : Capability) (xs : List Capability) → has d (sort xs) ≡ has d xs
unfolding sort has
has-sort d [] = refl
has-sort d (x ∷ xs) = has-insert x d (sort xs) ∙ ap (λ b. same x d || b) (has-sort d xs)

-- a capability that is named, or that a named one implies
unfoldable pub implied : (Capability → Bool) → Capability → Bool
implied named read = named read || named write || named bash
implied named write = named write || named bash
implied named bash = named bash
implied named web = named web
implied named subagents = named subagents

pub implied-ext :
    (f g : Capability → Bool) (d : Capability)
    → ((c : Capability) → f c ≡ g c)
    → implied f d ≡ implied g d
unfolding implied
implied-ext f g read h = rw (h read, h write, h bash) refl
implied-ext f g write h = rw (h write, h bash) refl
implied-ext f g bash h = h bash
implied-ext f g web h = h web
implied-ext f g subagents h = h subagents

pub has-close :
    (d : Capability) (cs : List Capability) → has d (close cs) ≡ implied (λ c. has c cs) d
unfolding close
has-close d cs = elim (Bool-cases (has bash cs)) [
  | inl b ↦ rw b (
      has-add read d (add write cs)
      ∙ ap (λ x. same read d || x) (has-add write d cs)
      ∙ with_bash d b)
  | inr nb ↦ rw nb (elim (Bool-cases (has write cs)) [
    | inl w ↦ rw w (has-add read d cs ∙ with_write d nb w)
    | inr nw ↦ rw nw (with_neither d nb nw)
  ])
]
  where
    with_bash :
        (d : Capability)
        → has bash cs ≡ true
        → same read d || (same write d || has d cs) ≡ implied (λ c. has c cs) d
    with_bash read b = unfold implied in ground (arith, b)
    with_bash write b = unfold implied in ground (arith, b)
    with_bash bash b = unfold implied in refl
    with_bash web b = unfold implied in refl
    with_bash subagents b = unfold implied in refl

    with_write :
        (d : Capability)
        → has bash cs ≡ false
        → has write cs ≡ true
        → same read d || has d cs ≡ implied (λ c. has c cs) d
    with_write read nb w = unfold implied in ground (arith, nb, w)
    with_write write nb w = unfold implied in ground (arith, nb, w)
    with_write bash nb w = unfold implied in refl
    with_write web nb w = unfold implied in refl
    with_write subagents nb w = unfold implied in refl

    with_neither :
        (d : Capability)
        → has bash cs ≡ false
        → has write cs ≡ false
        → has d cs ≡ implied (λ c. has c cs) d
    with_neither read nb nw = unfold implied in ground (arith, nb, nw)
    with_neither write nb nw = unfold implied in ground (arith, nb, nw)
    with_neither bash nb nw = unfold implied in refl
    with_neither web nb nw = unfold implied in refl
    with_neither subagents nb nw = unfold implied in refl

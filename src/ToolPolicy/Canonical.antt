-- ===== src/ToolPolicy/Canonical.antt =====
-- What a canonical list grants, against the names in the list.
use polkadot_chat_agents.Base.{
  String, Bool, true, false, ◌||◌, Option, none, some, List, [], ◌∷◌, ◌++◌, ◌≡◌, refl, ap, sym, ◌∙◌,
  arith, ◌==◌, length, if◌then◌else◌, key_dec, ite,
}
use polkadot_chat_agents.ToolPolicy.{
  Capability, same, has, close, sort, PolicyResult, capabilities, select, select_closed,
  canonical_capabilities, and_then, parse, select_one, accept, mentions_all, all_names,
  all_not_alone, empty_capability, unsupported, duplicate,
}
use polkadot_chat_agents.ToolPolicy.Closure.{has-append, has-sort, has-close, implied, implied-ext}

abbrev pub names : Capability → Option Capability → Bool
names d none = false
names d (some c) = same c d

-- whether a value of the list reads as the capability
unfoldable pub named : List String → Capability → Bool
unfolding parse
named [] d = false
named (raw ∷ rest) d = names d (parse raw) || named rest d

abbrev list_of : PolicyResult → List Capability
list_of (capabilities cs) = cs
list_of all_not_alone = []
list_of empty_capability = []
list_of (unsupported s) = []
list_of (duplicate c) = []

has-result :
    (d : Capability) (cs out : List Capability)
    → capabilities cs ≡ capabilities out
    → has d out ≡ has d cs
has-result d cs out e = ap (λ r. has d (list_of r)) (sym e)

or_false : (a : Bool) → a || false ≡ a
or_false a = ground arith

or_assoc : (a b c : Bool) → (a || b) || c ≡ a || (b || c)
or_assoc a b c = ground arith

accept-has :
    (o : Option Capability) (raw : String) (selected out : List Capability) (d : Capability)
    → accept o raw selected ≡ capabilities out
    → has d out ≡ has d selected || names d o
unfolding has
accept-has none raw selected out d e = absurd (cc e)
accept-has (some c) raw selected out d e = go (has c selected) e
  where
    go :
        (b : Bool)
        → (if b then duplicate c else capabilities (selected ++ c ∷ [])) ≡ capabilities out
        → has d out ≡ has d selected || same c d
    go true e = absurd (cc e)
    go false e =
        has-result d (selected ++ c ∷ []) out e
        ∙ has-append d selected (c ∷ [])
        ∙ ap (λ x. has d selected || x) (or_false (same c d))

names-empty : (d : Capability) → names d (parse "") ≡ false
unfolding parse key_dec
names-empty d = refl

select_one-has :
    (alone : Bool) (raw : String) (selected out : List Capability) (d : Capability)
    → select_one alone raw selected ≡ capabilities out
    → has d out ≡ has d selected || names d (parse raw)
unfolding select_one
select_one-has alone raw selected out d = go (key_dec raw "") alone
  where
    go :
        (dec : Dec (raw ≡ ""))
        → (b : Bool)
        → ite dec
            (if b then capabilities selected else empty_capability)
            (accept (parse raw) raw selected)
          ≡ capabilities out
        → has d out ≡ has d selected || names d (parse raw)
    go (yes p) true e =
        has-result d selected out e
        ∙ sym (or_false (has d selected))
        ∙ ap (λ x. has d selected || x) (sym (ap (λ x. names d (parse x)) p ∙ names-empty d))
    go (yes p) false e = absurd (cc e)
    go (no p) b e = accept-has (parse raw) raw selected out d e

select-has :
    (alone : Bool) (listed : List String) (selected out : List Capability) (d : Capability)
    → select alone listed selected ≡ capabilities out
    → has d out ≡ has d selected || named listed d
unfolding select named
select-has alone [] selected out d e = has-result d selected out e ∙ sym (or_false (has d selected))
select-has alone (raw ∷ rest) selected out d e =
    let ih = λ (s : List Capability). select-has alone rest s out d in
    go ih (select_one alone raw selected) refl e
  where
    go :
        ((s : List Capability)
          → select alone rest s ≡ capabilities out
          → has d out ≡ has d s || named rest d)
        → (r : PolicyResult) → select_one alone raw selected ≡ r
        → and_then r (λ s. select alone rest s) ≡ capabilities out
        → has d out ≡ has d selected || (names d (parse raw) || named rest d)
    go ih (capabilities s) f e =
        ih s e
        ∙ ap (λ b. b || named rest d) (select_one-has alone raw selected s d f)
        ∙ or_assoc (has d selected) (names d (parse raw)) (named rest d)
    go ih all_not_alone f e = absurd (cc e)
    go ih empty_capability f e = absurd (cc e)
    go ih (unsupported x) f e = absurd (cc e)
    go ih (duplicate c) f e = absurd (cc e)

select_closed-has :
    (listed : List String) (out : List Capability) (d : Capability)
    → select_closed listed ≡ capabilities out
    → has d out ≡ implied (named listed) d
select_closed-has listed out d e = go (select (length listed == 1) listed []) refl e
  where
    go :
        (r : PolicyResult)
        → select (length listed == 1) listed [] ≡ r
        → and_then r (λ s. capabilities (sort (close s))) ≡ capabilities out
        → has d out ≡ implied (named listed) d
    go (capabilities s) f e =
        has-result d (sort (close s)) out e
        ∙ has-sort d (close s)
        ∙ has-close d s
        ∙ implied-ext (λ c. has c s) (named listed) d
            (λ c. unfold has in select-has (length listed == 1) listed [] s c f)
    go all_not_alone f e = absurd (cc e)
    go empty_capability f e = absurd (cc e)
    go (unsupported x) f e = absurd (cc e)
    go (duplicate c) f e = absurd (cc e)

-- A list that is accepted and does not say `all` grants a capability exactly where a value of it
-- names the capability, or `write` or `bash` for `read`, or `bash` for `write`.
pub canonical-implied :
    (listed : List String) (out : List Capability) (d : Capability)
    → mentions_all listed ≡ false
    → canonical_capabilities listed ≡ capabilities out
    → has d out ≡ implied (named listed) d
unfolding canonical_capabilities
canonical-implied listed out d plain e = select_closed-has listed out d (
    sym (
      ap
        (λ b.
          if b
          then (if length listed == 1 then select_closed all_names else all_not_alone)
          else select_closed listed)
        plain)
    ∙ e)

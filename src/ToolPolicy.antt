-- ===== src/ToolPolicy.antt =====
-- bot-core/lib/tool-policy.mjs: the canonical list of an agent's tool capabilities. The listed values
-- come as strings that `split` and `trim` have been over.
pub mod Closure
pub mod Canonical
mod Tests
use polkadot_chat_agents.Base.{
  ℕ, zero, suc, ◌*◌, ◌%◌, ◌/◌, ◌+◌, ◌-◌, ◌≤◌, ◌<◌, String, Bool, true, false, not, ◌&&◌, ◌||◌,
  Option, none, some, List, [], ◌∷◌, ◌++◌, map, ◌≡◌, ◌≢◌, refl, ap, sym, ◌∙◌, subst, arith, leb,
  ltb, ◌==◌, length, keep_if, All, All-append, All-imp, length-append, length-keep_if-le,
  if◌then◌else◌, Bool-cases, Option-cases, inl, inr, key_dec, ite, if_pos, if_neg, ltb→lt,
  not_ltb→le, ◌⊎◌, append-nil, append_assoc, max, min, ◌↔◌,
}

pub data Capability : Type 0 where
  read write bash web subagents : Capability

abbrev pub catalog : List Capability
catalog = read ∷ write ∷ bash ∷ web ∷ subagents ∷ []

-- `capabilityRank`
abbrev pub rank : Capability → ℕ
rank read = 0
rank write = 1
rank bash = 2
rank web = 3
rank subagents = 4

abbrev pub same : Capability → Capability → Bool
same c d = rank c == rank d

unfoldable pub has : Capability → List Capability → Bool
has c [] = false
has c (d ∷ ds) = same d c || has c ds

unfoldable pub parse : String → Option Capability
parse s = ite (key_dec s "read") (some read) (
    ite (key_dec s "write") (some write) (
      ite (key_dec s "bash") (some bash)
        (ite (key_dec s "web") (some web) (ite (key_dec s "subagents") (some subagents) none))))

pub data PolicyResult : Type 0 where
  all_not_alone empty_capability : PolicyResult
  unsupported : String → PolicyResult
  duplicate : Capability → PolicyResult
  capabilities : List Capability → PolicyResult

-- `selected.add`
unfoldable pub add : Capability → List Capability → List Capability
unfolding has
add c selected = if has c selected then selected else selected ++ c ∷ []

-- the implications of `bash` and of `write`
unfoldable pub close : List Capability → List Capability
unfolding add has
close selected =
    if has bash selected
    then add read (add write selected)
    else if has write selected
    then add read selected
    else selected

unfoldable pub insert : Capability → List Capability → List Capability
insert c [] = c ∷ []
insert c (d ∷ ds) = let rest = insert c ds in if leb (rank c) (rank d) then c ∷ d ∷ ds else d ∷ rest

-- `sort` by rank
unfoldable pub sort : List Capability → List Capability
unfolding insert
sort [] = []
sort (c ∷ cs) = insert c (sort cs)

abbrev pub accept : Option Capability → String → List Capability → PolicyResult
accept none raw selected = unsupported raw
accept (some c) raw selected =
    if has c selected then duplicate c else capabilities (selected ++ c ∷ [])

-- the body of the loop for one value
unfoldable pub select_one : Bool → String → List Capability → PolicyResult
unfolding parse has
select_one alone raw selected =
    ite (key_dec raw "") (if alone then capabilities selected else empty_capability)
      (accept (parse raw) raw selected)

abbrev pub and_then : PolicyResult → (List Capability → PolicyResult) → PolicyResult
and_then (capabilities cs) f = f cs
and_then all_not_alone f = all_not_alone
and_then empty_capability f = empty_capability
and_then (unsupported s) f = unsupported s
and_then (duplicate c) f = duplicate c

unfoldable pub select : Bool → List String → List Capability → PolicyResult
unfolding select_one
select alone [] selected = capabilities selected
select alone (raw ∷ rest) selected =
    and_then (select_one alone raw selected) (λ s. select alone rest s)

abbrev pub is_all : String → Bool
is_all s = ite (key_dec s "all") true false

abbrev pub mentions_all : List String → Bool
mentions_all [] = false
mentions_all (s ∷ ss) = is_all s || mentions_all ss

abbrev pub all_names : List String
all_names = "read" ∷ "write" ∷ "bash" ∷ "web" ∷ "subagents" ∷ []

abbrev pub select_closed : List String → PolicyResult
select_closed listed =
    and_then (select (length listed == 1) listed []) (λ s. capabilities (sort (close s)))

unfoldable pub canonical_capabilities : List String → PolicyResult
unfolding select close sort
canonical_capabilities listed =
    if mentions_all listed
    then (if length listed == 1 then select_closed all_names else all_not_alone)
    else select_closed listed

-- ===== src/ToolPolicy/Tests.antt =====
-- Lists of capabilities at concrete inputs.
use polkadot_chat_agents.Base.{String, false, List, [], ◌∷◌, ◌≡◌, refl, key_dec}
use polkadot_chat_agents.ToolPolicy.{
  Capability, read, write, bash, web, subagents, has, capabilities, duplicate, mentions_all,
  canonical_capabilities,
}
use polkadot_chat_agents.ToolPolicy.Closure.{implied}
use polkadot_chat_agents.ToolPolicy.Canonical.{named, canonical-implied}

abbrev listed : List String
listed = "web" ∷ "bash" ∷ []

abbrev granted : List Capability
granted = read ∷ write ∷ bash ∷ web ∷ []

is_plain : mentions_all listed ≡ false
unfolding key_dec
is_plain = refl

is_granted : canonical_capabilities listed ≡ capabilities granted
unfolding canonical_capabilities key_dec
is_granted = refl

takes_all :
    canonical_capabilities ("all" ∷ []) ≡ capabilities (read ∷ write ∷ bash ∷ web ∷ subagents ∷ [])
unfolding canonical_capabilities key_dec
takes_all = refl

refuses_twice : canonical_capabilities ("web" ∷ "web" ∷ []) ≡ duplicate web
unfolding canonical_capabilities key_dec
refuses_twice = refl

canonical-implied_example : has read granted ≡ implied (named listed) read
canonical-implied_example = canonical-implied listed granted read is_plain is_granted

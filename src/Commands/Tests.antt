-- ===== src/Commands/Tests.antt =====
-- Commands at concrete inputs.
use polkadot_chat_agents.Base.{
  arith, String, true, false, Option, none, some, List, [], ◌∷◌, ◌≡◌, refl, key_dec,
}
use Prim.Native.String.{len}
use polkadot_chat_agents.Commands.{
  Project, Config, State, model_set, model_unavailable, project_set, contains, handle,
}
use polkadot_chat_agents.Commands.Policy.{
  Renews, handle-Renews, ModelsAllowed, Command, run, run-ModelsAllowed,
}

abbrev parse : String → Option Project
parse spec = some (record { alias = spec; branch = none })

abbrev config : Config
config = record {
  default_model = "base";
  allowed_models = some ("fast" ∷ "deep" ∷ []);
  effort_levels = some ("low" ∷ "high" ∷ []);
  default_effort = "";
  workspaces = "site" ∷ [];
  parse_spec = parse;
  lower = λ s. s;
  chain_connected = true;
  has_usage = λ p. false;
  peer_cap = 2;
}

abbrev empty : State
empty = record { models = []; efforts = []; projects = []; fresh_sessions = [] }

nul : (len "\0" ≡ 1) × (contains "a\0b" "\0" ≡ true) × (contains "a0b" "\0" ≡ false)
nul = (refl, refl, refl)

chooses :
    handle config "p" "model" (some "deep") empty
    ≡ (record empty { models = ("p", "deep") ∷ []; fresh_sessions = "p" ∷ [] }, model_set "deep")
unfolding handle key_dec
chooses = refl

refuses : (handle config "p" "model" (some "huge") empty).1 ≡ model_unavailable "huge"
unfolding handle key_dec
refuses = refl

switches :
    (handle config "p" "site" none empty).1 ≡ project_set (record { alias = "site"; branch = none })
unfolding handle key_dec
switches = refl

-- two peers have models, as many as the cap allows
abbrev full : State
full = record empty { models = ("q", "fast") ∷ ("r", "deep") ∷ [] }

evicts_oldest :
    (handle config "p" "model" (some "deep") full).0.models ≡ ("r", "deep") ∷ ("p", "deep") ∷ []
unfolding handle key_dec
evicts_oldest = refl

handle-Renews_example : Renews "p" full (handle config "p" "model" (some "deep") full).0
handle-Renews_example = handle-Renews config "p" "model" (some "deep") full (omega arith)

abbrev commands : List Command
commands =
    record { peer = "p"; cmd = "model"; argument = some "deep" }
    ∷ record { peer = "q"; cmd = "model"; argument = some "huge" }
    ∷ []

run-ModelsAllowed_example : ModelsAllowed ("fast" ∷ "deep" ∷ []) (run config commands full)
unfolding key_dec
run-ModelsAllowed_example =
    run-ModelsAllowed config ("fast" ∷ "deep" ∷ []) commands full refl (refl, (refl, tt))

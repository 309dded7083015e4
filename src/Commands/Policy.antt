-- ===== src/Commands/Policy.antt =====
-- What the operator's configuration and the other peers can rely on.
use polkadot_chat_agents.Base.{
  ℕ, ◌≤◌, length, All, String, Bool, true, false, not, Option, some, List, [], ◌∷◌, ◌++◌, ◌≡◌, ◌≢◌,
  refl, ap, sym, ◌∙◌,
}
use polkadot_chat_agents.Base.JsMap
use polkadot_chat_agents.Base.JsMap.{All-delete, All-set}
use polkadot_chat_agents.Commands.{Config, State, is_in, is_locked, is_refused, handle}
use polkadot_chat_agents.Commands.Trims.{Spares, trim-fits, trim-All}
use polkadot_chat_agents.Commands.Effects.{
  Effect, same, reset, effort_cleared, effort_chosen, model_cleared, model_chosen, project_left,
  project_chosen, handle-Effect,
}

-- no map of overrides or projects holds more peers than `peerCap`
pub record IsCapped (cap : ℕ) (s : State) : Type 0 where
  pub models : length s.models ≤ cap
  pub efforts : length s.efforts ≤ cap
  pub projects : length s.projects ≤ cap

-- what a command of a peer leaves of the others
pub record KeepsOthers (cap : ℕ) (peer : String) (s s' : State) : Type 0 where
  pub models : (k : String) → peer ≢ k → Spares cap k s.models s'.models
  pub efforts : (k : String) → peer ≢ k → Spares cap k s.efforts s'.efforts
  pub projects : (k : String) → peer ≢ k → Spares cap k s.projects s'.projects
  pub capped : IsCapped cap s'

-- a session dropped for the peer, or the same model and project
pub data Renews (peer : String) (s s' : State) : Type 0 where
  kept :
      s'.fresh_sessions ≡ s.fresh_sessions
      → s'.models ≡ s.models
      → s'.projects ≡ s.projects
      → Renews peer s s'
  renewed : s'.fresh_sessions ≡ s.fresh_sessions ++ peer ∷ [] → Renews peer s s'

-- a conversation: who sent which command
pub record Command : Type 0 where
  pub peer : String
  pub cmd : String
  pub argument : Option String

-- every chosen model is one of the operator's
abbrev pub ModelsAllowed : List String → State → Type 0
ModelsAllowed models s = All (λ e. is_in e.1 models ≡ true) s.models

module _ (config : Config) where
  Effect-Renews :
      (peer : String) (s s' : State)
      → length s.models ≤ config.peer_cap
      → Effect config peer s s'
      → Renews peer s s'
  Effect-Renews peer s s' h same = kept refl refl refl
  Effect-Renews peer s s' h reset = renewed refl
  Effect-Renews peer s s' h effort_cleared = kept refl refl refl
  Effect-Renews peer s s' h (effort_chosen level levels e known) =
      kept refl (trim-fits config.peer_cap s.models h) refl
  Effect-Renews peer s s' h model_cleared = renewed refl
  Effect-Renews peer s s' h (model_chosen model f g p) = renewed refl
  Effect-Renews peer s s' h project_left = renewed refl
  Effect-Renews peer s s' h (project_chosen p known) = renewed refl

  -- Where the map of models holds at most `peerCap` peers, a command drops the session of its own
  -- peer once, or it drops none and changes neither a model nor a project.
  pub handle-Renews :
      (peer cmd : String) (argument : Option String) (s : State)
      → length s.models ≤ config.peer_cap
      → Renews peer s (handle config peer cmd argument s).0
  handle-Renews peer cmd argument s h =
      Effect-Renews peer s _ h (handle-Effect config peer cmd argument s)

  granted :
      (models : List String) (model : String)
      → config.allowed_models ≡ some models
      → is_locked config config.allowed_models ≡ false
      → is_refused config config.allowed_models model ≡ false
      → is_in model models ≡ true
  granted models model e free known = go models e
    where
      go : (ms : List String) → config.allowed_models ≡ some ms → is_in model ms ≡ true
      go [] e = absurd (cc (sym (ap (is_locked config) e) ∙ free))
      go (m ∷ ms) e =
          sure (is_in model (m ∷ ms)) (sym (ap (λ o. is_refused config o model) e) ∙ known)
        where
          sure : (b : Bool) → not b ≡ false → b ≡ true
          sure true h = refl
          sure false h = cc

  Effect-ModelsAllowed :
      (models : List String) (peer : String) (s s' : State)
      → config.allowed_models ≡ some models
      → Effect config peer s s'
      → ModelsAllowed models s
      → ModelsAllowed models s'
  Effect-ModelsAllowed models peer s s' e same h = h
  Effect-ModelsAllowed models peer s s' e reset h = h
  Effect-ModelsAllowed models peer s s' e effort_cleared h = h
  Effect-ModelsAllowed models peer s s' e (effort_chosen level levels q known) h =
      trim-All config.peer_cap (λ e. is_in e.1 models ≡ true) s.models h
  Effect-ModelsAllowed models peer s s' e model_cleared h =
      trim-All config.peer_cap (λ e. is_in e.1 models ≡ true) (JsMap.delete peer s.models)
        (All-delete (λ e. is_in e.1 models ≡ true) peer s.models h)
  Effect-ModelsAllowed models peer s s' e (model_chosen model f g p) h =
      trim-All config.peer_cap (λ e. is_in e.1 models ≡ true) (JsMap.set peer model s.models)
        (All-set (λ e. is_in e.1 models ≡ true) peer model s.models (granted models model e f g) h)
  Effect-ModelsAllowed models peer s s' e project_left h = h
  Effect-ModelsAllowed models peer s s' e (project_chosen p known) h = h

  unfoldable pub run : List Command → State → State
  unfolding handle
  run [] s = s
  run (c ∷ cs) s = run cs (handle config c.peer c.cmd c.argument s).0

  -- Where the operator has configured a set of models, in every history of commands that starts with
  -- models of the set, all chosen models are of the set; with an empty set none is ever chosen.
  pub run-ModelsAllowed :
      (models : List String) (cs : List Command) (s : State)
      → config.allowed_models ≡ some models
      → ModelsAllowed models s
      → ModelsAllowed models (run cs s)
  unfolding run
  run-ModelsAllowed models [] s e h = h
  run-ModelsAllowed models (c ∷ cs) s e h =
      run-ModelsAllowed models cs (handle config c.peer c.cmd c.argument s).0 e (
        Effect-ModelsAllowed models c.peer s _ e (handle-Effect config c.peer c.cmd c.argument s) h)

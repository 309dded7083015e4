-- ===== src/Commands/Effects.antt =====
-- The changes that a command can make.
use polkadot_chat_agents.Base.{
  String, Bool, true, false, ◌||◌, Option, none, some, List, ◌≡◌, refl, arith, if-cases,
}
use text.Mathlib.Text.{starts_with}
use polkadot_chat_agents.Base.JsMap
use polkadot_chat_agents.Base.JsMap.{JsMap, get-set_ne, get-delete_ne}
use polkadot_chat_agents.Commands.{
  Project, Config, State, Reply, is_in, is_text, is_one, contains, clear_resume, set_project,
  trim_overrides, unset_project, is_locked, is_refused, is_current, switch_to, switch_project,
  model_command, effort_with, reasoning_command, is_leaving, leave, project_of, is_empty,
  project_command, shortcut, handle,
}

module _ (config : Config) (peer : String) where
  -- the states that a command can leave
  pub data Effect (s : State) : State → Type 0 where
    same : Effect s s
    reset : Effect s (clear_resume peer s)
    effort_cleared : Effect s (record s { efforts = JsMap.delete peer s.efforts })
    effort_chosen :
        (level : String) (levels : List String)
        → config.effort_levels ≡ some levels
        → is_in level levels ≡ true
        → Effect s (trim_overrides config (record s { efforts = JsMap.set peer level s.efforts }))
    model_cleared : Effect s (
        trim_overrides config
          (record (clear_resume peer s) { models = JsMap.delete peer s.models }))
    model_chosen :
        (model : String)
        → is_locked config config.allowed_models ≡ false
        → is_refused config config.allowed_models model ≡ false
        → starts_with model "-" ≡ false
        → Effect s (
            trim_overrides config
              (record (clear_resume peer s) { models = JsMap.set peer model s.models }))
    project_left : Effect s (unset_project peer s)
    project_chosen :
        (p : Project)
        → is_in p.alias config.workspaces ≡ true
        → Effect s (set_project config peer p s)

  abbrev Answers : State → State × Reply → Type 0
  Answers s r = Effect s r.0

  or_first : (a b : Bool) → a || b ≡ false → a ≡ false
  or_first a b h = ground (arith, h)

  switch_project-Effect :
      (spec : String) (s : State) → Answers s (switch_project config peer spec s)
  unfolding switch_project
  switch_project-Effect spec s = go (config.parse_spec spec)
    where
      go : (o : Option Project) → Answers s (switch_to config peer spec o s)
      go none = same
      go (some p) =
          if-cases (Answers s) (is_in p.alias config.workspaces) _ _
            (λ known.
              if-cases (Answers s) (is_current config p (JsMap.get peer s.projects)) _ _ (λ d. same)
                (λ d. project_chosen p known))
            (λ d. same)

  model_command-Effect :
      (argument : Option String) (s : State) → Answers s (model_command config peer argument s)
  unfolding model_command
  model_command-Effect none s = same
  model_command-Effect (some argument) s =
      if-cases (Answers s) (is_text argument "default") _ _
        (λ d. if-cases (Answers s) (JsMap.has peer s.models) _ _ (λ e. model_cleared) (λ e. same))
        (λ d.
          if-cases (Answers s) (is_locked config config.allowed_models) _ _ (λ e. same)
            (λ free.
              if-cases (Answers s) (is_refused config config.allowed_models argument) _ _
                (λ e. same)
                (λ granted.
                  if-cases (Answers s) (starts_with argument "-" || contains argument "\0") _ _
                    (λ e. same)
                    (λ plain.
                      if-cases (Answers s) (is_one (JsMap.get peer s.models) argument) _ _
                        (λ e. same)
                        (λ e.
                          model_chosen argument free granted
                            (or_first (starts_with argument "-") _ plain))))))

  reasoning_command-Effect :
      (argument : Option String) (s : State) → Answers s (reasoning_command config peer argument s)
  unfolding reasoning_command
  reasoning_command-Effect argument s = go config.effort_levels refl argument
    where
      go :
          (o : Option (List String))
          → config.effort_levels ≡ o
          → (a : Option String) → Answers s (effort_with config o peer a s)
      go none e a = same
      go (some levels) e none = same
      go (some levels) e (some a) =
          if-cases (Answers s) (is_text a "default") _ _ (λ d. effort_cleared)
            (λ d.
              if-cases (Answers s) (is_in (config.lower a) levels) _ _
                (λ known. effort_chosen (config.lower a) levels e known) (λ i. same))

  project_command-Effect :
      (argument : Option String) (s : State) → Answers s (project_command config peer argument s)
  unfolding project_command
  project_command-Effect argument s =
      if-cases (Answers s) (is_empty config config.workspaces) _ _ (λ d. same) (λ d. go argument)
    where
      left : (o : Option Project) → Answers s (leave config peer o s)
      left none = same
      left (some p) = project_left

      go : (a : Option String) → Answers s (project_of config peer a s)
      go none = same
      go (some a) =
          if-cases (Answers s) (is_leaving config a) _ _ (λ d. left (JsMap.get peer s.projects))
            (λ d. switch_project-Effect a s)

  shortcut-Effect :
      (cmd : String) (argument : Option String) (s : State)
      → Answers s (shortcut config peer cmd argument s)
  unfolding shortcut
  shortcut-Effect cmd argument s =
      if-cases (Answers s) (is_in cmd config.workspaces) _ _ (λ d. switch_project-Effect _ s)
        (λ d. same)

  pub handle-Effect :
      (cmd : String) (argument : Option String) (s : State)
      → Answers s (handle config peer cmd argument s)
  unfolding handle
  handle-Effect cmd argument s =
      if-cases (Answers s) (is_text cmd "help") _ _ (λ d. same)
        (λ d.
          if-cases (Answers s) (is_text cmd "reset") _ _ (λ d. reset)
            (λ d.
              if-cases (Answers s) (is_text cmd "ping") _ _ (λ d. same)
                (λ d.
                  if-cases (Answers s) (is_text cmd "model") _ _
                    (λ d. model_command-Effect argument s)
                    (λ d.
                      if-cases (Answers s) (is_text cmd "reasoning") _ _
                        (λ d. reasoning_command-Effect argument s)
                        (λ d.
                          if-cases (Answers s) (is_text cmd "usage") _ _ (λ d. same)
                            (λ d.
                              if-cases (Answers s) (is_text cmd "project") _ _
                                (λ d. project_command-Effect argument s)
                                (λ d. shortcut-Effect cmd argument s)))))))

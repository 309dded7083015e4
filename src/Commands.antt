-- ===== src/Commands.antt =====
-- bot-core/lib/commands.mjs: the slash commands that a bot answers itself. The reply texts are
-- constructors that hold what their template is filled with; a message comes as `COMMAND_RE` reads
-- it, with the command in lower case. The other maps and callbacks of the runtime are fields of the
-- state; what `clearResume` and `setPeerProject` do to the session is counted by `fresh_sessions`.
pub mod Trims
pub mod Effects
pub mod Policy
mod Tests
use polkadot_chat_agents.Base.{
  ◌^◌, ℕ, zero, suc, ◌*◌, ◌%◌, ◌/◌, ◌+◌, ◌-◌, ◌≤◌, ◌<◌, String, Bool, true, false, not, ◌&&◌, ◌||◌,
  Option, none, some, List, [], ◌∷◌, ◌++◌, map, ◌≡◌, ◌≢◌, refl, ap, sym, ◌∙◌, subst, arith, leb,
  ltb, ◌==◌, length, keep_if, All, All-append, All-imp, length-append, length-keep_if-le,
  if◌then◌else◌, if-cases, Bool-cases, Option-cases, inl, inr, key_dec, ite, if_pos, if_neg, ltb→lt,
  not_ltb→le, ◌⊎◌, append-nil, append_assoc, max, min, ◌↔◌,
}
use text.Mathlib.Text.{starts_with, find?}
use Prim.Native.String.{◌++◌ as str_append}
use polkadot_chat_agents.Base.JsMap
use polkadot_chat_agents.Base.JsMap.{JsMap}

pub record Project : Type 0 where
  pub alias : String
  pub branch : Option String

-- The operator's configuration. `allowed_models` is none where switching is open; `parse_spec` is
-- `parseProjectSpec`, and `lower` is `toLowerCase`.
pub record Config : Type 0 where
  pub default_model : String
  pub allowed_models : Option (List String)
  pub effort_levels : Option (List String)
  pub default_effort : String
  pub workspaces : List String
  pub parse_spec : String → Option Project
  pub lower : String → String
  pub chain_connected : Bool
  -- whether a usage with turns is recorded
  pub has_usage : String → Bool
  -- how many peers a map of the runtime holds
  pub peer_cap : ℕ

pub record State : Type 0 where
  pub models : JsMap String
  pub efforts : JsMap String
  pub projects : JsMap Project
  -- the peers whose session was dropped, in order
  pub fresh_sessions : List String

pub data Reply : Type 0 where
  help_list fresh_start usage no_usage no_effort no_projects shared_already shared_back : Reply
  model_invalid model_locked : Reply
  pong : Bool → Reply
  model_now model_already model_set model_unavailable model_default_already model_default :
      String → Reply
  effort_now effort_default effort_unknown effort_set : String → Reply
  project_list : Option Project → Reply
  project_unknown : String → Reply
  project_already project_set : Project → Reply
  unknown_command : String → Reply

abbrev pub or_text : Option String → String → String
or_text none fallback = fallback
or_text (some s) fallback = s

abbrev pub contains : String → String → Bool
contains s t = elim (find? s t) [ none ↦ false | some i ↦ true ]

abbrev pub is_in : String → List String → Bool
is_in s [] = false
is_in s (t ∷ ts) = ite (key_dec t s) true (is_in s ts)

abbrev pub is_text : String → String → Bool
is_text s t = ite (key_dec s t) true false

abbrev pub is_one : Option String → String → Bool
is_one none s = false
is_one (some t) s = is_text t s

abbrev pub clear_resume : String → State → State
clear_resume peer s = record s { fresh_sessions = s.fresh_sessions ++ peer ∷ [] }

-- `trimMap`: while there are too many entries, the oldest is deleted
unfoldable pub trim_map : {V : Type 0} → ℕ → JsMap V → JsMap V
trim_map cap [] = []
trim_map cap (e ∷ m) = let rest = trim_map cap m in if ltb cap (length (e ∷ m)) then rest else e ∷ m

abbrev pub unset_project : String → State → State
unset_project peer s = record (clear_resume peer s) { projects = JsMap.delete peer s.projects }

module _ (config : Config) where
  -- `setPeerProject` of a project, which starts a fresh session
  abbrev pub set_project : String → Project → State → State
  set_project peer p s = record (clear_resume peer s) {
    projects = trim_map config.peer_cap (JsMap.set peer p s.projects);
  }

  -- `trimOverrides`
  abbrev pub trim_overrides : State → State
  trim_overrides s = record s {
    models = trim_map config.peer_cap s.models;
    efforts = trim_map config.peer_cap s.efforts;
  }

  abbrev pub is_locked : Option (List String) → Bool
  is_locked none = false
  is_locked (some []) = true
  is_locked (some (m ∷ ms)) = false

  abbrev pub is_refused : Option (List String) → String → Bool
  is_refused none model = false
  is_refused (some []) model = false
  is_refused (some (m ∷ ms)) model = not (is_in model (m ∷ ms))

  abbrev pub same_branch : Option String → Option String → Bool
  same_branch none none = true
  same_branch none (some b) = false
  same_branch (some b) none = false
  same_branch (some b) (some c) = is_text b c

  abbrev pub is_current : Project → Option Project → Bool
  is_current p none = false
  is_current p (some c) = is_text c.alias p.alias && same_branch c.branch p.branch

  abbrev pub switch_to : String → String → Option Project → State → State × Reply
  switch_to peer spec none s = (s, project_unknown spec)
  switch_to peer spec (some p) s =
      if is_in p.alias config.workspaces
      then (if is_current p (JsMap.get peer s.projects)
          then (s, project_already p)
          else (set_project peer p s, project_set p))
      else (s, project_unknown spec)

  unfoldable pub switch_project : String → String → State → State × Reply
  unfolding JsMap.get JsMap.set trim_map
  switch_project peer spec s = switch_to peer spec (config.parse_spec spec) s

  abbrev pub model_named : String → String → State → State × Reply
  model_named peer model s =
      if is_locked config.allowed_models
      then (s, model_locked)
      else if is_refused config.allowed_models model
      then (s, model_unavailable model)
      else if starts_with model "-" || contains model "\0"
      then (s, model_invalid)
      else if is_one (JsMap.get peer s.models) model
      then (s, model_already model)
      else (
        trim_overrides (record (clear_resume peer s) { models = JsMap.set peer model s.models }),
        model_set model,
      )

  unfoldable pub model_command : String → Option String → State → State × Reply
  unfolding JsMap.get JsMap.set JsMap.has JsMap.delete trim_map
  model_command peer none s =
      (s, model_now (or_text (JsMap.get peer s.models) config.default_model))
  model_command peer (some argument) s =
      if is_text argument "default"
      then (if JsMap.has peer s.models
          then (
            trim_overrides (record (clear_resume peer s) { models = JsMap.delete peer s.models }),
            model_default config.default_model,
          )
          else (s, model_default_already config.default_model))
      else model_named peer argument s

  abbrev pub effort_of : List String → String → Option String → State → State × Reply
  effort_of levels peer none s =
      (s, effort_now (or_text (JsMap.get peer s.efforts) config.default_effort))
  effort_of levels peer (some argument) s =
      if is_text argument "default"
      then (
        record s { efforts = JsMap.delete peer s.efforts },
        effort_default config.default_effort,
      )
      else if is_in (config.lower argument) levels
      then (
        trim_overrides (record s { efforts = JsMap.set peer (config.lower argument) s.efforts }),
        effort_set (config.lower argument),
      )
      else (s, effort_unknown argument)

  abbrev pub effort_with : Option (List String) → String → Option String → State → State × Reply
  effort_with none peer argument s = (s, no_effort)
  effort_with (some levels) peer argument s = effort_of levels peer argument s

  unfoldable pub reasoning_command : String → Option String → State → State × Reply
  unfolding JsMap.get JsMap.set JsMap.delete trim_map
  reasoning_command peer argument s = effort_with config.effort_levels peer argument s

  abbrev pub is_leaving : String → Bool
  is_leaving argument =
      is_text argument "default" || is_text argument "off" || is_text argument "none"

  abbrev pub leave : String → Option Project → State → State × Reply
  leave peer none s = (s, shared_already)
  leave peer (some p) s = (unset_project peer s, shared_back)

  abbrev pub project_of : String → Option String → State → State × Reply
  project_of peer none s = (s, project_list (JsMap.get peer s.projects))
  project_of peer (some argument) s =
      if is_leaving argument
      then leave peer (JsMap.get peer s.projects) s
      else switch_project peer argument s

  abbrev pub is_empty : List String → Bool
  is_empty [] = true
  is_empty (x ∷ xs) = false

  unfoldable pub project_command : String → Option String → State → State × Reply
  unfolding switch_project JsMap.get JsMap.delete
  project_command peer argument s =
      if is_empty config.workspaces then (s, no_projects) else project_of peer argument s

  -- the `default` case: an alias, with its branch, or an unknown command
  abbrev pub shortcut_spec : String → Option String → String
  shortcut_spec cmd none = cmd
  shortcut_spec cmd (some argument) =
      if starts_with argument "@" then str_append cmd argument else cmd

  unfoldable pub shortcut : String → String → Option String → State → State × Reply
  unfolding switch_project
  shortcut peer cmd argument s =
      if is_in cmd config.workspaces
      then switch_project peer (shortcut_spec cmd argument) s
      else (s, unknown_command cmd)

  -- the handler, for a text that is a command
  unfoldable pub handle : String → String → Option String → State → State × Reply
  unfolding model_command reasoning_command project_command shortcut
  handle peer cmd argument s =
      if is_text cmd "help"
      then (s, help_list)
      else if is_text cmd "reset"
      then (clear_resume peer s, fresh_start)
      else if is_text cmd "ping"
      then (s, pong config.chain_connected)
      else if is_text cmd "model"
      then model_command peer argument s
      else if is_text cmd "reasoning"
      then reasoning_command peer argument s
      else if is_text cmd "usage"
      then (s, if config.has_usage peer then usage else no_usage)
      else if is_text cmd "project"
      then project_command peer argument s
      else shortcut peer cmd argument s

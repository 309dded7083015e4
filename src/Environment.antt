-- ===== src/Environment.antt =====
-- bot-core/lib/agent-runtime.mjs: the environment that `buildAgentEnvironment` returns. The
-- start of a turn's process adds the turn's own variables to it, which are not modelled.
-- The three regular expressions that a name is tested with are arguments, as is the lookup in the
-- environment of the bot's own process.
pub mod Origins
mod Tests
use polkadot_chat_agents.Base.JsMap
use polkadot_chat_agents.Base.JsMap.{JsMap}
use polkadot_chat_agents.Base.{
  ◌^◌, ℕ, zero, suc, ◌*◌, ◌%◌, ◌/◌, ◌+◌, ◌-◌, ◌≤◌, ◌<◌, String, Bool, true, false, not, ◌&&◌, ◌||◌,
  Option, none, some, List, [], ◌∷◌, ◌++◌, map, ◌≡◌, ◌≢◌, refl, ap, sym, ◌∙◌, subst, arith, leb,
  ltb, ◌==◌, length, keep_if, All, All-append, All-imp, length-append, length-keep_if-le,
  if◌then◌else◌, if-cases, Bool-cases, Option-cases, inl, inr, key_dec, ite, if_pos, if_neg, ltb→lt,
  not_ltb→le, ◌⊎◌, append-nil, append_assoc, max, min, ◌↔◌,
}

-- `ENV_NAME_RE`, the prefixes of the bot's own names, and `SENSITIVE_ENV_NAME_RE`, as tests
pub record Patterns : Type 0 where
  pub is_name : String → Bool
  pub is_own : String → Bool
  pub is_sensitive : String → Bool

abbrev pub inherited : List String
inherited =
    "PATH" ∷ "HOME" ∷ "USER" ∷ "LOGNAME" ∷ "SHELL" ∷ "LANG" ∷ "LC_ALL" ∷ "LC_CTYPE" ∷ "TZ" ∷ "TERM"
    ∷ "COLORTERM" ∷ "NO_COLOR" ∷ "TMPDIR" ∷ "TMP" ∷ "TEMP" ∷ "SSL_CERT_FILE" ∷ "SSL_CERT_DIR" ∷ []

abbrev pub default_path : String
default_path = "/usr/local/bin:/usr/bin:/bin"

abbrev pub is_text : String → String → Bool
is_text a b = ite (key_dec a b) true false

abbrev pub put : String → Option String → JsMap String → JsMap String
put key none env = env
put key (some value) env = JsMap.set key value env

-- a variable of the parent, `none` where it is absent or empty
abbrev pub non_empty : Option String → Option String
non_empty none = none
non_empty (some value) = if is_text value "" then none else some value

module _ (parent : String → Option String) where
  unfoldable pub inherit : List String → JsMap String → JsMap String
  unfolding JsMap.set
  inherit [] env = env
  inherit (key ∷ keys) env = inherit keys (put key (non_empty (parent key)) env)

abbrev pub path_or_default : Option String → JsMap String → JsMap String
path_or_default none env = JsMap.set "PATH" default_path env
path_or_default (some value) env = env

module _ (patterns : Patterns) where
  unfoldable pub is_forbidden : String → Bool
  is_forbidden name =
      not (patterns.is_name name)
      || is_text name "PCA_OUTPUT_DIR"
      || patterns.is_own name
      || patterns.is_sensitive name

  unfoldable pub configure : List (String × Option String) → JsMap String → JsMap String
  unfolding is_forbidden JsMap.set
  configure [] env = env
  configure ((key, value) ∷ entries) env =
      configure entries (if is_forbidden key then env else put key value env)

  -- `buildAgentEnvironment`, with the entries of `agentEnv`
  unfoldable pub build : (String → Option String) → List (String × Option String) → JsMap String
  unfolding inherit configure JsMap.get JsMap.set
  build parent entries =
      let env = inherit parent inherited [] in
      configure entries (path_or_default (JsMap.get "PATH" env) env)

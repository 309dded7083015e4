-- ===== src/Environment/Origins.antt =====
-- Where the variables of an agent's environment come from.
use polkadot_chat_agents.Base.JsMap
use polkadot_chat_agents.Base.JsMap.{JsMap, get-set, get-set_self}
use polkadot_chat_agents.Environment.{
  Patterns, inherited, default_path, is_text, put, non_empty, inherit, path_or_default,
  is_forbidden, configure, build,
}
use polkadot_chat_agents.Base.{
  String, false, Option, none, some, List, [], ◌∷◌, ◌≡◌, refl, All, if-cases, inl, inr, key_dec,
  if_pos, if_neg, ◌⊎◌,
}

abbrev pub Member : {A : Type 0} → A → List A → Type 0
Member x [] = ⊥
Member x (y ∷ ys) = (y ≡ x) ⊎ Member x ys

All-set :
    (P : String × String → Type 0) (k v : String) (m : JsMap String)
    → P (k, v)
    → All P m
    → All P (JsMap.set k v m)
unfolding JsMap.set
All-set P k v [] p h = (p, tt)
All-set P k v ((j, w) ∷ m) p h = elim (key_dec j k) [
  | yes e ↦ rw (if_pos (key_dec j k) e) (p, h.1)
  | no e ↦ rw (if_neg (key_dec j k) e) (h.0, All-set P k v m p h.1)
]

-- a variable that the environment may have
pub data Origin (patterns : Patterns) (parent : String → Option String)
    (entries : List (String × Option String)) : String × String → Type 0 where
  of_parent :
      (k v : String)
      → Member k inherited
      → parent k ≡ some v
      → Origin patterns parent entries (k, v)
  of_default : Origin patterns parent entries ("PATH", default_path)
  of_entry :
      (k v : String)
      → Member (k, some v) entries
      → is_forbidden patterns k ≡ false
      → Origin patterns parent entries (k, v)

module _ (patterns : Patterns) (parent : String → Option String)
    (entries : List (String × Option String)) where
  abbrev pub AllOrigins : JsMap String → Type 0
  AllOrigins = All (Origin patterns parent entries)

  -- a variable of the parent that is put has its text
  put-parent :
      (key : String) (o : Option String) (env : JsMap String)
      → Member key inherited
      → parent key ≡ o
      → AllOrigins env
      → AllOrigins (put key (non_empty o) env)
  put-parent key none env i eq h = h
  put-parent key (some v) env i eq h =
      if-cases (λ (o : Option String). AllOrigins (put key o env)) (is_text v "") _ _ (λ y. h)
        (λ n. All-set (Origin patterns parent entries) key v env (of_parent key v i eq) h)

  inherit-AllOrigins :
      (keys : List String) (env : JsMap String)
      → ((k : String) → Member k keys → Member k inherited)
      → AllOrigins env
      → AllOrigins (inherit parent keys env)
  unfolding inherit
  inherit-AllOrigins [] env sub h = h
  inherit-AllOrigins (key ∷ keys) env sub h =
      inherit-AllOrigins keys _ (λ k i. sub k (inr i))
        (put-parent key (parent key) env (sub key (inl refl)) refl h)

  path-AllOrigins :
      (o : Option String) (env : JsMap String) → AllOrigins env → AllOrigins (path_or_default o env)
  path-AllOrigins none env h =
      All-set (Origin patterns parent entries) "PATH" default_path env of_default h
  path-AllOrigins (some v) env h = h

  put-entry :
      (key : String) (o : Option String) (env : JsMap String)
      → Member (key, o) entries
      → is_forbidden patterns key ≡ false
      → AllOrigins env
      → AllOrigins (put key o env)
  put-entry key none env i ok h = h
  put-entry key (some v) env i ok h =
      All-set (Origin patterns parent entries) key v env (of_entry key v i ok) h

  configure-AllOrigins :
      (es : List (String × Option String)) (env : JsMap String)
      → ((e : String × Option String) → Member e es → Member e entries)
      → AllOrigins env
      → AllOrigins (configure patterns es env)
  unfolding configure
  configure-AllOrigins [] env sub h = h
  configure-AllOrigins ((key, o) ∷ es) env sub h =
      configure-AllOrigins es _ (λ e i. sub e (inr i))
        (if-cases AllOrigins (is_forbidden patterns key) _ _ (λ y. h)
          (λ n. put-entry key o env (sub (key, o) (inl refl)) n h))

  -- Every variable that `buildAgentEnvironment` returns is one of the inherited names with the value
  -- of the parent, the default `PATH`, or an entry of `agentEnv` whose name is not forbidden.
  pub build-AllOrigins : AllOrigins (build patterns parent entries)
  unfolding build
  build-AllOrigins =
      let env = inherit parent inherited [] in
      configure-AllOrigins entries _ (λ e i. i)
        (path-AllOrigins (JsMap.get "PATH" env) env (inherit-AllOrigins inherited [] (λ k i. i) tt))

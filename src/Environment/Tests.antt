-- ===== src/Environment/Tests.antt =====
-- A parent with a secret, and an entry with a forbidden name.
use polkadot_chat_agents.Environment.{Patterns, is_text, build}
use polkadot_chat_agents.Environment.Origins.{AllOrigins, build-AllOrigins}
use polkadot_chat_agents.Base.{
  String, true, Option, none, some, List, [], ◌∷◌, map, ◌≡◌, refl, if◌then◌else◌, key_dec,
}

abbrev patterns : Patterns
patterns = record {
  is_name = λ name. true;
  is_own = λ name. is_text name "BOT_SEED";
  is_sensitive = λ name. is_text name "API_KEY";
}

abbrev parent : String → Option String
parent name =
    if is_text name "HOME" then some "/root" else if is_text name "BOT_SEED" then some "x" else none

abbrev entries : List (String × Option String)
entries = ("API_KEY", some "k") ∷ ("EDITOR", some "vi") ∷ []

build-AllOrigins_example : AllOrigins patterns parent entries (build patterns parent entries)
build-AllOrigins_example = build-AllOrigins patterns parent entries

built : map (λ e. e.0) (build patterns parent entries) ≡ "HOME" ∷ "PATH" ∷ "EDITOR" ∷ []
unfolding build key_dec
built = refl

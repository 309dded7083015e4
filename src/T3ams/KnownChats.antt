-- ===== src/T3ams/KnownChats.antt =====
-- bot-core/transports/t3ams/t3ams-known-chats.mjs: the bounded LRU index of chats. The callbacks
-- `isProtected` and `isValid` are arguments: they read state of the caller.
pub mod Eviction
pub mod Note
mod Tests
use polkadot_chat_agents.Base.{
  ℕ, zero, suc, String, Bool, true, false, Option, none, some, List, [], ◌∷◌, leb, ltb, length,
  if◌then◌else◌,
}
use polkadot_chat_agents.Base.JsMap
use polkadot_chat_agents.Base.JsMap.{JsMap}

pub record KnownChats : Type 0 where
  pub limit : ℕ
  pub chats : JsMap Bool

-- The cap reaches this function as `Number(value)`; `none` is a number that is no safe integer
-- of the natural numbers.
unfoldable pub positive_integer : Option ℕ → ℕ → ℕ
positive_integer none fallback = fallback
positive_integer (some n) fallback = if leb 1 n then n else fallback

unfoldable pub create : Option ℕ → KnownChats
unfolding positive_integer
create cap = record { limit = positive_integer cap 500; chats = [] }

-- the `for` loop of `trim`: the first key that is not protected
unfoldable pub find_victim : (String → Bool) → JsMap Bool → Option String
find_victim is_protected [] = none
find_victim is_protected ((k, v) ∷ m) =
    if is_protected k then find_victim is_protected m else some k

-- the `while` loop of `trim`; every round deletes an entry, so the entries are fuel enough
unfoldable pub trim_loop : ℕ → ℕ → (String → Bool) → JsMap Bool → JsMap Bool
unfolding find_victim JsMap.delete
trim_loop zero limit is_protected m = m
trim_loop (suc fuel) limit is_protected m = elim (ltb limit (length m)) [
  | false ↦ m
  | true ↦ elim (find_victim is_protected m) [
    | none ↦ m
    | some victim ↦ trim_loop fuel limit is_protected (JsMap.delete victim m)
  ]
]

unfoldable pub trim : (String → Bool) → KnownChats → KnownChats
unfolding trim_loop
trim is_protected s = record s { chats = trim_loop (length s.chats) s.limit is_protected s.chats }

unfoldable pub note : (String → Bool) → (String → Bool) → KnownChats → String → KnownChats × Bool
unfolding trim JsMap.set JsMap.delete JsMap.has
note is_protected is_valid s chat_id =
    if is_valid chat_id
    then (let s' =
          trim is_protected
            (record s { chats = JsMap.set chat_id true (JsMap.delete chat_id s.chats) }) in
        (s', JsMap.has chat_id s'.chats))
    else (s, false)

-- ===== src/T3ams/KnownChats/Tests.antt =====
-- The index of chats at concrete inputs.
use polkadot_chat_agents.Base.{
  eq_iff, str_eq, ◌≤◌, String, Bool, true, false, [], ◌∷◌, ◌≡◌, ◌≢◌, refl, arith, length, key_dec,
  ite, max,
}
use polkadot_chat_agents.Base.JsMap
use polkadot_chat_agents.Base.JsMap.{JsMap, IsDistinct}
use polkadot_chat_agents.T3ams.KnownChats.{KnownChats, trim, note}
use polkadot_chat_agents.T3ams.KnownChats.Eviction.{drop_oldest}
use polkadot_chat_agents.T3ams.KnownChats.Note.{
  protected_count, trim-drop_oldest, note-IsBounded, note-protected,
}

abbrev is_a : String → Bool
is_a k = ite (key_dec k "a") true false

abbrev three : KnownChats
three = record { limit = 2; chats = ("a", true) ∷ ("b", true) ∷ ("c", true) ∷ [] }

ne : (s t : String) → str_eq s t ≡ false → s ≢ t
ne s t e p = cc (e, (eq_iff s t).1 p)

three-IsDistinct : IsDistinct three.chats
three-IsDistinct = ((ne "b" "a" refl, (ne "c" "a" refl, tt)), ((ne "c" "b" refl, tt), (tt, tt)))

trim-three : (trim is_a three).chats ≡ ("a", true) ∷ ("c", true) ∷ []
unfolding trim key_dec
trim-three = refl

trim-drop_oldest_example : (trim is_a three).chats ≡ drop_oldest 1 is_a three.chats
trim-drop_oldest_example = trim-drop_oldest is_a three three-IsDistinct

abbrev two : KnownChats
two = record { limit = 2; chats = ("a", true) ∷ ("b", true) ∷ [] }

two-IsDistinct : IsDistinct two.chats
two-IsDistinct = ((ne "b" "a" refl, tt), (tt, tt))

note-IsBounded_example :
    IsDistinct (note is_a (λ _. true) two "c").0.chats
    × (length (note is_a (λ _. true) two "c").0.chats
        ≤ max 2 (protected_count is_a (note is_a (λ _. true) two "c").0.chats))
note-IsBounded_example = note-IsBounded is_a (λ _. true) two "c" two-IsDistinct (omega arith)

is_a_a : is_a "a" ≡ true
unfolding key_dec
is_a_a = refl

note-protected_example :
    (◌≢◌ {A = String} "a" "c"
      → JsMap.get "a" (note is_a (λ _. true) two "c").0.chats ≡ JsMap.get "a" two.chats)
    × (◌≡◌ {A = String} "a" "c" → (note is_a (λ _. true) two "c").1 ≡ true)
note-protected_example = note-protected is_a (λ _. true) two "c" "a" two-IsDistinct refl is_a_a

-- ===== src/Base/JsMap.antt =====
-- JavaScript's `Map` with string keys: entries in insertion order, at most one for a key. `set`
-- writes an existing entry in place and appends a new one.
use Prim.Native.Nat.{◌+◌, ◌≤◌}
use Prim.Native.String.{String}
use mathlib.Core.Bool.{Bool, true, false}
use mathlib.Core.List.{List, [], ◌∷◌, ◌++◌, map}
use mathlib.Core.Logic.{◌≢◌, ite, if_pos, if_neg}
use mathlib.Core.Option.{Option, none, some}
use mathlib.Core.Path.{◌≡◌, refl, ap, sym, ◌∙◌, subst}
use native.Mathlib.Omega.{arith}
use polkadot_chat_agents.Base.Tests.{key_dec}
use polkadot_chat_agents.Base.Lists.{length, All}

abbrev pub JsMap {ℓ} : Type ℓ → Type ℓ
JsMap V = List (String × V)

module _ {ℓ} {V : Type ℓ} where
  unfoldable pub get : String → JsMap V → Option V
  get k [] = none
  get k ((j, v) ∷ m) = ite (key_dec j k) (some v) (get k m)

  abbrev is_some : Option V → Bool
  is_some none = false
  is_some (some v) = true

  unfoldable pub has : String → JsMap V → Bool
  has k m = is_some (get k m)

  unfoldable pub set : String → V → JsMap V → JsMap V
  set k v [] = (k, v) ∷ []
  set k v ((j, w) ∷ m) = ite (key_dec j k) ((k, v) ∷ m) ((j, w) ∷ set k v m)

  unfoldable pub delete : String → JsMap V → JsMap V
  delete k [] = []
  delete k ((j, w) ∷ m) = let rest = delete k m in ite (key_dec j k) rest ((j, w) ∷ rest)

  abbrev pub keys : JsMap V → List String
  keys = map (λ e. e.0)

  -- no key stands twice
  abbrev pub Absent : String → JsMap V → Type 0
  Absent k [] = Unit
  Absent k ((j, v) ∷ m) = (j ≢ k) × Absent k m

  abbrev pub IsDistinct : JsMap V → Type 0
  IsDistinct [] = Unit
  IsDistinct ((j, v) ∷ m) = Absent j m × IsDistinct m

  pub get-set :
      (k j : String) (v : V) (m : JsMap V)
      → get j (set k v m) ≡ ite (key_dec k j) (some v) (get j m)
  unfolding get set
  get-set k j v [] = refl
  get-set k j v ((i, w) ∷ m) = ground (arith, get-set k j v m)

  pub get-delete :
      (k j : String) (m : JsMap V) → get j (delete k m) ≡ ite (key_dec k j) none (get j m)
  unfolding get delete
  get-delete k j [] = ground arith
  get-delete k j ((i, w) ∷ m) = ground (arith, get-delete k j m)

  pub get-append : (k : String) (m n : JsMap V) → get k m ≡ none → get k (m ++ n) ≡ get k n
  unfolding get
  get-append k [] n h = refl
  get-append k ((i, w) ∷ m) n h = ground (arith, get-append k m n)

  pub get-snoc_ne :
      (k j : String) (v : V) (m : JsMap V) → j ≢ k → get k (m ++ (j, v) ∷ []) ≡ get k m
  unfolding get
  get-snoc_ne k j v [] h = rw (if_neg _ h)
  get-snoc_ne k j v ((i, w) ∷ m) h = ground (arith, get-snoc_ne k j v m)

  pub get-snoc_self :
      (k : String) (v : V) (m : JsMap V) → Absent k m → get k (m ++ (k, v) ∷ []) ≡ some v
  unfolding get
  get-snoc_self k v [] h = rw (if_pos (key_dec k k) refl)
  get-snoc_self k v ((i, w) ∷ m) h = rw (if_neg _ h.0) (get-snoc_self k v m h.1)

  pub Absent-delete : (k j : String) (m : JsMap V) → Absent j m → Absent j (delete k m)
  unfolding delete
  Absent-delete k j [] h = tt
  Absent-delete k j ((i, w) ∷ m) h = elim (key_dec i k) [
    | yes p ↦ rw (if_pos _ p) (Absent-delete k j m h.1)
    | no p ↦ rw (if_neg _ p) (h.0, Absent-delete k j m h.1)
  ]

  pub Absent-delete_self : (k : String) (m : JsMap V) → Absent k (delete k m)
  unfolding delete
  Absent-delete_self k [] = tt
  Absent-delete_self k ((i, w) ∷ m) = elim (key_dec i k) [
    | yes p ↦ rw (if_pos _ p) (Absent-delete_self k m)
    | no p ↦ rw (if_neg _ p) (p, Absent-delete_self k m)
  ]

  pub IsDistinct-delete : (k : String) (m : JsMap V) → IsDistinct m → IsDistinct (delete k m)
  unfolding delete
  IsDistinct-delete k [] h = tt
  IsDistinct-delete k ((i, w) ∷ m) h = elim (key_dec i k) [
    | yes p ↦ rw (if_pos _ p) (IsDistinct-delete k m h.1)
    | no p ↦ rw (if_neg _ p) (Absent-delete k i m h.0, IsDistinct-delete k m h.1)
  ]

  -- `set` of an absent key appends
  pub set-Absent : (k : String) (v : V) (m : JsMap V) → Absent k m → set k v m ≡ m ++ (k, v) ∷ []
  unfolding set
  set-Absent k v [] h = refl
  set-Absent k v ((i, w) ∷ m) h = rw (if_neg _ h.0) (ap (◌∷◌ (i, w)) (set-Absent k v m h.1))

  pub delete-Absent : (k : String) (m : JsMap V) → Absent k m → delete k m ≡ m
  unfolding delete
  delete-Absent k [] h = refl
  delete-Absent k ((i, w) ∷ m) h = rw (if_neg _ h.0) (ap (◌∷◌ (i, w)) (delete-Absent k m h.1))

  pub get-Absent : (k : String) (m : JsMap V) → Absent k m → get k m ≡ none
  unfolding get
  get-Absent k [] h = refl
  get-Absent k ((i, w) ∷ m) h = rw (if_neg _ h.0) (get-Absent k m h.1)

  pub length-delete-le : (k : String) (m : JsMap V) → length (delete k m) ≤ length m
  unfolding delete
  length-delete-le k [] = omega arith
  length-delete-le k ((i, w) ∷ m) = ground (arith, length-delete-le k m)

  pub length-set-le : (k : String) (v : V) (m : JsMap V) → length (set k v m) ≤ length m + 1
  unfolding set
  length-set-le k v [] = omega arith
  length-set-le k v ((i, w) ∷ m) = ground (arith, length-set-le k v m)

  pub All-delete {κ} :
      (P : String × V → Type κ) (k : String) (m : JsMap V) → All P m → All P (delete k m)
  unfolding delete
  All-delete P k [] h = tt
  All-delete P k ((i, w) ∷ m) h = elim (key_dec i k) [
    | yes p ↦ rw (if_pos _ p) (All-delete P k m h.1)
    | no p ↦ rw (if_neg _ p) (h.0, All-delete P k m h.1)
  ]

  pub All-set {κ} :
      (P : String × V → Type κ) (k : String) (v : V) (m : JsMap V)
      → P (k, v)
      → All P m
      → All P (set k v m)
  unfolding set
  All-set P k v [] q h = (q, tt)
  All-set P k v ((i, w) ∷ m) q h = elim (key_dec i k) [
    | yes p ↦ rw (if_pos _ p) (q, h.1)
    | no p ↦ rw (if_neg _ p) (h.0, All-set P k v m q h.1)
  ]

  pub Absent-of_get : (k : String) (m : JsMap V) → get k m ≡ none → Absent k m
  unfolding get
  Absent-of_get k [] h = tt
  Absent-of_get k ((i, w) ∷ m) h = elim (key_dec i k) [
    | yes p ↦ absurd (ground arith)
    | no p ↦ (p, Absent-of_get k m (ground arith))
  ]

  Absent-set : (j k : String) (v : V) (m : JsMap V) → j ≢ k → Absent j m → Absent j (set k v m)
  unfolding set
  Absent-set j k v [] ne h = ((λ e. ne (sym e)), tt)
  Absent-set j k v ((i, w) ∷ m) ne h = elim (key_dec i k) [
    | yes p ↦ rw (if_pos _ p) ((λ e. ne (sym e)), h.1)
    | no p ↦ rw (if_neg _ p) (h.0, Absent-set j k v m ne h.1)
  ]

  pub IsDistinct-set : (k : String) (v : V) (m : JsMap V) → IsDistinct m → IsDistinct (set k v m)
  unfolding set
  IsDistinct-set k v [] h = (tt, tt)
  IsDistinct-set k v ((i, w) ∷ m) h = elim (key_dec i k) [
    | yes p ↦ rw (if_pos _ p) (subst (λ x. Absent x m) p h.0, h.1)
    | no p ↦ rw (if_neg _ p) (Absent-set i k v m p h.0, IsDistinct-set k v m h.1)
  ]

  pub get-set_self : (k : String) (v : V) (m : JsMap V) → get k (set k v m) ≡ some v
  get-set_self k v m = get-set k k v m ∙ if_pos (key_dec k k) refl (some v) (get k m)

  pub get-set_ne : (k j : String) (v : V) (m : JsMap V) → k ≢ j → get j (set k v m) ≡ get j m
  get-set_ne k j v m h = get-set k j v m ∙ if_neg (key_dec k j) h (some v) (get j m)

  pub get-delete_ne : (k j : String) (m : JsMap V) → k ≢ j → get j (delete k m) ≡ get j m
  get-delete_ne k j m h = get-delete k j m ∙ if_neg (key_dec k j) h none (get j m)

  pub get-delete_self : (k : String) (m : JsMap V) → get k (delete k m) ≡ none
  get-delete_self k m = get-delete k k m ∙ if_pos (key_dec k k) refl none (get k m)

-- ===== src/Collections/HashMap.antt =====
-- `std::collections::HashMap` with `String` keys: an association list with one entry for a key.
-- The list's order stands for the iteration order, which the program cannot choose.
use mini_realtime_server_rs.Prelude.{
  ℕ, suc, ◌≤◌, ◌≡◌, refl, String, ◌==◌, eq_iff, Bool, true, false, Option, none, some, List, [],
  ◌∷◌, map, arith, if◌then◌else◌, length,
}

abbrev pub HashMap {ℓ} : Type ℓ → Type ℓ
HashMap V = List (String × V)

abbrev pub is_some {ℓ} : {A : Type ℓ} → Option A → Bool
is_some none = false
is_some (some a) = true

module _ {ℓ} {V : Type ℓ} where
  unfoldable pub get : String → HashMap V → Option V
  get k [] = none
  get k ((j, v) ∷ m) = if j == k then some v else get k m

  unfoldable pub contains_key : String → HashMap V → Bool
  contains_key k m = is_some (get k m)

  -- A new key goes last; the value of an old key is replaced.
  unfoldable pub insert : String → V → HashMap V → HashMap V
  insert k v [] = (k, v) ∷ []
  insert k v ((j, w) ∷ m) = let rest = insert k v m in if j == k then (j, v) ∷ m else (j, w) ∷ rest

  -- `remove` also returns the value, which is `get` of the map before.
  unfoldable pub remove : String → HashMap V → HashMap V
  remove k [] = []
  remove k ((j, w) ∷ m) = let rest = remove k m in if j == k then rest else (j, w) ∷ rest

  abbrev pub keys : HashMap V → List String
  keys m = map (λ e. e.0) m

  abbrev pub len : HashMap V → ℕ
  len m = length m

  -- No key has two entries.
  abbrev pub IsMap : HashMap V → Type ℓ
  IsMap [] = Unit
  IsMap ((k, _) ∷ m) = (get k m ≡ none) × IsMap m

  pub get-insert :
      (k j : String) (v : V) (m : HashMap V)
      → get j (insert k v m) ≡ (if k == j then some v else get j m)
  unfolding get insert
  get-insert k j v [] = refl
  get-insert k j v ((i, w) ∷ m) =
      ground (arith, eq_iff k j, eq_iff i k, eq_iff i j, get-insert k j v m)

  pub get-remove :
      (k j : String) (m : HashMap V) → get j (remove k m) ≡ (if k == j then none else get j m)
  unfolding get remove
  get-remove k j [] = ground arith
  get-remove k j ((i, w) ∷ m) = ground (arith, eq_iff k j, eq_iff i k, eq_iff i j, get-remove k j m)

  pub get-insert_self : (k : String) (v : V) (m : HashMap V) → get k (insert k v m) ≡ some v
  get-insert_self k v m = ground (arith, get-insert k k v m, eq_iff k k)

  pub get-remove_self : (k : String) (m : HashMap V) → get k (remove k m) ≡ none
  get-remove_self k m = ground (arith, get-remove k k m, eq_iff k k)

  pub remove_absent : (k : String) (m : HashMap V) → get k m ≡ none → remove k m ≡ m
  unfolding get remove
  remove_absent k [] h = refl
  remove_absent k ((i, w) ∷ m) h = ground (arith, eq_iff i k, remove_absent k m)

  pub len-insert :
      (k : String) (v : V) (m : HashMap V) → get k m ≡ none → len (insert k v m) ≡ suc (len m)
  unfolding get insert
  len-insert k v [] h = refl
  len-insert k v ((i, w) ∷ m) h = ground (arith, eq_iff i k, len-insert k v m)

  pub len-remove :
      (k : String) (v : V) (m : HashMap V)
      → IsMap m
      → get k m ≡ some v
      → suc (len (remove k m)) ≡ len m
  unfolding get remove
  len-remove k v [] d h = ground arith
  len-remove k v ((i, w) ∷ m) d h =
      ground (arith, eq_iff i k, len-remove k v m d.1, remove_absent k m)

  pub len-remove-le : (k : String) (m : HashMap V) → len (remove k m) ≤ len m
  unfolding remove
  len-remove-le k [] = omega arith
  len-remove-le k ((i, w) ∷ m) = ground (arith, len-remove-le k m)

  pub insert-IsMap : (k : String) (v : V) (m : HashMap V) → IsMap m → IsMap (insert k v m)
  unfolding insert get
  insert-IsMap k v [] d = (refl, tt)
  insert-IsMap k v ((i, w) ∷ m) d =
      ground (arith, eq_iff i k, eq_iff k i, get-insert k i v m, insert-IsMap k v m d.1)

  pub remove-IsMap : (k : String) (m : HashMap V) → IsMap m → IsMap (remove k m)
  unfolding remove get
  remove-IsMap k [] d = tt
  remove-IsMap k ((i, w) ∷ m) d =
      ground (arith, eq_iff i k, eq_iff k i, get-remove k i m, remove-IsMap k m d.1)

  -- A new entry can be taken out again.
  pub remove-insert :
      (k : String) (v : V) (m : HashMap V) → get k m ≡ none → remove k (insert k v m) ≡ m
  unfolding get insert remove
  remove-insert k v [] h = ground (arith, eq_iff k k)
  remove-insert k v ((i, w) ∷ m) h = ground (arith, eq_iff i k, remove-insert k v m)

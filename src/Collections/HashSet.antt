-- ===== src/Collections/HashSet.antt =====
-- `std::collections::HashSet` of `String`: a map to the unit type.
use mini_realtime_server_rs.Prelude.{
  refl, ◌≡◌, String, ◌==◌, Bool, true, false, not, arith, if◌then◌else◌,
}
use mini_realtime_server_rs.Collections.HashMap
use mini_realtime_server_rs.Collections.HashMap.{HashMap, get-insert, get-remove, contains_key}

abbrev pub HashSet : Type 0
HashSet = HashMap (Unit {0})

unfoldable pub contains : String → HashSet → Bool
unfolding contains_key
contains k s = contains_key k s

-- The set after, and whether the value is new.
unfoldable pub insert : String → HashSet → HashSet × Bool
insert k s = (HashMap.insert k tt s, not (contains_key k s))

unfoldable pub remove : String → HashSet → HashSet
remove k s = HashMap.remove k s

pub contains-insert :
    (k j : String) (s : HashSet)
    → contains j (insert k s).0 ≡ (if k == j then true else contains j s)
unfolding contains insert contains_key
contains-insert k j s = ground (arith, get-insert {V = Unit {0}} k j tt s)

pub contains-remove :
    (k j : String) (s : HashSet)
    → contains j (remove k s) ≡ (if k == j then false else contains j s)
unfolding contains remove contains_key
contains-remove k j s = ground (arith, get-remove {V = Unit {0}} k j s)

-- `insert` says whether the value is new.
pub inserted : (k : String) (s : HashSet) → (insert k s).1 ≡ not (contains k s)
unfolding contains insert
inserted k s = refl

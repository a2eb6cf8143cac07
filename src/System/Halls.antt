-- ===== src/System/Halls.antt =====
-- What clients may rely on of the rooms, with no task, channel or lock: a table from ids to halls,
-- and the ways in which it changes.
use mini_realtime_server_rs.Prelude.{
  ℕ, suc, ◌-◌, ◌<◌, ◌≡◌, String, ◌==◌, Bool, true, false, Option, none, some, if◌then◌else◌, subst,
}

-- A room as the clients know it: how many may be in it, how many are, and who.
pub record Hall : Type 0 where
  pub limit : ℕ
  pub size : ℕ
  pub members : String → Bool

abbrev pub Halls : Type 0
Halls = String → Option Hall

-- The table with another entry at one id.
abbrev pub put : String → Option Hall → Halls → Halls
put id entry halls k = if id == k then entry else halls k

abbrev pub opened : ℕ → Hall
opened limit = record { limit = limit; size = 0; members = λ k. false }

abbrev pub entered : String → Hall → Hall
entered player hall = record hall {
  size = suc hall.size;
  members = λ k. if player == k then true else hall.members k;
}

abbrev pub left : String → Hall → Hall
left player hall = record hall {
  size = hall.size - 1;
  members = λ k. if player == k then false else hall.members k;
}

-- A hall is opened under a free id with nobody in it, is entered by somebody new while there is a
-- place, is left by a member, and is closed when nobody is in it.
pub data Change (halls : Halls) : Halls → Type 0 where
  same : Change halls halls
  opens :
      (id : String) (limit : ℕ)
      → halls id ≡ none
      → Change halls (put id (some (opened limit)) halls)
  enters :
      (id player : String) (hall : Hall)
      → halls id ≡ some hall
      → hall.members player ≡ false
      → hall.size < hall.limit
      → Change halls (put id (some (entered player hall)) halls)
  leaves :
      (id player : String) (hall : Hall)
      → halls id ≡ some hall
      → hall.members player ≡ true
      → 0 < hall.size
      → Change halls (put id (some (left player hall)) halls)
  closes :
      (id : String) (hall : Hall)
      → halls id ≡ some hall
      → hall.size ≡ 0
      → Change halls (put id none halls)

-- Tables with the same entries are one.
pub Change-along : {a b c : Halls} → ((id : String) → b id ≡ c id) → Change a b → Change a c
Change-along {a} e change = subst (λ t. Change a t) (λ i id. e id i) change

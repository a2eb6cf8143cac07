-- ===== src/Entity/Room/Members.antt =====
-- src/entity/room.rs: what the methods of a room promise about its members.
use native.Mathlib.Nat.{mod-eq_of_lt}
use mini_realtime_server_rs.Prelude.{
  refl, [], ◌∷◌, All, suc, ◌≤◌, ◌<◌, ◌^◌, ◌≡◌, ◌≢◌, ◌↔◌, ◌⊎◌, String, ◌==◌, eq_iff, true, false,
  ◌&&◌, none, some, ok, err, is_ok, arith, if◌then◌else◌, Option-cases, inl, inr,
}
use mini_realtime_server_rs.Collections.HashMap
use mini_realtime_server_rs.Collections.HashMap.{
  HashMap, IsMap, len, contains_key, is_some, get-insert, get-remove, len-insert, len-remove,
  len-remove-le, insert-IsMap, remove-IsMap, remove-insert,
}
use mini_realtime_server_rs.Entity.Player.{Player}
use mini_realtime_server_rs.Entity.Room.Defs.{
  RoomError, already_joined_room, room_config_does_not_match, room_is_full, RoomConfig, Room, new,
  num_players, is_joined, add_player, remove_player,
}

-- Every entry of the map is filed under the player's own id.
abbrev pub IsKeyed : {T : Type 0} → HashMap (Player T) → Type 0
IsKeyed = All (λ e. e.1.id ≡ e.0)

-- A room as the program keeps it: one entry for each id, under that id, at most `max_players`
-- members, and a limit that fits a `u32`.
pub record IsValid {T : Type 0} (room : Room T) : Type 0 where
  pub distinct : IsMap room.players
  pub keyed : IsKeyed room.players
  pub within : len room.players ≤ room.config.max_players
  pub u32_limit : room.config.max_players < 2 ^ 32

RoomConfig_eq : (a b : RoomConfig) → a.max_players ≡ b.max_players → a ≡ b
RoomConfig_eq a b e = cc

module _ {T : Type 0} where
  pub new-IsValid :
      (id : String) (config : RoomConfig)
      → config.max_players < 2 ^ 32
      → IsValid (new {T = T} id config)
  unfolding new HashMap.get
  new-IsValid id config h = record {
    distinct = tt;
    keyed = tt;
    within = omega arith;
    u32_limit = h;
  }

  -- In a valid room the cast of `num_players` to `u32` loses nothing: the result is the number of members.
  pub num_players-eq-len : (room : Room T) → IsValid room → num_players room ≡ len room.players
  unfolding num_players
  num_players-eq-len room v =
      mod-eq_of_lt {n = len room.players} {m = 2 ^ 32} (omega (arith, v.within, v.u32_limit))

  IsKeyed-insert :
      (p : Player T) (m : HashMap (Player T)) → IsKeyed m → IsKeyed (HashMap.insert p.id p m)
  unfolding HashMap.insert
  IsKeyed-insert p [] h = (refl, tt)
  IsKeyed-insert p ((i, q) ∷ m) h = ground (arith, eq_iff i p.id, IsKeyed-insert p m h.1)

  IsKeyed-remove : (j : String) (m : HashMap (Player T)) → IsKeyed m → IsKeyed (HashMap.remove j m)
  unfolding HashMap.remove
  IsKeyed-remove j [] h = tt
  IsKeyed-remove j ((i, q) ∷ m) h = ground (arith, eq_iff i j, IsKeyed-remove j m h.1)

  -- A member is found under its own id.
  pub id_of_get :
      (k : String) (p : Player T) (m : HashMap (Player T))
      → IsKeyed m
      → HashMap.get k m ≡ some p
      → p.id ≡ k
  unfolding HashMap.get
  id_of_get k p [] h e = cc
  id_of_get k p ((i, q) ∷ m) h e = ground (arith, eq_iff i k, id_of_get k p m h.1)

  module _ (room : Room T) where
    joined : Player T → Room T
    joined p = record room { players = HashMap.insert p.id p room.players }

    -- Either the room is left alone, or the player was let in.
    add_player_cases :
        (p : Player T) (config : RoomConfig)
        → IsValid room
        → ((add_player room p config).0 ≡ room)
          ⊎ (((add_player room p config).0 ≡ joined p)
              × (HashMap.get p.id room.players ≡ none)
              × (len room.players < room.config.max_players))
    unfolding add_player contains_key joined
    add_player_cases p config v = ground (arith, num_players-eq-len room v)

    joined-IsValid :
        (p : Player T)
        → IsValid room
        → HashMap.get p.id room.players ≡ none
        → len room.players < room.config.max_players
        → IsValid (joined p)
    unfolding joined
    joined-IsValid p v absent free = record {
      distinct = insert-IsMap p.id p room.players v.distinct;
      keyed = IsKeyed-insert p room.players v.keyed;
      within = omega (arith, len-insert p.id p room.players absent, free);
      u32_limit = v.u32_limit;
    }

    -- `add_player` keeps a room valid, on every branch: distinct ids, each member filed under its id, at
    -- most `max_players` members.
    pub add_player-IsValid :
        (p : Player T) (config : RoomConfig) → IsValid room → IsValid (add_player room p config).0
    add_player-IsValid p config v = elim (add_player_cases p config v) [
      | inl same ↦ rw same v
      | inr (new, absent, free) ↦ rw new (joined-IsValid p v absent free)
    ]

    -- In a valid room, `add_player` succeeds exactly if the asked configuration is the room's, the id is
    -- not yet in the room, and there are fewer than `max_players` members.
    pub add_player_ok_iff :
        (p : Player T) (config : RoomConfig)
        → IsValid room
        → ((add_player room p config).1 ≡ ok tt) ↔ (
            (room.config ≡ config)
            × (is_joined room p.id ≡ false)
            × (len room.players < room.config.max_players))
    unfolding add_player is_joined contains_key
    add_player_ok_iff p config v =
        ground (arith, num_players-eq-len room v, RoomConfig_eq room.config config)

    -- What each refusal says, and that a refusal changes nothing.
    abbrev pub IsRefusal : Player T → RoomConfig → RoomError → Type 0
    IsRefusal p config (room_config_does_not_match i j) =
        (i ≡ room.id) × (j ≡ p.id) × (room.config ≢ config)
    IsRefusal p config (already_joined_room i j) =
        (i ≡ room.id) × (j ≡ p.id) × (is_joined room p.id ≡ true)
    IsRefusal p config (room_is_full i j) =
        (i ≡ room.id) × (j ≡ p.id) × (len room.players ≡ room.config.max_players)

    -- In a valid room, a refusal by `add_player` names the room and the player, its reason holds (another
    -- configuration, an id that is already in the room, or exactly `max_players` members), and the room is
    -- unchanged.
    pub add_player_err :
        (p : Player T) (config : RoomConfig) (e : RoomError)
        → IsValid room
        → (add_player room p config).1 ≡ err e
        → IsRefusal p config e × ((add_player room p config).0 ≡ room)
    unfolding add_player is_joined contains_key
    add_player_err p config (room_config_does_not_match i j) v h = ground arith
    add_player_err p config (already_joined_room i j) v h = ground arith
    add_player_err p config (room_is_full i j) v h = ground (arith, num_players-eq-len room v)

    -- After `add_player` an id is joined exactly if it was before, or it is the new player's and the call
    -- succeeded.
    pub is_joined-add_player :
        (p : Player T) (config : RoomConfig) (k : String)
        → is_joined (add_player room p config).0 k
          ≡ (if is_ok (add_player room p config).1 && (p.id == k) then true else is_joined room k)
    unfolding add_player is_joined contains_key
    is_joined-add_player p config k =
        ground (arith, get-insert p.id k p room.players, eq_iff p.id k)

    -- After `remove_player` the removed id is not joined, and every other id is as it was.
    pub is_joined-remove_player :
        (j k : String)
        → is_joined (remove_player room j).0 k ≡ (if j == k then false else is_joined room k)
    unfolding remove_player is_joined contains_key
    is_joined-remove_player j k = ground (arith, get-remove j k room.players)

    -- In a valid room, removing a joined player leaves one member less.
    pub len-remove_player :
        (k : String)
        → IsValid room
        → is_joined room k ≡ true
        → suc (len (remove_player room k).0.players) ≡ len room.players
    unfolding remove_player is_joined contains_key
    len-remove_player k v h = elim (Option-cases (HashMap.get k room.players)) [
      | inl e ↦ ground arith
      | inr (p, e) ↦ len-remove k p room.players v.distinct e
    ]

    -- If `add_player` succeeds, `remove_player` of the same id finds the player and gives back the room
    -- as it was.
    pub remove_player-add_player :
        (p : Player T) (config : RoomConfig)
        → (add_player room p config).1 ≡ ok tt
        → remove_player (add_player room p config).0 p.id ≡ (room, true)
    unfolding add_player remove_player contains_key
    remove_player-add_player p config h = ground (
      arith,
      remove-insert p.id p room.players,
      get-insert p.id p.id p room.players,
      eq_iff p.id p.id,
    )

    -- `remove_player` keeps a room valid.
    pub remove_player-IsValid : (k : String) → IsValid room → IsValid (remove_player room k).0
    unfolding remove_player
    remove_player-IsValid k v = record {
      distinct = remove-IsMap k room.players v.distinct;
      keyed = IsKeyed-remove k room.players v.keyed;
      within = omega (arith, len-remove-le k room.players, v.within);
      u32_limit = v.u32_limit;
    }

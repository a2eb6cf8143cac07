-- ===== src/Actor/Player/Limits.antt =====
-- src/actor/player.rs: a player's task asks for no room whose limit is not a `u32`. The wire format
-- gives `max_players` that type; the model's numbers have no bound.
use mini_realtime_server_rs.Prelude.{
  each_bool, each_option, each_result, ◌<◌, ◌^◌, String, ◌==◌, Option, none, some, ok, err, [], ◌∷◌,
  arith, Bool-cases, inl, inr, not,
}
use mini_realtime_server_rs.Mpsc.{Sender}
use mini_realtime_server_rs.Config.{Config}
use mini_realtime_server_rs.Protobuf.{
  IsU32, ContentFits, MessageFits, bearer, ClientData, login_request, join_request, leave_request,
  send_message, ClientMessage, ServerMessage,
}
use mini_realtime_server_rs.Protobuf as Proto
use mini_realtime_server_rs.Entity.Player.{Player}
use mini_realtime_server_rs.Entity.Room.{RoomError}
use mini_realtime_server_rs.Actor.Event.{OutputEvent, OutputJoinEvent}
use mini_realtime_server_rs.Actor.Async.{
  Call, get_or_create_room, Reply, Async, done, call, panicked, ◌>>=◌,
}
use mini_realtime_server_rs.Actor.Player.{
  JoinedRooms, first_request, login, check_auth, send_login_ok, send_login_error, requested_config,
  on_client_message, on_client_data, on_login_request, on_join_request, send_join, on_leave_request,
  on_send_message, try_to_send_output_message, on_output_event, on_joined, on_own_join,
  on_join_error, on_left, on_message, Selected, client_message, output_event, closed, round,
  on_closed, leave_rooms,
}

abbrev pub CallFits : Call → Type 0
CallFits (get_or_create_room id config) = config.max_players < 2 ^ 32
CallFits _ = Unit

-- Every room that the code may ask for, whatever it is answered.
abbrev pub Fits : {A : Type 0} → Async A → Type 0
Fits (done a) = Unit
Fits (call c k) = CallFits c × ((r : Reply c) → Fits (k r))
Fits panicked = Unit

pub Fits-bind :
    {A B : Type 0} (m : Async A) (f : A → Async B)
    → Fits m
    → ((a : A) → Fits (f a))
    → Fits (m >>= f)
Fits-bind (done a) f m-fits f-fits = f-fits a
Fits-bind (call c k) f m-fits f-fits = (m-fits.0, λ r. Fits-bind (k r) f (m-fits.1 r) f-fits)
Fits-bind panicked f m-fits f-fits = tt

check_auth-Fits :
    (auth : Option Proto.AuthConfig) (id : String) (tx : Sender ServerMessage) (config : Config)
    → Fits (check_auth auth id tx config)
unfolding check_auth send_login_ok send_login_error
check_auth-Fits (some (bearer auth)) id tx config =
    elim (Bool-cases (not (auth.token == config.auth.bearer))) [
      | inl e ↦ rw (e, check_auth) ((tt, λ r. (tt, λ s. tt)))
      | inr e ↦ rw (e, check_auth) ((tt, λ r. tt))
    ]
check_auth-Fits none id tx config = (tt, λ r. (tt, λ s. tt))

pub first_request-Fits :
    (content : ClientData) (tx : Sender ServerMessage) (config : Config)
    → Fits (first_request content tx config)
unfolding first_request login send_login_error
first_request-Fits (login_request req) tx config = (
  tt,
  each_bool _ (check_auth-Fits req.auth_config req.player_id tx config) (tt, λ r. (tt, λ s. tt)),
)
first_request-Fits (join_request req) tx config = tt
first_request-Fits (leave_request req) tx config = tt
first_request-Fits (send_message req) tx config = tt

-- The default limit is 2.
requested_config_fits :
    (config : Option Proto.RoomConfig)
    → IsU32 config
    → (requested_config config).max_players < 2 ^ 32
requested_config_fits (some config) fits = fits
requested_config_fits none fits = omega arith

on_client_data-Fits :
    (content : ClientData) (tx : Sender ServerMessage) (player : Player OutputEvent)
    → ContentFits (some content)
    → Fits (on_client_data content tx player)
unfolding on_client_data on_login_request on_join_request send_join on_leave_request on_send_message
    try_to_send_output_message
on_client_data-Fits (login_request req) tx player fits = (tt, λ r. tt)
on_client_data-Fits (join_request req) tx player fits = (
  requested_config_fits req.room_config fits,
  λ room_tx. (tt, each_result _ (λ a. tt) (λ e. (tt, λ r. tt))),
)
on_client_data-Fits (leave_request req) tx player fits =
    (tt, each_option _ (tt, λ r. tt) (λ n. (tt, λ r. tt)))
on_client_data-Fits (send_message req) tx player fits = (tt, each_option _ tt (λ n. (tt, λ r. tt)))

-- What may be selected from the client's messages.
abbrev pub OptionFits : Option ClientMessage → Type 0
OptionFits (some message) = MessageFits message
OptionFits none = Unit

content-Fits :
    (content : Option ClientData) (tx : Sender ServerMessage) (player : Player OutputEvent)
    → ContentFits content
    → Fits (on_client_message (some (record { content = content })) tx player)
unfolding on_client_message
content-Fits none tx player fits = tt
content-Fits (some content) tx player fits = on_client_data-Fits content tx player fits

on_client_message-Fits :
    (message : Option ClientMessage) (tx : Sender ServerMessage) (player : Player OutputEvent)
    → OptionFits message
    → Fits (on_client_message message tx player)
unfolding on_client_message
on_client_message-Fits none tx player fits = tt
on_client_message-Fits (some m) tx player fits = content-Fits m.content tx player fits

own_join-Fits :
    (ev : OutputJoinEvent) (tx : Sender ServerMessage) (rooms : JoinedRooms)
    → Fits (on_own_join ev tx rooms)
unfolding on_own_join try_to_send_output_message
own_join-Fits ev tx rooms = (tt, each_option _ (tt, λ r. tt) (λ n. (tt, λ r. tt)))

on_output_event-Fits :
    (event : Option OutputEvent) (tx : Sender ServerMessage) (id : String) (rooms : JoinedRooms)
    → Fits (on_output_event event tx id rooms)
unfolding on_output_event on_joined on_join_error on_left on_message try_to_send_output_message
on_output_event-Fits none tx id rooms = tt
on_output_event-Fits (some (OutputEvent.join (ok ev))) tx id rooms =
    elim (Bool-cases (ev.player_id == id)) [
      | inl own ↦ rw (own, on_output_event, on_joined) (own_join-Fits ev tx rooms)
      | inr other ↦ rw (other, on_output_event, on_joined) ((tt, λ r. tt))
    ]
on_output_event-Fits (some (OutputEvent.join (err (RoomError.already_joined_room i j)))) tx id
      rooms =
    (tt, λ r. tt)
on_output_event-Fits (some (OutputEvent.join (err (RoomError.room_config_does_not_match i j)))) tx
      id rooms =
    (tt, λ r. tt)
on_output_event-Fits (some (OutputEvent.join (err (RoomError.room_is_full i j)))) tx id rooms = tt
on_output_event-Fits (some (OutputEvent.leave (ok ev))) tx id rooms =
    elim (Bool-cases (ev.player_id == id)) [
      | inl own ↦ rw (own, on_output_event, on_left) ((tt, λ r. tt))
      | inr other ↦ rw (other, on_output_event, on_left) ((tt, λ r. tt))
    ]
on_output_event-Fits (some (OutputEvent.leave (err e))) tx id rooms = tt
on_output_event-Fits (some (OutputEvent.message ev)) tx id rooms = (tt, λ r. tt)

leave_rooms-Fits : (rooms : JoinedRooms) (id : String) → Fits (leave_rooms rooms id)
unfolding leave_rooms
leave_rooms-Fits [] id = tt
leave_rooms-Fits ((_, n) ∷ rest) id = (tt, λ r. leave_rooms-Fits rest id)

-- What a round may be given.
abbrev pub SelectedFits : Selected → Type 0
SelectedFits (client_message message) = OptionFits message
SelectedFits _ = Unit

pub round-Fits :
    (selected : Selected) (tx : Sender ServerMessage) (player : Player OutputEvent)
    (rooms : JoinedRooms)
    → SelectedFits selected
    → Fits (round selected tx player rooms)
unfolding round on_closed
round-Fits (client_message message) tx player rooms fits =
    Fits-bind (on_client_message message tx player) _
      (on_client_message-Fits message tx player fits) (λ r. tt)
round-Fits (output_event event) tx player rooms fits =
    Fits-bind (on_output_event event tx player.id rooms) _
      (on_output_event-Fits event tx player.id rooms) (λ r. tt)
round-Fits closed tx player rooms fits =
    Fits-bind (on_closed rooms player.id) _
      (Fits-bind (leave_rooms rooms player.id) _ (leave_rooms-Fits rooms player.id)
        (λ r. (tt, λ s. tt)))
      (λ r. tt)

-- ===== src/Websocket/Hub/Examples.antt =====
-- Two clients, 0 and 1, in a room.
use waffle.Base.{
  ℕ, ◌≡◌, refl, true, false, Option, none, some, List, [], ◌∷◌, if◌then◌else◌, eqb, lookup, insert,
  erase, comparable_string, comparable_ℕ,
}
use waffle.Websocket.Hub.{
  ClientSet, member, new_hub, new_client, remove_client, drop_client, close_client, close,
  count_clients, get_room, delete_room, room_join, room_leave, join, leave, has, in_room,
  leave_rooms, forget_room, any_open, broadcast, broadcast_except, others,
}
use waffle.Websocket.Hub.Runs.{Op, connect_op, join_op, close_op, run, step}
use waffle.Websocket.Hub.Closing.{has_at, in_room-has, has-close_client}

program : Unit {0}
unfolding new_hub new_client remove_client drop_client close_client close count_clients get_room
    delete_room room_join room_leave join leave has in_room leave_rooms forget_room any_open run
    step member lookup insert erase broadcast broadcast_except others
program = tt

abbrev ops : List Op
ops = connect_op "ann" ∷ connect_op "bob" ∷ join_op 0 "red" ∷ join_op 1 "red" ∷ []

both_in : has 0 1 (run ops new_hub) ≡ true
unfolding program
both_in = refl

-- A client that joins after its connection has closed stays in the room.
late_join :
    has 0 0 (run (connect_op "ann" ∷ close_op 0 ∷ join_op 0 "red" ∷ close_op 0 ∷ []) new_hub) ≡ true
unfolding program
late_join = refl

first_connected : member 0 (run ops new_hub).clients ≡ true
unfolding program
first_connected = refl

in_room-has_example :
    in_room 0 "red" (run ops new_hub)
    ≡ has_at 0 (lookup "red" (run ops new_hub).rooms) (run ops new_hub)
in_room-has_example = in_room-has ops 0 "red"

has-close_client_example :
    (member 0 (close_client 0 (run ops new_hub)).clients ≡ false)
    × (has 0 0 (close_client 0 (run ops new_hub)) ≡ false)
has-close_client_example = has-close_client ops 0 0 first_connected

abbrev clients : ClientSet
clients = (0, tt) ∷ (1, tt) ∷ []

abbrev sends : ℕ → Option ℕ
sends c = if eqb c 1 then some 7 else none

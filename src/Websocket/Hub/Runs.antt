-- ===== src/Websocket/Hub/Runs.antt =====
-- What holds of a hub after any calls.
use waffle.Base.{
  ℕ, ◌<◌, ◌≤◌, ◌≡◌, ◌∙◌, refl, true, false, none, some, List, [], ◌∷◌, String, if◌then◌else◌,
  lookup, lookup-insert, comparable_string, comparable_ℕ, arith, ltb, Option-cases, Bool-cases, inl,
  inr,
}
use text.Mathlib.TextEquality.{eq_iff}
use waffle.Websocket.Hub.{
  ClientSet, Hub, member, new_hub, new_client, drop_client, remove_client, close_client, get_room,
  delete_room, room_join, room_leave, join, leave, write,
}
use waffle.Websocket.Hub.Loops.{
  member-nil, member-insert, member-erase, lookup-forget_room, is_open-forget_room,
}
use waffle.Websocket.Hub.Membership.{
  IsConsistent, new_hub-IsConsistent, drop_client-IsConsistent, delete_room-IsConsistent,
  get_room-IsConsistent, room_join-IsConsistent, room_leave-IsConsistent,
}

pub absent : (c : ℕ) (m : ClientSet) → lookup c m ≡ none → member c m ≡ false
unfolding member
absent c m e = rw e

-- The connected clients have been made and have open connections, and a client that has not been
-- made yet has no rooms.
pub record IsTidy (h : Hub) : Type 0 where
  pub consistent : IsConsistent h
  pub no_rooms : (c : ℕ) (n : String) → h.next_client ≤ c → lookup n (h.client_at c).rooms ≡ none
  pub connected : (c : ℕ) → member c h.clients ≡ true → (h.client_at c).is_open ≡ true
  pub made : (c : ℕ) → member c h.clients ≡ true → c < h.next_client
  pub not_closed : h.closed ≡ false

new_hub-IsTidy : IsTidy new_hub
unfolding new_hub lookup
new_hub-IsTidy = record {
  consistent = new_hub-IsConsistent;
  no_rooms = λ c n l. refl;
  connected = λ c e. ground (arith, member-nil c);
  made = λ c e. ground (arith, member-nil c);
  not_closed = refl;
}

module _ (h : Hub) (t : IsTidy h) where
  new_client-IsTidy : (id : String) → IsTidy (new_client id h).0
  unfolding new_client lookup
  new_client-IsTidy id =
      let k = t.consistent in
      rw (t.not_closed, new_client)
        record {
          consistent = record {
            listed = λ d n r x. ground (arith, k.listed d n r);
            joined = λ d n r x. ground (arith, k.joined d n r);
            known = λ d r x. ground (arith, k.known d r, t.no_rooms d (h.room_at r).name);
            named = k.named;
            bounded = k.bounded;
          };
          no_rooms = λ c n l. ground (arith, t.no_rooms c n);
          connected = λ c e. ground (arith, member-insert h.next_client c h.clients, t.connected c);
          made = λ c e. ground (arith, member-insert h.next_client c h.clients, t.made c);
          not_closed = refl;
        }

  -- The connection of a client, marked as closed.
  abbrev hung_up : ℕ → Hub
  hung_up c = record h {
    client_at = write h.client_at c (record (h.client_at c) { is_open = false });
  }

  hung_up-IsConsistent : (c : ℕ) → IsConsistent (hung_up c)
  hung_up-IsConsistent c =
      let k = t.consistent in
      record {
        listed = λ d n r x. ground (arith, k.listed d n r);
        joined = λ d n r x. ground (arith, k.joined d n r);
        known = λ d r x. ground (arith, k.known d r);
        named = k.named;
        bounded = k.bounded;
      }

  close_client-IsTidy : (c : ℕ) → IsTidy (close_client c h)
  unfolding close_client remove_client drop_client lookup
  close_client-IsTidy c = elim (Bool-cases (h.client_at c).is_open) [
    | inr e ↦ rw (e, close_client) t
    | inl e ↦
        let k = drop_client-IsConsistent (hung_up c) (hung_up-IsConsistent c) c in
        elim (Option-cases (lookup c h.clients)) [
          | inl o ↦
              rw (e, o, close_client, remove_client)
                record {
                  consistent = hung_up-IsConsistent c;
                  no_rooms = λ d n l. ground (arith, t.no_rooms d n);
                  connected = λ d x. ground (arith, t.connected d, absent c h.clients o);
                  made = t.made;
                  not_closed = t.not_closed;
                }
          | inr (u, o) ↦
              rw (e, o, close_client, remove_client)
                record {
                  consistent = k;
                  no_rooms = λ d n l. ground (arith, t.no_rooms d n);
                  connected = λ d x. ground (arith, member-erase c d h.clients, t.connected d);
                  made = λ d x. ground (arith, member-erase c d h.clients, t.made d);
                  not_closed = t.not_closed;
                }
        ]
  ]

  -- An operation on rooms leaves the set of clients and their connections alone.
  record IsQuiet (h' : Hub) : Type 0 where
    same_clients : h'.clients ≡ h.clients
    same_next : h'.next_client ≡ h.next_client
    same_closed : h'.closed ≡ h.closed
    same_open : (c : ℕ) → (h'.client_at c).is_open ≡ (h.client_at c).is_open
    same_rooms :
        (c : ℕ) (n : String)
        → h.next_client ≤ c
        → lookup n (h'.client_at c).rooms ≡ lookup n (h.client_at c).rooms

  IsQuiet-IsTidy : (h' : Hub) → IsQuiet h' → IsConsistent h' → IsTidy h'
  IsQuiet-IsTidy h' q k = record {
    consistent = k;
    no_rooms = λ c n l. ground (arith, q.same_next, q.same_rooms c n, t.no_rooms c n);
    connected = λ c x. ground (arith, q.same_clients, q.same_open c, t.connected c);
    made = λ c x. ground (arith, q.same_clients, q.same_next, t.made c);
    not_closed = q.same_closed ∙ t.not_closed;
  }

  get_room-IsQuiet : (name : String) → IsQuiet (get_room name h).0
  unfolding get_room
  get_room-IsQuiet name = record {
    same_clients = ground arith;
    same_next = ground arith;
    same_closed = ground arith;
    same_open = λ c. ground arith;
    same_rooms = λ c n l. ground arith;
  }

  delete_room-IsQuiet : (name : String) → IsQuiet (delete_room name h)
  unfolding delete_room
  delete_room-IsQuiet name = elim (Option-cases (lookup name h.rooms)) [
    | inl e ↦
        rw (e, delete_room)
          record {
            same_clients = refl;
            same_next = refl;
            same_closed = refl;
            same_open = λ c. refl;
            same_rooms = λ c n l. refl;
          }
    | inr (r, e) ↦
        let m = (h.room_at r).clients in
        rw (e, delete_room)
          record {
            same_clients = refl;
            same_next = refl;
            same_closed = refl;
            same_open = λ c. is_open-forget_room name c m h.client_at;
            same_rooms =
                λ c n l. ground (arith, lookup-forget_room name n c m h.client_at, t.no_rooms c n);
          }
  ]

  room_join-IsQuiet : (r c : ℕ) → c < h.next_client → IsQuiet (room_join r c h)
  unfolding room_join
  room_join-IsQuiet r c l = record {
    same_clients = refl;
    same_next = refl;
    same_closed = refl;
    same_open = λ d. ground arith;
    same_rooms = λ d n l'. ground arith;
  }

  room_leave-IsQuiet : (r c : ℕ) → c < h.next_client → IsQuiet (room_leave r c h)
  unfolding room_leave
  room_leave-IsQuiet r c l = record {
    same_clients = refl;
    same_next = refl;
    same_closed = refl;
    same_open = λ d. ground arith;
    same_rooms = λ d n l'. ground arith;
  }

  delete_room-IsTidy : (name : String) → IsTidy (delete_room name h)
  delete_room-IsTidy name =
      IsQuiet-IsTidy _ (delete_room-IsQuiet name) (delete_room-IsConsistent h t.consistent name)

  get_room-IsTidy : (name : String) → IsTidy (get_room name h).0
  get_room-IsTidy name =
      IsQuiet-IsTidy _ (get_room-IsQuiet name) (get_room-IsConsistent h t.consistent name)

  -- A room that the hub has, by the name it has it under.
  named_room :
      (name : String) (r : ℕ)
      → lookup name h.rooms ≡ some r
      → lookup (h.room_at r).name h.rooms ≡ some r
  named_room name r e = rw (t.consistent.named name r e) e

  leave-IsTidy : (c : ℕ) (name : String) → IsTidy (leave c name h)
  unfolding leave
  leave-IsTidy c name = elim (Option-cases (lookup name (h.client_at c).rooms)) [
    | inl e ↦ rw (e, leave) t
    | inr (r, e) ↦
        let l : c < h.next_client = ground (arith, t.no_rooms c name) in
        let k =
          room_leave-IsConsistent h t.consistent r c
            (named_room name r (t.consistent.listed c name r e)) in
        rw (e, leave) (IsQuiet-IsTidy _ (room_leave-IsQuiet r c l) k)
  ]

found : (name : String) (h : Hub) → lookup name (get_room name h).0.rooms ≡ some (get_room name h).1
unfolding get_room
found name h = elim (Option-cases (lookup name h.rooms)) [
  | inl e ↦
      rw (e, get_room)
        (ground (arith, lookup-insert name name h.next_room h.rooms, eq_iff name name))
  | inr (r, e) ↦ rw (e, get_room) e
]

join-IsTidy :
    (h : Hub) → IsTidy h → (c : ℕ) (name : String) → c < h.next_client → IsTidy (join c name h)
unfolding join
join-IsTidy h t c name l =
    let h' = (get_room name h).0 in
    let r = (get_room name h).1 in
    let t' = get_room-IsTidy h t name in
    let l' : c < h'.next_client = rw ((get_room-IsQuiet h t name).same_next) l in
    IsQuiet-IsTidy h' t' _ (room_join-IsQuiet h' t' r c l')
      (room_join-IsConsistent h' t'.consistent r c (named_room h' t' name r (found name h)))

-- A call, of those that keep clients and rooms in agreement: a client connects or its connection
-- closes, it joins or leaves a room by its name, or a room is made or deleted. A client that calls
-- has been made. `Hub.Close`, and Join and Leave of a room that a caller has kept a pointer to, are
-- not among them.
pub data Op : Type 0 where
  connect_op get_room_op delete_room_op : String → Op
  close_op : ℕ → Op
  join_op leave_op : ℕ → String → Op

unfoldable pub step : Op → Hub → Hub
step (connect_op id) h = (new_client id h).0
step (get_room_op name) h = (get_room name h).0
step (delete_room_op name) h = delete_room name h
step (close_op c) h = close_client c h
step (join_op c name) h = if ltb c h.next_client then join c name h else h
step (leave_op c name) h = leave c name h

unfoldable pub run : List Op → Hub → Hub
unfolding step
run [] h = h
run (op ∷ ops) h = run ops (step op h)

step-IsTidy : (op : Op) (h : Hub) → IsTidy h → IsTidy (step op h)
unfolding step
step-IsTidy (connect_op id) h t = new_client-IsTidy h t id
step-IsTidy (get_room_op name) h t = get_room-IsTidy h t name
step-IsTidy (delete_room_op name) h t = delete_room-IsTidy h t name
step-IsTidy (close_op c) h t = close_client-IsTidy h t c
step-IsTidy (join_op c name) h t = elim (Bool-cases (ltb c h.next_client)) [
  | inl e ↦ rw e (join-IsTidy h t c name (ground arith))
  | inr e ↦ rw e t
]
step-IsTidy (leave_op c name) h t = leave-IsTidy h t c name

run_from : (ops : List Op) (h : Hub) → IsTidy h → IsTidy (run ops h)
unfolding run
run_from [] h t = t
run_from (op ∷ ops) h t = run_from ops (step op h) (step-IsTidy op h t)

pub run-IsTidy : (ops : List Op) → IsTidy (run ops new_hub)
run-IsTidy ops = run_from ops new_hub new_hub-IsTidy

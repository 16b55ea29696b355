-- ===== src/Websocket/Hub.antt =====
-- pantry/websocket/hub.go. A `*Client` or `*Room` is an address, and the hub holds the objects that
-- these point to. A connection is open or closed (`Conn.Close` of websocket.go), and each client
-- has one of its own. The methods run one after another.
pub mod Loops
pub mod Membership
pub mod Runs
pub mod Closing
pub mod Sending
mod Examples
use waffle.Base.{
  ℕ, suc, ◌+◌, Bool, true, false, Option, none, some, List, [], ◌∷◌, map, String, if◌then◌else◌,
  ◌==◌, Map, length, lookup, insert, erase, comparable_string, comparable_ℕ,
}

-- `map[*Client]struct{}`
abbrev pub ClientSet : Type 0
ClientSet = Map ℕ (Unit {0})

pub record Room : Type 0 where
  pub name : String
  pub clients : ClientSet

-- `rooms` holds addresses of rooms; `is_open` is the state of the connection.
pub record Client : Type 0 where
  pub id : String
  pub rooms : Map String ℕ
  pub is_open : Bool

pub record Hub : Type 0 where
  pub clients : ClientSet
  pub rooms : Map String ℕ
  pub closed : Bool
  pub client_at : ℕ → Client
  pub room_at : ℕ → Room
  pub next_client : ℕ
  pub next_room : ℕ

abbrev pub is_some : {A : Type 0} → Option A → Bool
is_some none = false
is_some (some a) = true

-- `_, exists := clients[c]`
unfoldable pub member : ℕ → ClientSet → Bool
member c m = is_some (lookup c m)

-- A write through a pointer.
abbrev pub write : {A : Type 0} → (ℕ → A) → ℕ → A → ℕ → A
write f p v q = if p == q then v else f q

unfoldable pub new_hub : Hub
new_hub = record {
  clients = [];
  rooms = [];
  closed = false;
  client_at = λ c. record { id = ""; rooms = []; is_open = false };
  room_at = λ r. record { name = ""; clients = [] };
  next_client = 0;
  next_room = 0;
}

-- `none` is nil. The callback `OnConnect` only observes.
unfoldable pub new_client : String → Hub → Hub × Option ℕ
new_client id h = if h.closed then (h, none) else (
  record h {
    clients = insert h.next_client tt h.clients;
    client_at = write h.client_at h.next_client (record { id = id; rooms = []; is_open = true });
    next_client = suc h.next_client;
  },
  some h.next_client,
)

-- The loop over `client.rooms`: the client leaves each room in it.
unfoldable pub leave_rooms : ℕ → Map String ℕ → (ℕ → Room) → ℕ → Room
leave_rooms c [] at r = at r
leave_rooms c ((name, p) ∷ more) at r =
    let room = leave_rooms c more at r in
    if p == r then record room { clients = erase c room.clients } else room

-- The removal of a client that the hub has.
unfoldable pub drop_client : ℕ → Hub → Hub
unfolding leave_rooms
drop_client c h = record h {
  clients = erase c h.clients;
  room_at = leave_rooms c (h.client_at c).rooms h.room_at;
  client_at = write h.client_at c (record (h.client_at c) { rooms = [] });
}

unfoldable pub remove_client : ℕ → Hub → Hub
unfolding drop_client
remove_client c h = elim (lookup c h.clients) [ none ↦ h | some _ ↦ drop_client c h ]

-- `Client.Close`: the connection calls `OnClose`, which is `removeClient`, when it closes.
unfoldable pub close_client : ℕ → Hub → Hub
unfolding remove_client
close_client c h =
    if (h.client_at c).is_open
    then remove_client c
        (record h { client_at = write h.client_at c (record (h.client_at c) { is_open = false }) })
    else h

-- Some connection of the set is open.
unfoldable pub any_open : (ℕ → Client) → ClientSet → Bool
any_open at [] = false
any_open at ((c, u) ∷ more) = let rest = any_open at more in if (at c).is_open then true else rest

pub data Outcome : Type 0 where
  returns blocks : Outcome

-- `Close` holds `h.mu` while it closes the connections, and an open connection calls `OnClose`,
-- which waits for `h.mu`: the call then waits for ever, and so does every later one.
unfoldable pub close : Hub → Hub × Outcome
unfolding any_open
close h =
    if h.closed
    then (h, returns)
    else (if any_open h.client_at h.clients
        then (record h { closed = true }, blocks)
        else (record h { closed = true; clients = []; rooms = [] }, returns))

unfoldable pub count_clients : Hub → ℕ
count_clients h = length h.clients

unfoldable pub get_room : String → Hub → Hub × ℕ
get_room name h = elim (lookup name h.rooms) [
  | some r ↦ (h, r)
  | none ↦ (
    record h {
      rooms = insert name h.next_room h.rooms;
      room_at = write h.room_at h.next_room (record { name = name; clients = [] });
      next_room = suc h.next_room;
    },
    h.next_room,
  )
]

-- The loop over `room.clients`: each client forgets the room's name.
unfoldable pub forget_room : String → ClientSet → (ℕ → Client) → ℕ → Client
forget_room name [] at c = at c
forget_room name ((p, u) ∷ more) at c =
    let client = forget_room name more at c in
    if p == c then record client { rooms = erase name client.rooms } else client

unfoldable pub delete_room : String → Hub → Hub
unfolding forget_room
delete_room name h = elim (lookup name h.rooms) [
  | none ↦ h
  | some r ↦ record h {
    rooms = erase name h.rooms;
    client_at = forget_room name (h.room_at r).clients h.client_at;
    room_at = write h.room_at r (record (h.room_at r) { clients = [] });
  }
]

-- `Room.Join` and `Room.Leave`, through any pointer to a room.
unfoldable pub room_join : ℕ → ℕ → Hub → Hub
room_join r c h =
    let room = h.room_at r in
    let client = h.client_at c in
    record h {
      room_at = write h.room_at r (record room { clients = insert c tt room.clients });
      client_at = write h.client_at c (record client { rooms = insert room.name r client.rooms });
    }

unfoldable pub room_leave : ℕ → ℕ → Hub → Hub
room_leave r c h =
    let room = h.room_at r in
    let client = h.client_at c in
    record h {
      room_at = write h.room_at r (record room { clients = erase c room.clients });
      client_at = write h.client_at c (record client { rooms = erase room.name client.rooms });
    }

-- `Client.Join` and `Client.Leave`, by the name of a room.
unfoldable pub join : ℕ → String → Hub → Hub
unfolding get_room room_join
join c name h = let (h', r) = get_room name h in room_join r c h'

unfoldable pub leave : ℕ → String → Hub → Hub
unfolding room_leave
leave c name h = elim (lookup name (h.client_at c).rooms) [ none ↦ h | some r ↦ room_leave r c h ]

unfoldable pub has : ℕ → ℕ → Hub → Bool
unfolding member
has r c h = member c (h.room_at r).clients

unfoldable pub size : ℕ → Hub → ℕ
size r h = length (h.room_at r).clients

unfoldable pub in_room : ℕ → String → Hub → Bool
in_room c name h = is_some (lookup name (h.client_at c).rooms)

-- The loop of `Broadcast`: every client is sent to, and the last error is kept. `send` is what
-- `Client.Send` returns for a client.
unfoldable pub broadcast {ℓ} : {E : Type ℓ} → (ℕ → Option E) → List ℕ → Option E → Option E
broadcast send [] last_err = last_err
broadcast send (c ∷ cs) last_err = elim (send c) [
  | none ↦ broadcast send cs last_err
  | some e ↦ broadcast send cs (some e)
]

unfoldable pub broadcast_all {ℓ} : {E : Type ℓ} → (ℕ → Option E) → ClientSet → Option E
unfolding broadcast
broadcast_all send clients = broadcast send (map (λ e. e.0) clients) none

unfoldable pub others : ℕ → ClientSet → List ℕ
others except [] = []
others except ((c, u) ∷ more) =
    let rest = others except more in if c == except then rest else c ∷ rest

unfoldable pub broadcast_except {ℓ} : {E : Type ℓ} → (ℕ → Option E) → ℕ → ClientSet → Option E
unfolding broadcast others
broadcast_except send except clients = broadcast send (others except clients) none

-- ===== src/Websocket/Hub/Loops.antt =====
-- The loops over the rooms of a client and over the clients of a room.
use waffle.Base.{
  ℕ, ◌≡◌, refl, Bool, true, false, ◌&&◌, ◌||◌, none, some, [], ◌∷◌, String, if◌then◌else◌, ◌==◌,
  Map, lookup, insert, erase, lookup-insert, lookup-erase, comparable_string, comparable_ℕ, arith,
}
use waffle.Websocket.Hub.{ClientSet, Room, Client, member, leave_rooms, forget_room}

pub member-nil : (c : ℕ) → member c [] ≡ false
unfolding member lookup
member-nil c = refl

pub member-insert :
    (c j : ℕ) (m : ClientSet) → member j (insert c tt m) ≡ (if c == j then true else member j m)
unfolding member
member-insert c j m = ground (arith, lookup-insert c j tt m)

pub member-erase :
    (c j : ℕ) (m : ClientSet) → member j (erase c m) ≡ (if c == j then false else member j m)
unfolding member
member-erase c j m = ground (arith, lookup-erase c j m)

-- The address stands in the map, under whatever name.
pub is_value : ℕ → Map String ℕ → Bool
is_value r [] = false
is_value r ((name, p) ∷ more) = p == r || is_value r more

pub is_value-lookup :
    (name : String) (r : ℕ) (m : Map String ℕ) → lookup name m ≡ some r → is_value r m ≡ true
unfolding is_value lookup
is_value-lookup name r [] h = cc
is_value-lookup name r ((n, p) ∷ more) h = ground (arith, is_value-lookup name r more)

pub member-leave_rooms :
    (c j r : ℕ) (m : Map String ℕ) (at : ℕ → Room)
    → member j (leave_rooms c m at r).clients
      ≡ (if is_value r m && c == j then false else member j (at r).clients)
unfolding leave_rooms is_value
member-leave_rooms c j r [] at = refl
member-leave_rooms c j r ((n, p) ∷ more) at =
    ground
      (arith, member-leave_rooms c j r more at, member-erase c j (leave_rooms c more at r).clients)

pub name-leave_rooms :
    (c r : ℕ) (m : Map String ℕ) (at : ℕ → Room) → (leave_rooms c m at r).name ≡ (at r).name
unfolding leave_rooms
name-leave_rooms c r [] at = refl
name-leave_rooms c r ((n, p) ∷ more) at = ground (arith, name-leave_rooms c r more at)

pub lookup-forget_room :
    (name n : String) (c : ℕ) (m : ClientSet) (at : ℕ → Client)
    → lookup n (forget_room name m at c).rooms
      ≡ (if member c m && name == n then none else lookup n (at c).rooms)
unfolding forget_room member lookup
lookup-forget_room name n c [] at = refl
lookup-forget_room name n c ((p, u) ∷ more) at = ground (
  arith,
  lookup-forget_room name n c more at,
  lookup-erase name n (forget_room name more at c).rooms,
)

pub is_open-forget_room :
    (name : String) (c : ℕ) (m : ClientSet) (at : ℕ → Client)
    → (forget_room name m at c).is_open ≡ (at c).is_open
unfolding forget_room
is_open-forget_room name c [] at = refl
is_open-forget_room name c ((p, u) ∷ more) at = ground (arith, is_open-forget_room name c more at)

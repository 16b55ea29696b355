-- ===== src/Websocket/Hub/Membership.antt =====
-- A client's map of its rooms against the rooms' sets of clients.
use waffle.Base.{
  ℕ, ◌<◌, ◌≡◌, true, some, String, lookup, lookup-insert, lookup-erase, comparable_string,
  comparable_ℕ, arith, Option-cases, inl, inr,
}
use text.Mathlib.TextEquality.{eq_iff}
use waffle.Websocket.Hub.{
  Hub, member, new_hub, drop_client, get_room, delete_room, room_join, room_leave,
}
use waffle.Websocket.Hub.Loops.{
  member-nil, member-insert, member-erase, is_value-lookup, member-leave_rooms, name-leave_rooms,
  lookup-forget_room,
}

-- A room that a client lists is the hub's room of that name and has the client; a room lists no
-- other clients.
pub record IsConsistent (h : Hub) : Type 0 where
  pub listed :
      (c : ℕ) (n : String) (r : ℕ)
      → lookup n (h.client_at c).rooms ≡ some r
      → lookup n h.rooms ≡ some r
  pub joined :
      (c : ℕ) (n : String) (r : ℕ)
      → lookup n (h.client_at c).rooms ≡ some r
      → member c (h.room_at r).clients ≡ true
  pub known :
      (c r : ℕ)
      → member c (h.room_at r).clients ≡ true
      → lookup (h.room_at r).name (h.client_at c).rooms ≡ some r
  pub named : (n : String) (r : ℕ) → lookup n h.rooms ≡ some r → (h.room_at r).name ≡ n
  pub bounded : (n : String) (r : ℕ) → lookup n h.rooms ≡ some r → r < h.next_room

pub new_hub-IsConsistent : IsConsistent new_hub
unfolding new_hub lookup member
new_hub-IsConsistent = record {
  listed = λ c n r e. cc;
  joined = λ c n r e. cc;
  known = λ c r e. cc;
  named = λ n r e. cc;
  bounded = λ n r e. cc;
}

module _ (h : Hub) (k : IsConsistent h) where
  pub drop_client-IsConsistent : (c : ℕ) → IsConsistent (drop_client c h)
  unfolding drop_client lookup
  drop_client-IsConsistent c =
      let m = (h.client_at c).rooms in
      record {
        listed = λ d n r x. ground (arith, k.listed d n r);
        joined = λ d n r x. ground (arith, k.joined d n r, member-leave_rooms c d r m h.room_at);
        known = λ d r x. ground (
          arith,
          k.known d r,
          member-leave_rooms c d r m h.room_at,
          name-leave_rooms c r m h.room_at,
          is_value-lookup (h.room_at r).name r m,
        );
        named = λ n r x. ground (arith, k.named n r, name-leave_rooms c r m h.room_at);
        bounded = k.bounded;
      }

  pub delete_room-IsConsistent : (name : String) → IsConsistent (delete_room name h)
  unfolding delete_room
  delete_room-IsConsistent name = elim (Option-cases (lookup name h.rooms)) [
    | inl e ↦ rw (e, delete_room) k
    | inr (r, e) ↦
        let m = (h.room_at r).clients in
        rw (e, delete_room)
          record {
            listed = λ d n s x. ground (
              arith,
              lookup-forget_room name n d m h.client_at,
              lookup-erase name n h.rooms,
              eq_iff name n,
              k.listed d n s,
              k.joined d n s,
            );
            joined = λ d n s x. ground (
              arith,
              lookup-forget_room name n d m h.client_at,
              eq_iff name n,
              k.listed d n s,
              k.joined d n s,
              k.named n s,
              k.named name r,
            );
            known = λ d s x. ground (
              arith,
              lookup-forget_room name (h.room_at s).name d m h.client_at,
              member-nil d,
              eq_iff name (h.room_at s).name,
              k.known d s,
              k.listed d (h.room_at s).name s,
            );
            named = λ n s x. ground (arith, lookup-erase name n h.rooms, k.named n s);
            bounded = λ n s x. ground (arith, lookup-erase name n h.rooms, k.bounded n s);
          }
  ]

  pub get_room-IsConsistent : (name : String) → IsConsistent (get_room name h).0
  unfolding get_room
  get_room-IsConsistent name = elim (Option-cases (lookup name h.rooms)) [
    | inr (r, e) ↦ rw (e, get_room) k
    | inl e ↦
        rw (e, get_room)
          record {
            listed = λ d n s x.
                ground
                  (arith, lookup-insert name n h.next_room h.rooms, eq_iff name n, k.listed d n s);
            joined = λ d n s x. ground (arith, k.joined d n s, k.listed d n s, k.bounded n s);
            known = λ d s x. ground (arith, member-nil d, k.known d s);
            named = λ n s x. ground (
              arith,
              lookup-insert name n h.next_room h.rooms,
              eq_iff name n,
              k.named n s,
              k.bounded n s,
            );
            bounded =
                λ n s x. ground (arith, lookup-insert name n h.next_room h.rooms, k.bounded n s);
          }
  ]

  pub room_join-IsConsistent :
      (r c : ℕ) → lookup (h.room_at r).name h.rooms ≡ some r → IsConsistent (room_join r c h)
  unfolding room_join
  room_join-IsConsistent r c e =
      let name = (h.room_at r).name in
      let m = (h.client_at c).rooms in
      let cs = (h.room_at r).clients in
      record {
        listed = λ d n s x. ground (arith, lookup-insert name n r m, eq_iff name n, k.listed d n s);
        joined = λ d n s x.
            ground (arith, lookup-insert name n r m, member-insert c d cs, k.joined d n s);
        known = λ d s x. ground (
          arith,
          lookup-insert name (h.room_at s).name r m,
          member-insert c d cs,
          eq_iff name (h.room_at s).name,
          k.known d s,
          k.listed d (h.room_at s).name s,
        );
        named = λ n s x. ground (arith, k.named n s);
        bounded = k.bounded;
      }

  pub room_leave-IsConsistent :
      (r c : ℕ) → lookup (h.room_at r).name h.rooms ≡ some r → IsConsistent (room_leave r c h)
  unfolding room_leave
  room_leave-IsConsistent r c e =
      let name = (h.room_at r).name in
      let m = (h.client_at c).rooms in
      let cs = (h.room_at r).clients in
      record {
        listed = λ d n s x. ground (arith, lookup-erase name n m, eq_iff name n, k.listed d n s);
        joined = λ d n s x. ground (
          arith,
          lookup-erase name n m,
          member-erase c d cs,
          eq_iff name n,
          k.joined d n s,
          k.listed d n s,
          k.named n s,
        );
        known = λ d s x. ground (
          arith,
          lookup-erase name (h.room_at s).name m,
          member-erase c d cs,
          eq_iff name (h.room_at s).name,
          k.known d s,
          k.listed d (h.room_at s).name s,
        );
        named = λ n s x. ground (arith, k.named n s);
        bounded = k.bounded;
      }

-- ===== src/Websocket/Hub/Closing.antt =====
-- The two views of who is in a room, what the end of a connection leaves behind, and `Close`.
use waffle.Base.{
  ℕ, ◌≡◌, refl, sym, length, Bool, true, false, none, some, Option, List, [], ◌∷◌, String,
  if◌then◌else◌, lookup, comparable_string, comparable_ℕ, arith, Option-cases, inl, inr, eqb,
}
use waffle.Websocket.Hub.{
  ClientSet, Hub, Client, member, new_hub, drop_client, remove_client, close_client, close, returns,
  blocks, any_open, count_clients, has, in_room,
}
use waffle.Websocket.Hub.Loops.{member-erase, is_value-lookup, member-leave_rooms}
use waffle.Websocket.Hub.Runs.{absent, Op, run, run-IsTidy}

-- `Has` at a room that may not be there.
abbrev pub has_at : ℕ → Option ℕ → Hub → Bool
has_at c none h = false
has_at c (some r) h = has r c h

-- After any calls on a new hub of those of `Op` (the hub is not closed, and no room is joined or left
-- through a pointer to it), `InRoom` of a client says for every name what `Has` says of the hub's
-- room of that name, and false where the hub has no such room.
pub in_room-has :
    (ops : List Op) (c : ℕ) (name : String)
    → let h = run ops new_hub in in_room c name h ≡ has_at c (lookup name h.rooms) h
unfolding in_room has
in_room-has ops c name =
    let h = run ops new_hub in
    let k = (run-IsTidy ops).consistent in
    elim (Option-cases (lookup name (h.client_at c).rooms)) [
      | inr (r, e) ↦ rw (e, k.listed c name r e) (sym (k.joined c name r e))
      | inl e ↦ elim (Option-cases (lookup name h.rooms)) [
        | inl e' ↦ rw (e, e')
        | inr (r, e') ↦ rw (e, e') (ground (arith, k.known c r, k.named name r))
      ]
    ]

-- After any calls on a new hub of those of `Op` (the hub is not closed, and no room is joined or left
-- through a pointer to it), a client whose open connection closes is no client of the hub any more,
-- and no room has it, whatever the rooms it joined.
pub has-close_client :
    (ops : List Op) (c r : ℕ)
    → let h = run ops new_hub in
      member c h.clients ≡ true
      → (member c (close_client c h).clients ≡ false) × (has r c (close_client c h) ≡ false)
unfolding close_client has drop_client
has-close_client ops c r m =
    let h = run ops new_hub in
    let t = run-IsTidy ops in
    let k = t.consistent in
    elim (Option-cases (lookup c h.clients)) [
      | inl e ↦ cc (m, absent c h.clients e)
      | inr (u, e) ↦
          rw (t.connected c m, e, close_client, remove_client)
            (
              ground (arith, member-erase c c h.clients),
              ground (
                arith,
                member-leave_rooms c c r (h.client_at c).rooms h.room_at,
                k.known c r,
                is_value-lookup (h.room_at r).name r (h.client_at c).rooms,
              ),
            )
    ]

any_open_lem :
    (at : ℕ → Client) (m : ClientSet)
    → ((c : ℕ) → member c m ≡ true → (at c).is_open ≡ true)
    → any_open at m ≡ (if eqb (length m) 0 then false else true)
unfolding any_open member lookup
any_open_lem at [] h = refl
any_open_lem at ((c, u) ∷ more) h = ground (arith, h c)

-- After any calls on a new hub of those of `Op`, `Close` returns exactly if no client is connected: otherwise it
-- waits for ever for the lock that it holds.
pub close_waits :
    (ops : List Op)
    → let h = run ops new_hub in (close h).1 ≡ (if eqb (count_clients h) 0 then returns else blocks)
unfolding close count_clients
close_waits ops =
    let h = run ops new_hub in
    let t = run-IsTidy ops in
    rw (t.not_closed) (ground (arith, any_open_lem h.client_at h.clients t.connected))

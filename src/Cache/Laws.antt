-- ===== src/Cache/Laws.antt =====
-- What `Get` returns after a write, and what a closed cache does.
use waffle.Base.{
  ◌≡◌, Bool, false, not, ◌&&◌, none, some, String, ℤ, pos, ◌+ℤ◌, ltb_ℤ, List, if◌then◌else◌, Map,
  lookup-insert, lookup-erase, comparable_string, ◌==◌, arith,
}
use waffle.Cache.{
  not_found, closed_error, ok, err, returns, blocks, Bytes, Memory, new_item,
  new_memory_with_config, get, exists, get_multi, set, delete, clear, set_multi, delete_multi,
  close,
}

-- After `Set` at time `t` of a cache that is not closed, `Get` at time `now` finds the new value
-- under the key, unless `ttl` is positive and `t + ttl` is past; under another key it finds what
-- it found before.
pub get-set :
    (t now : ℤ) (k j : String) (v : Bytes) (ttl : ℤ) (m : Memory)
    → m.closed ≡ false
    → get now j (set t k v ttl m).0 ≡ (
        if k == j
        then (if ltb_ℤ (pos 0) ttl
            then (if ltb_ℤ (t +ℤ ttl) now then err not_found else ok v)
            else ok v)
        else get now j m)
unfolding get set
get-set t now k j v ttl m o = ground (arith, lookup-insert k j (new_item t v ttl) m.items)

pub get-delete :
    (now : ℤ) (k j : String) (m : Memory)
    → m.closed ≡ false
    → get now j (delete k m).0 ≡ (if k == j then err not_found else get now j m)
unfolding get delete
get-delete now k j m o = ground (arith, lookup-erase k j m.items)

-- Once `Close` has returned, every read and every write returns ErrClosed and changes nothing,
-- and a further `Close` returns at once.
pub close-final :
    (takes_tick again : Bool) (now : ℤ) (k : String) (v : Bytes) (ttl : ℤ) (ks : List String)
    (vs : Map String Bytes) (m : Memory)
    → let c = (close takes_tick m).0 in
      (get now k c ≡ err closed_error)
      × (exists now k c ≡ err closed_error)
      × (get_multi now ks c ≡ err closed_error)
      × (set now k v ttl c ≡ (c, some closed_error))
      × (delete k c ≡ (c, some closed_error))
      × (clear c ≡ (c, some closed_error))
      × (set_multi now vs ttl c ≡ (c, some closed_error))
      × (delete_multi ks c ≡ (c, some closed_error))
      × (close again c ≡ (c, returns none))
unfolding get exists get_multi set delete clear set_multi delete_multi close
close-final takes_tick again now k v ttl ks vs m = ground arith

-- The first `Close` of a new cache returns exactly if the cleanup interval is positive and the
-- cleanup takes no tick before the stop: else it waits for ever.
pub close_blocks :
    (takes_tick : Bool) (cleanup_interval : ℤ)
    → (close takes_tick (new_memory_with_config cleanup_interval)).1
      ≡ (if ltb_ℤ (pos 0) cleanup_interval && not takes_tick then returns none else blocks)
unfolding close new_memory_with_config
close_blocks takes_tick cleanup_interval = ground arith

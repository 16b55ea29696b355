-- ===== src/Retry/Circuit/Limit.antt =====
-- How many requests `Do` runs at once in the half-open state: `allowRequest` compares the count,
-- and a later section raises it.
use waffle.Base.{ℕ, zero, suc, ◌+◌, ◌≡◌, refl, true, ℤ, pos, ◌<ℤ◌, arith}
use waffle.Retry.Circuit.{half_open, Circuit, allow_request, track}
use waffle.Retry.Circuit.Steps.{System, Step, Reach, Move}

module _ {E : Type 0} where
  -- A half-open circuit that counts no request.
  pub record IsProbing (c : Circuit E) : Type 0 where
    pub is_half_open : c.state ≡ half_open
    pub none_running : c.half_open_requests ≡ pos 0
    pub room : pos 0 <ℤ c.cfg.max_half_open_requests

  allow_request-probing : (now : ℤ) (c : Circuit E) → IsProbing c → allow_request now c ≡ (c, true)
  unfolding allow_request
  allow_request-probing now c p = ground arith

  track_half_open :
      (c : Circuit E) → c.state ≡ half_open → ((track c).0.state ≡ half_open) × ((track c).1 ≡ true)
  unfolding track
  track_half_open c p = ground arith

  admit_many :
      (now : ℤ) (n : ℕ) (s : System E)
      → IsProbing s.circuit
      → (t : System E) × Reach s t
        × (t.circuit ≡ s.circuit)
        × (t.admitted ≡ n + s.admitted)
        × (t.running_half_open ≡ s.running_half_open)
  admit_many now zero s p = (s, Reach.here, refl, omega arith, refl)
  admit_many now (suc n) s p =
      let (t, r, e, a, h) = admit_many now n s p in
      let passes = allow_request-probing now t.circuit (rw e p) in
      (
        record t { circuit = (allow_request now t.circuit).0; admitted = suc t.admitted },
        Reach.next r (Move.request (Step.admit t now (rw passes))),
        rw passes e,
        omega arith,
        h,
      )

  start_many :
      (n : ℕ) {s : System E} (t : System E)
      → Reach s t
      → t.circuit.state ≡ half_open
      → t.admitted ≡ n
      → (u : System E) × Reach s u
        × (u.circuit.state ≡ half_open)
        × (u.running_half_open ≡ n + t.running_half_open)
  start_many zero t r h a = (t, r, h, omega arith)
  start_many (suc n) t r h a =
      let (h', counted) = track_half_open t.circuit h in
      let t' = record t {
        circuit = (track t.circuit).0;
        admitted = n;
        running_half_open = suc t.running_half_open;
      } in
      let (u, r', h'', e) =
        start_many n t' (Reach.next r (Move.request (Step.start_half_open t a counted))) h' refl in
      (u, r', h'', omega arith)

  -- Whatever the limit, a half-open circuit can come to run any number of half-open requests at
  -- once: that many goroutines pass `allowRequest` before the first of them is counted.
  pub running-unbounded :
      (now : ℤ) (n : ℕ) (s : System E)
      → IsProbing s.circuit
      → s.admitted ≡ 0
      → s.running_half_open ≡ 0
      → (t : System E) × Reach s t × (t.circuit.state ≡ half_open) × (t.running_half_open ≡ n)
  running-unbounded now n s p a h =
      let (t, r, e, a', h') = admit_many now n s p in
      let (u, r', half, k) = start_many n t r (rw e p.is_half_open) (omega arith) in
      (u, r', half, omega arith)

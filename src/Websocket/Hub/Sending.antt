-- ===== src/Websocket/Hub/Sending.antt =====
-- Broadcasts: an error of any client that is sent to is reported, and of no other.
use waffle.Base.{
  ℕ, ◌≡◌, ◌≢◌, ◌↔◌, refl, true, Option, none, some, List, [], ◌∷◌, ◌==◌, lookup, comparable_ℕ,
  arith, Option-cases, Bool-cases, All, inl, inr,
}
use waffle.Websocket.Hub.{ClientSet, member, broadcast, others, broadcast_except}

module _ {E : Type 0} (send : ℕ → Option E) where
  -- The clients of a list can all be sent to.
  AllSent : List ℕ → Type 0
  AllSent cs = All (λ c. send c ≡ none) cs

  broadcast-none :
      (cs : List ℕ) (last : Option E)
      → (broadcast send cs last ≡ none) ↔ (AllSent cs × (last ≡ none))
  unfolding broadcast AllSent
  broadcast-none [] last = (λ h. (tt, h), λ h. h.1)
  broadcast-none (c ∷ cs) last = elim (Option-cases (send c)) [
    | inl e ↦
        rw (e, broadcast)
          (ground (arith, (broadcast-none cs last).0, (broadcast-none cs last).1, e))
    | inr (x, e) ↦ rw (e, broadcast) (ground (arith, (broadcast-none cs (some x)).0, e))
  ]

  all-others :
      (x : ℕ) (m : ClientSet)
      → AllSent (others x m)
      → (c : ℕ) → member c m ≡ true
      → c ≢ x
      → send c ≡ none
  unfolding others member lookup AllSent
  all-others x [] a c e n = cc
  all-others x ((p, u) ∷ more) a c e n = elim (Bool-cases (p == x)) [
    | inl s ↦
        let a' : AllSent (others x more) = ground arith in ground (arith, all-others x more a' c)
    | inr s ↦
        let a' : AllSent (others x more) = ground arith in ground (arith, all-others x more a' c)
  ]

  others-all :
      (x : ℕ) (m : ClientSet)
      → ((c : ℕ) → member c m ≡ true → c ≢ x → send c ≡ none)
      → AllSent (others x m)
  unfolding others member lookup AllSent
  others-all x [] h = tt
  others-all x ((p, u) ∷ more) h =
      let rest = others-all x more (λ c e n. h c (ground arith) n) in ground (arith, h p, rest)

  -- `BroadcastExcept` returns nil exactly if every client of the set but the excepted one can be
  -- sent to.
  pub broadcast_except-none :
      (except : ℕ) (clients : ClientSet)
      → (broadcast_except send except clients ≡ none)
        ↔ ((c : ℕ) → member c clients ≡ true → c ≢ except → send c ≡ none)
  unfolding broadcast_except
  broadcast_except-none except clients =
      let b = broadcast-none (others except clients) none in
      (λ h. all-others except clients (b.0 h).0, λ h. b.1 (others-all except clients h, refl))

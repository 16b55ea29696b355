-- ===== src/Auth/Refresh/Rotation.antt =====
-- A refresh token over the memory store: what it gives, and that it works once.
use waffle.Base.{
  ◌≡◌, ◌≢◌, refl, ap, ◌∙◌, All, lookup-delete_if-none, inl, inr, Option, none, some, List, [], ◌∷◌,
  String, ℤ, ◌+ℤ◌, ltb_ℤ, if◌then◌else◌, lookup, insert, erase, lookup-insert, lookup-erase,
  comparable_string, ◌==◌, arith, Option-cases, Bool-cases,
}
use text.Mathlib.TextEquality.{eq_iff}
use waffle.Auth.Refresh.{
  Tokens, RefreshData, TokenService, ok, err, invalid_token, token_expired, data_of, pair_of,
  memory_refresh_store, create_access_token, create_token_pair, refresh_tokens,
  revoke_refresh_token, revoke_all_tokens,
}

module _ {D C : Type 0} (s : TokenService D C) where
  issued :
      (now : ℤ) (token access subject : String) (x : D) (st : Tokens D)
      → create_access_token s now subject x ≡ some access
      → create_token_pair (memory_refresh_store D) s now (some token) subject x st
        ≡ (insert token (data_of s now subject x) st, ok (pair_of s access token))
  unfolding create_token_pair
  issued now token access subject x st a = rw (a, create_token_pair) refl

  -- The token that `CreateTokenPair` gave for a subject and its data gives, up to and at the end of
  -- its lifetime, what `CreateTokenPair` gives for the same subject and data without the old token,
  -- and afterwards ErrTokenExpired; the old token is removed in both cases.
  pub refresh_tokens-create_token_pair :
      (now later : ℤ) (token access subject : String) (user_data : D) (random : Option String)
      (st : Tokens D)
      → create_access_token s now subject user_data ≡ some access
      → let created =
          create_token_pair (memory_refresh_store D) s now (some token) subject user_data st in
        let rest = erase token created.0 in
        (created.1 ≡ ok (pair_of s access token))
        × (refresh_tokens (memory_refresh_store D) s later random token created.0 ≡ (
            if ltb_ℤ (now +ℤ s.refresh_ttl) later
            then (rest, err token_expired)
            else create_token_pair (memory_refresh_store D) s later random subject user_data rest))
  unfolding create_token_pair refresh_tokens
  refresh_tokens-create_token_pair now later token access subject user_data random st a =
      let d = data_of s now subject user_data in
      let found : lookup token (insert token d st) ≡ some d =
        ground (arith, lookup-insert token token d st, eq_iff token token) in
      rw (issued now token access subject user_data st a) (refl, rw (found, refresh_tokens) refl)

  -- Another operation of a token service, at some time, with what `generateRefreshToken` gave it.
  pub data Op : Type 0 where
    create_op : ℤ → Option String → String → D → Op
    refresh_op : ℤ → Option String → String → Op
    revoke_op revoke_all_op : String → Op

  unfoldable pub step : Op → Tokens D → Tokens D
  step (create_op now r subject x) st =
      (create_token_pair (memory_refresh_store D) s now r subject x st).0
  step (refresh_op now r token) st = (refresh_tokens (memory_refresh_store D) s now r token st).0
  step (revoke_op token) st = (revoke_refresh_token (memory_refresh_store D) s token st).0
  step (revoke_all_op subject) st = (revoke_all_tokens (memory_refresh_store D) s subject st).0

  unfoldable pub run : List Op → Tokens D → Tokens D
  unfolding step
  run [] st = st
  run (op ∷ ops) st = run ops (step op st)

  -- The operation does not draw the token.
  abbrev pub IsOther : String → Op → Type 0
  IsOther t (create_op now r subject x) = r ≢ some t
  IsOther t (refresh_op now r token) = r ≢ some t
  IsOther t (revoke_op token) = Unit
  IsOther t (revoke_all_op subject) = Unit

  -- The memory store does not know the token.
  abbrev pub IsGone : String → Tokens D → Type 0
  IsGone t st = lookup t st ≡ none

  create_token_pair-IsGone :
      (t : String) (now : ℤ) (r : Option String) (subject : String) (x : D) (st : Tokens D)
      → r ≢ some t
      → IsGone t st
      → IsGone t (create_token_pair (memory_refresh_store D) s now r subject x st).0
  unfolding create_token_pair
  create_token_pair-IsGone t now r subject x st o g =
      elim (Option-cases (create_access_token s now subject x)) [
        | inl a ↦ rw (a, create_token_pair) g
        | inr (access, a) ↦ elim (Option-cases r) [
          | inl e ↦ rw (a, e, create_token_pair) g
          | inr (token, e) ↦
              let d = data_of s now subject x in
              let other : token ≢ t = λ q. o (e ∙ ap some q) in
              let kept : lookup t (insert token d st) ≡ none =
                ground (arith, lookup-insert token t d st, eq_iff token t) in
              rw (a, e, create_token_pair) kept
        ]
      ]

  refresh_tokens-IsGone :
      (t : String) (now : ℤ) (r : Option String) (token : String) (st : Tokens D)
      → r ≢ some t
      → IsGone t st
      → IsGone t (refresh_tokens (memory_refresh_store D) s now r token st).0
  unfolding refresh_tokens
  refresh_tokens-IsGone t now r token st o g =
      let g' : lookup t (erase token st) ≡ none = ground (arith, lookup-erase token t st) in
      elim (Option-cases (lookup token st)) [
        | inl e ↦ rw (e, refresh_tokens) g
        | inr (d, e) ↦ elim (Bool-cases (ltb_ℤ d.expires_at now)) [
          | inl late ↦ rw (e, late, refresh_tokens) g'
          | inr in_time ↦
              rw (e, in_time, refresh_tokens)
                (create_token_pair-IsGone t now r d.subject d.user_data (erase token st) o g')
        ]
      ]

  refresh_tokens-removes :
      (now : ℤ) (r : Option String) (t : String) (st : Tokens D)
      → r ≢ some t
      → IsGone t (refresh_tokens (memory_refresh_store D) s now r t st).0
  unfolding refresh_tokens
  refresh_tokens-removes now r t st o =
      let g : lookup t (erase t st) ≡ none = ground (arith, lookup-erase t t st, eq_iff t t) in
      elim (Option-cases (lookup t st)) [
        | inl e ↦ rw (e, refresh_tokens) e
        | inr (d, e) ↦ elim (Bool-cases (ltb_ℤ d.expires_at now)) [
          | inl late ↦ rw (e, late, refresh_tokens) g
          | inr in_time ↦
              rw (e, in_time, refresh_tokens)
                (create_token_pair-IsGone t now r d.subject d.user_data (erase t st) o g)
        ]
      ]

  run-IsGone :
      (t : String) (ops : List Op) (st : Tokens D)
      → All (IsOther t) ops
      → IsGone t st
      → IsGone t (run ops st)
  unfolding run revoke_refresh_token revoke_all_tokens
  run-IsGone t [] st h g = g
  run-IsGone t (create_op now r subject x ∷ ops) st (h, hs) g =
      run-IsGone t ops _ hs (create_token_pair-IsGone t now r subject x st h g)
  run-IsGone t (refresh_op now r token ∷ ops) st (h, hs) g =
      run-IsGone t ops _ hs (refresh_tokens-IsGone t now r token st h g)
  run-IsGone t (revoke_op token ∷ ops) st (h, hs) g =
      run-IsGone t ops _ hs (ground (arith, lookup-erase token t st))
  run-IsGone t (revoke_all_op subject ∷ ops) st (h, hs) g =
      run-IsGone t ops _ hs
        (lookup-delete_if-none (λ (d : RefreshData D). d.subject == subject) t st g)

  -- A refresh token works once: after `RefreshTokens` with it, whatever that returned, and after
  -- any further operations, `RefreshTokens` refuses it and changes nothing, as long as the random
  -- tokens drawn since are other ones.
  pub refresh_tokens-once :
      (now later : ℤ) (r r' : Option String) (t : String) (ops : List Op) (st : Tokens D)
      → r ≢ some t
      → All (IsOther t) ops
      → let after = run ops (refresh_tokens (memory_refresh_store D) s now r t st).0 in
        refresh_tokens (memory_refresh_store D) s later r' t after ≡ (after, err invalid_token)
  unfolding refresh_tokens
  refresh_tokens-once now later r r' t ops st o h =
      let after = run ops (refresh_tokens (memory_refresh_store D) s now r t st).0 in
      let g : lookup t after ≡ none = run-IsGone t ops _ h (refresh_tokens-removes now r t st o) in
      rw (g, refresh_tokens) refl

-- ===== src/Auth/Refresh/Revocation.antt =====
-- RevokeAllTokens over the memory store.
use waffle.Base.{
  ◌≡◌, refl, ap, ◌∙◌, unless, Option, none, some, List, [], ◌∷◌, String, ℤ, ltb_ℤ, if◌then◌else◌,
  lookup, erase, delete_if, lookup-delete_if, comparable_string, ◌==◌, Option-cases, Bool-cases,
  IsMap, insert-IsMap, erase-IsMap, delete_if-IsMap, inl, inr,
}
use waffle.Auth.Refresh.{
  Tokens, RefreshData, TokenService, err, invalid_token, data_of, memory_refresh_store,
  create_access_token, create_token_pair, refresh_tokens, revoke_refresh_token, revoke_all_tokens,
}
use waffle.Auth.Refresh.Rotation.{Op, create_op, refresh_op, revoke_op, revoke_all_op, run}

module _ {D C : Type 0} (s : TokenService D C) where
  create_token_pair-IsMap :
      (now : ℤ) (r : Option String) (subject : String) (x : D) (st : Tokens D)
      → IsMap st
      → IsMap (create_token_pair (memory_refresh_store D) s now r subject x st).0
  unfolding create_token_pair
  create_token_pair-IsMap now r subject x st g =
      elim (Option-cases (create_access_token s now subject x)) [
        | inl a ↦ rw (a, create_token_pair) g
        | inr (access, a) ↦ elim (Option-cases r) [
          | inl e ↦ rw (a, e, create_token_pair) g
          | inr (token, e) ↦
              rw (a, e, create_token_pair) (insert-IsMap token (data_of s now subject x) st g)
        ]
      ]

  refresh_tokens-IsMap :
      (now : ℤ) (r : Option String) (token : String) (st : Tokens D)
      → IsMap st
      → IsMap (refresh_tokens (memory_refresh_store D) s now r token st).0
  unfolding refresh_tokens
  refresh_tokens-IsMap now r token st g =
      let g' = erase-IsMap token st g in
      elim (Option-cases (lookup token st)) [
        | inl e ↦ rw (e, refresh_tokens) g
        | inr (d, e) ↦ elim (Bool-cases (ltb_ℤ d.expires_at now)) [
          | inl late ↦ rw (e, late, refresh_tokens) g'
          | inr in_time ↦
              rw (e, in_time, refresh_tokens)
                (create_token_pair-IsMap now r d.subject d.user_data (erase token st) g')
        ]
      ]

  run-IsMap : (ops : List (Op s)) (st : Tokens D) → IsMap st → IsMap (run s ops st)
  unfolding run revoke_refresh_token revoke_all_tokens
  run-IsMap [] st g = g
  run-IsMap (create_op now r subject x ∷ ops) st g =
      run-IsMap ops _ (create_token_pair-IsMap now r subject x st g)
  run-IsMap (refresh_op now r token ∷ ops) st g =
      run-IsMap ops _ (refresh_tokens-IsMap now r token st g)
  run-IsMap (revoke_op token ∷ ops) st g = run-IsMap ops _ (erase-IsMap token st g)
  run-IsMap (revoke_all_op subject ∷ ops) st g =
      run-IsMap ops _ (delete_if-IsMap (λ (d : RefreshData D). d.subject == subject) st g)

  -- After any operations on a new store, `RevokeAllTokens` makes `RefreshTokens` refuse every token
  -- of the subject, and leaves the data of the tokens of other subjects as they are.
  pub refresh_tokens-revoke_all_tokens :
      (ops : List (Op s)) (subject t : String) (d : RefreshData D) (now : ℤ) (r : Option String)
      → lookup t (run s ops []) ≡ some d
      → let after = (revoke_all_tokens (memory_refresh_store D) s subject (run s ops [])).0 in
        if d.subject == subject
        then refresh_tokens (memory_refresh_store D) s now r t after ≡ (after, err invalid_token)
        else lookup t after ≡ some d
  unfolding revoke_all_tokens refresh_tokens
  refresh_tokens-revoke_all_tokens ops subject t d now r h =
      let of_subject = λ (x : RefreshData D). x.subject == subject in
      let k =
        lookup-delete_if of_subject t (run s ops []) (run-IsMap ops [] tt)
        ∙ ap (unless of_subject) h in
      elim (Bool-cases (d.subject == subject)) [
        | inl e ↦
            let dropped : unless of_subject (some d) ≡ none = rw e refl in
            let gone : lookup t (delete_if of_subject (run s ops [])) ≡ none = k ∙ dropped in
            rw e (rw (gone, refresh_tokens) refl)
        | inr e ↦
            let same : unless of_subject (some d) ≡ some d = rw e refl in
            let kept : lookup t (delete_if of_subject (run s ops [])) ≡ some d = k ∙ same in
            rw e kept
      ]

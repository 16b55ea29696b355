-- ===== src/Auth/Refresh/Examples.antt =====
-- A service whose signer accepts everything.
use waffle.Base.{
  ◌≡◌, ◌≢◌, refl, none, some, [], ◌∷◌, String, pos, ◌+ℤ◌, ltb_ℤ, if◌then◌else◌, lookup, insert,
  erase, delete_if, comparable_string, ◌==◌, Option, false, arith,
}
use text.Mathlib.TextEquality.{eq_iff}
use waffle.Auth.Refresh.{
  Tokens, TokenService, ok, err, invalid_token, token_expired, pair_of, memory_refresh_store,
  create_access_token, create_token_pair, refresh_tokens, revoke_all_tokens, data_of,
  revoke_refresh_token,
}
use waffle.Auth.Refresh.Rotation.{
  create_op, run, step, refresh_tokens-create_token_pair, refresh_tokens-once,
}
use waffle.Auth.Refresh.Revocation.{refresh_tokens-revoke_all_tokens}

abbrev service : TokenService (Unit {0}) String
service = record {
  signer = λ c. some "signed";
  access_ttl = pos 60;
  refresh_ttl = pos 600;
  issuer = "waffle";
  audience = [];
  claims_func = none;
}

abbrev store : Tokens (Unit {0})
store = ("t1", data_of service (pos 5) "ann" tt) ∷ []

program : Unit {0}
unfolding create_access_token create_token_pair refresh_tokens revoke_all_tokens
    revoke_refresh_token run step lookup insert erase delete_if ◌+ℤ◌
program = tt

signs : create_access_token service (pos 5) "ann" tt ≡ some "signed"
unfolding program
signs = refl

t1_stands :
    lookup "t1" (run service (create_op (pos 5) (some "t1") "ann" tt ∷ []) [])
    ≡ some (data_of service (pos 5) "ann" tt)
unfolding program
t1_stands = refl

other_text : ◌==◌ {K = String} "t2" "t1" ≡ false
other_text = refl

other : ◌≢◌ {A = Option String} (some "t2") (some "t1")
other = ground (arith, eq_iff "t2" "t1", other_text)

refresh_tokens-create_token_pair_example :
    let memory = memory_refresh_store (Unit {0}) in
    let created = create_token_pair memory service (pos 5) (some "t1") "ann" tt [] in
    let rest = erase "t1" created.0 in
    (created.1 ≡ ok (pair_of service "signed" "t1"))
    × (refresh_tokens memory service (pos 605) (some "t2") "t1" created.0 ≡ (
        if ltb_ℤ (pos 5 +ℤ pos 600) (pos 605)
        then (rest, err token_expired)
        else create_token_pair memory service (pos 605) (some "t2") "ann" tt rest))
refresh_tokens-create_token_pair_example =
    refresh_tokens-create_token_pair service (pos 5) (pos 605) "t1" "signed" "ann" tt (some "t2") []
      signs

refresh_tokens-once_example :
    let memory = memory_refresh_store (Unit {0}) in
    let after = run service [] (refresh_tokens memory service (pos 9) (some "t2") "t1" store).0 in
    refresh_tokens memory service (pos 10) none "t1" after ≡ (after, err invalid_token)
refresh_tokens-once_example =
    refresh_tokens-once service (pos 9) (pos 10) (some "t2") none "t1" [] store other tt

refresh_tokens-revoke_all_tokens_example :
    let memory = memory_refresh_store (Unit {0}) in
    let st = run service (create_op (pos 5) (some "t1") "ann" tt ∷ []) [] in
    let after = (revoke_all_tokens memory service "ann" st).0 in
    if ◌==◌ {K = String} "ann" "ann"
    then refresh_tokens memory service (pos 7) none "t1" after ≡ (after, err invalid_token)
    else lookup "t1" after ≡ some (data_of service (pos 5) "ann" tt)
refresh_tokens-revoke_all_tokens_example =
    refresh_tokens-revoke_all_tokens service (create_op (pos 5) (some "t1") "ann" tt ∷ []) "ann"
      "t1" (data_of service (pos 5) "ann" tt) (pos 7) none t1_stands

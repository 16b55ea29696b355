-- ===== src/Auth/Refresh.antt =====
-- pantry/auth/jwt/refresh.go: pairs of an access and a refresh token. The signer and the random
-- bytes are what they return; a method reads the clock once.
pub mod Rotation
pub mod Revocation
mod Examples
use waffle.Base.{
  Bool, true, false, Option, none, some, List, [], String, ℤ, pos, ◌+ℤ◌, ltb_ℤ, eqb_ℤ, quot,
  if◌then◌else◌, Map, lookup, insert, erase, delete_if, comparable_string, ◌==◌,
}

pub record TokenPair : Type 0 where
  pub access_token : String
  pub refresh_token : String
  pub expires_in : ℤ
  pub token_type : String

pub record RefreshData (D : Type 0) : Type 0 where
  pub subject : String
  pub issued_at : ℤ
  pub expires_at : ℤ
  pub user_data : D

-- A Boolean result says whether the error is nil.
pub record RefreshStore (D : Type 0) : Type 1 where
  pub State : Type 0
  pub save : String → RefreshData D → State → State × Bool
  pub load : String → State → Option (RefreshData D)
  pub delete : String → State → State × Bool
  pub delete_by_subject : String → State → State × Bool

-- MemoryRefreshStore.
abbrev pub Tokens : Type 0 → Type 0
Tokens D = Map String (RefreshData D)

abbrev pub memory_refresh_store : (D : Type 0) → RefreshStore D
memory_refresh_store D = record {
  State = Tokens D;
  save = λ token d m. (insert token d m, true);
  load = λ token m. lookup token m;
  delete = λ token m. (erase token m, true);
  delete_by_subject =
      λ subject m. (delete_if (λ (d : RefreshData D). d.subject == subject) m, true);
}

pub record Claims : Type 0 where
  pub issuer : String
  pub subject : String
  pub audience : List String
  pub expires_at : Option ℤ
  pub not_before : Option ℤ
  pub issued_at : Option ℤ
  pub id : String

-- What is signed: claims of `ClaimsFunc`, or the standard ones.
pub data AnyClaims (C : Type 0) : Type 0 where
  custom : C → AnyClaims C
  standard : Claims → AnyClaims C

pub data TokenError : Type 0 where
  invalid_token token_expired sign_failed random_failed save_failed : TokenError

pub data Issued : Type 0 where
  ok : TokenPair → Issued
  err : TokenError → Issued

-- `signer` is `Signer.Sign`, none for an error.
pub record TokenService (D C : Type 0) : Type 0 where
  pub signer : AnyClaims C → Option String
  pub access_ttl : ℤ
  pub refresh_ttl : ℤ
  pub issuer : String
  pub audience : List String
  pub claims_func : Option (String → D → C)

module _ {D C : Type 0} where
  -- The argument is the configuration.
  unfoldable pub new_token_service : TokenService D C → TokenService D C
  new_token_service cfg = record cfg {
    access_ttl = if eqb_ℤ cfg.access_ttl (pos 0) then pos 900_000_000_000 else cfg.access_ttl;
    refresh_ttl =
        if eqb_ℤ cfg.refresh_ttl (pos 0) then pos 604_800_000_000_000 else cfg.refresh_ttl;
  }

  unfoldable pub create_access_token : TokenService D C → ℤ → String → D → Option String
  create_access_token s now subject user_data = s.signer (elim s.claims_func [
    | some f ↦ custom (f subject user_data)
    | none ↦ standard (record {
      issuer = s.issuer;
      subject = subject;
      audience = s.audience;
      expires_at = some (now +ℤ s.access_ttl);
      not_before = none;
      issued_at = some now;
      id = "";
    })
  ])

  abbrev pub pair_of : TokenService D C → String → String → TokenPair
  pair_of s access token = record {
    access_token = access;
    refresh_token = token;
    expires_in = quot s.access_ttl 1_000_000_000;
    token_type = "Bearer";
  }

  abbrev pub data_of : TokenService D C → ℤ → String → D → RefreshData D
  data_of s now subject user_data = record {
    subject = subject;
    issued_at = now;
    expires_at = now +ℤ s.refresh_ttl;
    user_data = user_data;
  }

  module _ (store : RefreshStore D) (s : TokenService D C) where
    -- `random` is what `generateRefreshToken` returns, none for an error.
    unfoldable pub create_token_pair :
        ℤ → Option String → String → D → store.State → store.State × Issued
    unfolding create_access_token
    create_token_pair now random subject user_data st =
        elim (create_access_token s now subject user_data) [
          | none ↦ (st, err sign_failed)
          | some access ↦ elim random [
            | none ↦ (st, err random_failed)
            | some token ↦
                let saved = store.save token (data_of s now subject user_data) st in
                if saved.1
                then (saved.0, ok (pair_of s access token))
                else (saved.0, err save_failed)
          ]
        ]

    unfoldable pub refresh_tokens : ℤ → Option String → String → store.State → store.State × Issued
    unfolding create_token_pair
    refresh_tokens now random token st = elim (store.load token st) [
      | none ↦ (st, err invalid_token)
      | some d ↦
          let deleted = (store.delete token st).0 in
          if ltb_ℤ d.expires_at now
          then (deleted, err token_expired)
          else create_token_pair now random d.subject d.user_data deleted
    ]

    unfoldable pub revoke_refresh_token : String → store.State → store.State × Bool
    revoke_refresh_token token st = store.delete token st

    unfoldable pub revoke_all_tokens : String → store.State → store.State × Bool
    revoke_all_tokens subject st = store.delete_by_subject subject st

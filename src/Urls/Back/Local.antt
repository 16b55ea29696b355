-- ===== src/Urls/Back/Local.antt =====
-- What ResolveBackURL returns.
use mathlib.Core.Option
use waffle.Base.{
  ◌≡◌, ◌∙◌, sym, ap, refl, Bool, true, false, Option, none, some, List, ◌∷◌, ◌++◌, if◌then◌else◌,
  Text, comparable_text, has_prefix, Bool-cases, Option-cases, inl, inr, arith,
}
use waffle.Urls.Spaces.{trim_space}
use waffle.Urls.Paths.{is_empty}
use waffle.Urls.Safe.{Url, is_refused, safe_return_excluding}
use waffle.Urls.Back.{Request, is_local, pick_query, referer_path, local_fallback, resolve_back_url}

-- A condition under which a local text is given.
given_local :
    (b : Bool) (q p : Text)
    → (if b then (if is_local q then some q else none) else none) ≡ some p
    → is_local p ≡ true
given_local false q p h = absurd (Option.none-ne-some p h)
given_local true q p h = elim (Bool-cases (is_local q)) [
  | inl e ↦ ap is_local (sym (Option.some-injective q p (rw e at h))) ∙ e
  | inr e ↦ absurd (Option.none-ne-some p (rw e at h))
]

module _ (parse : Text → Option Url) (r : Request) (fallback : Text) where
  referer_lem : (p : Text) → referer_path parse r ≡ some p → is_local p ≡ true
  unfolding referer_path
  referer_lem p h = elim (Bool-cases (is_empty r.referer)) [
    | inl e ↦ absurd (Option.none-ne-some p (rw (e, referer_path) at h))
    | inr e ↦ elim (Option-cases (parse r.referer)) [
      | inl f ↦ absurd (Option.none-ne-some p (rw (e, f, referer_path) at h))
      | inr (u, f) ↦
          given_local _ (u.path ++ pick_query u.raw_query) p (rw (e, f, referer_path) at h)
    ]
  ]

  fallback_lem : is_local (local_fallback fallback) ≡ true
  unfolding is_local has_prefix
  fallback_lem = elim (Bool-cases (is_local fallback)) [
    | inl e ↦ rw (e, e) refl
    | inr e ↦ rw e refl
  ]

  -- Whatever the request and the fallback are, ResolveBackURL returns a text that starts with "/".
  pub is_local-resolve_back_url : is_local (resolve_back_url parse r fallback) ≡ true
  unfolding resolve_back_url
  is_local-resolve_back_url = elim (Bool-cases (is_local (trim_space r.query_return))) [
    | inl e ↦ rw (e, e) refl
    | inr e ↦ elim (Bool-cases (is_local (trim_space r.form_return))) [
      | inl f ↦ rw (e, f, f) refl
      | inr f ↦ elim (Option-cases (referer_path parse r)) [
        | inl g ↦ rw (e, f, g) fallback_lem
        | inr (p, g) ↦ rw (e, f, g) (referer_lem p g)
      ]
    ]
  ]

refused_lem : (host : Text) → is_refused (b'/' ∷ b'/' ∷ host) ≡ true
unfolding is_refused has_prefix
refused_lem host = ground arith

-- An address that starts with "//", which a browser takes for another host, SafeReturn refuses, but
-- ResolveBackURL returns it where the request asks for it.
pub resolve_back_url-foreign :
    (parse : Text → Option Url) (r : Request) (host bad_id fallback : Text) (excluded : List Text)
    → let address = b'/' ∷ b'/' ∷ host in
      trim_space address ≡ address
      → (safe_return_excluding parse address bad_id fallback excluded ≡ fallback)
        × (resolve_back_url parse (record r { query_return = address }) fallback ≡ address)
unfolding safe_return_excluding resolve_back_url
resolve_back_url-foreign parse r host bad_id fallback excluded h =
    (rw (h, refused_lem host) refl, rw h refl)

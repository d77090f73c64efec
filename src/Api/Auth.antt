-- ===== src/Api/Auth.antt =====
-- api.rs: who may go on, against a description of the API key of its own.
use daikon.Prelude.{
  String, ◌≡◌, refl, ◌⊎◌, inl, inr, Option, none, some, ◌==◌, eq_iff, arith, Bool-cases, str_append,
  Option-cases, sym, ap, ◌∙◌, starts_with,
}
use mathlib.Core.Option.{some-injective}
use text.Mathlib.TextPositions.{starts_with-append, len-append, slice-append_right}
use text.Mathlib.TextEquality.{starts_with_iff}
use daikon.Platform.{Platform}
use daikon.Api.{
  Headers, Request, Response, App, Handler, and_then, strip_prefix, provided, key_matches,
  require_api_key, unauthorized, guarded, or_respond,
}

-- The key that the requests must have, where the server has one.
abbrev pub expected : Request → Option String
expected req = and_then req.runtime (λ cfg. cfg.api_key)

-- A request has a key by its own header, or without that by a bearer token.
pub data Presents (headers : Headers) (key : String) : Type 0 where
  by_header : headers.x_api_key ≡ some key → Presents headers key
  by_token :
      headers.x_api_key ≡ none
      → headers.authorization ≡ some (str_append "Bearer " key)
      → Presents headers key

-- What lets a request on.
pub data Allowed (req : Request) : Type 0 where
  no_key : expected req ≡ none → Allowed req
  has_key : (key : String) → expected req ≡ some key → Presents req.headers key → Allowed req

pub strip_prefix-append :
    (prefix text : String) → strip_prefix prefix (str_append prefix text) ≡ some text
unfolding strip_prefix
strip_prefix-append prefix text =
    rw (starts_with-append prefix text, len-append prefix text, slice-append_right prefix text) refl

strip_prefix_sound :
    (prefix text rest : String)
    → strip_prefix prefix text ≡ some rest
    → text ≡ str_append prefix rest
unfolding strip_prefix
strip_prefix_sound prefix text rest h = elim (Bool-cases (starts_with text prefix)) [
  | inl starts ↦
      let (tail, e) = (starts_with_iff text prefix).0 starts in
      let found : some tail ≡ some rest =
        sym (strip_prefix-append prefix tail) ∙ ap (strip_prefix prefix) e ∙ h in
      sym e ∙ ap (str_append prefix) (some-injective tail rest found)
  | inr other ↦ ground (arith, h, other)
]

from_token :
    (headers : Headers) (key : String) (authorization : Option String)
    → headers.x_api_key ≡ none
    → headers.authorization ≡ authorization
    → and_then authorization (strip_prefix "Bearer ") ≡ some key
    → Presents headers key
from_token headers key none e f h = cc
from_token headers key (some text) e f h =
    by_token e (f ∙ ap some (strip_prefix_sound "Bearer " text key h))

presents : (headers : Headers) (key : String) → provided headers ≡ some key → Presents headers key
presents headers key h = elim (Option-cases headers.x_api_key) [
  | inl absent ↦ from_token headers key headers.authorization absent refl (rw absent at h)
  | inr (other, there) ↦ by_header (there ∙ rw there at h)
]

provides : (headers : Headers) (key : String) → Presents headers key → provided headers ≡ some key
provides headers key (by_header e) = rw e refl
provides headers key (by_token e f) = rw (e, f) (strip_prefix-append "Bearer " key)

-- With a key, who goes on is who presents it.
allowed_provides :
    (req : Request) (key : String)
    → expected req ≡ some key
    → Allowed req
    → provided req.headers ≡ some key
allowed_provides req key e (no_key missing) = cc
allowed_provides req key e (has_key other f presented) =
    provides req.headers other presented ∙ sym f ∙ e

module _ ⦃P : Platform⦄ where
  Decided : Request → Option Response → Type 0
  Decided req answer =
      (Allowed req × (answer ≡ none)) ⊎ ((¬ Allowed req) × (answer ≡ some unauthorized))

  key_matches_lem :
      (req : Request) (key : String) (given : Option String)
      → expected req ≡ some key
      → provided req.headers ≡ given
      → Decided req (key_matches key given)
  unfolding Decided key_matches
  key_matches_lem req key none e f = inr (
    λ allowed.
        let none_there : some key ≡ none = sym (allowed_provides req key e allowed) ∙ f in cc,
    refl,
  )
  key_matches_lem req key (some actual) e f = elim (Bool-cases (actual == key)) [
    | inl same ↦ inl (
      has_key key e (presents req.headers key (f ∙ ap some ((eq_iff actual key).0 same))),
      rw same refl,
    )
    | inr other ↦ inr (
      λ allowed.
          let same : actual ≡ key =
            some-injective actual key (sym f ∙ allowed_provides req key e allowed) in
          ground (arith, eq_iff actual key, same, other),
      rw other refl,
    )
  ]

  require_api_key_lem :
      (req : Request) (key : Option String)
      → expected req ≡ key
      → Decided req (and_then key (λ k. key_matches k (provided req.headers)))
  unfolding Decided
  require_api_key_lem req none e = inl (no_key e, refl)
  require_api_key_lem req (some key) e = key_matches_lem req key _ e refl

  -- A handler behind the check of the key runs exactly for the requests that are allowed: for all of
  -- them where the server has no key, and otherwise for those that present the key, as the header
  -- `x-api-key` or, without one, as a bearer token. Every other request gets 401 and changes nothing.
  pub guarded_iff :
      (req : Request) (handler : Handler) (a : App)
      → (Allowed req × (guarded req handler a ≡ handler a))
        ⊎ ((¬ Allowed req) × (guarded req handler a ≡ (unauthorized, a)))
  unfolding guarded or_respond require_api_key Decided
  guarded_iff req handler a = elim (require_api_key_lem req (expected req) refl) [
    | inl (allowed, e) ↦ inl (allowed, rw e refl)
    | inr (refused, e) ↦ inr (refused, rw e refl)
  ]

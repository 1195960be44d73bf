-- ===== src/Gateway/Auth/Stripped.antt =====
-- auth.go: no credential of the client is left in the headers that go out.
use spendlease.Base.{
  ◌≡◌, Bool, ◌||◌, sym, refl, ap, ◌∙◌, false, [], ◌∷◌, Option, none, some, Bytes, str_eq,
  str_eq_iff, str_eq_refl, arith, entry_of, codes,
}
use spendlease.Money.{trim_space, trim_left, trim_end}
use spendlease.Gateway.{Headers, header}
use spendlease.Gateway.Auth.{
  del, strip_client_credentials, credential_from, authorization, api_key, bearer_token, bare_token,
  cut_prefix, or_else, some_text,
}

entry_of-del : (name : Bytes) (h : Headers) → entry_of name (del name h) ≡ none
unfolding entry_of del
entry_of-del name [] = refl
entry_of-del name ((k, v) ∷ h) = ground (arith, entry_of-del name h)

entry_of-del_other :
    (name other : Bytes) (h : Headers)
    → str_eq other name ≡ false
    → entry_of other (del name h) ≡ entry_of other h
unfolding entry_of del
entry_of-del_other name other [] n = refl
entry_of-del_other name other ((k, v) ∷ h) n = ground (
  arith,
  entry_of-del_other name other h n,
  str_eq_iff k name,
  str_eq_iff k other,
  str_eq_refl other,
)

-- One of the three headers that are taken off.
abbrev pub is_credential : Bytes → Bool
is_credential n = str_eq n authorization || str_eq n api_key || str_eq n (codes "Api-Key")

stripped_away :
    (h : Headers)
    → (entry_of authorization (strip_client_credentials h) ≡ none)
      × (entry_of api_key (strip_client_credentials h) ≡ none)
unfolding strip_client_credentials str_eq
stripped_away h =
    let h1 = del authorization h in
    let h2 = del api_key h1 in
    (
      entry_of-del_other (codes "Api-Key") authorization h2 refl
          ∙ (entry_of-del_other api_key authorization h1 refl ∙ entry_of-del authorization h),
      entry_of-del_other (codes "Api-Key") api_key h2 refl ∙ entry_of-del api_key h1,
    )

-- The credential of the two headers' values.
abbrev credential_of : Bytes → Bytes → Option Bytes
credential_of auth key =
    or_else (or_else (bearer_token auth) (bare_token auth)) (some_text (trim_space key))

abbrev or_empty : Option Bytes → Bytes
or_empty none = []
or_empty (some v) = v

header-or_empty : (n : Bytes) (h : Headers) → header n h ≡ or_empty (entry_of n h)
unfolding header
header-or_empty n h = ground arith

no_credential_from :
    (h : Headers)
    → entry_of authorization h ≡ none
    → entry_of api_key h ≡ none
    → credential_from h ≡ none
unfolding credential_from bearer_token bare_token cut_prefix trim_space trim_left trim_end
no_credential_from h a k =
    let no_auth = header-or_empty authorization h ∙ ap or_empty a in
    let no_key = header-or_empty api_key h ∙ ap or_empty k in
    ap (λ x. credential_of x (header api_key h)) no_auth ∙ ap (credential_of []) no_key

-- After stripClientCredentials no credential can be read from the headers, and every header whose
-- name is none of the three that are taken off is as it was.
pub strip_client_credentials-credential_from :
    (h : Headers) (n : Bytes)
    → is_credential n ≡ false
    → (credential_from (strip_client_credentials h) ≡ none)
      × (header n (strip_client_credentials h) ≡ header n h)
unfolding strip_client_credentials
strip_client_credentials-credential_from h n other = (
  no_credential_from (strip_client_credentials h) (stripped_away h).0 (stripped_away h).1,
  header-or_empty n (strip_client_credentials h)
      ∙ (ap or_empty (
            entry_of-del_other (codes "Api-Key") n (del api_key (del authorization h))
              (ground arith)
            ∙ (entry_of-del_other api_key n (del authorization h) (ground arith)
                ∙ entry_of-del_other authorization n h (ground arith)))
          ∙ sym (header-or_empty n h)),
)

-- ===== src/Witnesses/Providers.antt =====
-- The theorem on routing, at two providers that claim one path.
use spendlease.Base.{◌≡◌, refl, false, [], ◌∷◌, none, some, Bytes, codes, str_eq, starts_with}
use spendlease.Providers.{
  Provider, Registry, token, no_request_info, resolve, explicit_prefix, cut_slash, provider_named,
  matching, claims_path, trim_slash, pick,
}
use spendlease.Providers.Routing.{IsRouted, resolve-IsRouted}

abbrev vendor : Bytes → Provider
vendor name = record {
  name = name;
  paths = codes "/v1" ∷ [];
  billing = λ _ _. record { class = token; no_output = false; reason = [] };
  parse_request = λ _. no_request_info;
  usage_from_response = λ _. none;
  usage_from_stream_event = λ _. none;
  enable_stream_usage = λ _. none;
  is_usage_only_event = λ _. false;
}

abbrev registry : Registry
registry = record {
  order = vendor (codes "openai") ∷ vendor (codes "anthropic") ∷ [];
  fallback = vendor (codes "openai");
}

picks_anthropic :
    resolve registry (codes "/v1/models") (codes "2023-06-01")
    ≡ some (vendor (codes "anthropic"), codes "/v1/models")
unfolding resolve explicit_prefix cut_slash provider_named matching claims_path trim_slash pick
    str_eq starts_with
picks_anthropic = refl

strips_prefix :
    resolve registry (codes "/anthropic/v2/x") [] ≡ some (vendor (codes "anthropic"), codes "/v2/x")
unfolding resolve explicit_prefix cut_slash provider_named matching str_eq
strips_prefix = refl

resolve-IsRouted_example :
    IsRouted registry
      (codes "/v1/models")
      (codes "2023-06-01")
      (resolve registry (codes "/v1/models") (codes "2023-06-01"))
resolve-IsRouted_example = resolve-IsRouted registry (codes "/v1/models") (codes "2023-06-01")

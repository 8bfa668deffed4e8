-- ===== src/Tests/Profiles.antt =====
-- Runs of the theorems on profiles, at a document with a proxy, a group and a provider.
use omihomo.Profile.Rules.{plain_line, match_line}
use omihomo.Profile.RuleSets.{rule_sets_of}
use omihomo.Profile.Groups.{texts_of}
use omihomo.Profile.Names.{unique_from}
use omihomo.Profile.Proxies.{add_named}
use Prim.Native.String.{String}
use omihomo.Base.{
  true, false, [], ◌∷◌, none, some, ◌≡◌, refl, len, sort_texts, split_on, trim_space, decimal,
}
use omihomo.Engine.{text, array, nil, cons, end, option, Profile, good, subscription}
use omihomo.Profile.Reader.{Reader, Document, get, as_text}
use omihomo.Profile.Filter.{invalid}
use omihomo.Profile.Build.{build}
use omihomo.Profile.Build.Result.{Closed, build-Closed}

-- every pattern matches, and a proxy is its name
abbrev reader : Reader
reader = record {
  Re = String;
  compile = λ s. some s;
  matches = λ p n. some true;
  proxy = λ m. good (record { name = as_text (get "name" m); kind = "ss"; options = end });
  links = λ s. invalid "no links";
  check_url = λ u. true;
  yaml_proxies = λ s. option "name" (text "de") end ∷ [];
  yaml_payload = λ s. invalid "no payload";
  atoi = λ s. none;
  itoa = λ n. "";
  whole_float = λ s. none;
  upper = λ s. s;
  lower = λ s. s;
}

-- the provider's proxy is renamed, since its name is taken
abbrev document : Document
document = record {
  proxies = option "name" (text "de") end ∷ [];
  groups =
      option "name" (text "Auto") (
        option "type" (text "select") (
          option "proxies" (array (cons (text "DIRECT") (cons (text "gone") nil)))
            (option "use" (array (cons (text "far") nil)) end)))
      ∷ [];
  sub_rules = [];
  rules = "DOMAIN,a.com,Auto" ∷ "DOMAIN,b.com,gone" ∷ "MATCH,DIRECT" ∷ [];
  proxy_providers =
      ("far", option "type" (text "http") (option "url" (text "https://far") end)) ∷ [];
  rule_providers = [];
  wrapped = false;
}

abbrev profile : Profile
profile = record {
  proxies =
      record { name = "de"; kind = "ss"; options = end }
      ∷ record { name = "de 2"; kind = "ss"; options = end }
      ∷ [];
  groups =
      record { name = "Auto"; kind = "select"; members = "DIRECT" ∷ "de 2" ∷ []; options = end }
      ∷ [];
  sub_rules = [];
  rules =
      record {
        kind = "DOMAIN";
        value = "a.com";
        target = "Auto";
        params = [];
        source = subscription;
      }
      ∷ record { kind = "MATCH"; value = ""; target = "DIRECT"; params = []; source = subscription }
      ∷ [];
  rule_sets = [];
}

document-built : build reader len (("proxy:far", "") ∷ []) document ≡ good profile
unfolding build add_named sort_texts get split_on trim_space unique_from decimal texts_of
    rule_sets_of plain_line match_line
document-built = refl

build-Closed_example : Closed document profile
build-Closed_example =
    build-Closed reader document len (("proxy:far", "") ∷ []) profile document-built

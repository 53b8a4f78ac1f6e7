-- ===== src/Service.antt =====
-- The addresses of the services and the proxy of the development server:
-- frontend/src/utils/service.ts and frontend/build/config/proxy.ts.
use Prim.Native.String
use Prim.Native.Char.{code}
use text.Mathlib.TextLemmas.{cons-append, nil-append}
use smart_copilot.Common.{
  String, ◌≡◌, refl, ap, ◌∙◌, Bool, true, false, ◌&&◌, Option, none, some, List, [], ◌∷◌, ◌++◌, map,
  if◌then◌else◌, truthy, All, eqb_refl, if-true, ◌==◌, any,
}
use smart_copilot.Common.Texts.{starts_with, drop_text}

-- The settings of the build: the address of the service, and those of others as `json5` reads them,
-- or none where it fails.
pub record Env : Type 0 where
  pub service_base_url : String
  pub other_service_base_url : Option (List (String × String))
  pub http_proxy : Bool

pub record ServiceItem : Type 0 where
  pub key : String
  pub base_url : String
  pub proxy_pattern : String

pub record ServiceConfig : Type 0 where
  pub base_url : String
  pub proxy_pattern : String
  pub other : List ServiceItem

unfoldable pub create_proxy_pattern : Option String → String
create_proxy_pattern none = "/proxy-default"
create_proxy_pattern (some key) = if truthy key then String.◌++◌ "/proxy-" key else "/proxy-default"

abbrev items_of : Option (List (String × String)) → List (String × String)
items_of none = []
items_of (some other) = other

abbrev item_of : String × String → ServiceItem
item_of (key, base_url) = record {
  key = key;
  base_url = base_url;
  proxy_pattern = create_proxy_pattern (some key);
}

unfoldable pub create_service_config : Env → ServiceConfig
unfolding create_proxy_pattern
create_service_config env = record {
  base_url = env.service_base_url;
  proxy_pattern = create_proxy_pattern none;
  other = map item_of (items_of env.other_service_base_url);
}

abbrev pub address_of : Bool → ServiceItem → String
address_of is_proxy item = if is_proxy then item.proxy_pattern else item.base_url

-- The address of the service, and those of the others by their keys.
unfoldable pub get_service_base_url : Env → Bool → String × List (String × String)
unfolding create_service_config
get_service_base_url env is_proxy =
    let config = create_service_config env in
    (
      if is_proxy then config.proxy_pattern else config.base_url,
      map (λ (item : ServiceItem). (item.key, address_of is_proxy item)) config.other,
    )

-- An entry of the proxy: what starts the paths that it takes, and where they go.
pub record ProxyItem : Type 0 where
  pub pattern : String
  pub target : String

-- `path.replace(new RegExp('^' + pattern), '')`, for a pattern without signs of regular expressions.
unfoldable pub rewrite : ProxyItem → String → String
unfolding starts_with
rewrite item path = if starts_with item.pattern path then drop_text item.pattern path else path

-- `Object.assign(proxy, item)`: an entry with the same pattern is replaced.
abbrev assign : List ProxyItem → ProxyItem → List ProxyItem
assign proxy item =
    if any (λ (p : ProxyItem). p.pattern == item.pattern) proxy
    then map (λ (p : ProxyItem). if p.pattern == item.pattern then item else p) proxy
    else proxy ++ item ∷ []

abbrev assign_all : List ProxyItem → List ServiceItem → List ProxyItem
assign_all proxy [] = proxy
assign_all proxy (item ∷ items) =
    assign_all (assign proxy (record { pattern = item.proxy_pattern; target = item.base_url }))
      items

unfoldable pub create_vite_proxy : Env → Bool → Option (List ProxyItem)
unfolding create_service_config
create_vite_proxy env enable =
    let config = create_service_config env in
    if enable && env.http_proxy
    then some (
        assign_all (record { pattern = config.proxy_pattern; target = config.base_url } ∷ [])
          config.other)
    else none

starts_with-append : (p s : String) → starts_with p (String.◌++◌ p s) ≡ true
unfolding starts_with
starts_with-append String.[] s = refl
starts_with-append (String.◌∷◌ c p) s =
    ap (starts_with (String.◌∷◌ c p)) (cons-append c p s)
    ∙ ap (λ b. b && starts_with p (String.◌++◌ p s)) (eqb_refl (code c))
    ∙ starts_with-append p s

drop_text-append : (p s : String) → drop_text p (String.◌++◌ p s) ≡ s
drop_text-append String.[] s = nil-append s
drop_text-append (String.◌∷◌ c p) s =
    ap (drop_text (String.◌∷◌ c p)) (cons-append c p s) ∙ drop_text-append p s

rewrite-append :
    (item : ProxyItem) (path : String) → rewrite item (String.◌++◌ item.pattern path) ≡ path
unfolding rewrite
rewrite-append item path =
    if-true _ _ (starts_with-append item.pattern path) ∙ drop_text-append item.pattern path

-- Where a request to an item of the service goes by the item's own entry of the proxy.
abbrev pub forwarded : ServiceItem → String → String
forwarded item path = String.◌++◌ item.base_url (
    rewrite (record { pattern = item.proxy_pattern; target = item.base_url })
      (String.◌++◌ (address_of true item) path))

All-forwarded :
    (path : String) (items : List ServiceItem)
    → All
        (λ (item : ServiceItem). forwarded item path ≡ String.◌++◌ (address_of false item) path)
        items
All-forwarded path [] = tt
All-forwarded path (item ∷ items) = (
  ap (String.◌++◌ item.base_url)
      (rewrite-append (record { pattern = item.proxy_pattern; target = item.base_url }) path),
  All-forwarded path items,
)

-- A request that goes by the entry of its service in the proxy reaches the address that it has without
-- the proxy, for each of the other services.
pub forwarded-create_service_config :
    (env : Env) (path : String)
    → All
        (λ (item : ServiceItem). forwarded item path ≡ String.◌++◌ (address_of false item) path)
        (create_service_config env).other
forwarded-create_service_config env path = All-forwarded path (create_service_config env).other

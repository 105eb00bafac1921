-- ===== src/UrlSafety.antt =====
-- app/gateways/url_safety.py: which base URLs a model profile may use. What `urlparse` and
-- `ip_address` make of a text is a parameter, as is the resolver.
pub mod Accepted
use headhunt_agent.Prelude.{
  String, Bool, true, false, not, Option, none, some, List, [], ◌∷◌, if◌then◌else◌, str_eq, ◌&&◌,
  ◌||◌, any, map, all,
}
use headhunt_agent.Tx.{Result, ok, raise, base_url_safety}
use headhunt_agent.Texts.{lower, ends_with, rstrip_char}

-- An absent part is the empty text, as `or` tests it.
pub record ParsedUrl : Type 0 where
  pub scheme : String
  pub hostname : String
  pub username : String
  pub password : String
  pub query : String
  pub fragment : String

pub record IpAddress : Type 0 where
  pub is_loopback : Bool
  pub is_private : Bool
  pub is_link_local : Bool
  pub is_multicast : Bool
  pub is_unspecified : Bool
  pub is_reserved : Bool

-- What the module takes from the standard library
pub record NetText : Type 0 where
  pub urlparse : String → ParsedUrl
  pub ip_address : String → Option IpAddress

abbrev pub is_set : String → Bool
is_set s = not (str_eq s "")

-- `_reject_unsafe_ip`
unfoldable pub is_safe_ip : IpAddress → Bool
is_safe_ip address = not (
    address.is_loopback
    || (address.is_private
        || (address.is_link_local
            || (address.is_multicast || (address.is_unspecified || address.is_reserved)))))

module _ (n : NetText) where
  safe_if_ip : Option IpAddress → Bool
  unfolding is_safe_ip
  safe_if_ip none = true
  safe_if_ip (some address) = is_safe_ip address

  -- `_reject_unsafe_hostname`
  unfoldable pub is_safe_hostname : String → Bool
  unfolding safe_if_ip
  is_safe_hostname hostname =
      not (str_eq hostname "localhost" || ends_with ".local" hostname)
      && safe_if_ip (n.ip_address hostname)

  safe_ip : Option IpAddress → Bool
  unfolding is_safe_ip
  safe_ip none = false
  safe_ip (some address) = is_safe_ip address

  -- `_reject_unsafe_address`
  unfoldable pub is_safe_address : String → Bool
  unfolding safe_ip
  is_safe_address value = safe_ip (n.ip_address value)

  unfoldable pub all_safe : List String → Bool
  unfolding is_safe_address
  all_safe [] = true
  all_safe (value ∷ rest) = is_safe_address value && all_safe rest

  -- The addresses of a host: at least one, and all of them safe
  unfoldable pub resolves_safely : List String → Bool
  unfolding all_safe
  resolves_safely [] = false
  resolves_safely (value ∷ rest) = all_safe (value ∷ rest)

  abbrev pub is_trusted : List String → String → Bool
  is_trusted trusted hostname = any (λ host. str_eq (lower host) hostname) trusted

  unfoldable pub validate_https_base_url :
      List String → Bool → (String → Result (List String)) → String → Result String
  unfolding is_safe_hostname resolves_safely
  validate_https_base_url trusted_public_hosts resolve_dns resolver base_url =
      let parsed = n.urlparse base_url in
      let hostname = lower parsed.hostname in
      if not (str_eq parsed.scheme "https" && is_set parsed.hostname)
      then raise base_url_safety
      else if is_set parsed.username || is_set parsed.password
      then raise base_url_safety
      else if is_set parsed.query || is_set parsed.fragment
      then raise base_url_safety
      else if not (is_safe_hostname hostname)
      then raise base_url_safety
      else if resolve_dns && not (is_trusted trusted_public_hosts hostname)
      then elim (resolver hostname) [
        | raise e ↦ raise e
        | ok addresses ↦
            if resolves_safely addresses
            then ok (rstrip_char "/" base_url)
            else raise base_url_safety
      ]
      else ok (rstrip_char "/" base_url)

-- ===== src/UrlSafety/Accepted.antt =====
-- What an accepted base URL is.
use headhunt_agent.Prelude.{String, Bool, true, false, List, ◌≡◌, str_eq, ◌&&◌, ◌||◌}
use headhunt_agent.Tx.{Result}
use headhunt_agent.UrlSafety.{NetText, is_safe_hostname, is_set}
use headhunt_agent.Texts.{lower}

module _ (n : NetText) (trusted : List String) (resolve_dns : Bool)
    (resolver : String → Result (List String)) (base_url : String) where
  -- The URL has no credentials, query or fragment, and its host is a safe name or address.
  pub record IsAccepted : Type 0 where
    pub https :
        (str_eq (n.urlparse base_url).scheme "https" && is_set (n.urlparse base_url).hostname)
        ≡ true
    pub no_credentials :
        (is_set (n.urlparse base_url).username || is_set (n.urlparse base_url).password) ≡ false
    pub no_query :
        (is_set (n.urlparse base_url).query || is_set (n.urlparse base_url).fragment) ≡ false
    pub safe_host : is_safe_hostname n (lower (n.urlparse base_url).hostname) ≡ true

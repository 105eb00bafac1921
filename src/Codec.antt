-- ===== src/Codec.antt =====
-- What the services use of Python's `json`, `hashlib` and `uuid`. The theorems hold for every such
-- functions; `text_of_other` is `str` of a value that is no text and no UUID, `dumps` is the compact form with sorted keys, `dumps_spaced` the default one.
use headhunt_agent.Prelude.{String, Option}
use headhunt_agent.Value.{Value, str, uuid}
use headhunt_agent.Storage.Models.{Uuid}

pub record Codec : Type 0 where
  pub dumps : Value → String
  pub dumps_spaced : Value → String
  pub loads : String → Option Value
  pub sha256 : String → String
  pub text_of_other : Value → String
  pub uuid_text : Uuid → String
  pub parse_uuid : String → Option Uuid
  pub uuid5 : String → Uuid

-- `_stable_hash`
unfoldable pub stable_hash : Codec → Value → String
stable_hash c payload = c.sha256 (c.dumps payload)

-- str(value)
unfoldable pub text_form : Codec → Value → String
text_form c (str s) = s
text_form c (uuid u) = c.uuid_text u
text_form c v = c.text_of_other v

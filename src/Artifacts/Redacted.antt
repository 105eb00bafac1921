-- ===== src/Artifacts/Redacted.antt =====
-- What of a policy an audit holds.
use headhunt_agent.Prelude.{
  ◌≡◌, inr, none, Bool, ◌∙◌, true, false, String, str_eq, some, eq_iff, Option, Bool-cases,
  if◌then◌else◌, refl, inl,
}
use headhunt_agent.Value.Dicts.{get-put-other}
use headhunt_agent.Artifacts.{json_safe_policy, is_secret, decision_of, with_reason}
use headhunt_agent.Value.{get, Fields, has_key, put, str, bool, field, end}
use headhunt_agent.Codec.{Codec}
use headhunt_agent.Texts.{lower, ends_with}

safe_get :
    (c : Codec) (key : String) (policy : Fields)
    → is_secret key ≡ true
    → has_key key policy ≡ true
    → get key (json_safe_policy c policy) ≡ str "<redacted>"
unfolding get has_key json_safe_policy
safe_get c key end secret there = absurd (cc)
safe_get c key (field k v rest) secret there = elim (Bool-cases (str_eq k key)) [
  | inl same ↦ let equal : k ≡ key = (eq_iff k key).0 same in rw same (rw equal (rw secret refl))
  | inr other ↦ rw other (safe_get c key rest secret (rw other at there))
]

-- The decision's own entries are no secrets.
other_key :
    (key own : String) → is_secret key ≡ true → is_secret own ≡ false → str_eq own key ≡ false
other_key key own secret open_key = elim (Bool-cases (str_eq own key)) [
  | inl same ↦ absurd (cc ((eq_iff own key).0 same))
  | inr other ↦ other
]

reason_shown : is_secret "denied_reason" ≡ false
unfolding lower ends_with
reason_shown = refl

allowed_shown : is_secret "allowed" ≡ false
unfolding lower ends_with
allowed_shown = refl

get-with_reason :
    (key : String) (denied_reason : Option String) (d : Fields)
    → is_secret key ≡ true
    → get key (with_reason denied_reason d) ≡ get key d
get-with_reason key none d secret = refl
get-with_reason key (some reason) d secret = go (str_eq reason "")
  where
    go : (b : Bool) → get key (if b then d else put "denied_reason" (str reason) d) ≡ get key d
    go true = refl
    go false =
        get-put-other key "denied_reason" (str reason) d
          (other_key key "denied_reason" secret reason_shown)

-- A secret, a token or a key of the policy, by the end of its name in any case, is in the decision of
-- an audit only as the text <redacted>.
pub decision_redacted :
    (c : Codec) (key : String) (policy : Fields) (allowed : Bool) (denied_reason : Option String)
    → is_secret key ≡ true
    → has_key key policy ≡ true
    → get key (decision_of c policy allowed denied_reason) ≡ str "<redacted>"
unfolding decision_of
decision_redacted c key policy allowed denied_reason secret there =
    get-with_reason key denied_reason _ secret
    ∙ (get-put-other key "allowed" (bool allowed) (json_safe_policy c policy)
          (other_key key "allowed" secret allowed_shown)
        ∙ safe_get c key policy secret there)

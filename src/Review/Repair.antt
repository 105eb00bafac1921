-- ===== src/Review/Repair.antt =====
-- app/runtime/review_gate.py: `repair_artifact_for_review`. It returns no dict where the code raises.
use Prim.Native.String.{String}
use headhunt_agent.Prelude.{zero, suc, ◌+◌, Option, none, some, if◌then◌else◌, ltb, ◌<>◌, String}
use headhunt_agent.Texts.{strip, text_length}
use headhunt_agent.Value.{
  Value, Items, Fields, get, put, or_value, str, int, negative, list, dict, nil, cons, field, end,
}
use headhunt_agent.Codec.{Codec}
use headhunt_agent.Review.{int_of, text_or_else}

abbrev pub next_int : Value → Option Value
next_int (int n) = some (int (n + 1))
next_int (negative zero) = some (int 0)
next_int (negative (suc n)) = some (negative n)
next_int _ = none

abbrev pub keys : Fields → Items
keys end = nil
keys (field k v rest) = cons (str k) (keys rest)

abbrev pub letters : String → Items
letters String.[] = nil
letters (String.◌∷◌ c s) = cons (str (String.◌∷◌ c String.[])) (letters s)

-- list(value), none where it raises
abbrev pub list_of : Value → Option Items
list_of (list xs) = some xs
list_of (dict d) = some (keys d)
list_of (str s) = some (letters s)
list_of _ = none

abbrev pub add_item : Value → Items → Items
add_item v nil = cons v nil
add_item v (cons w rest) = cons w (add_item v rest)

module _ (c : Codec) where
  abbrev pub stripped_summary : Fields → String
  unfolding strip
  stripped_summary artifact = strip (text_or_else c (get "summary" artifact) "")

  unfoldable pub with_long_summary : Fields → Fields
  unfolding put
  with_long_summary artifact =
      if ltb (text_length (stripped_summary artifact)) 12
      then put "summary" (str (stripped_summary artifact <> "；ReviewGate 已补充可执行摘要，需人工确认后落库。"))
          artifact
      else artifact

  abbrev pub repair_ref : Fields → String
  repair_ref artifact =
      "review://artifact-review-gate/"
      <> text_or_else c (get "artifact_id" artifact) "unknown"
      <> "/repair"

  repaired_with : Fields → Option Value → Option Items → Option Fields
  unfolding with_long_summary put
  repaired_with artifact (some version) (some source_refs) = some (
      put "source_refs" (list (add_item (str (repair_ref artifact)) source_refs))
        (put "version" version (with_long_summary artifact)))
  repaired_with artifact _ _ = none

  abbrev pub next_version : Option Value → Option Value
  next_version none = none
  next_version (some version) = next_int version

  unfoldable pub repair_artifact_for_review : Fields → Option Fields
  unfolding repaired_with int_of or_value
  repair_artifact_for_review artifact =
      repaired_with artifact (next_version (int_of (or_value (get "version" artifact) (int 1))))
        (list_of (or_value (get "source_refs" artifact) (list nil)))

-- ===== src/Value/Dicts.antt =====
-- Lookup after an update of a dict.
use headhunt_agent.Value.{Value, Fields, get, put, str, text_of, field, end}
use headhunt_agent.Prelude.{
  String, false, ◌≡◌, ◌≢◌, refl, str_eq, str_eq-eq-false, Bool-cases, inl, inr, eq_iff, eq_refl,
  some, subst,
}

pub text_of-str : (s : String) → s ≢ "" → text_of (str s) ≡ some s
unfolding text_of
text_of-str s h = rw (str_eq-eq-false h) refl

-- Another key keeps its value.
pub get-put-other :
    (k key : String) (v : Value) (d : Fields) → str_eq key k ≡ false → get k (put key v d) ≡ get k d
unfolding get put
get-put-other k key v end h = rw h refl
get-put-other k key v (field j w rest) h = elim (Bool-cases (str_eq j key)) [
  | inl same ↦
      let other : str_eq j k ≡ false =
        subst (λ x. str_eq x k ≡ false) (cc ((eq_iff j key).0 same)) h in
      rw same (rw other refl)
  | inr new ↦ elim (Bool-cases (str_eq j k)) [
    | inl found ↦ rw new (rw found refl)
    | inr other ↦ rw new (rw other (get-put-other k key v rest h))
  ]
]

pub get-put-same : (key : String) (v : Value) (d : Fields) → get key (put key v d) ≡ v
unfolding get put
get-put-same key v end = rw (eq_refl key) refl
get-put-same key v (field j w rest) = elim (Bool-cases (str_eq j key)) [
  | inl same ↦ rw same (rw same refl)
  | inr new ↦ rw new (rw new (get-put-same key v rest))
]

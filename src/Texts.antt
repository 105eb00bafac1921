-- ===== src/Texts.antt =====
-- Python's methods of a text, as the modelled code uses them. `lower` changes the letters A to Z: the
-- code looks for ASCII words in its answer, or for texts without cases.
use Prim.Native.Char.{Char, code}
use Prim.Native.String.{String, count}
use text.Mathlib.Text.{find?, starts_with as text_starts_with}
use headhunt_agent.Prelude.{
  ℕ, zero, suc, Bool, true, false, ◌||◌, ◌&&◌, ◌==◌, leb, List, [], ◌∷◌, any, is_some, Option, some,
  none, ◌-◌, ◌*◌, ◌+◌, if◌then◌else◌, ◌≡◌, refl, String, str_eq,
}

-- t in s
abbrev pub contains : String → String → Bool
contains t s = is_some (find? s t)

-- any(t in s for t in texts)
abbrev pub contains_any : List String → String → Bool
contains_any texts s = any (λ t. contains t s) texts

abbrev pub starts_with : String → String → Bool
starts_with t s = text_starts_with s t

-- len(s)
abbrev pub text_length : String → ℕ
text_length s = count s

-- The character of the second text at the place where the first one has `c`
translate_char : String → String → Char → Char
translate_char String.[] t c = c
translate_char (String.◌∷◌ a s) String.[] c = c
translate_char (String.◌∷◌ a s) (String.◌∷◌ b t) c =
    if code a == code c then b else translate_char s t c

unfoldable pub translate : String → String → String → String
unfolding translate_char
translate from to String.[] = String.[]
translate from to (String.◌∷◌ c s) = String.◌∷◌ (translate_char from to c) (translate from to s)

-- s.lower()
unfoldable pub lower : String → String
unfolding translate
lower s = translate "ABCDEFGHIJKLMNOPQRSTUVWXYZ" "abcdefghijklmnopqrstuvwxyz" s

-- c.isspace()
abbrev pub is_space : Char → Bool
is_space c =
    leb 9 (code c) && leb (code c) 13
    || (leb 28 (code c) && leb (code c) 32
        || (leb 8192 (code c) && leb (code c) 8202
            || any (λ n. code c == n) (133 ∷ 160 ∷ 5760 ∷ 8232 ∷ 8233 ∷ 8239 ∷ 8287 ∷ 12288 ∷ [])))

abbrev all_space : String → Bool
all_space String.[] = true
all_space (String.◌∷◌ c s) = is_space c && all_space s

-- s.lstrip() and s.rstrip()
unfoldable pub lstrip : String → String
lstrip String.[] = String.[]
lstrip (String.◌∷◌ c s) = if is_space c then lstrip s else String.◌∷◌ c s

unfoldable pub rstrip : String → String
rstrip String.[] = String.[]
rstrip (String.◌∷◌ c s) = if is_space c && all_space s then String.[] else String.◌∷◌ c (rstrip s)

-- s.strip()
unfoldable pub strip : String → String
unfolding lstrip rstrip
strip s = rstrip (lstrip s)

abbrev all_char : Char → String → Bool
all_char d String.[] = true
all_char d (String.◌∷◌ c s) = code c == code d && all_char d s

-- s.rstrip(d), for one character
unfoldable pub rstrip_char : Char → String → String
rstrip_char d String.[] = String.[]
rstrip_char d (String.◌∷◌ c s) =
    if code c == code d && all_char d s then String.[] else String.◌∷◌ c (rstrip_char d s)

-- s[:n]
unfoldable pub take_text : ℕ → String → String
take_text zero s = String.[]
take_text (suc n) String.[] = String.[]
take_text (suc n) (String.◌∷◌ c s) = String.◌∷◌ c (take_text n s)

-- s.endswith(t)
unfoldable pub ends_with : String → String → Bool
ends_with t String.[] = str_eq String.[] t
ends_with t (String.◌∷◌ c s) = str_eq (String.◌∷◌ c s) t || ends_with t s

-- Whitespace as single spaces, none at the ends: " ".join(s.split())
unfoldable pub squeeze : Bool → String → String
squeeze between String.[] = String.[]
squeeze between (String.◌∷◌ c s) =
    if is_space c
    then squeeze true s
    else if between
    then String.◌∷◌ " " (String.◌∷◌ c (squeeze false s))
    else String.◌∷◌ c (squeeze false s)

unfoldable pub join_words : String → String
unfolding squeeze lstrip
join_words s = squeeze false (lstrip s)

-- The digit that a character is
abbrev digit_of : Char → Option ℕ
digit_of c = if leb 48 (code c) && leb (code c) 57 then some (code c - 48) else none

-- Digits with single underscores between them, `after` a digit or not
unfoldable pub int_digits : Bool → ℕ → String → Option ℕ
int_digits after n String.[] = if after then some n else none
int_digits after n (String.◌∷◌ c s) =
    let more = int_digits true (n * 10 + (code c - 48)) s in
    let gap = int_digits false n s in
    if is_some (digit_of c) then more else if after && code c == 95 then gap else none

lower_runs : lower "Sent To 候选人" ≡ "sent to 候选人"
unfolding lower
lower_runs = refl

strip_runs : strip " \t ab c\n" ≡ "ab c"
unfolding strip
strip_runs = refl

ends_runs : ends_with ".local" "printer.local" ≡ true
unfolding ends_with
ends_runs = refl

join_runs : join_words "  a \n b  c " ≡ "a b c"
unfolding join_words
join_runs = refl

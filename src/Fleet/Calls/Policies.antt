-- ===== src/Fleet/Calls/Policies.antt =====
-- The policy of a host as it is written, and what `Policy` reads of it.
use Prim.Native.Char.{Char}
use text.Mathlib.TextLemmas.{cons-append, append_assoc}
use amarre.Base.{
  ◌≡◌, ◌≢◌, refl, sym, ap, ◌∙◌, Bool, true, false, ◌&&◌, not, String, List, [], ◌∷◌, arith,
  Bool-cases, inl, inr, str_eq, All, ◌<>◌, one, is_space, is_code, every, lacks, heads_off,
  every-append, every_weaken, split_at, trim_left, trim_right, trim_by, trim_space, split_at-piece,
  cut_at-piece, trim_by-last, trim_by-every, trim_by-around, cons-ne_empty, map,
}
use amarre.Fleet.Calls.{PolicyEntry, is_comment, entry_of, policy_line, policy_lines, policy_of}

-- A line `KEY="value"`.
abbrev quoted : String → String
quoted v = String.◌∷◌ "\"" (v <> one "\"")

abbrev assigned : String → String
assigned v = String.◌∷◌ "=" (quoted v)

abbrev pub line_of : String × String → String
line_of (k, v) = k <> assigned v

-- The file, one line for each variable.
pub policy_text : List (String × String) → String
policy_text [] = ""
policy_text (e ∷ es) = line_of e <> String.◌∷◌ "\n" (policy_text es)

abbrev pub key_char : Char → Bool
key_char c = not (is_space c) && (not (is_code b'=' c) && not (is_code b'#' c))

abbrev pub value_char : Char → Bool
value_char c = not (is_code b'\n' c) && not (is_code b'"' c)

-- A name without blanks, `=` and `#`, and a value without quotes on one line.
abbrev pub IsVariable : String × String → Type 0
IsVariable (k, v) = (k ≢ "") × (every key_char k ≡ true) × (every value_char v ≡ true)

abbrev pub variable : String × String → PolicyEntry
variable (k, v) = record { key = k; value = v; allowed = str_eq v "yes" }

quoted-trimmed : (v : String) → trim_space (quoted v) ≡ quoted v
quoted-trimmed v =
    ap trim_space (sym (cons-append "\"" v (one "\"")))
    ∙ trim_by-last is_space (String.◌∷◌ "\"" v) "\"" (rw (cons-append "\"" v (one "\"")) refl) refl
    ∙ cons-append "\"" v (one "\"")

line-last : (k v : String) → line_of (k, v) ≡ (k <> String.◌∷◌ "=" (String.◌∷◌ "\"" v)) <> one "\""
line-last k v = sym (
    append_assoc k (String.◌∷◌ "=" (String.◌∷◌ "\"" v)) (one "\"")
    ∙ ap (λ t. k <> t)
        (cons-append "=" (String.◌∷◌ "\"" v) (one "\"")
          ∙ ap (λ t. String.◌∷◌ "=" t) (cons-append "\"" v (one "\""))))

-- A key at the head of a text keeps the test for blanks and for a comment off.
key-heads : (k t : String) → k ≢ "" → every key_char k ≡ true → heads_off is_space (k <> t) ≡ true
key-heads String.[] t n h = absurd (n refl)
key-heads (String.◌∷◌ c k) t n h =
    let solid : is_space c ≡ false = ground (arith, h) in rw (cons-append c k t, solid) refl

key-comment : (k t : String) → k ≢ "" → every key_char k ≡ true → is_comment (k <> t) ≡ false
key-comment String.[] t n h = absurd (n refl)
key-comment (String.◌∷◌ c k) t n h =
    let solid : is_code b'#' c ≡ false = ground (arith, h) in
    rw (cons-append c k t, cons-ne_empty c (k <> t), solid) refl

key_space : (c : Char) → key_char c ≡ true → not (is_space c) ≡ true
key_space c h = ground (arith, h)

key_equals : (c : Char) → key_char c ≡ true → not (is_code b'=' c) ≡ true
key_equals c h = ground (arith, h)

value_quote : (c : Char) → value_char c ≡ true → not (is_code b'"' c) ≡ true
value_quote c h = ground (arith, h)

value_line : (c : Char) → value_char c ≡ true → not (is_code b'\n' c) ≡ true
value_line c h = ground (arith, h)

key_line : (c : Char) → key_char c ≡ true → not (is_code b'\n' c) ≡ true
key_line c h = elim (Bool-cases (is_code b'\n' c)) [
  | inl e ↦ ground (arith, h, e)
  | inr e ↦ rw e refl
]

line_of-lacks :
    (k v : String)
    → every key_char k ≡ true
    → every value_char v ≡ true
    → lacks b'\n' (line_of (k, v)) ≡ true
line_of-lacks k v h g =
    rw
      (
        every-append (λ c. not (is_code b'\n' c)) k (assigned v),
        every-append (λ c. not (is_code b'\n' c)) v (one "\""),
        every_weaken key_char (λ c. not (is_code b'\n' c)) k key_line h,
        every_weaken value_char (λ c. not (is_code b'\n' c)) v value_line g,
      )
      refl

line_of-trimmed :
    (k v : String) → k ≢ "" → every key_char k ≡ true → trim_space (line_of (k, v)) ≡ line_of (k, v)
line_of-trimmed k v n h =
    ap trim_space (line-last k v)
    ∙ trim_by-last is_space (k <> String.◌∷◌ "=" (String.◌∷◌ "\"" v)) "\""
        (ap (λ t. heads_off is_space t) (sym (line-last k v)) ∙ key-heads k (assigned v) n h) refl
    ∙ sym (line-last k v)

entry_of-quoted :
    (k v : String)
    → every key_char k ≡ true
    → every value_char v ≡ true
    → entry_of (k, quoted v) ≡ variable (k, v)
entry_of-quoted k v h g =
    let key =
      trim_by-every is_space k (every_weaken key_char (λ c. not (is_space c)) k key_space h) in
    let value : trim_by (is_code b'"') (trim_space (quoted v)) ≡ v =
      ap (λ t. trim_by (is_code b'"') t) (quoted-trimmed v)
      ∙ trim_by-around (is_code b'"') v "\""
          (every_weaken value_char (λ c. not (is_code b'"' c)) v value_quote g) refl in
    rw (key, value) refl

policy_line-line_of :
    (e : String × String) → IsVariable e → policy_line (line_of e) ≡ variable e ∷ []
policy_line-line_of (k, v) (n, h, g) =
    rw
      (
        key-comment k (assigned v) n h,
        cut_at-piece b'=' "=" k (quoted v)
            (every_weaken key_char (λ c. not (is_code b'=' c)) k key_equals h) refl,
      )
      (ap (λ e. e ∷ []) (entry_of-quoted k v h g))

policy_lines-nil : policy_lines (split_at b'\n' "") ≡ []
unfolding policy_lines split_at trim_left trim_right
policy_lines-nil = refl

-- `Policy` reads back every variable of a policy file, in its order: the names without blanks,
-- `=` and `#`, and the values with whatever they hold but quotes and line ends; a variable is
-- allowed exactly where its value is "yes".
pub policy_of-policy_text :
    (es : List (String × String)) → All IsVariable es → policy_of (policy_text es) ≡ map variable es
unfolding policy_of policy_text
policy_of-policy_text [] h = policy_lines-nil
policy_of-policy_text ((k, v) ∷ es) ((n, hk, hv), hs) =
    rw
      (
        split_at-piece b'\n' "\n" (line_of (k, v)) (policy_text es) (line_of-lacks k v hk hv) refl,
        line_of-trimmed k v n hk,
        policy_line-line_of (k, v) (n, hk, hv),
      )
      (ap (λ l. variable (k, v) ∷ l) (policy_of-policy_text es hs))

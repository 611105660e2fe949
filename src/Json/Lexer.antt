-- ===== src/Json/Lexer.antt =====
-- The scanner of encoding/json: from bytes to the tokens between the white space.
use fin_kit.Prelude.{
  ℕ, zero, suc, ◌+◌, ◌*◌, ◌/◌, ◌%◌, ◌-◌, Bool, ◌&&◌, ◌||◌, Option, none, some, List, [], ◌∷◌, ◌++◌,
  if◌then◌else◌, nat_eqb, leb, ltb,
}
use fin_kit.Json.Syntax.{Bytes}
use fin_kit.Json.Numbers.{is_digit}

-- A word is a number or one of the names `true`, `false` and `null`.
pub data Token : Type 0 where
  open_object close_object open_array close_array colon comma : Token
  quoted word : Bytes → Token

-- Where the scanner is: `escaped` is after a backslash, `in_unicode t n v` has `n + 1` digits to go of
-- a `\u` with the value `v` so far.
pub data Scan : Type 0 where
  between : Scan
  in_word in_text escaped : Bytes → Scan
  in_unicode : Bytes → ℕ → ℕ → Scan

abbrev pub is_space : ℕ → Bool
is_space c = nat_eqb c 32 || nat_eqb c 9 || nat_eqb c 10 || nat_eqb c 13

-- `{` `}` `[` `]` `:` `,`
abbrev pub punctuation : ℕ → Option Token
punctuation c =
    if nat_eqb c 123
    then some open_object
    else if nat_eqb c 125
    then some close_object
    else if nat_eqb c 91
    then some open_array
    else if nat_eqb c 93
    then some close_array
    else if nat_eqb c 58
    then some colon
    else if nat_eqb c 44
    then some comma
    else none

-- A byte between tokens. `"` is 34.
unfoldable pub start_token : ℕ → List Token × Scan
start_token c = if is_space c then ([], between) else elim (punctuation c) [
  | some t ↦ (t ∷ [], between)
  | none ↦ if nat_eqb c 34 then ([], in_text []) else ([], in_word (c ∷ []))
]

-- The byte after a backslash, but for `u`: `"` `\` `/` `b` `f` `n` `r` `t`.
abbrev unescape : ℕ → Option ℕ
unescape c =
    if nat_eqb c 34 || nat_eqb c 92 || nat_eqb c 47
    then some c
    else if nat_eqb c 98
    then some 8
    else if nat_eqb c 102
    then some 12
    else if nat_eqb c 110
    then some 10
    else if nat_eqb c 114
    then some 13
    else if nat_eqb c 116
    then some 9
    else none

abbrev hex_digit : ℕ → Option ℕ
hex_digit c =
    if is_digit c
    then some (c - 48)
    else if leb 97 c && leb c 102
    then some (c - 87)
    else if leb 65 c && leb c 70
    then some (c - 55)
    else none

-- The bytes of a `\u`. A half of a surrogate pair becomes U+FFFD, also where Go joins the halves.
abbrev utf8 : ℕ → Bytes
utf8 v =
    if ltb v 128
    then v ∷ []
    else if ltb v 2048
    then (192 + v / 64) ∷ (128 + v % 64) ∷ []
    else if leb 55296 v && ltb v 57344
    then 239 ∷ 191 ∷ 189 ∷ []
    else (224 + v / 4096) ∷ (128 + v / 64 % 64) ∷ (128 + v % 64) ∷ []

-- The tokens that a byte completes. `\` is 92, `u` is 117; a control character ends the scan.
unfoldable pub scan_byte : Scan → ℕ → Option (List Token × Scan)
unfolding start_token
scan_byte between c = some (start_token c)
scan_byte (in_word w) c =
    if is_space c || nat_eqb c 34
    then some (word w ∷ (start_token c).0, (start_token c).1)
    else elim (punctuation c) [
      | some t ↦ some (word w ∷ t ∷ [], between)
      | none ↦ some ([], in_word (w ++ (c ∷ [])))
    ]
scan_byte (in_text t) c =
    if nat_eqb c 34
    then some (quoted t ∷ [], between)
    else if nat_eqb c 92
    then some ([], escaped t)
    else if ltb c 32
    then none
    else some ([], in_text (t ++ (c ∷ [])))
scan_byte (escaped t) c = elim (unescape c) [
  | some b ↦ some ([], in_text (t ++ (b ∷ [])))
  | none ↦ if nat_eqb c 117 then some ([], in_unicode t 3 0) else none
]
scan_byte (in_unicode t n v) c = elim (hex_digit c) [
  | none ↦ none
  | some d ↦ elim n [
    | zero ↦ some ([], in_text (t ++ utf8 (16 * v + d)))
    | suc m ↦ some ([], in_unicode t m (16 * v + d))
  ]
]

-- A text that ends inside a string is not complete.
abbrev scan_end : Scan → Option (List Token)
scan_end between = some []
scan_end (in_word w) = some (word w ∷ [])
scan_end (in_text t) = none
scan_end (escaped t) = none
scan_end (in_unicode t n v) = none

unfoldable pub scan : Scan → Bytes → Option (List Token)
unfolding scan_byte
scan s [] = scan_end s
scan s (c ∷ cs) = elim (scan_byte s c) [
  | none ↦ none
  | some (ts, s') ↦ elim (scan s' cs) [ none ↦ none | some rest ↦ some (ts ++ rest) ]
]

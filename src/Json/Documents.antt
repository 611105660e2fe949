-- ===== src/Json/Documents.antt =====
-- Texts written from tokens, with a space after each, and the scanner that reads them back.
use mathlib.Core.List.{append_assoc, append-nil}
use fin_kit.Prelude.{
  ℕ, ◌≡◌, refl, Bool, true, false, ◌&&◌, not, Option, none, some, List, [], ◌∷◌, ◌++◌, arith, ltb,
  nat_eqb, Option-cases, inl, inr,
}
use fin_kit.Json.Syntax.{Bytes}
use fin_kit.Json.Numbers.{
  Part, start, after_minus, after_zero, in_integer, after_dot, in_fraction, after_e, after_sign,
  in_exponent, number_step, is_number_from, is_number,
}
use fin_kit.Json.Lexer.{
  Token, open_object, close_object, open_array, close_array, colon, comma, quoted, word, between,
  in_word, in_text, scan, is_space, punctuation,
}

abbrev pub token_bytes : Token → Bytes
token_bytes open_object = 123 ∷ []
token_bytes close_object = 125 ∷ []
token_bytes open_array = 91 ∷ []
token_bytes close_array = 93 ∷ []
token_bytes colon = 58 ∷ []
token_bytes comma = 44 ∷ []
token_bytes (quoted t) = 34 ∷ (t ++ (34 ∷ []))
token_bytes (word w) = w

unfoldable pub render : List Token → Bytes
render [] = []
render (t ∷ ts) = token_bytes t ++ (32 ∷ render ts)

-- A byte of a string that needs no escape, and one of a word.
abbrev pub plain_text : ℕ → Bool
plain_text c = not (nat_eqb c 34) && not (nat_eqb c 92) && not (ltb c 32)

abbrev is_none {ℓ} : {A : Type ℓ} → Option A → Bool
is_none none = true
is_none (some a) = false

abbrev pub plain_word : ℕ → Bool
plain_word c = not (is_space c) && not (nat_eqb c 34) && is_none (punctuation c)

unfoldable pub all_bytes : (ℕ → Bool) → Bytes → Bool
all_bytes p [] = true
all_bytes p (c ∷ cs) = p c && all_bytes p cs

-- A word has a byte at least.
abbrev pub is_plain : Token → Bool
is_plain open_object = true
is_plain close_object = true
is_plain open_array = true
is_plain close_array = true
is_plain colon = true
is_plain comma = true
is_plain (quoted t) = all_bytes plain_text t
is_plain (word []) = false
is_plain (word (c ∷ cs)) = all_bytes plain_word (c ∷ cs)

unfoldable pub all_plain : List Token → Bool
all_plain [] = true
all_plain (t ∷ ts) = is_plain t && all_plain ts

scan-text :
    (acc t rest : Bytes) (ts : List Token)
    → all_bytes plain_text t ≡ true
    → scan between rest ≡ some ts
    → scan (in_text acc) (t ++ (34 ∷ rest)) ≡ some (quoted (acc ++ t) ∷ ts)
unfolding scan all_bytes
scan-text acc [] rest ts plain h = ground (arith, append-nil acc)
scan-text acc (c ∷ t) rest ts plain h =
    ground (arith, scan-text (acc ++ (c ∷ [])) t rest ts, append_assoc acc (c ∷ []) t)

scan-word :
    (acc w rest : Bytes) (ts : List Token)
    → all_bytes plain_word w ≡ true
    → scan between rest ≡ some ts
    → scan (in_word acc) (w ++ (32 ∷ rest)) ≡ some (word (acc ++ w) ∷ ts)
unfolding scan all_bytes
scan-word acc [] rest ts plain h = ground (arith, append-nil acc)
scan-word acc (c ∷ w) rest ts plain h =
    ground (arith, scan-word (acc ++ (c ∷ [])) w rest ts, append_assoc acc (c ∷ []) w)

scan-space :
    (rest : Bytes) (ts : List Token)
    → scan between rest ≡ some ts
    → scan between (32 ∷ rest) ≡ some ts
unfolding scan
scan-space rest ts h = ground arith

scan-token :
    (t : Token) (rest : Bytes) (ts : List Token)
    → is_plain t ≡ true
    → scan between rest ≡ some ts
    → scan between (token_bytes t ++ (32 ∷ rest)) ≡ some (t ∷ ts)
unfolding scan all_bytes
scan-token open_object rest ts plain h = ground arith
scan-token close_object rest ts plain h = ground arith
scan-token open_array rest ts plain h = ground arith
scan-token close_array rest ts plain h = ground arith
scan-token colon rest ts plain h = ground arith
scan-token comma rest ts plain h = ground arith
scan-token (quoted t) rest ts plain h =
    ground (
      arith,
      append_assoc t (34 ∷ []) (32 ∷ rest),
      scan-text [] t (32 ∷ rest) ts,
      scan-space rest ts,
    )
scan-token (word []) rest ts plain h = absurd (ground arith)
scan-token (word (c ∷ cs)) rest ts plain h = ground (arith, scan-word (c ∷ []) cs rest ts)

pub scan-render : (ts : List Token) → all_plain ts ≡ true → scan between (render ts) ≡ some ts
unfolding scan all_plain render
scan-render [] plain = refl
scan-render (t ∷ ts) plain = ground (arith, scan-render ts, scan-token t (render ts) ts)

-- The literal of a number is a plain word.
number_step-plain_word :
    (p : Part) (c : ℕ) → is_none (number_step p c) ≡ false → plain_word c ≡ true
unfolding number_step
number_step-plain_word start c h = ground arith
number_step-plain_word after_minus c h = ground arith
number_step-plain_word after_zero c h = ground arith
number_step-plain_word in_integer c h = ground arith
number_step-plain_word after_dot c h = ground arith
number_step-plain_word in_fraction c h = ground arith
number_step-plain_word after_e c h = ground arith
number_step-plain_word after_sign c h = ground arith
number_step-plain_word in_exponent c h = ground arith

is_number_from-plain_word :
    (p : Part) (w : Bytes) → is_number_from p w ≡ true → all_bytes plain_word w ≡ true
unfolding is_number_from all_bytes
is_number_from-plain_word p [] h = refl
is_number_from-plain_word p (c ∷ w) h = elim (Option-cases (number_step p c)) [
  | inl stops ↦ absurd (ground arith)
  | inr (q, goes) ↦ ground (arith, number_step-plain_word p c, is_number_from-plain_word q w)
]

pub is_number-is_plain : (w : Bytes) → is_number w ≡ true → is_plain (word w) ≡ true
unfolding is_number
is_number-is_plain [] h = ground arith
is_number-is_plain (c ∷ w) h = is_number_from-plain_word start (c ∷ w) h

-- ===== src/Json/Reading.antt =====
-- How the parser reads the tokens of an object whose members are numbers and strings.
use fin_kit.Prelude.{◌≡◌, refl, true, some, List, [], ◌∷◌, arith}
use fin_kit.Prelude.Int.{ℤ}
use fin_kit.Json.Syntax.{Bytes, number, text, add_member, Members}
use fin_kit.Json.Numbers.{is_number, number_step}
use fin_kit.Json.Lexer.{Token, colon, comma, quoted, word}
use fin_kit.Json.Reader.{Frame, in_object, a_key_or_end, a_separator, read_word, read}
use fin_kit.Json.Documents.{is_plain, is_number-is_plain}
use fin_kit.Json.Literals.{literal, is_number-literal}

read_word-number : (w : Bytes) → is_number w ≡ true → read_word w ≡ some (number w)
unfolding read_word is_number number_step
read_word-number [] h = absurd (ground arith)
read_word-number (c ∷ w) h = ground arith

pub read_word-literal : (n : ℤ) → read_word (literal n) ≡ some (number (literal n))
read_word-literal n = read_word-number (literal n) (is_number-literal n)

pub literal-is_plain : (n : ℤ) → is_plain (word (literal n)) ≡ true
literal-is_plain n = is_number-is_plain (literal n) (is_number-literal n)

-- `"key": n`, before the rest of the tokens.
abbrev pub number_member : Bytes → ℤ → List Token → List Token
number_member key n rest = quoted key ∷ colon ∷ word (literal n) ∷ rest

abbrev pub text_member : Bytes → Bytes → List Token → List Token
text_member key t rest = quoted key ∷ colon ∷ quoted t ∷ rest

module _ (ms : Members) (stack : List Frame) (key : Bytes) (rest : List Token) where
  pub read-first_number :
      (n : ℤ)
      → read (number_member key n rest) (a_key_or_end, in_object ms ∷ stack)
        ≡ read rest (a_separator, in_object (add_member ms key (number (literal n))) ∷ stack)
  unfolding read
  read-first_number n = ground (arith, read_word-literal n)

  pub read-next_number :
      (n : ℤ)
      → read (comma ∷ number_member key n rest) (a_separator, in_object ms ∷ stack)
        ≡ read rest (a_separator, in_object (add_member ms key (number (literal n))) ∷ stack)
  unfolding read
  read-next_number n = ground (arith, read_word-literal n)

  pub read-first_text :
      (t : Bytes)
      → read (text_member key t rest) (a_key_or_end, in_object ms ∷ stack)
        ≡ read rest (a_separator, in_object (add_member ms key (text t)) ∷ stack)
  unfolding read
  read-first_text t = refl

  pub read-next_text :
      (t : Bytes)
      → read (comma ∷ text_member key t rest) (a_separator, in_object ms ∷ stack)
        ≡ read rest (a_separator, in_object (add_member ms key (text t)) ∷ stack)
  unfolding read
  read-next_text t = refl

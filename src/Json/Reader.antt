-- ===== src/Json/Reader.antt =====
-- The parser of encoding/json: from tokens to a value, with a stack of what is open.
use fin_kit.Prelude.{true, false, Option, none, some, List, [], ◌∷◌, if◌then◌else◌, leb, length}
use fin_kit.Json.Syntax.{
  Bytes, bytes, same_bytes, Value, null, bool, number, text, array, object, Values, no_values,
  Members, no_members, add_value, add_member,
}
use fin_kit.Json.Numbers.{is_number}
use fin_kit.Json.Lexer.{
  Token, open_object, close_object, open_array, close_array, colon, comma, quoted, word, between,
  scan,
}

-- An open array with its values so far, an open object with its members so far, and an open object
-- whose next member has this key.
pub data Frame : Type 0 where
  in_array : Values → Frame
  in_object : Members → Frame
  in_member : Members → Bytes → Frame

-- What can come next.
pub data Next : Type 0 where
  a_value a_value_or_end a_key a_key_or_end a_separator : Next
  a_colon : Bytes → Next
  the_end : Value → Next

abbrev pub State : Type 0
State = Next × List Frame

unfoldable pub read_word : Bytes → Option Value
unfolding is_number
read_word w =
    if same_bytes w (bytes "null")
    then some null
    else if same_bytes w (bytes "true")
    then some (bool true)
    else if same_bytes w (bytes "false")
    then some (bool false)
    else if is_number w
    then some (number w)
    else none

-- A value is complete.
unfoldable pub deliver : Value → List Frame → Option State
unfolding add_value add_member
deliver v [] = some (the_end v, [])
deliver v (in_array vs ∷ stack) = some (a_separator, in_array (add_value vs v) ∷ stack)
deliver v (in_object ms ∷ stack) = none
deliver v (in_member ms key ∷ stack) = some (a_separator, in_object (add_member ms key v) ∷ stack)

-- At most 10000 arrays and objects are open at a time.
abbrev push : Next → Frame → List Frame → Option State
push next frame stack = if leb 10_000 (length stack) then none else some (next, frame ∷ stack)

unfoldable pub read_value : Token → List Frame → Option State
unfolding deliver read_word
read_value open_object stack = push a_key_or_end (in_object no_members) stack
read_value open_array stack = push a_value_or_end (in_array no_values) stack
read_value (quoted t) stack = deliver (text t) stack
read_value (word w) stack = elim (read_word w) [ none ↦ none | some v ↦ deliver v stack ]
read_value close_object stack = none
read_value close_array stack = none
read_value colon stack = none
read_value comma stack = none

-- The end of the innermost array or object.
unfoldable pub close_frame : Token → List Frame → Option State
unfolding deliver
close_frame close_array (in_array vs ∷ stack) = deliver (array vs) stack
close_frame close_object (in_object ms ∷ stack) = deliver (object ms) stack
close_frame t stack = none

abbrev read_comma : List Frame → Option State
read_comma (in_array vs ∷ stack) = some (a_value, in_array vs ∷ stack)
read_comma (in_object ms ∷ stack) = some (a_key, in_object ms ∷ stack)
read_comma stack = none

unfoldable pub read_token : Token → State → Option State
unfolding read_value close_frame
read_token t (a_value, stack) = read_value t stack
read_token t (a_value_or_end, stack) = elim t [
  | close_array ↦ close_frame close_array stack
  | other ↦ read_value other stack
]
read_token t (a_key, stack) = elim t [ quoted key ↦ some (a_colon key, stack) | _ ↦ none ]
read_token t (a_key_or_end, stack) = elim t [
  | quoted key ↦ some (a_colon key, stack)
  | close_object ↦ close_frame close_object stack
  | _ ↦ none
]
read_token t (a_separator, stack) = elim t [
  | comma ↦ read_comma stack
  | other ↦ close_frame other stack
]
read_token t (a_colon key, in_object ms ∷ stack) = elim t [
  | colon ↦ some (a_value, in_member ms key ∷ stack)
  | _ ↦ none
]
read_token t (a_colon key, stack) = none
read_token t (the_end v, stack) = none

abbrev finished : Next → Option Value
finished (the_end v) = some v
finished next = none

unfoldable pub read : List Token → State → Option Value
unfolding read_token
read [] (next, stack) = finished next
read (t ∷ ts) s = elim (read_token t s) [ none ↦ none | some s' ↦ read ts s' ]

unfoldable pub parse : Bytes → Option Value
unfolding read scan
parse raw = elim (scan between raw) [ none ↦ none | some ts ↦ read ts (a_value, []) ]

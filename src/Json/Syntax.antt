-- ===== src/Json/Syntax.antt =====
-- JSON values. A text is a list of bytes.
use Prim.Native.Char.{code}
use fin_kit.Prelude.{ℕ, Bool, true, false, ◌&&◌, List, [], ◌∷◌, String, nat_eqb}

abbrev pub Bytes : Type 0
Bytes = List ℕ

-- The bytes of an ASCII text.
abbrev pub bytes : String → Bytes
bytes String.[] = []
bytes (String.◌∷◌ c s) = code c ∷ bytes s

abbrev pub same_bytes : Bytes → Bytes → Bool
same_bytes [] [] = true
same_bytes [] (b ∷ bs) = false
same_bytes (a ∷ rest) [] = false
same_bytes (a ∷ rest) (b ∷ bs) = nat_eqb a b && same_bytes rest bs

-- A number is its literal. The members of an object are in the order of the text.
mutual
  pub data Value : Type 0 where
    null : Value
    bool : Bool → Value
    number text : Bytes → Value
    array : Values → Value
    object : Members → Value

  pub data Values : Type 0 where
    no_values : Values
    value : Value → Values → Values

  pub data Members : Type 0 where
    no_members : Members
    member : Bytes → Value → Members → Members

unfoldable pub add_value : Values → Value → Values
add_value no_values v = value v no_values
add_value (value x vs) v = value x (add_value vs v)

unfoldable pub add_member : Members → Bytes → Value → Members
add_member no_members key v = member key v no_members
add_member (member k x ms) key v = member k x (add_member ms key v)

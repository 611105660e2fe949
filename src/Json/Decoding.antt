-- ===== src/Json/Decoding.antt =====
-- json.Unmarshal into a struct: the members of an object fill the fields of their names. Each
-- function returns what a field holds afterwards, and whether there was no error; decoding goes on
-- after an error, which Unmarshal returns at its end.
use fin_kit.Prelude.{
  ℕ, zero, suc, Bool, true, false, ◌&&◌, Option, none, some, List, [], ◌∷◌, if◌then◌else◌, nat_eqb,
  leb, ◌+◌,
}
use fin_kit.Prelude.Int.{ℤ}
use fin_kit.Json.Syntax.{
  Bytes, Value, null, bool, number, text, array, object, Values, no_values, value, Members,
  no_members, member,
}
use fin_kit.Json.Numbers.{parse_int64, parse_uint32}
use fin_kit.Json.Reader.{parse}

abbrev lower : ℕ → ℕ
lower c = if leb 65 c && leb c 90 then c + 32 else c

-- The rest of a key after one letter: the long s of two bytes is an `s`, the Kelvin sign of three a `k`.
abbrev drop_letter : ℕ → Bytes → Option Bytes
drop_letter n [] = none
drop_letter n (c ∷ []) = if nat_eqb n (lower c) then some [] else none
drop_letter n (c ∷ d ∷ []) =
    if nat_eqb n (lower c)
    then some (d ∷ [])
    else if nat_eqb n 115 && nat_eqb c 197 && nat_eqb d 191
    then some []
    else none
drop_letter n (c ∷ d ∷ e ∷ cs) =
    if nat_eqb n (lower c)
    then some (d ∷ e ∷ cs)
    else if nat_eqb n 115 && nat_eqb c 197 && nat_eqb d 191
    then some (e ∷ cs)
    else if nat_eqb n 107 && nat_eqb c 226 && nat_eqb d 132 && nat_eqb e 170
    then some cs
    else none

-- Is the key the name of a field, which is in lower case, up to the case of its letters?
unfoldable pub names : Bytes → Bytes → Bool
names [] [] = true
names [] (c ∷ cs) = false
names (n ∷ ns) key = elim (drop_letter n key) [ none ↦ false | some rest ↦ names ns rest ]

-- A null leaves a field of these types as it is.
unfoldable pub decode_int64 : Value → ℤ → ℤ × Bool
unfolding parse_int64
decode_int64 null old = (old, true)
decode_int64 (bool b) old = (old, false)
decode_int64 (number w) old = elim (parse_int64 w) [ none ↦ (old, false) | some n ↦ (n, true) ]
decode_int64 (text t) old = (old, false)
decode_int64 (array vs) old = (old, false)
decode_int64 (object ms) old = (old, false)

unfoldable pub decode_uint32 : Value → ℕ → ℕ × Bool
unfolding parse_uint32
decode_uint32 null old = (old, true)
decode_uint32 (bool b) old = (old, false)
decode_uint32 (number w) old = elim (parse_uint32 w) [ none ↦ (old, false) | some n ↦ (n, true) ]
decode_uint32 (text t) old = (old, false)
decode_uint32 (array vs) old = (old, false)
decode_uint32 (object ms) old = (old, false)

unfoldable pub decode_string : Value → Bytes → Bytes × Bool
decode_string null old = (old, true)
decode_string (bool b) old = (old, false)
decode_string (number w) old = (old, false)
decode_string (text t) old = (t, true)
decode_string (array vs) old = (old, false)
decode_string (object ms) old = (old, false)

module _ {S : Type 0} (decode_field : Bytes → Value → S → S × Bool) where
  unfoldable pub decode_members : Members → S → S × Bool
  decode_members no_members s = (s, true)
  decode_members (member key v ms) s =
      let (s1, fine) = decode_field key v s in
      let (s2, fine') = decode_members ms s1 in (s2, fine && fine')

  unfoldable pub decode_struct : Value → S → S × Bool
  unfolding decode_members
  decode_struct null s = (s, true)
  decode_struct (bool b) s = (s, false)
  decode_struct (number w) s = (s, false)
  decode_struct (text t) s = (s, false)
  decode_struct (array vs) s = (s, false)
  decode_struct (object ms) s = decode_members ms s

-- Unmarshal: nothing of the struct is used after an error.
module _ {S : Type 0} (decode_field : Bytes → Value → S → S × Bool) where
  unfoldable pub unmarshal : Bytes → S → Option S
  unfolding parse decode_struct
  unmarshal raw zero_value = elim (parse raw) [
    | none ↦ none
    | some v ↦
        let (s, fine) = decode_struct decode_field v zero_value in if fine then some s else none
  ]

-- A slice: the array behind it, as far as it has been written, and its length.
pub record Slice (S : Type 0) : Type 0 where
  pub cells : List S
  pub len : ℕ

abbrev pub nil_slice : {S : Type 0} → Slice S
nil_slice = record { cells = []; len = 0 }

abbrev pub first : {S : Type 0} → ℕ → List S → List S
first n [] = []
first zero (s ∷ cells) = []
first (suc n) (s ∷ cells) = s ∷ first n cells

abbrev pub elements : {S : Type 0} → Slice S → List S
elements s = first s.len s.cells

abbrev pub count : Values → ℕ
count no_values = 0
count (value v vs) = suc (count vs)

module _ {S : Type 0} (decode_element : Value → S → S × Bool) (zero_value : S) where
  -- The array is used again, so what an element does not mention is what was in its cell.
  unfoldable pub decode_values : Values → List S → List S × Bool
  decode_values no_values cells = (cells, true)
  decode_values (value v vs) [] =
      let (s, fine) = decode_element v zero_value in
      let (rest, fine') = decode_values vs [] in (s ∷ rest, fine && fine')
  decode_values (value v vs) (c ∷ cells) =
      let (s, fine) = decode_element v c in
      let (rest, fine') = decode_values vs cells in (s ∷ rest, fine && fine')

  unfoldable pub decode_slice : Value → Slice S → Slice S × Bool
  unfolding decode_values
  decode_slice null old = (nil_slice, true)
  decode_slice (bool b) old = (old, false)
  decode_slice (number w) old = (old, false)
  decode_slice (text t) old = (old, false)
  decode_slice (array no_values) old = (nil_slice, true)
  decode_slice (array (value v vs)) old =
      let (cells, fine) = decode_values (value v vs) old.cells in
      (record { cells = cells; len = suc (count vs) }, fine)
  decode_slice (object ms) old = (old, false)

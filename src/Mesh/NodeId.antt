-- ===== src/Mesh/NodeId.antt =====
-- node_num_to_id and parse_node_id of src/mesh/node_db.h. `std::stoul` is the C++ library's, `unsigned long`
-- having 64 bits.
pub mod RoundTrip
use fmesh_cli.Common.{
  ℕ, zero, suc, ◌+◌, ◌-◌, ◌*◌, ◌/◌, ◌%◌, ◌^◌, Bool, true, false, ◌&&◌, ◌||◌, List, [], ◌∷◌, Option,
  none, some, Bytes, length, take, drop, get_or, ltb, leb, ◌==◌, if◌then◌else◌,
}
use fmesh_cli.App.Config.Atoi.{is_space}

unfoldable pub hex_digit : ℕ → ℕ
hex_digit d = if ltb d 10 then b'0' + d else b'a' + (d - 10)

-- The last `k` hexadecimal digits of `n`, before `acc`.
unfoldable pub hex_from : ℕ → ℕ → Bytes → Bytes
unfolding hex_digit
hex_from zero n acc = acc
hex_from (suc k) n acc = hex_from k (n / 16) (hex_digit (n % 16) ∷ acc)

-- "!%08x" of a number of 32 bits.
unfoldable pub node_num_to_id : ℕ → Bytes
unfolding hex_from
node_num_to_id num = b'!' ∷ hex_from 8 num []

-- The value of a digit in any base up to 16.
unfoldable pub digit_of : ℕ → Option ℕ
digit_of c =
    if leb b'0' c && leb c b'9'
    then some (c - b'0')
    else if leb b'a' c && leb c b'f'
    then some (c - b'a' + 10)
    else if leb b'A' c && leb c b'F'
    then some (c - b'A' + 10)
    else none

-- Below the base.
unfoldable pub in_base : ℕ → Option ℕ → Option ℕ
in_base base none = none
in_base base (some d) = if ltb d base then some d else none

-- The digits at the front, after the value of those already read.
unfoldable pub number_from : ℕ → ℕ → Bytes → ℕ
unfolding digit_of in_base
number_from base n [] = n
number_from base n (c ∷ cs) = elim (in_base base (digit_of c)) [
  | none ↦ n
  | some d ↦ number_from base (n * base + d) cs
]

-- A number without sign: the digits, one at least, and in base 16 "0x" before them.
unfoldable pub magnitude : ℕ → Bytes → Option ℕ
unfolding number_from
magnitude base [] = none
magnitude base (c ∷ cs) =
    let prefixed =
      (base == 16
        && (c == b'0'
            && ((get_or cs 0 0 == b'x' || get_or cs 0 0 == b'X')
                && (elim (digit_of (get_or cs 1 0)) [ none ↦ false | some d ↦ true ])))) in
    if prefixed
    then some (number_from base 0 (drop 1 cs))
    else elim (in_base base (digit_of c)) [ none ↦ none | some d ↦ some (number_from base d cs) ]

-- Out of the range of `unsigned long` it throws; a minus sign negates within that range.
unfoldable pub ranged : Bool → Option ℕ → Option ℕ
ranged negative none = none
ranged negative (some n) =
    if leb (2 ^ 64) n then none else some (if negative then (2 ^ 64 - n) % 2 ^ 64 else n)

-- `none` is an exception.
unfoldable pub stoul : ℕ → Bytes → Option ℕ
unfolding magnitude ranged
stoul base [] = none
stoul base (c ∷ cs) = elim (is_space c) [
  | true ↦ stoul base cs
  | false ↦
      (if c == b'-'
        then ranged true (magnitude base cs)
        else if c == b'+'
        then ranged false (magnitude base cs)
        else ranged false (magnitude base (c ∷ cs)))
]

-- static_cast<uint32_t>
unfoldable pub to_uint32 : Option ℕ → Option ℕ
to_uint32 none = none
to_uint32 (some n) = some (n % 2 ^ 32)

-- `none` is the result `false`.
unfoldable pub parse_node_id : Bytes → Option ℕ
unfolding stoul to_uint32
parse_node_id [] = none
parse_node_id (c ∷ cs) =
    if c == b'!'
    then (if ltb (length (c ∷ cs)) 9 then none else to_uint32 (stoul 16 (take 8 cs)))
    else if leb 2 (length (c ∷ cs))
        && (c == b'0' && (get_or cs 0 0 == b'x' || get_or cs 0 0 == b'X'))
    then to_uint32 (stoul 16 (drop 1 cs))
    else to_uint32 (stoul 10 (c ∷ cs))

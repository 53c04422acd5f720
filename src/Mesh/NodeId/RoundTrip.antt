-- ===== src/Mesh/NodeId/RoundTrip.antt =====
-- The text of a node number is read back.
use fmesh_cli.Common.{
  ℕ, ◌+◌, ◌*◌, ◌/◌, ◌%◌, ◌^◌, ◌<◌, ◌≡◌, refl, ap, ◌∙◌, false, [], ◌∷◌, some, Bytes, ◌==◌, arith,
  lt→leb_false,
}
use fmesh_cli.App.Config.Atoi.{is_space}
use fmesh_cli.Mesh.NodeId.{
  hex_digit, hex_from, node_num_to_id, digit_of, in_base, number_from, magnitude, ranged, stoul,
  to_uint32, parse_node_id,
}

digit_back : (d : ℕ) → d < 16 → in_base 16 (digit_of (hex_digit d)) ≡ some d
unfolding hex_digit digit_of in_base
digit_back d h = ground arith

-- What a digit is not.
digit_plain :
    (d : ℕ)
    → d < 16
    → (is_space (hex_digit d) ≡ false)
      × ((hex_digit d == b'-') ≡ false)
      × ((hex_digit d == b'+') ≡ false)
      × ((hex_digit d == b'x') ≡ false)
      × ((hex_digit d == b'X') ≡ false)
unfolding hex_digit
digit_plain d h = ground arith

number_step :
    (v d : ℕ) (acc : Bytes)
    → d < 16
    → number_from 16 v (hex_digit d ∷ acc) ≡ number_from 16 (v * 16 + d) acc
unfolding number_from
number_step v d acc h = rw (number_from, digit_back d h) refl

magnitude_hex :
    (d e : ℕ) (rest : Bytes)
    → d < 16
    → e < 16
    → magnitude 16 (hex_digit d ∷ hex_digit e ∷ rest) ≡ some (number_from 16 d (hex_digit e ∷ rest))
unfolding magnitude
magnitude_hex d e rest hd he = ground (arith, digit_back d hd, digit_plain e he)

stoul_hex :
    (d e : ℕ) (rest : Bytes) (n : ℕ)
    → d < 16
    → e < 16
    → number_from 16 d (hex_digit e ∷ rest) ≡ n
    → n < 2 ^ 64
    → stoul 16 (hex_digit d ∷ hex_digit e ∷ rest) ≡ some n
unfolding stoul ranged
stoul_hex d e rest n hd he hn hr =
    let (space, minus, plus, lower, upper) = digit_plain d hd in
    rw (stoul, space, minus, plus, magnitude_hex d e rest hd he, hn, lt→leb_false (2 ^ 64) n hr)
      refl

-- Eight digits are the number.
digits_number :
    (num : ℕ)
    → num < 2 ^ 32
    → number_from 16
        (num / 16 / 16 / 16 / 16 / 16 / 16 / 16 % 16)
        (hex_digit (num / 16 / 16 / 16 / 16 / 16 / 16 % 16) ∷ hex_from 6 num [])
      ≡ num
unfolding hex_from number_from
digits_number num h =
    number_step (num / 16 / 16 / 16 / 16 / 16 / 16 / 16 % 16)
      (num / 16 / 16 / 16 / 16 / 16 / 16 % 16)
      (hex_digit (num / 16 / 16 / 16 / 16 / 16 % 16)
        ∷ hex_digit (num / 16 / 16 / 16 / 16 % 16)
        ∷ hex_digit (num / 16 / 16 / 16 % 16)
        ∷ hex_digit (num / 16 / 16 % 16)
        ∷ hex_digit (num / 16 % 16)
        ∷ hex_digit (num % 16)
        ∷ [])
      (omega arith)
    ∙ number_step
        ((num / 16 / 16 / 16 / 16 / 16 / 16 / 16 % 16) * 16
          + num / 16 / 16 / 16 / 16 / 16 / 16 % 16)
        (num / 16 / 16 / 16 / 16 / 16 % 16)
        (hex_digit (num / 16 / 16 / 16 / 16 % 16)
          ∷ hex_digit (num / 16 / 16 / 16 % 16)
          ∷ hex_digit (num / 16 / 16 % 16)
          ∷ hex_digit (num / 16 % 16)
          ∷ hex_digit (num % 16)
          ∷ [])
        (omega arith)
    ∙ number_step
        (((num / 16 / 16 / 16 / 16 / 16 / 16 / 16 % 16) * 16
              + num / 16 / 16 / 16 / 16 / 16 / 16 % 16)
            * 16
          + num / 16 / 16 / 16 / 16 / 16 % 16)
        (num / 16 / 16 / 16 / 16 % 16)
        (hex_digit (num / 16 / 16 / 16 % 16)
          ∷ hex_digit (num / 16 / 16 % 16)
          ∷ hex_digit (num / 16 % 16)
          ∷ hex_digit (num % 16)
          ∷ [])
        (omega arith)
    ∙ number_step
        ((((num / 16 / 16 / 16 / 16 / 16 / 16 / 16 % 16) * 16
                  + num / 16 / 16 / 16 / 16 / 16 / 16 % 16)
                * 16
              + num / 16 / 16 / 16 / 16 / 16 % 16)
            * 16
          + num / 16 / 16 / 16 / 16 % 16)
        (num / 16 / 16 / 16 % 16)
        (hex_digit (num / 16 / 16 % 16) ∷ hex_digit (num / 16 % 16) ∷ hex_digit (num % 16) ∷ [])
        (omega arith)
    ∙ number_step
        (((((num / 16 / 16 / 16 / 16 / 16 / 16 / 16 % 16) * 16
                      + num / 16 / 16 / 16 / 16 / 16 / 16 % 16)
                    * 16
                  + num / 16 / 16 / 16 / 16 / 16 % 16)
                * 16
              + num / 16 / 16 / 16 / 16 % 16)
            * 16
          + num / 16 / 16 / 16 % 16)
        (num / 16 / 16 % 16) (hex_digit (num / 16 % 16) ∷ hex_digit (num % 16) ∷ []) (omega arith)
    ∙ number_step
        ((((((num / 16 / 16 / 16 / 16 / 16 / 16 / 16 % 16) * 16
                          + num / 16 / 16 / 16 / 16 / 16 / 16 % 16)
                        * 16
                      + num / 16 / 16 / 16 / 16 / 16 % 16)
                    * 16
                  + num / 16 / 16 / 16 / 16 % 16)
                * 16
              + num / 16 / 16 / 16 % 16)
            * 16
          + num / 16 / 16 % 16)
        (num / 16 % 16) (hex_digit (num % 16) ∷ []) (omega arith)
    ∙ number_step
        (((((((num / 16 / 16 / 16 / 16 / 16 / 16 / 16 % 16) * 16
                              + num / 16 / 16 / 16 / 16 / 16 / 16 % 16)
                            * 16
                          + num / 16 / 16 / 16 / 16 / 16 % 16)
                        * 16
                      + num / 16 / 16 / 16 / 16 % 16)
                    * 16
                  + num / 16 / 16 / 16 % 16)
                * 16
              + num / 16 / 16 % 16)
            * 16
          + num / 16 % 16)
        (num % 16) [] (omega arith)
    ∙ value
  where
    value :
        (((((((num / 16 / 16 / 16 / 16 / 16 / 16 / 16 % 16) * 16
                                  + num / 16 / 16 / 16 / 16 / 16 / 16 % 16)
                                * 16
                              + num / 16 / 16 / 16 / 16 / 16 % 16)
                            * 16
                          + num / 16 / 16 / 16 / 16 % 16)
                        * 16
                      + num / 16 / 16 / 16 % 16)
                    * 16
                  + num / 16 / 16 % 16)
                * 16
              + num / 16 % 16)
            * 16
          + num % 16
        ≡ num
    value = omega (arith, h)

-- A node number of 32 bits is read back from its text.
pub parse_node_id-node_num_to_id :
    (num : ℕ) → num < 2 ^ 32 → parse_node_id (node_num_to_id num) ≡ some num
unfolding parse_node_id node_num_to_id hex_from to_uint32
parse_node_id-node_num_to_id num h =
    rw
      (stoul_hex (num / 16 / 16 / 16 / 16 / 16 / 16 / 16 % 16)
        (num / 16 / 16 / 16 / 16 / 16 / 16 % 16) (hex_from 6 num []) num (omega arith) (omega arith)
        (digits_number num h) (omega (arith, h)))
      (ap some (omega (arith, h)))

-- ===== src/Hex/Tests.antt =====
-- Examples for the hexadecimal conversions of src/enclave/utils/EUtils.cpp.
use crust_sworker.Prelude.{
  ℕ, ◌*◌, ◌≡◌, refl, List, [], ◌∷◌, some, true, arith, AreBytes, length, map,
}
use crust_sworker.Prelude.Text.{Text, codes}
use crust_sworker.Hex.{is_hex_digit, hexstring_safe, hex_string_to_bytes}
use crust_sworker.Hex.Codec.{
  AreHexDigits, to_lower, hex_string_to_bytes-hexstring_safe, hexstring_safe-hex_string_to_bytes,
}

abbrev some_bytes : List ℕ
some_bytes = 0 ∷ 31 ∷ 255 ∷ []

abbrev some_hex : Text
some_hex = codes "00A1fF"

some_bytes-AreBytes : AreBytes some_bytes
some_bytes-AreBytes = ground arith

some_hex-AreHexDigits : AreHexDigits some_hex
unfolding is_hex_digit
some_hex-AreHexDigits = ground arith

hex_of_bytes : hexstring_safe true some_bytes ≡ codes "001fff"
unfolding hexstring_safe
hex_of_bytes = refl

bytes_of_bad_digit : hex_string_to_bytes true (codes "g1") ≡ some (1 ∷ [])
unfolding hex_string_to_bytes
bytes_of_bad_digit = refl

hex_string_to_bytes-hexstring_safe_example :
    hex_string_to_bytes true (hexstring_safe true some_bytes) ≡ some some_bytes
hex_string_to_bytes-hexstring_safe_example =
    hex_string_to_bytes-hexstring_safe some_bytes (omega arith) some_bytes-AreBytes

hexstring_safe-hex_string_to_bytes_example :
    (bs : List ℕ) × (hex_string_to_bytes true some_hex ≡ some bs)
    × (2 * length bs ≡ length some_hex)
    × (hexstring_safe true bs ≡ map to_lower some_hex)
hexstring_safe-hex_string_to_bytes_example =
    hexstring_safe-hex_string_to_bytes some_hex (omega arith) refl some_hex-AreHexDigits

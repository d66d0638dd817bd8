-- ===== src/Hex.antt =====
-- src/enclave/utils/EUtils.cpp: bytes as hexadecimal text, and back. A byte and a `char` are numbers
-- below 256; a `char` from 128 on is negative in C and is no digit in either reading. The Boolean
-- `alloc` says whether the `enc_malloc` of the function gave a buffer.
pub mod Codec
mod Tests
use crust_sworker.Prelude.{
  ℕ, ◌+◌, ◌-◌, ◌*◌, ◌/◌, ◌%◌, Bool, true, false, ◌&&◌, ◌||◌, Option, none, some, List, [], ◌∷◌,
  ◌++◌, ltb, leb, ◌==◌, if◌then◌else◌, length,
}
use crust_sworker.Prelude.Text.{Text, codes}

-- `char_to_int`: a character that is no hexadecimal digit counts as 0.
unfoldable pub char_to_int : ℕ → ℕ
char_to_int c =
    if leb b'0' c && leb c b'9'
    then c - b'0'
    else (if leb b'A' c && leb c b'F'
        then c - b'A' + 10
        else (if leb b'a' c && leb c b'f' then c - b'a' + 10 else 0))

-- `_hextable[n]`, for n below 16.
unfoldable pub hextable : ℕ → ℕ
hextable n = if ltb n 10 then b'0' + n else b'a' + (n - 10)

-- The loop of `hexstring_safe`: `src[i] >> 4`, then `src[i] & 0xf`.
unfoldable pub hex_digits : List ℕ → Text
unfolding hextable
hex_digits [] = []
hex_digits (b ∷ bs) = hextable (b / 16) ∷ hextable (b % 16) ∷ hex_digits bs

-- `hexstring_safe`: without a buffer the text is empty.
unfoldable pub hexstring_safe : Bool → List ℕ → Text
unfolding hex_digits
hexstring_safe alloc src = if alloc then hex_digits src else []

-- `byte_vec_to_string`
unfoldable pub byte_vec_to_string : Bool → List ℕ → Text
unfolding hexstring_safe
byte_vec_to_string alloc bytes = hexstring_safe alloc bytes

-- The loop of `hex_string_to_bytes`, two characters at a time. A byte is `(uint8_t)` of the sum.
unfoldable pub pair_digits : Text → List ℕ
unfolding char_to_int
pair_digits [] = []
pair_digits (a ∷ []) = []
pair_digits (a ∷ b ∷ r) = (char_to_int a * 16 + char_to_int b) % 256 ∷ pair_digits r

-- `hex_string_to_bytes` on the whole of `src`; `none` is NULL.
unfoldable pub hex_string_to_bytes : Bool → Text → Option (List ℕ)
unfolding pair_digits
hex_string_to_bytes alloc src =
    if (length src % 2 == 1) || (length src == 0)
    then none
    else (if alloc then some (pair_digits src) else none)

-- `unsigned_char_to_hex`, on one half of the byte: the two halves are computed alike.
unfoldable pub half_to_hex : ℕ → ℕ
half_to_hex n = if ltb n 10 then n + b'0' else n - 10 + b'a'

-- `unsigned_char_to_hex`
unfoldable pub unsigned_char_to_hex : ℕ → ℕ × ℕ
unfolding half_to_hex
unsigned_char_to_hex c = (half_to_hex (c / 16), half_to_hex (c % 16))

-- The loop of `unsigned_char_array_to_hex_string`, which fills `result` from `now_pos` on.
unfoldable pub fill_hex : List ℕ → Text → Text
unfolding unsigned_char_to_hex
fill_hex [] result = result
fill_hex (c ∷ cs) result =
    let (hi, lo) = unsigned_char_to_hex c in fill_hex cs (result ++ (hi ∷ lo ∷ []))

-- `unsigned_char_array_to_hex_string`: `new` throws, it gives no NULL.
unfoldable pub unsigned_char_array_to_hex_string : List ℕ → Text
unfolding fill_hex
unsigned_char_array_to_hex_string bytes = fill_hex bytes []

-- Both cases of a hexadecimal digit's character.
unfoldable pub is_hex_digit : ℕ → Bool
is_hex_digit c =
    (leb b'0' c && leb c b'9') || (leb b'A' c && leb c b'F') || (leb b'a' c && leb c b'f')

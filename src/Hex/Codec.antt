-- ===== src/Hex/Codec.antt =====
-- Hexadecimal text and bytes, there and back (src/enclave/utils/EUtils.cpp).
use crust_sworker.Prelude.{
  ℕ, ◌+◌, ◌*◌, ◌/◌, ◌%◌, ◌<◌, ◌≡◌, refl, sym, ap, ap₂, ◌∙◌, Bool, Bool-cases, ◌==◌, true, false,
  ◌&&◌, none, map, append-nil, leb, inl, inr, ◌⊎◌, if◌then◌else◌, some, List, [], ◌∷◌, ◌++◌,
  append_assoc, arith, length, All, AreBytes,
}
use crust_sworker.Prelude.Text.{Text}
use crust_sworker.Hex.{
  char_to_int, hextable, hex_digits, hexstring_safe, pair_digits, hex_string_to_bytes, half_to_hex,
  fill_hex, unsigned_char_array_to_hex_string, unsigned_char_to_hex, is_hex_digit,
}

char_to_int-hextable : (n : ℕ) → n < 16 → char_to_int (hextable n) ≡ n
unfolding char_to_int hextable
char_to_int-hextable n h = ground arith

length-hex_digits : (bs : List ℕ) → length (hex_digits bs) ≡ 2 * length bs
unfolding hex_digits
length-hex_digits [] = omega arith
length-hex_digits (b ∷ bs) = omega (arith, length-hex_digits bs)

pub length-hexstring_safe : (bs : List ℕ) → length (hexstring_safe true bs) ≡ 2 * length bs
unfolding hexstring_safe
length-hexstring_safe bs = length-hex_digits bs

pair_digits-hex_digits : (bs : List ℕ) → AreBytes bs → pair_digits (hex_digits bs) ≡ bs
unfolding pair_digits hex_digits
pair_digits-hex_digits [] h = refl
pair_digits-hex_digits (b ∷ bs) h =
    ap₂ ◌∷◌ (omega (arith, char_to_int-hextable (b / 16), char_to_int-hextable (b % 16)))
      (pair_digits-hex_digits bs h.1)

-- Printing a non-empty byte array in hexadecimal and reading it back gives the array, where both
-- allocations succeed.
pub hex_string_to_bytes-hexstring_safe :
    (bs : List ℕ)
    → 0 < length bs
    → AreBytes bs
    → hex_string_to_bytes true (hexstring_safe true bs) ≡ some bs
unfolding hex_string_to_bytes hexstring_safe
hex_string_to_bytes-hexstring_safe bs n h =
    ground (arith, length-hex_digits bs, pair_digits-hex_digits bs h)

length-pair_digits : (s : Text) → length (pair_digits s) ≡ length s / 2
unfolding pair_digits
length-pair_digits [] = omega arith
length-pair_digits (a ∷ []) = omega arith
length-pair_digits (a ∷ b ∷ r) = omega (arith, length-pair_digits r)

half_to_hex-hextable : (n : ℕ) → n < 16 → half_to_hex n ≡ hextable n
unfolding half_to_hex hextable
half_to_hex-hextable n h = ground arith

fill_hex-append : (bs : List ℕ) (out : Text) → AreBytes bs → fill_hex bs out ≡ out ++ hex_digits bs
unfolding fill_hex hex_digits unsigned_char_to_hex
fill_hex-append [] out h = sym (append-nil out)
fill_hex-append (b ∷ bs) out h =
    rw (fill_hex-append bs _ h.1, append_assoc out _ (hex_digits bs))
      (ap₂ (λ hi lo. out ++ hi ∷ lo ∷ hex_digits bs) (half_to_hex-hextable (b / 16) (omega arith))
        (half_to_hex-hextable (b % 16) (omega arith)))

-- The two printers of the enclave agree on every byte array, where the buffer of `hexstring_safe` is
-- given.
pub unsigned_char_array_to_hex_string-eq-hexstring_safe :
    (bs : List ℕ) → AreBytes bs → unsigned_char_array_to_hex_string bs ≡ hexstring_safe true bs
unfolding unsigned_char_array_to_hex_string hexstring_safe
unsigned_char_array_to_hex_string-eq-hexstring_safe bs h = fill_hex-append bs [] h

-- What reading and printing again makes of a digit.
unfoldable pub to_lower : ℕ → ℕ
to_lower c = if leb b'A' c && leb c b'F' then c + 32 else c

abbrev pub AreHexDigits : Text → Type 0
AreHexDigits = All (λ c. is_hex_digit c ≡ true)

hextable-char_to_int : (c : ℕ) → is_hex_digit c ≡ true → hextable (char_to_int c) ≡ to_lower c
unfolding hextable char_to_int is_hex_digit to_lower
hextable-char_to_int c h = ground arith

char_to_int_bound : (c : ℕ) → char_to_int c < 16
unfolding char_to_int
char_to_int_bound c = ground arith

hex_digits-pair_digits :
    (s : Text) → length s % 2 ≡ 0 → AreHexDigits s → hex_digits (pair_digits s) ≡ map to_lower s
unfolding hex_digits pair_digits
hex_digits-pair_digits [] e h = refl
hex_digits-pair_digits (a ∷ []) e h = absurd (omega arith)
hex_digits-pair_digits (a ∷ b ∷ r) e (ha, (hb, hr)) =
    let hi : (char_to_int a * 16 + char_to_int b) % 256 / 16 ≡ char_to_int a =
      omega (arith, char_to_int_bound a, char_to_int_bound b) in
    let lo : (char_to_int a * 16 + char_to_int b) % 256 % 16 ≡ char_to_int b =
      omega (arith, char_to_int_bound a, char_to_int_bound b) in
    ap₂ ◌∷◌ (ap hextable hi ∙ hextable-char_to_int a ha) (
      ap₂ ◌∷◌ (ap hextable lo ∙ hextable-char_to_int b hb)
        (hex_digits-pair_digits r (omega arith) hr))

-- Reading a text of hexadecimal digits, of even length and not empty, gives half as many bytes, and
-- printing these gives the text back in lower case.
pub hexstring_safe-hex_string_to_bytes :
    (s : Text)
    → 0 < length s
    → length s % 2 ≡ 0
    → AreHexDigits s
    → (bs : List ℕ) × (hex_string_to_bytes true s ≡ some bs)
      × (2 * length bs ≡ length s)
      × (hexstring_safe true bs ≡ map to_lower s)
unfolding hex_string_to_bytes hexstring_safe
hexstring_safe-hex_string_to_bytes s n e h =
    (pair_digits s, ground arith, omega (arith, length-pair_digits s), hex_digits-pair_digits s e h)

-- `hex_string_to_bytes` gives NULL exactly on a text of odd length, on the empty text and where there
-- is no memory; otherwise it gives one byte for two characters, whatever the characters are.
pub hex_string_to_bytes_total :
    (alloc : Bool) (s : Text)
    → ((hex_string_to_bytes alloc s ≡ none)
        × ((length s % 2 ≡ 1) ⊎ ((length s ≡ 0) ⊎ (alloc ≡ false))))
      ⊎ ((bs : List ℕ) × (hex_string_to_bytes alloc s ≡ some bs)
          × (length s % 2 ≡ 0)
          × (0 < length s)
          × (alloc ≡ true)
          × (2 * length bs ≡ length s))
unfolding hex_string_to_bytes
hex_string_to_bytes_total alloc s = elim (Bool-cases (length s % 2 == 1)) [
  | inl odd ↦ inl (rw odd, inl (ground arith))
  | inr even ↦ elim (Bool-cases (length s == 0)) [
    | inl empty ↦ inl (rw (even, empty), inr (inl (ground arith)))
    | inr full ↦ by_alloc alloc even full
  ]
]
  where
    by_alloc :
        (got : Bool)
        → (length s % 2 == 1) ≡ false
        → (length s == 0) ≡ false
        → ((hex_string_to_bytes got s ≡ none)
            × ((length s % 2 ≡ 1) ⊎ ((length s ≡ 0) ⊎ (got ≡ false))))
          ⊎ ((bs : List ℕ) × (hex_string_to_bytes got s ≡ some bs)
              × (length s % 2 ≡ 0)
              × (0 < length s)
              × (got ≡ true)
              × (2 * length bs ≡ length s))
    by_alloc false even full = inl (rw (even, full), inr (inr refl))
    by_alloc true even full = inr (
      pair_digits s,
      rw (even, full),
      ground arith,
      ground arith,
      refl,
      ground (arith, length-pair_digits s),
    )

-- ===== src/GoText/Hex.antt =====
-- hex.EncodeToString.
use socialpublish.Prelude.{
  ℕ, ◌+◌, ◌-◌, ◌/◌, ◌%◌, ◌<◌, ◌≡◌, ◌≢◌, refl, [], ◌∷◌, arith, Bytes, ltb, if◌then◌else◌, All,
}
use socialpublish.GoText.Split.{Lacks}

hex_digit : ℕ → ℕ
hex_digit d = if ltb d 10 then b'0' + d else b'a' + (d - 10)

unfoldable pub hex_encode : Bytes → Bytes
unfolding hex_digit
hex_encode [] = []
hex_encode (b ∷ bs) = hex_digit (b / 16) ∷ hex_digit (b % 16) ∷ hex_encode bs

abbrev pub IsByte : ℕ → Type 0
IsByte b = b < 256

hex_digit-ne-comma : (d : ℕ) → hex_digit d ≢ b','
unfolding hex_digit
hex_digit-ne-comma d = ground arith

pub hex_encode-Lacks_comma : (bs : Bytes) → Lacks b',' (hex_encode bs)
unfolding hex_encode
hex_encode-Lacks_comma [] = tt
hex_encode-Lacks_comma (b ∷ bs) =
    (hex_digit-ne-comma (b / 16), (hex_digit-ne-comma (b % 16), hex_encode-Lacks_comma bs))

pub hex_encode-ne-nil : (bs : Bytes) → bs ≢ [] → hex_encode bs ≢ []
unfolding hex_encode
hex_encode-ne-nil [] n = absurd (n refl)
hex_encode-ne-nil (b ∷ bs) n = cc

hex_digit-injective : (a b : ℕ) → a < 16 → b < 16 → hex_digit a ≡ hex_digit b → a ≡ b
unfolding hex_digit
hex_digit-injective a b h k e = ground arith

-- Two texts of bytes with one encoding are equal.
pub hex_encode-injective :
    (s t : Bytes) → All IsByte s → All IsByte t → hex_encode s ≡ hex_encode t → s ≡ t
unfolding hex_encode
hex_encode-injective [] [] h k e = refl
hex_encode-injective [] (b ∷ t) h k e = cc
hex_encode-injective (a ∷ s) [] h k e = cc
hex_encode-injective (a ∷ s) (b ∷ t) (h, hs) (k, ks) e = ground (
  arith,
  hex_digit-injective (a / 16) (b / 16),
  hex_digit-injective (a % 16) (b % 16),
  hex_encode-injective s t hs ks,
)

-- ===== src/GoText/Print/Codes.antt =====
-- The decimal texts of GoText/Print.antt have the bytes of those of GoText/Decimal.antt.
use Prim.Native.String
use Prim.Native.String.append
use Prim.Native.Char.{code}
use socialpublish.Prelude.{
  ℕ, zero, suc, ◌+◌, ◌/◌, ◌%◌, ◌<◌, String, ◌∷◌, [], ◌++◌, append_assoc, append-nil, codes, Bytes,
  ℤ, pos, negsuc, ◌≡◌, refl, ◌∙◌, ap, sym, Bool-cases, inl, inr, ltb, arith,
}
use socialpublish.GoText.Decimal.{emit, format_uint, format_int}
use socialpublish.GoText.Print.{digit_text, decimal_text, itoa, strconv_itoa}

codes-append : (s t : String) → codes (String.◌++◌ s t) ≡ codes s ++ codes t
codes-append String.[] t = ap codes (append.nil t)
codes-append (String.◌∷◌ c s) t =
    ap codes (append.cons c s t) ∙ ap (λ (l : Bytes). code c ∷ l) (codes-append s t)

codes-digit_text : (d : ℕ) → d < 10 → codes (digit_text d) ≡ (b'0' + d) ∷ []
unfolding digit_text
codes-digit_text zero h = refl
codes-digit_text (suc zero) h = refl
codes-digit_text (suc (suc zero)) h = refl
codes-digit_text (suc (suc (suc zero))) h = refl
codes-digit_text (suc (suc (suc (suc zero)))) h = refl
codes-digit_text (suc (suc (suc (suc (suc zero))))) h = refl
codes-digit_text (suc (suc (suc (suc (suc (suc zero)))))) h = refl
codes-digit_text (suc (suc (suc (suc (suc (suc (suc zero))))))) h = refl
codes-digit_text (suc (suc (suc (suc (suc (suc (suc (suc zero)))))))) h = refl
codes-digit_text (suc (suc (suc (suc (suc (suc (suc (suc (suc zero))))))))) h = refl
codes-digit_text (suc (suc (suc (suc (suc (suc (suc (suc (suc (suc n)))))))))) h =
    absurd (omega arith)

-- Both loops divide by ten, the one with the digits behind it.
emit-codes : (f n : ℕ) (out : Bytes) → emit f n out ≡ codes (decimal_text f n) ++ out
unfolding emit decimal_text
emit-codes zero n out = refl
emit-codes (suc f) n out = elim (Bool-cases (ltb n 10)) [
  | inl small ↦ rw (small, codes-digit_text n (ground arith)) refl
  | inr large ↦
      rw
        (
          large,
          emit-codes f (n / 10) ((b'0' + n % 10) ∷ out),
          codes-append (decimal_text f (n / 10)) (digit_text (n % 10)),
          codes-digit_text (n % 10) (omega arith),
          append_assoc (codes (decimal_text f (n / 10))) ((b'0' + n % 10) ∷ []) out,
        )
        refl
]

codes-itoa : (n : ℕ) → codes (itoa n) ≡ format_uint n
unfolding itoa format_uint
codes-itoa n = sym (emit-codes (suc n) n [] ∙ append-nil _)

pub codes-strconv_itoa : (z : ℤ) → codes (strconv_itoa z) ≡ format_int z
unfolding strconv_itoa format_int
codes-strconv_itoa (pos n) = codes-itoa n
codes-strconv_itoa (negsuc n) =
    codes-append "-" (itoa (suc n)) ∙ ap (λ l. b'-' ∷ l) (codes-itoa (suc n))

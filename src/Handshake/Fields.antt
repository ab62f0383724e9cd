-- ===== src/Handshake/Fields.antt =====
-- The fields of the two messages, and the comparison of the hashes.
use nicenet.Common.{
  ℕ, zero, suc, ◌*◌, ◌≡◌, refl, sym, ap, ◌∙◌, arith, true, [], ◌∷◌, ◌++◌, length, take, drop,
  length-take, length-drop, take-append, drop-append, take-append-drop, take_all, All, All-take,
  All-drop, Bytes, IsByte, of_le, le_bytes, le_bytes-of_le,
}
use nicenet.Handshake.{part, same_words}

pub part-append :
    (i n : ℕ) (xs ys zs : Bytes) → i ≡ length xs → n ≡ length ys → part i n (xs ++ (ys ++ zs)) ≡ ys
part-append i n xs ys zs hi hn =
    ap (take n) (drop-append i xs (ys ++ zs) hi) ∙ take-append n ys zs hn

pub part_last : (i n : ℕ) (xs ys : Bytes) → i ≡ length xs → n ≡ length ys → part i n (xs ++ ys) ≡ ys
part_last i n xs ys hi hn = ap (take n) (drop-append i xs ys hi) ∙ take_all n ys (omega arith)

pub same_words_self : (n : ℕ) (a : Bytes) → same_words n a a ≡ true
unfolding same_words
same_words_self zero a = refl
same_words_self (suc n) a = ground (arith, same_words_self n (drop 8 a))

of_le_injective :
    (a b : Bytes) → All IsByte a → All IsByte b → length a ≡ length b → of_le a ≡ of_le b → a ≡ b
of_le_injective a b ha hb hl e =
    sym (le_bytes-of_le a ha)
    ∙ ap (λ (n : ℕ). le_bytes n (of_le a)) hl
    ∙ ap (le_bytes (length b)) e
    ∙ le_bytes-of_le b hb

-- Comparing the words is comparing the bytes.
pub same_words_bytes :
    (n : ℕ) (a b : Bytes)
    → All IsByte a
    → All IsByte b
    → length a ≡ 8 * n
    → length b ≡ 8 * n
    → same_words n a b ≡ true
    → a ≡ b
unfolding same_words
same_words_bytes zero [] [] ha hb la lb e = refl
same_words_bytes zero (x ∷ a) b ha hb la lb e = absurd (omega (arith, la))
same_words_bytes zero [] (y ∷ b) ha hb la lb e = absurd (omega (arith, lb))
same_words_bytes (suc n) a b ha hb la lb e =
    let rest =
      same_words_bytes n (drop 8 a) (drop 8 b) (All-drop IsByte 8 a ha) (All-drop IsByte 8 b hb)
        (omega (arith, length-drop 8 a)) (omega (arith, length-drop 8 b)) (ground (arith, e)) in
    let first =
      of_le_injective (take 8 a) (take 8 b) (All-take IsByte 8 a ha) (All-take IsByte 8 b hb)
        (omega (arith, length-take 8 a, length-take 8 b)) (ground (arith, e)) in
    sym (take-append-drop 8 a)
    ∙ ap (λ (t : Bytes). t ++ drop 8 a) first
    ∙ ap (◌++◌ (take 8 b)) rest
    ∙ take-append-drop 8 b

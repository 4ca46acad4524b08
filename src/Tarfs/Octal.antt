-- ===== src/Tarfs/Octal.antt =====
-- The sizes of an archive's entries: octal numbers.
use myos.Base.{
  ℕ, zero, suc, ◌+◌, ◌*◌, ◌/◌, ◌%◌, ◌^◌, ◌≤◌, ◌<◌, ◌≡◌, ap, ◌∙◌, true, false, List, [], ◌∷◌, ◌++◌,
  ◌==◌, arith, ++_assoc,
}
use myos.Tarfs.{is_octal, parse_octal}

-- The k octal digits of a number, as characters.
unfoldable pub octal : ℕ → ℕ → List ℕ
octal zero n = []
octal (suc k) n = octal k (n / 8) ++ ((b'0' + n % 8) ∷ [])

parse_octal-digit :
    (d : ℕ) (s : List ℕ) (v : ℕ)
    → d < 8
    → v < 2 ^ 60
    → parse_octal ((b'0' + d) ∷ s) v ≡ parse_octal s (v * 8 + d)
unfolding parse_octal
parse_octal-digit d s v h b =
    let nonzero : (b'0' + d == 0) ≡ false = ground arith in
    let inside : is_octal (b'0' + d) ≡ true = ground (arith, h) in
    rw (nonzero, inside) (ap (parse_octal s) (omega (arith, h, b)))

parse_octal-octal_from :
    (k n : ℕ) (s : List ℕ)
    → 8 ^ k ≤ 2 ^ 60
    → n < 8 ^ k
    → parse_octal (octal k n ++ s) 0 ≡ parse_octal s n
unfolding octal
parse_octal-octal_from zero n s b h = ap (parse_octal s) (omega (arith, h))
parse_octal-octal_from (suc k) n s b h =
    let power : 8 ^ suc k ≡ 8 * 8 ^ k = omega arith in
    ap (λ t. parse_octal t 0) (++_assoc (octal k (n / 8)) ((b'0' + n % 8) ∷ []) s)
    ∙ (parse_octal-octal_from k (n / 8) ((b'0' + n % 8) ∷ s) (omega (arith, b, power))
          (omega (arith, h, power))
        ∙ (parse_octal-digit (n % 8) s (n / 8) (omega arith) (omega (arith, h, b, power))
            ∙ ap (parse_octal s) (omega arith)))

-- The round trip: a number of k octal digits, with 8^k up to 2^60, is read back from them, whatever
-- stands behind the terminator.
pub parse_octal-octal :
    (k n : ℕ) (s : List ℕ) → 8 ^ k ≤ 2 ^ 60 → n < 8 ^ k → parse_octal (octal k n ++ (0 ∷ s)) 0 ≡ n
unfolding parse_octal
parse_octal-octal k n s b h = parse_octal-octal_from k n (0 ∷ s) b h

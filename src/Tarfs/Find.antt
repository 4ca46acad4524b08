-- ===== src/Tarfs/Find.antt =====
-- The lookup of a path in an archive.
use myos.Base.{
  ℕ, zero, suc, ◌+◌, ◌-◌, ◌*◌, ◌/◌, ◌%◌, ◌^◌, ◌≤◌, ◌<◌, ◌≡◌, ◌≢◌, refl, ap, ◌∙◌, sym, subst, Bool,
  true, false, ◌&&◌, Option, none, some, List, [], ◌∷◌, ◌++◌, length, take, leb, ◌==◌,
  if◌then◌else◌, arith, inl, inr, Bool-cases, ◌⊎◌, ++_assoc, length-append,
}
use myos.Base.Align.{u64_mod, align_up_sector}
use myos.Base.Text.{codes, same_text}
use myos.Memfs.{slice}
use myos.Vfs.Dir.{same_text_differs, same_text_lem}
use myos.Tarfs.{
  Tar, parse_octal, strip_dot, normalize, up_to_null, field, push, with_prefix, full_name, name_at,
  size_at, next_header, find_from, fuel_for, tarfs_find,
}
use myos.Tarfs.Octal.{octal, parse_octal-octal}

abbrev pub NoNull : List ℕ → Type 0
NoNull [] = Path Bool true true
NoNull (c ∷ s) = (c ≢ 0) × NoNull s

abbrev pub IsEnded : List ℕ → Type 0
IsEnded [] = Path Bool true true
IsEnded (c ∷ s) = c ≡ 0

-- A text stands in a field of n bytes, with a terminator behind it if there is room for one.
abbrev pub HasField : (ℕ → ℕ) → ℕ → ℕ → List ℕ → Type 0
HasField mem p n s = (pad : List ℕ) × (slice mem p n ≡ s ++ pad) × NoNull s × IsEnded pad

-- An entry of an archive.
pub record Entry : Type 0 where
  pub prefix : List ℕ
  pub name : List ℕ
  pub size : ℕ

-- A path without a leading "./".
abbrev pub plain : List ℕ → List ℕ
plain [] = []
plain (c ∷ []) = c ∷ []
plain (c ∷ d ∷ s) = if c == b'.' then (if d == b'/' then s else c ∷ d ∷ s) else c ∷ d ∷ s

strip_dot-plain : (s : List ℕ) → strip_dot s ≡ plain s
strip_dot-plain [] = refl
strip_dot-plain (c ∷ []) = elim (Bool-cases (c == b'.')) [ inl e ↦ rw e refl | inr e ↦ rw e refl ]
strip_dot-plain (c ∷ d ∷ s) = elim (Bool-cases (c == b'.')) [
  | inr e ↦ rw e refl
  | inl e ↦ elim (Bool-cases (d == b'/')) [ inl z ↦ rw (e, z) refl | inr z ↦ rw (e, z) refl ]
]

-- The path of an entry, without a leading "./".
abbrev pub path_of : Entry → List ℕ
path_of e = plain (if length e.prefix == 0 then e.name else e.prefix ++ (b'/' ∷ e.name))

-- The header of an entry, as tar writes it: eleven octal digits and a terminator for the size.
pub record IsHeader (mem : ℕ → ℕ) (p : ℕ) (e : Entry) : Type 0 where
  pub in_use : mem p ≢ 0
  pub name_field : HasField mem p 100 e.name
  pub prefix_field : HasField mem (p + 345) 155 e.prefix
  pub size_field : slice mem (p + 124) 12 ≡ octal 11 e.size ++ (0 ∷ [])
  pub small : e.size < 8 ^ 11
  pub short : length e.prefix + length e.name < 255

-- Where the next header is: the data fill whole blocks of 512 bytes.
abbrev pub behind : ℕ → Entry → ℕ
behind p e = p + 512 + (e.size + 511) / 512 * 512

-- The entries of an archive from a header on. It ends with an empty name, or with the memory.
abbrev pub IsArchive : (ℕ → ℕ) → ℕ → ℕ → List Entry → Type 0
IsArchive mem stop p [] = (stop < p + 512) ⊎ (mem p ≡ 0)
IsArchive mem stop p (e ∷ es) =
    (p + 512 ≤ stop) × IsHeader mem p e × IsArchive mem stop (behind p e) es

-- What is found for a path from an entry's header on: the address of the data and the size of the first
-- entry with the path, or nothing where none has it.
abbrev pub Finds : List ℕ → ℕ → List Entry → Option (ℕ × ℕ) → Type 0
Finds want p [] o = o ≡ none
Finds want p (e ∷ es) o =
    ((path_of e ≡ want) × (o ≡ some (p + 512, e.size)))
    ⊎ ((path_of e ≢ want) × Finds want (behind p e) es o)

up_to_null-append : (s pad : List ℕ) → NoNull s → IsEnded pad → up_to_null (s ++ pad) ≡ s
up_to_null-append [] [] n e = refl
up_to_null-append [] (c ∷ pad) n e = let z : (c == 0) ≡ true = ground (arith, e) in rw z refl
up_to_null-append (c ∷ s) pad (n, m) e =
    let z : (c == 0) ≡ false = ground (arith, n) in
    rw z (ap (λ t. c ∷ t) (up_to_null-append s pad m e))

field_lem : (mem : ℕ → ℕ) (p n : ℕ) (s : List ℕ) → HasField mem p n s → field mem p n ≡ s
field_lem mem p n s (pad, e, n', end) = ap up_to_null e ∙ up_to_null-append s pad n' end

take_all : (n : ℕ) (s : List ℕ) → length s ≤ n → take n s ≡ s
take_all zero [] h = refl
take_all zero (c ∷ s) h = absurd (omega (arith, h))
take_all (suc n) [] h = refl
take_all (suc n) (c ∷ s) h = ap (λ t. c ∷ t) (take_all n s (omega (arith, h)))

push_lem : (s t : List ℕ) → length s + length t ≤ 255 → push s t ≡ s ++ t
push_lem s t h = ap (λ z. s ++ z) (take_all (255 - length s) t (omega (arith, h)))

pushed :
    (e : Entry)
    → length e.prefix + length e.name < 255
    → push (with_prefix e.prefix) e.name
      ≡ (if length e.prefix == 0 then e.name else e.prefix ++ (b'/' ∷ e.name))
pushed e h = elim (Bool-cases (length e.prefix == 0)) [
  | inl z ↦ rw z (push_lem [] e.name (omega (arith, h)))
  | inr z ↦ rw z (
      ap (λ s. push s e.name)
        (ap (λ s. push s (codes "/")) (push_lem [] e.prefix (omega (arith, h)))
          ∙ push_lem e.prefix (codes "/") (omega (arith, h)))
      ∙ (push_lem (e.prefix ++ codes "/") e.name
            (omega (arith, h, length-append e.prefix (codes "/")))
          ∙ ++_assoc e.prefix (codes "/") e.name))
]

-- A name that fits the buffer is whole.
full_name_lem :
    (e : Entry) → length e.prefix + length e.name < 255 → full_name e.prefix e.name ≡ path_of e
unfolding full_name
full_name_lem e h =
    ap strip_dot (pushed e h)
    ∙ strip_dot-plain (if length e.prefix == 0 then e.name else e.prefix ++ (b'/' ∷ e.name))

name_at_lem : (mem : ℕ → ℕ) (p : ℕ) (e : Entry) → IsHeader mem p e → name_at mem p ≡ path_of e
name_at_lem mem p e h =
    ap (λ s. full_name s (field mem p 100)) (field_lem mem (p + 345) 155 e.prefix h.prefix_field)
    ∙ (ap (full_name e.prefix) (field_lem mem p 100 e.name h.name_field) ∙ full_name_lem e h.short)

size_at_lem : (mem : ℕ → ℕ) (p : ℕ) (e : Entry) → IsHeader mem p e → size_at mem p ≡ e.size
size_at_lem mem p e h =
    ap (λ s. parse_octal s 0) h.size_field ∙ parse_octal-octal 11 e.size [] (omega arith) h.small

next_header_lem :
    (p : ℕ) (e : Entry) → e.size < 8 ^ 11 → p < 2 ^ 63 → next_header p e.size ≡ behind p e
next_header_lem p e h b =
    let up = align_up_sector e.size (omega (arith, h)) in omega (arith, up, h, b)

-- The loop, at an archive's entry and at its end.
find_from-entry :
    (fuel : ℕ) (mem : ℕ → ℕ) (stop p : ℕ) (want : List ℕ) (e : Entry)
    → p + 512 ≤ stop
    → stop < 2 ^ 63
    → IsHeader mem p e
    → find_from (suc fuel) mem stop p want ≡ (
        if same_text (path_of e) want
        then some (p + 512, e.size)
        else find_from fuel mem stop (behind p e) want)
unfolding find_from
find_from-entry fuel mem stop p want e inside b h =
    let fits : leb ((p + 512) % u64_mod) stop ≡ true = ground (arith, inside, b) in
    let nonzero : (mem p == 0) ≡ false = ground (arith, h.in_use) in
    let next = next_header_lem p e h.small (omega (arith, inside, b)) in
    rw (fits, nonzero)
      (ap
          (λ s.
            if same_text s want
            then some (p + 512, size_at mem p)
            else find_from fuel mem stop (next_header p (size_at mem p)) want)
          (name_at_lem mem p e h)
        ∙ (ap
              (λ n.
                if same_text (path_of e) want
                then some (p + 512, n)
                else find_from fuel mem stop (next_header p n) want)
              (size_at_lem mem p e h)
            ∙ ap
                (λ q.
                  if same_text (path_of e) want
                  then some (p + 512, e.size)
                  else find_from fuel mem stop q want)
                next))

find_from-end :
    (fuel : ℕ) (mem : ℕ → ℕ) (stop p : ℕ) (want : List ℕ)
    → p < 2 ^ 63 + 2 ^ 62
    → (stop < p + 512) ⊎ (mem p ≡ 0)
    → find_from (suc fuel) mem stop p want ≡ none
unfolding find_from
find_from-end fuel mem stop p want a (inl h) =
    let out : leb ((p + 512) % u64_mod) stop ≡ false = ground (arith, h, a) in rw out refl
find_from-end fuel mem stop p want a (inr h) =
    let z : (mem p == 0) ≡ true = ground (arith, h) in
    elim (Bool-cases (leb ((p + 512) % u64_mod) stop)) [
      | inl e ↦ rw (e, z) refl
      | inr e ↦ rw e refl
    ]

find_from-Finds :
    (fuel : ℕ) (mem : ℕ → ℕ) (stop p : ℕ) (want : List ℕ) (es : List Entry)
    → stop - p < fuel
    → p < 2 ^ 63 + 2 ^ 62
    → stop < 2 ^ 63
    → IsArchive mem stop p es
    → Finds want p es (find_from fuel mem stop p want)
find_from-Finds zero mem stop p want es f a b h = absurd (omega (arith, f))
find_from-Finds (suc fuel) mem stop p want [] f a b h = find_from-end fuel mem stop p want a h
find_from-Finds (suc fuel) mem stop p want (e ∷ es) f a b (inside, header, rest) =
    let fewer : stop - behind p e < fuel = omega (arith, inside, f) in
    let near : behind p e < 2 ^ 63 + 2 ^ 62 = omega (arith, inside, b, header.small) in
    let entry = find_from-entry fuel mem stop p want e inside b header in
    let later = find_from fuel mem stop (behind p e) want in
    elim (Bool-cases (same_text (path_of e) want)) [
      | inl z ↦ inl (
        same_text_lem (path_of e) want z,
        entry ∙ ap (λ t. if t then some (p + 512, e.size) else later) z,
      )
      | inr z ↦ inr (
        same_text_differs (path_of e) want z,
        subst (Finds want (behind p e) es)
            (sym (entry ∙ ap (λ t. if t then some (p + 512, e.size) else later) z))
            (find_from-Finds fuel mem stop (behind p e) want es fewer near b rest),
      )
    ]

length-strip_dot : (s : List ℕ) → length (strip_dot s) ≤ length s
length-strip_dot [] = omega arith
length-strip_dot (c ∷ []) = elim (Bool-cases ((c == b'.') && (0 == b'/'))) [
  | inl e ↦ rw e (omega arith)
  | inr e ↦ rw e (omega arith)
]
length-strip_dot (c ∷ d ∷ s) = elim (Bool-cases ((c == b'.') && (d == b'/'))) [
  | inl e ↦ rw e (omega arith)
  | inr e ↦ rw e (omega arith)
]

-- `tarfs_find` in an archive as tar lays it out, below 2^63, for a path of up to 127 characters: it gives
-- the address of the data and the size of the first entry with the path, where a leading "./" counts
-- for nothing in either, and fails where there is none. The loop ends, with the fuel it has.
pub tarfs_find-Finds :
    (path : List ℕ) (t : Tar) (es : List Entry)
    → 0 < t.start
    → t.start ≤ t.stop
    → t.stop < 2 ^ 63
    → length path ≤ 127
    → IsArchive t.mem t.stop t.start es
    → Finds (plain path) t.start es (tarfs_find path t)
unfolding tarfs_find normalize
tarfs_find-Finds path t es pos order b short h =
    let one : (t.start == 0) ≡ false = ground (arith, pos) in
    let two : (t.stop == 0) ≡ false = ground (arith, pos, order) in
    let whole : take 127 (strip_dot path) ≡ plain path =
      take_all 127 (strip_dot path) (omega (arith, short, length-strip_dot path))
      ∙ strip_dot-plain path in
    rw (one, two)
      (subst (λ w. Finds (plain path) t.start es (find_from (fuel_for t) t.mem t.stop t.start w))
        (sym whole)
        (find_from-Finds (fuel_for t) t.mem t.stop t.start (plain path) es (omega arith)
          (omega (arith, order, b)) b h))

-- ===== src/Vfs/Segments.antt =====
-- The resolution of a path is a walk along its names.
use myos.Base.{
  ℕ, zero, suc, ◌+◌, ◌≤◌, ◌<◌, ◌≡◌, refl, sym, ap, ◌∙◌, subst, true, Option, none, some, List, [],
  ◌∷◌, length, ◌==◌, if◌then◌else◌, arith, inl, inr, Bool-cases,
}
use myos.Base.Text.{char_at, same_text}
use myos.Vfs.{
  Inode, Vfs, skip_slashes, segment, enter, and_then, walk, start_of, resolve_from, has_root,
  resolve,
}

abbrev cons_head : ℕ → List (List ℕ) → List (List ℕ)
cons_head c [] = (c ∷ []) ∷ []
cons_head c (w ∷ ws) = (c ∷ w) ∷ ws

-- What stands between the slashes.
unfoldable pub split : List ℕ → List (List ℕ)
split [] = [] ∷ []
split (c ∷ p) = let rest = split p in if c == b'/' then [] ∷ rest else cons_head c rest

abbrev pub nonempty : List (List ℕ) → List (List ℕ)
nonempty [] = []
nonempty ([] ∷ ws) = nonempty ws
nonempty ((c ∷ w) ∷ ws) = (c ∷ w) ∷ nonempty ws

-- The names of a path: doubled, leading and trailing slashes give none.
abbrev pub segments : List ℕ → List (List ℕ)
segments p = nonempty (split p)

-- Going from a node along names: `.` stays, `..` goes to the parent, a name to the child.
unfoldable pub follow : List (List ℕ) → ℕ → (ℕ → Inode) → Option ℕ
follow [] cur inodes = some cur
follow (w ∷ ws) cur inodes = and_then (enter w cur inodes) λ next. follow ws next inodes

segments-slash : (c : ℕ) (p : List ℕ) → (c == b'/') ≡ true → segments (c ∷ p) ≡ segments p
unfolding split
segments-slash c p e = rw e refl

segments-skip_slashes : (p : List ℕ) → segments (skip_slashes p) ≡ segments p
unfolding skip_slashes
segments-skip_slashes [] = refl
segments-skip_slashes (c ∷ p) = elim (Bool-cases (c == b'/')) [
  | inl e ↦ rw (skip_slashes, e) (segments-skip_slashes p ∙ sym (segments-slash c p e))
  | inr e ↦ rw (skip_slashes, e) refl
]

-- The pieces behind the first slash.
abbrev behind : List ℕ → List (List ℕ)
behind [] = []
behind (c ∷ p) = split p

split-segment : (p : List ℕ) → split p ≡ (segment p).0 ∷ behind (segment p).1
unfolding split segment
split-segment [] = refl
split-segment (c ∷ p) = elim (Bool-cases (c == b'/')) [
  | inl e ↦ rw e refl
  | inr e ↦ rw e (ap (cons_head c) (split-segment p))
]

segments-rest : (p : List ℕ) → segments (segment p).1 ≡ nonempty (behind (segment p).1)
unfolding segment split
segments-rest [] = refl
segments-rest (c ∷ p) = elim (Bool-cases (c == b'/')) [
  | inl e ↦ rw e (segments-slash c p e)
  | inr e ↦ rw e (segments-rest p)
]

follow-cons :
    (w : List ℕ) (ws : List (List ℕ)) (cur : ℕ) (inodes : ℕ → Inode)
    → follow (nonempty (w ∷ ws)) cur inodes
      ≡ and_then (enter w cur inodes) λ next. follow (nonempty ws) next inodes
unfolding follow enter same_text
follow-cons [] ws cur inodes = refl
follow-cons (c ∷ w) ws cur inodes = refl

and_then-cong :
    (o : Option ℕ) (next next' : ℕ → Option ℕ)
    → ((n : ℕ) → next n ≡ next' n)
    → and_then o next ≡ and_then o next'
and_then-cong none next next' same = refl
and_then-cong (some n) next next' same = same n

length-skip_slashes : (p : List ℕ) → length (skip_slashes p) ≤ length p
unfolding skip_slashes
length-skip_slashes [] = omega arith
length-skip_slashes (c ∷ p) = elim (Bool-cases (c == b'/')) [
  | inl e ↦ rw e (omega (arith, length-skip_slashes p))
  | inr e ↦ rw e (omega arith)
]

length-rest : (p : List ℕ) → length (segment p).1 ≤ length p
unfolding segment
length-rest [] = omega arith
length-rest (c ∷ p) = elim (Bool-cases (c == b'/')) [
  | inl e ↦ rw e (omega arith)
  | inr e ↦ rw e (omega (arith, length-rest p))
]

-- A round takes a character at least.
shorter : (c : ℕ) (p : List ℕ) → length (skip_slashes (segment (c ∷ p)).1) ≤ length p
unfolding segment skip_slashes
shorter c p = elim (Bool-cases (c == b'/')) [
  | inl e ↦ rw e (skips e)
  | inr e ↦ rw e (omega (arith, length-skip_slashes (segment p).1, length-rest p))
]
  where
    skipped : (c == b'/') ≡ true → skip_slashes (c ∷ p) ≡ skip_slashes p
    skipped e = ap (λ b. if b then skip_slashes p else c ∷ p) e

    skips : (c == b'/') ≡ true → length (skip_slashes (c ∷ p)) ≤ length p
    skips e = subst (λ z. length z ≤ length p) (sym (skipped e)) (length-skip_slashes p)

walk-follow :
    (fuel : ℕ) (p : List ℕ) (cur : ℕ) (inodes : ℕ → Inode)
    → length p < fuel
    → walk fuel p cur inodes ≡ follow (segments p) cur inodes
unfolding walk follow split
walk-follow zero p cur inodes h = absurd (omega (arith, h))
walk-follow (suc fuel) [] cur inodes h = refl
walk-follow (suc fuel) (c ∷ p) cur inodes h =
    let seg = (segment (c ∷ p)).0 in
    let rest = (segment (c ∷ p)).1 in
    and_then-cong (enter seg cur inodes) _ _ (λ next.
      walk-follow fuel (skip_slashes rest) next inodes (omega (arith, h, shorter c p))
      ∙ ap (λ ws. follow ws next inodes) (segments-skip_slashes rest ∙ segments-rest (c ∷ p)))
    ∙ (sym (follow-cons seg (behind rest) cur inodes)
        ∙ ap (λ ws. follow (nonempty ws) cur inodes) (sym (split-segment (c ∷ p))))

-- The loop with its fuel follows the names.
pub resolve-follow :
    (path : List ℕ) (cwd : Option ℕ) (v : Vfs)
    → resolve path cwd v ≡ (
        if has_root v.root
        then and_then (start_of path v.root cwd) (λ cur. follow (segments path) cur v.inodes)
        else none)
unfolding resolve
resolve-follow path cwd v =
    ap (λ o. if has_root v.root then o else none) (from (start_of path v.root cwd))
  where
    p : List ℕ
    p = if char_at path == b'/' then skip_slashes path else path

    same : segments p ≡ segments path
    same = elim (Bool-cases (char_at path == b'/')) [
      | inl e ↦ rw e (segments-skip_slashes path)
      | inr e ↦ rw e refl
    ]

    fits : length p < length path + 1
    fits = elim (Bool-cases (char_at path == b'/')) [
      | inl e ↦ rw e (omega (arith, length-skip_slashes path))
      | inr e ↦ rw e (omega arith)
    ]

    from :
        (o : Option ℕ)
        → resolve_from path o v.inodes ≡ and_then o (λ cur. follow (segments path) cur v.inodes)
    from none = refl
    from (some cur) =
        walk-follow (length path + 1) p cur v.inodes fits ∙ ap (λ ws. follow ws cur v.inodes) same

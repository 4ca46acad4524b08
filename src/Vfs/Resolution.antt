-- ===== src/Vfs/Resolution.antt =====
-- What `vfs_resolve` of src/vfs.c finds, told by the names of a path and the tree of nodes alone.
use mathlib.Core.Bool.{true≢false}
use myos.Base.{
  ℕ, ◌≤◌, ◌<◌, ◌≡◌, ◌≢◌, refl, sym, ap, ◌∙◌, subst, true, false, Option, none, some, List, [], ◌∷◌,
  length, ltb, ◌==◌, if◌then◌else◌, arith, inl, inr, ◌⊎◌, Bool-cases, Option-cases,
}
use myos.Base.Text.{codes, same_text}
use myos.Memfs.{NodeType, dir, file, dev}
use myos.Vfs.{
  Inode, Vfs, is_dir, find_in, find_child, parent_or, name_max, enter, and_then, start_of, has_root,
  resolve,
}
use myos.Vfs.Dir.{same_text_lem, same_text_differs}
use myos.Vfs.Segments.{nonempty, split, segments, follow, resolve-follow}

-- The first of some nodes with a name, if there is one.
abbrev pub IsFirst : List ℕ → List ℕ → (ℕ → Inode) → Option ℕ → Type 0
IsFirst w [] inodes o = o ≡ none
IsFirst w (p ∷ ps) inodes o =
    (((inodes p).name ≡ w) × (o ≡ some p)) ⊎ (((inodes p).name ≢ w) × IsFirst w ps inodes o)

-- The child of a node with a name, if it is a directory and has one.
abbrev pub IsChild : List ℕ → ℕ → (ℕ → Inode) → Option ℕ → Type 0
IsChild w cur inodes o =
    (((inodes cur).node.type ≢ dir) × (o ≡ none))
    ⊎ (((inodes cur).node.type ≡ dir) × IsFirst w (inodes cur).children inodes o)

-- The parent of a node, or the node where it has none.
abbrev pub IsAbove : ℕ → (ℕ → Inode) → Option ℕ → Type 0
IsAbove cur inodes o =
    (((inodes cur).parent ≡ none) × (o ≡ some cur))
    ⊎ ((p : ℕ) × ((inodes cur).parent ≡ some p) × (o ≡ some p))

-- Where a name leads from a node: `.` to the node, `..` to its parent, any other name of up to 255
-- characters to the child, and a longer one nowhere.
abbrev pub Leads : List ℕ → ℕ → (ℕ → Inode) → Option ℕ → Type 0
Leads w cur inodes o =
    ((w ≡ codes ".") × (o ≡ some cur))
    ⊎ ((w ≡ codes "..") × IsAbove cur inodes o)
    ⊎ ((w ≢ codes ".") × (w ≢ codes "..") × (255 < length w) × (o ≡ none))
    ⊎ ((w ≢ codes ".") × (w ≢ codes "..") × (length w ≤ 255) × IsChild w cur inodes o)

-- Where names lead, one after the other.
abbrev pub Follows : List (List ℕ) → ℕ → (ℕ → Inode) → Option ℕ → Type 0
Follows [] cur inodes o = o ≡ some cur
Follows (w ∷ ws) cur inodes o =
    (Leads w cur inodes none × (o ≡ none))
    ⊎ ((next : ℕ) × Leads w cur inodes (some next) × Follows ws next inodes o)

abbrev pub IsAbsolute : List ℕ → Type 0
IsAbsolute [] = ⊥
IsAbsolute (c ∷ p) = c ≡ b'/'

-- The node that a path starts from.
abbrev pub StartsAt : List ℕ → ℕ → Option ℕ → ℕ → Type 0
StartsAt path root none start = start ≡ root
StartsAt path root (some cwd) start =
    (IsAbsolute path × (start ≡ root)) ⊎ ((¬ IsAbsolute path) × (start ≡ cwd))

-- What a path leads to, with a working directory.
abbrev pub Resolves : List ℕ → Option ℕ → Vfs → Option ℕ → Type 0
Resolves path cwd v o =
    ((v.root ≡ none) × (o ≡ none))
    ⊎ ((root : ℕ) × (start : ℕ) × (v.root ≡ some root)
        × StartsAt path root cwd start
        × Follows (segments path) start v.inodes o)

find_in-IsFirst : (w ps : List ℕ) (inodes : ℕ → Inode) → IsFirst w ps inodes (find_in w ps inodes)
unfolding find_in
find_in-IsFirst w [] inodes = refl
find_in-IsFirst w (p ∷ ps) inodes = elim (Bool-cases (same_text (inodes p).name w)) [
  | inl e ↦ rw e (inl (same_text_lem (inodes p).name w e, refl))
  | inr e ↦ rw e (inr (same_text_differs (inodes p).name w e, find_in-IsFirst w ps inodes))
]

is_dir_cases : (t : NodeType) → ((is_dir t ≡ true) × (t ≡ dir)) ⊎ ((is_dir t ≡ false) × (t ≢ dir))
is_dir_cases dir = inl (refl, refl)
is_dir_cases file = inr (refl, λ e. true≢false (sym (ap is_dir e)))
is_dir_cases dev = inr (refl, λ e. true≢false (sym (ap is_dir e)))

find_child-IsChild :
    (w : List ℕ) (cur : ℕ) (inodes : ℕ → Inode) → IsChild w cur inodes (find_child cur w inodes)
unfolding find_child
find_child-IsChild w cur inodes = elim (is_dir_cases (inodes cur).node.type) [
  | inl (e, d) ↦ rw e (inr (d, find_in-IsFirst w (inodes cur).children inodes))
  | inr (e, d) ↦ rw e (inl (d, refl))
]

parent_or-IsAbove :
    (cur : ℕ) (inodes : ℕ → Inode) → IsAbove cur inodes (some (parent_or cur (inodes cur).parent))
parent_or-IsAbove cur inodes = elim (Option-cases (inodes cur).parent) [
  | inl e ↦ inl (e, ap (λ o. some (parent_or cur o)) e)
  | inr (p, e) ↦ inr (p, e, ap (λ o. some (parent_or cur o)) e)
]

enter-Leads :
    (c : ℕ) (w : List ℕ) (cur : ℕ) (inodes : ℕ → Inode)
    → Leads (c ∷ w) cur inodes (enter (c ∷ w) cur inodes)
unfolding enter
enter-Leads c w cur inodes = elim (Bool-cases (same_text (c ∷ w) (codes "."))) [
  | inl e ↦ rw e (inl (same_text_lem (c ∷ w) (codes ".") e, refl))
  | inr one ↦ elim (Bool-cases (same_text (c ∷ w) (codes ".."))) [
    | inl e ↦
        rw (one, e) (inr (inl (same_text_lem (c ∷ w) (codes "..") e, parent_or-IsAbove cur inodes)))
    | inr two ↦
        let dot = same_text_differs (c ∷ w) (codes ".") one in
        let dots = same_text_differs (c ∷ w) (codes "..") two in
        let some_left : (length (c ∷ w) == 0) ≡ false = ground arith in
        elim (Bool-cases (ltb name_max (length (c ∷ w)))) [
          | inl e ↦
              rw (one, two)
                (rw (some_left, e) (inr (inr (inl (dot, dots, ground (arith, e), refl)))))
          | inr e ↦
              rw (one, two)
                (rw (some_left, e)
                  (inr (
                    inr
                      (inr (dot, dots, ground (arith, e), find_child-IsChild (c ∷ w) cur inodes)))))
        ]
  ]
]

follow-Follows :
    (ws : List (List ℕ)) (cur : ℕ) (inodes : ℕ → Inode)
    → Follows (nonempty ws) cur inodes (follow (nonempty ws) cur inodes)
unfolding follow
follow-Follows [] cur inodes = refl
follow-Follows ([] ∷ ws) cur inodes = follow-Follows ws cur inodes
follow-Follows ((c ∷ w) ∷ ws) cur inodes =
    step (λ next. follow-Follows ws next inodes) (enter (c ∷ w) cur inodes)
      (enter-Leads c w cur inodes)
  where
    step :
        ((next : ℕ) → Follows (nonempty ws) next inodes (follow (nonempty ws) next inodes))
        → (o : Option ℕ) → Leads (c ∷ w) cur inodes o
        → Follows
            ((c ∷ w) ∷ nonempty ws)
            cur
            inodes
            (and_then o λ next. follow (nonempty ws) next inodes)
    step later none l = inl (l, refl)
    step later (some next) l = inr (next, l, later next)

start_of-StartsAt :
    (path : List ℕ) (root : ℕ) (cwd : Option ℕ)
    → (start : ℕ) × (start_of path (some root) cwd ≡ some start) × StartsAt path root cwd start
start_of-StartsAt path root none = (root, refl, refl)
start_of-StartsAt [] root (some d) = (d, refl, inr (λ x. x, refl))
start_of-StartsAt (c ∷ p) root (some d) = elim (Bool-cases (c == b'/')) [
  | inl e ↦ (root, rw e refl, inl (ground (arith, e), refl))
  | inr e ↦ (d, rw e refl, inr (λ x. ground (arith, e, x), refl))
]

-- `vfs_resolve` of every path, from every working directory and in every tree of nodes: it fails where there
-- is no root; otherwise it goes from the root, for a path that begins with a slash or where there is
-- no working directory, and from the working directory else, along the names between the slashes, and
-- the empty ones count for nothing: `.` stays, `..` goes to the parent, and stays where there is none,
-- and any other name goes to the first child of a directory with this name. It fails where such a
-- name is longer than 255 characters or no child has it. The fuel is enough.
pub resolve-Resolves :
    (path : List ℕ) (cwd : Option ℕ) (v : Vfs) → Resolves path cwd v (resolve path cwd v)
resolve-Resolves path cwd v =
    subst (Resolves path cwd v) (sym (resolve-follow path cwd v)) (elim (Option-cases v.root) [
      | inl e ↦ inl (e, ap result e)
      | inr (root, e) ↦
          let (start, at, starts) = start_of-StartsAt path root cwd in
          let from = follow-Follows (split path) start v.inodes in
          inr (
            root,
            start,
            e,
            starts,
            subst (Follows (segments path) start v.inodes)
                (sym (
                  ap result e
                  ∙ ap (λ o. and_then o (λ cur. follow (segments path) cur v.inodes)) at))
                from,
          )
    ])
  where
    result : Option ℕ → Option ℕ
    result r =
        if has_root r
        then and_then (start_of path r cwd) (λ cur. follow (segments path) cur v.inodes)
        else none

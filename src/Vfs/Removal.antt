-- ===== src/Vfs/Removal.antt =====
-- src/memfs.c: a directory as a map from names to nodes, through the removal of an entry.
use myos.Base.{
  ℕ, ◌≡◌, ◌≢◌, refl, sym, ap, ◌∙◌, subst, Bool, true, false, none, some, List, [], ◌∷◌, length,
  arith, ◌==◌, not, ◌&&◌, ap₂, if◌then◌else◌, inl, inr, Bool-cases, ◌⊎◌,
}
use myos.Base.Text.{same_text}
use mathlib.Core.Bool.{true≢false}
use myos.Memfs.{NodeType, dir, file, dev}
use myos.Vfs.{is_dir, Vfs, Inode, find_child, unlinked, remove_child}
use myos.Vfs.Nodes.{free_node, freed, has_children, unlink_found, memfs_unlink}
use myos.Vfs.Dir.{IsIn, find_in_cases, Unlinked, unlinked-Unlinked}
use myos.Vfs.Link.{find_child_lem, IsListing, dropped, remove_child-Dropped}

-- The directory d has one name less, which was that of the node p.
pub record Removed (d : ℕ) (name : List ℕ) (p : ℕ) (v v' : Vfs) : Type 0 where
  pub was_found : find_child d name v.inodes ≡ some p
  pub was_empty : ((v.inodes p).node.type ≢ dir) ⊎ ((v.inodes p).children ≡ [])
  pub gone : find_child d name v'.inodes ≡ none
  pub others :
      (s : List ℕ) → same_text name s ≡ false → find_child d s v'.inodes ≡ find_child d s v.inodes
  pub elsewhere : (q : ℕ) → q ≢ p → q ≢ d → v'.inodes q ≡ v.inodes q
  pub listing : IsListing d v'.inodes

-- Why a name stays: it is not there, or its node has children.
abbrev pub Stuck : ℕ → List ℕ → Vfs → Type 0
Stuck d name v =
    (find_child d name v.inodes ≡ none)
    ⊎ ((p : ℕ) × (find_child d name v.inodes ≡ some p)
        × ((v.inodes p).node.type ≡ dir)
        × ((v.inodes p).children ≢ []))

abbrev pub UnlinkOutcome : ℕ → List ℕ → Vfs → Bool × Vfs → Type 0
UnlinkOutcome d name v (false, v') = (v' ≡ v) × Stuck d name v
UnlinkOutcome d name v (true, v') = (p : ℕ) × Removed d name p v v'

is_dir_lem : (t : NodeType) → is_dir t ≡ true → t ≡ dir
is_dir_lem dir h = refl
is_dir_lem file h = absurd (true≢false (sym h))
is_dir_lem dev h = absurd (true≢false (sym h))

none_below :
    (t : NodeType) (ps : List ℕ)
    → (is_dir t && not (length ps == 0)) ≡ false
    → (t ≢ dir) ⊎ (ps ≡ [])
none_below t [] e = inr refl
none_below t (q ∷ ps) e = inl λ x.
    let some_left : (length (q ∷ ps) == 0) ≡ false = ground arith in
    true≢false (sym (ap₂ (λ k b. is_dir k && not b) x some_left) ∙ e)

has_children-none : (n : Inode) → has_children n ≡ false → (n.node.type ≢ dir) ⊎ (n.children ≡ [])
has_children-none n e = none_below n.node.type n.children e

has_children-some : (n : Inode) → has_children n ≡ true → (n.node.type ≡ dir) × (n.children ≢ [])
has_children-some n e = elim (Bool-cases (is_dir n.node.type)) [
  | inl z ↦ (
    is_dir_lem n.node.type z,
    λ x. true≢false (sym e ∙ ap₂ (λ b (ps : List ℕ). b && not (length ps == 0)) z x),
  )
  | inr z ↦ absurd (true≢false (sym e ∙ ap (λ b. b && not (length n.children == 0)) z))
]

module _ (d : ℕ) (name : List ℕ) (v : Vfs) (l : IsListing d v.inodes) (p : ℕ)
    (found : find_child d name v.inodes ≡ some p) (m : IsIn p (v.inodes d).children)
    (n : (v.inodes p).name ≡ name) where
  empty-Removed :
      (qs : List ℕ)
      → has_children (v.inodes p) ≡ false
      → unlinked p (v.inodes d).children ≡ some qs
      → Unlinked p (v.inodes d).children qs v.inodes
      → UnlinkOutcome d name v (freed p (remove_child d p v))
  unfolding free_node
  empty-Removed qs empty e u =
      let (at, r) = remove_child-Dropped d p v qs l e u in
      subst (λ x. UnlinkOutcome d name v (freed p x)) (sym at)
        (
          p,
          record {
            was_found = found;
            was_empty = has_children-none (v.inodes p) empty;
            gone = ap (λ s. find_child d s (dropped d p v qs).inodes) (sym n) ∙ r.gone;
            others = λ s x. r.others s (ap (λ t. same_text t s) n ∙ x);
            elsewhere = r.elsewhere;
            listing = r.listing;
          },
        )

  found-UnlinkOutcome : UnlinkOutcome d name v (unlink_found d (some p) v)
  found-UnlinkOutcome = elim (Bool-cases (has_children (v.inodes p))) [
    | inl z ↦
        subst (λ b. UnlinkOutcome d name v (if b then (false, v) else freed p (remove_child d p v)))
          (sym z)
          (
            refl,
            inr (
              p,
              found,
              (has_children-some (v.inodes p) z).0,
              (has_children-some (v.inodes p) z).1,
            ),
          )
    | inr z ↦
        let (qs, e, u) = unlinked-Unlinked p (v.inodes d).children v.inodes m l.named in
        subst (λ b. UnlinkOutcome d name v (if b then (false, v) else freed p (remove_child d p v)))
          (sym z) (empty-Removed qs z e u)
  ]

-- `memfs_unlink` in a directory whose children's names differ: it fails and changes nothing, exactly
-- where the name is not there or is that of a directory with children; or the name is not found
-- then, while every other name is looked up as before, no node but the directory and the child is changed,
-- and the names of the directory still differ.
pub memfs_unlink-UnlinkOutcome :
    (d : ℕ) (name : List ℕ) (v : Vfs)
    → IsListing d v.inodes
    → UnlinkOutcome d name v (memfs_unlink d name v)
unfolding memfs_unlink
memfs_unlink-UnlinkOutcome d name v l =
    rw l.is_directory (elim (find_in_cases name (v.inodes d).children v.inodes) [
      | inl e ↦
          let absent = find_child_lem d name v.inodes l.is_directory ∙ e in
          rw absent (refl, inl absent)
      | inr (p, e, m, n) ↦
          let found = find_child_lem d name v.inodes l.is_directory ∙ e in
          subst (λ o. UnlinkOutcome d name v (unlink_found d o v)) (sym found)
            (found-UnlinkOutcome d name v l p found m n)
    ])

-- ===== src/Vfs/Link.antt =====
-- A directory as a map from names to nodes: adding a child and removing one.
use myos.Base.{
  ℕ, ◌≡◌, ◌≢◌, refl, sym, ap, ◌∙◌, subst, true, false, none, some, List, ◌∷◌, ◌==◌, if◌then◌else◌,
  update, arith, inl, inr, Bool-cases,
}
use myos.Base.Text.{same_text}
use myos.Vfs.{
  Inode, Vfs, is_dir, set_inode, find_in, find_child, add_found, add_child, unlinked, remove_found,
  remove_child,
}
use myos.Vfs.Dir.{
  IsIn, AreNamed, same_text_refl, find-here, find-later, find_in-names, AreNamed-names, Unlinked,
}

pub update_same {ℓ} : {A : Type ℓ} → (f : ℕ → A) (k : ℕ) (x : A) → update f k x k ≡ x
update_same f k x = let e : (k == k) ≡ true = ground arith in ap (λ b. if b then x else f k) e

pub update_other {ℓ} :
    {A : Type ℓ} → (f : ℕ → A) (k : ℕ) (x : A) (q : ℕ) → q ≢ k → update f k x q ≡ f q
update_other f k x q n =
    let e : (q == k) ≡ false = ground (arith, n) in ap (λ b. if b then x else f q) e

-- What a field says of every node, where the new node has the old one's.
pub update-field {ℓ κ} :
    {A : Type ℓ} {B : Type κ}
    → (field : A → B) (f : ℕ → A) (k : ℕ) (x : A) → field x ≡ field (f k)
    → (q : ℕ) → field (update f k x q) ≡ field (f q)
update-field field f k x e q = elim (Bool-cases (q == k)) [
  | inl z ↦
      let same : q ≡ k = ground (arith, z) in
      ap (λ b. field (if b then x else f q)) z ∙ (e ∙ ap (λ y. field (f y)) (sym same))
  | inr z ↦ ap (λ b. field (if b then x else f q)) z
]

pub find_child_lem :
    (d : ℕ) (s : List ℕ) (inodes : ℕ → Inode)
    → is_dir (inodes d).node.type ≡ true
    → find_child d s inodes ≡ find_in s (inodes d).children inodes
unfolding find_child
find_child_lem d s inodes e = ap (λ b. if b then find_in s (inodes d).children inodes else none) e

-- A directory whose children's names differ.
pub record IsListing (d : ℕ) (inodes : ℕ → Inode) : Type 0 where
  pub is_directory : is_dir (inodes d).node.type ≡ true
  pub named : AreNamed (inodes d).children inodes

-- The node p is in the directory d under its name, and that is all that is different there.
pub record Linked (d p : ℕ) (i j : ℕ → Inode) : Type 0 where
  pub found : find_child d (i p).name j ≡ some p
  pub others : (s : List ℕ) → same_text (i p).name s ≡ false → find_child d s j ≡ find_child d s i
  pub listing : IsListing d j
  pub children : (j d).children ≡ p ∷ (i d).children
  pub parent : (j p).parent ≡ some d
  pub node : (j p).node ≡ (i p).node
  pub elsewhere : (q : ℕ) → q ≢ p → q ≢ d → j q ≡ i q

module _ (d p : ℕ) (v : Vfs) where
  abbrev child : Inode
  child = record (v.inodes p) { parent = some d }

  abbrev step : Vfs
  step = set_inode p child v

  abbrev above : Inode
  above = record (step.inodes d) { children = p ∷ (v.inodes d).children }

  abbrev pub linked_in : Vfs
  linked_in = set_inode d above step

  module _ (l : IsListing d v.inodes) (n : d ≢ p)
      (absent : find_child d (v.inodes p).name v.inodes ≡ none) where
    same_name : (q : ℕ) → (linked_in.inodes q).name ≡ (v.inodes q).name
    same_name q =
        update-field (λ m. m.name) step.inodes d above refl q
        ∙ update-field (λ m. m.name) v.inodes p child refl q

    same_type : (q : ℕ) → (linked_in.inodes q).node ≡ (v.inodes q).node
    same_type q =
        update-field (λ m. m.node) step.inodes d above refl q
        ∙ update-field (λ m. m.node) v.inodes p child refl q

    same_children : (linked_in.inodes d).children ≡ p ∷ (v.inodes d).children
    same_children = ap (λ m. m.children) (update_same step.inodes d above)

    dir_now : is_dir (linked_in.inodes d).node.type ≡ true
    dir_now = ap (λ m. is_dir m.type) (same_type d) ∙ l.is_directory

    looked_up :
        (s : List ℕ)
        → find_child d s linked_in.inodes ≡ find_in s (p ∷ (v.inodes d).children) v.inodes
    looked_up s =
        find_child_lem d s linked_in.inodes dir_now
        ∙ (ap (λ ps. find_in s ps linked_in.inodes) same_children
            ∙ find_in-names s (p ∷ (v.inodes d).children) v.inodes linked_in.inodes
                λ q _. same_name q)

    whole-Linked : Linked d p v.inodes linked_in.inodes
    whole-Linked = record {
      found =
          looked_up (v.inodes p).name
          ∙ find-here (v.inodes p).name p (v.inodes d).children v.inodes
              (same_text_refl (v.inodes p).name);
      others = λ s e.
          looked_up s
          ∙ (find-later s p (v.inodes d).children v.inodes e
              ∙ sym (find_child_lem d s v.inodes l.is_directory));
      listing = record {
        is_directory = dir_now;
        named =
            subst (λ ps. AreNamed ps linked_in.inodes) (sym same_children)
              (AreNamed-names (p ∷ (v.inodes d).children) v.inodes linked_in.inodes
                (λ q _. same_name q)
                (
                  sym (find_child_lem d (v.inodes p).name v.inodes l.is_directory) ∙ absent,
                  l.named,
                ));
      };
      children = same_children;
      parent =
          ap (λ m. m.parent) (update_other step.inodes d above p (λ e. n (sym e)))
          ∙ ap (λ m. m.parent) (update_same v.inodes p child);
      node = same_type p;
      elsewhere = λ q a b. update_other step.inodes d above q b ∙ update_other v.inodes p child q a;
    }

    pub add_child-Linked :
        (add_child d p v ≡ (true, linked_in)) × Linked d p v.inodes linked_in.inodes
    unfolding add_child
    add_child-Linked = (
      ap (λ b. if b then add_found d p (find_child d (v.inodes p).name v.inodes) v else (false, v))
            l.is_directory
          ∙ ap (λ o. add_found d p o v) absent,
      whole-Linked,
    )

-- The node p, which was in the directory d, is not there, and that is all that is different.
pub record Dropped (d p : ℕ) (i j : ℕ → Inode) : Type 0 where
  pub gone : find_child d (i p).name j ≡ none
  pub others : (s : List ℕ) → same_text (i p).name s ≡ false → find_child d s j ≡ find_child d s i
  pub listing : IsListing d j
  pub fewer : (q : ℕ) → IsIn q (j d).children → IsIn q (i d).children
  pub elsewhere : (q : ℕ) → q ≢ p → q ≢ d → j q ≡ i q

module _ (d p : ℕ) (v : Vfs) (qs : List ℕ) where
  abbrev fewer : Inode
  fewer = record (v.inodes d) { children = qs }

  abbrev cut : Vfs
  cut = set_inode d fewer v

  abbrev orphan : Inode
  orphan = record (cut.inodes p) { parent = none }

  abbrev pub dropped : Vfs
  dropped = set_inode p orphan cut

  module _ (l : IsListing d v.inodes) (e : unlinked p (v.inodes d).children ≡ some qs)
      (u : Unlinked p (v.inodes d).children qs v.inodes) where
    name_kept : (q : ℕ) → (dropped.inodes q).name ≡ (v.inodes q).name
    name_kept q =
        update-field (λ m. m.name) cut.inodes p orphan refl q
        ∙ update-field (λ m. m.name) v.inodes d fewer refl q

    type_kept : (q : ℕ) → (dropped.inodes q).node ≡ (v.inodes q).node
    type_kept q =
        update-field (λ m. m.node) cut.inodes p orphan refl q
        ∙ update-field (λ m. m.node) v.inodes d fewer refl q

    children_left : (dropped.inodes d).children ≡ qs
    children_left =
        update-field (λ m. m.children) cut.inodes p orphan refl d
        ∙ ap (λ m. m.children) (update_same v.inodes d fewer)

    dir_kept : is_dir (dropped.inodes d).node.type ≡ true
    dir_kept = ap (λ m. is_dir m.type) (type_kept d) ∙ l.is_directory

    left_up : (s : List ℕ) → find_child d s dropped.inodes ≡ find_in s qs v.inodes
    left_up s =
        find_child_lem d s dropped.inodes dir_kept
        ∙ (ap (λ ps. find_in s ps dropped.inodes) children_left
            ∙ find_in-names s qs v.inodes dropped.inodes λ q _. name_kept q)

    whole-Dropped : Dropped d p v.inodes dropped.inodes
    whole-Dropped = record {
      gone = left_up (v.inodes p).name ∙ u.gone;
      others = λ s x. left_up s ∙ (u.others s x ∙ sym (find_child_lem d s v.inodes l.is_directory));
      listing = record {
        is_directory = dir_kept;
        named =
            subst (λ ps. AreNamed ps dropped.inodes) (sym children_left)
              (AreNamed-names qs v.inodes dropped.inodes (λ q _. name_kept q) u.named);
      };
      fewer = λ q m. u.fewer q (subst (IsIn q) children_left m);
      elsewhere = λ q a b. update_other cut.inodes p orphan q a ∙ update_other v.inodes d fewer q b;
    }

    pub remove_child-Dropped :
        (remove_child d p v ≡ (true, dropped)) × Dropped d p v.inodes dropped.inodes
    unfolding remove_child
    remove_child-Dropped = (
      ap (λ b. if b then remove_found d p (unlinked p (v.inodes d).children) v else (false, v))
            l.is_directory
          ∙ ap (λ o. remove_found d p o v) e,
      whole-Dropped,
    )

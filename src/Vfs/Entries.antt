-- ===== src/Vfs/Entries.antt =====
-- src/memfs.c: a directory as a map from names to nodes, through the making and the removal of its entries.
use myos.Base.{
  ℕ, ◌+◌, ◌^◌, ◌≤◌, ◌<◌, ◌≡◌, ◌≢◌, refl, sym, ap, ◌∙◌, subst, true, false, Option, none, some, List,
  ◌∷◌, length, ◌==◌, arith, inl, inr, ◌⊎◌,
}
use myos.Base.Text.{same_text}
use myos.Kmalloc.{Heap, kmalloc, kfree}
use myos.Kmalloc.Live.{IsLive, IsHeap}
use myos.Kmalloc.Fresh.{GivesFresh, kmalloc-GivesFresh}
use myos.Kmalloc.Release.{kfree-Releases}
use myos.Memfs.{NodeType, dir, file, dev}
use myos.Vfs.{
  Ops, memfs_dir_ops, memfs_file_ops, Inode, Vfs, is_dir, find_in, find_child, add_child,
}
use myos.Vfs.Nodes.{
  sizeof_memfs_file, Payload, no_data, empty_file, create_node, linked, link_new, create_file,
  create_typed, memfs_create,
}
use myos.Vfs.Dir.{IsIn, AreNamed, find_in-names, AreNamed-names, find_in_cases}
use myos.Vfs.Link.{
  update_same, update_other, find_child_lem, IsListing, Linked, linked_in, add_child-Linked,
}
use myos.Vfs.Making.{
  SameLive, SameLive-undone, Stays, Failed, Created, NodeOutcome, create_node-NodeOutcome,
}

-- A directory whose node and whose children's are live memory, and whose children's names differ.
pub record IsDirectory (d : ℕ) (v : Vfs) : Type 0 where
  pub heap : IsHeap v.heap
  pub live : IsLive d v.heap
  pub held : (q : ℕ) → IsIn q (v.inodes d).children → IsLive q v.heap
  pub listing : IsListing d v.inodes

-- The directory d has one name more, for the node p, which is new.
pub record Entered (d : ℕ) (name : List ℕ) (type : NodeType) (p : ℕ) (v v' : Vfs) : Type 0 where
  pub was_absent : find_child d name v.inodes ≡ none
  pub is_new : ¬ IsLive p v.heap
  pub found : find_child d name v'.inodes ≡ some p
  pub others :
      (s : List ℕ) → same_text name s ≡ false → find_child d s v'.inodes ≡ find_child d s v.inodes
  pub has_type : (v'.inodes p).node.type ≡ type
  pub parent : (v'.inodes p).parent ≡ some d
  pub elsewhere : (q : ℕ) → q ≢ p → q ≢ d → v'.inodes q ≡ v.inodes q
  pub stays : Stays v.heap v'.heap
  pub directory : IsDirectory d v'

abbrev pub CreateOutcome : ℕ → List ℕ → NodeType → Vfs → Option ℕ × Vfs → Type 0
CreateOutcome d name type v (none, v') = Failed v v'
CreateOutcome d name type v (some p, v') = Entered d name type p v v'

-- A lookup is the same where the directory and its children's names are.
find_child-names :
    (d : ℕ) (s : List ℕ) (i j : ℕ → Inode)
    → j d ≡ i d
    → ((q : ℕ) → IsIn q (i d).children → (j q).name ≡ (i q).name)
    → IsListing d i
    → find_child d s j ≡ find_child d s i
find_child-names d s i j e names l =
    find_child_lem d s j (ap (λ n. is_dir n.node.type) e ∙ l.is_directory)
    ∙ (ap (λ n. find_in s n.children j) e
        ∙ (find_in-names s (i d).children i j names ∙ sym (find_child_lem d s i l.is_directory)))

module _ (d : ℕ) (name : List ℕ) (type : NodeType) (ops : Ops) (data_of : Payload) (p : ℕ)
    (v w : Vfs) (is : IsDirectory d v) (absent : find_child d name v.inodes ≡ none)
    (c : Created name type ops data_of p v w) where
  apart : (q : ℕ) → IsLive q v.heap → q ≢ p
  apart q l e = c.is_new (subst (λ z. IsLive z v.heap) e l)

  old : (q : ℕ) → q ≢ p → w.inodes q ≡ v.inodes q
  old q n = ap (λ f. f q) c.inodes ∙ update_other v.inodes p _ q n

  d_old : w.inodes d ≡ v.inodes d
  d_old = old d (apart d is.live)

  names : (q : ℕ) → IsIn q (v.inodes d).children → (w.inodes q).name ≡ (v.inodes q).name
  names q m = ap (λ n. n.name) (old q (apart q (is.held q m)))

  new_name : (w.inodes p).name ≡ name
  new_name = ap (λ f. (f p).name) c.inodes ∙ ap (λ n. n.name) (update_same v.inodes p _)

  new_type : (w.inodes p).node.type ≡ type
  new_type = ap (λ f. (f p).node.type) c.inodes ∙ ap (λ n. n.node.type) (update_same v.inodes p _)

  lists : IsListing d w.inodes
  lists = record {
    is_directory = ap (λ n. is_dir n.node.type) d_old ∙ is.listing.is_directory;
    named =
        subst (λ n. AreNamed n.children w.inodes) (sym d_old)
          (AreNamed-names (v.inodes d).children v.inodes w.inodes names is.listing.named);
  }

  absent_now : find_child d (w.inodes p).name w.inodes ≡ none
  absent_now =
      ap (λ s. find_child d s w.inodes) new_name
      ∙ (find_child-names d name v.inodes w.inodes d_old names is.listing ∙ absent)

  in_it : (add_child d p w ≡ (true, linked_in d p w)) × Linked d p w.inodes (linked_in d p w).inodes
  in_it = add_child-Linked d p w lists (apart d is.live) absent_now

  entered :
      (w' : Vfs) → w'.heap ≡ w.heap → Linked d p w.inodes w'.inodes → Entered d name type p v w'
  entered w' heap l = record {
    was_absent = absent;
    is_new = c.is_new;
    found = ap (λ s. find_child d s w'.inodes) (sym new_name) ∙ l.found;
    others = λ s e.
        l.others s (ap (λ n. same_text n s) new_name ∙ e)
        ∙ find_child-names d s v.inodes w.inodes d_old names is.listing;
    has_type = ap (λ n. n.type) l.node ∙ new_type;
    parent = l.parent;
    elsewhere = λ q a b. l.elsewhere q a b ∙ old q a;
    stays = λ q x. subst (IsLive q) (sym heap) (c.stays q x);
    directory = record {
      heap = subst IsHeap (sym heap) c.heap;
      live = subst (IsLive d) (sym heap) (c.stays d is.live);
      held = λ q m.
          subst (IsLive q) (sym heap)
            (elim (subst (IsIn q) (l.children ∙ ap (λ n. p ∷ n.children) d_old) m) [
              | inl e ↦ subst (λ z. IsLive z w.heap) (sym e) c.live
              | inr m' ↦ c.stays q (is.held q m')
            ]);
      listing = l.listing;
    };
  }

  linked-Entered :
      (linked p (add_child d p w) ≡ (some p, linked_in d p w))
      × Entered d name type p v (linked_in d p w)
  linked-Entered = (ap (linked p) in_it.0, entered (linked_in d p w) refl in_it.1)

-- Where the heap has given more since, the outcome counts from the start.
weaker-Entered :
    (d : ℕ) (name : List ℕ) (type : NodeType) (p : ℕ) (v w : Vfs) (h : Heap)
    → Stays v.heap h
    → Entered d name type p (record v { heap = h }) w
    → Entered d name type p v w
weaker-Entered d name type p v w h s e = record {
  was_absent = e.was_absent;
  is_new = λ x. e.is_new (s p x);
  found = e.found;
  others = e.others;
  has_type = e.has_type;
  parent = e.parent;
  elsewhere = e.elsewhere;
  stays = λ q x. e.stays q (s q x);
  directory = e.directory;
}

with_heap-IsDirectory :
    (d : ℕ) (v : Vfs) (h : Heap)
    → IsHeap h
    → Stays v.heap h
    → IsDirectory d v
    → IsDirectory d (record v { heap = h })
with_heap-IsDirectory d v h i s is = record {
  heap = i;
  live = s d is.live;
  held = λ q m. s q (is.held q m);
  listing = is.listing;
}

module _ (d : ℕ) (name : List ℕ) (type : NodeType) (v : Vfs) (is : IsDirectory d v)
    (absent : find_child d name v.inodes ≡ none) where
  dir-Outcome :
      (out : Option ℕ × Vfs)
      → NodeOutcome name type memfs_dir_ops no_data v out
      → CreateOutcome d name type v (link_new d 0 out)
  dir-Outcome (none, w) f = f
  dir-Outcome (some p, w) c =
      let (e, x) = linked-Entered d name type memfs_dir_ops no_data p v w is absent c in
      subst (CreateOutcome d name type v) (sym e) x

  file-Outcome :
      (ptr : ℕ) (h : Heap) (out : Option ℕ × Vfs)
      → 0 < ptr
      → IsHeap h
      → ¬ IsLive ptr v.heap
      → IsLive ptr h
      → ((q : ℕ) → (IsLive q v.heap → IsLive q h) × (IsLive q h → (q ≡ ptr) ⊎ IsLive q v.heap))
      → NodeOutcome name type memfs_file_ops (empty_file ptr) (record v { heap = h }) out
      → CreateOutcome d name type v (link_new d ptr out)
  file-Outcome ptr h (none, w) pos i n l given f =
      let z : (ptr == 0) ≡ false = ground (arith, pos) in
      let (i', r) = kfree-Releases ptr w.heap f.heap ((f.live ptr).0 l) in
      rw z (record {
        heap = i';
        live = SameLive-undone ptr v.heap h w.heap (kfree ptr w.heap) n given f.live r;
        inodes = f.inodes;
      })
  file-Outcome ptr h (some p, w) pos i n l given c =
      let stays : Stays v.heap h = λ q x. (given q).0 x in
      let v₀ = record v { heap = h } in
      let is₀ = with_heap-IsDirectory d v h i stays is in
      let (e, x) = linked-Entered d name type memfs_file_ops (empty_file ptr) p v₀ w is₀ absent c in
      subst (CreateOutcome d name type v) (sym e)
        (weaker-Entered d name type p v (linked_in d p w) h stays x)

  create_file-Outcome :
      (x : ℕ × Heap)
      → length name + 1 ≤ 2 ^ 47
      → IsHeap x.1
      → GivesFresh v.heap x
      → CreateOutcome d name type v (create_file d name type x v)
  create_file-Outcome (ptr, h) short i (inl (e, same)) =
      let z : (ptr == 0) ≡ true = ground (arith, e) in
      rw z (record { heap = i; live = same; inodes = refl })
  create_file-Outcome (ptr, h) short i (inr (pos, n, l, given)) =
      let z : (ptr == 0) ≡ false = ground (arith, pos) in
      let out = create_node name type memfs_file_ops (empty_file ptr) (record v { heap = h }) in
      rw z (
        file-Outcome ptr h out pos i n l given (
          create_node-NodeOutcome name type memfs_file_ops (empty_file ptr) (record v { heap = h })
            short i))

typed-Outcome :
    (type : NodeType) (d : ℕ) (name : List ℕ) (v : Vfs)
    → IsDirectory d v
    → find_child d name v.inodes ≡ none
    → length name + 1 ≤ 2 ^ 47
    → CreateOutcome d name type v (create_typed d name type v)
typed-Outcome dir d name v is absent short =
    dir-Outcome d name dir v is absent (create_node name dir memfs_dir_ops no_data v)
      (create_node-NodeOutcome name dir memfs_dir_ops no_data v short is.heap)
typed-Outcome file d name v is absent short =
    let (i, g) = kmalloc-GivesFresh sizeof_memfs_file v.heap (omega arith) (omega arith) is.heap in
    create_file-Outcome d name file v is absent (kmalloc sizeof_memfs_file v.heap) short i g
typed-Outcome dev d name v is absent short =
    let (i, g) = kmalloc-GivesFresh sizeof_memfs_file v.heap (omega arith) (omega arith) is.heap in
    create_file-Outcome d name dev v is absent (kmalloc sizeof_memfs_file v.heap) short i g

SameLive-refl : (h : Heap) → SameLive h h
SameLive-refl h q = (λ x. x, λ x. x)

-- `memfs_create` in a directory that is live memory, as are its children, and whose names differ: it
-- fails, with nothing changed but the heap, where the same pointers are live as before; or the name was
-- not there, and the directory has it then for a node that was not live before, with the type, the
-- directory as its parent, while every other name is looked up as before, no other node is changed,
-- what was live stays live and the directory keeps all that is assumed of it.
pub memfs_create-CreateOutcome :
    (d : ℕ) (name : List ℕ) (type : NodeType) (v : Vfs)
    → IsDirectory d v
    → length name + 1 ≤ 2 ^ 47
    → CreateOutcome d name type v (memfs_create d name type v)
unfolding memfs_create
memfs_create-CreateOutcome d name type v is short =
    rw is.listing.is_directory (elim (find_in_cases name (v.inodes d).children v.inodes) [
      | inl e ↦
          let absent = find_child_lem d name v.inodes is.listing.is_directory ∙ e in
          rw absent (typed-Outcome type d name v is absent short)
      | inr (p, e, _, _) ↦
          let there = find_child_lem d name v.inodes is.listing.is_directory ∙ e in
          rw there (record { heap = is.heap; live = SameLive-refl v.heap; inodes = refl })
    ])

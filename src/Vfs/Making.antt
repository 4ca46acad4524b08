-- ===== src/Vfs/Making.antt =====
-- What the making of a node does to the heap and to the store of nodes.
use myos.Base.{
  ℕ, ◌+◌, ◌^◌, ◌≤◌, ◌≡◌, refl, subst, true, false, Option, none, some, List, length, ◌==◌, update,
  arith, inl, inr, ◌⊎◌,
}
use myos.Kmalloc.{Heap, kmalloc, kfree}
use myos.Kmalloc.Live.{IsLive, IsHeap}
use myos.Kmalloc.Fresh.{GivesFresh, kmalloc-GivesFresh}
use myos.Kmalloc.Release.{Releases, kfree-Releases}
use myos.Memfs.{NodeType}
use myos.Vfs.{Ops, Vfs}
use myos.Vfs.Nodes.{sizeof_node, Payload, strdup, new_inode, named_node, node_at, create_node}

-- The same pointers are live.
abbrev pub SameLive : Heap → Heap → Type 0
SameLive h h' = (q : ℕ) → (IsLive q h → IsLive q h') × (IsLive q h' → IsLive q h)

-- All that are live stay so.
abbrev pub Stays : Heap → Heap → Type 0
Stays h h' = (q : ℕ) → IsLive q h → IsLive q h'

-- Nothing is changed but the heap, where the same pointers are live.
pub record Failed (v v' : Vfs) : Type 0 where
  pub heap : IsHeap v'.heap
  pub live : SameLive v.heap v'.heap
  pub inodes : v'.inodes ≡ v.inodes

-- A new node at p, where nothing was.
pub record Created (name : List ℕ) (type : NodeType) (ops : Ops) (d : Payload) (p : ℕ) (v v' : Vfs)
    : Type 0 where
  pub heap : IsHeap v'.heap
  pub is_new : ¬ IsLive p v.heap
  pub live : IsLive p v'.heap
  pub stays : Stays v.heap v'.heap
  pub name_ptr : ℕ
  pub inodes : v'.inodes ≡ update v.inodes p (new_inode name name_ptr type ops d)

abbrev pub NodeOutcome : List ℕ → NodeType → Ops → Payload → Vfs → Option ℕ × Vfs → Type 0
NodeOutcome name type ops d v (none, v') = Failed v v'
NodeOutcome name type ops d v (some p, v') = Created name type ops d p v v'

-- What is live after a pointer is given and freed again.
pub SameLive-undone :
    (p : ℕ) (h h₁ h₂ h₃ : Heap)
    → ¬ IsLive p h
    → ((q : ℕ) → (IsLive q h → IsLive q h₁) × (IsLive q h₁ → (q ≡ p) ⊎ IsLive q h))
    → SameLive h₁ h₂
    → Releases p h₂ h₃
    → SameLive h h₃
SameLive-undone p h h₁ h₂ h₃ n given same (gone, others) q = (
  λ x. (others q).0 (λ e. n (subst (λ z. IsLive z h) e x)) ((same q).0 ((given q).0 x)),
  λ x. elim ((given q).1 ((same q).1 ((others q).1 x))) [
    | inl e ↦ absurd (gone (subst (λ z. IsLive z h₃) e x))
    | inr y ↦ y
  ],
)

module _ (name : List ℕ) (type : NodeType) (ops : Ops) (d : Payload) (v : Vfs) where
  named-NodeOutcome :
      (p : ℕ) (h : Heap) (x : ℕ × Heap)
      → IsHeap h
      → ¬ IsLive p v.heap
      → IsLive p h
      → ((q : ℕ) → (IsLive q v.heap → IsLive q h) × (IsLive q h → (q ≡ p) ⊎ IsLive q v.heap))
      → IsHeap x.1
      → GivesFresh h x
      → NodeOutcome name type ops d v (named_node name type ops d p x (record v { heap = h }))
  named-NodeOutcome p h (q, h₂) i n l given i₂ (inl (e, same)) =
      let z : (q == 0) ≡ true = ground (arith, e) in
      let (i₃, r) = kfree-Releases p h₂ i₂ ((same p).0 l) in
      rw z (record {
        heap = i₃;
        live = SameLive-undone p v.heap h h₂ (kfree p h₂) n given same r;
        inodes = refl;
      })
  named-NodeOutcome p h (q, h₂) i n l given i₂ (inr (pos, n₂, l₂, step)) =
      let z : (q == 0) ≡ false = ground (arith, pos) in
      rw z (record {
        heap = i₂;
        is_new = n;
        live = (step p).0 l;
        stays = λ k x. (step k).0 ((given k).0 x);
        name_ptr = q;
        inodes = refl;
      })

  node_at-NodeOutcome :
      (x : ℕ × Heap)
      → length name + 1 ≤ 2 ^ 47
      → IsHeap x.1
      → GivesFresh v.heap x
      → NodeOutcome name type ops d v (node_at name type ops d x v)
  node_at-NodeOutcome (p, h) short i (inl (e, same)) =
      let z : (p == 0) ≡ true = ground (arith, e) in
      rw z (record { heap = i; live = same; inodes = refl })
  node_at-NodeOutcome (p, h) short i (inr (pos, n, l, given)) =
      let z : (p == 0) ≡ false = ground (arith, pos) in
      let (i₂, g) = kmalloc-GivesFresh (length name + 1) h (omega arith) short i in
      rw z (named-NodeOutcome p h (strdup name h) i n l given i₂ g)

  pub create_node-NodeOutcome :
      length name + 1 ≤ 2 ^ 47
      → IsHeap v.heap
      → NodeOutcome name type ops d v (create_node name type ops d v)
  unfolding create_node
  create_node-NodeOutcome short i =
      let (i₁, g) = kmalloc-GivesFresh sizeof_node v.heap (omega arith) (omega arith) i in
      node_at-NodeOutcome (kmalloc sizeof_node v.heap) short i₁ g

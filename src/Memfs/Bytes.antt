-- ===== src/Memfs/Bytes.antt =====
-- What a write leaves in a file, and what is read of it.
use myos.Base.{
  ℕ, suc, ◌+◌, ◌-◌, ◌%◌, ◌^◌, ◌≤◌, ◌<◌, ◌≡◌, ◌≢◌, min, max, refl, sym, ap, ap₂, ◌∙◌, subst, Bool,
  true, false, not, ◌&&◌, Option, none, some, List, [], ◌∷◌, length, get_or, ltb, leb, ◌==◌,
  if◌then◌else◌, arith, inl, inr, Bool-cases, ◌⊎◌,
}
use myos.Base.Align.{u64_mod}
use mathlib.Core.Bool.{true≢false}
use myos.Kmalloc.{Heap, kmalloc}
use myos.Memfs.{
  MemFile, Node, file, file_of, is_file, slice, read_bytes, read, start_cap, moved, with_room, put,
  written, write_file, write,
}
use myos.Memfs.Grow.{IsGrown, double_cap-ends}

-- The size is within the capacity, and a file without a buffer has none.
pub record IsWf (f : MemFile) : Type 0 where
  pub inside : f.size ≤ f.cap
  pub word : f.cap < u64_mod
  pub empty : f.data_ptr ≡ 0 → f.cap ≡ 0

-- f' is f with room for need bytes.
record Roomy (need : ℕ) (f f' : MemFile) : Type 0 where
  size : f'.size ≡ f.size
  room : need ≤ f'.cap
  more : f.cap ≤ f'.cap
  word : f'.cap < u64_mod
  kept : (k : ℕ) → k < f.size → f'.bytes k ≡ f.bytes k
  buffer : f'.data_ptr ≡ 0 → f'.cap ≡ 0

-- The capacity that growing begins with.
abbrev pub IsStart : ℕ → ℕ → Type 0
IsStart cap start = ((cap ≡ 0) × (start ≡ 64)) ⊎ ((cap ≢ 0) × (start ≡ cap))

-- The file is too small, and the heap has no memory for a buffer of the capacity it grows to: the first
-- of 64, or its own capacity, and their doublings that is large enough.
abbrev pub IsOut : ℕ → MemFile → Heap → Type 0
IsOut need f h =
    (f.cap < need)
    × (start : ℕ) × (c : ℕ) × IsStart f.cap start
    × IsGrown start need c
    × ((kmalloc c h).0 ≡ 0)

abbrev RoomyOr : ℕ → MemFile → Heap → Option MemFile × Heap → Type 0
RoomyOr need f h (none, h') = IsOut need f h
RoomyOr need f h (some f', h') = Roomy need f f'

module _ (raw : ℕ → ℕ) (need : ℕ) (f : MemFile) (h : Heap) (w : IsWf f)
    (small : need ≤ 2 ^ 63) where
  moved-RoomyOr :
      (start c : ℕ) (q : ℕ × Heap)
      → kmalloc c h ≡ q
      → f.cap < need
      → IsStart f.cap start
      → IsGrown start need c
      → f.cap ≤ c
      → c < u64_mod
      → RoomyOr need f h (moved raw c f q)
  moved-RoomyOr start c (ptr, h') e low from (k, d, a, m) b l = elim (Bool-cases (ptr == 0)) [
    | inl z ↦
        let out : ptr ≡ 0 = ground (arith, z) in
        rw z (low, start, c, from, (k, d, a, m), ap (λ q. q.0) e ∙ out)
    | inr z ↦ rw z (record {
      size = refl;
      room = a;
      more = b;
      word = l;
      kept = kept;
      buffer = λ none'.
          absurd
            (true≢false (sym (let same : (ptr == 0) ≡ true = ground (arith, none') in same) ∙ z));
    })
  ]
    where
      kept :
          (k : ℕ)
          → k < f.size
          → (if not (f.data_ptr == 0) && ltb k f.size then f.bytes k else raw (ptr + k)) ≡ f.bytes k
      kept k low = elim (Bool-cases (f.data_ptr == 0)) [
        | inl e ↦ absurd (omega (arith, w.empty (ground (arith, e)), w.inside, low))
        | inr e ↦ let in_size : ltb k f.size ≡ true = ground (arith, low) in rw (e, in_size) refl
      ]

  with_room-RoomyOr : RoomyOr need f h (with_room raw need f h)
  with_room-RoomyOr = elim (Bool-cases (ltb f.cap need)) [
    | inr e ↦ rw e (record {
      size = refl;
      room = ground (arith, e);
      more = omega arith;
      word = w.word;
      kept = λ k low. refl;
      buffer = w.empty;
    })
    | inl e ↦
        let (c, r, a, b, l) = double_cap-ends (start_cap f) need starts below small in
        rw e (
          rw r (
            moved-RoomyOr (start_cap f) c (kmalloc c h) refl (ground (arith, e)) from a
              (omega (arith, b, larger)) l))
  ]
    where
      from : IsStart f.cap (start_cap f)
      from = elim (Bool-cases (f.cap == 0)) [
        | inl e ↦ rw e (inl (ground (arith, e), refl))
        | inr e ↦ rw e (inr (λ x. ground (arith, e, x), refl))
      ]

      starts : 0 < start_cap f
      starts = elim (Bool-cases (f.cap == 0)) [
        | inl e ↦ rw e (omega arith)
        | inr e ↦ rw e (ground (arith, e))
      ]

      below : start_cap f < u64_mod
      below = elim (Bool-cases (f.cap == 0)) [ inl e ↦ rw e (omega arith) | inr e ↦ rw e w.word ]

      larger : f.cap ≤ start_cap f
      larger = elim (Bool-cases (f.cap == 0)) [
        | inl e ↦ rw e (ground (arith, e))
        | inr e ↦ rw e (omega arith)
      ]

-- What writing buf at an offset may do: it fails for lack of memory and changes nothing of the file; or the
-- bytes of buf stand at the offset, all other bytes of the file are what they were, and the size is
-- the larger of the old one and the end of what was written.
abbrev pub Written : ℕ → List ℕ → MemFile → Node → Heap → Option ℕ × Node × Heap → Type 0
Written offset buf f node h (none, node', h') = (node' ≡ node) × IsOut (offset + length buf) f h
Written offset buf f node h (some n, node', h') =
    (n ≡ length buf)
    × (f' : MemFile) × (node'.type ≡ node.type)
    × (node'.contents ≡ some f')
    × IsWf f'
    × (node'.size ≡ f'.size)
    × (f'.size ≡ max f.size (offset + length buf))
    × ((k : ℕ) → k < length buf → f'.bytes (offset + k) ≡ get_or buf k 0)
    × ((k : ℕ) → k < f.size → ((k < offset) ⊎ (offset + length buf ≤ k)) → f'.bytes k ≡ f.bytes k)

module _ (offset : ℕ) (buf : List ℕ) (f : MemFile) (node : Node) (h : Heap) (w : IsWf f)
    (end_ : offset + length buf ≤ 2 ^ 63) where
  put-Written :
      (f₂ : MemFile) (h' : Heap)
      → Roomy (offset + length buf) f f₂
      → Written offset buf f node h (written offset buf (offset + length buf) node (some f₂, h'))
  put-Written f₂ h' r = (
    refl,
    put offset buf (offset + length buf) f₂,
    refl,
    refl,
    record { inside = inside; word = r.word; empty = r.buffer },
    refl,
    size,
    here,
    other,
  )
    where
      need : ℕ
      need = offset + length buf

      size : (if ltb f₂.size need then need else f₂.size) ≡ max f.size need
      size = ground (arith, r.size)

      inside : (if ltb f₂.size need then need else f₂.size) ≤ f₂.cap
      inside = ground (arith, r.size, r.room, r.more, w.inside)

      here : (k : ℕ) → k < length buf → (put offset buf need f₂).bytes (offset + k) ≡ get_or buf k 0
      here k low =
          let e : (leb offset (offset + k) && ltb (offset + k) (offset + length buf)) ≡ true =
            ground (arith, low) in
          let at : offset + k - offset ≡ k = omega arith in rw e (ap (λ i. get_or buf i 0) at)

      other :
          (k : ℕ)
          → k < f.size
          → ((k < offset) ⊎ (offset + length buf ≤ k))
          → (put offset buf need f₂).bytes k ≡ f.bytes k
      other k low out =
          let e : (leb offset k && ltb k (offset + length buf)) ≡ false = apart out in
          rw e (r.kept k low)
        where
          apart :
              ((k < offset) ⊎ (offset + length buf ≤ k))
              → (leb offset k && ltb k (offset + length buf)) ≡ false
          apart (inl a) = ground (arith, a)
          apart (inr a) = ground (arith, a)

  written-Written :
      (q : Option MemFile × Heap)
      → RoomyOr (offset + length buf) f h q
      → Written offset buf f node h (written offset buf (offset + length buf) node q)
  written-Written (none, h') out = (refl, out)
  written-Written (some f₂, h') r = put-Written f₂ h' r

is_file_of :
    (node : Node) (f : MemFile) → node.type ≡ file → node.contents ≡ some f → file_of node ≡ some f
is_file_of node f t c = ap (λ z. if is_file z then node.contents else none) t ∙ c

-- For a file whose size is within its capacity, and an end of at most 2^63: `memfs_write` fails only where
-- the capacity is below the end and kmalloc has no memory for the capacity the file grows to, the
-- first of 64, or its own one, and their doublings that reaches the end, and changes nothing of the
-- file then; otherwise the bytes stand at the offset, every other byte of the file stays, and the size
-- is the larger of the old one and the end of what was written.
pub write_lem :
    (raw : ℕ → ℕ) (offset : ℕ) (buf : List ℕ) (f : MemFile) (node : Node) (h : Heap)
    → node.type ≡ file
    → node.contents ≡ some f
    → IsWf f
    → offset + length buf ≤ 2 ^ 63
    → Written offset buf f node h (write raw offset buf node h)
unfolding write
write_lem raw offset buf f node h t c w end_ = subst (Written offset buf f node h) (sym opened) (
    written-Written offset buf f node h w end_ (with_room raw (offset + length buf) f h)
      (with_room-RoomyOr raw (offset + length buf) f h w end_))
  where
    opened :
        write_file raw offset buf (file_of node) node h
        ≡ written offset buf (offset + length buf) node (with_room raw (offset + length buf) f h)
    opened =
        let wrap : (offset + length buf) % u64_mod ≡ offset + length buf = omega (arith, end_) in
        ap (λ o. write_file raw offset buf o node h) (is_file_of node f t c)
        ∙ ap (λ n. written offset buf n node (with_room raw n f h)) wrap

slice_lem :
    (bytes : ℕ → ℕ) (i : ℕ) (buf : List ℕ)
    → ((k : ℕ) → k < length buf → bytes (i + k) ≡ get_or buf k 0)
    → slice bytes i (length buf) ≡ buf
unfolding slice
slice_lem bytes i [] same = refl
slice_lem bytes i (b ∷ buf) same =
    let first : bytes i ≡ b = ap bytes (omega arith) ∙ same 0 (omega arith) in
    let rest : (k : ℕ) → k < length buf → bytes (i + 1 + k) ≡ get_or buf k 0 =
      λ k h. ap bytes (omega arith) ∙ same (suc k) (omega (arith, h)) in
    ap₂ (λ c s. c ∷ s) first (slice_lem bytes (i + 1) buf rest)

-- After a successful write, reading at the same place gives what was written.
abbrev pub ReadsBack : ℕ → List ℕ → Option ℕ × Node × Heap → Type 0
ReadsBack offset buf (none, node, h) = Path Bool true true
ReadsBack offset buf (some n, node, h) = read offset n node ≡ some buf

Written-ReadsBack :
    (offset : ℕ) (buf : List ℕ) (f : MemFile) (node : Node) (h : Heap) (q : Option ℕ × Node × Heap)
    → node.type ≡ file
    → 0 < length buf
    → Written offset buf f node h q
    → ReadsBack offset buf q
unfolding read
Written-ReadsBack offset buf f node h (none, node', h') t pos w = refl
Written-ReadsBack offset buf f node h (some n, node', h') t pos
      (len, f', t', c, wf, _, size, here, _) =
    ap (λ o. shown o) (is_file_of node' f' (t' ∙ t) c) ∙ ap some whole
  where
    shown : Option MemFile → Option (List ℕ)
    shown o = elim o [ none ↦ none | some g ↦ some (read_bytes offset n g) ]

    whole : read_bytes offset n f' ≡ buf
    whole =
        let e : leb f'.size offset ≡ false = ground (arith, size, pos) in
        let m : min n (f'.size - offset) ≡ length buf = ground (arith, len, size) in
        rw (e, m) (slice_lem f'.bytes offset buf here)

-- The round trip: a successful `memfs_write` of at least one byte, and a `memfs_read` of as many bytes as
-- it says at the same offset, give the bytes that were written.
pub read-write :
    (raw : ℕ → ℕ) (offset : ℕ) (buf : List ℕ) (f : MemFile) (node : Node) (h : Heap)
    → node.type ≡ file
    → node.contents ≡ some f
    → IsWf f
    → offset + length buf ≤ 2 ^ 63
    → 0 < length buf
    → ReadsBack offset buf (write raw offset buf node h)
read-write raw offset buf f node h t c w end_ pos =
    Written-ReadsBack offset buf f node h (write raw offset buf node h) t pos
      (write_lem raw offset buf f node h t c w end_)

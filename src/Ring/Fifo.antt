-- ===== src/Ring/Fifo.antt =====
-- A ring of `cap` slots is a first-in first-out queue of at most `cap - 1` entries that drops what
-- does not fit.
use myos.Base.{
  ℕ, zero, suc, ◌+◌, ◌-◌, ◌%◌, ◌<◌, ◌≡◌, refl, ap, ap₂, ◌∙◌, inl, inr, Option, none, some, List, [],
  ◌∷◌, ◌++◌, ltb, leb, ◌==◌, if◌then◌else◌, update, length, arith, Bool-cases, ◌≢◌, true, false,
}
use myos.Ring.{Ring, enqueue, dequeue, Op, put, get, run}

-- The specification of a history, over the list of the entries held, oldest first.
module _ {ℓ} {A : Type ℓ} (cap : ℕ) where
  pub run_spec : List A → List (Op A) → List (Option A)
  run_spec q [] = []
  run_spec q (put x ∷ ops) = run_spec (if ltb (length q + 1) cap then q ++ (x ∷ []) else q) ops
  run_spec [] (get ∷ ops) = none ∷ run_spec [] ops
  run_spec (x ∷ q) (get ∷ ops) = some x ∷ run_spec q ops

-- The index after i, and the way from i to h, round the ring.
unfoldable pub next : ℕ → ℕ → ℕ
next cap i = (i + 1) % cap

next_lem : (cap i : ℕ) → i < cap → next cap i ≡ (if i + 1 == cap then 0 else i + 1)
unfolding next
next_lem cap i h = grind arith

unfoldable pub gap : ℕ → ℕ → ℕ → ℕ
gap cap i h = if leb i h then h - i else h + cap - i

gap-next : (cap i h n : ℕ) → i < cap → h < cap → gap cap i h ≡ suc n → gap cap (next cap i) h ≡ n
unfolding gap
gap-next cap i h n hi hh e = ground (arith, next_lem cap i hi)

next-lt : (cap i : ℕ) → i < cap → next cap i < cap
next-lt cap i h = ground (arith, next_lem cap i h)

gap-zero : (cap i h : ℕ) → i < cap → h < cap → gap cap i h ≡ 0 → i ≡ h
unfolding gap
gap-zero cap i h hi hh e = ground arith

gap_apart : (cap i h n : ℕ) → i < cap → h < cap → gap cap i h ≡ suc n → i ≢ h
unfolding gap
gap_apart cap i h n hi hh e = ground arith

-- Moving the head on makes the way longer by one, unless it meets the tail.
gap-next_head :
    (cap i h : ℕ)
    → i < cap
    → h < cap
    → next cap h ≢ i
    → (gap cap i (next cap h) ≡ suc (gap cap i h)) × (gap cap i h + 1 < cap)
unfolding gap
gap-next_head cap i h hi hh ne = ground (arith, next_lem cap h hh)

-- Where it meets the tail, every slot but one is taken.
gap_full : (cap i h : ℕ) → i < cap → h < cap → next cap h ≡ i → gap cap i h + 1 ≡ cap
unfolding gap
gap_full cap i h hi hh e = ground (arith, next_lem cap h hh)

module _ {ℓ} {A : Type ℓ} (cap : ℕ) where
  -- The n entries from index i on.
  unfoldable pub window : (ℕ → A) → ℕ → ℕ → List A
  window s i zero = []
  window s i (suc n) = s i ∷ window s (next cap i) n

  unfoldable pub contents : Ring A → List A
  contents r = window r.slots r.tail (gap cap r.tail r.head)

  abbrev pub IsValid : Ring A → Type 0
  IsValid r = (r.head < cap) × (r.tail < cap)

  length-window : (s : ℕ → A) (i n : ℕ) → length (window s i n) ≡ n
  unfolding window
  length-window s i zero = refl
  length-window s i (suc n) = ap suc (length-window s (next cap i) n)

  -- Writing the slot after a window extends it.
  window-update :
      (s : ℕ → A) (x : A) (n i h : ℕ)
      → i < cap
      → h < cap
      → gap cap i h ≡ n
      → window (update s h x) i (suc n) ≡ window s i n ++ (x ∷ [])
  unfolding window
  window-update s x zero i h hi hh e =
      let here : update s h x i ≡ x = ground (arith, gap-zero cap i h hi hh) in
      ap (λ y. y ∷ []) here
  window-update s x (suc n) i h hi hh e =
      let there : update s h x i ≡ s i = ground (arith, gap_apart cap i h n hi hh e) in
      ap₂ ◌∷◌ there
        (window-update s x n (next cap i) h (next-lt cap i hi) hh (gap-next cap i h n hi hh e))

  -- A new entry goes to the end while the ring holds fewer than `cap - 1`, and is dropped at the
  -- limit.
  pub contents-enqueue :
      (r : Ring A) (x : A)
      → IsValid r
      → contents (enqueue cap r x)
        ≡ (if ltb (length (contents r) + 1) cap then contents r ++ (x ∷ []) else contents r)
  unfolding contents enqueue next
  contents-enqueue r x v =
      let size = length-window r.slots r.tail (gap cap r.tail r.head) in
      elim (Bool-cases ((r.head + 1) % cap == r.tail)) [
        | inl full ↦
            let e : ltb (length (contents r) + 1) cap ≡ false =
              ground (arith, size, gap_full cap r.tail r.head v.1 v.0) in
            rw (full, e) refl
        | inr room ↦
            let grown = gap-next_head cap r.tail r.head v.1 v.0 (ground arith) in
            let e : ltb (length (contents r) + 1) cap ≡ true = ground (arith, size, grown) in
            rw (room, e, grown.0)
              (window-update r.slots x (gap cap r.tail r.head) r.tail r.head v.1 v.0 refl)
      ]

  pub enqueue-IsValid : (r : Ring A) (x : A) → IsValid r → IsValid (enqueue cap r x)
  unfolding enqueue next
  enqueue-IsValid r x v = ground (arith, next-lt cap r.head v.0)

  -- What `dequeue` does to the contents.
  abbrev pub Dequeued : Ring A → List A → Option (A × Ring A) → Type ℓ
  Dequeued r [] o = o ≡ none
  Dequeued r (x ∷ xs) o = (r' : Ring A) × (o ≡ some (x, r')) × IsValid r' × (contents r' ≡ xs)

  dequeue_at :
      (r : Ring A) (n : ℕ)
      → IsValid r
      → gap cap r.tail r.head ≡ n
      → Dequeued r (window r.slots r.tail n) (dequeue cap r)
  unfolding window contents dequeue next
  dequeue_at r zero v e =
      let same : (r.tail == r.head) ≡ true = ground (arith, gap-zero cap r.tail r.head v.1 v.0) in
      rw same
  dequeue_at r (suc n) v e =
      let more : (r.tail == r.head) ≡ false =
        ground (arith, gap_apart cap r.tail r.head n v.1 v.0 e) in
      rw more (
        record r { tail = (r.tail + 1) % cap },
        refl,
        (v.0, next-lt cap r.tail v.1),
        ap (window r.slots (next cap r.tail)) (gap-next cap r.tail r.head n v.1 v.0 e),
      )

  pub dequeue-Dequeued : (r : Ring A) → IsValid r → Dequeued r (contents r) (dequeue cap r)
  unfolding contents
  dequeue-Dequeued r v = dequeue_at r (gap cap r.tail r.head) v refl

  -- No history of puts and gets tells a ring whose indices are in range from the list of its
  -- contents that takes a new entry at the end while it holds fewer than `cap - 1`.
  pub run-run_spec :
      (ops : List (Op A)) (r : Ring A) → IsValid r → run cap r ops ≡ run_spec cap (contents r) ops
  unfolding run run_spec
  run-run_spec [] r v = refl
  run-run_spec (put x ∷ ops) r v =
      run-run_spec ops (enqueue cap r x) (enqueue-IsValid r x v)
      ∙ ap (λ q. run_spec cap q ops) (contents-enqueue r x v)
  run-run_spec (get ∷ ops) r v =
      got (λ r' v'. run-run_spec ops r' v') (contents r) refl (dequeue-Dequeued r v)
    where
      got :
          ((r' : Ring A) → IsValid r' → run cap r' ops ≡ run_spec cap (contents r') ops)
          → (xs : List A) → contents r ≡ xs
          → Dequeued r xs (dequeue cap r)
          → run cap r (get ∷ ops) ≡ run_spec cap (contents r) (get ∷ ops)
      got ih [] e d = rw (e, d, run) (ap (λ t. none ∷ t) (ih r v ∙ ap (λ q. run_spec cap q ops) e))
      got ih (x ∷ xs) e (r', d, v', rest) =
          rw (e, d, run) (ap (λ t. some x ∷ t) (ih r' v' ∙ ap (λ q. run_spec cap q ops) rest))

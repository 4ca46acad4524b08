-- ===== src/Input/Packet.antt =====
-- The mouse handler of src/input.c over the bytes of a whole packet.
use myos.Base.{
  ℕ, ◌+◌, ◌≡◌, ◌≢◌, refl, true, false, ◌&&◌, Option, none, some, List, [], ◌∷◌, ◌++◌, ltb, ◌==◌,
  if◌then◌else◌, update, bit_and, arith, length, ap, ◌∙◌, sym, subst, Bool, Bool-cases, inl, inr,
}
use myos.Base.Int.{ℤ, pos}
use myos.Ring.Fifo.{contents, IsValid, contents-enqueue}
use myos.Input.{Input, MouseEvent, to_int8, event_of, mouse_byte, queue_mouse, queue_size}

-- Bytes one after the other; the scrolling of the last.
unfoldable pub feed : List ℕ → Input → Input
feed [] s = s
feed (b ∷ bs) s = feed bs (mouse_byte b s).1

-- The packet of a mouse, with the byte of its wheel if it has one, and the event that it stands for.
abbrev pub last_of : Option ℕ → List ℕ
last_of none = []
last_of (some b₃) = b₃ ∷ []

abbrev pub bytes_of : ℕ → ℕ → ℕ → Option ℕ → List ℕ
bytes_of b₀ b₁ b₂ w = b₀ ∷ b₁ ∷ b₂ ∷ last_of w

abbrev pub size_of : Option ℕ → ℕ
size_of none = 3
size_of (some b₃) = 4

abbrev pub wheel_of : Option ℕ → ℤ
wheel_of none = pos 0
wheel_of (some b₃) = to_int8 b₃

abbrev pub move : ℕ → ℕ → ℕ → Option ℕ → MouseEvent
move b₀ b₁ b₂ w = record {
  dx = to_int8 b₁;
  dy = to_int8 b₂;
  wheel = wheel_of w;
  buttons = bit_and b₀ 0x07;
}

-- Bytes without the bit that marks the first of a packet.
unfoldable pub are_stray : List ℕ → Bool
are_stray [] = true
are_stray (b ∷ bs) = (bit_and b 0x08 == 0) && are_stray bs

abbrev pub Queued : Input → MouseEvent → Input → Type 0
Queued s e s' =
    let old = contents queue_size s.mouse in
    (contents queue_size s'.mouse
      ≡ (if ltb (length old + 1) queue_size then old ++ (e ∷ []) else old))
    × (s'.idx ≡ 0)
    × (s'.packet_size ≡ s.packet_size)
    × (s'.keys ≡ s.keys)

feed-stray :
    (s : Input) (junk bs : List ℕ)
    → s.idx ≡ 0
    → are_stray junk ≡ true
    → feed (junk ++ bs) s ≡ feed bs s
unfolding feed are_stray mouse_byte
feed-stray s [] bs idx h = refl
feed-stray s (b ∷ junk) bs idx h = elim (Bool-cases (bit_and b 0x08 == 0)) [
  | inr e ↦ ground (arith, h, e)
  | inl e ↦
      let rest : are_stray junk ≡ true = ground (arith, h, e) in
      let here : (s.idx == 0) ≡ true = ground (arith, idx) in
      let stays : (mouse_byte b s).1 ≡ s = rw (here, e) refl in
      ap (feed (junk ++ bs)) stays ∙ feed-stray s junk bs idx rest
]

-- The first byte of a packet is kept.
started : Input → ℕ → Input
started s b = record s { packet = update s.packet 0 b; idx = 1 }

mouse_byte-started :
    (s : Input) (b : ℕ) (w : Option ℕ)
    → s.idx ≡ 0
    → s.packet_size ≡ size_of w
    → bit_and b 0x08 ≢ 0
    → (mouse_byte b s).1 ≡ started s b
unfolding mouse_byte started
mouse_byte-started s b w idx size sync =
    let synced : ((s.idx == 0) && (bit_and b 0x08 == 0)) ≡ false = ground (arith, sync) in
    let more : ltb (s.idx + 1) s.packet_size ≡ true = long w idx size in
    rw (synced, mouse_byte)
      (rw more (ap (λ i. record s { packet = update s.packet i b; idx = i + 1 }) idx))
  where
    long :
        (o : Option ℕ)
        → s.idx ≡ 0
        → s.packet_size ≡ size_of o
        → ltb (s.idx + 1) s.packet_size ≡ true
    long none i z = ground arith
    long (some b₃) i z = ground arith

-- The state with its packet size written out.
sized : Input → ℕ → Input
sized s n = record s { packet_size = n }

feed-sized :
    (s : Input) (b₀ b₁ b₂ : ℕ) (w : Option ℕ)
    → IsValid queue_size s.mouse
    → Queued
        (sized s (size_of w))
        (move b₀ b₁ b₂ w)
        (feed (b₁ ∷ b₂ ∷ last_of w) (started (sized s (size_of w)) b₀))
unfolding feed mouse_byte queue_mouse event_of started sized
feed-sized s b₀ b₁ b₂ none valid =
    (contents-enqueue queue_size s.mouse (move b₀ b₁ b₂ none) valid, refl, refl, refl)
feed-sized s b₀ b₁ b₂ (some b₃) valid =
    (contents-enqueue queue_size s.mouse (move b₀ b₁ b₂ (some b₃)) valid, refl, refl, refl)

feed-bytes_of :
    (s : Input) (b₀ b₁ b₂ : ℕ) (w : Option ℕ)
    → s.idx ≡ 0
    → s.packet_size ≡ size_of w
    → IsValid queue_size s.mouse
    → bit_and b₀ 0x08 ≢ 0
    → Queued s (move b₀ b₁ b₂ w) (feed (bytes_of b₀ b₁ b₂ w) s)
unfolding feed sized
feed-bytes_of s b₀ b₁ b₂ w idx size valid sync =
    let e = move b₀ b₁ b₂ w in
    let rest = b₁ ∷ b₂ ∷ last_of w in
    let same : sized s (size_of w) ≡ s = ap (sized s) (sym size) in
    subst (λ x. Queued s e (feed rest x)) (sym (mouse_byte-started s b₀ w idx size sync))
      (subst (λ x. Queued x e (feed rest (started x b₀))) same (feed-sized s b₀ b₁ b₂ w valid))

-- Where no packet is begun, the handler skips bytes that cannot begin one; the bytes of a packet that
-- follows, three of them or with a wheel four, put one event with their movement and buttons at the
-- end of the queue, or nothing where 63 events wait, and leave no packet begun, and the keys alone.
pub feed_lem :
    (s : Input) (junk : List ℕ) (b₀ b₁ b₂ : ℕ) (w : Option ℕ)
    → s.idx ≡ 0
    → s.packet_size ≡ size_of w
    → IsValid queue_size s.mouse
    → are_stray junk ≡ true
    → bit_and b₀ 0x08 ≢ 0
    → Queued s (move b₀ b₁ b₂ w) (feed (junk ++ bytes_of b₀ b₁ b₂ w) s)
feed_lem s junk b₀ b₁ b₂ w idx size valid stray sync =
    subst (Queued s (move b₀ b₁ b₂ w)) (sym (feed-stray s junk (bytes_of b₀ b₁ b₂ w) idx stray))
      (feed-bytes_of s b₀ b₁ b₂ w idx size valid sync)

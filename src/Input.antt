-- ===== src/Input.antt =====
-- src/input.c: the keyboard's and the mouse's interrupt handlers and their queues. The bytes read
-- from the controller's ports are arguments; what the mouse wheel scrolls the console by is a result.
-- The set-up of the controller is port input and output, and is left out but for the packet size
-- that it chooses by the device's identity.
pub mod Packet
mod Tests
use myos.Base.{
  ℕ, zero, suc, ◌+◌, ◌-◌, ◌*◌, Bool, true, false, ◌&&◌, Option, none, some, ltb, ◌==◌,
  if◌then◌else◌, update, bit_and,
}
use myos.Base.Int.{ℤ, pos, negsuc}
use myos.Ring
use myos.Ring.{Ring}

abbrev pub queue_size : ℕ
queue_size = 64

pub record KeyEvent : Type 0 where
  pub scancode : ℕ
  pub pressed : Bool

pub record MouseEvent : Type 0 where
  pub dx : ℤ
  pub dy : ℤ
  pub wheel : ℤ
  pub buttons : ℕ

pub record Input : Type 0 where
  pub keys : Ring KeyEvent
  pub mouse : Ring MouseEvent
  pub packet_size : ℕ
  pub packet : ℕ → ℕ
  pub idx : ℕ

-- The cast from uint8_t to int8_t.
abbrev pub to_int8 : ℕ → ℤ
to_int8 b = if ltb b 128 then pos b else negsuc (255 - b)

abbrev pub packet_size_of : ℕ → ℕ
packet_size_of id = if id == 3 then 4 else 3

unfoldable pub queue_key : ℕ → Input → Input
queue_key code s = record s {
  keys =
      Ring.enqueue queue_size s.keys
        (record { pressed = bit_and code 0x80 == 0; scancode = bit_and code 0x7F });
}

unfoldable pub queue_mouse : MouseEvent → Input → Input
queue_mouse e s = record s { mouse = Ring.enqueue queue_size s.mouse e }

unfoldable pub handle_irq1 : ℕ → Input → Input
handle_irq1 code s = queue_key code s

-- The event in the packet.
unfoldable pub event_of : ℕ → (ℕ → ℕ) → MouseEvent
event_of size packet = record {
  dx = to_int8 (packet 1);
  dy = to_int8 (packet 2);
  wheel = if size == 4 then to_int8 (packet 3) else pos 0;
  buttons = bit_and (packet 0) 0x07;
}

-- The lines to scroll by: three for each step of the wheel.
abbrev pub scroll_of : ℤ → Option ℤ
scroll_of (pos zero) = none
scroll_of (pos n) = some (pos (n * 3))
scroll_of (negsuc n) = some (negsuc (n * 3 + 2))

-- What the handler does with a byte of the mouse: the lines to scroll by, and the new state.
unfoldable pub mouse_byte : ℕ → Input → Option ℤ × Input
mouse_byte byte s =
    if (s.idx == 0) && (bit_and byte 0x08 == 0)
    then (none, s)
    else (let s₁ = record s { packet = update s.packet s.idx byte; idx = s.idx + 1 } in
        if ltb s₁.idx s₁.packet_size
        then (none, s₁)
        else (let e = event_of s₁.packet_size s₁.packet in
            (scroll_of e.wheel, queue_mouse e (record s₁ { idx = 0 }))))

unfoldable pub handle_irq12 : ℕ → ℕ → Input → Option ℤ × Input
handle_irq12 status byte s = if bit_and status 0x01 == 0 then (none, s) else mouse_byte byte s

-- `none` is the result 0; otherwise the event that goes out.
unfoldable pub read_key : Input → Option (KeyEvent × Input)
read_key s = elim (Ring.dequeue queue_size s.keys) [
  | none ↦ none
  | some (e, q) ↦ some (e, record s { keys = q })
]

unfoldable pub read_mouse : Input → Option (MouseEvent × Input)
read_mouse s = elim (Ring.dequeue queue_size s.mouse) [
  | none ↦ none
  | some (e, q) ↦ some (e, record s { mouse = q })
]

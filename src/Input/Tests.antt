-- ===== src/Input/Tests.antt =====
-- The mouse handler at concrete bytes.
use myos.Base.{◌≡◌, refl, arith, some, [], ◌∷◌, ◌++◌, false}
use myos.Base.Int.{pos, negsuc}
use myos.Ring
use myos.Ring.Fifo.{contents, window, gap, next}
use myos.Input.{Input, queue_size, mouse_byte, queue_mouse, event_of}
use myos.Input.Packet.{feed, bytes_of, move, Queued, are_stray, feed_lem}

abbrev fresh : Input
fresh = record {
  keys = Ring.empty (record { scancode = 0; pressed = false });
  mouse = Ring.empty (record { dx = pos 0; dy = pos 0; wheel = pos 0; buttons = 0 });
  packet_size = 4;
  packet = λ _. 0;
  idx = 0;
}

moved :
    contents queue_size (feed (0x00 ∷ 0x09 ∷ 5 ∷ 251 ∷ 255 ∷ []) fresh).mouse
    ≡ record { dx = pos 5; dy = negsuc 4; wheel = negsuc 0; buttons = 1 } ∷ []
unfolding contents window gap next feed mouse_byte queue_mouse event_of Ring.empty Ring.enqueue
moved = refl

feed_lem_example :
    Queued fresh
      (move 0x09 5 251 (some 255))
      (feed ((0x00 ∷ []) ++ bytes_of 0x09 5 251 (some 255)) fresh)
unfolding are_stray Ring.empty
feed_lem_example =
    feed_lem fresh (0x00 ∷ []) 0x09 5 251 (some 255) refl refl (omega arith) refl (omega arith)

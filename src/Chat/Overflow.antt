-- ===== src/Chat/Overflow.antt =====
-- `/chatGetMessages` of src/confab/ChatServer.cpp after the greatest number that a client can send.
use sclork_tools.Prelude.{
  ℕ, suc, ◌+◌, ◌^◌, ◌-◌, ◌<◌, pos, negsuc, ◌+ℤ◌, ◌-ℤ◌, ltb_ℤ, List, ◌∷◌, ◌≡◌, refl, ap, ◌∙◌, arith,
  false,
}
use sclork_tools.Chat.Defs.{
  Event, wild, ChatServer, send_at, ring_index, send_from, first_after, send_messages, to_int,
}
use sclork_tools.Chat.Requests.{to_int_minus, wild_rounds}

greatest_test : (m limit : ℕ) → m < 2 ^ 31 → ltb_ℤ (pos limit) (pos m -ℤ pos (2 ^ 31 - 1)) ≡ false
unfolding ◌-ℤ◌
greatest_test m limit h = ground arith

-- The sum with one is the least `int`.
greatest_start :
    (s : ChatServer) (limit : ℕ)
    → s.max_messages_per_request ≡ pos limit
    → s.message_serial < 2 ^ 31
    → to_int (first_after s (pos (2 ^ 31 - 1)) +ℤ pos 1) ≡ negsuc (2 ^ 31 - 1)
unfolding first_after to_int ◌+ℤ◌
greatest_start s limit e h =
    rw
      (
        e,
        to_int_minus s.message_serial (2 ^ 31 - 1) h (omega arith),
        greatest_test s.message_serial limit h,
      )
      refl

-- The first two rounds of the loop from there.
two_rounds :
    (s : ChatServer) (rounds : ℕ)
    → send_from s (suc (suc rounds)) (negsuc (2 ^ 31 - 1))
      ≡ send_at s (pos 0)
        ∷ wild (negsuc 126)
        ∷ send_from s rounds (negsuc (2 ^ 31 - 1) +ℤ pos 1 +ℤ pos 1)
unfolding send_from ring_index send_at ◌+ℤ◌ ◌-ℤ◌
two_rounds s rounds = refl

-- With fewer than 2^31 messages queued and a limit that is not negative, a request after the number
-- 2^31 - 1, to which the program adds one in an `int`, makes a server whose sums wrap around begin at
-- the index 0 of its arrays and go on at the index -127, in front of them.
pub send_messages-overflow :
    (s : ChatServer) (limit : ℕ)
    → s.max_messages_per_request ≡ pos limit
    → s.message_serial < 2 ^ 31
    → (rest : List Event) × (send_messages s (pos (2 ^ 31 - 1))
        ≡ send_at s (pos 0) ∷ wild (negsuc 126) ∷ rest)
unfolding send_messages
send_messages-overflow s limit e h =
    let same : s.message_serial + (2 ^ 31 - 1) ≡ suc (s.message_serial + (2 ^ 31 - 2)) =
      omega arith in
    rw (greatest_start s limit e h, wild_rounds s.message_serial (2 ^ 31 - 1))
      (
        send_from s (s.message_serial + (2 ^ 31 - 2)) (negsuc (2 ^ 31 - 1) +ℤ pos 1 +ℤ pos 1),
        ap (λ k. send_from s (suc k) (negsuc (2 ^ 31 - 1))) same
            ∙ two_rounds s (s.message_serial + (2 ^ 31 - 2)),
      )

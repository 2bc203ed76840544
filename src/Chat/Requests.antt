-- ===== src/Chat/Requests.antt =====
-- `/chatGetMessages` of src/confab/ChatServer.cpp: which messages of the history are sent back.
use Prim.Native.Nat.{max}
use native.Mathlib.Decide.{dec_le}
use sclork_tools.Prelude.{
  ℕ, zero, suc, ◌+◌, ◌-◌, ◌%◌, ◌≤◌, ◌<◌, ℤ, pos, negsuc, pos_part, ◌+ℤ◌, ◌-ℤ◌, max_ℤ, ltb_ℤ,
  int_laws, eq_of_parts, String, List, [], ◌∷◌, map, ◌≡◌, refl, ap, arith, get_elem?, drop, length,
  ltb, leb, if◌then◌else◌, some, false, ◌^◌, neg_part, ◌∙◌,
}
use sclork_tools.Chat.Defs.{
  to_int, Message, Event, send, wild, ChatServer, send_at, ring_index, send_from, first_after,
  send_messages, message_array_size,
}
use sclork_tools.Chat.History.{History, Holds}

-- What a slot of the history reads as when it is sent.
abbrev pub sent : String × Message → Event
sent (path, message) = send path message

get_elem?-drop {ℓ} :
    {A : Type ℓ} (xs : List A) (k : ℕ)
    → k < length xs
    → (a : A) × (get_elem? xs k ≡ some a) × (drop k xs ≡ a ∷ drop (suc k) xs)
get_elem?-drop [] k h = elim h [ ]
get_elem?-drop (x ∷ xs) zero h = (x, refl, refl)
get_elem?-drop (x ∷ xs) (suc k) h = get_elem?-drop xs k (omega arith)

pub send_at-sent :
    (s : ChatServer) (h : History)
    → Holds s h
    → (k : ℕ) (e : String × Message) → get_elem? h k ≡ some e
    → length h ≤ k + 128
    → send_at s (ring_index (pos k)) ≡ sent e
unfolding send_at ring_index
send_at-sent s h v k e p fits = let (q, r) = v.kept k e p fits in rw (q, send_at) (rw (r, send_at))

drop_all {ℓ} : {A : Type ℓ} (xs : List A) (k : ℕ) → length xs ≤ k → drop k xs ≡ []
drop_all [] zero h = refl
drop_all [] (suc k) h = refl
drop_all (x ∷ xs) zero h = absurd (omega arith)
drop_all (x ∷ xs) (suc k) h = drop_all xs k (omega arith)

next_pos : (k : ℕ) → pos k +ℤ pos 1 ≡ pos (suc k)
next_pos k = eq_of_parts _ _ (omega int_laws)

-- Sending the last messages of the history, from a number that is still in the ring.
pub send_from-drop :
    (s : ChatServer) (h : History)
    → Holds s h
    → (rounds k : ℕ) → k + rounds ≡ length h
    → length h ≤ k + 128
    → send_from s rounds (pos k) ≡ map sent (drop k h)
unfolding send_from
send_from-drop s h v zero k e fits = rw (drop_all h k (omega arith)) refl
send_from-drop s h v (suc rounds) k e fits =
    let (x, at, split) = get_elem?-drop h k (omega arith) in
    rw (send_at-sent s h v k x at fits) (
      rw split (
        ap (λ t. sent x ∷ t)
          (rw (next_pos k) (send_from-drop s h v rounds (suc k) (omega arith) (omega arith)))))

rounds_left : (n k : ℕ) → k ≤ n → k + pos_part (pos n -ℤ pos k) ≡ n
rounds_left n k h = unfold ◌-ℤ◌ in ground arith

rounds_none : (n k : ℕ) → n ≤ k → pos_part (pos n -ℤ pos k) ≡ 0
rounds_none n k h = unfold ◌-ℤ◌ in ground arith

-- A number of 32 bits is its own `int`.
to_int_small : (z : ℤ) → pos_part z < 2 ^ 31 → neg_part z ≤ 2 ^ 31 → to_int z ≡ z
unfolding to_int
to_int_small (pos n) h k = ground arith
to_int_small (negsuc n) h k = ground arith

to_int_pos : (n : ℕ) → n < 2 ^ 31 → to_int (pos n) ≡ pos n
to_int_pos n h = to_int_small (pos n) h (omega arith)

pub to_int_minus : (n q : ℕ) → n < 2 ^ 31 → q < 2 ^ 31 → to_int (pos n -ℤ pos q) ≡ pos n -ℤ pos q
to_int_minus n q h k =
    to_int_small (pos n -ℤ pos q) (unfold ◌-ℤ◌ in ground arith) (unfold ◌-ℤ◌ in ground arith)

to_int_cut :
    (n limit : ℕ)
    → n < 2 ^ 31
    → limit ≤ 128
    → to_int (pos n -ℤ pos limit -ℤ pos 1) ≡ pos n -ℤ pos limit -ℤ pos 1
to_int_cut n limit h k =
    to_int_small (pos n -ℤ pos limit -ℤ pos 1) (unfold ◌-ℤ◌ in ground arith)
      (unfold ◌-ℤ◌ in ground arith)

send_messages-start :
    (s : ChatServer) (h : History) (m : ℤ) (k : ℕ)
    → Holds s h
    → to_int (first_after s m +ℤ pos 1) ≡ pos k
    → length h ≤ k + 128
    → send_messages s m ≡ map sent (drop k h)
unfolding send_messages
send_messages-start s h m k v e fits =
    rw (e, v.serial)
      (elim (dec_le k (length h)) [
        | yes p ↦ send_from-drop s h v _ k (rounds_left (length h) k p) fits
        | no p ↦
            rw (rounds_none (length h) k (omega arith), drop_all h k (omega arith))
              (unfold send_from in refl)
      ])

cut_test : (n q limit : ℕ) → ltb_ℤ (pos limit) (pos n -ℤ pos q) ≡ ltb (q + limit) n
unfolding ◌-ℤ◌
cut_test n q limit = ground arith

cut_start : (n limit : ℕ) → max_ℤ (pos 0) (pos n -ℤ pos limit -ℤ pos 1) ≡ pos (n - limit - 1)
unfolding max_ℤ ◌-ℤ◌
cut_start n limit = ground arith

next_after :
    (n q limit : ℕ)
    → (if ltb (q + limit) n then pos (n - limit - 1) else pos q) +ℤ pos 1
      ≡ pos (max (q + 1) (n - limit))
unfolding ◌+ℤ◌
next_after n q limit = ground arith

first_after-max :
    (s : ChatServer) (h : History) (q limit : ℕ)
    → Holds s h
    → s.max_messages_per_request ≡ pos limit
    → limit ≤ 128
    → length h < 2 ^ 31
    → q + 1 < 2 ^ 31
    → to_int (first_after s (pos q) +ℤ pos 1) ≡ pos (max (q + 1) (length h - limit))
unfolding first_after
first_after-max s h q limit v e fits small k =
    rw
      (
        e,
        v.serial,
        to_int_minus (length h) q small (omega arith),
        to_int_cut (length h) limit small fits,
        cut_test (length h) q limit,
        cut_start (length h) limit,
      )
      (ap to_int (next_after (length h) q limit)
        ∙ to_int_pos (max (q + 1) (length h - limit)) (omega arith))

to_int_from : (n : ℕ) → n + 1 < 2 ^ 31 → to_int (pos n -ℤ negsuc 0) ≡ pos n -ℤ negsuc 0
to_int_from n h =
    to_int_small (pos n -ℤ negsuc 0) (unfold ◌-ℤ◌ in ground arith) (unfold ◌-ℤ◌ in ground arith)

from_test : (n limit : ℕ) → ltb_ℤ (pos limit) (pos n -ℤ negsuc 0) ≡ leb limit n
unfolding ◌-ℤ◌
from_test n limit = ground arith

from_next :
    (n limit : ℕ)
    → (if leb limit n then pos (n - limit - 1) else negsuc 0) +ℤ pos 1
      ≡ pos (if ltb n limit then 0 else max 1 (n - limit))
unfolding ◌+ℤ◌
from_next n limit = ground arith

from_start :
    (s : ChatServer) (h : History) (limit : ℕ)
    → Holds s h
    → s.max_messages_per_request ≡ pos limit
    → limit ≤ 128
    → length h + 1 < 2 ^ 31
    → to_int (first_after s (negsuc 0) +ℤ pos 1)
      ≡ pos (if ltb (length h) limit then 0 else max 1 (length h - limit))
unfolding first_after
from_start s h limit v e fits small =
    rw
      (
        e,
        v.serial,
        to_int_from (length h) small,
        to_int_cut (length h) limit (omega arith) fits,
        from_test (length h) limit,
        cut_start (length h) limit,
      )
      (ap to_int (from_next (length h) limit)
        ∙ to_int_pos (if ltb (length h) limit then 0 else max 1 (length h - limit)) (ground arith))

-- If the ring holds a history `h` of less than 2^31 messages and an answer is limited to at most 128
-- messages, what `/chatGetMessages` sends after the message numbered `q`, for a `q` below 2^31 - 1, are
-- the messages of the history from `max (q + 1) (length h - limit)` on, in order.
pub send_messages-drop :
    (s : ChatServer) (h : History) (q limit : ℕ)
    → Holds s h
    → s.max_messages_per_request ≡ pos limit
    → limit ≤ 128
    → length h < 2 ^ 31
    → q + 1 < 2 ^ 31
    → send_messages s (pos q) ≡ map sent (drop (max (q + 1) (length h - limit)) h)
unfolding send_messages
send_messages-drop s h q limit v e fits small k =
    send_messages-start s h (pos q) _ v (first_after-max s h q limit v e fits small k) (omega arith)

-- If the ring holds a history of less than 2^31 - 1 messages and an answer is limited to at most 128
-- messages, `/chatGetMessages` after -1 sends all of the history when this is shorter than the limit,
-- and otherwise its last messages from `max 1 (length h - limit)` on: the message 0 is left out of a
-- history exactly as long as the limit.
pub send_messages-from_start :
    (s : ChatServer) (h : History) (limit : ℕ)
    → Holds s h
    → s.max_messages_per_request ≡ pos limit
    → limit ≤ 128
    → length h + 1 < 2 ^ 31
    → send_messages s (negsuc 0)
      ≡ map sent (drop (if ltb (length h) limit then 0 else max 1 (length h - limit)) h)
unfolding send_messages
send_messages-from_start s h limit v e fits small =
    send_messages-start s h (negsuc 0) _ v (from_start s h limit v e fits small) (ground arith)

wild_test :
    (m n limit : ℕ) → m + n + 2 ≤ limit → ltb_ℤ (pos limit) (pos m -ℤ negsuc (n + 1)) ≡ false
unfolding ◌-ℤ◌
wild_test m n limit h = ground arith

to_int_wild :
    (m n : ℕ) → m + n + 2 ≤ 128 → to_int (pos m -ℤ negsuc (n + 1)) ≡ pos m -ℤ negsuc (n + 1)
to_int_wild m n h =
    to_int_small (pos m -ℤ negsuc (n + 1)) (unfold ◌-ℤ◌ in ground arith)
      (unfold ◌-ℤ◌ in ground arith)

wild_start :
    (s : ChatServer) (n limit : ℕ)
    → s.max_messages_per_request ≡ pos limit
    → limit ≤ 128
    → s.message_serial + n + 2 ≤ limit
    → to_int (first_after s (negsuc (n + 1)) +ℤ pos 1) ≡ negsuc n
unfolding first_after
wild_start s n limit e fits h =
    rw (e, to_int_wild s.message_serial n (omega arith), wild_test s.message_serial n limit h)
      (ap to_int (eq_of_parts (negsuc (n + 1) +ℤ pos 1) (negsuc n) (omega int_laws))
        ∙ to_int_small (negsuc n) (omega arith) (omega arith))

pub wild_rounds : (m n : ℕ) → pos_part (pos m -ℤ negsuc n) ≡ suc (m + n)
unfolding ◌-ℤ◌
wild_rounds m n = ground arith

send_at-wild :
    (s : ChatServer) (n : ℕ) → n + 1 < 128 → send_at s (ring_index (negsuc n)) ≡ wild (negsuc n)
unfolding ring_index send_at
send_at-wild s n h =
    let e : pos 0 -ℤ pos (suc n % message_array_size) ≡ negsuc n =
      eq_of_parts _ _ (omega int_laws) in
    rw (e, send_at) refl

-- With a limit of at most 128 messages, a request after the number -(n + 2), where the limit is at
-- least the server's serial number and n + 2 more, makes the server begin by reading its arrays at
-- the index -(n + 1), in front of them.
pub send_messages-wild :
    (s : ChatServer) (n limit : ℕ)
    → s.max_messages_per_request ≡ pos limit
    → limit ≤ 128
    → s.message_serial + n + 2 ≤ limit
    → (rest : List Event) × (send_messages s (negsuc (n + 1)) ≡ wild (negsuc n) ∷ rest)
unfolding send_messages
send_messages-wild s n limit e fits h =
    rw (wild_start s n limit e fits h, wild_rounds s.message_serial n)
      (
        send_from s (s.message_serial + n) (negsuc n +ℤ pos 1),
        unfold send_from in
            ap (λ t. t ∷ send_from s (s.message_serial + n) (negsuc n +ℤ pos 1))
              (send_at-wild s n (omega arith)),
      )

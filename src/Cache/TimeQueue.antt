-- ===== src/Cache/TimeQueue.antt =====
-- `std::priority_queue<TimePath>` of src/confab/CacheManager.hpp, as the list of its elements. Its top
-- is the greatest element: the latest time, and among equal times the greatest path.
use sclork_tools.Prelude.{
  ℕ, Bytes, Bool, ◌&&◌, ◌||◌, Option, none, some, List, [], ◌∷◌, ltb, ◌==◌, if◌then◌else◌,
}
use sclork_tools.Database.Bytewise.{bytes_lt}

abbrev pub TimePath : Type 0
TimePath = ℕ × Bytes

-- `operator<` of pairs
unfoldable pub time_path_lt : TimePath → TimePath → Bool
time_path_lt (t, p) (u, q) = ltb t u || t == u && bytes_lt p q

-- `top` and `pop`, of a queue with one element and others.
unfoldable pub pop : TimePath → List TimePath → TimePath × List TimePath
unfolding time_path_lt
pop e [] = (e, [])
pop e (x ∷ xs) =
    let (greatest, rest) = pop x xs in
    if time_path_lt greatest e then (e, greatest ∷ rest) else (greatest, e ∷ rest)

-- The top of the queue and what `pop` leaves; none of an empty queue.
unfoldable pub oldest_of : List TimePath → Option (TimePath × List TimePath)
unfolding pop
oldest_of [] = none
oldest_of (e ∷ es) = some (pop e es)

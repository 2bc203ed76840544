-- ===== src/Chat/History.antt =====
-- The message ring of ChatServer against the list of all messages ever queued, oldest first.
use sclork_tools.Prelude.{
  ℕ, zero, suc, ◌+◌, ◌-◌, ◌%◌, ◌≤◌, ◌<◌, ℤ, pos, String, List, [], ◌∷◌, ◌++◌, some, ◌≡◌, ◌≢◌, ◌⊎◌,
  inl, inr, refl, sym, ap, ◌∙◌, arith, get_elem?, length, length-set, length-append,
  get_elem?-set_self, set, Bool-cases, if◌then◌else◌, none, false, get_elem?-set_ne, ltb, true,
}
use mathlib.Core.Path.{subst}
use sclork_tools.Chat.Defs.{Event, int32, Message, free, ChatServer, init, queue_message, free_at}

abbrev pub History : Type 0
History = List (String × Message)

-- The message begins with its own serial number.
abbrev pub Carries : ℕ → Message → Type 0
Carries n (int32 z ∷ m) = z ≡ pos n
Carries n m = ⊥

abbrev pub Numbered : ℕ → History → Type 0
Numbered n [] = Unit
Numbered n (e ∷ h) = Carries n e.1 × Numbered (n + 1) h

-- The last 128 messages of the history stand in the ring, each at its number modulo 128, and every
-- message carries its number.
pub record Holds (s : ChatServer) (h : History) : Type 0 where
  pub serial : s.message_serial ≡ length h
  pub paths_size : length s.paths ≡ 128
  pub messages_size : length s.messages ≡ 128
  pub kept :
      (k : ℕ) (e : String × Message)
      → get_elem? h k ≡ some e
      → length h ≤ k + 128
      → (get_elem? s.paths (k % 128) ≡ some (some e.0))
        × (get_elem? s.messages (k % 128) ≡ some (some e.1))
  pub numbered : Numbered 0 h

get_elem?-lt {ℓ} :
    {A : Type ℓ} (xs : List A) (k : ℕ) (a : A) → get_elem? xs k ≡ some a → k < length xs
get_elem?-lt [] k a e = absurd (ground arith)
get_elem?-lt (x ∷ xs) zero a e = omega arith
get_elem?-lt (x ∷ xs) (suc k) a e = omega (arith, get_elem?-lt xs k a e)

-- An entry of a list with one more at its end is an entry of the list, or the new one.
get_elem?-snoc {ℓ} :
    {A : Type ℓ} (xs : List A) (x a : A) (k : ℕ)
    → get_elem? (xs ++ x ∷ []) k ≡ some a
    → (get_elem? xs k ≡ some a) ⊎ ((k ≡ length xs) × (x ≡ a))
get_elem?-snoc [] x a zero e = inr (refl, ground arith)
get_elem?-snoc [] x a (suc k) e = absurd (ground arith)
get_elem?-snoc (y ∷ xs) x a zero e = inl e
get_elem?-snoc (y ∷ xs) x a (suc k) e = elim (get_elem?-snoc xs x a k e) [
  | inl p ↦ inl p
  | inr (p, q) ↦ inr (ap suc p, q)
]

Numbered-snoc :
    (n : ℕ) (h : History) (e : String × Message)
    → Numbered n h
    → Carries (n + length h) e.1
    → Numbered n (h ++ e ∷ [])
Numbered-snoc n [] e u c = (subst (λ k. Carries k e.1) (omega arith) c, tt)
Numbered-snoc n (x ∷ h) e u c =
    (u.0, Numbered-snoc (n + 1) h e u.1 (subst (λ k. Carries k e.1) (omega arith) c))

pub init-Holds : (timeout max_messages now : ℤ) → Holds (init timeout max_messages now) []
unfolding init
init-Holds timeout max_messages now = record {
  serial = refl;
  paths_size = refl;
  messages_size = refl;
  kept = λ k e p. absurd (ground arith);
  numbered = tt;
}

queue-kept :
    (path : String) (message : Message) (s : ChatServer) (h : History)
    → Holds s h
    → (k : ℕ) (e : String × Message) → get_elem? (h ++ (path, message) ∷ []) k ≡ some e
    → length (h ++ (path, message) ∷ []) ≤ k + 128
    → (get_elem? (queue_message path message s).0.paths (k % 128) ≡ some (some e.0))
      × (get_elem? (queue_message path message s).0.messages (k % 128) ≡ some (some e.1))
unfolding queue_message
queue-kept path message s h v k e p fits = elim (get_elem?-snoc h (path, message) e k p) [
  | inr (here, same) ↦
      let i : k % 128 ≡ s.message_serial % 128 = ap (λ t. t % 128) (here ∙ sym v.serial) in
      rw i (
        get_elem?-set_self s.paths _ (some path) (omega arith) ∙ ap (λ x. some (some x.0)) same,
        get_elem?-set_self s.messages _ (some message) (omega arith)
            ∙ ap (λ x. some (some x.1)) same,
      )
  | inl old ↦
      let apart : s.message_serial % 128 ≢ k % 128 =
        omega (arith, get_elem?-lt h k e old, v.serial, length-append h ((path, message) ∷ [])) in
      let kept = v.kept k e old (omega (arith, length-append h ((path, message) ∷ []))) in
      (
        get_elem?-set_ne s.paths (some path) apart ∙ kept.0,
        get_elem?-set_ne s.messages (some message) apart ∙ kept.1,
      )
]

-- Queueing a message that carries the current serial number adds it to the history.
pub queue-Holds :
    (path : String) (message : Message) (s : ChatServer) (h : History)
    → Holds s h
    → Carries s.message_serial message
    → Holds (queue_message path message s).0 (h ++ (path, message) ∷ [])
unfolding queue_message
queue-Holds path message s h v c = record {
  serial = omega (arith, v.serial, length-append h ((path, message) ∷ []));
  paths_size = omega (arith, length-set s.paths (s.message_serial % 128) (some path), v.paths_size);
  messages_size =
      omega (arith, length-set s.messages (s.message_serial % 128) (some message), v.messages_size);
  kept = queue-kept path message s h v;
  numbered =
      Numbered-snoc 0 h (path, message) v.numbered
        (subst (λ k. Carries k message) (omega (arith, v.serial)) c);
}

get_elem?-some {ℓ} :
    {A : Type ℓ} (xs : List A) (k : ℕ) → k < length xs → (a : A) × (get_elem? xs k ≡ some a)
get_elem?-some [] k h = absurd (omega arith)
get_elem?-some (x ∷ xs) zero h = (x, refl)
get_elem?-some (x ∷ xs) (suc k) h = get_elem?-some xs k (omega arith)

-- What is freed when a message is queued behind a history: the message queued 128 messages before,
-- but nothing when exactly 128 have been queued.
abbrev pub freed : History → List Event
freed h =
    if ltb 128 (length h)
    then elim (get_elem? h (length h - 128)) [ none ↦ [] | some e ↦ free e.1 ∷ [] ]
    else []

-- If the ring holds a history, queueing one more message puts it into the slot of the message queued
-- 128 messages before it, if there is one, and frees exactly that message if the history has more
-- than 128. Of a history of exactly 128 the first message is overwritten and not freed.
pub queue-frees :
    (path : String) (message : Message) (s : ChatServer) (h : History)
    → Holds s h
    → ((queue_message path message s).1 ≡ freed h)
      × (get_elem? (queue_message path message s).0.messages (length h % 128) ≡ some (some message))
unfolding queue_message
queue-frees path message s h v =
    let i : s.message_serial % 128 ≡ length h % 128 = ap (λ n. n % 128) v.serial in
    let written : get_elem? (set s.messages (s.message_serial % 128) (some message))
          (length h % 128)
        ≡ some (some message) =
      subst
        (λ n.
          get_elem? (set s.messages (s.message_serial % 128) (some message)) n
          ≡ some (some message))
        i (get_elem?-set_self s.messages _ (some message) (omega (arith, v.messages_size))) in
    elim (Bool-cases (ltb 128 (length h))) [
      | inl long ↦
          let (e, at) = get_elem?-some h (length h - 128) (ground arith) in
          let slot = (v.kept (length h - 128) e at (ground arith)).1 in
          let j : s.message_serial % 128 ≡ (length h - 128) % 128 = ground (arith, v.serial) in
          let after : ltb 128 s.message_serial ≡ true = rw v.serial long in
          (rw (long, at, after, j, slot, free_at) refl, written)
      | inr short ↦
          let before : ltb 128 s.message_serial ≡ false = rw v.serial short in
          (rw (short, before) refl, written)
    ]

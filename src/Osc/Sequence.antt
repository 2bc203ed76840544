-- ===== src/Osc/Sequence.antt =====
-- The messages of src/confab/OscHandler.cpp one after another.
use mathlib.Core.Path.{subst}
use sclork_tools.Prelude.{
  ℕ, List, [], ◌∷◌, ◌++◌, ◌≡◌, ◌⊎◌, inl, inr, refl, sym, ap, ◌∙◌, append_assoc, append-nil,
}
use sclork_tools.Osc.Messages.{
  Message, Task, Dispatch, runs, bad_arguments, invalid_key, invalid_type, unknown_message,
  process_message,
}
use sclork_tools.Osc.Handlers.{
  Environment, System, Confab, Ran, ended, raised, undefined, running, Packet,
}
use sclork_tools.Osc.Tasks.{perform, on_message, run}
use sclork_tools.Osc.Replies.{Answers, Answered}
use sclork_tools.Osc.Answers.{perform-Answered}

-- Each packet is the answer to a message, in the order of the messages, and no message has two.
pub data InOrder : List (Environment × Message) → List Packet → Type 0 where
  nothing : InOrder [] []
  silent :
      {m : Environment × Message} {ms : List (Environment × Message)} {ps : List Packet}
      → InOrder ms ps
      → InOrder (m ∷ ms) ps
  answer :
      {m : Environment × Message} {ms : List (Environment × Message)} {p : Packet}
      {ps : List Packet} (t : Task)
      → process_message m.1 ≡ runs t
      → Answers t p
      → InOrder ms ps
      → InOrder (m ∷ ms) (p ∷ ps)

module _ (S : System) where
  abbrev One : Message → List Packet → Confab S → Type 0
  One m sent c =
      (c.sent ≡ sent)
      ⊎ ((t : Task) × (p : Packet) × (process_message m ≡ runs t)
          × Answers t p
          × (c.sent ≡ sent ++ p ∷ []))

  abbrev OneAnswer : Message → List Packet → Ran S → Type 0
  OneAnswer m sent (ended c) = One m sent c
  OneAnswer m sent (raised c) = One m sent c
  OneAnswer m sent undefined = Unit
  OneAnswer m sent running = Unit

  one_of_task :
      (m : Message) (t : Task) (sent : List Packet) (r : Ran S)
      → process_message m ≡ runs t
      → Answered S t sent r
      → OneAnswer m sent r
  one_of_task m t sent (ended c) e (p, more, a, size) = inr (t, p, e, a, more)
  one_of_task m t sent (raised c) e same = inl same
  one_of_task m t sent undefined e h = tt
  one_of_task m t sent running e h = tt

  on_message-OneAnswer :
      (fuel : ℕ) (e : Environment) (m : Message) (c : Confab S) (d : Dispatch)
      → process_message m ≡ d
      → OneAnswer m c.sent (on_message S fuel e m c)
  unfolding on_message
  on_message-OneAnswer fuel e m c (runs t) h =
      rw (h, on_message)
        (one_of_task m t c.sent (perform S fuel e t c) h (perform-Answered S fuel e t c))
  on_message-OneAnswer fuel e m c bad_arguments h = rw (h, on_message) (inl refl)
  on_message-OneAnswer fuel e m c invalid_key h = rw (h, on_message) (inl refl)
  on_message-OneAnswer fuel e m c invalid_type h = rw (h, on_message) (inl refl)
  on_message-OneAnswer fuel e m c unknown_message h = rw (h, on_message) (inl refl)

  -- The packets that have been sent are the old ones and the answers.
  abbrev pub Ordered : List (Environment × Message) → List Packet → Ran S → Type 0
  Ordered ms sent (ended c) = (ps : List Packet) × (c.sent ≡ sent ++ ps) × InOrder ms ps
  Ordered ms sent (raised c) = ⊥
  Ordered ms sent undefined = Unit
  Ordered ms sent running = Unit

  step_Ordered :
      (m : Environment × Message) (ms : List (Environment × Message)) (sent : List Packet)
      (c : Confab S) (r : Ran S)
      → One m.1 sent c
      → Ordered ms c.sent r
      → Ordered (m ∷ ms) sent r
  step_Ordered m ms sent c (ended d) (inl same) (ps, e, o) =
      (ps, e ∙ ap (λ l. l ++ ps) same, silent o)
  step_Ordered m ms sent c (ended d) (inr (t, p, runs_t, a, more)) (ps, e, o) =
      (p ∷ ps, e ∙ ap (λ l. l ++ ps) more ∙ append_assoc sent (p ∷ []) ps, answer t runs_t a o)
  step_Ordered m ms sent c (raised d) one h = h
  step_Ordered m ms sent c undefined one h = tt
  step_Ordered m ms sent c running one h = tt

  run_on :
      (fuel : ℕ) (e : Environment) (m : Message) (ms : List (Environment × Message)) (c : Confab S)
      → ((c' : Confab S) → Ordered ms c'.sent (run S fuel ms c'))
      → (r : Ran S) → on_message S fuel e m c ≡ r
      → Ordered ((e, m) ∷ ms) c.sent (run S fuel ((e, m) ∷ ms) c)
  unfolding run
  run_on fuel e m ms c rest (ended c') h =
      rw (h, run)
        (step_Ordered (e, m) ms c.sent c' (run S fuel ms c')
          (subst (OneAnswer m c.sent) h (on_message-OneAnswer fuel e m c _ refl)) (rest c'))
  run_on fuel e m ms c rest (raised c') h =
      rw (h, run)
        (step_Ordered (e, m) ms c.sent c' (run S fuel ms c')
          (subst (OneAnswer m c.sent) h (on_message-OneAnswer fuel e m c _ refl)) (rest c'))
  run_on fuel e m ms c rest undefined h = rw (h, run) tt
  run_on fuel e m ms c rest running h = rw (h, run) tt

  -- If the messages have been worked off, what has been sent is what was sent before and then
  -- answers to messages in their order, at most one to each. No exception stops the listener.
  pub run-Ordered :
      (fuel : ℕ) (ms : List (Environment × Message)) (c : Confab S)
      → Ordered ms c.sent (run S fuel ms c)
  unfolding run
  run-Ordered fuel [] c = ([], sym (append-nil c.sent), nothing)
  run-Ordered fuel ((e, m) ∷ ms) c = run_on fuel e m ms c (run-Ordered fuel ms) _ refl

-- ===== src/Chat/Serving.antt =====
-- The program of src/confab/confab-server.cpp from its start to its end.
use sclork_tools.Prelude.{
  ℕ, pos, negsuc, ltb_ℤ, Bool, true, false, Option, none, some, List, [], ◌∷◌, ◌++◌, map, ◌≡◌, refl,
  sym, ap, ◌∙◌, append_assoc, append-nil, ◌||◌, if◌then◌else◌, Bool-cases, inl, inr,
}
use sclork_tools.Chat.Defs.{Event, send, free, wild, ChatServer, init}
use sclork_tools.Chat.Handlers.{Call, run, handle_message}
use sclork_tools.Chat.History.{Holds}
use sclork_tools.Chat.News.{history}
use sclork_tools.Chat.Growth.{run-init-Holds}
use sclork_tools.Chat.Service.{
  Effect, thread_new, add_method, thread_start, thread_stop, thread_free, event, Setting, Service,
  Exit, exited, undefined, any_wild, create, start, stop, destroy, listen, build, serve, main,
}

-- The server as it has worked through the messages.
abbrev pub worked : Setting → ChatServer
worked setting =
    run setting.calls (init setting.timeout setting.max_messages_per_request setting.built)

-- The calls of liblo that make and start a thread.
abbrev pub opening : Setting → ℕ → List Effect
opening setting thread =
    thread_new setting.chat_port ∷ add_method (some thread) ∷ thread_start (some thread) ∷ []

map-append {ℓ ℓ'} :
    {A : Type ℓ} {B : Type ℓ'} (f : A → B) (xs ys : List A)
    → map f (xs ++ ys) ≡ map f xs ++ map f ys
map-append f [] ys = refl
map-append f (x ∷ xs) ys = ap (λ l. f x ∷ l) (map-append f xs ys)

-- What the handlers call of liblo for the messages, in their order.
unfoldable pub answers : List Call → ChatServer → List Event
unfolding handle_message
answers [] s = []
answers (c ∷ cs) s =
    let (s', events) = handle_message c.path c.args c.now c.later s in events ++ answers cs s'

any_wild-append : (xs ys : List Event) → any_wild (xs ++ ys) ≡ (any_wild xs || any_wild ys)
any_wild-append [] ys = refl
any_wild-append (send path m ∷ xs) ys = any_wild-append xs ys
any_wild-append (free m ∷ xs) ys = any_wild-append xs ys
any_wild-append (wild i ∷ xs) ys = refl

-- What `listen` makes of the server: the messages are answered, and nothing else is called.
abbrev listened : List Call → Service → Service
listened cs s = record s {
  chat = run cs s.chat;
  effects = s.effects ++ map event (answers cs s.chat);
}

listen_lem :
    (cs : List Call) (s : Service)
    → listen cs s ≡ (if any_wild (answers cs s.chat) then none else some (listened cs s))
unfolding listen run answers
listen_lem [] s = ap (λ es. some (record s { effects = es })) (sym (append-nil s.effects))
listen_lem (c ∷ cs) s =
    let (chat', events) = handle_message c.path c.args c.now c.later s.chat in
    let next : Service = record s { chat = chat'; effects = s.effects ++ map event events } in
    let ends = ap (λ o. if any_wild events then none else o) (listen_lem cs next) in
    let effects : (s.effects ++ map event events) ++ map event (answers cs chat')
        ≡ s.effects ++ map event (events ++ answers cs chat') =
      append_assoc s.effects (map event events) (map event (answers cs chat'))
      ∙ ap (λ es. s.effects ++ es) (sym (map-append event events (answers cs chat'))) in
    ends
    ∙ rw (any_wild-append events (answers cs chat')) (elim (Bool-cases (any_wild events)) [
      | inl bad ↦ rw bad refl
      | inr fine ↦ rw fine (
          ap
            (λ es.
              if any_wild (answers cs chat')
              then none
              else some (record s { chat = run cs chat'; effects = es }))
            effects)
    ])

-- The calls of liblo for the messages of a run.
abbrev pub answered : Setting → List Event
answered setting =
    answers setting.calls (init setting.timeout setting.max_messages_per_request setting.built)

-- What is left of a server that has not been started.
abbrev pub Unstarted : Setting → Option ℕ → List Effect → Exit → Type 0
Unstarted setting thread effects (exited code (some s)) =
    (code ≡ negsuc 0)
    × (s.chat ≡ init setting.timeout setting.max_messages_per_request setting.built)
    × (s.tcp_thread ≡ thread)
    × (s.effects ≡ effects)
Unstarted setting thread effects (exited code none) = ⊥
Unstarted setting thread effects undefined = ⊥

-- What is left of a server that has been started on a thread.
abbrev pub Worked : Setting → ℕ → Exit → Type 0
Worked setting thread (exited code (some s)) =
    (any_wild (answered setting) ≡ false)
    × (code ≡ pos 0)
    × Holds s.chat (
        history setting.calls (init setting.timeout setting.max_messages_per_request setting.built)
          [])
    × (s.tcp_thread ≡ none)
    × (s.effects
        ≡ opening setting thread
          ++ map event (answered setting)
          ++ thread_stop (some thread) ∷ thread_free (some thread) ∷ [])
Worked setting thread (exited code none) = ⊥
Worked setting thread undefined = any_wild (answered setting) ≡ true

-- By the thread that liblo makes, and whether its start fails.
abbrev pub Opened : Setting → Option ℕ → Bool → Exit → Type 0
Opened setting none fails r = Unstarted setting none (thread_new setting.chat_port ∷ []) r
Opened setting (some thread) true r = Unstarted setting (some thread) (opening setting thread) r
Opened setting (some thread) false r = Worked setting thread r

-- By whether the signals are masked.
abbrev pub Masked : Setting → Bool → Exit → Type 0
Masked setting false r = r ≡ exited (negsuc 0) none
Masked setting true r =
    let thread = setting.new_thread setting.chat_port in
    Opened setting thread (ltb_ℤ (setting.start_thread thread) (pos 0)) r

abbrev pub Served : Setting → Exit → Type 0
Served setting r = Masked setting setting.masked r

-- A server whose thread has been started.
opened : Setting → ℕ → Service
unfolding build
opened setting thread = record (build setting) {
  tcp_thread = some thread;
  effects = opening setting thread;
}

serve-Worked :
    (setting : Setting) (thread : ℕ)
    → Worked setting thread (serve setting (opened setting thread, true))
unfolding serve stop destroy opened build run
serve-Worked setting thread =
    let e = listen_lem setting.calls (opened setting thread) in
    elim (Bool-cases (any_wild (answered setting))) [
      | inl bad ↦
          let over : listen setting.calls (opened setting thread) ≡ none = e ∙ rw bad refl in
          rw (over, serve) bad
      | inr fine ↦
          let over : listen setting.calls (opened setting thread)
              ≡ some (listened setting.calls (opened setting thread)) =
            e ∙ rw fine refl in
          rw (over, serve)
            (
              fine,
              refl,
              run-init-Holds setting.timeout setting.max_messages_per_request setting.built
                  setting.calls,
              refl,
              ap (λ es. opening setting thread ++ es)
                  (append_assoc (map event (answered setting)) (thread_stop (some thread) ∷ [])
                    (thread_free (some thread) ∷ [])),
            )
    ]

start-Opened :
    (setting : Setting) (made : Option ℕ) (fails : Bool)
    → setting.new_thread setting.chat_port ≡ made
    → ltb_ℤ (setting.start_thread made) (pos 0) ≡ fails
    → Opened setting made fails (start setting (create setting (build setting)))
unfolding start create run build opened
start-Opened setting none fails e e' = rw (e, create) (refl, refl, refl, refl)
start-Opened setting (some thread) true e e' = rw (e, create, e') (refl, refl, refl, refl)
start-Opened setting (some thread) false e e' = rw (e, create, e') (serve-Worked setting thread)

-- The run of confab-server, whatever liblo returns and whatever messages arrive. Where the signals
-- cannot be masked, or liblo makes no thread or does not start it, the program returns -1 without
-- having answered a message; a thread that has been made is not freed. Otherwise, if no handler reads
-- the arrays where nothing is, it returns 0: between the start of the thread and its stop the calls of
-- liblo are those of the handlers for the messages, in their order, after which the server held the
-- history that they bring, and the thread has been stopped and freed, once. If a handler does, and only
-- then, the run is undefined.
pub main-Served : (setting : Setting) → Served setting (main setting)
unfolding main
main-Served setting = elim (Bool-cases setting.masked) as (λ x. Served setting (main setting)) [
  | inl masked ↦ rw (masked, main) (start-Opened (record setting { masked = true }) _ _ refl refl)
  | inr open_ ↦ rw (open_, main) refl
]

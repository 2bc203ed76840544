-- ===== src/Chat/Service.antt =====
-- The program of src/confab/confab-server.cpp, and `create`, `run`, `stop` and `destroy` of
-- src/confab/ChatServer.cpp. liblo's thread is a pointer, a number; the calls of liblo are effects in
-- their order.
use sclork_tools.Prelude.{
  ℕ, ℤ, pos, negsuc, ltb_ℤ, Bool, true, false, String, Option, none, some, List, [], ◌∷◌, ◌++◌, map,
  if◌then◌else◌,
}
use sclork_tools.Chat.Defs.{Event, wild, ChatServer, init}
use sclork_tools.Chat.Handlers.{Call, handle_message}

-- The calls of liblo: those for the thread, with the pointer they are given, and those of the handlers.
pub data Effect : Type 0 where
  thread_new : String → Effect
  add_method thread_start thread_stop thread_free : Option ℕ → Effect
  event : Event → Effect

-- What a run of the program meets: whether the signals can be masked, the flags, the time at which the
-- server is built, what liblo returns, and the messages that arrive before the signal to end.
pub record Setting : Type 0 where
  pub masked : Bool
  pub chat_port : String
  pub timeout : ℤ
  pub max_messages_per_request : ℤ
  pub built : ℤ
  pub new_thread : String → Option ℕ
  pub start_thread : Option ℕ → ℤ
  pub calls : List Call

-- The server with `m_tcpThread`, where `none` is the null pointer, and the calls of liblo so far.
pub record Service : Type 0 where
  pub chat : ChatServer
  pub tcp_thread : Option ℕ
  pub effects : List Effect

-- How the program ends: `main` returns a number, with the server, if one has been built; or a handler
-- has read its arrays where nothing is, after which nothing is defined.
pub data Exit : Type 0 where
  exited : ℤ → Option Service → Exit
  undefined : Exit

-- Does a handler read the arrays where nothing is?
abbrev pub any_wild : List Event → Bool
any_wild [] = false
any_wild (wild i ∷ events) = true
any_wild (e ∷ events) = any_wild events

unfoldable pub call : Effect → Service → Service
call e s = record s { effects = s.effects ++ e ∷ [] }

-- `create`
unfoldable pub create : Setting → Service → Service × Bool
unfolding call
create setting s =
    let asked = call (thread_new setting.chat_port) s in
    elim (setting.new_thread setting.chat_port) [
      | none ↦ (record asked { tcp_thread = none }, false)
      | some thread ↦
          (call (add_method (some thread)) (record asked { tcp_thread = some thread }), true)
    ]

-- `run`
unfoldable pub run : Setting → Service → Service × Bool
unfolding call
run setting s = (
  call (thread_start s.tcp_thread) s,
  if ltb_ℤ (setting.start_thread s.tcp_thread) (pos 0) then false else true,
)

-- `stop`, which only logs whether liblo has failed.
unfoldable pub stop : Service → Service
unfolding call
stop s = call (thread_stop s.tcp_thread) s

-- `destroy`
unfoldable pub destroy : Service → Service
unfolding call
destroy s = elim s.tcp_thread [
  | none ↦ s
  | some thread ↦ record (call (thread_free (some thread)) s) { tcp_thread = none }
]

-- `loHandle`, once for each message that arrives; `none` where something undefined has been done.
unfoldable pub listen : List Call → Service → Option Service
unfolding handle_message
listen [] s = some s
listen (c ∷ cs) s =
    let (chat', events) = handle_message c.path c.args c.now c.later s.chat in
    let rest = listen cs (record s { chat = chat'; effects = s.effects ++ map event events }) in
    if any_wild events then none else rest

-- A server as the constructor leaves it.
unfoldable pub build : Setting → Service
unfolding init
build setting = record {
  chat = init setting.timeout setting.max_messages_per_request setting.built;
  tcp_thread = none;
  effects = [];
}

-- `main` from the test of `run` on.
unfoldable pub serve : Setting → Service × Bool → Exit
unfolding listen stop destroy
serve setting (s, true) = elim (listen setting.calls s) [
  | none ↦ undefined
  | some s' ↦ exited (pos 0) (some (destroy (stop s')))
]
serve setting (s, false) = exited (negsuc 0) (some s)

-- `main` from the test of `create` on.
unfoldable pub start : Setting → Service × Bool → Exit
unfolding run serve
start setting (s, true) = serve setting (run setting s)
start setting (s, false) = exited (negsuc 0) (some s)

-- `main`. The destructor of the server does nothing.
unfoldable pub main : Setting → Exit
unfolding build create start
main setting =
    if setting.masked
    then start setting (create setting (build setting))
    else exited (negsuc 0) none

-- ===== src/Chat/Tests.antt =====
-- Runs of the chat server, and its theorems at concrete servers.
use Prim.Native.Nat.{max}
use sclork_tools.Prelude.{
  ◌^◌, ◌%◌, ℕ, ◌-◌, ℤ, pos, negsuc, ◌-ℤ◌, ◌+ℤ◌, max_ℤ, List, [], ◌∷◌, ◌++◌, map, ◌≡◌, refl, some,
  none, arith, get_elem?, length, drop, replicate, String,
}
use sclork_tools.Chat.Maps.{find, assign, erase}
use sclork_tools.Chat.Defs.{
  Arg, int32, string, Event, send, free, wild, ChatServer, init, queue_message, send_messages,
  sweep, get_command_named, ring_index, send_at, first_after, send_from, seconds, time_out,
  sweep_entry,
}
use sclork_tools.Chat.Handlers.{
  Call, run, handle_message, on_sign_in, on_sign_out, on_get_messages, on_send_message, copy_args,
  on_change_name,
}
use sclork_tools.Chat.History.{History, Holds, queue-frees, freed}
use sclork_tools.Chat.Requests.{
  sent, send_messages-drop, send_messages-from_start, send_messages-wild,
}
use sclork_tools.Chat.Overflow.{send_messages-overflow}
use sclork_tools.Chat.News.{news, history}
use sclork_tools.Chat.Growth.{handle_message-Holds, run-init-Holds}
use sclork_tools.Chat.Clients.{IsTidy, names-on_get_messages}
use sclork_tools.Chat.Tidy.{run-init-IsTidy}

program : Unit {0}
unfolding run handle_message find assign erase init queue_message send_messages sweep
    get_command_named ring_index send_at first_after send_from seconds time_out sweep_entry
    on_sign_in on_sign_out on_get_messages on_send_message copy_args on_change_name ◌-ℤ◌ ◌+ℤ◌ max_ℤ
program = tt

abbrev call : String → List Arg → ℤ → Call
call path args time = record { path = path; args = args; now = time; later = time }

-- Two sign-ins and two messages.
abbrev calls : List Call
calls =
    call "/chatSignIn" (string "ann" ∷ []) (pos 1)
    ∷ call "/chatSignIn" (string "bob" ∷ []) (pos 2)
    ∷ call "/chatSendMessage" (int32 (pos 1) ∷ string "hello" ∷ []) (pos 3)
    ∷ call "/chatSendMessage" (int32 (pos 2) ∷ string "hi" ∷ []) (pos 4)
    ∷ []

served : ChatServer
served = run calls (init (pos 10) (pos 3) (pos 0))

served_history : History
unfolding program history news
served_history = history calls (init (pos 10) (pos 3) (pos 0)) []

served-Holds : Holds served served_history
unfolding served served_history
served-Holds = run-init-Holds (pos 10) (pos 3) (pos 0) calls

-- Four messages were queued.
served_serial : served.message_serial ≡ 4
unfolding program served
served_serial = refl

two_messages :
    send_messages served (pos 1)
    ≡ send "/chatReceive" (int32 (pos 2) ∷ int32 (pos 1) ∷ string "hello" ∷ [])
      ∷ send "/chatReceive" (int32 (pos 3) ∷ int32 (pos 2) ∷ string "hi" ∷ [])
      ∷ []
unfolding program served
two_messages = refl

send_messages-drop_example :
    send_messages served (pos 1)
    ≡ map sent (drop (max 2 (length served_history - 3)) served_history)
unfolding program served served_history
send_messages-drop_example =
    send_messages-drop served served_history 1 3 served-Holds refl (omega arith) (omega arith)
      (omega arith)

-- The same server with room for four messages in an answer, or eight.
limited : ℤ → ChatServer
limited limit = run calls (init (pos 10) limit (pos 0))

limited_history : ℤ → History
unfolding program
limited_history limit = history calls (init (pos 10) limit (pos 0)) []

limited-Holds : (limit : ℤ) → Holds (limited limit) (limited_history limit)
unfolding limited limited_history
limited-Holds limit = run-init-Holds (pos 10) limit (pos 0) calls

-- Four messages and room for four: the message numbered 0 is left out.
send_messages-from_start_example :
    send_messages (limited (pos 4)) (negsuc 0) ≡ map sent (drop 1 (limited_history (pos 4)))
unfolding program limited limited_history history news
send_messages-from_start_example =
    send_messages-from_start (limited (pos 4)) (limited_history (pos 4)) 4 (limited-Holds (pos 4))
      refl (omega arith) (omega arith)

send_messages-wild_example :
    (rest : List Event) × (send_messages (limited (pos 8)) (negsuc 1) ≡ wild (negsuc 0) ∷ rest)
unfolding program limited
send_messages-wild_example =
    send_messages-wild (limited (pos 8)) 0 8 refl (omega arith) (omega arith)

send_messages-overflow_example :
    (rest : List Event) × (send_messages served (pos (2 ^ 31 - 1))
      ≡ send_at served (pos 0) ∷ wild (negsuc 126) ∷ rest)
unfolding program served
send_messages-overflow_example = send_messages-overflow served 3 refl (omega arith)

handle_message-Holds_example :
    Holds (handle_message "/chatSignOut" (int32 (pos 1) ∷ []) (pos 5) (pos 5) served).0 (
      served_history
      ++ news
          (get_command_named "/chatSignOut")
          (pos 5)
          (int32 (pos 1) ∷ [])
          served
          served.message_serial)
handle_message-Holds_example =
    handle_message-Holds "/chatSignOut" (int32 (pos 1) ∷ []) (pos 5) (pos 5) served served_history
      served-Holds

served-IsTidy : IsTidy served
unfolding served
served-IsTidy = run-init-IsTidy (pos 10) (pos 3) (pos 0) calls

-- Ann has asked for messages at the beginning, and Bob asks when her time is up.
abbrev more_calls : List Call
more_calls = calls ++ call "/chatGetMessages" (int32 (pos 1) ∷ int32 (pos 1) ∷ []) (pos 5) ∷ []

pinged : ChatServer
pinged = run more_calls (init (pos 10) (pos 3) (pos 0))

pinged-IsTidy : IsTidy pinged
unfolding pinged
pinged-IsTidy = run-init-IsTidy (pos 10) (pos 3) (pos 0) more_calls

names-on_get_messages_example :
    find
      (pos 1)
      (on_get_messages (pos 10_000_000_005) (int32 (pos 2) ∷ int32 (pos 1) ∷ []) pinged).0.name_map
    ≡ none
unfolding program served pinged
names-on_get_messages_example =
    names-on_get_messages (pos 10_000_000_005) (pos 2) (pos 1) pinged (pos 1) pinged-IsTidy

-- One message, many times over.
abbrev hello : Call
hello = call "/chatSendMessage" (string "hello" ∷ []) (pos 1)

busy : ℕ → ChatServer
busy n = run (replicate n hello) (init (pos 10) (pos 3) (pos 0))

busy_history : ℕ → History
unfolding program history news
busy_history n = history (replicate n hello) (init (pos 10) (pos 3) (pos 0)) []

busy-Holds : (n : ℕ) → Holds (busy n) (busy_history n)
unfolding busy busy_history
busy-Holds n = run-init-Holds (pos 10) (pos 3) (pos 0) (replicate n hello)

queue-frees_example :
    ((queue_message "/chatReceive" [] (busy 129)).1 ≡ freed (busy_history 129))
    × (get_elem?
          (queue_message "/chatReceive" [] (busy 129)).0.messages
          (length (busy_history 129) % 128)
        ≡ some (some []))
queue-frees_example = queue-frees "/chatReceive" [] (busy 129) (busy_history 129) (busy-Holds 129)

-- The second message is freed with the 130th, and the first one never.
freed_first : freed (busy_history 128) ≡ []
unfolding program busy_history history news
freed_first = refl

freed_second : freed (busy_history 129) ≡ free (int32 (pos 1) ∷ string "hello" ∷ []) ∷ []
unfolding program busy_history history news
freed_second = refl

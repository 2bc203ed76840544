-- ===== src/Chat/ServiceTests.antt =====
-- Runs of src/confab/confab-server.cpp.
use sclork_tools.Prelude.{◌-ℤ◌, pos, negsuc, true, none, some, List, [], ◌∷◌, ◌≡◌, refl}
use sclork_tools.Chat.Defs.{
  int32, string, send, free, init, queue_message, get_command_named, seconds,
}
use sclork_tools.Chat.Handlers
use sclork_tools.Chat.Handlers.{Call, handle_message, on_sign_in, on_get_all_clients}
use sclork_tools.Chat.Maps.{assign}
use sclork_tools.Chat.Service.{
  Setting, exited, thread_new, add_method, thread_start, thread_stop, thread_free, event, main,
  create, start, run, serve, listen, stop, destroy, build, call,
}
use sclork_tools.Chat.Serving.{Served, main-Served}

-- One client signs in and asks for the clients.
abbrev calls : List Call
calls =
    record { path = "/chatSignIn"; args = string "ann" ∷ []; now = pos 1; later = pos 1 }
    ∷ record { path = "/chatGetAllClients"; args = []; now = pos 2; later = pos 2 }
    ∷ []

abbrev setting : Setting
setting = record {
  masked = true;
  chat_port = "61010";
  timeout = pos 10;
  max_messages_per_request = pos 3;
  built = pos 0;
  new_thread = λ port. some 5;
  start_thread = λ thread. pos 0;
  calls = calls;
}

program : Unit {0}
unfolding main create start run serve listen stop destroy build call handle_message on_sign_in
    on_get_all_clients queue_message init get_command_named assign seconds
program = tt

main-Served_example : Served setting (main setting)
main-Served_example = main-Served setting

-- The answers to the two messages stand between the thread's start and its stop.
ends :
    main setting
    ≡ exited (pos 0) (
        some (record {
          chat = Handlers.run calls (init (pos 10) (pos 3) (pos 0));
          tcp_thread = none;
          effects =
              thread_new "61010"
              ∷ add_method (some 5)
              ∷ thread_start (some 5)
              ∷ event (send "/chatSignInComplete" (int32 (pos 1) ∷ []))
              ∷ event (send "/chatSetAllClients" (int32 (pos 1) ∷ string "ann" ∷ []))
              ∷ event (free (int32 (pos 1) ∷ string "ann" ∷ []))
              ∷ thread_stop (some 5)
              ∷ thread_free (some 5)
              ∷ [];
        }))
unfolding program Handlers.run ◌-ℤ◌
ends = refl

-- Without a thread, and with one that does not start.
no_thread :
    main (record setting { new_thread = λ port. none })
    ≡ exited (negsuc 0) (some (record (build setting) { effects = thread_new "61010" ∷ [] }))
unfolding program
no_thread = refl

no_start :
    main (record setting { start_thread = λ thread. negsuc 0 })
    ≡ exited (negsuc 0) (
        some (record (build setting) {
          tcp_thread = some 5;
          effects = thread_new "61010" ∷ add_method (some 5) ∷ thread_start (some 5) ∷ [];
        }))
unfolding program
no_start = refl

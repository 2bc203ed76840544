-- ===== src/Chat/Tidy.antt =====
-- Every handler of src/confab/ChatServer.cpp keeps each user number once in its maps.
use sclork_tools.Prelude.{ℤ, pos, ltb_ℤ, ◌-ℤ◌, List, [], ◌∷◌, inl, inr, Bool-cases, Option-cases}
use sclork_tools.Chat.Maps.{find, erase-IsMap, assign-IsMap}
use sclork_tools.Chat.Defs.{
  Command, sign_in, get_all_clients, get_messages, send_message, change_name, sign_out, not_found,
  Arg, int32, string, ChatServer, init, queue_message, seconds,
}
use sclork_tools.Chat.Handlers.{
  on_sign_in, on_get_all_clients, on_get_messages, on_send_message, on_change_name, on_sign_out,
  copy_args, keepalive, dispatch, Call, run,
}
use sclork_tools.Chat.Clients.{IsTidy, sweep-IsTidy, pinged-IsTidy}

on_sign_in-IsTidy : (args : List Arg) (s : ChatServer) → IsTidy s → IsTidy (on_sign_in args s).0
unfolding on_sign_in queue_message
on_sign_in-IsTidy (string name ∷ []) s v = record {
  names = assign-IsMap _ name s.name_map v.names;
  pings = v.pings;
}
on_sign_in-IsTidy args s v = v

on_get_messages-IsTidy :
    (now : ℤ) (args : List Arg) (s : ChatServer) → IsTidy s → IsTidy (on_get_messages now args s).0
unfolding on_get_messages
on_get_messages-IsTidy now (int32 user_id ∷ int32 message_id ∷ []) s v =
    sweep-IsTidy _ _ _ (pinged-IsTidy now user_id s v)
on_get_messages-IsTidy now args s v = v

on_send_message-IsTidy :
    (args : List Arg) (s : ChatServer) → IsTidy s → IsTidy (on_send_message args s).0
unfolding on_send_message queue_message
on_send_message-IsTidy args s v = elim (Option-cases (copy_args args)) [
  | inl e ↦ rw (e, on_send_message) v
  | inr (m, e) ↦ rw (e, on_send_message) (record { names = v.names; pings = v.pings })
]

on_change_name-IsTidy :
    (args : List Arg) (s : ChatServer) → IsTidy s → IsTidy (on_change_name args s).0
unfolding on_change_name queue_message
on_change_name-IsTidy (int32 user_id ∷ string name ∷ []) s v = record {
  names = assign-IsMap user_id name s.name_map v.names;
  pings = v.pings;
}
on_change_name-IsTidy args s v = v

on_sign_out-IsTidy : (args : List Arg) (s : ChatServer) → IsTidy s → IsTidy (on_sign_out args s).0
unfolding on_sign_out queue_message
on_sign_out-IsTidy (int32 user_id ∷ []) s v = elim (Option-cases (find user_id s.name_map)) [
  | inl e ↦ rw (e, on_sign_out) v
  | inr (name, e) ↦
      rw (e, on_sign_out)
        (record { names = erase-IsMap user_id s.name_map v.names; pings = v.pings })
]
on_sign_out-IsTidy args s v = v

dispatch-IsTidy :
    (c : Command) (now : ℤ) (args : List Arg) (s : ChatServer)
    → IsTidy s
    → IsTidy (dispatch c now args s).0
unfolding dispatch on_get_all_clients
dispatch-IsTidy sign_in now args s v = on_sign_in-IsTidy args s v
dispatch-IsTidy get_all_clients now args s v = v
dispatch-IsTidy get_messages now args s v = on_get_messages-IsTidy now args s v
dispatch-IsTidy send_message now args s v = on_send_message-IsTidy args s v
dispatch-IsTidy change_name now args s v = on_change_name-IsTidy args s v
dispatch-IsTidy sign_out now args s v = on_sign_out-IsTidy args s v
dispatch-IsTidy not_found now args s v = v

keepalive-IsTidy : (now : ℤ) (s : ChatServer) → IsTidy s → IsTidy (keepalive now s)
unfolding keepalive
keepalive-IsTidy now s v =
    elim (Bool-cases (ltb_ℤ (seconds (pos 60)) (now -ℤ s.last_update_time))) [
      | inl e ↦ rw (e, keepalive) (record { names = v.names; pings = v.pings })
      | inr e ↦ rw (e, keepalive) v
    ]

run-IsTidy : (cs : List Call) (s : ChatServer) → IsTidy s → IsTidy (run cs s)
unfolding run
run-IsTidy [] s v = v
run-IsTidy (c ∷ cs) s v =
    run-IsTidy cs _ (dispatch-IsTidy _ c.later c.args _ (keepalive-IsTidy c.now s v))

-- After any calls to a new server each user number stands once in the map of names and once in the
-- map of pings.
pub run-init-IsTidy :
    (timeout limit now : ℤ) (cs : List Call) → IsTidy (run cs (init timeout limit now))
unfolding init
run-init-IsTidy timeout limit now cs = run-IsTidy cs _ (record { names = tt; pings = tt })

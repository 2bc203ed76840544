-- ===== src/Chat/Growth.antt =====
-- What each handler of src/confab/ChatServer.cpp adds to the history, and that the ring keeps in step.
use mathlib.Core.Path.{subst}
use sclork_tools.Prelude.{
  ℕ, ℤ, pos, String, List, [], ◌∷◌, ◌++◌, append_assoc, append-nil, ◌≡◌, inl, inr, refl, sym, arith,
  Bool-cases, Option-cases, leb_ℤ, ltb_ℤ, ◌-ℤ◌,
}
use sclork_tools.Chat.Maps.{find, assign, erase}
use sclork_tools.Chat.Defs.{
  Command, sign_in, get_all_clients, get_messages, send_message, change_name, sign_out, not_found,
  get_command_named, Arg, int32, string, Message, ChatServer, init, queue_message, change, time_out,
  sweep_entry, sweep, seconds,
}
use sclork_tools.Chat.Handlers.{
  on_sign_in, on_get_all_clients, on_get_messages, on_send_message, on_change_name, on_sign_out,
  copy_args, keepalive, dispatch, handle_message, Call, run,
}
use sclork_tools.Chat.History.{History, Holds, init-Holds, queue-Holds}
use sclork_tools.Chat.News.{notices, news, history}

-- The ring does not depend on the other fields.
same_ring :
    (s : ChatServer) (h : History) (seen : ℤ) (user_serial : ℕ) (names : List (ℤ × String))
    (pings : List (ℤ × ℤ))
    → Holds s h
    → Holds
        (record s {
          last_update_time = seen;
          user_serial = user_serial;
          name_map = names;
          client_pings = pings;
        })
        h
same_ring s h seen user_serial names pings v = record {
  serial = v.serial;
  paths_size = v.paths_size;
  messages_size = v.messages_size;
  kept = v.kept;
  numbered = v.numbered;
}

nothing_new : {s : ChatServer} {h : History} → Holds s h → Holds s (h ++ [])
nothing_new {s} {h} v = subst (Holds s) (sym (append-nil h)) v

queued :
    (path : String) (message : Message) (s : ChatServer) (h : History)
    → Holds s h
    → Holds
        (queue_message path (int32 (pos s.message_serial) ∷ message) s).0
        (h ++ (path, int32 (pos s.message_serial) ∷ message) ∷ [])
queued path message s h v = queue-Holds path _ s h v refl

with_names :
    (s : ChatServer) (h : History) (names : List (ℤ × String))
    → Holds s h
    → Holds (record s { name_map = names }) h
with_names s h names v = same_ring s h s.last_update_time s.user_serial names s.client_pings v

with_pings :
    (s : ChatServer) (h : History) (pings : List (ℤ × ℤ))
    → Holds s h
    → Holds (record s { client_pings = pings }) h
with_pings s h pings v = same_ring s h s.last_update_time s.user_serial s.name_map pings v

sweep-Holds :
    (cut_time : ℤ) (entries : List (ℤ × ℤ)) (s : ChatServer) (h : History)
    → Holds s h
    → Holds (sweep cut_time entries s).0 (h ++ notices cut_time entries s.name_map s.message_serial)
unfolding sweep sweep_entry notices time_out queue_message
sweep-Holds cut_time [] s h v = nothing_new v
sweep-Holds cut_time ((k, ping) ∷ entries) s h v = elim (Bool-cases (leb_ℤ ping cut_time)) [
  | inr current ↦ rw current (sweep-Holds cut_time entries s h v)
  | inl stale ↦ elim (Option-cases (find k s.name_map)) [
    | inl e ↦
        rw (stale, e, notices, time_out)
          (sweep-Holds cut_time entries _ h (with_pings s h (erase k s.client_pings) v))
    | inr (name, e) ↦
        let told = change s "timeout" k name in
        let v' =
          with_pings _ _ (erase k s.client_pings)
            (with_names _ _ (erase k s.name_map) (queued "/chatChangeClient" _ s h v)) in
        rw (stale, e, notices, time_out)
          (subst (Holds _) (append_assoc h (("/chatChangeClient", told) ∷ []) _)
            (sweep-Holds cut_time entries _ _ v'))
  ]
]

on_get_messages-Holds :
    (now : ℤ) (args : List Arg) (s : ChatServer) (h : History)
    → Holds s h
    → Holds (on_get_messages now args s).0 (h ++ news get_messages now args s s.message_serial)
unfolding on_get_messages news
on_get_messages-Holds now (int32 user_id ∷ int32 message_id ∷ []) s h v =
    sweep-Holds _ _ _ h (with_pings s h (assign user_id now s.client_pings) v)
on_get_messages-Holds now args s h v = nothing_new v

on_sign_in-Holds :
    (now : ℤ) (args : List Arg) (s : ChatServer) (h : History)
    → Holds s h
    → Holds (on_sign_in args s).0 (h ++ news sign_in now args s s.message_serial)
unfolding on_sign_in news
on_sign_in-Holds now (string name ∷ []) s h v =
    queued "/chatChangeClient" _ _ h (same_ring s h _ _ _ _ v)
on_sign_in-Holds now args s h v = nothing_new v

on_send_message-Holds :
    (now : ℤ) (args : List Arg) (s : ChatServer) (h : History)
    → Holds s h
    → Holds (on_send_message args s).0 (h ++ news send_message now args s s.message_serial)
unfolding on_send_message news
on_send_message-Holds now args s h v = elim (Option-cases (copy_args args)) [
  | inl e ↦ rw (e, on_send_message, news) (nothing_new v)
  | inr (m, e) ↦ rw (e, on_send_message, news) (queued "/chatReceive" m s h v)
]

on_change_name-Holds :
    (now : ℤ) (args : List Arg) (s : ChatServer) (h : History)
    → Holds s h
    → Holds (on_change_name args s).0 (h ++ news change_name now args s s.message_serial)
unfolding on_change_name news
on_change_name-Holds now (int32 user_id ∷ string name ∷ []) s h v =
    queued "/chatChangeClient" _ _ h (same_ring s h _ _ _ _ v)
on_change_name-Holds now args s h v = nothing_new v

on_sign_out-Holds :
    (now : ℤ) (args : List Arg) (s : ChatServer) (h : History)
    → Holds s h
    → Holds (on_sign_out args s).0 (h ++ news sign_out now args s s.message_serial)
unfolding on_sign_out news queue_message
on_sign_out-Holds now (int32 user_id ∷ []) s h v = elim (Option-cases (find user_id s.name_map)) [
  | inl e ↦ rw (e, on_sign_out, news) (nothing_new v)
  | inr (name, e) ↦
      rw (e, on_sign_out, news)
        (with_names _ _ (erase user_id s.name_map) (queued "/chatChangeClient" _ s h v))
]
on_sign_out-Holds now args s h v = nothing_new v

-- Every command leaves a ring that holds the history with what the command is said to add.
pub dispatch-Holds :
    (c : Command) (now : ℤ) (args : List Arg) (s : ChatServer) (h : History)
    → Holds s h
    → Holds (dispatch c now args s).0 (h ++ news c now args s s.message_serial)
unfolding dispatch on_get_all_clients news
dispatch-Holds sign_in now args s h v = on_sign_in-Holds now args s h v
dispatch-Holds get_all_clients now args s h v = nothing_new v
dispatch-Holds get_messages now args s h v = on_get_messages-Holds now args s h v
dispatch-Holds send_message now args s h v = on_send_message-Holds now args s h v
dispatch-Holds change_name now args s h v = on_change_name-Holds now args s h v
dispatch-Holds sign_out now args s h v = on_sign_out-Holds now args s h v
dispatch-Holds not_found now args s h v = nothing_new v

news_seen :
    (c : Command) (now later : ℤ) (args : List Arg) (s : ChatServer) (n : ℕ)
    → news c later args (record s { last_update_time = now }) n ≡ news c later args s n
unfolding news
news_seen sign_in now later args s n = ground arith
news_seen get_all_clients now later args s n = refl
news_seen get_messages now later args s n = ground arith
news_seen send_message now later args s n = refl
news_seen change_name now later args s n = ground arith
news_seen sign_out now later args s n = ground arith
news_seen not_found now later args s n = refl

-- Whatever message arrives, with whatever arguments and at whatever times: if the ring held a
-- history, it holds afterwards the same history with the entries of `news` for this message added
-- at its end, and nothing else.
pub handle_message-Holds :
    (path : String) (args : List Arg) (now later : ℤ) (s : ChatServer) (h : History)
    → Holds s h
    → Holds
        (handle_message path args now later s).0
        (h ++ news (get_command_named path) later args s s.message_serial)
unfolding handle_message
handle_message-Holds path args now later s h v =
    let c = get_command_named path in
    elim (Bool-cases (ltb_ℤ (seconds (pos 60)) (now -ℤ s.last_update_time))) [
      | inl e ↦
          rw (e, keepalive)
            (subst
              (λ new.
                Holds (dispatch c later args (record s { last_update_time = now })).0 (h ++ new))
              (news_seen c now later args s s.message_serial)
              (dispatch-Holds c later args _ h (same_ring s h now _ _ _ v)))
      | inr e ↦ rw (e, keepalive) (dispatch-Holds c later args s h v)
    ]

run-Holds :
    (cs : List Call) (s : ChatServer) (h : History) → Holds s h → Holds (run cs s) (history cs s h)
unfolding run history
run-Holds [] s h v = v
run-Holds (c ∷ cs) s h v = run-Holds cs _ _ (handle_message-Holds c.path c.args c.now c.later s h v)

-- After any schedule of messages that a new server works through, the ring holds the history that
-- the schedule brings: its last 128 messages stand in the ring at their numbers modulo 128, and
-- every message carries its number.
pub run-init-Holds :
    (timeout limit now : ℤ) (cs : List Call)
    → Holds (run cs (init timeout limit now)) (history cs (init timeout limit now) [])
run-init-Holds timeout limit now cs = run-Holds cs _ [] (init-Holds timeout limit now)

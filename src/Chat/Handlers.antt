-- ===== src/Chat/Handlers.antt =====
-- `handleMessage` of src/confab/ChatServer.cpp, one function for each command.
use sclork_tools.Prelude.{
  ◌+◌, ℤ, pos, ◌-ℤ◌, ltb_ℤ, String, Option, none, some, List, [], ◌∷◌, ◌++◌, if◌then◌else◌,
}
use sclork_tools.Chat.Maps.{find, assign, erase}
use sclork_tools.Chat.Defs.{
  Command, sign_in, get_all_clients, get_messages, send_message, change_name, sign_out, not_found,
  get_command_named, Arg, int32, string, other, Message, Event, send, ChatServer, seconds,
  queue_message, send_messages, change, sweep,
}

abbrev pub Outcome : Type 0
Outcome = ChatServer × List Event

-- `case kSignIn`
unfoldable pub on_sign_in : List Arg → ChatServer → Outcome
on_sign_in (string name ∷ []) s =
    let user_id = s.user_serial + 1 in
    let joined : ChatServer = record s {
      user_serial = user_id;
      name_map = assign (pos user_id) name s.name_map;
    } in
    let (s', events) =
      queue_message "/chatChangeClient" (change joined "add" (pos user_id) name) joined in
    (s', send "/chatSignInComplete" (int32 (pos user_id) ∷ []) ∷ events)
on_sign_in args s = (s, [])

-- The pairs of a user's number and name, in the order of the map.
unfoldable pub client_names : List (ℤ × String) → Message
client_names [] = []
client_names ((user_id, name) ∷ m) = int32 user_id ∷ string name ∷ client_names m

-- `case kGetAllClients`
unfoldable pub on_get_all_clients : ChatServer → Outcome
unfolding client_names
on_get_all_clients s =
    let names = client_names s.name_map in
    (s, send "/chatSetAllClients" names ∷ Event.free names ∷ [])

-- `case kGetMessages`, with the time of its own reading of the clock.
unfoldable pub on_get_messages : ℤ → List Arg → ChatServer → Outcome
on_get_messages now (int32 user_id ∷ int32 message_id ∷ []) s =
    let sent = send_messages s message_id in
    let pinged : ChatServer = record s { client_pings = assign user_id now s.client_pings } in
    let (s', events) = sweep (now -ℤ s.timeout) pinged.client_pings pinged in (s', sent ++ events)
on_get_messages now args s = (s, [])

-- The arguments that are copied into the chat message; `none` for a type that is not supported.
unfoldable pub copy_args : List Arg → Option Message
copy_args [] = some []
copy_args (int32 n ∷ args) = elim (copy_args args) [ none ↦ none | some m ↦ some (int32 n ∷ m) ]
copy_args (string t ∷ args) = elim (copy_args args) [ none ↦ none | some m ↦ some (string t ∷ m) ]
copy_args (other tag ∷ args) = none

-- `case kSendMessage`
unfoldable pub on_send_message : List Arg → ChatServer → Outcome
on_send_message args s = elim (copy_args args) [
  | none ↦ (s, [])
  | some m ↦ queue_message "/chatReceive" (int32 (pos s.message_serial) ∷ m) s
]

-- `case kChangeName`
unfoldable pub on_change_name : List Arg → ChatServer → Outcome
on_change_name (int32 user_id ∷ string name ∷ []) s =
    let renamed : ChatServer = record s { name_map = assign user_id name s.name_map } in
    queue_message "/chatChangeClient" (change renamed "rename" user_id name) renamed
on_change_name args s = (s, [])

-- `case kSignOut`
unfoldable pub on_sign_out : List Arg → ChatServer → Outcome
on_sign_out (int32 user_id ∷ []) s = elim (find user_id s.name_map) [
  | none ↦ (s, [])
  | some name ↦
      let (s', events) = queue_message "/chatChangeClient" (change s "remove" user_id name) s in
      (record s' { name_map = erase user_id s'.name_map }, events)
]
on_sign_out args s = (s, [])

-- The line that is logged once a minute keeps its time in the state.
unfoldable pub keepalive : ℤ → ChatServer → ChatServer
unfolding seconds
keepalive now s =
    if ltb_ℤ (seconds (pos 60)) (now -ℤ s.last_update_time)
    then record s { last_update_time = now }
    else s

-- The `switch`.
unfoldable pub dispatch : Command → ℤ → List Arg → ChatServer → Outcome
dispatch sign_in now args s = on_sign_in args s
dispatch get_all_clients now args s = on_get_all_clients s
dispatch get_messages now args s = on_get_messages now args s
dispatch send_message now args s = on_send_message args s
dispatch change_name now args s = on_change_name args s
dispatch sign_out now args s = on_sign_out args s
dispatch not_found now args s = (s, [])

-- `handleMessage`, with the times of its first and its second reading of the clock.
unfoldable pub handle_message : String → List Arg → ℤ → ℤ → ChatServer → Outcome
unfolding keepalive get_command_named dispatch
handle_message path args now later s =
    dispatch (get_command_named path) later args (keepalive now s)

-- One incoming message, with the two times.
pub record Call : Type 0 where
  pub path : String
  pub args : List Arg
  pub now : ℤ
  pub later : ℤ

-- The messages of a schedule, one after another.
unfoldable pub run : List Call → ChatServer → ChatServer
unfolding handle_message
run [] s = s
run (c ∷ cs) s = run cs (handle_message c.path c.args c.now c.later s).0

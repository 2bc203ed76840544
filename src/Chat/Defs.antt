-- ===== src/Chat/Defs.antt =====
-- The state and the handlers of src/confab/ChatServer.cpp.
use sclork_tools.Prelude.{
  ◌^◌, ◌-◌, ℕ, zero, suc, ◌+◌, ◌*◌, ◌%◌, ℤ, pos, negsuc, pos_part, ◌+ℤ◌, ◌-ℤ◌, max_ℤ, ltb_ℤ, leb_ℤ,
  ltb, String, str_eq, Option, none, some, List, [], ◌∷◌, ◌++◌, if◌then◌else◌, get_elem?, set,
  replicate,
}
use sclork_tools.Chat.Maps.{find, erase}

-- `enum ChatCommands`
pub data Command : Type 0 where
  sign_in get_all_clients get_messages send_message change_name sign_out not_found : Command

-- `getCommandNamed`, by the table of ChatCommands.cpp.in.
unfoldable pub get_command_named : String → Command
get_command_named name =
    if str_eq name "/chatSignIn"
    then sign_in
    else if str_eq name "/chatGetAllClients"
    then get_all_clients
    else if str_eq name "/chatGetMessages"
    then get_messages
    else if str_eq name "/chatSendMessage"
    then send_message
    else if str_eq name "/chatChangeName"
    then change_name
    else if str_eq name "/chatSignOut"
    then sign_out
    else not_found

-- One argument of an OSC message: `LO_INT32`, `LO_STRING`, or another type tag.
pub data Arg : Type 0 where
  int32 : ℤ → Arg
  string : String → Arg
  other : ℕ → Arg

-- `std::chrono::seconds`, in nanoseconds.
unfoldable pub seconds : ℤ → ℤ
seconds (pos n) = pos (n * 1_000_000_000)
seconds (negsuc n) = pos 0 -ℤ pos (suc n * 1_000_000_000)

-- What a `lo_message` holds.
abbrev pub Message : Type 0
Message = List Arg

-- What the server does with liblo. `wild` is a read of the message ring at an index outside of it,
-- or of an element that was never written. What a handler goes on with behind one is what it does if
-- the read does no harm.
pub data Event : Type 0 where
  send : String → Message → Event
  free : Message → Event
  wild : ℤ → Event

abbrev pub message_array_size : ℕ
message_array_size = 128

-- `none` is an element of the two arrays that has not been written.
pub record ChatServer : Type 0 where
  pub last_update_time : ℤ
  pub user_serial : ℕ
  pub name_map : List (ℤ × String)
  pub timeout : ℤ
  pub client_pings : List (ℤ × ℤ)
  pub max_messages_per_request : ℤ
  pub message_serial : ℕ
  pub paths : List (Option String)
  pub messages : List (Option Message)

-- The constructor, at the time `now`.
unfoldable pub init : ℤ → ℤ → ℤ → ChatServer
unfolding seconds
init timeout max_messages now = record {
  last_update_time = now;
  user_serial = 0;
  name_map = [];
  timeout = seconds timeout;
  client_pings = [];
  max_messages_per_request = max_messages;
  message_serial = 0;
  paths = replicate message_array_size none;
  messages = replicate message_array_size none;
}

-- `lo_message_free(m_messages[index])`
unfoldable pub free_at : List (Option Message) → ℕ → Event
free_at messages index = elim (get_elem? messages index) [
  | some (some m) ↦ free m
  | _ ↦ wild (pos index)
]

-- `queueMessage`
unfoldable pub queue_message : String → Message → ChatServer → ChatServer × List Event
unfolding free_at
queue_message path message s =
    let index = s.message_serial % message_array_size in
    (
      record s {
        message_serial = s.message_serial + 1;
        paths = set s.paths index (some path);
        messages = set s.messages index (some message);
      },
      if ltb message_array_size s.message_serial then free_at s.messages index ∷ [] else [],
    )

-- `i % kMessageArraySize`, which takes the sign of `i`.
unfoldable pub ring_index : ℤ → ℤ
ring_index (pos n) = pos (n % message_array_size)
ring_index (negsuc n) = pos 0 -ℤ pos (suc n % message_array_size)

-- `lo_send_message_from(address, m_tcpServer, m_paths[index], m_messages[index])`
unfoldable pub send_at : ChatServer → ℤ → Event
send_at s (negsuc n) = wild (negsuc n)
send_at s (pos n) = elim (get_elem? s.paths n) [
  | some (some path) ↦ elim (get_elem? s.messages n) [
    | some (some message) ↦ send path message
    | _ ↦ wild (pos n)
  ]
  | _ ↦ wild (pos n)
]

-- `for (auto i = messageID + 1; i < m_messageSerial; ++i)`, with the number of rounds left.
unfoldable pub send_from : ChatServer → ℕ → ℤ → List Event
unfolding ring_index send_at
send_from s zero i = []
send_from s (suc rounds) i = send_at s (ring_index i) ∷ send_from s rounds (i +ℤ pos 1)

-- The result of a sum or a difference in an `int`, which keeps 32 bits.
unfoldable pub to_int : ℤ → ℤ
to_int (pos n) = let r = n % 2 ^ 32 in if ltb r (2 ^ 31) then pos r else negsuc (2 ^ 32 - 1 - r)
to_int (negsuc n) = let r = n % 2 ^ 32 in if ltb r (2 ^ 31) then negsuc r else pos (2 ^ 32 - 1 - r)

-- The `messageID` after which messages are sent: a request for too many is cut.
unfoldable pub first_after : ChatServer → ℤ → ℤ
unfolding max_ℤ to_int
first_after s message_id =
    let serial = pos s.message_serial in
    let limit = s.max_messages_per_request in
    if ltb_ℤ limit (to_int (serial -ℤ message_id))
    then max_ℤ (pos 0) (to_int (serial -ℤ limit -ℤ pos 1))
    else message_id

-- The messages that `/chatGetMessages` sends back.
unfoldable pub send_messages : ChatServer → ℤ → List Event
unfolding first_after send_from to_int
send_messages s message_id =
    let start = to_int (first_after s message_id +ℤ pos 1) in
    send_from s (pos_part (pos s.message_serial -ℤ start)) start

-- The message that tells of a client's change, under the current serial number.
abbrev pub change : ChatServer → String → ℤ → String → Message
change s what user_id name =
    int32 (pos s.message_serial) ∷ string what ∷ int32 user_id ∷ string name ∷ []

-- A stale client, if it is still in the name map, is removed and reported.
unfoldable pub time_out : ℤ → ChatServer → ChatServer × List Event
time_out user_id s = elim (find user_id s.name_map) [
  | none ↦ (s, [])
  | some name ↦
      let (s', events) = queue_message "/chatChangeClient" (change s "timeout" user_id name) s in
      (record s' { name_map = erase user_id s'.name_map }, events)
]

-- One round of the loop over `m_clientPings`.
unfoldable pub sweep_entry : ℤ → ℤ × ℤ → ChatServer → ChatServer × List Event
sweep_entry cut_time (user_id, ping) s =
    let (s', events) = time_out user_id s in
    if leb_ℤ ping cut_time
    then (record s' { client_pings = erase user_id s'.client_pings }, events)
    else (s, [])

-- The loop, over the entries that it has still to visit.
unfoldable pub sweep : ℤ → List (ℤ × ℤ) → ChatServer → ChatServer × List Event
sweep cut_time [] s = (s, [])
sweep cut_time (entry ∷ entries) s =
    let (s', events) = sweep_entry cut_time entry s in
    let (s'', events') = sweep cut_time entries s' in (s'', events ++ events')

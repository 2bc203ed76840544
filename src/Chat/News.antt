-- ===== src/Chat/News.antt =====
-- What the handlers of src/confab/ChatServer.cpp are meant to add to the history of messages.
use sclork_tools.Prelude.{
  ℕ, ◌+◌, if◌then◌else◌, ℤ, pos, String, List, [], ◌∷◌, ◌++◌, none, some, leb_ℤ, ◌-ℤ◌,
}
use sclork_tools.Chat.Maps.{find, assign, erase}
use sclork_tools.Chat.Defs.{
  Command, sign_in, get_messages, send_message, change_name, sign_out, get_command_named, Arg,
  int32, string, ChatServer,
}
use sclork_tools.Chat.Handlers.{copy_args, handle_message, Call}
use sclork_tools.Chat.History.{History}

-- The notices of a sweep: one for each stale client that still has a name, under the numbers from
-- `n` on.
unfoldable pub notices : ℤ → List (ℤ × ℤ) → List (ℤ × String) → ℕ → History
notices cut_time [] names n = []
notices cut_time ((user_id, ping) ∷ entries) names n =
    let skip = notices cut_time entries names n in
    let report = notices cut_time entries (erase user_id names) (n + 1) in
    if leb_ℤ ping cut_time
    then elim (find user_id names) [
      | none ↦ skip
      | some name ↦
          ("/chatChangeClient", int32 (pos n) ∷ string "timeout" ∷ int32 user_id ∷ string name ∷ [])
          ∷ report
    ]
    else skip

-- What a command adds to the history of a server whose next number is `n`.
unfoldable pub news : Command → ℤ → List Arg → ChatServer → ℕ → History
unfolding notices
news sign_in now (string name ∷ []) s n =
    let id = int32 (pos (s.user_serial + 1)) in
    ("/chatChangeClient", int32 (pos n) ∷ string "add" ∷ id ∷ string name ∷ []) ∷ []
news get_messages now (int32 user_id ∷ int32 message_id ∷ []) s n =
    notices (now -ℤ s.timeout) (assign user_id now s.client_pings) s.name_map n
news send_message now args s n = elim (copy_args args) [
  | none ↦ []
  | some m ↦ ("/chatReceive", int32 (pos n) ∷ m) ∷ []
]
news change_name now (int32 user_id ∷ string name ∷ []) s n =
    ("/chatChangeClient", int32 (pos n) ∷ string "rename" ∷ int32 user_id ∷ string name ∷ []) ∷ []
news sign_out now (int32 user_id ∷ []) s n = elim (find user_id s.name_map) [
  | none ↦ []
  | some name ↦
      ("/chatChangeClient", int32 (pos n) ∷ string "remove" ∷ int32 user_id ∷ string name ∷ []) ∷ []
]
news c now args s n = []

-- The history that a schedule of messages leaves, beginning with the history `h`.
unfoldable pub history : List Call → ChatServer → History → History
unfolding news
history [] s h = h
history (c ∷ cs) s h =
    history cs (handle_message c.path c.args c.now c.later s).0
      (h ++ news (get_command_named c.path) c.later c.args s s.message_serial)

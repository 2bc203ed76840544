-- ===== src/Chat/Clients.antt =====
-- Who is in the name map of src/confab/ChatServer.cpp: signing in and out, renaming, timing out.
use sclork_tools.Prelude.{
  ◌+◌, ℤ, pos, ◌-ℤ◌, eq_ℤ, eq_ℤ_iff, leb_ℤ, String, List, [], ◌∷◌, ◌≡◌, refl, inl, inr, Option,
  none, some, Bool, true, false, ◌&&◌, arith, Bool-cases, Option-cases, if◌then◌else◌,
}
use sclork_tools.Chat.Maps.{
  find, assign, IsMap, Fresh, find-assign, find-erase, erase-IsMap, assign-IsMap,
}
use sclork_tools.Chat.Defs.{int32, string, ChatServer, queue_message, time_out, sweep_entry, sweep}
use sclork_tools.Chat.Handlers.{on_sign_in, on_get_messages, on_sign_out}

-- Each user number stands once in the two maps.
pub record IsTidy (s : ChatServer) : Type 0 where
  pub names : IsMap s.name_map
  pub pings : IsMap s.client_pings

-- After a sign-in the map has the name under the next number, and the other numbers as before.
pub find-on_sign_in :
    (name : String) (s : ChatServer) (j : ℤ)
    → find j (on_sign_in (string name ∷ []) s).0.name_map
      ≡ (if eq_ℤ (pos (s.user_serial + 1)) j then some name else find j s.name_map)
unfolding on_sign_in queue_message
find-on_sign_in name s j = find-assign (pos (s.user_serial + 1)) j name s.name_map

-- In a tidy server a number that signs out is gone from the map of names, if it was there, and the
-- other numbers are as before.
pub find-on_sign_out :
    (user_id : ℤ) (s : ChatServer) (j : ℤ)
    → IsTidy s
    → find j (on_sign_out (int32 user_id ∷ []) s).0.name_map
      ≡ (if eq_ℤ user_id j then none else find j s.name_map)
unfolding on_sign_out queue_message
find-on_sign_out user_id s j v = elim (Option-cases (find user_id s.name_map)) [
  | inl e ↦ rw (e, on_sign_out) (ground (arith, eq_ℤ_iff user_id j))
  | inr (name, e) ↦ rw (e, on_sign_out) (find-erase user_id j s.name_map v.names)
]

-- Has the last ping, if any, come no later than the cut?
abbrev pub is_stale : ℤ → Option ℤ → Bool
is_stale cut_time none = false
is_stale cut_time (some ping) = leb_ℤ ping cut_time

time_out-IsTidy : (user_id : ℤ) (s : ChatServer) → IsTidy s → IsTidy (time_out user_id s).0
unfolding time_out queue_message
time_out-IsTidy user_id s v = elim (Option-cases (find user_id s.name_map)) [
  | inl e ↦ rw (e, time_out) v
  | inr (name, e) ↦
      rw (e, time_out) (record { names = erase-IsMap user_id _ v.names; pings = v.pings })
]

find-time_out :
    (user_id : ℤ) (s : ChatServer) (j : ℤ)
    → IsTidy s
    → find j (time_out user_id s).0.name_map ≡ (if eq_ℤ user_id j then none else find j s.name_map)
unfolding time_out queue_message
find-time_out user_id s j v = elim (Option-cases (find user_id s.name_map)) [
  | inl e ↦ rw (e, time_out) (ground (arith, eq_ℤ_iff user_id j))
  | inr (name, e) ↦ rw (e, time_out) (find-erase user_id j s.name_map v.names)
]

pings-time_out :
    (user_id : ℤ) (s : ChatServer) → (time_out user_id s).0.client_pings ≡ s.client_pings
unfolding time_out queue_message
pings-time_out user_id s = ground arith

sweep_entry-IsTidy :
    (cut_time : ℤ) (entry : ℤ × ℤ) (s : ChatServer)
    → IsTidy s
    → IsTidy (sweep_entry cut_time entry s).0
unfolding sweep_entry
sweep_entry-IsTidy cut_time (k, ping) s v = elim (Bool-cases (leb_ℤ ping cut_time)) [
  | inl stale ↦
      let t = time_out-IsTidy k s v in
      rw stale (record { names = t.names; pings = erase-IsMap k _ t.pings })
  | inr current ↦ rw current v
]

names-sweep_entry :
    (cut_time k ping : ℤ) (s : ChatServer) (j : ℤ)
    → IsTidy s
    → find j (sweep_entry cut_time (k, ping) s).0.name_map
      ≡ (if eq_ℤ k j && leb_ℤ ping cut_time then none else find j s.name_map)
unfolding sweep_entry
names-sweep_entry cut_time k ping s j v = ground (arith, find-time_out k s j v)

pings-sweep_entry :
    (cut_time k ping : ℤ) (s : ChatServer) (j : ℤ)
    → IsTidy s
    → find j (sweep_entry cut_time (k, ping) s).0.client_pings
      ≡ (if eq_ℤ k j && leb_ℤ ping cut_time then none else find j s.client_pings)
unfolding sweep_entry
pings-sweep_entry cut_time k ping s j v =
    ground (arith, pings-time_out k s, find-erase k j s.client_pings v.pings)

pub sweep-IsTidy :
    (cut_time : ℤ) (entries : List (ℤ × ℤ)) (s : ChatServer)
    → IsTidy s
    → IsTidy (sweep cut_time entries s).0
unfolding sweep
sweep-IsTidy cut_time [] s v = v
sweep-IsTidy cut_time (entry ∷ entries) s v =
    sweep-IsTidy cut_time entries _ (sweep_entry-IsTidy cut_time entry s v)

Fresh-find {ℓ} :
    {V : Type ℓ} (k j : ℤ) (m : List (ℤ × V)) → Fresh k m → eq_ℤ k j ≡ true → find j m ≡ none
unfolding find
Fresh-find k j [] h e = refl
Fresh-find k j ((i, w) ∷ m) h e = ground (arith, Fresh-find k j m h.1, eq_ℤ_iff k j, eq_ℤ_iff i j)

names-sweep :
    (cut_time : ℤ) (entries : List (ℤ × ℤ)) (s : ChatServer) (j : ℤ)
    → IsMap entries
    → IsTidy s
    → find j (sweep cut_time entries s).0.name_map
      ≡ (if is_stale cut_time (find j entries) then none else find j s.name_map)
unfolding sweep find
names-sweep cut_time [] s j u v = refl
names-sweep cut_time ((k, ping) ∷ entries) s j u v = ground (
  arith,
  names-sweep cut_time entries (sweep_entry cut_time (k, ping) s).0 j u.1
      (sweep_entry-IsTidy cut_time (k, ping) s v),
  names-sweep_entry cut_time k ping s j v,
  Fresh-find k j entries u.0,
)

pings-sweep :
    (cut_time : ℤ) (entries : List (ℤ × ℤ)) (s : ChatServer) (j : ℤ)
    → IsMap entries
    → IsTidy s
    → find j (sweep cut_time entries s).0.client_pings
      ≡ (if is_stale cut_time (find j entries) then none else find j s.client_pings)
unfolding sweep find
pings-sweep cut_time [] s j u v = refl
pings-sweep cut_time ((k, ping) ∷ entries) s j u v = ground (
  arith,
  pings-sweep cut_time entries (sweep_entry cut_time (k, ping) s).0 j u.1
      (sweep_entry-IsTidy cut_time (k, ping) s v),
  pings-sweep_entry cut_time k ping s j v,
  Fresh-find k j entries u.0,
)

-- What the server knows of a client's last ping once `user_id` has asked for messages at `now`.
abbrev pub last_ping : ℤ → ℤ → ChatServer → ℤ → Option ℤ
last_ping now user_id s j = if eq_ℤ user_id j then some now else find j s.client_pings

pub pinged-IsTidy :
    (now user_id : ℤ) (s : ChatServer)
    → IsTidy s
    → IsTidy (record s { client_pings = assign user_id now s.client_pings })
pinged-IsTidy now user_id s v = record {
  names = v.names;
  pings = assign-IsMap user_id now s.client_pings v.pings;
}

-- In a tidy server a request for messages takes from the map of names exactly the clients whose
-- last ping, the asking client's being now, is no later than `timeout` before now. All other
-- numbers keep what they had.
pub names-on_get_messages :
    (now user_id message_id : ℤ) (s : ChatServer) (j : ℤ)
    → IsTidy s
    → find j (on_get_messages now (int32 user_id ∷ int32 message_id ∷ []) s).0.name_map ≡ (
        if is_stale (now -ℤ s.timeout) (last_ping now user_id s j) then none else find j s.name_map)
unfolding on_get_messages
names-on_get_messages now user_id message_id s j v =
    rw (← find-assign user_id j now s.client_pings)
      (names-sweep _ _ _ j (assign-IsMap user_id now _ v.pings) (pinged-IsTidy now user_id s v))

-- In a tidy server a request for messages takes from the map of pings exactly the clients whose
-- last ping is no later than `timeout` before now; otherwise the asking client has `now` for its
-- last ping, and the others keep theirs.
pub pings-on_get_messages :
    (now user_id message_id : ℤ) (s : ChatServer) (j : ℤ)
    → IsTidy s
    → find j (on_get_messages now (int32 user_id ∷ int32 message_id ∷ []) s).0.client_pings ≡ (
        if is_stale (now -ℤ s.timeout) (last_ping now user_id s j)
        then none
        else last_ping now user_id s j)
unfolding on_get_messages
pings-on_get_messages now user_id message_id s j v =
    rw (← find-assign user_id j now s.client_pings)
      (pings-sweep _ _ _ j (assign-IsMap user_id now _ v.pings) (pinged-IsTidy now user_id s v))

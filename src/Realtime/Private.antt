-- ===== src/Realtime/Private.antt =====
-- Which sockets a packet reaches (`emit` to a room, in
-- apps/api-gateway/src/modules/chat/chat.gateway.ts and chat.controller.ts).
use crm_system_backend.Prelude.{ℕ, ◌≡◌, ◌⊎◌, some, List, find, keep_if, length}
use crm_system_backend.Prelude.Text.{Text}
use crm_system_backend.Chat.{DirectMessage, Seen, is_seen, mark_if, message_key}
use crm_system_backend.Realtime.{
  Room, user_room, chat_room, Packet, message_packet, read_packet, typing_packet,
  unauthorized_packet, Library, Call,
}
use crm_system_backend.Realtime.Rooms.{Entitled}

abbrev user_of : Room → ℕ
user_of (user_room u) = u
user_of (chat_room u) = u

abbrev SentBy : ℕ → ℕ → DirectMessage × List DirectMessage → Type 0
SentBy u receiver r = (r.0.sender_id ≡ u) × (r.0.receiver_id ≡ receiver)

-- The message up to which a receipt tells that all is read.
abbrev Receipt : ℕ → List DirectMessage → Seen × List DirectMessage → Type 0
Receipt u ms r =
    (m : DirectMessage) × (find message_key m.id ms ≡ some m)
    × (m.receiver_id ≡ u)
    × (r.0.sender_id ≡ m.sender_id)
    × (r.0.up_to_created_at ≡ m.created_at)

abbrev seen_up_to : ℕ → DirectMessage → List DirectMessage → Seen × List DirectMessage
seen_up_to u m ms = (
  record {
    read = length (keep_if (is_seen u m) ms);
    sender_id = m.sender_id;
    up_to_created_at = m.created_at;
  },
  mark_if (is_seen u m) ms,
)

module _ (lib : Library) (cs : List Call) where
  -- The packet went to a socket of the room's user.
  abbrev Reaches : Room → Packet → ℕ × Packet → Type 0
  Reaches room p d = Entitled lib cs d.0 (user_of room) × (d.1 ≡ p)

  -- What a packet tells, and to whom: a message only to its two sides, a receipt only to the sender
  -- of a message that the reader has received, and who is typing only in the name of a user whose
  -- socket was admitted.
  abbrev pub Allowed : List DirectMessage → ℕ × Packet → Type 0
  Allowed ms (socket, message_packet m) =
      Entitled lib cs socket m.sender_id ⊎ Entitled lib cs socket m.receiver_id
  Allowed ms (socket, read_packet reader at) =
      (m : DirectMessage) × (find message_key m.id ms ≡ some m)
      × (m.receiver_id ≡ reader)
      × (m.created_at ≡ at)
      × Entitled lib cs socket m.sender_id
  Allowed ms (socket, typing_packet u b) = (from : ℕ) × Entitled lib cs from u
  Allowed ms (socket, unauthorized_packet) = Unit

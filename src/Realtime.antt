-- ===== src/Realtime.antt =====
-- The sockets of the browser: ChatGateway with the calls of ChatController that push
-- (apps/api-gateway/src/modules/chat/chat.gateway.ts, chat.controller.ts) and NotificationsGateway
-- (apps/api-gateway/src/modules/notifications/notifications.gateway.ts). What is pushed is a list
-- of pairs of a socket's number and a packet, oldest first. `decodeURIComponent` and the JWT service
-- are parameters.
pub mod Cookies
pub mod Rooms
pub mod Twice
pub mod Headers
pub mod Private
pub mod Refusals
use crm_system_backend.Prelude.{
  ℕ, Bool, true, false, not, ◌&&◌, Option, none, some, List, [], ◌∷◌, ◌++◌, ◌==◌, if◌then◌else◌,
  find, keep_if, any, or_else?,
}
use crm_system_backend.Prelude.Text.{Text, is_empty}
use crm_system_backend.Prelude.Results.{Result, ok, err}
use crm_system_backend.Chat.{DirectMessage, Seen, send_message, mark_as_read_up_to}
use crm_system_backend.Realtime.Cookies.{parse_cookies, cookie, access_token}

pub data Room : Type 0 where
  user_room chat_room : ℕ → Room

abbrev pub same_room : Room → Room → Bool
same_room (user_room u) (user_room v) = u == v
same_room (chat_room u) (chat_room v) = u == v
same_room _ _ = false

-- A connected socket: `client.data.userId` and the rooms that it has joined.
pub record Socket : Type 0 where
  pub id : ℕ
  pub user_id : Option ℕ
  pub rooms : List Room

abbrev pub socket_key : Socket → ℕ
socket_key s = s.id

pub record Handshake : Type 0 where
  pub id : ℕ
  pub auth_token : Option Text
  pub cookie_header : Option Text

pub data Packet : Type 0 where
  message_packet : DirectMessage → Packet
  read_packet : ℕ → ℕ → Packet
  typing_packet : ℕ → Bool → Packet
  unauthorized_packet : Packet

-- `decodeURIComponent`, which can throw, and `verifyAsync`: the token's `sub`, at a time.
pub record Library : Type 0 where
  pub decode : Text → Option Text
  pub verify : ℕ → Text → Option ℕ

-- The `try` of `handleConnection`: the user, or `none` if anything throws.
unfoldable pub authenticate : Library → ℕ → Handshake → Option ℕ
authenticate lib now h = elim (parse_cookies lib.decode h.cookie_header) [
  | none ↦ none
  | some cookies ↦ elim (or_else? h.auth_token (cookie access_token cookies)) [
    | none ↦ none
    | some token ↦ if is_empty token then none else lib.verify now token
  ]
]

-- `handleConnection` of the chat, with the rooms that the socket joins.
unfoldable pub handle_connection :
    Library → ℕ → Handshake → List Socket → List Socket × List (ℕ × Packet)
handle_connection lib now h sockets = elim (authenticate lib now h) [
  | none ↦ (sockets, (h.id, unauthorized_packet) ∷ [])
  | some u ↦ (
    sockets ++ record { id = h.id; user_id = some u; rooms = user_room u ∷ chat_room u ∷ [] } ∷ [],
    [],
  )
]

-- `server.to(room).emit(…)`: once to each socket that is in the room.
abbrev pub in_room : Room → Socket → Bool
in_room room s = any (same_room room) s.rooms

unfoldable pub emit : Room → Packet → List Socket → List (ℕ × Packet)
emit room p [] = []
emit room p (s ∷ ss) = (if in_room room s then (s.id, p) ∷ [] else []) ++ emit room p ss

-- `sendToUser` and `notifyNewMessage`.
unfoldable pub send_to_user : ℕ → Packet → List Socket → List (ℕ × Packet)
send_to_user u p sockets = emit (user_room u) p sockets ++ emit (chat_room u) p sockets

unfoldable pub notify_new_message : ℕ → DirectMessage → List Socket → List (ℕ × Packet)
notify_new_message u m sockets = send_to_user u (message_packet m) sockets

-- `handleTyping` of a socket with a user.
unfoldable pub typing_of : Option ℕ → Option ℕ → Bool → List Socket → List (ℕ × Packet)
typing_of none to b sockets = []
typing_of (some u) none b sockets = []
typing_of (some u) (some receiver) b sockets = emit (user_room receiver) (typing_packet u b) sockets

unfoldable pub handle_typing : ℕ → Option ℕ → Bool → List Socket → List (ℕ × Packet)
handle_typing socket to b sockets = elim (find socket_key socket sockets) [
  | none ↦ []
  | some s ↦ typing_of s.user_id to b sockets
]

-- The messages, the users and the connected sockets.
pub record State : Type 0 where
  pub sockets : List Socket
  pub messages : List DirectMessage
  pub users : List ℕ

-- What a browser does, with the time and the new id that the server gives.
pub data Call : Type 0 where
  connect : ℕ → Handshake → Call
  disconnect : ℕ → Call
  type_to : ℕ → Option ℕ → Bool → Call
  post_message : ℕ → ℕ → ℕ → ℕ → Text → Call
  read_messages : ℕ → ℕ → Call

-- `send` and `markAsRead` of the controller, once the service has answered.
unfoldable pub push_message :
    ℕ → ℕ → Result (DirectMessage × List DirectMessage) → State → State × List (ℕ × Packet)
push_message u receiver (err e) s = (s, [])
push_message u receiver (ok r) s = (
  record s { messages = r.1 },
  notify_new_message receiver r.0 s.sockets ++ send_to_user u (message_packet r.0) s.sockets,
)

unfoldable pub push_read :
    ℕ → Result (Seen × List DirectMessage) → State → State × List (ℕ × Packet)
push_read u (err e) s = (s, [])
push_read u (ok r) s = (
  record s { messages = r.1 },
  send_to_user r.0.sender_id (read_packet u r.0.up_to_created_at) s.sockets,
)

unfoldable pub step : Library → Call → State → State × List (ℕ × Packet)
step lib (connect now h) s =
    let r = handle_connection lib now h s.sockets in (record s { sockets = r.0 }, r.1)
step lib (disconnect id) s = (record s { sockets = keep_if (λ x. not (x.id == id)) s.sockets }, [])
step lib (type_to socket to b) s = (s, handle_typing socket to b s.sockets)
step lib (post_message now uuid u receiver text) s =
    push_message u receiver (send_message now uuid u receiver text s.users s.messages) s
step lib (read_messages u id) s = push_read u (mark_as_read_up_to u id s.messages) s

-- The state after some calls, the latest first.
unfoldable pub run : Library → List Call → State → State
run lib [] s = s
run lib (c ∷ earlier) s = (step lib c (run lib earlier s)).0

-- NotificationsGateway: the socket joins one room.
unfoldable pub handle_notifications_connection :
    Library → ℕ → Handshake → List Socket → List Socket × List (ℕ × Packet)
handle_notifications_connection lib now h sockets = elim (authenticate lib now h) [
  | none ↦ (sockets, (h.id, unauthorized_packet) ∷ [])
  | some u ↦ (sockets ++ record { id = h.id; user_id = some u; rooms = user_room u ∷ [] } ∷ [], [])
]

-- ===== src/Examples/Realtime.antt =====
-- Two users with one socket each, and the cookies of a browser.
use crm_system_backend.Prelude.{
  ℕ, ◌+◌, ◌*◌, ◌≡◌, refl, Option, none, some, List, [], ◌∷◌, ◌==◌, if◌then◌else◌, any, false,
}
use crm_system_backend.Prelude.Text.{Text, trim}
use crm_system_backend.Prelude.Results.{ok}
use crm_system_backend.Prelude.Queues.{count_if}
use crm_system_backend.Chat.{DirectMessage, send_message}
use crm_system_backend.Realtime.{
  Library, Handshake, unauthorized_packet, State, Call, connect, post_message, run, step,
  handle_connection, authenticate,
}
use crm_system_backend.Realtime.Cookies.{parse_cookies}
use crm_system_backend.Realtime.Headers.{header}
use crm_system_backend.Realtime.Twice.{arrivals, is_socket_of, each_message_arrives_twice}
use crm_system_backend.Realtime.Refusals.{unreadable_cookie_refuses}

-- A decoder that knows no percent sign, and tokens that are the user's number.
abbrev plain : Text → Option Text
plain v = if any (λ c. c == b'%') v then none else some v

abbrev first_code : Text → Option ℕ
first_code [] = none
first_code (c ∷ cs) = some c

abbrev library : Library
library = record { decode = plain; verify = λ now t. first_code t }

abbrev shake : ℕ → ℕ → Handshake
shake id u = record { id = id; auth_token = some (u ∷ []); cookie_header = none }

abbrev start : State
start = record { sockets = []; messages = []; users = 7 ∷ 8 ∷ [] }

abbrev earlier : List Call
earlier = connect 5 (shake 2 8) ∷ connect 4 (shake 1 7) ∷ []

abbrev post : Call
post = post_message 6 30 7 8 (b'h' ∷ b'i' ∷ [])

abbrev sent : DirectMessage × List DirectMessage
sent = (
  record {
    id = 30;
    sender_id = 7;
    receiver_id = 8;
    text = b'h' ∷ b'i' ∷ [];
    read = false;
    created_at = 6;
  },
  record {
    id = 30;
    sender_id = 7;
    receiver_id = 8;
    text = b'h' ∷ b'i' ∷ [];
    read = false;
    created_at = 6;
  }
      ∷ [],
)

post_succeeds :
    send_message 6 30 7 8
      (b'h' ∷ b'i' ∷ [])
      (run library earlier start).users
      (run library earlier start).messages
    ≡ ok sent
unfolding send_message run step handle_connection authenticate parse_cookies trim
post_succeeds = refl

each_message_arrives_twice_example :
    arrivals 2 (step library post (run library earlier start)).1
    ≡ 2 * count_if (is_socket_of 2 8) (run library earlier start).sockets
      + 2 * count_if (is_socket_of 2 7) (run library earlier start).sockets
each_message_arrives_twice_example =
    each_message_arrives_twice library earlier start 6 30 7 8 (b'h' ∷ b'i' ∷ []) sent 2 refl
      post_succeeds

abbrev session : Text × Text
session = (b's' ∷ [], b'1' ∷ [])

abbrev tracker : Text × Text
tracker = (b't' ∷ [], b'%' ∷ [])

abbrev browser : Handshake
browser = record {
  id = 3;
  auth_token = some (7 ∷ []);
  cookie_header = some (header session (tracker ∷ []));
}

unreadable_cookie_refuses_example :
    handle_connection library 5 browser [] ≡ ([], (3, unauthorized_packet) ∷ [])
unreadable_cookie_refuses_example =
    unreadable_cookie_refuses library 5 browser session (tracker ∷ []) [] refl
      ((refl, refl), ((refl, refl), tt)) refl

-- ===== src/Realtime/Twice.antt =====
-- How often a packet reaches a socket: `sendToUser` of
-- apps/api-gateway/src/modules/chat/chat.gateway.ts emits to two rooms.
use crm_system_backend.Prelude.{
  ℕ, ◌+◌, ◌*◌, ◌≡◌, refl, sym, ap, ◌∙◌, Bool, ◌&&◌, List, [], ◌∷◌, arith, ◌==◌, any, All, same_id?,
}
use crm_system_backend.Prelude.Text.{Text}
use crm_system_backend.Prelude.Results.{ok}
use crm_system_backend.Prelude.Queues.{count_if, count_if-append}
use crm_system_backend.Chat.{DirectMessage, send_message}
use crm_system_backend.Realtime.{
  Room, user_room, chat_room, same_room, Socket, Packet, message_packet, Library, in_room, emit,
  send_to_user, notify_new_message, State, Call, post_message, push_message, step, run,
}
use crm_system_backend.Realtime.Rooms.{IsAtHome, run-IsAtHome}

-- The packets that reach socket `k`, and the sockets of that number and user.
abbrev pub arrivals : ℕ → List (ℕ × Packet) → ℕ
arrivals k ds = count_if (λ d. d.0 == k) ds

abbrev pub is_socket_of : ℕ → ℕ → Socket → Bool
is_socket_of k u s = s.id == k && same_id? s.user_id u

module _ (lib : Library) (cs : List Call) where
  in_own_room :
      (u : ℕ) (s : Socket)
      → IsAtHome lib cs s
      → (in_room (user_room u) s ≡ same_id? s.user_id u)
        × (in_room (chat_room u) s ≡ same_id? s.user_id u)
  in_own_room u s home = (
    ap (any (same_room (user_room u))) home.in_rooms
        ∙ user_rooms home.owner
        ∙ sym (ap (λ o. same_id? o u) home.owned),
    ap (any (same_room (chat_room u))) home.in_rooms
        ∙ chat_rooms home.owner
        ∙ sym (ap (λ o. same_id? o u) home.owned),
  )
    where
      user_rooms :
          (o : ℕ) → any (same_room (user_room u)) (user_room o ∷ chat_room o ∷ []) ≡ (o == u)
      user_rooms o = ground arith

      chat_rooms :
          (o : ℕ) → any (same_room (chat_room u)) (user_room o ∷ chat_room o ∷ []) ≡ (o == u)
      chat_rooms o = ground arith

  arrivals-emit :
      (room : Room) (k u : ℕ) (p : Packet) (ss : List Socket)
      → ((s : Socket) → IsAtHome lib cs s → in_room room s ≡ same_id? s.user_id u)
      → All (IsAtHome lib cs) ss
      → arrivals k (emit room p ss) ≡ count_if (is_socket_of k u) ss
  unfolding emit
  arrivals-emit room k u p [] inside h = refl
  arrivals-emit room k u p (s ∷ ss) inside h =
      ground (arith, arrivals-emit room k u p ss inside h.1, inside s h.0)

  arrivals-send_to_user :
      (k u : ℕ) (p : Packet) (ss : List Socket)
      → All (IsAtHome lib cs) ss
      → arrivals k (send_to_user u p ss) ≡ 2 * count_if (is_socket_of k u) ss
  unfolding send_to_user
  arrivals-send_to_user k u p ss h = omega (
    arith,
    count_if-append (λ (d : ℕ × Packet). d.0 == k) (emit (user_room u) p ss)
        (emit (chat_room u) p ss),
    arrivals-emit (user_room u) k u p ss (λ s home. (in_own_room u s home).0) h,
    arrivals-emit (chat_room u) k u p ss (λ s home. (in_own_room u s home).1) h,
  )

-- Whatever browsers did from a moment without sockets on, with the latest first: a chat message
-- that is sent then reaches each connected socket of the receiver twice, each of the sender twice,
-- and no other socket.
pub each_message_arrives_twice :
    (lib : Library) (earlier : List Call) (start : State) (now uuid sender receiver : ℕ)
    (text : Text) (r : DirectMessage × List DirectMessage) (k : ℕ)
    → start.sockets ≡ []
    → send_message now uuid sender receiver text
        (run lib earlier start).users
        (run lib earlier start).messages
      ≡ ok r
    → arrivals k (step lib (post_message now uuid sender receiver text) (run lib earlier start)).1
      ≡ 2 * count_if (is_socket_of k receiver) (run lib earlier start).sockets
        + 2 * count_if (is_socket_of k sender) (run lib earlier start).sockets
unfolding step push_message notify_new_message
each_message_arrives_twice lib earlier start now uuid sender receiver text r k e succeeds =
    rw (succeeds, step)
      (omega (
        arith,
        count_if-append (λ (d : ℕ × Packet). d.0 == k)
            (send_to_user receiver (message_packet r.0) s.sockets)
            (send_to_user sender (message_packet r.0) s.sockets),
        arrivals-send_to_user lib earlier k receiver (message_packet r.0) s.sockets home,
        arrivals-send_to_user lib earlier k sender (message_packet r.0) s.sockets home,
      ))
  where
    s : State
    s = run lib earlier start

    home : All (IsAtHome lib earlier) s.sockets
    home = run-IsAtHome lib earlier start e

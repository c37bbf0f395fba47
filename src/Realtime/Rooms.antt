-- ===== src/Realtime/Rooms.antt =====
-- Who is in which room, and who gets to see which packet
-- (apps/api-gateway/src/modules/chat/chat.gateway.ts).
use crm_system_backend.Prelude.{
  ℕ, ◌≡◌, ◌⊎◌, inl, inr, refl, true, false, not, some, List, [], ◌∷◌, ◌==◌, keep_if, All,
  All-append, Option-cases, Bool-cases,
}
use crm_system_backend.Prelude.Results.{Result, ok, err}
use crm_system_backend.Chat.{DirectMessage, Seen, send_message, mark_as_read_up_to}
use crm_system_backend.Realtime.{
  user_room, chat_room, Socket, Handshake, Library, authenticate, handle_connection, State, Call,
  connect, disconnect, type_to, post_message, read_messages, push_message, push_read, step, run,
}

module _ (lib : Library) where
  -- Among the calls is a connection of that socket with a token of that user.
  abbrev pub Admits : ℕ → ℕ → Call → Type 0
  Admits socket u (connect now h) = (h.id ≡ socket) × (authenticate lib now h ≡ some u)
  Admits socket u _ = true ≡ false

  abbrev pub Entitled : List Call → ℕ → ℕ → Type 0
  Entitled [] socket u = true ≡ false
  Entitled (c ∷ cs) socket u = Admits socket u c ⊎ Entitled cs socket u

  -- A socket that is in the two rooms of its user and in no other.
  pub record IsAtHome (cs : List Call) (s : Socket) : Type 0 where
    pub owner : ℕ
    pub owned : s.user_id ≡ some owner
    pub in_rooms : s.rooms ≡ user_room owner ∷ chat_room owner ∷ []
    pub entitled : Entitled cs s.id owner

  later :
      (c : Call) (cs : List Call) (ss : List Socket)
      → All (IsAtHome cs) ss
      → All (IsAtHome (c ∷ cs)) ss
  later c cs [] h = tt
  later c cs (s ∷ ss) h = (
    record {
      owner = h.0.owner;
      owned = h.0.owned;
      in_rooms = h.0.in_rooms;
      entitled = inr (h.0.entitled);
    },
    later c cs ss h.1,
  )

  kept :
      (cs : List Call) (id : ℕ) (ss : List Socket)
      → All (IsAtHome cs) ss
      → All (IsAtHome cs) (keep_if (λ x. not (x.id == id)) ss)
  kept cs id [] h = tt
  kept cs id (s ∷ ss) h = elim (Bool-cases (s.id == id)) [
    | inl gone ↦ rw gone (kept cs id ss h.1)
    | inr stays ↦ rw stays (h.0, kept cs id ss h.1)
  ]

  connected :
      (cs : List Call) (now : ℕ) (h : Handshake) (ss : List Socket)
      → All (IsAtHome cs) ss
      → All (IsAtHome (connect now h ∷ cs)) (handle_connection lib now h ss).0
  unfolding handle_connection
  connected cs now h ss at_home = elim (Option-cases (authenticate lib now h)) [
    | inl refused ↦ rw (refused, handle_connection) (later (connect now h) cs ss at_home)
    | inr (u, granted) ↦
        rw (granted, handle_connection)
          (All-append (IsAtHome (connect now h ∷ cs)) ss _ (later (connect now h) cs ss at_home) (
            record { owner = u; owned = refl; in_rooms = refl; entitled = inl (refl, granted) },
            tt,
          ))
  ]

  push_message-sockets :
      (u receiver : ℕ) (r : Result (DirectMessage × List DirectMessage)) (s : State)
      → (push_message u receiver r s).0.sockets ≡ s.sockets
  unfolding push_message
  push_message-sockets u receiver (ok r) s = refl
  push_message-sockets u receiver (err e) s = refl

  push_read-sockets :
      (u : ℕ) (r : Result (Seen × List DirectMessage)) (s : State)
      → (push_read u r s).0.sockets ≡ s.sockets
  unfolding push_read
  push_read-sockets u (ok r) s = refl
  push_read-sockets u (err e) s = refl

  step-IsAtHome :
      (c : Call) (cs : List Call) (s : State)
      → All (IsAtHome cs) s.sockets
      → All (IsAtHome (c ∷ cs)) (step lib c s).0.sockets
  unfolding step
  step-IsAtHome (connect now h) cs s at_home = connected cs now h s.sockets at_home
  step-IsAtHome (disconnect id) cs s at_home = later _ cs _ (kept cs id s.sockets at_home)
  step-IsAtHome (type_to socket to b) cs s at_home = later _ cs s.sockets at_home
  step-IsAtHome (post_message now uuid u receiver text) cs s at_home =
      rw
        (push_message-sockets u receiver (send_message now uuid u receiver text s.users s.messages)
          s)
        (later _ cs s.sockets at_home)
  step-IsAtHome (read_messages u id) cs s at_home =
      rw (push_read-sockets u (mark_as_read_up_to u id s.messages) s) (later _ cs s.sockets at_home)

  pub run-IsAtHome :
      (cs : List Call) (start : State)
      → start.sockets ≡ []
      → All (IsAtHome cs) (run lib cs start).sockets
  unfolding run
  run-IsAtHome [] start e = rw e tt
  run-IsAtHome (c ∷ cs) start e = step-IsAtHome c cs (run lib cs start) (run-IsAtHome cs start e)

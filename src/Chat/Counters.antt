-- ===== src/Chat/Counters.antt =====
-- The chat as its users' counters see it: requests that send and read messages
-- (`sendMessage` and `markAsReadUpTo` of apps/api-gateway/src/modules/chat/chat.service.ts), one
-- after another, against counters of unread messages.
use crm_system_backend.Prelude.{
  ℕ, ◌+◌, ◌≡◌, ◌≢◌, refl, sym, ap, inl, inr, some, List, [], ◌∷◌, ◌++◌, arith, ◌==◌, if◌then◌else◌,
  once, Bool-cases, Option-cases, find, keep_if, length, includes, ltb, Bool, true, not, ◌&&◌, ◌||◌,
  none,
}
use crm_system_backend.Prelude.Text.{Text, trim, is_empty}
use crm_system_backend.Prelude.Results.{Result, ok, err, is_ok, Ensures}
use crm_system_backend.Chat.{
  DirectMessage, mark_if, message_key, is_seen, send_message, mark_as_read_up_to, get_unread_count,
}
use crm_system_backend.Chat.Reading.{send_message_lem, split_unread, others_unread}

-- A request, with the time and the id that a new message gets.
pub data Request : Type 0 where
  post : ℕ → ℕ → ℕ → ℕ → Text → Request
  read_up_to : ℕ → ℕ → Request

-- The messages after a call, which an exception leaves as they are.
abbrev pub left_by :
    {A : Type 0} → Result (A × List DirectMessage) → List DirectMessage → List DirectMessage
left_by (ok r) ms = r.1
left_by (err e) ms = ms

unfoldable pub serve : List ℕ → Request → List DirectMessage → List DirectMessage
unfolding send_message mark_as_read_up_to
serve users (post now uuid s r text) ms = left_by (send_message now uuid s r text users ms) ms
serve users (read_up_to u id) ms = left_by (mark_as_read_up_to u id ms) ms

unfoldable pub run : List ℕ → List Request → List DirectMessage → List DirectMessage
unfolding serve
run users [] ms = ms
run users (q ∷ qs) ms = run users qs (serve users q ms)

abbrev pub counters : List DirectMessage → ℕ → ℕ
counters ms u = get_unread_count u ms

-- How many messages of the author of `a` to `u`, not later than `a`, are unread.
abbrev pub unread_up_to : ℕ → DirectMessage → List DirectMessage → ℕ
unread_up_to u a [] = 0
unread_up_to u a (m ∷ ms) =
    (if m.read
        || ltb a.created_at m.created_at
        || not (m.receiver_id == u)
        || not (m.sender_id == a.sender_id)
      then 0
      else 1)
    + unread_up_to u a ms

-- What a request to read up to the message `id` takes off the counter of `u`: nothing, if that
-- message does not exist or is not for `u`.
abbrev pub newly_read : ℕ → ℕ → List DirectMessage → ℕ
newly_read u id ms = elim (find message_key id ms) [
  | none ↦ 0
  | some a ↦ if a.receiver_id == u then unread_up_to u a ms else 0
]

abbrev pub is_accepted : List ℕ → ℕ → ℕ → Text → Bool
is_accepted users s r text = not (s == r) && not (is_empty (trim text)) && includes users r

-- The specification: a message that is accepted adds one to its receiver's counter; a user who
-- reads takes what is newly read off the own counter; and that is all that changes.
abbrev pub Step : List ℕ → Request → List DirectMessage → (ℕ → ℕ) → (ℕ → ℕ) → Type 0
Step users (post now uuid s r text) ms f g =
    (v : ℕ) → g v ≡ f v + (if v == r then once (is_accepted users s r text) else 0)
Step users (read_up_to u id) ms f g =
    (v : ℕ) → g v + (if v == u then newly_read u id ms else 0) ≡ f v

abbrev pub Steps : List ℕ → List Request → List DirectMessage → (ℕ → ℕ) → (ℕ → ℕ) → Type 0
Steps users [] ms f g = (v : ℕ) → g v ≡ f v
Steps users (q ∷ qs) ms f h =
    (g : ℕ → ℕ) × Step users q ms f g × Steps users qs (serve users q ms) g h

at_one :
    (f g : ℕ → ℕ) (r n : ℕ)
    → g r ≡ f r + n
    → ((v : ℕ) → r ≢ v → g v ≡ f v)
    → (v : ℕ) → g v ≡ f v + (if v == r then n else 0)
at_one f g r n own others v = elim (Bool-cases (v == r)) [
  | inl same ↦ at_r (ground (arith, same))
  | inr other ↦ ground (arith, others v (λ e. absurd (ground (arith, other, e))), other)
]
  where
    at_r : v ≡ r → g v ≡ f v + (if v == r then n else 0)
    at_r e = ground (arith, ap g e, ap f e, own)

unread_up_to_lem :
    (u : ℕ) (a : DirectMessage) (ms : List DirectMessage)
    → length (keep_if (is_seen u a) ms) ≡ unread_up_to u a ms
unread_up_to_lem u a [] = refl
unread_up_to_lem u a (m ∷ ms) = ground (arith, unread_up_to_lem u a ms)

newly_for :
    (u id : ℕ) (a : DirectMessage) (ms : List DirectMessage)
    → find message_key id ms ≡ some a
    → (a.receiver_id == u) ≡ true
    → newly_read u id ms ≡ unread_up_to u a ms
newly_for u id a ms e mine = ground arith

serve-Step :
    (users : List ℕ) (q : Request) (ms : List DirectMessage)
    → Step users q ms (counters ms) (counters (serve users q ms))
unfolding serve mark_as_read_up_to get_unread_count
serve-Step users (post now uuid s r text) ms =
    let lem = send_message_lem now uuid s r text users ms in
    sent (send_message now uuid s r text users ms) lem.0 lem.1
  where
    Q : DirectMessage × List DirectMessage → Type 0
    Q q =
        (q.1 ≡ ms ++ q.0 ∷ [])
        × (q.0.sender_id ≡ s)
        × (q.0.receiver_id ≡ r)
        × (q.0.text ≡ trim text)
        × (get_unread_count r q.1 ≡ get_unread_count r ms + 1)
        × ((v : ℕ) → r ≢ v → get_unread_count v q.1 ≡ get_unread_count v ms)

    sent :
        (o : Result (DirectMessage × List DirectMessage))
        → is_ok o ≡ is_accepted users s r text
        → Ensures Q o
        → Step users (post now uuid s r text) ms (counters ms) (counters (left_by o ms))
    sent (err e) verdict h = λ v. rw (← verdict) (ground arith)
    sent (ok q) verdict (a, b, c, d, own, others) =
        λ v. rw (← verdict) (at_one (counters ms) (counters q.1) r 1 own others v)
serve-Step users (read_up_to u id) ms = elim (Option-cases (find message_key id ms)) [
  | inl e ↦ λ v. rw e (ground arith)
  | inr (a, e) ↦ elim (Bool-cases (a.receiver_id == u)) [
    | inl mine ↦ λ v. rw (newly_for u id a ms e mine) (
        rw (e, mine)
          (sym (
            at_one (counters (mark_if (is_seen u a) ms)) (counters ms) u (unread_up_to u a ms)
              (omega (arith, split_unread u a ms, unread_up_to_lem u a ms))
              (λ w ne. sym (others_unread u w a ms ne)) v)))
    | inr other ↦ λ v. rw (e, other) (ground arith)
  ]
]

-- However many requests send and read messages, in whatever order, and whichever of them fail, the
-- numbers of unread messages that `getUnreadCount` answers follow the specification of counters,
-- request by request. A message to somebody else who exists, whose trimmed text is not empty, adds
-- one to its receiver's counter. A user who reads up to a message for that user takes off the own
-- counter the number of messages of its author to the user that were unread and are not later than
-- it. No other counter changes, and no other request changes one.
pub run-Steps :
    (users : List ℕ) (qs : List Request) (ms : List DirectMessage)
    → Steps users qs ms (counters ms) (counters (run users qs ms))
unfolding run
run-Steps users [] ms = λ v. refl
run-Steps users (q ∷ qs) ms =
    (counters (serve users q ms), serve-Step users q ms, run-Steps users qs (serve users q ms))

-- ===== src/Chat/Reading.antt =====
-- Sending and reading messages (`sendMessage`, `getMessages`, `markAsReadUpTo` and
-- `getConversations` of apps/api-gateway/src/modules/chat/chat.service.ts).
use crm_system_backend.Prelude.{
  ℕ, ◌+◌, ◌≤◌, ◌↔◌, ◌⊎◌, ◌≡◌, ◌≢◌, refl, subst, Bool, true, false, not, ◌&&◌, ◌||◌, some, none,
  List, [], ◌∷◌, ◌++◌, arith, ◌==◌, if◌then◌else◌, find, keep_if, length, includes,
}
use crm_system_backend.Prelude.Text.{Text, trim, is_empty}
use crm_system_backend.Prelude.Results.{
  is_ok, ok, bad_request, not_found, Ensures, or_throw-Ensures, throw_if-Ensures,
}
use crm_system_backend.Chat.{
  DirectMessage, message_key, is_unread_for, is_between, get_messages, send_message, is_seen,
  mark_if, Seen, mark_as_read_up_to, get_unread_count,
}

-- What is unread is what is seen now and what stays unread.
pub split_unread :
    (u : ℕ) (a : DirectMessage) (ms : List DirectMessage)
    → length (keep_if (is_unread_for u) ms)
      ≡ length (keep_if (is_seen u a) ms)
        + length (keep_if (is_unread_for u) (mark_if (is_seen u a) ms))
split_unread u a [] = omega arith
split_unread u a (m ∷ ms) = ground (arith, split_unread u a ms)

pub others_unread :
    (u v : ℕ) (a : DirectMessage) (ms : List DirectMessage)
    → u ≢ v
    → length (keep_if (is_unread_for v) (mark_if (is_seen u a) ms))
      ≡ length (keep_if (is_unread_for v) ms)
others_unread u v a [] ne = refl
others_unread u v a (m ∷ ms) ne = ground (arith, others_unread u v a ms ne)

-- The rows, one by one: nothing but `read` changes, and a row is read if it was, or if it is a
-- message of the anchor's author to `u` that is not later than the anchor.
abbrev pub MarkedAsRead : ℕ → DirectMessage → List DirectMessage → List DirectMessage → Type 0
MarkedAsRead u a [] [] = Unit
MarkedAsRead u a (m ∷ ms) (n ∷ ns) =
    ((n ≡ record m { read = n.read })
      × ((n.read ≡ true) ↔ (
          (m.read ≡ true)
          ⊎ ((m.sender_id ≡ a.sender_id) × (m.receiver_id ≡ u) × (m.created_at ≤ a.created_at)))))
    × MarkedAsRead u a ms ns
MarkedAsRead u a _ _ = ⊥

marked_row :
    (u : ℕ) (a m : DirectMessage)
    → let n = if is_seen u a m then record m { read = true } else m in
      (n ≡ record m { read = n.read })
      × ((n.read ≡ true) ↔ (
          (m.read ≡ true)
          ⊎ ((m.sender_id ≡ a.sender_id) × (m.receiver_id ≡ u) × (m.created_at ≤ a.created_at))))
marked_row u a m = ground arith

mark_if-MarkedAsRead :
    (u : ℕ) (a : DirectMessage) (ms : List DirectMessage)
    → MarkedAsRead u a ms (mark_if (is_seen u a) ms)
mark_if-MarkedAsRead u a [] = tt
mark_if-MarkedAsRead u a (m ∷ ms) = (marked_row u a m, mark_if-MarkedAsRead u a ms)

abbrev pub receives : ℕ → ℕ → List DirectMessage → Bool
receives u id ms = elim (find message_key id ms) [ none ↦ false | some m ↦ m.receiver_id == u ]

-- `markAsReadUpTo` succeeds exactly if the message exists and is for the caller. Then the
-- rows that are read are those that were and all messages of its author to the caller up to its
-- time, it among them, and nothing else of any row changes; the caller's count of unread messages
-- goes down by the returned number, and nobody else's count changes.
pub mark_as_read_up_to_lem :
    (u id : ℕ) (ms : List DirectMessage)
    → (is_ok (mark_as_read_up_to u id ms) ≡ receives u id ms)
      × Ensures
          (λ r.
            ((a : DirectMessage) → find message_key id ms ≡ some a → MarkedAsRead u a ms r.1)
            × (get_unread_count u ms ≡ r.0.read + get_unread_count u r.1)
            × ((v : ℕ) → u ≢ v → get_unread_count v r.1 ≡ get_unread_count v ms))
          (mark_as_read_up_to u id ms)
unfolding mark_as_read_up_to get_unread_count
mark_as_read_up_to_lem u id ms = (returns, ensures)
  where
    returns : is_ok (mark_as_read_up_to u id ms) ≡ receives u id ms
    returns = ground arith

    P : Seen × List DirectMessage → Type 0
    P r =
        ((a : DirectMessage) → find message_key id ms ≡ some a → MarkedAsRead u a ms r.1)
        × (get_unread_count u ms ≡ r.0.read + get_unread_count u r.1)
        × ((v : ℕ) → u ≢ v → get_unread_count v r.1 ≡ get_unread_count v ms)

    same :
        (a m : DirectMessage)
        → find message_key id ms ≡ some a
        → find message_key id ms ≡ some m
        → a ≡ m
    same a m e f = cc

    seen : DirectMessage → Seen
    seen a = record {
      read = length (keep_if (is_seen u a) ms);
      sender_id = a.sender_id;
      up_to_created_at = a.created_at;
    }

    marked :
        (a : DirectMessage) → find message_key id ms ≡ some a → P (seen a, mark_if (is_seen u a) ms)
    marked a e = (
      λ m f.
          subst (λ b. MarkedAsRead u b ms (mark_if (is_seen u a) ms)) (same a m e f)
            (mark_if-MarkedAsRead u a ms),
      split_unread u a ms,
      λ v ne. others_unread u v a ms ne,
    )

    ensures : Ensures P (mark_as_read_up_to u id ms)
    ensures = or_throw-Ensures P (find message_key id ms) not_found _ (λ a e.
        throw_if-Ensures P (not (a.receiver_id == u)) not_found
          (ok (seen a, mark_if (is_seen u a) ms)) (λ mine. marked a e))

is_between_comm : (u p : ℕ) (m : DirectMessage) → is_between u p m ≡ is_between p u m
is_between_comm u p m =
    bools (m.sender_id == u) (m.receiver_id == p) (m.sender_id == p) (m.receiver_id == u)
  where
    bools : (a b c d : Bool) → ((a && b) || (c && d)) ≡ ((c && d) || (a && b))
    bools a b c d = ground arith

keep_if_ext :
    (p q : DirectMessage → Bool) (ms : List DirectMessage)
    → ((m : DirectMessage) → p m ≡ q m)
    → keep_if p ms ≡ keep_if q ms
keep_if_ext p q [] h = refl
keep_if_ext p q (m ∷ ms) h = ground (arith, h m, keep_if_ext p q ms h)

-- Two users who exist see the same dialog, page by page: `getMessages` gives both the same answer.
pub get_messages_comm :
    (u p limit offset : ℕ) (users : List ℕ) (ms : List DirectMessage)
    → includes users u ≡ true
    → includes users p ≡ true
    → get_messages u p limit offset users ms ≡ get_messages p u limit offset users ms
unfolding get_messages
get_messages_comm u p limit offset users ms hu hp =
    ground (arith, keep_if_ext (is_between u p) (is_between p u) ms (is_between_comm u p))

unread-append :
    (v : ℕ) (ms : List DirectMessage) (m : DirectMessage)
    → length (keep_if (is_unread_for v) (ms ++ m ∷ []))
      ≡ length (keep_if (is_unread_for v) ms) + (if is_unread_for v m then 1 else 0)
unread-append v [] m = ground arith
unread-append v (n ∷ ms) m = ground (arith, unread-append v ms m)

-- `sendMessage` succeeds exactly if the receiver is somebody else who exists and the trimmed text
-- is not empty. Then the table has one more message, from the sender to the receiver with the
-- trimmed text; the receiver has one unread message more, and nobody else's count changes.
pub send_message_lem :
    (now uuid s r : ℕ) (text : Text) (users : List ℕ) (ms : List DirectMessage)
    → (is_ok (send_message now uuid s r text users ms)
        ≡ (not (s == r) && not (is_empty (trim text)) && includes users r))
      × Ensures
          (λ q.
            (q.1 ≡ ms ++ q.0 ∷ [])
            × (q.0.sender_id ≡ s)
            × (q.0.receiver_id ≡ r)
            × (q.0.text ≡ trim text)
            × (get_unread_count r q.1 ≡ get_unread_count r ms + 1)
            × ((v : ℕ) → r ≢ v → get_unread_count v q.1 ≡ get_unread_count v ms))
          (send_message now uuid s r text users ms)
unfolding send_message get_unread_count
send_message_lem now uuid s r text users ms = (returns, ensures)
  where
    returns :
        is_ok (send_message now uuid s r text users ms)
        ≡ (not (s == r) && not (is_empty (trim text)) && includes users r)
    returns = ground arith

    sent : DirectMessage
    sent = record {
      id = uuid;
      sender_id = s;
      receiver_id = r;
      text = trim text;
      read = false;
      created_at = now;
    }

    Q : DirectMessage × List DirectMessage → Type 0
    Q q =
        (q.1 ≡ ms ++ q.0 ∷ [])
        × (q.0.sender_id ≡ s)
        × (q.0.receiver_id ≡ r)
        × (q.0.text ≡ trim text)
        × (get_unread_count r q.1 ≡ get_unread_count r ms + 1)
        × ((v : ℕ) → r ≢ v → get_unread_count v q.1 ≡ get_unread_count v ms)

    stored : Q (sent, ms ++ sent ∷ [])
    stored = (
      refl,
      refl,
      refl,
      refl,
      ground (arith, unread-append r ms sent),
      λ v ne. ground (arith, unread-append v ms sent),
    )

    ensures : Ensures Q (send_message now uuid s r text users ms)
    ensures = throw_if-Ensures Q (s == r) bad_request _ (λ a.
        throw_if-Ensures Q (is_empty (trim text)) bad_request _ (λ b.
          throw_if-Ensures Q (not (includes users r)) not_found (ok (sent, ms ++ sent ∷ []))
            (λ c. stored)))

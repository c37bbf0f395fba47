-- ===== src/Examples/Chat.antt =====
-- A chat of three users.
use crm_system_backend.Prelude.{
  ℕ, ◌+◌, ◌≡◌, ◌≢◌, refl, true, false, some, List, [], ◌∷◌, map, find, sum,
}
use crm_system_backend.Prelude.Results.{is_ok, Ensures}
use crm_system_backend.Chat.{
  DirectMessage, message_key, get_conversations, mark_as_read_up_to, get_unread_count,
}
use crm_system_backend.Chat.Unread.{unread_of, sum-get_conversations}
use crm_system_backend.Chat.Counters.{Request, post, read_up_to, run, counters, Steps, run-Steps}
use crm_system_backend.Chat.Reading.{MarkedAsRead, mark_as_read_up_to_lem}

abbrev note : ℕ → ℕ → ℕ → ℕ → DirectMessage
note id from to at = record {
  id = id;
  sender_id = from;
  receiver_id = to;
  text = 72 ∷ [];
  read = false;
  created_at = at;
}

abbrev rows : List DirectMessage
rows = note 1 7 8 10 ∷ note 2 8 7 20 ∷ note 3 9 8 30 ∷ note 4 7 8 40 ∷ []

sum-get_conversations_example :
    sum (map unread_of (get_conversations 8 rows)) ≡ get_unread_count 8 rows
sum-get_conversations_example = sum-get_conversations 8 rows

three_unread : get_unread_count 8 rows ≡ 3
unfolding get_unread_count
three_unread = refl

mark_as_read_up_to_example :
    (is_ok (mark_as_read_up_to 8 1 rows) ≡ true)
    × Ensures
        (λ r.
          ((a : DirectMessage) → find message_key 1 rows ≡ some a → MarkedAsRead 8 a rows r.1)
          × (get_unread_count 8 rows ≡ r.0.read + get_unread_count 8 r.1)
          × ((v : ℕ) → 8 ≢ v → get_unread_count v r.1 ≡ get_unread_count v rows))
        (mark_as_read_up_to 8 1 rows)
mark_as_read_up_to_example = mark_as_read_up_to_lem 8 1 rows

-- A message, the reader's answer to it, and a message that is refused.
abbrev talk : List Request
talk = read_up_to 8 1 ∷ post 50 5 8 7 (72 ∷ []) ∷ post 60 6 8 8 (72 ∷ []) ∷ []

run-Steps_example :
    Steps (7 ∷ 8 ∷ []) talk rows (counters rows) (counters (run (7 ∷ 8 ∷ []) talk rows))
run-Steps_example = run-Steps (7 ∷ 8 ∷ []) talk rows

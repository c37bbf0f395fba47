-- ===== src/Chat.antt =====
-- ChatService (apps/api-gateway/src/modules/chat/chat.service.ts). Messages are rows in the order
-- of insertion; `createdAt` is the time that the database gives. The database's order of rows with
-- equal times is the one of Prelude.Sort.
pub mod Unread
pub mod Reading
pub mod Counters
use crm_system_backend.Prelude.{
  ℕ, ◌+◌, min, Bool, true, false, not, ◌&&◌, ◌||◌, Option, none, some, List, [], ◌∷◌, ◌++◌, map,
  leb, ◌==◌, if◌then◌else◌, find, keep_if, length, includes, dedupe, count_of, or_else,
}
use crm_system_backend.Prelude.Text.{Text, trim, is_empty}
use crm_system_backend.Prelude.Sort.{newest_first}
use crm_system_backend.Prelude.Paging.{take, drop, reverse}
use crm_system_backend.Prelude.Results.{
  Result, ok, err, ◌>>=◌, ◌>>◌, bad_request, not_found, or_throw, throw_if,
}

pub record DirectMessage : Type 0 where
  pub id : ℕ
  pub sender_id : ℕ
  pub receiver_id : ℕ
  pub text : Text
  pub read : Bool
  pub created_at : ℕ

abbrev pub message_key : DirectMessage → ℕ
message_key m = m.id

abbrev pub sent_at : DirectMessage → ℕ
sent_at m = m.created_at

abbrev pub sender : DirectMessage → ℕ
sender m = m.sender_id

-- The `where` of the calls.
abbrev pub is_of : ℕ → DirectMessage → Bool
is_of u m = m.sender_id == u || m.receiver_id == u

abbrev pub is_unread_for : ℕ → DirectMessage → Bool
is_unread_for u m = m.receiver_id == u && not m.read

abbrev pub is_between : ℕ → ℕ → DirectMessage → Bool
is_between u p m =
    (m.sender_id == u && m.receiver_id == p) || (m.sender_id == p && m.receiver_id == u)

-- The other side of a message of `u`.
abbrev pub partner_id : ℕ → DirectMessage → ℕ
partner_id u m = if m.sender_id == u then m.receiver_id else m.sender_id

-- The loop of `getConversations`: `Map.set` unless `Map.has`, in the order of the rows.
abbrev pub first_of_each : (DirectMessage → ℕ) → List DirectMessage → List DirectMessage
first_of_each key [] = []
first_of_each key (m ∷ ms) = m ∷ keep_if (λ n. not (key n == key m)) (first_of_each key ms)

-- `groupBy` the sender, with `_count`, and the lookup with `?? 0`.
pub record Group : Type 0 where
  pub by : ℕ
  pub count : ℕ

abbrev pub group_by_sender : List DirectMessage → List Group
group_by_sender ms =
    map (λ s. record { by = s; count = count_of sender ms s }) (dedupe (map sender ms))

abbrev pub count_or_zero : ℕ → List Group → ℕ
count_or_zero s [] = 0
count_or_zero s (g ∷ gs) = if g.by == s then g.count else count_or_zero s gs

pub record Conversation : Type 0 where
  pub partner : ℕ
  pub unread_count : ℕ
  pub last_message : DirectMessage

abbrev pub last_at : Conversation → ℕ
last_at c = c.last_message.created_at

abbrev pub conversation : ℕ → List Group → DirectMessage → Conversation
conversation u unread m = record {
  partner = partner_id u m;
  unread_count = count_or_zero (partner_id u m) unread;
  last_message = m;
}

-- `getConversations`, without and with its last sort.
abbrev pub last_messages : ℕ → List DirectMessage → List DirectMessage
last_messages u ms = first_of_each (partner_id u) (newest_first sent_at (keep_if (is_of u) ms))

abbrev pub unread_by_sender : ℕ → List DirectMessage → List Group
unread_by_sender u ms = group_by_sender (keep_if (is_unread_for u) ms)

abbrev pub unsorted_conversations : ℕ → List DirectMessage → List Conversation
unsorted_conversations u ms = map (conversation u (unread_by_sender u ms)) (last_messages u ms)

unfoldable pub get_conversations : ℕ → List DirectMessage → List Conversation
get_conversations u ms = newest_first last_at (unsorted_conversations u ms)

-- `getMessages`.
unfoldable pub get_messages :
    ℕ → ℕ → ℕ → ℕ → List ℕ → List DirectMessage → Result (List DirectMessage)
get_messages u p limit offset users ms = do
  throw_if (u == p) bad_request
  throw_if (not (includes users p)) not_found
  ok (
      reverse
        (take (min limit 100) (drop offset (newest_first sent_at (keep_if (is_between u p) ms)))))

-- `sendMessage`; an absent text is an empty one.
unfoldable pub send_message :
    ℕ → ℕ → ℕ → ℕ → Text → List ℕ → List DirectMessage → Result (DirectMessage × List DirectMessage)
send_message now uuid sender_id receiver_id text users ms = do
  throw_if (sender_id == receiver_id) bad_request
  throw_if (is_empty (trim text)) bad_request
  throw_if (not (includes users receiver_id)) not_found
  let m : DirectMessage = record {
    id = uuid;
    sender_id = sender_id;
    receiver_id = receiver_id;
    text = trim text;
    read = false;
    created_at = now;
  }
  ok (m, ms ++ m ∷ [])

-- `markAsReadUpTo`: the `where` of `updateMany`, the count and the rows.
abbrev pub is_seen : ℕ → DirectMessage → DirectMessage → Bool
is_seen u anchor m =
    (m.sender_id == anchor.sender_id && is_unread_for u m) && leb m.created_at anchor.created_at

abbrev pub mark_if : (DirectMessage → Bool) → List DirectMessage → List DirectMessage
mark_if p [] = []
mark_if p (m ∷ ms) = (if p m then record m { read = true } else m) ∷ mark_if p ms

pub record Seen : Type 0 where
  pub read : ℕ
  pub sender_id : ℕ
  pub up_to_created_at : ℕ

unfoldable pub mark_as_read_up_to : ℕ → ℕ → List DirectMessage → Result (Seen × List DirectMessage)
mark_as_read_up_to u id ms = do
  anchor ← or_throw (find message_key id ms) not_found
  throw_if (not (anchor.receiver_id == u)) not_found
  ok (
    record {
      read = length (keep_if (is_seen u anchor) ms);
      sender_id = anchor.sender_id;
      up_to_created_at = anchor.created_at;
    },
    mark_if (is_seen u anchor) ms,
  )

-- `getUnreadDialogsCount` and `getUnreadCount`.
unfoldable pub get_unread_dialogs_count : ℕ → List DirectMessage → ℕ
get_unread_dialogs_count u ms = length (unread_by_sender u ms)

unfoldable pub get_unread_count : ℕ → List DirectMessage → ℕ
get_unread_count u ms = length (keep_if (is_unread_for u) ms)

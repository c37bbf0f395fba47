-- ===== src/Chat/Unread.antt =====
-- The counts of unread messages: those of the conversations, of the dialogs and of the messages
-- agree (apps/api-gateway/src/modules/chat/chat.service.ts).
use crm_system_backend.Prelude.{
  ℕ, ◌≤◌, ◌≡◌, refl, ap, sym, ◌∙◌, Bool, true, false, not, ◌||◌, List, [], ◌∷◌, map, arith, ltb,
  ◌==◌, if◌then◌else◌, keep_if, length, any, All, includes, includes-dedupe, length-keep_dedupe,
  without, dedupe, count_of, sum, sum-count_of,
}
use crm_system_backend.Prelude.Sort.{
  newest_first, insert_newest, Newest, newest_first-Newest, newest_first-Newest-eq, keep_if-Newest,
  keep_if-All,
}
use crm_system_backend.Chat.{
  DirectMessage, Group, Conversation, sent_at, sender, is_of, is_unread_for, partner_id,
  first_of_each, group_by_sender, count_or_zero, last_at, conversation, last_messages,
  unsorted_conversations, get_conversations, get_unread_dialogs_count, get_unread_count,
}

-- A test that a row of the table passes is passed by a row of the sorted table.
any-insert :
    (p : DirectMessage → Bool) (m : DirectMessage) (ms : List DirectMessage)
    → any p (insert_newest sent_at m ms) ≡ (p m || any p ms)
any-insert p m [] = refl
any-insert p m (n ∷ ms) = ground (arith, any-insert p m ms)

any-newest_first :
    (p : DirectMessage → Bool) (ms : List DirectMessage)
    → any p (newest_first sent_at ms) ≡ any p ms
any-newest_first p [] = refl
any-newest_first p (m ∷ ms) =
    ground (arith, any-insert p m (newest_first sent_at ms), any-newest_first p ms)

-- The partners of the first messages are the partners of all, each once.
map-keep_if :
    (key : DirectMessage → ℕ) (k : ℕ) (ms : List DirectMessage)
    → map key (keep_if (λ n. not (key n == k)) ms) ≡ without k (map key ms)
map-keep_if key k [] = refl
map-keep_if key k (m ∷ ms) = ground (arith, map-keep_if key k ms)

map-first_of_each :
    (key : DirectMessage → ℕ) (ms : List DirectMessage)
    → map key (first_of_each key ms) ≡ dedupe (map key ms)
map-first_of_each key [] = refl
map-first_of_each key (m ∷ ms) =
    ap (λ ks. key m ∷ ks)
      (map-keep_if key (key m) (first_of_each key ms)
        ∙ ap (without (key m)) (map-first_of_each key ms))

includes-map :
    (key : DirectMessage → ℕ) (k : ℕ) (ms : List DirectMessage)
    → includes (map key ms) k ≡ any (λ m. key m == k) ms
includes-map key k [] = refl
includes-map key k (m ∷ ms) = ground (arith, includes-map key k ms)

-- The last sort finds the conversations sorted.
first_of_each-All :
    (P : DirectMessage → Type 0) (key : DirectMessage → ℕ) (ms : List DirectMessage)
    → All P ms
    → All P (first_of_each key ms)
first_of_each-All P key [] h = tt
first_of_each-All P key (m ∷ ms) h =
    (h.0, keep_if-All sent_at P _ _ (first_of_each-All P key ms h.1))

first_of_each-Newest :
    (key : DirectMessage → ℕ) (ms : List DirectMessage)
    → Newest sent_at ms
    → Newest sent_at (first_of_each key ms)
first_of_each-Newest key [] h = tt
first_of_each-Newest key (m ∷ ms) h = (
  keep_if-All sent_at (λ n. n.created_at ≤ m.created_at) _ _ (first_of_each-All _ key ms h.0),
  keep_if-Newest sent_at _ _ (first_of_each-Newest key ms h.1),
)

map-conversation-Newest :
    (u : ℕ) (gs : List Group) (ms : List DirectMessage)
    → Newest sent_at ms
    → Newest last_at (map (conversation u gs) ms)
map-conversation-Newest u gs [] h = tt
map-conversation-Newest u gs (m ∷ ms) h =
    (olders m.created_at ms h.0, map-conversation-Newest u gs ms h.1)
  where
    olders :
        (t : ℕ) (ns : List DirectMessage)
        → All (λ n. n.created_at ≤ t) ns
        → All (λ c. last_at c ≤ t) (map (conversation u gs) ns)
    olders t [] h = tt
    olders t (n ∷ ns) h = (h.0, olders t ns h.1)

pub get_conversations-unsorted :
    (u : ℕ) (ms : List DirectMessage) → get_conversations u ms ≡ unsorted_conversations u ms
unfolding get_conversations
get_conversations-unsorted u ms = newest_first-Newest-eq last_at _ (
    map-conversation-Newest u _ _
      (first_of_each-Newest _ _ (newest_first-Newest sent_at (keep_if (is_of u) ms))))

-- The lookup in the groups is the count.
count_or_zero-groups :
    (s : ℕ) (ms : List DirectMessage) (ks : List ℕ)
    → count_or_zero s (map (λ k. record { by = k; count = count_of sender ms k }) ks)
      ≡ (if includes ks s then count_of sender ms s else 0)
count_or_zero-groups s ms [] = refl
count_or_zero-groups s ms (k ∷ ks) = ground (arith, count_or_zero-groups s ms ks)

count_of_none :
    (s : ℕ) (ms : List DirectMessage)
    → includes (map sender ms) s ≡ false
    → count_of sender ms s ≡ 0
count_of_none s [] h = refl
count_of_none s (m ∷ ms) h = ground (arith, count_of_none s ms)

count_of_some :
    (s : ℕ) (ms : List DirectMessage) → ltb 0 (count_of sender ms s) ≡ includes (map sender ms) s
count_of_some s [] = refl
count_of_some s (m ∷ ms) = ground (arith, count_of_some s ms)

count_or_zero-group_by_sender :
    (s : ℕ) (ms : List DirectMessage) → count_or_zero s (group_by_sender ms) ≡ count_of sender ms s
count_or_zero-group_by_sender s ms = ground (
  arith,
  count_or_zero-groups s ms (dedupe (map sender ms)),
  includes-dedupe s (map sender ms),
  count_of_none s ms,
)

-- Every sender of an unread message is the partner of some message.
abbrev partners : ℕ → List DirectMessage → List ℕ
partners u ms = map (partner_id u) (newest_first sent_at (keep_if (is_of u) ms))

covered :
    (u : ℕ) (k ms : List DirectMessage)
    → ((s : ℕ)
        → any (λ m. partner_id u m == s) (keep_if (is_of u) ms) ≡ true
        → any (λ m. partner_id u m == s) k ≡ true)
    → any
        (λ (m : DirectMessage). not (any (λ n. partner_id u n == m.sender_id) k))
        (keep_if (is_unread_for u) ms)
      ≡ false
covered u k [] h = refl
covered u k (m ∷ ms) h = ground (arith, h m.sender_id, covered u k ms (λ s e. h s (later s e)))
  where
    later :
        (s : ℕ)
        → any (λ n. partner_id u n == s) (keep_if (is_of u) ms) ≡ true
        → any (λ n. partner_id u n == s) (keep_if (is_of u) (m ∷ ms)) ≡ true
    later s e = ground arith

any_ext :
    (p q : DirectMessage → Bool) (ms : List DirectMessage)
    → ((m : DirectMessage) → p m ≡ q m)
    → any p ms ≡ any q ms
any_ext p q [] h = refl
any_ext p q (m ∷ ms) h = ground (arith, h m, any_ext p q ms h)

senders_are_partners :
    (u : ℕ) (ms : List DirectMessage)
    → any (λ m. not (includes (partners u ms) (sender m))) (keep_if (is_unread_for u) ms) ≡ false
senders_are_partners u ms =
    any_ext _ _ (keep_if (is_unread_for u) ms) (λ m. ap not (
      includes-map (partner_id u) m.sender_id (newest_first sent_at (keep_if (is_of u) ms))
      ∙ any-newest_first (λ n. partner_id u n == m.sender_id) (keep_if (is_of u) ms)))
    ∙ covered u (keep_if (is_of u) ms) ms (λ s e. e)

abbrev pub unread_of : Conversation → ℕ
unread_of c = c.unread_count

map-unread :
    (u : ℕ) (ms lm : List DirectMessage)
    → map unread_of (map (conversation u (group_by_sender ms)) lm)
      ≡ map (count_of sender ms) (map (partner_id u) lm)
map-unread u ms [] = refl
map-unread u ms (m ∷ lm) =
    cc (count_or_zero-group_by_sender (partner_id u m) ms, map-unread u ms lm)

map-unread-get_conversations :
    (u : ℕ) (ms : List DirectMessage)
    → map unread_of (get_conversations u ms)
      ≡ map (count_of sender (keep_if (is_unread_for u) ms)) (dedupe (partners u ms))
map-unread-get_conversations u ms =
    ap (map unread_of) (get_conversations-unsorted u ms)
    ∙ map-unread u (keep_if (is_unread_for u) ms) (last_messages u ms)
    ∙ ap (map (count_of sender (keep_if (is_unread_for u) ms)))
        (map-first_of_each (partner_id u) (newest_first sent_at (keep_if (is_of u) ms)))

-- The unread counts of a user's conversations add up to the user's count of unread messages.
pub sum-get_conversations :
    (u : ℕ) (ms : List DirectMessage)
    → sum (map unread_of (get_conversations u ms)) ≡ get_unread_count u ms
unfolding get_unread_count
sum-get_conversations u ms =
    ap sum (map-unread-get_conversations u ms)
    ∙ sum-count_of sender (keep_if (is_unread_for u) ms) (partners u ms) (senders_are_partners u ms)

length-keep_map :
    (p : ℕ → Bool) (cs : List Conversation)
    → length (keep_if (λ c. p (unread_of c)) cs) ≡ length (keep_if p (map unread_of cs))
length-keep_map p [] = refl
length-keep_map p (c ∷ cs) = ground (arith, length-keep_map p cs)

length-keep_count :
    (ms : List DirectMessage) (ks : List ℕ)
    → length (keep_if (λ n. ltb 0 n) (map (count_of sender ms) ks))
      ≡ length (keep_if (includes (map sender ms)) ks)
length-keep_count ms [] = refl
length-keep_count ms (k ∷ ks) = ground (arith, count_of_some k ms, length-keep_count ms ks)

any-map :
    (p : ℕ → Bool) (ms : List DirectMessage) → any p (map sender ms) ≡ any (λ m. p (sender m)) ms
any-map p [] = refl
any-map p (m ∷ ms) = ground (arith, any-map p ms)

length-map : (f : ℕ → Group) (ks : List ℕ) → length (map f ks) ≡ length ks
length-map f [] = refl
length-map f (k ∷ ks) = omega (arith, length-map f ks)

-- The number of a user's conversations with something unread is the user's count of dialogs with
-- unread messages.
pub get_unread_dialogs_count-get_conversations :
    (u : ℕ) (ms : List DirectMessage)
    → length (keep_if (λ c. ltb 0 (unread_of c)) (get_conversations u ms))
      ≡ get_unread_dialogs_count u ms
unfolding get_unread_dialogs_count
get_unread_dialogs_count-get_conversations u ms =
    length-keep_map (λ n. ltb 0 n) (get_conversations u ms)
    ∙ ap (λ ns. length (keep_if (λ n. ltb 0 n) ns)) (map-unread-get_conversations u ms)
    ∙ length-keep_count unread (dedupe (partners u ms))
    ∙ length-keep_dedupe (map sender unread) (partners u ms)
        (any-map (λ s. not (includes (partners u ms) s)) unread ∙ senders_are_partners u ms)
    ∙ sym (
        length-map (λ s. record { by = s; count = count_of sender unread s })
          (dedupe (map sender unread)))
  where
    unread : List DirectMessage
    unread = keep_if (is_unread_for u) ms

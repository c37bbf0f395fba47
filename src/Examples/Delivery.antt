-- ===== src/Examples/Delivery.antt =====
-- One deal that gets a second responsible user, and who hears of it.
use crm_system_backend.Prelude.{
  includes, once, ◌+◌, ◌*◌, ◌≤◌, ◌≡◌, ◌⊎◌, refl, Bool, true, false, not, ◌&&◌, none, some, List, [],
  ◌∷◌, length, same_id?,
}
use crm_system_backend.Prelude.Results.{ok}
use crm_system_backend.Tasks.{Config}
use crm_system_backend.Notifications.{
  Notice, handle_deal, notify, mark_all_read, mark_all, delete_read,
}
use crm_system_backend.Deals.Data.{Deal, DealPriority, Tables, Effect}
use crm_system_backend.Deals.Methods.{update_responsibles, assign_events, set_responsibles}
use crm_system_backend.Deals.Responsibles.{serve}
use crm_system_backend.Delivery.{
  World, Action, handle_event, push_row, clear_read, read_all, act, run, change, sent, deal_effects,
  handle_at, push_at, store, handle, sent_by, deleted_by,
}
use crm_system_backend.Delivery.Told.{asked, rows, every_notice_arrives}
use crm_system_backend.Delivery.Drained.{delivers, Delivers, deliveries_end}
use crm_system_backend.Delivery.Assigned.{assigned_to, reassign, new_responsibles_hear_once}

abbrev config : Config
config = record { valkey_url = false; reminders_queue = false }

abbrev deal : Deal
deal = record {
  id = 1;
  name = [];
  description = [];
  main_comment = none;
  price = 100;
  status = 0;
  customer_id = 3;
  responsible_user_id = some 7;
  responsible_user_ids = 7 ∷ [];
  deadline = none;
  priority = DealPriority.low;
  is_imported = false;
  imported_by = none;
}

abbrev world : World
world = record {
  deals = record {
    deals = deal ∷ [];
    customers = [];
    users = 7 ∷ 8 ∷ [];
    rules = [];
    stage_history = [];
  };
  tasks = [];
  queue = [];
  inbox = [];
  gateway_queue = [];
  pushed = [];
}

abbrev call : Action
call = reassign 1 (8 ∷ 7 ∷ []) (some 7)

abbrev handlings : List Action
handlings = handle_event 0 50 ∷ push_row 0 ∷ []

abbrev history : List Action
history = call ∷ handle_event 0 50 ∷ push_row 0 ∷ read_all 8 ∷ clear_read 8 ∷ []

abbrev to_eight : Notice → Bool
to_eight = assigned_to 8

emptied : ((run config history world).queue ≡ []) × ((run config history world).gateway_queue ≡ [])
unfolding run act change sent serve deal_effects update_responsibles assign_events handle_at push_at
    store handle handle_deal notify mark_all_read mark_all delete_read
emptied = (refl, refl)

every_notice_arrives_example :
    (rows to_eight (run config history world).pushed
      ≡ asked to_eight (sent_by config history world))
    × (rows to_eight (run config history world).inbox
          + rows to_eight (deleted_by config history world)
        ≡ rows to_eight world.inbox + asked to_eight (sent_by config history world))
every_notice_arrives_example =
    every_notice_arrives to_eight config history world refl refl refl (emptied.0) (emptied.1)

-- After the call, one event waits; it and its row are handled.
handled : Delivers config handlings (act config call world)
unfolding act change sent serve deal_effects update_responsibles assign_events handle_at push_at
    store handle handle_deal notify
handled = (refl, (refl, tt))

deliveries_end_example :
    (length handlings
      ≤ 2 * length (act config call world).queue + length (act config call world).gateway_queue)
    × ((((run config handlings (act config call world)).queue ≡ [])
          × ((run config handlings (act config call world)).gateway_queue ≡ []))
        ⊎ ((a : Action) × (delivers a (run config handlings (act config call world)) ≡ true)))
deliveries_end_example = deliveries_end config handlings (act config call world) handled

given : Tables × Deal × List Effect
unfolding assign_events
given = (
  record (world.deals) { deals = set_responsibles (8 ∷ 7 ∷ []) deal ∷ [] },
  set_responsibles (8 ∷ 7 ∷ []) deal,
  assign_events (set_responsibles (8 ∷ 7 ∷ []) deal) (7 ∷ []) (some 7) (8 ∷ 7 ∷ []),
)

call_succeeds : update_responsibles 1 (8 ∷ 7 ∷ []) (some 7) world.deals ≡ ok given
unfolding update_responsibles given
call_succeeds = refl

heard :
    ((run config (call ∷ handlings) world).queue ≡ [])
    × ((run config (call ∷ handlings) world).gateway_queue ≡ [])
unfolding run act change sent serve deal_effects update_responsibles assign_events handle_at push_at
    store handle handle_deal notify
heard = (refl, refl)

new_responsibles_hear_once_example :
    rows (assigned_to 8) (run config (call ∷ handlings) world).pushed
    ≡ rows (assigned_to 8) world.pushed
      + once (includes (8 ∷ 7 ∷ []) 8 && not (includes (7 ∷ []) 8) && not (same_id? (some 7) 8))
new_responsibles_hear_once_example =
    new_responsibles_hear_once config 1 (8 ∷ 7 ∷ []) (some 7) handlings world deal given 8 refl refl
      refl call_succeeds handled heard.0 heard.1

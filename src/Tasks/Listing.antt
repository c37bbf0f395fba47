-- ===== src/Tasks/Listing.antt =====
-- The list of tasks (`findAll` of apps/tasks-service/src/tasks/tasks.service.ts). The cache is
-- outside: what it holds for the query is an argument, and what is stored there is returned.
use crm_system_backend.Prelude.{
  ℕ, ◌+◌, ◌-◌, ◌*◌, ◌≤◌, ◌<◌, ◌≡◌, ◌∙◌, ap, Bool, true, ◌&&◌, Option, none, some, List, arith,
  keep_if, length, same_id?,
}
use crm_system_backend.Prelude.Sort.{newest_first, length-newest_first}
use crm_system_backend.Prelude.Reorder.{Distinct, IsOrderBy, order_by-Distinct}
use crm_system_backend.Prelude.Paging.{take, drop, collect, page_count, collect_all, length-take-le}
use crm_system_backend.Tasks.{Task, TaskStatus, TaskPriority, status_eq, priority_eq}

-- A row with its column `createdAt`.
pub record Row : Type 0 where
  pub task : Task
  pub created_at : ℕ

abbrev pub row_time : Row → ℕ
row_time r = r.created_at

-- FindAllTasksMessage, and what findAll returns.
pub record Query : Type 0 where
  pub status : Option TaskStatus
  pub priority : Option TaskPriority
  pub assignee_id : Option ℕ
  pub page : ℕ
  pub limit : ℕ

pub record Page : Type 0 where
  pub items : List Row
  pub total : ℕ
  pub page : ℕ
  pub limit : ℕ
  pub page_count : ℕ

-- The `where`: a filter that is not given matches every row.
abbrev pub matches : Query → Row → Bool
matches q r =
    (elim q.status [ none ↦ true | some s ↦ status_eq r.task.status s ])
    && (elim q.priority [ none ↦ true | some p ↦ priority_eq r.task.priority p ])
    && (elim q.assignee_id [ none ↦ true | some a ↦ same_id? r.task.assignee_id a ])

abbrev pub matching : Query → List Row → List Row
matching q rows = newest_first row_time (keep_if (matches q) rows)

-- `order_by` is what the database makes of the matching rows when it sorts them for this read.
abbrev pub read_page : (List Row → List Row) → Query → List Row → Page
read_page order_by q rows = record {
  items = take q.limit (drop ((q.page - 1) * q.limit) (order_by (keep_if (matches q) rows)));
  total = length (keep_if (matches q) rows);
  page = q.page;
  limit = q.limit;
  page_count = page_count (length (keep_if (matches q) rows)) q.limit;
}

-- `findAll`: the answer, and what the cache is given to keep.
unfoldable pub find_all :
    (List Row → List Row) → Option Page → Query → List Row → Page × Option Page
find_all order_by (some cached) q rows = (cached, none)
find_all order_by none q rows = (read_page order_by q rows, some (read_page order_by q rows))

-- The items of page `p`, read without the cache; the database sorts for each page anew.
abbrev pub items_of : (ℕ → List Row → List Row) → Query → List Row → ℕ → List Row
unfolding find_all
items_of orders q rows p = (find_all (orders p) none (record q { page = p }) rows).0.items

-- Let the limit be positive, let no two of the tasks that match the filters have the same creation
-- time, and let the database sort by that time in some way for each page that is read. The pages
-- that `findAll` announces, read one after another without the cache, hold exactly the tasks that
-- match, each as often as in the table, the newest first, and no page has more tasks than the limit.
pub find_all-pages :
    (orders : ℕ → List Row → List Row) (q : Query) (rows : List Row)
    → ((p : ℕ) → IsOrderBy row_time (orders p))
    → 0 < q.limit
    → Distinct row_time (keep_if (matches q) rows)
    → (collect (find_all (orders q.page) none q rows).0.page_count 0 (items_of orders q rows)
        ≡ matching q rows)
      × (length (find_all (orders q.page) none q rows).0.items ≤ q.limit)
unfolding find_all items_of
find_all-pages orders q rows law pos distinct = (
  collect_all (length (keep_if (matches q) rows)) q.limit (items_of orders q rows) (matching q rows)
      pos (length-newest_first row_time (keep_if (matches q) rows))
      (λ k.
        let back : k + 1 - 1 ≡ k = omega arith in
        ap (λ j. take q.limit (drop (j * q.limit) (orders (k + 1) (keep_if (matches q) rows)))) back
        ∙ ap (λ xs. take q.limit (drop (k * q.limit) xs))
            (order_by-Distinct row_time (orders (k + 1)) (keep_if (matches q) rows) (law (k + 1))
              distinct)),
  length-take-le q.limit (drop ((q.page - 1) * q.limit) (orders q.page (keep_if (matches q) rows))),
)

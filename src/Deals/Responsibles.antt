-- ===== src/Deals/Responsibles.antt =====
-- The users responsible for a deal: the first of `responsibleUserIds` is `responsibleUserId`
-- (apps/api-gateway/src/modules/deals/deals.service.ts).
use crm_system_backend.Prelude.{
  dedupe, ℕ, ◌≡◌, refl, Bool, true, false, Option, none, some, List, [], ◌∷◌, arith, ◌==◌,
  if◌then◌else◌, find, update, erase, All, All-append, update-All,
}
use crm_system_backend.Prelude.Text.{Text}
use crm_system_backend.Prelude.Results.{
  Result, ok, err, not_found, Ensures, or_throw-Ensures, >>=-Ensures,
}
use crm_system_backend.Shared.Access.{AuthUser}
use crm_system_backend.Tasks.{Config}
use crm_system_backend.Deals.Data.{
  default_deal_stage, resolve_customer, Deal, Tables, Effect, deal_key,
}
use crm_system_backend.Deals.Methods.{
  new_deal, list_of, add_deal, step_or, ensure_users, NewDealDto, UpdateDealDto, create,
  import_deal, update_deal, update_responsibles, update_main_comment, remove, edit_deal,
  set_responsibles, set_main_comment, first,
}
use crm_system_backend.Deals.Stages.{change_stage, set_stage, check_stage}

-- The calls of the deals controller that change deals; `c`, the time and the new ids are what the
-- server supplies.
pub data Request : Type 0 where
  create_request : ℕ → ℕ → ℕ → NewDealDto → Option ℕ → Request
  import_request : ℕ → ℕ → ℕ → ℕ → ℕ → NewDealDto → Option ℕ → Request
  update_request : ℕ → ℕ → UpdateDealDto → Option ℕ → Request
  responsibles_request : ℕ → List ℕ → Option ℕ → Request
  comment_request : ℕ → Text → Request
  stage_request : ℕ → ℕ → Option Text → AuthUser → Request
  remove_request : ℕ → Request

-- The tables after a call: those of before, if the method throws with nothing written.
abbrev settle {ℓ} : {A : Type ℓ} → (A → Tables) → Tables → Result A → Tables
settle f s (ok a) = f a
settle f s (err e) = s

unfoldable pub serve : Config → Request → Tables → Tables
serve c (create_request now fresh uuid dto actor) s = (create c now fresh uuid dto actor s).0
serve c (import_request now fresh uuid stage importer dto actor) s =
    (import_deal c now fresh uuid stage importer dto actor s).0
serve c (update_request now id dto actor) s = settle (λ r. r.0) s (update_deal c now id dto actor s)
serve c (responsibles_request id ids actor) s =
    settle (λ r. r.0) s (update_responsibles id ids actor s)
serve c (comment_request id text) s = settle (λ r. r.0) s (update_main_comment id text s)
serve c (stage_request id to comment actor) s =
    settle (λ r. r.0) s (change_stage id to comment actor s)
serve c (remove_request id) s = settle (λ r. r.0) s (remove c id s)

abbrev pub run : Config → List Request → Tables → Tables
run c [] s = s
run c (r ∷ rs) s = run c rs (serve c r s)

abbrev pub HeadIsMain : Deal → Type 0
HeadIsMain d = first d.responsible_user_ids ≡ d.responsible_user_id

abbrev pub HeadsAreMain : Tables → Type 0
HeadsAreMain s = All HeadIsMain s.deals

settle-Heads {ℓ} :
    {A : Type ℓ} (f : A → Tables) (s : Tables) (r : Result A)
    → HeadsAreMain s
    → Ensures (λ a. HeadsAreMain (f a)) r
    → HeadsAreMain (settle f s r)
settle-Heads f s (ok a) h e = e
settle-Heads f s (err x) h e = h

update-Heads :
    (id : ℕ) (f : Deal → Deal) (s : Tables)
    → HeadsAreMain s
    → ((d : Deal) → HeadIsMain d → HeadIsMain (f d))
    → All HeadIsMain (update deal_key id f s.deals)
update-Heads id f s h step = update-All HeadIsMain deal_key id f s.deals h (λ d k. step d)

edit-Head : (dto : UpdateDealDto) (d : Deal) → HeadIsMain d → HeadIsMain (edit_deal dto d)
edit-Head dto d h = ground arith

erase-Heads : (id : ℕ) (ds : List Deal) → All HeadIsMain ds → All HeadIsMain (erase deal_key id ds)
erase-Heads id [] h = tt
erase-Heads id (d ∷ ds) h = ground (arith, erase-Heads id ds h.1, h.0, h.1)

step_or-Heads {ℓ} :
    {A : Type ℓ} (r : Result A) (t : Tables) (next : A → Tables × Result (Deal × List Effect))
    → HeadsAreMain t
    → ((a : A) → HeadsAreMain (next a).0)
    → HeadsAreMain (step_or r t next).0
step_or-Heads (ok a) t next q n = n a
step_or-Heads (err e) t next q n = q

add_deal-Heads :
    (c : Config) (now fresh : ℕ) (dto : NewDealDto) (users : List ℕ) (make : ℕ → Deal)
    (actor : Option ℕ) (s : Tables)
    → ((customer : ℕ) → HeadIsMain (make customer))
    → HeadsAreMain s
    → HeadsAreMain (add_deal c now fresh dto users make actor s).0
add_deal-Heads c now fresh dto users make actor s good h =
    step_or-Heads (resolve_customer fresh dto.customer_id dto.new_customer s.customers) s _ h (λ r.
      step_or-Heads (ensure_users users (record s { customers = r.1 }))
        (record s { customers = r.1 }) _ h
        (λ _. All-append HeadIsMain s.deals (make r.0 ∷ []) h (good r.0, tt)))

HeadsLeft : Tables × Deal × List Effect → Type 0
HeadsLeft r = HeadsAreMain r.0

update_deal-Heads :
    (c : Config) (now id : ℕ) (dto : UpdateDealDto) (actor : Option ℕ) (s : Tables)
    → HeadsAreMain s
    → Ensures HeadsLeft (update_deal c now id dto actor s)
unfolding update_deal HeadsLeft
update_deal-Heads c now id dto actor s h =
    or_throw-Ensures HeadsLeft (find deal_key id s.deals) not_found _ (λ d e.
      >>=-Ensures HeadsLeft (ensure_users (list_of dto.responsible_user_id) s) _
        (λ u k. update-Heads id (edit_deal dto) s h (λ d. edit-Head dto d)))

update_responsibles-Heads :
    (id : ℕ) (ids : List ℕ) (actor : Option ℕ) (s : Tables)
    → HeadsAreMain s
    → Ensures HeadsLeft (update_responsibles id ids actor s)
unfolding update_responsibles HeadsLeft
update_responsibles-Heads id ids actor s h =
    or_throw-Ensures HeadsLeft (find deal_key id s.deals) not_found _ (λ d e.
      >>=-Ensures HeadsLeft (ensure_users (dedupe ids) s) _
        (λ u k. update-Heads id (set_responsibles (dedupe ids)) s h (λ d q. refl)))

update_main_comment-Heads :
    (id : ℕ) (text : Text) (s : Tables)
    → HeadsAreMain s
    → Ensures (λ (r : Tables × Deal). HeadsAreMain r.0) (update_main_comment id text s)
unfolding update_main_comment
update_main_comment-Heads id text s h =
    or_throw-Ensures (λ (r : Tables × Deal). HeadsAreMain r.0) (find deal_key id s.deals) not_found
      _ (λ d e. update-Heads id (set_main_comment text) s h (λ d q. q))

change_stage-Heads :
    (id to : ℕ) (comment : Option Text) (actor : AuthUser) (s : Tables)
    → HeadsAreMain s
    → Ensures HeadsLeft (change_stage id to comment actor s)
unfolding change_stage HeadsLeft
change_stage-Heads id to comment actor s h =
    or_throw-Ensures HeadsLeft (find deal_key id s.deals) not_found _ (λ d e.
      if-Ensures (d.status == to) _ _ h (
        >>=-Ensures HeadsLeft (check_stage d to actor s) _
          (λ u k. update-Heads id (set_stage to) s h (λ d q. q))))
  where
    if-Ensures :
        (b : Bool) (x y : Result (Tables × Deal × List Effect))
        → Ensures HeadsLeft x
        → Ensures HeadsLeft y
        → Ensures HeadsLeft (if b then x else y)
    if-Ensures true x y hx hy = hx
    if-Ensures false x y hx hy = hy

remove-Heads :
    (c : Config) (id : ℕ) (s : Tables)
    → HeadsAreMain s
    → Ensures (λ (r : Tables × List Effect). HeadsAreMain r.0) (remove c id s)
unfolding remove
remove-Heads c id s h =
    or_throw-Ensures (λ (r : Tables × List Effect). HeadsAreMain r.0) (find deal_key id s.deals)
      not_found _ (λ d e. erase-Heads id s.deals h)

serve-Heads : (c : Config) (r : Request) (s : Tables) → HeadsAreMain s → HeadsAreMain (serve c r s)
unfolding serve create import_deal HeadsLeft
serve-Heads c (create_request now fresh uuid dto actor) s h =
    add_deal-Heads c now fresh dto (dto.responsible_user_id ∷ [])
      (λ k. new_deal uuid default_deal_stage k none dto) actor s (λ k. refl) h
serve-Heads c (import_request now fresh uuid stage importer dto actor) s h =
    add_deal-Heads c now fresh dto (dto.responsible_user_id ∷ importer ∷ [])
      (λ k. new_deal uuid stage k (some importer) dto) actor s (λ k. refl) h
serve-Heads c (update_request now id dto actor) s h =
    settle-Heads (λ r. r.0) s (update_deal c now id dto actor s) h
      (update_deal-Heads c now id dto actor s h)
serve-Heads c (responsibles_request id ids actor) s h =
    settle-Heads (λ r. r.0) s (update_responsibles id ids actor s) h
      (update_responsibles-Heads id ids actor s h)
serve-Heads c (comment_request id text) s h =
    settle-Heads (λ r. r.0) s (update_main_comment id text s) h
      (update_main_comment-Heads id text s h)
serve-Heads c (stage_request id to comment actor) s h =
    settle-Heads (λ r. r.0) s (change_stage id to comment actor s) h
      (change_stage-Heads id to comment actor s h)
serve-Heads c (remove_request id) s h =
    settle-Heads (λ r. r.0) s (remove c id s) h (remove-Heads c id s h)

-- If the first of a deal's responsible users is its main one for every deal, then it is so after
-- any sequence of calls of the deals controller, also those that fail.
pub run-HeadsAreMain :
    (c : Config) (requests : List Request) (s : Tables)
    → HeadsAreMain s
    → HeadsAreMain (run c requests s)
run-HeadsAreMain c [] s h = h
run-HeadsAreMain c (r ∷ rs) s h = run-HeadsAreMain c rs (serve c r s) (serve-Heads c r s h)

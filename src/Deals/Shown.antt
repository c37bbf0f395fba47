-- ===== src/Deals/Shown.antt =====
-- Whom a deal shows as responsible: `findOne` of
-- apps/api-gateway/src/modules/deals/deals.service.ts, without the rows that it only attaches, after
-- `updateResponsibles`.
use crm_system_backend.Prelude.{
  ℕ, ◌≡◌, refl, ap, ◌∙◌, Bool, true, false, not, Option, none, some, List, [], ◌∷◌, arith, ◌==◌,
  find, find-update_self, keep_if, any, includes, dedupe,
}
use crm_system_backend.Prelude.Results.{
  Result, ok, ◌>>=◌, not_found, or_throw, throw_if, Ensures, or_throw-Ensures, >>=-Ensures,
}
use crm_system_backend.Deals.Data.{Deal, DealStageHistory, Tables, Effect, deal_key}
use crm_system_backend.Deals.Methods.{update_responsibles, ensure_users, set_responsibles}

pub record Shown : Type 0 where
  pub deal : Deal
  pub responsibles : List ℕ
  pub stage_history : List DealStageHistory

-- The ids in the order of the array, or the single one for a row from before it.
abbrev pub responsible_ids : List ℕ → Option ℕ → List ℕ
responsible_ids (u ∷ us) main = u ∷ us
responsible_ids [] none = []
responsible_ids [] (some u) = u ∷ []

-- Only users who exist are shown.
unfoldable pub find_one : ℕ → Tables → Result Shown
find_one id s = do
  d ← or_throw (find deal_key id s.deals) not_found
  ok (record {
    deal = d;
    responsibles =
        keep_if (includes s.users) (responsible_ids d.responsible_user_ids d.responsible_user_id);
    stage_history = keep_if (λ (h : DealStageHistory). h.deal_id == id) s.stage_history;
  })

all_known :
    (users ids : List ℕ)
    → any (λ u. not (includes users u)) ids ≡ false
    → keep_if (includes users) ids ≡ ids
all_known users [] h = refl
all_known users (u ∷ us) h = ground (arith, h, all_known users us)

ensured :
    (ids : List ℕ) (s : Tables)
    → ensure_users ids s ≡ ok tt
    → any (λ u. not (includes s.users u)) ids ≡ false
ensured ids s = branch (any (λ u. not (includes s.users u)) ids)
  where
    branch : (b : Bool) → throw_if b not_found ≡ ok tt → b ≡ false
    branch true h = cc
    branch false h = refl

set_ids :
    (ids : List ℕ) (d : Deal)
    → responsible_ids
        (set_responsibles ids d).responsible_user_ids
        (set_responsibles ids d).responsible_user_id
      ≡ ids
set_ids [] d = refl
set_ids (u ∷ us) d = refl

-- If `updateResponsibles` succeeds, the deal that is read afterwards is the one that it returned,
-- and shows exactly the users that the request names, each of them once, in the order in which they
-- are first named.
pub update_responsibles-find_one :
    (id : ℕ) (wanted : List ℕ) (actor : Option ℕ) (s : Tables)
    → Ensures
        (λ r.
          find_one id r.0
          ≡ ok (record {
            deal = r.1;
            responsibles = dedupe wanted;
            stage_history = keep_if (λ (h : DealStageHistory). h.deal_id == id) s.stage_history;
          }))
        (update_responsibles id wanted actor s)
unfolding update_responsibles find_one
update_responsibles-find_one id wanted actor s =
    or_throw-Ensures P (find deal_key id s.deals) not_found _ (λ d e.
      >>=-Ensures P (ensure_users (dedupe wanted) s) _ (λ _ k.
        ap (λ o. or_throw o not_found >>= shown)
          (find-update_self deal_key id (set_responsibles (dedupe wanted)) s.deals d (λ x. refl) e)
        ∙ ap (λ us. ok (show (set_responsibles (dedupe wanted) d) us))
            (ap (keep_if (includes s.users)) (set_ids (dedupe wanted) d)
              ∙ all_known s.users (dedupe wanted) (ensured (dedupe wanted) s k))))
  where
    show : Deal → List ℕ → Shown
    show d us = record {
      deal = d;
      responsibles = us;
      stage_history = keep_if (λ (h : DealStageHistory). h.deal_id == id) s.stage_history;
    }

    shown : Deal → Result Shown
    shown d = ok (
        show d (
          keep_if (includes s.users)
            (responsible_ids d.responsible_user_ids d.responsible_user_id)))

    P : Tables × Deal × List Effect → Type 0
    P r = find_one id r.0 ≡ ok (show r.1 (dedupe wanted))

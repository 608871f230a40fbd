-- ===== src/Campaign/Worker/Cancel.antt =====
-- A cancelled campaign puts no further target to the carrier.
use turncall.Prelude.{
  ℕ, ◌≡◌, refl, Bool, true, false, not, ◌||◌, Option, none, some, List, [], ◌∷◌, ◌==◌, arith,
  Bool-cases, inl, inr,
}
use turncall.Campaign.{
  CampaignStatus, queued, running, paused, dialling, placing, calling, TargetRow, Db,
}
use turncall.Campaign.Table.{update_where, campaign_running}
use turncall.Campaign.Claims.{next_target, claim_next_target, claim_row, claimed}
use turncall.Campaign.Repo.{
  begin_placing, is_dead, may_place, placing_row, may_move, dialled_row, deferred_row,
  unclaimed_row, retried_row, finished_row, unfinished, unknown_row,
}
use turncall.Campaign.Control.{
  set_campaign_status, cancel_campaign, cancel_targets, may_cancel, cancelled_row,
}
use turncall.Campaign.Worker.{
  Op, start, claim, place, dialled, put_off, give_back, retry, finish, complete, reclaim, pause,
  resume, cancel, ending_status, apply, apply_all,
}
use turncall.Campaign.Worker.Stopped.{apply_all-Stopped, cancel-Stopped, Stopped-never_running}
use turncall.Campaign.Worker.Rows.{
  if_holds, Every, Every-update_where, any-Every, next_target-lem, all_true,
}

-- Any target of the one id is of the campaign of the other.
abbrev belongs : ℕ → ℕ → TargetRow → Bool
belongs x target t = not (t.id == target) || t.campaign_id == x

module _ (x target : ℕ) where
  -- All targets of that id are targets of the campaign.
  abbrev pub Belongs : Db → Type 0
  Belongs db = Every (belongs x target) db.targets

  kept :
      (p : TargetRow → Bool) (f : TargetRow → TargetRow) (ts : List TargetRow)
      → ((t : TargetRow) → (f t).id ≡ t.id)
      → ((t : TargetRow) → (f t).campaign_id ≡ t.campaign_id)
      → Every (belongs x target) ts
      → Every (belongs x target) (update_where p f ts)
  kept p f ts same_id same_campaign h =
      Every-update_where (belongs x target) p f (λ t ht hit. rw (same_id t, same_campaign t, ht)) ts
        h

  claim_row-Belongs :
      (now stamp : ℕ) (o : Option TargetRow) (db : Db)
      → Belongs db
      → Belongs (claim_row now stamp o db).1
  unfolding claim_row
  claim_row-Belongs now stamp none db h = h
  claim_row-Belongs now stamp (some t) db h =
      kept (λ u. u.id == t.id) (claimed now stamp) db.targets (λ u. refl) (λ u. refl) h

  apply-Belongs : (op : Op) (db : Db) → Belongs db → Belongs (apply op db)
  unfolding apply
  apply-Belongs (start c now) db h = h
  apply-Belongs (claim c locked now stamp) db h =
      claim_row-Belongs now stamp (next_target c locked now db) db h
  apply-Belongs (place t now stamp) db h =
      kept (may_place db t) (placing_row now stamp) db.targets (λ u. refl) (λ u. refl) h
  apply-Belongs (dialled t call stamp) db h =
      kept (may_move t (placing ∷ [])) (dialled_row call stamp) db.targets (λ u. refl) (λ u. refl) h
  apply-Belongs (put_off t until stamp) db h =
      kept (may_move t (dialling ∷ [])) (deferred_row until stamp) db.targets (λ u. refl)
        (λ u. refl) h
  apply-Belongs (give_back t stamp) db h =
      kept (may_move t (dialling ∷ [])) (unclaimed_row stamp) db.targets (λ u. refl) (λ u. refl) h
  apply-Belongs (retry t reason at stamp) db h =
      kept (may_move t (calling ∷ [])) (retried_row reason at stamp) db.targets (λ u. refl)
        (λ u. refl) h
  apply-Belongs (finish t e reason error stamp) db h =
      kept (may_move t unfinished) (finished_row (ending_status e) reason error stamp) db.targets
        (λ u. refl) (λ u. refl) h
  apply-Belongs (complete c now) db h = h
  apply-Belongs (reclaim now timeout stamp) db h =
      kept (is_dead placing now timeout) (unknown_row stamp) _ (λ u. refl) (λ u. refl)
        (kept (is_dead dialling now timeout) (unclaimed_row stamp) db.targets (λ u. refl)
          (λ u. refl) h)
  apply-Belongs (pause c) db h = h
  apply-Belongs (resume c) db h = h
  apply-Belongs (cancel c stamp) db h =
      let (moved, db') =
        set_campaign_status c (queued ∷ running ∷ paused ∷ []) (λ _. CampaignStatus.cancelled) db in
      if_holds Belongs moved (cancel_targets c stamp db') db'
        (kept (may_cancel c) (cancelled_row stamp) db.targets (λ u. refl) (λ u. refl) h) h

  apply_all-Belongs : (ops : List Op) (db : Db) → Belongs db → Belongs (apply_all ops db)
  unfolding apply_all
  apply_all-Belongs [] db h = h
  apply_all-Belongs (op ∷ ops) db h = apply_all-Belongs ops (apply op db) (apply-Belongs op db h)

  cancel-Belongs : (stamp : ℕ) (db : Db) → Belongs db → Belongs (cancel_campaign x stamp db).1
  unfolding apply
  cancel-Belongs stamp db h = apply-Belongs (cancel x stamp) db h

  never_placed :
      (now stamp : ℕ) (db : Db)
      → campaign_running x db ≡ false
      → Belongs db
      → (begin_placing target now stamp db).0 ≡ false
  unfolding begin_placing
  never_placed now stamp db idle h =
      any-Every (belongs x target) (may_place db target) (λ t ht. misses t ht) db.targets h
    where
      misses : (t : TargetRow) → belongs x target t ≡ true → may_place db target t ≡ false
      misses t ht = elim (Bool-cases (t.id == target)) [
        | inl same ↦
            let campaign : t.campaign_id ≡ x = ground arith in rw (campaign, idle) (ground arith)
        | inr differs ↦ rw differs refl
      ]

claimed_of_none :
    (now stamp : ℕ) (db : Db) (o : Option TargetRow)
    → ((t : TargetRow) → o ≡ some t → ⊥)
    → (claim_row now stamp o db).0 ≡ none
unfolding claim_row
claimed_of_none now stamp db none h = refl
claimed_of_none now stamp db (some t) h = absurd (h t refl)

never_claimed :
    (x : ℕ) (locked : ℕ → Bool) (now stamp : ℕ) (db : Db)
    → campaign_running x db ≡ false
    → (claim_next_target x locked now stamp db).0 ≡ none
unfolding claim_next_target
never_claimed x locked now stamp db idle =
    claimed_of_none now stamp db (next_target x locked now db) (λ t e.
      let picked = next_target-lem x locked now db (λ t. true) t e (all_true db.targets) in
      ground arith)

-- After a cancel of a campaign, whether or not it changed the campaign, no claim takes a target of it
-- and no worker is let through to the carrier for one, whatever workers, the janitor and the API did
-- since and in whatever order, and also for a target that a worker had claimed before.
pub cancelled_never_dials :
    (x target stamp : ℕ) (db : Db) (ops : List Op) (locked : ℕ → Bool) (now stamp' : ℕ)
    → Belongs x target db
    → ((claim_next_target x locked now stamp' (apply_all ops (cancel_campaign x stamp db).1)).0
        ≡ none)
      × ((begin_placing target now stamp' (apply_all ops (cancel_campaign x stamp db).1)).0 ≡ false)
cancelled_never_dials x target stamp db ops locked now stamp' h =
    let after = apply_all ops (cancel_campaign x stamp db).1 in
    let idle =
      Stopped-never_running x after
        (apply_all-Stopped x ops (cancel_campaign x stamp db).1 (cancel-Stopped x stamp db)) in
    (
      never_claimed x locked now stamp' after idle,
      never_placed x target now stamp' after idle (
          apply_all-Belongs x target ops (cancel_campaign x stamp db).1
            (cancel-Belongs x target stamp db h)),
    )

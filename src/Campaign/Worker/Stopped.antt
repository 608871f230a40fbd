-- ===== src/Campaign/Worker/Stopped.antt =====
-- A campaign that has completed or been cancelled never runs again.
use turncall.Prelude.{
  ℕ, ◌≡◌, refl, Bool, true, false, not, ◌&&◌, ◌||◌, Option, none, some, List, [], ◌∷◌, any, ◌==◌,
  arith,
}
use turncall.Campaign.{CampaignStatus, queued, running, paused, CampaignRow, TargetRow, Db}
use turncall.Campaign.Table.{is_status, update_where, campaign_running}
use turncall.Campaign.Claims.{next_target, claim_row}
use turncall.Campaign.Repo.{has_open_target}
use turncall.Campaign.Control.{set_campaign_status, resumed_status, cancel_campaign, cancel_targets}
use turncall.Campaign.Worker.{
  Op, start, claim, place, dialled, put_off, give_back, retry, finish, complete, reclaim, pause,
  resume, cancel, apply, apply_all,
}
use turncall.Campaign.Worker.Rows.{if_holds, Every, Every-update_where, any-Every}

abbrev pub is_stopped : CampaignStatus → Bool
is_stopped CampaignStatus.completed = true
is_stopped CampaignStatus.cancelled = true
is_stopped _ = false

-- Any campaign of that id has stopped.
abbrev pub stopped : ℕ → CampaignRow → Bool
stopped x c = not (c.id == x) || is_stopped c.status

module _ (x : ℕ) where
  abbrev pub Stopped : Db → Type 0
  Stopped db = Every (stopped x) db.campaigns

  set_status-Stopped :
      (c : ℕ) (frm : List CampaignStatus) (status : CampaignRow → CampaignStatus) (db : Db)
      → ((row : CampaignRow)
          → is_stopped row.status ≡ true
          → any (is_status row.status) frm ≡ true
          → is_stopped (status row) ≡ true)
      → Stopped db
      → Stopped (set_campaign_status c frm status db).1
  unfolding set_campaign_status
  set_status-Stopped c frm status db keep h =
      Every-update_where (stopped x) (λ row. row.id == c && any (is_status row.status) frm)
        (λ row. record row { status = status row }) (λ row hrow hit. ground (arith, keep row))
        db.campaigns h

  claim_row-Stopped :
      (now stamp : ℕ) (o : Option TargetRow) (db : Db)
      → Stopped db
      → Stopped (claim_row now stamp o db).1
  unfolding claim_row
  claim_row-Stopped now stamp none db h = h
  claim_row-Stopped now stamp (some t) db h = h

  pub apply-Stopped : (op : Op) (db : Db) → Stopped db → Stopped (apply op db)
  unfolding apply
  apply-Stopped (start c now) db h =
      Every-update_where (stopped x) (λ row. row.id == c && is_status row.status queued)
        (λ row. record row { status = running; started_at = some now })
        (λ row hrow hit. ground arith) db.campaigns h
  apply-Stopped (claim c locked now stamp) db h =
      claim_row-Stopped now stamp (next_target c locked now db) db h
  apply-Stopped (place t now stamp) db h = h
  apply-Stopped (dialled t call stamp) db h = h
  apply-Stopped (put_off t until stamp) db h = h
  apply-Stopped (give_back t stamp) db h = h
  apply-Stopped (retry t reason at stamp) db h = h
  apply-Stopped (finish t e reason error stamp) db h = h
  apply-Stopped (complete c now) db h =
      Every-update_where (stopped x)
        (λ row. row.id == c && is_status row.status running && not (has_open_target c db))
        (λ row. record row { status = CampaignStatus.completed; completed_at = some now })
        (λ row hrow hit. ground arith) db.campaigns h
  apply-Stopped (reclaim now timeout stamp) db h = h
  apply-Stopped (pause c) db h =
      set_status-Stopped c (queued ∷ running ∷ []) (λ _. paused) db (λ row a b. ground arith) h
  apply-Stopped (resume c) db h =
      set_status-Stopped c (paused ∷ []) (λ row. resumed_status row.started_at) db
        (λ row a b. ground arith) h
  apply-Stopped (cancel c stamp) db h =
      let rows =
        set_status-Stopped c (queued ∷ running ∷ paused ∷ []) (λ _. CampaignStatus.cancelled) db
          (λ row a b. refl) h in
      let (moved, db') =
        set_campaign_status c (queued ∷ running ∷ paused ∷ []) (λ _. CampaignStatus.cancelled) db in
      if_holds Stopped moved (cancel_targets c stamp db') db' rows rows

  pub apply_all-Stopped : (ops : List Op) (db : Db) → Stopped db → Stopped (apply_all ops db)
  unfolding apply_all
  apply_all-Stopped [] db h = h
  apply_all-Stopped (op ∷ ops) db h = apply_all-Stopped ops (apply op db) (apply-Stopped op db h)

  cancelled-stopped :
      (rows : List CampaignRow)
      → Every (stopped x) (
          update_where
            (λ row. row.id == x && any (is_status row.status) (queued ∷ running ∷ paused ∷ []))
            (λ row. record row { status = CampaignStatus.cancelled })
            rows)
  cancelled-stopped [] = tt
  cancelled-stopped (row ∷ rows) = (ground arith, cancelled-stopped rows)

  pub cancel-Stopped : (stamp : ℕ) (db : Db) → Stopped (cancel_campaign x stamp db).1
  unfolding cancel_campaign
  cancel-Stopped stamp db =
      let rows = cancelled-stopped db.campaigns in
      let (moved, db') =
        set_campaign_status x (queued ∷ running ∷ paused ∷ []) (λ _. CampaignStatus.cancelled) db in
      if_holds Stopped moved (cancel_targets x stamp db') db' rows rows

  pub Stopped-never_running : (db : Db) → Stopped db → campaign_running x db ≡ false
  unfolding campaign_running
  Stopped-never_running db h =
      any-Every (stopped x) (λ c. c.id == x && is_status c.status running)
        (λ row hrow. ground arith) db.campaigns h

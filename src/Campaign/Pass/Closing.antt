-- ===== src/Campaign/Pass/Closing.antt =====
-- What an advance leaves behind.
use turncall.Prelude.{
  if_true, ℕ, String, Bool, true, false, not, ◌&&◌, Option, none, some, List, [], ◌∷◌, any, ◌==◌,
  ◌≡◌, refl, arith, sym, ◌∙◌, ap, Bool-cases, inl, inr, if◌then◌else◌,
}
use mathlib.Core.Path.{subst}
use turncall.Campaign.{CampaignStatus, CampaignStatus-discrete, queued, running, CampaignRow, Db}
use turncall.Campaign.Table.{is_status, update_where, campaign_running}
use turncall.Campaign.Repo.{complete_if_done, has_open_target}
use turncall.Campaign.Schedule.{Zone}
use turncall.Campaign.Lifecycle.{Announcing, finish_if_done, announced}
use turncall.Campaign.Settle.{settle}
use turncall.Campaign.Pass.{
  Pass, Ending, waits, raised, unfinished, Meets, dial_all, closed, begun, dial_and_close, settled,
  advance,
}

-- A campaign that is running has a target left to deal with.
abbrev pub HasWork : ℕ → Db → Type 0
HasWork x db = (campaign_running x db && not (has_open_target x db)) ≡ false

abbrev is_running : ℕ → CampaignRow → Bool
is_running x c = c.id == x && is_status c.status running

abbrev complete_row : ℕ → CampaignRow → CampaignRow
complete_row now c = record c { status = CampaignStatus.completed; completed_at = some now }

completed_row : (x now : ℕ) (c : CampaignRow) → is_running x (complete_row now c) ≡ false
unfolding CampaignStatus-discrete
completed_row x now c = ground arith

row_stopped :
    (x now : ℕ) (c : CampaignRow)
    → is_running x
        (if c.id == x && is_status c.status running && true then complete_row now c else c)
      ≡ false
row_stopped x now c = elim (Bool-cases (c.id == x && is_status c.status running && true)) [
  | inl e ↦ rw e (completed_row x now c)
  | inr e ↦ rw e (ground (arith, e))
]

none_running :
    (x now : ℕ) (cs : List CampaignRow)
    → any
        (is_running x)
        (update_where (λ c. c.id == x && is_status c.status running && true) (complete_row now) cs)
      ≡ false
none_running x now [] = refl
none_running x now (c ∷ cs) = rw (row_stopped x now c) (none_running x now cs)

stops :
    (x now : ℕ) (open_one : Bool) (cs : List CampaignRow)
    → open_one ≡ false
    → any (is_running x) (
        update_where
          (λ c. c.id == x && is_status c.status running && not open_one)
          (complete_row now)
          cs)
      ≡ false
stops x now open_one cs e = rw e (none_running x now cs)

not_first : (a b : Bool) → a ≡ false → (a && b) ≡ false
not_first a b e = rw e refl

none_left : (a b : Bool) → b ≡ true → (a && not b) ≡ false
none_left a b e = ground arith

complete_if_done-HasWork : (x now : ℕ) (db : Db) → HasWork x (complete_if_done x now db).1
unfolding complete_if_done campaign_running has_open_target
complete_if_done-HasWork x now db = elim (Bool-cases (has_open_target x db)) [
  | inl e ↦ none_left _ (has_open_target x db) e
  | inr e ↦ not_first _ _ (stops x now (has_open_target x db) db.campaigns e)
]

any_both :
    (x : ℕ) (b : Bool) (cs : List CampaignRow)
    → (any (is_running x) cs && b) ≡ any (λ c. c.id == x && is_status c.status running && b) cs
any_both x b [] = refl
any_both x b (c ∷ cs) = ground (arith, any_both x b cs)

finish_if_done-HasWork : (x now : ℕ) (a : Announcing) → HasWork x (finish_if_done x now a).1.db
unfolding finish_if_done announced complete_if_done campaign_running
finish_if_done-HasWork x now a = elim (Bool-cases (complete_if_done x now a.db).0) [
  | inl e ↦ rw e (complete_if_done-HasWork x now a.db)
  | inr e ↦ rw e (any_both x (not (has_open_target x a.db)) a.db.campaigns ∙ e)
]

module _ (zones : String → Zone) (campaign : CampaignRow) (m : Meets) where
  closed-HasWork :
      (e : Ending) (p : Pass) (w : Option ℕ) (p' : Pass)
      → closed zones campaign m (e, p) ≡ (waits w, p')
      → HasWork campaign.id p'.announcing.db
  unfolding closed
  closed-HasWork (waits v) p w p' e =
      subst (λ q. HasWork campaign.id q.announcing.db) (ap (λ r. r.1) e)
        (finish_if_done-HasWork campaign.id m.finished_at p.announcing)
  closed-HasWork raised p w p' e = cc
  closed-HasWork unfinished p w p' e = cc

  settled-HasWork :
      (o : Option Db) (p : Pass) (w : Option ℕ) (p' : Pass)
      → any (is_status campaign.status) (queued ∷ running ∷ []) ≡ true
      → settled zones campaign m o p ≡ (waits w, p')
      → HasWork campaign.id p'.announcing.db
  unfolding settled dial_and_close
  settled-HasWork none p w p' open_one e = cc
  settled-HasWork (some db) p w p' open_one e =
      let q : Pass =
        begun zones campaign m (record p { announcing = record p.announcing { db = db } }) in
      closed-HasWork (dial_all zones campaign m m.turns q).0 (dial_all zones campaign m m.turns q).1
        w p' (sym (if_true _ _ _ open_one) ∙ e)

  -- When an advance of a campaign that was queued or running ends without an exception, the campaign is not
  -- left running with no target open: it has work, or it is completed or was stopped.
  pub advance_closes :
      (p : Pass) (w : Option ℕ) (p' : Pass)
      → any (is_status campaign.status) (queued ∷ running ∷ []) ≡ true
      → advance zones campaign m p ≡ (waits w, p')
      → HasWork campaign.id p'.announcing.db
  unfolding advance
  advance_closes p w p' open_one e =
      settled-HasWork (settle zones campaign m.calls m.settled_at m.stamp p.announcing.db) p w p'
        open_one e

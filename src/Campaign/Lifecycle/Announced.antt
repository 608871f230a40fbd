-- ===== src/Campaign/Lifecycle/Announced.antt =====
-- The end of a campaign is announced at most once.
use turncall.Prelude.{
  ℕ, ◌+◌, ◌≤◌, ◌≡◌, refl, Bool, true, false, not, ◌&&◌, Option, none, some, List, [], ◌∷◌, any,
  ◌==◌, if◌then◌else◌, arith, Bool-cases, inl, inr, ◌⊎◌, sym, ==_iff,
}
use mathlib.Core.Path.{subst}
use turncall.Campaign.{CampaignStatus, queued, running, paused, CampaignRow, TargetRow, Db}
use turncall.Campaign.Table.{is_status, update_where, count_where}
use turncall.Campaign.Claims.{next_target, claim_row}
use turncall.Campaign.Repo.{start_campaign, complete_if_done, has_open_target}
use turncall.Campaign.Control.{set_campaign_status, cancel_campaign, cancel_targets, resumed_status}
use turncall.Campaign.Worker.{
  Op, start, claim, place, dialled, put_off, give_back, retry, finish, complete, reclaim, pause,
  resume, cancel, apply,
}
use turncall.Campaign.Worker.Rows.{if_holds, Every, any-Every}
use turncall.Campaign.Worker.Stopped.{stopped, Stopped, apply-Stopped, cancel-Stopped}
use turncall.Campaign.Lifecycle.{
  Event, campaign_started, campaign_completed, campaign_cancelled, Announcing, announced, Step,
  starts, finishes, cancels, quietly, take, take_all,
}

-- How often the end of the campaign, completed or cancelled, was announced.
abbrev pub endings : ℕ → List Event → ℕ
endings x [] = 0
endings x (campaign_started c ∷ log) = endings x log
endings x (campaign_completed c ∷ log) = (if c == x then 1 else 0) + endings x log
endings x (campaign_cancelled c ∷ log) = (if c == x then 1 else 0) + endings x log

module _ (x : ℕ) where
  abbrev rows : List CampaignRow → ℕ
  rows = count_where (λ c. c.id == x)

  -- At most one campaign has that id: it is a primary key.
  abbrev pub IsCampaignKey : Db → Type 0
  IsCampaignKey db = rows db.campaigns ≤ 1

  rows-update_where :
      (p : CampaignRow → Bool) (f : CampaignRow → CampaignRow)
      → ((c : CampaignRow) → (f c).id ≡ c.id)
      → (cs : List CampaignRow) → rows (update_where p f cs) ≡ rows cs
  rows-update_where p f same [] = refl
  rows-update_where p f same (c ∷ cs) = elim (Bool-cases (p c)) [
    | inl hit ↦ rw (hit, same c) (ground (arith, rows-update_where p f same cs))
    | inr miss ↦ rw miss (ground (arith, rows-update_where p f same cs))
  ]

  abbrev SameRows : Db → Db → Type 0
  SameRows db db' = rows db'.campaigns ≡ rows db.campaigns

  claim_row-SameRows :
      (now stamp : ℕ) (o : Option TargetRow) (db : Db) → SameRows db (claim_row now stamp o db).1
  unfolding claim_row
  claim_row-SameRows now stamp none db = refl
  claim_row-SameRows now stamp (some t) db = refl

  apply-SameRows : (op : Op) (db : Db) → SameRows db (apply op db)
  unfolding apply
  apply-SameRows (start c now) db =
      rows-update_where (λ r. r.id == c && is_status r.status queued)
        (λ r. record r { status = running; started_at = some now }) (λ r. refl) db.campaigns
  apply-SameRows (claim c locked now stamp) db =
      claim_row-SameRows now stamp (next_target c locked now db) db
  apply-SameRows (place t now stamp) db = refl
  apply-SameRows (dialled t call stamp) db = refl
  apply-SameRows (put_off t until stamp) db = refl
  apply-SameRows (give_back t stamp) db = refl
  apply-SameRows (retry t reason at stamp) db = refl
  apply-SameRows (finish t e reason error stamp) db = refl
  apply-SameRows (complete c now) db =
      rows-update_where (λ r. r.id == c && is_status r.status running && not (has_open_target c db))
        (λ r. record r { status = CampaignStatus.completed; completed_at = some now }) (λ r. refl)
        db.campaigns
  apply-SameRows (reclaim now timeout stamp) db = refl
  apply-SameRows (pause c) db =
      rows-update_where (λ r. r.id == c && any (is_status r.status) (queued ∷ running ∷ []))
        (λ r. record r { status = paused }) (λ r. refl) db.campaigns
  apply-SameRows (resume c) db =
      rows-update_where (λ r. r.id == c && any (is_status r.status) (paused ∷ []))
        (λ r. record r { status = resumed_status r.started_at }) (λ r. refl) db.campaigns
  apply-SameRows (cancel c stamp) db =
      let (moved, db') =
        set_campaign_status c (queued ∷ running ∷ paused ∷ []) (λ _. CampaignStatus.cancelled) db in
      let same =
        rows-update_where
          (λ r. r.id == c && any (is_status r.status) (queued ∷ running ∷ paused ∷ []))
          (λ r. record r { status = CampaignStatus.cancelled }) (λ r. refl) db.campaigns in
      if_holds (SameRows db) moved (cancel_targets c stamp db') db' same same

  no_row :
      (now : ℕ) (idle : Bool) (cs : List CampaignRow)
      → rows cs ≡ 0
      → (any (λ c. c.id == x && is_status c.status running && idle) cs ≡ false)
        × Every (stopped x) (
            update_where
              (λ c. c.id == x && is_status c.status running && idle)
              (λ c. record c { status = CampaignStatus.completed; completed_at = some now })
              cs)
  no_row now idle [] e = (refl, tt)
  no_row now idle (c ∷ cs) e = elim (Bool-cases (c.id == x)) [
    | inl same ↦ ground arith
    | inr differs ↦ ground (arith, no_row now idle cs)
  ]

  completed-stopped :
      (now : ℕ) (idle : Bool) (cs : List CampaignRow)
      → rows cs ≤ 1
      → any (λ c. c.id == x && is_status c.status running && idle) cs ≡ true
      → Every (stopped x) (
          update_where
            (λ c. c.id == x && is_status c.status running && idle)
            (λ c. record c { status = CampaignStatus.completed; completed_at = some now })
            cs)
  completed-stopped now idle [] key hit = tt
  completed-stopped now idle (c ∷ cs) key hit = elim (Bool-cases (c.id == x)) [
    | inl same ↦ ground (arith, no_row now idle cs)
    | inr differs ↦ ground (arith, completed-stopped now idle cs)
  ]

  complete-Stopped :
      (now : ℕ) (db : Db)
      → IsCampaignKey db
      → (complete_if_done x now db).0 ≡ true
      → Stopped x (complete_if_done x now db).1
  unfolding complete_if_done
  complete-Stopped now db key hit =
      completed-stopped now (not (has_open_target x db)) db.campaigns key hit

  Stopped-complete : (now : ℕ) (db : Db) → Stopped x db → (complete_if_done x now db).0 ≡ false
  unfolding complete_if_done
  Stopped-complete now db h =
      any-Every (stopped x)
        (λ c. c.id == x && is_status c.status running && not (has_open_target x db))
        (λ c hc. ground arith) db.campaigns h

  Stopped-cancel : (stamp : ℕ) (db : Db) → Stopped x db → (cancel_campaign x stamp db).0 ≡ false
  unfolding cancel_campaign set_campaign_status
  Stopped-cancel stamp db h =
      any-Every (stopped x)
        (λ c. c.id == x && any (is_status c.status) (queued ∷ running ∷ paused ∷ []))
        (λ c hc. ground arith) db.campaigns h

  -- Either no end was announced, or one was and the campaign has stopped.
  abbrev Good : Announcing → Type 0
  Good a = IsCampaignKey a.db × ((endings x a.log ≡ 0) ⊎ ((endings x a.log ≤ 1) × Stopped x a.db))

  -- What a move of the rows leaves to the announcements: the key, what has stopped, and, if it is an
  -- end of this campaign, that it is refused once the campaign has stopped and stops it when made.
  record Ends (ends moved : Bool) (db db' : Db) : Type 0 where
    same_key : SameRows db db'
    stays : Stopped x db → Stopped x db'
    refused : ends ≡ true → Stopped x db → moved ≡ false
    stops : ends ≡ true → moved ≡ true → Stopped x db'

  announced-Good :
      (event : Event) (ends moved : Bool) (db' : Db) (a : Announcing)
      → endings x (event ∷ a.log) ≡ (if ends then 1 else 0) + endings x a.log
      → Ends ends moved a.db db'
      → Good a
      → Good (announced event (moved, db') a).1
  unfolding announced
  announced-Good event ends false db' a counts h good = good
  announced-Good event false true db' a counts h (key, inl never) =
      (omega (arith, h.same_key), inl (omega arith))
  announced-Good event false true db' a counts h (key, inr (once, stop)) =
      (omega (arith, h.same_key), inr (omega arith, h.stays stop))
  announced-Good event true true db' a counts h (key, inl never) =
      (omega (arith, h.same_key), inr (omega arith, h.stops refl refl))
  announced-Good event true true db' a counts h (key, inr (once, stop)) =
      let contradiction = h.refused refl stop in cc

  start-Ends :
      (c now : ℕ) (db : Db) (moved : Bool) → Ends false moved db (start_campaign c now db).1
  unfolding apply
  start-Ends c now db moved = record {
    same_key = apply-SameRows (start c now) db;
    stays = apply-Stopped x (start c now) db;
    refused = λ e. cc;
    stops = λ e. cc;
  }

  finish-Ends :
      (c now : ℕ) (db : Db)
      → IsCampaignKey db
      → Ends (c == x) (complete_if_done c now db).0 db (complete_if_done c now db).1
  unfolding apply
  finish-Ends c now db key = record {
    same_key = apply-SameRows (complete c now) db;
    stays = apply-Stopped x (complete c now) db;
    refused = λ e stop.
        let same : x ≡ c = sym ((==_iff c x).0 e) in
        subst (λ i. (complete_if_done i now db).0 ≡ false) same (Stopped-complete now db stop);
    stops = λ e made.
        let same : x ≡ c = sym ((==_iff c x).0 e) in
        subst (λ i. (complete_if_done i now db).0 ≡ true → Stopped x (complete_if_done i now db).1)
          same (complete-Stopped now db key) made;
  }

  cancel-Ends :
      (c stamp : ℕ) (db : Db)
      → Ends (c == x) (cancel_campaign c stamp db).0 db (cancel_campaign c stamp db).1
  unfolding apply
  cancel-Ends c stamp db = record {
    same_key = apply-SameRows (cancel c stamp) db;
    stays = apply-Stopped x (cancel c stamp) db;
    refused = λ e stop.
        let same : x ≡ c = sym ((==_iff c x).0 e) in
        subst (λ i. (cancel_campaign i stamp db).0 ≡ false) same (Stopped-cancel stamp db stop);
    stops = λ e made.
        let same : x ≡ c = sym ((==_iff c x).0 e) in
        subst (λ i. Stopped x (cancel_campaign i stamp db).1) same (cancel-Stopped x stamp db);
  }

  take-Good : (s : Step) (a : Announcing) → Good a → Good (take s a)
  unfolding take
  take-Good (starts c now) a good =
      let (moved, db') = start_campaign c now a.db in
      announced-Good (campaign_started c) false moved db' a (omega arith)
        (start-Ends c now a.db moved) good
  take-Good (finishes c now) a good =
      let (moved, db') = complete_if_done c now a.db in
      announced-Good (campaign_completed c) (c == x) moved db' a refl
        (finish-Ends c now a.db good.0) good
  take-Good (cancels c stamp) a good =
      let (moved, db') = cancel_campaign c stamp a.db in
      announced-Good (campaign_cancelled c) (c == x) moved db' a refl (cancel-Ends c stamp a.db)
        good
  take-Good (quietly op) a (key, inl never) = (omega (arith, apply-SameRows op a.db), inl never)
  take-Good (quietly op) a (key, inr (once, stop)) =
      (omega (arith, apply-SameRows op a.db), inr (once, apply-Stopped x op a.db stop))

  take_all-Good : (ss : List Step) (a : Announcing) → Good a → Good (take_all ss a)
  unfolding take_all
  take_all-Good [] a good = good
  take_all-Good (s ∷ ss) a good = take_all-Good ss (take s a) (take-Good s a good)

ended_once : (x : ℕ) (a : Announcing) → Good x a → endings x a.log ≤ 1
ended_once x a (key, inl never) = omega arith
ended_once x a (key, inr (once, stop)) = once

-- Whatever workers, the janitor and the API do and in whatever order, the end of a campaign is
-- announced at most once: never twice, and never both as completed and as cancelled.
pub ends_announced_once :
    (x : ℕ) (ss : List Step) (db : Db)
    → IsCampaignKey x db
    → endings x (take_all ss (record { db = db; log = [] })).log ≤ 1
ends_announced_once x ss db key =
    ended_once x (take_all ss (record { db = db; log = [] }))
      (take_all-Good x ss (record { db = db; log = [] }) (key, inl refl))

-- ===== src/Campaign/Settle/Left.antt =====
-- After a settlement no target whose call has ended is still `calling`.
use turncall.Prelude.{
  ℕ, ◌≡◌, refl, String, Bool, true, not, ◌&&◌, ◌||◌, Option, none, some, List, [], ◌∷◌, any, ◌==◌,
  is_some, arith, Bool-cases, inl, inr, ==_iff,
}
use mathlib.Core.Path.{subst}
use turncall.Campaign.{TargetStatus, calling, CampaignRow, TargetRow, Db}
use turncall.Campaign.Table.{is_target_status, update_where}
use turncall.Campaign.Repo.{
  retry_target, finish_target, may_move, retried_row, finished_row, unfinished,
}
use turncall.Campaign.Schedule.{Zone, retry_at}
use turncall.Campaign.Worker.Rows.{Every, Every-update_where}
use turncall.Campaign.Settle.{
  Calls, calling_targets, reason_of, settle_at, settle_target, settle_all, settle,
}

-- Any target of that id is not on a call.
abbrev pub left : ℕ → TargetRow → Bool
left x t = not (t.id == x) || not (is_target_status t.status calling)

some_inj : (a b : Db) → some a ≡ some b → a ≡ b
some_inj a b e = cc

module _ (x : ℕ) where
  abbrev pub Left : Db → Type 0
  Left db = Every (left x) db.targets

  finish-Left :
      (target : ℕ) (reason : String) (stamp : ℕ) (db : Db)
      → Left db
      → Left (finish_target target TargetStatus.completed (some reason) none stamp db).1
  unfolding finish_target
  finish-Left target reason stamp db h =
      Every-update_where (left x) (may_move target unfinished)
        (finished_row TargetStatus.completed (some reason) none stamp) (λ u hu hit. ground arith)
        db.targets h

  retry-Left :
      (target : ℕ) (reason : String) (at stamp : ℕ) (db : Db)
      → Left db
      → Left (retry_target target reason at stamp db).1
  unfolding retry_target
  retry-Left target reason at stamp db h =
      Every-update_where (left x) (may_move target (calling ∷ [])) (retried_row reason at stamp)
        (λ u hu hit. ground arith) db.targets h

  settle_at-Left :
      (target : ℕ) (reason : String) (o : Option (Option ℕ)) (stamp : ℕ) (db db' : Db)
      → settle_at target reason o stamp db ≡ some db'
      → Left db
      → Left db'
  unfolding settle_at
  settle_at-Left target reason none stamp db db' e h =
      subst Left (some_inj _ db' e) (finish-Left target reason stamp db h)
  settle_at-Left target reason (some none) stamp db db' e h = cc
  settle_at-Left target reason (some (some at)) stamp db db' e h =
      subst Left (some_inj _ db' e) (retry-Left target reason at stamp db h)

  moved_finish :
      (reason : String) (stamp : ℕ) (ts : List TargetRow)
      → Every (left x) (
          update_where
            (may_move x unfinished)
            (finished_row TargetStatus.completed (some reason) none stamp)
            ts)
  moved_finish reason stamp [] = tt
  moved_finish reason stamp (t ∷ ts) = (ground arith, moved_finish reason stamp ts)

  moved_retry :
      (reason : String) (at stamp : ℕ) (ts : List TargetRow)
      → Every (left x) (update_where (may_move x (calling ∷ [])) (retried_row reason at stamp) ts)
  moved_retry reason at stamp [] = tt
  moved_retry reason at stamp (t ∷ ts) = (ground arith, moved_retry reason at stamp ts)

  -- A settlement of that id, however it goes on, leaves none of its rows on a call.
  settles_at-Left :
      (reason : String) (o : Option (Option ℕ)) (stamp : ℕ) (db db' : Db)
      → settle_at x reason o stamp db ≡ some db'
      → Left db'
  unfolding settle_at finish_target retry_target
  settles_at-Left reason none stamp db db' e =
      subst Left (some_inj _ db' e) (moved_finish reason stamp db.targets)
  settles_at-Left reason (some none) stamp db db' e = cc
  settles_at-Left reason (some (some at)) stamp db db' e =
      subst Left (some_inj _ db' e) (moved_retry reason at stamp db.targets)

both : (a b : Bool) → (a && b) ≡ true → (a ≡ true) × (b ≡ true)
both a b h = ground arith

bind-some :
    (o : Option Db) (k : Db → Option Db) (db' : Db)
    → elim o [ none ↦ none | some db ↦ k db ] ≡ some db'
    → (db : Db) × (o ≡ some db) × (k db ≡ some db')
bind-some none k db' e = cc
bind-some (some db) k db' e = (db, refl, e)

settle_all-cons :
    (zones : String → Zone) (campaign : CampaignRow) (calls : Calls) (now stamp : ℕ) (t : TargetRow)
    (ts : List TargetRow) (db db' : Db)
    → settle_all zones campaign calls now stamp (t ∷ ts) db ≡ some db'
    → (next : Db) × (settle_target zones campaign calls now stamp t (reason_of calls t.call_id) db
        ≡ some next)
      × (settle_all zones campaign calls now stamp ts next ≡ some db')
unfolding settle_all
settle_all-cons zones campaign calls now stamp t ts db db' e =
    bind-some (settle_target zones campaign calls now stamp t (reason_of calls t.call_id) db)
      (settle_all zones campaign calls now stamp ts) db' e

module _ (zones : String → Zone) (campaign : CampaignRow) (calls : Calls) (now stamp x : ℕ) where
  target-Left :
      (t : TargetRow) (o : Option String) (db db' : Db)
      → settle_target zones campaign calls now stamp t o db ≡ some db'
      → Left x db
      → Left x db'
  unfolding settle_target
  target-Left t none db db' e h = subst (Left x) (some_inj db db' e) h
  target-Left t (some reason) db db' e h =
      settle_at-Left x t.id reason
        (retry_at campaign.retry_policy (some reason) t.attempts now (zones t.timezone)
          campaign.calling_window)
        stamp db db' e h

  ended-Left :
      (t : TargetRow) (o : Option String) (db db' : Db)
      → settle_target zones campaign calls now stamp t o db ≡ some db'
      → t.id ≡ x
      → is_some o ≡ true
      → Left x db'
  unfolding settle_target
  ended-Left t none db db' e same ended = cc
  ended-Left t (some reason) db db' e same ended =
      settles_at-Left x reason
        (retry_at campaign.retry_policy (some reason) t.attempts now (zones t.timezone)
          campaign.calling_window)
        stamp db db'
        (subst
          (λ i.
            settle_at i reason
              (retry_at campaign.retry_policy (some reason) t.attempts now (zones t.timezone)
                campaign.calling_window)
              stamp db
            ≡ some db')
          same e)

  all-Left :
      (ts : List TargetRow) (db db' : Db)
      → settle_all zones campaign calls now stamp ts db ≡ some db'
      → Left x db
      → Left x db'
  unfolding settle_all
  all-Left [] db db' e h = subst (Left x) (some_inj db db' e) h
  all-Left (t ∷ ts) db db' e h =
      let (next, made, rest) = settle_all-cons zones campaign calls now stamp t ts db db' e in
      all-Left ts next db' rest (target-Left t (reason_of calls t.call_id) db next made h)

  ended_all-Left :
      (ts : List TargetRow) (db db' : Db)
      → settle_all zones campaign calls now stamp ts db ≡ some db'
      → any (λ t. t.id == x && is_some (reason_of calls t.call_id)) ts ≡ true
      → Left x db'
  unfolding settle_all
  ended_all-Left [] db db' e h = cc
  ended_all-Left (t ∷ ts) db db' e h =
      let (next, made, rest) = settle_all-cons zones campaign calls now stamp t ts db db' e in
      elim (Bool-cases (t.id == x && is_some (reason_of calls t.call_id))) [
        | inl here ↦
            let (same, ended) = both (t.id == x) (is_some (reason_of calls t.call_id)) here in
            all-Left ts next db' rest
              (ended-Left t (reason_of calls t.call_id) db next made ((==_iff t.id x).0 same) ended)
        | inr later ↦ ended_all-Left ts next db' rest (ground (arith, h))
      ]

-- After a settlement, which committed, no target of the campaign whose call has ended is still on a call:
-- each went back to be dialled again or ended.
pub settled_leaves :
    (zones : String → Zone) (campaign : CampaignRow) (calls : Calls) (now stamp x : ℕ) (db db' : Db)
    → settle zones campaign calls now stamp db ≡ some db'
    → any
        (λ t. t.id == x && is_some (reason_of calls t.call_id))
        (calling_targets campaign.id calls db)
      ≡ true
    → Left x db'
unfolding settle
settled_leaves zones campaign calls now stamp x db db' e h =
    ended_all-Left zones campaign calls now stamp x (calling_targets campaign.id calls db) db db' e
      h

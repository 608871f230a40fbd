-- ===== src/Campaign/Worker/Placing.antt =====
-- A target is put to the carrier at most once for each time its call ended in a retry.
use turncall.Prelude.{
  ℕ, ◌≤◌, ◌≡◌, refl, Bool, true, false, not, ◌||◌, Option, none, some, List, [], ◌∷◌, any, ◌==◌,
  arith, Bool-cases, inl, inr,
}
use turncall.Campaign.{
  CampaignStatus, queued, running, paused, TargetStatus, pending, dialling, placing, calling,
  TargetRow, Db,
}
use turncall.Campaign.Table.{update_where, count_where}
use turncall.Campaign.Claims.{next_target, claim_row, claimed}
use turncall.Campaign.Repo.{
  begin_placing, is_dead, may_place, placing_row, may_move, dialled_row, deferred_row,
  unclaimed_row, retried_row, finished_row, unfinished, unknown_row,
}
use turncall.Campaign.Control.{set_campaign_status, cancel_targets, may_cancel, cancelled_row}
use turncall.Campaign.Worker.{
  Op, start, claim, place, dialled, put_off, give_back, retry, finish, complete, reclaim, pause,
  resume, cancel, ending_status, apply, apply_all,
}
use turncall.Campaign.Worker.Rows.{if_holds, Every, Every-update_where, any-Every, next_target-lem}

-- The carrier has been asked for the target, or the target has ended.
abbrev pub is_beyond : TargetStatus → Bool
is_beyond pending = false
is_beyond dialling = false
is_beyond _ = true

-- Any row of that id is beyond the carrier.
abbrev beyond : ℕ → TargetRow → Bool
beyond x t = not (t.id == x) || is_beyond t.status

abbrev is_retry_of : ℕ → Op → Bool
is_retry_of x (retry t reason at stamp) = t == x
is_retry_of x _ = false

module _ (x : ℕ) where
  abbrev Beyond : Db → Type 0
  Beyond db = Every (beyond x) db.targets

  claim_row-Beyond :
      (campaign : ℕ) (locked : ℕ → Bool) (now stamp : ℕ) (db : Db) (o : Option TargetRow)
      → next_target campaign locked now db ≡ o
      → Beyond db
      → Beyond (claim_row now stamp o db).1
  unfolding claim_row
  claim_row-Beyond campaign locked now stamp db none e h = h
  claim_row-Beyond campaign locked now stamp db (some t) e h =
      let picked = next_target-lem campaign locked now db (beyond x) t e h in
      Every-update_where (beyond x) (λ u. u.id == t.id) (claimed now stamp)
        (λ u hu same. ground arith) db.targets h

  -- Every move but a retry of the target leaves it beyond the carrier.
  apply-Beyond : (op : Op) (db : Db) → is_retry_of x op ≡ false → Beyond db → Beyond (apply op db)
  unfolding apply
  apply-Beyond (start c now) db other h = h
  apply-Beyond (claim c locked now stamp) db other h =
      claim_row-Beyond c locked now stamp db (next_target c locked now db) refl h
  apply-Beyond (place t now stamp) db other h =
      Every-update_where (beyond x) (may_place db t) (placing_row now stamp)
        (λ u hu hit. ground arith) db.targets h
  apply-Beyond (dialled t call stamp) db other h =
      Every-update_where (beyond x) (may_move t (placing ∷ [])) (dialled_row call stamp)
        (λ u hu hit. ground arith) db.targets h
  apply-Beyond (put_off t until stamp) db other h =
      Every-update_where (beyond x) (may_move t (dialling ∷ [])) (deferred_row until stamp)
        (λ u hu hit. ground arith) db.targets h
  apply-Beyond (give_back t stamp) db other h =
      Every-update_where (beyond x) (may_move t (dialling ∷ [])) (unclaimed_row stamp)
        (λ u hu hit. ground arith) db.targets h
  apply-Beyond (retry t reason at stamp) db other h =
      Every-update_where (beyond x) (may_move t (calling ∷ [])) (retried_row reason at stamp)
        (λ u hu hit. ground arith) db.targets h
  apply-Beyond (finish t e reason error stamp) db other h =
      Every-update_where (beyond x) (may_move t unfinished)
        (finished_row (ending_status e) reason error stamp) (λ u hu hit. ground arith) db.targets h
  apply-Beyond (complete c now) db other h = h
  apply-Beyond (reclaim now timeout stamp) db other h =
      Every-update_where (beyond x) (is_dead placing now timeout) (unknown_row stamp)
        (λ u hu hit. ground arith) _
        (Every-update_where (beyond x) (is_dead dialling now timeout) (unclaimed_row stamp)
          (λ u hu hit. ground arith) db.targets h)
  apply-Beyond (pause c) db other h = h
  apply-Beyond (resume c) db other h = h
  apply-Beyond (cancel c stamp) db other h =
      let (moved, db') =
        set_campaign_status c (queued ∷ running ∷ paused ∷ []) (λ _. CampaignStatus.cancelled) db in
      if_holds Beyond moved (cancel_targets c stamp db') db'
        (Every-update_where (beyond x) (may_cancel c) (cancelled_row stamp)
          (λ u hu hit. ground arith) db.targets h)
        h

  -- No move of the history is a retry of the target.
  abbrev pub NoRetry : List Op → Type 0
  NoRetry [] = Unit
  NoRetry (op ∷ ops) = (is_retry_of x op ≡ false) × NoRetry ops

  apply_all-Beyond : (ops : List Op) (db : Db) → NoRetry ops → Beyond db → Beyond (apply_all ops db)
  unfolding apply_all
  apply_all-Beyond [] db none_of h = h
  apply_all-Beyond (op ∷ ops) db none_of h =
      apply_all-Beyond ops (apply op db) none_of.1 (apply-Beyond op db none_of.0 h)

  -- At most one row has that id: it is a primary key.
  abbrev pub IsKey : Db → Type 0
  IsKey db = count_where (λ t. t.id == x) db.targets ≤ 1

  absent :
      (now stamp : ℕ) (db : Db) (ts : List TargetRow)
      → count_where (λ t. t.id == x) ts ≡ 0
      → (any (may_place db x) ts ≡ false)
        × Every (beyond x) (update_where (may_place db x) (placing_row now stamp) ts)
  absent now stamp db [] e = (refl, tt)
  absent now stamp db (t ∷ ts) e = elim (Bool-cases (t.id == x)) [
    | inl same ↦ ground arith
    | inr differs ↦ ground (arith, absent now stamp db ts)
  ]

  placed-beyond :
      (now stamp : ℕ) (db : Db) (ts : List TargetRow)
      → count_where (λ t. t.id == x) ts ≤ 1
      → any (may_place db x) ts ≡ true
      → Every (beyond x) (update_where (may_place db x) (placing_row now stamp) ts)
  placed-beyond now stamp db [] key hit = tt
  placed-beyond now stamp db (t ∷ ts) key hit = elim (Bool-cases (t.id == x)) [
    | inl same ↦ ground (arith, absent now stamp db ts)
    | inr differs ↦ ground (arith, placed-beyond now stamp db ts)
  ]

  Beyond-refuses : (now stamp : ℕ) (db : Db) → Beyond db → (begin_placing x now stamp db).0 ≡ false
  unfolding begin_placing
  Beyond-refuses now stamp db h =
      any-Every (beyond x) (may_place db x) (λ t ht. ground arith) db.targets h

begin_placing-Beyond :
    (x now stamp : ℕ) (db : Db)
    → IsKey x db
    → (begin_placing x now stamp db).0 ≡ true
    → Beyond x (begin_placing x now stamp db).1
unfolding begin_placing
begin_placing-Beyond x now stamp db key through =
    placed-beyond x now stamp db db.targets key through

-- Once a worker was let through to the carrier for a target, no worker is let through for it again,
-- whatever workers, the janitor and the API do in between and in whatever order, unless its call
-- ended and the target went back for a retry.
pub placed_once :
    (x now stamp now' stamp' : ℕ) (db : Db) (ops : List Op)
    → IsKey x db
    → (begin_placing x now stamp db).0 ≡ true
    → NoRetry x ops
    → (begin_placing x now' stamp' (apply_all ops (begin_placing x now stamp db).1)).0 ≡ false
placed_once x now stamp now' stamp' db ops key through none_of =
    let after = (begin_placing x now stamp db).1 in
    Beyond-refuses x now' stamp' (apply_all ops after)
      (apply_all-Beyond x ops after none_of (begin_placing-Beyond x now stamp db key through))

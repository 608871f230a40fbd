-- ===== src/Campaign/Worker/Final.antt =====
-- A target that has ended is left as it is.
use turncall.Prelude.{
  ℕ, ◌≡◌, refl, Bool, true, false, not, ◌||◌, Option, none, some, List, [], ◌∷◌, filter, ◌==◌,
  arith, Bool-cases, inl, inr, ◌∙◌, ap,
}
use turncall.Campaign.{
  CampaignStatus, queued, running, paused, pending, dialling, placing, calling, is_final, TargetRow,
  Db,
}
use turncall.Campaign.Table.{update_where}
use turncall.Campaign.Claims.{next_target, claim_row, claimed}
use turncall.Campaign.Repo.{
  is_dead, may_place, placing_row, may_move, dialled_row, deferred_row, unclaimed_row, retried_row,
  finished_row, unfinished, unknown_row,
}
use turncall.Campaign.Control.{set_campaign_status, cancel_targets, may_cancel, cancelled_row}
use turncall.Campaign.Worker.{
  Op, start, claim, place, dialled, put_off, give_back, retry, finish, complete, reclaim, pause,
  resume, cancel, ending_status, apply, apply_all,
}
use turncall.Campaign.Worker.Rows.{if_holds, Every, next_target-lem}

module _ (x : ℕ) where
  unfoldable pub rows_of : List TargetRow → List TargetRow
  rows_of = filter (λ t. t.id == x)

  -- Any row of that id has ended.
  abbrev pub ended : TargetRow → Bool
  ended t = not (t.id == x) || is_final t.status

  abbrev pub Ended : List TargetRow → Type 0
  Ended = Every ended

  same_rows :
      (p : TargetRow → Bool) (f : TargetRow → TargetRow) (ts : List TargetRow)
      → ((t : TargetRow) → (f t).id ≡ t.id)
      → ((t : TargetRow) → ended t ≡ true → p t ≡ true → (t.id == x) ≡ false)
      → Ended ts
      → (rows_of (update_where p f ts) ≡ rows_of ts) × Ended (update_where p f ts)
  unfolding rows_of
  same_rows p f [] same miss h = (refl, tt)
  same_rows p f (t ∷ ts) same miss h =
      let rest = same_rows p f ts same miss h.1 in
      elim (Bool-cases (p t)) [
        | inl hit ↦
            let other = miss t h.0 hit in
            let moved : ((f t).id == x) ≡ false = ap (λ i. i == x) (same t) ∙ other in
            rw (hit, moved, other) (rest.0, (refl, rest.1))
        | inr missed ↦ rw (missed, rest.0) (refl, (h.0, rest.1))
      ]

  -- The targets are as they were, as far as those of that id go.
  abbrev Kept : Db → Db → Type 0
  Kept before db = (rows_of db.targets ≡ rows_of before.targets) × Ended db.targets

  pending_differs : (t : TargetRow) → t.status ≡ pending → ended t ≡ true → (t.id == x) ≡ false
  unfolding is_final
  pending_differs t e h = ground arith

  claim_row-Kept :
      (campaign : ℕ) (locked : ℕ → Bool) (now stamp : ℕ) (db : Db) (o : Option TargetRow)
      → next_target campaign locked now db ≡ o
      → Ended db.targets
      → Kept db (claim_row now stamp o db).1
  unfolding claim_row
  claim_row-Kept campaign locked now stamp db none e h = (refl, h)
  claim_row-Kept campaign locked now stamp db (some t) e h =
      let picked = next_target-lem campaign locked now db ended t e h in
      same_rows (λ u. u.id == t.id) (claimed now stamp) db.targets (λ u. refl)
        (λ u hu same. let differs = pending_differs t picked.0 picked.5 in ground arith) h

  apply-Kept : (op : Op) (db : Db) → Ended db.targets → Kept db (apply op db)
  unfolding apply is_final
  apply-Kept (start c now) db h = (refl, h)
  apply-Kept (claim c locked now stamp) db h =
      claim_row-Kept c locked now stamp db (next_target c locked now db) refl h
  apply-Kept (place t now stamp) db h =
      same_rows (may_place db t) (placing_row now stamp) db.targets (λ u. refl)
        (λ u hu hit. ground arith) h
  apply-Kept (dialled t call stamp) db h =
      same_rows (may_move t (placing ∷ [])) (dialled_row call stamp) db.targets (λ u. refl)
        (λ u hu hit. ground arith) h
  apply-Kept (put_off t until stamp) db h =
      same_rows (may_move t (dialling ∷ [])) (deferred_row until stamp) db.targets (λ u. refl)
        (λ u hu hit. ground arith) h
  apply-Kept (give_back t stamp) db h =
      same_rows (may_move t (dialling ∷ [])) (unclaimed_row stamp) db.targets (λ u. refl)
        (λ u hu hit. ground arith) h
  apply-Kept (retry t reason at stamp) db h =
      same_rows (may_move t (calling ∷ [])) (retried_row reason at stamp) db.targets (λ u. refl)
        (λ u hu hit. ground arith) h
  apply-Kept (finish t e reason error stamp) db h =
      same_rows (may_move t unfinished) (finished_row (ending_status e) reason error stamp)
        db.targets (λ u. refl) (λ u hu hit. ground arith) h
  apply-Kept (complete c now) db h = (refl, h)
  apply-Kept (reclaim now timeout stamp) db h =
      let one =
        same_rows (is_dead dialling now timeout) (unclaimed_row stamp) db.targets (λ u. refl)
          (λ u hu hit. ground arith) h in
      let two =
        same_rows (is_dead placing now timeout) (unknown_row stamp)
          (update_where (is_dead dialling now timeout) (unclaimed_row stamp) db.targets) (λ u. refl)
          (λ u hu hit. ground arith) one.1 in
      (two.0 ∙ one.0, two.1)
  apply-Kept (pause c) db h = (refl, h)
  apply-Kept (resume c) db h = (refl, h)
  apply-Kept (cancel c stamp) db h =
      let (moved, db') =
        set_campaign_status c (queued ∷ running ∷ paused ∷ []) (λ _. CampaignStatus.cancelled) db in
      if_holds (Kept db) moved (cancel_targets c stamp db') db'
        (same_rows (may_cancel c) (cancelled_row stamp) db.targets (λ u. refl)
          (λ u hu hit. ground arith) h)
        (refl, h)

-- Once a target has ended (completed, suppressed, failed or cancelled), its row is left as it is, by
-- every later move of workers, the janitor and the API, in whatever order.
pub Ended-is_kept :
    (x : ℕ) (ops : List Op) (db : Db)
    → Ended x db.targets
    → rows_of x (apply_all ops db).targets ≡ rows_of x db.targets
unfolding apply_all
Ended-is_kept x [] db h = refl
Ended-is_kept x (op ∷ ops) db h =
    let kept = apply-Kept x op db h in Ended-is_kept x ops (apply op db) kept.1 ∙ kept.0

-- ===== src/Campaign/Dialer/Inside.antt =====
-- When a dial of a campaign asks the carrier, and what it leaves of its reservation.
use turncall.Prelude.{
  ℕ, ◌≤◌, ◌≡◌, refl, sym, ap, ◌∙◌, ◌⊎◌, String, Bool, true, false, Option, none, some, leb,
  if◌then◌else◌, Among, arith, inl, inr, Bool-cases,
}
use turncall.Limits.{
  Redis, DialCheck, allowed, full_live_calls, full_calls_per_second, ProjectLimits, reserve_dial,
}
use turncall.Campaign.{pending, CallingWindow, CampaignRow, TargetRow, Db}
use turncall.Campaign.Table.{campaign_running}
use turncall.Campaign.Claims.{next_target, claimed, claim_row, claim_next_target}
use turncall.Campaign.Repo.{begin_placing}
use turncall.Campaign.Schedule.{Zone, next_open}
use turncall.Campaign.Schedule.Earliest.{in_window, next_open-now}
use turncall.Campaign.Worker.Rows.{next_target-lem, all_true, is_due}
use turncall.Campaign.Worker.Picked.{next_target-Among}
use turncall.Outbound.{
  Outcome, placed, not_recorded, refused, stopped, carrier_failed, place_outbound_call,
}
use turncall.Outbound.Slot.{is_ringing}
use turncall.Outbound.Ringing.{ringing-LetThrough}
use turncall.Campaign.Dialer.{
  before_carrier, after_dial, request_of, dial, Turn, World, Went, put_off_until, dialled,
  dialled_next, opened, with_target, reserved_next, dial_next,
}

pub if_went :
    (b : Bool) (x y : Went × World) (w : Went)
    → (if b then x else y).0 ≡ w
    → ((b ≡ true) × (x.0 ≡ w)) ⊎ ((b ≡ false) × (y.0 ≡ w))
if_went true x y w e = inl (refl, e)
if_went false x y w e = inr (refl, e)

after_dial-ringing :
    (turn : Turn) (target : ℕ) (o : Outcome) (db : Db)
    → (after_dial turn target o db).0 ≡ is_ringing o
unfolding after_dial
after_dial-ringing turn target (placed sid) db = elim (Bool-cases turn.is_committed) [
  | inl done ↦ rw done refl
  | inr failed ↦ rw failed refl
]
after_dial-ringing turn target (not_recorded sid) db = refl
after_dial-ringing turn target (refused fault) db = refl
after_dial-ringing turn target stopped db = refl
after_dial-ringing turn target (carrier_failed error) db = refl

through_begins :
    (turn : Turn) (target : ℕ) (db : Db)
    → (before_carrier turn target db).0 ≡ (begin_placing target turn.dial_now turn.stamp db).0
unfolding before_carrier
through_begins turn target db = refl

-- A dial of a campaign places a call, and keeps its reservation, only if `begin_placing` let this worker
-- through to the carrier.
pub placed_was_let_through :
    (turn : Turn) (project : ℕ) (target : TargetRow) (w : World)
    → (dial turn project target w).0 ≡ true
    → (begin_placing target.id turn.dial_now turn.stamp w.db).0 ≡ true
unfolding dial
placed_was_let_through turn project target w e =
    let request = request_of turn project target.e164_number in
    let (outcome, db, redis) =
      place_outbound_call (before_carrier turn target.id) turn.facts request turn.carrier w.db
        w.redis in
    sym (through_begins turn target.id w.db)
    ∙ ringing-LetThrough (before_carrier turn target.id) turn.facts request w.db turn.carrier
        w.redis (sym (after_dial-ringing turn target.id outcome db) ∙ e)

-- The target `id` is a row of the table, the one that the claim picks; it was pending in the campaign,
-- which runs, and due, and at the turn's time a window of its own time zone is open.
abbrev pub MayDial : (String → Zone) → Turn → CampaignRow → CallingWindow → Db → ℕ → Type 0
MayDial zones turn campaign window db id =
    (t : TargetRow) × (t.id ≡ id)
    × Among t db.targets
    × (next_target campaign.id turn.locked turn.now db ≡ some t)
    × (t.status ≡ pending)
    × (t.campaign_id ≡ campaign.id)
    × (campaign_running campaign.id db ≡ true)
    × (is_due turn.now t ≡ true)
    × (turn.locked t.id ≡ false)
    × ((on : ℕ) × (in_window (zones t.timezone) window on turn.now ≡ true))

module _ (zones : String → Zone) (turn : Turn) (campaign : CampaignRow) (from_number : String)
    (window : CallingWindow) (restricted : campaign.calling_window ≡ some window) where
  dialled_next-went :
      (id : ℕ) (r : Bool × World)
      → (dialled_next zones turn campaign from_number id r).0 ≡ dialled id r.0
  unfolding dialled_next
  dialled_next-went id (true, w) = refl
  dialled_next-went id (false, w) = refl

  dialled_id : (a b : ℕ) (x y : Bool) → dialled a x ≡ dialled b y → a ≡ b
  dialled_id a b x y e = cc

  opened-dialled :
      (t : TargetRow) (o : Option ℕ) (before db : Db) (redis : Redis) (id : ℕ) (is_placed : Bool)
      → (opened zones turn campaign from_number t o before db redis).0 ≡ dialled id is_placed
      → (t.id ≡ id) × ((at : ℕ) × (o ≡ some at) × (at ≤ turn.now))
  unfolding opened
  opened-dialled t none before db redis id is_placed e = ground arith
  opened-dialled t (some at) before db redis id is_placed e =
      let asked_of = dial turn campaign.project_id t (record { db = db; redis = redis }) in
      elim (if_went (leb at turn.now) (dialled_next zones turn campaign from_number t.id asked_of)
        (put_off_until t.id at, _) (dialled id is_placed) e) [
          | inl (now_open, went) ↦ (
            dialled_id t.id id asked_of.0 is_placed (sym (dialled_next-went t.id asked_of) ∙ went),
            (at, refl, ground arith),
          )
          | inr (later, went) ↦ cc
        ]

  with_target-dialled :
      (o : Option TargetRow) (before db : Db) (redis : Redis) (id : ℕ) (is_placed : Bool)
      → (with_target zones turn campaign from_number o before db redis).0 ≡ dialled id is_placed
      → (t : TargetRow) × (o ≡ some t)
        × (t.id ≡ id)
        × ((at : ℕ) × (next_open (zones t.timezone) turn.now campaign.calling_window ≡ some at)
            × (at ≤ turn.now))
  unfolding with_target
  with_target-dialled none before db redis id is_placed e = cc
  with_target-dialled (some t) before db redis id is_placed e =
      let (same, opening) =
        opened-dialled t (next_open (zones t.timezone) turn.now campaign.calling_window) before db
          redis id is_placed e in
      (t, refl, same, opening)

  claimed_from :
      (db : Db) (o : Option TargetRow) (t : TargetRow)
      → (claim_row turn.now turn.stamp o db).0 ≡ some t
      → (u : TargetRow) × (o ≡ some u) × (t ≡ claimed turn.now turn.stamp u)
  unfolding claim_row
  claimed_from db none t e = cc
  claimed_from db (some u) t e = (u, refl, cc)

  may_dial :
      (u t : TargetRow) (id at : ℕ) (db : Db)
      → next_target campaign.id turn.locked turn.now db ≡ some u
      → t ≡ claimed turn.now turn.stamp u
      → t.id ≡ id
      → next_open (zones t.timezone) turn.now campaign.calling_window ≡ some at
      → at ≤ turn.now
      → MayDial zones turn campaign window db id
  may_dial u t id at db found from_u same opening soon =
      let picked =
        next_target-lem campaign.id turn.locked turn.now db (λ _. true) u found
          (all_true db.targets) in
      let zone_of : t.timezone ≡ u.timezone = ap (λ (r : TargetRow). r.timezone) from_u in
      let opens_at : next_open (zones u.timezone) turn.now (some window) ≡ some at =
        rw (sym zone_of, sym restricted) opening in
      let open_now = next_open-now (zones u.timezone) window turn.now at opens_at soon in
      (
        u,
        sym (ap (λ (r : TargetRow). r.id) from_u) ∙ same,
        next_target-Among campaign.id turn.locked turn.now db u found,
        found,
        picked.0,
        picked.1,
        picked.2,
        picked.3,
        picked.4,
        open_now.1,
      )

  reserved-dialled :
      (check : DialCheck) (db : Db) (redis : Redis) (id : ℕ) (is_placed : Bool)
      → (reserved_next zones turn campaign from_number check db redis).0 ≡ dialled id is_placed
      → MayDial zones turn campaign window db id
  unfolding reserved_next claim_next_target
  reserved-dialled allowed db redis id is_placed e =
      let (t, taken, same, (at, opening, soon)) =
        with_target-dialled
          (claim_row turn.now turn.stamp (next_target campaign.id turn.locked turn.now db) db).0 db
          (claim_row turn.now turn.stamp (next_target campaign.id turn.locked turn.now db) db).1
          redis id is_placed e in
      let (u, found, from_u) =
        claimed_from db (next_target campaign.id turn.locked turn.now db) t taken in
      may_dial u t id at db found from_u same opening soon
  reserved-dialled (full_live_calls max) db redis id is_placed e = cc
  reserved-dialled (full_calls_per_second max wait) db redis id is_placed e = cc

-- When `_dial_next` dials a target of a campaign with a calling window, that target is a row of the
-- table, the one that the claim's order picks; it was pending in that running campaign, due and not
-- locked, and at the turn's time the window of its own time zone is open. This holds in any zones.
pub dial_inside_window :
    (zones : String → Zone) (turn : Turn) (campaign : CampaignRow) (from_number : String)
    (window : CallingWindow) (limits : ProjectLimits) (default_cps : ℕ) (world : World) (id : ℕ)
    (is_placed : Bool)
    → campaign.calling_window ≡ some window
    → (dial_next zones turn campaign from_number limits default_cps world).0 ≡ dialled id is_placed
    → MayDial zones turn campaign window world.db id
unfolding dial_next
dial_inside_window zones turn campaign from_number window limits default_cps world id is_placed
      restricted e =
    let (check, redis) =
      reserve_dial turn.sent limits campaign.project_id turn.call from_number default_cps
        world.redis in
    reserved-dialled zones turn campaign from_number window restricted check world.db redis id
      is_placed e

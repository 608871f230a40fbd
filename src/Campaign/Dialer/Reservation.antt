-- ===== src/Campaign/Dialer/Reservation.antt =====
-- What a turn of the dialler leaves of its reservation when it was of no use.
use mathlib.Core.Path.{subst}
use turncall.Prelude.{
  ℕ, ◌≤◌, ◌≡◌, ◌∙◌, refl, sym, ap, String, Bool, true, false, not, Option, none, some, leb,
  if◌then◌else◌, arith, eq_refl,
}
use turncall.Limits.{
  Redis, Sent, up, has, purge, DialCheck, allowed, full_live_calls, full_calls_per_second,
  ProjectLimits, reserve_dial, release_dial, release_live_call, live_call_lease_ms, dial_window_ms,
}
use turncall.Limits.Expiry.{IsTimed}
use turncall.Limits.Reserve.{IsUp}
use turncall.Limits.Forget.{Keeps, back-Keeps, back_at_last, given_back}
use turncall.Limits.Reserved.{Keeps-mono, reserve-live-Keeps, reserve-dials-Keeps}
use turncall.Outbound.Slot.{released_slot}
use turncall.Outbound.Counts.{place_outbound_call-Holds}
use turncall.Campaign.{CampaignRow, TargetRow, Db}
use turncall.Campaign.Claims.{claim_next_target}
use turncall.Campaign.Schedule.{Zone, next_open}
use turncall.Campaign.Dialer.{
  before_carrier, request_of, dial, Turn, World, Went, none_due, put_off_until, dialled, released,
  dialled_next, opened, with_target, reserved_next, dial_next,
}

-- The turn ended with no call placed, by no limit and no exception.
abbrev pub is_unused : Went → Bool
is_unused none_due = true
is_unused (put_off_until target at) = true
is_unused (dialled target is_placed) = not is_placed
is_unused _ = false

false_is_true : {A : Type 0} → false ≡ true → A
false_is_true e = absurd (subst (λ b. if b then ⊥ else Unit) e tt)

-- The commands of the turn and of its dial arrive, in this order on the clock; the two sets are ones
-- that admissions made, and the call is new to both.
pub record IsReleasable (turn : Turn) (project t : ℕ) (number : String) (r : Redis) : Type 0 where
  pub taken_up : IsUp turn.sent
  pub dial_up : IsUp turn.admission
  pub freed_up : turn.release.link ≡ up
  pub slot_up : turn.release_slot.link ≡ up
  pub window_up : turn.release_window.link ≡ up
  pub slot_first : turn.sent.slot.now ≤ turn.sent.giving_back.now
  pub then_dial : turn.sent.giving_back.now ≤ turn.admission.slot.now
  pub dial_first : turn.admission.slot.now ≤ turn.admission.giving_back.now
  pub then_freed : turn.admission.giving_back.now ≤ turn.release.now
  pub then_slot : turn.release.now ≤ turn.release_slot.now
  pub slot_then : turn.release_slot.now ≤ t
  pub window_first : turn.sent.window.now ≤ turn.admission.window.now
  pub then_window : turn.admission.window.now ≤ turn.release_window.now
  pub window_then : turn.release_window.now ≤ t
  pub live_timed : IsTimed live_call_lease_ms turn.sent.slot.now (r.live_calls project)
  pub dials_timed : IsTimed dial_window_ms turn.sent.window.now (r.dials number)
  pub new_live : has turn.call (purge turn.sent.slot.now (r.live_calls project)) ≡ false
  pub new_dial : has turn.call (purge turn.sent.window.now (r.dials number)) ≡ false

released_live :
    (slot window : Sent) (project call : ℕ) (number : String) (r : Redis)
    → slot.link ≡ up
    → (release_dial slot window project number call r).live_calls project
      ≡ given_back slot call (r.live_calls project)
unfolding release_dial
released_live slot window project call number r is_up = ground arith

released_dials :
    (slot window : Sent) (project call : ℕ) (number : String) (r : Redis)
    → window.link ≡ up
    → (release_dial slot window project number call r).dials number
      ≡ given_back window call (r.dials number)
unfolding release_dial
released_dials slot window project call number r is_up = ground (arith, eq_refl number)

module _ (zones : String → Zone) (turn : Turn) (campaign : CampaignRow) (number : String)
    (start : Redis) (t : ℕ) (ok : IsReleasable turn campaign.project_id t number start) where
  -- The counts took only commands for the turn's call, up to those times.
  abbrev Took : ℕ → ℕ → Redis → Type 0
  Took live_last dials_last r =
      Keeps turn.call live_call_lease_ms live_last t (start.live_calls campaign.project_id)
        (r.live_calls campaign.project_id)
      × Keeps turn.call dial_window_ms dials_last t (start.dials number) (r.dials number)

  abbrev Reserved : Redis → Type 0
  Reserved = Took turn.sent.giving_back.now turn.sent.window.now

  abbrev Used : Redis → Type 0
  Used = Took turn.release.now turn.admission.window.now

  used : (r : Redis) → Reserved r → Used r
  used r k = (
    Keeps-mono turn.call live_call_lease_ms turn.sent.giving_back.now turn.release.now t
        (start.live_calls campaign.project_id) (r.live_calls campaign.project_id)
        (omega (arith, ok.then_dial, ok.dial_first, ok.then_freed)) k.0,
    Keeps-mono turn.call dial_window_ms turn.sent.window.now turn.admission.window.now t
        (start.dials number) (r.dials number) ok.window_first k.1,
  )

  freed-live :
      (r : Redis)
      → Used r
      → Keeps turn.call live_call_lease_ms turn.release.now t
          (start.live_calls campaign.project_id)
          ((release_live_call turn.release campaign.project_id turn.call r).live_calls
            campaign.project_id)
  freed-live r k =
      subst
        (Keeps turn.call live_call_lease_ms turn.release.now t
          (start.live_calls campaign.project_id))
        (sym (released_slot turn.release campaign.project_id turn.call r ok.freed_up))
        (back-Keeps turn.call live_call_lease_ms turn.release.now t turn.release
          (start.live_calls campaign.project_id) (r.live_calls campaign.project_id) (omega arith)
          (omega (arith, ok.then_slot, ok.slot_then)) k.0)

  freed-dials :
      (r : Redis)
      → Used r
      → Keeps turn.call dial_window_ms turn.admission.window.now t
          (start.dials number)
          ((release_live_call turn.release campaign.project_id turn.call r).dials number)
  unfolding release_live_call
  freed-dials r k = k.1

  freed :
      (r : Redis) → Used r → Used (release_live_call turn.release campaign.project_id turn.call r)
  freed r k = (freed-live r k, freed-dials r k)

  admitted :
      (limits : ProjectLimits) (from : String) (r : Redis)
      → Reserved r
      → Used (reserve_dial turn.admission limits campaign.project_id turn.call from 0 r).1
  admitted limits from r k = (
    Keeps-mono turn.call live_call_lease_ms turn.admission.giving_back.now turn.release.now t
        (start.live_calls campaign.project_id)
        ((reserve_dial turn.admission limits campaign.project_id turn.call from 0 r).1.live_calls
          campaign.project_id)
        ok.then_freed
        (reserve-live-Keeps turn.admission limits campaign.project_id turn.call from 0 r ok.dial_up
          turn.sent.giving_back.now t (start.live_calls campaign.project_id) ok.then_dial
          ok.dial_first (omega (arith, ok.then_freed, ok.then_slot, ok.slot_then)) k.0),
    reserve-dials-Keeps turn.admission limits campaign.project_id turn.call from 0 r ok.dial_up
        number turn.sent.window.now t (start.dials number) ok.window_first
        (omega (arith, ok.then_window, ok.window_then)) k.1,
  )

  placed_used :
      (target : TargetRow) (w : World)
      → Reserved w.redis
      → Used (dial turn campaign.project_id target w).1.redis
  unfolding dial
  placed_used target w k =
      let request = request_of turn campaign.project_id target.e164_number in
      place_outbound_call-Holds (before_carrier turn target.id) turn.facts request Used turn.carrier
        w.db w.redis (used w.redis k) (λ from. admitted turn.facts.limits from w.redis k) freed

  -- The turn's counts are those of a use of the reservation, given back.
  abbrev IsBack : Redis → Type 0
  IsBack r = (r' : Redis) × (r ≡ released zones turn campaign number r') × Used r'

  dialled_next-IsBack :
      (id : ℕ) (o : Bool × World)
      → Used o.1.redis
      → is_unused (dialled_next zones turn campaign number id o).0 ≡ true
      → IsBack (dialled_next zones turn campaign number id o).1.redis
  unfolding dialled_next
  dialled_next-IsBack id (true, w) k e = false_is_true e
  dialled_next-IsBack id (false, w) k e = (w.redis, refl, k)

  if-IsBack :
      (b : Bool) (x y : Went × World)
      → (is_unused x.0 ≡ true → IsBack x.1.redis)
      → IsBack y.1.redis
      → is_unused (if b then x else y).0 ≡ true
      → IsBack (if b then x else y).1.redis
  if-IsBack true x y h k e = h e
  if-IsBack false x y h k e = k

  opened-IsBack :
      (target : TargetRow) (o : Option ℕ) (before db : Db) (redis : Redis)
      → Reserved redis
      → is_unused (opened zones turn campaign number target o before db redis).0 ≡ true
      → IsBack (opened zones turn campaign number target o before db redis).1.redis
  unfolding opened
  opened-IsBack target none before db redis k e = false_is_true e
  opened-IsBack target (some at) before db redis k e =
      let w : World = record { db = db; redis = redis } in
      let out = dial turn campaign.project_id target w in
      if-IsBack (leb at turn.now) (dialled_next zones turn campaign number target.id out)
        (put_off_until target.id at, _) (dialled_next-IsBack target.id out (placed_used target w k))
        (redis, refl, used redis k) e

  with_target-IsBack :
      (o : Option TargetRow) (before db : Db) (redis : Redis)
      → Reserved redis
      → is_unused (with_target zones turn campaign number o before db redis).0 ≡ true
      → IsBack (with_target zones turn campaign number o before db redis).1.redis
  unfolding with_target
  with_target-IsBack none before db redis k e = (redis, refl, used redis k)
  with_target-IsBack (some target) before db redis k e =
      opened-IsBack target (next_open (zones target.timezone) turn.now campaign.calling_window)
        before db redis k e

  Reserved-IsBack :
      (check : DialCheck) (db : Db) (redis : Redis)
      → Reserved redis
      → is_unused (reserved_next zones turn campaign number check db redis).0 ≡ true
      → IsBack (reserved_next zones turn campaign number check db redis).1.redis
  unfolding reserved_next
  Reserved-IsBack allowed db redis k e =
      let (target, db') = claim_next_target campaign.id turn.locked turn.now turn.stamp db in
      with_target-IsBack target db db' redis k e
  Reserved-IsBack (full_live_calls max) db redis k e = false_is_true e
  Reserved-IsBack (full_calls_per_second max wait) db redis k e = false_is_true e

  Reserved-first :
      (limits : ProjectLimits) (default_cps : ℕ)
      → Reserved
          (reserve_dial turn.sent limits campaign.project_id turn.call number default_cps start).1
  Reserved-first limits default_cps = (
    reserve-live-Keeps turn.sent limits campaign.project_id turn.call number default_cps start
        ok.taken_up turn.sent.slot.now t (start.live_calls campaign.project_id) (omega arith)
        ok.slot_first
        (omega (arith, ok.then_dial, ok.dial_first, ok.then_freed, ok.then_slot, ok.slot_then))
        (record { same = refl; timed = ok.live_timed }),
    reserve-dials-Keeps turn.sent limits campaign.project_id turn.call number default_cps start
        ok.taken_up number turn.sent.window.now t (start.dials number) (omega arith)
        (omega (arith, ok.window_first, ok.then_window, ok.window_then))
        (record { same = refl; timed = ok.dials_timed }),
  )

  abbrev Restored : Redis → Type 0
  Restored r =
      (purge t (r.live_calls campaign.project_id) ≡ purge t (start.live_calls campaign.project_id))
      × (purge t (r.dials number) ≡ purge t (start.dials number))

  released-Restored : (r : Redis) → Used r → Restored (released zones turn campaign number r)
  unfolding released
  released-Restored r k = (
    ap (purge t) (
          released_live turn.release_slot turn.release_window campaign.project_id turn.call number r
            ok.slot_up)
        ∙ back_at_last turn.call live_call_lease_ms turn.release.now turn.sent.slot.now t
            turn.release_slot (start.live_calls campaign.project_id)
            (r.live_calls campaign.project_id) ok.then_slot ok.slot_then
            (omega (
              arith, ok.slot_first, ok.then_dial, ok.dial_first, ok.then_freed, ok.then_slot,
              ok.slot_then,
            ))
            ok.live_timed.covered ok.new_live k.0,
    ap (purge t) (
          released_dials turn.release_slot turn.release_window campaign.project_id turn.call number
            r ok.window_up)
        ∙ back_at_last turn.call dial_window_ms turn.admission.window.now turn.sent.window.now t
            turn.release_window (start.dials number) (r.dials number) ok.then_window ok.window_then
            (omega (arith, ok.window_first, ok.then_window, ok.window_then)) ok.dials_timed.covered
            ok.new_dial k.1,
  )

-- A turn of `_dial_next` that places no call, because no target is due, the window is shut or the dial came
-- to nothing, gives its whole reservation back, and what the dial's own admission renewed of it: what a
-- later command finds among the project's live calls and in the number's window is what it would have
-- found without the turn. The call is new to both counts, and every command arrives. A turn that a limit
-- refuses is not among these, nor is one that ends with an exception, after which the source releases
-- nothing.
pub unused_given_back :
    (zones : String → Zone) (turn : Turn) (campaign : CampaignRow) (number : String)
    (limits : ProjectLimits) (default_cps : ℕ) (world : World) (t : ℕ)
    → IsReleasable turn campaign.project_id t number world.redis
    → is_unused (dial_next zones turn campaign number limits default_cps world).0 ≡ true
    → (purge t (
          (dial_next zones turn campaign number limits default_cps world).1.redis.live_calls
            campaign.project_id)
        ≡ purge t (world.redis.live_calls campaign.project_id))
      × (purge t
            ((dial_next zones turn campaign number limits default_cps world).1.redis.dials number)
          ≡ purge t (world.redis.dials number))
unfolding dial_next
unused_given_back zones turn campaign number limits default_cps world t ok e =
    let (check, redis) =
      reserve_dial turn.sent limits campaign.project_id turn.call number default_cps world.redis in
    let (r', same, k) =
      Reserved-IsBack zones turn campaign number world.redis t ok check world.db redis
        (Reserved-first zones turn campaign number world.redis t ok limits default_cps) e in
    subst (Restored zones turn campaign number world.redis t ok) (sym same)
      (released-Restored zones turn campaign number world.redis t ok r' k)

-- ===== src/Campaign/Dialer/Examples.antt =====
-- Turns of the dialler at a small campaign that calls in office hours.
use turncall.Prelude.{arith, none, some, ℕ, ◌+◌, ◌≡◌, refl, true, false, some, [], ◌∷◌, arith}
use turncall.Limits.{empty, Sent, up, ProjectLimits, purge}
use turncall.Campaign.{dialling, pending, CampaignRow}
use turncall.Campaign.Examples.{db, target, campaign, db, utc, office, friday, monday}
use turncall.Outbound.{Facts, rings}
use turncall.Campaign.Dialer.{other_error, dial, Turn, World, dialled, dial_next}
use turncall.Campaign.Dialer.Inside.{MayDial, dial_inside_window}
use turncall.Campaign.Dialer.Reservation.{is_unused, IsReleasable, unused_given_back}

abbrev at : ℕ → Sent
at now = record { now = now; link = up }

abbrev facts : Facts
facts = record {
  is_suppressed = false;
  agent = some 1;
  number = some (record { provider = "twilio"; e164_number = "+15550100" });
  account = none;
  connection = none;
  limits = record { live_calls = 5; outbound_calls_per_second = 1; messages_per_minute = 0 };
  init_raises = false;
  base_url = "https://calls.example";
}

abbrev turn_at : ℕ → Turn
turn_at now = record {
  call = 9;
  sent = record { slot = at 1000; window = at 1001; giving_back = at 1002 };
  release_slot = at 1010;
  release_window = at 1011;
  now = now;
  stamp = now;
  locked = λ _. false;
  dial_now = now + 1;
  facts = facts;
  admission = record { slot = at 1003; window = at 1003; giving_back = at 1004 };
  release = at 1005;
  carrier = rings "CA9" true;
  wording = λ _. ("", "");
  carrier_refusal = λ text. other_error "CarrierError" text;
  is_committed = true;
  failure = "";
  is_saved = true;
  others = [];
}

abbrev office_campaign : CampaignRow
office_campaign = record campaign { calling_window = some office }

abbrev world : World
world = record {
  db = record {
    campaigns = office_campaign ∷ [];
    targets = target 1 pending ∷ target 2 pending ∷ [];
  };
  redis = record { live_calls = λ _. empty; dials = λ _. empty; messages = λ _. empty };
}

abbrev limits : ProjectLimits
limits = record { live_calls = 5; outbound_calls_per_second = 1; messages_per_minute = 0 }

dials_on_monday :
    (dial_next (λ _. utc) (turn_at (monday + 60)) office_campaign "+15550100" limits 1 world).0
    ≡ dialled 1 true
unfolding dial_next
dials_on_monday = refl

dial_inside_window_example :
    MayDial (λ _. utc) (turn_at (monday + 60)) office_campaign office world.db 1
dial_inside_window_example =
    dial_inside_window (λ _. utc) (turn_at (monday + 60)) office_campaign "+15550100" office limits
      1 world 1 true refl dials_on_monday

shut_on_friday :
    is_unused (dial_next (λ _. utc) (turn_at friday) office_campaign "+15550100" limits 1 world).0
    ≡ true
unfolding dial_next
shut_on_friday = refl

releasable : IsReleasable (turn_at friday) 1 1020 "+15550100" world.redis
unfolding purge
releasable = record {
  taken_up = record { slot_up = refl; window_up = refl; giving_back_up = refl };
  slot_up = refl;
  window_up = refl;
  dial_up = record { slot_up = refl; window_up = refl; giving_back_up = refl };
  freed_up = refl;
  slot_first = omega arith;
  then_dial = omega arith;
  dial_first = omega arith;
  then_freed = omega arith;
  then_slot = omega arith;
  slot_then = omega arith;
  window_first = omega arith;
  then_window = omega arith;
  window_then = omega arith;
  live_timed = record { covered = tt; bounded = omega arith };
  dials_timed = record { covered = tt; bounded = omega arith };
  new_live = refl;
  new_dial = refl;
}

unused_given_back_example :
    (purge 1020 (
        (dial_next
            (λ _. utc)
            (turn_at friday)
            office_campaign
            "+15550100"
            limits
            1
            world).1.redis.live_calls
          1)
      ≡ purge 1020 (world.redis.live_calls 1))
    × (purge 1020 (
          (dial_next
              (λ _. utc)
              (turn_at friday)
              office_campaign
              "+15550100"
              limits
              1
              world).1.redis.dials
            "+15550100")
        ≡ purge 1020 (world.redis.dials "+15550100"))
unused_given_back_example =
    unused_given_back (λ _. utc) (turn_at friday) office_campaign "+15550100" limits 1 world 1020
      releasable shut_on_friday

abbrev dialling_world : World
dialling_world = record { db = db; redis = world.redis }

is_placed : (dial (turn_at 120) 1 (target 1 dialling) dialling_world).0 ≡ true
unfolding dial
is_placed = refl

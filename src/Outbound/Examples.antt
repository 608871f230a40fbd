-- ===== src/Outbound/Examples.antt =====
-- A dial that the carrier fails.
use turncall.Prelude.{ℕ, ◌+◌, ◌≡◌, refl, Bool, true, false, none, some, arith}
use turncall.Limits.{Redis, empty, Sent, up, purge}
use turncall.Outbound.{refused, no_base_url, Facts, fails, Request, place_outbound_call}
use turncall.Outbound.Slot.{is_ringing, IsFresh}

abbrev at : ℕ → Sent
at now = record { now = now; link = up }

abbrev request : Request
request = record {
  project = 1;
  call = 9;
  to_number = "+15550101";
  admission = record { slot = at 1000; window = at 1001; giving_back = at 1002 };
  release = at 1010;
}

abbrev facts : Facts
facts = record {
  is_suppressed = false;
  agent = some 1;
  number = some (record { provider = "twilio"; e164_number = "+15550100" });
  account = none;
  connection = none;
  limits = record { live_calls = 5; outbound_calls_per_second = 1; messages_per_minute = 0 };
  init_raises = false;
  base_url = "https://calls.example";
}

abbrev redis : Redis
redis = record { live_calls = λ _. empty; dials = λ _. empty; messages = λ _. empty }

abbrev go_on : ℕ → Bool × ℕ
go_on n = (true, n + 1)

is_fresh : IsFresh request 1020 "+15550100" redis
unfolding purge
is_fresh = record {
  taken_up = record { slot_up = refl; window_up = refl; giving_back_up = refl };
  release_up = refl;
  slot_back = record { taken = omega arith; given = omega arith; covered = tt; windowed = tt };
  refusal_back = record { taken = omega arith; given = omega arith; covered = tt; windowed = tt };
  dials_covered = tt;
  dials_before = omega arith;
  new_call = refl;
}

is_quiet :
    is_ringing (place_outbound_call go_on facts request (fails "busy here") 0 redis).0 ≡ false
unfolding place_outbound_call
is_quiet = refl

abbrev no_url : Facts
no_url = record facts { base_url = "" }

no_url_refused :
    (place_outbound_call go_on no_url request (fails "busy here") 0 redis).0 ≡ refused no_base_url
unfolding place_outbound_call
no_url_refused = refl

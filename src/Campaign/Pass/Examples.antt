-- ===== src/Campaign/Pass/Examples.antt =====
-- A pass over a small campaign: one dial, and then nothing is left to dial.
use turncall.Prelude.{none, some, ℕ, ◌+◌, ◌≡◌, refl, true, false, [], ◌∷◌}
use turncall.Limits.{empty, Sent, up, ProjectLimits}
use turncall.Outbound.{Facts, rings}
use turncall.Campaign.{dialling, pending, failed, CampaignRow, Db}
use turncall.Campaign.Examples.{target, campaign, utc}
use turncall.Campaign.Dialer.{other_error, Turn}
use turncall.Campaign.Settle.{Calls}
use turncall.Campaign.Pass.{Pass, waits, Meets, advance, run_pass}
use turncall.Campaign.Pass.Closing.{HasWork, advance_closes}

abbrev at : ℕ → Sent
at now = record { now = now; link = up }

abbrev limits : ProjectLimits
limits = record { live_calls = 5; outbound_calls_per_second = 1; messages_per_minute = 0 }

abbrev facts : Facts
facts = record {
  is_suppressed = false;
  agent = some 1;
  number = some (record { provider = "twilio"; e164_number = "+15550101" });
  account = none;
  connection = none;
  limits = limits;
  init_raises = false;
  base_url = "https://calls.example";
}

-- A turn whose commands reach Redis from `ms` on.
abbrev turn : ℕ → ℕ → Turn
turn call ms = record {
  call = call;
  sent = record { slot = at ms; window = at (ms + 1); giving_back = at (ms + 2) };
  release_slot = at (ms + 10);
  release_window = at (ms + 11);
  now = 200;
  stamp = 200;
  locked = λ _. false;
  dial_now = 201;
  facts = facts;
  admission = record { slot = at (ms + 3); window = at (ms + 3); giving_back = at (ms + 4) };
  release = at (ms + 5);
  carrier = rings "v3" true;
  wording = λ _. ("", "");
  carrier_refusal = λ text. other_error "CarrierError" text;
  is_committed = true;
  failure = "";
  is_saved = true;
  others = [];
}

abbrev no_calls : Calls
no_calls = record { is_there = λ call. true; ended_reason = λ call. none }

abbrev meets : Meets
meets = record {
  calls = no_calls;
  settled_at = 199;
  stamp = 199;
  started_at = 199;
  finished_at = 210;
  from_number = "+15550101";
  limits = limits;
  default_cps = 1;
  turns = turn 9 1000 ∷ turn 10 5000 ∷ [];
}

abbrev with_targets : Db → Pass
with_targets db = record {
  announcing = record { db = db; log = [] };
  redis = record { live_calls = λ _. empty; dials = λ _. empty; messages = λ _. empty };
}

abbrev to_dial : Pass
to_dial = with_targets (record { campaigns = campaign ∷ []; targets = target 1 pending ∷ [] })

abbrev dealt_with : Pass
dealt_with = with_targets (record { campaigns = campaign ∷ []; targets = target 1 failed ∷ [] })

ends :
    advance (λ _. utc) campaign meets dealt_with
    ≡ (waits none, (advance (λ _. utc) campaign meets dealt_with).1)
unfolding advance
ends = refl

advance_closes_example : HasWork 1 (advance (λ _. utc) campaign meets dealt_with).1.announcing.db
unfolding turncall.Campaign.CampaignStatus-discrete
advance_closes_example =
    advance_closes (λ _. utc) campaign meets dealt_with none
      (advance (λ _. utc) campaign meets dealt_with).1 refl ends

abbrev all_of : ℕ → Meets
all_of c = meets

-- A pass that is stopped by the rate of the number: the second target waits for its second to be over.
abbrev busy : Pass
busy =
    with_targets
      (record { campaigns = campaign ∷ []; targets = target 1 pending ∷ target 2 pending ∷ [] })

abbrev hurried : ℕ → Meets
hurried c = record meets { turns = turn 9 1000 ∷ turn 10 1400 ∷ [] }

stopped_by_rate : (run_pass (λ _. utc) hurried 190 300 190 (λ _. false) busy).0 ≡ some 602
unfolding run_pass
stopped_by_rate = refl

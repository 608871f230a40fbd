-- ===== src/Outbound/Refused.antt =====
-- A refused dial never reaches the point past which a phone may ring.
use turncall.Prelude.{◌≡◌, refl, Bool, true, false, Option, none, some, str_eq, if◌then◌else◌}
use turncall.Limits.{Redis, DialCheck, allowed, full_live_calls, full_calls_per_second}
use turncall.Outbound.{
  Fault, no_base_url, call_init_raised, Facts, Carrier, rings, fails, Outcome, refused, stopped,
  Request, admit_outbound_call, recorded, freed, ask, dial, admitted, number_of, unless,
  early_problem, place_outbound_call,
}
use turncall.Outbound.Slot.{if_both}

module _ {S : Type 0} (before_carrier : S → Bool × S) (facts : Facts) (request : Request)
    (fault : Fault) (s : S) where
  -- If it was refused, the caller's state is as it was.
  abbrev Untouched : Outcome × S × Redis → Type 0
  Untouched out = out.0 ≡ refused fault → out.1 ≡ s

  ask-Untouched :
      (carrier : Carrier) (s' : S) (r : Redis)
      → Untouched (ask before_carrier facts request carrier s' r)
  unfolding ask recorded freed
  ask-Untouched (rings sid true) s' r e = cc
  ask-Untouched (rings sid false) s' r e = cc
  ask-Untouched (fails error) s' r e = cc

  stopped-Untouched :
      (s' : S) (r : Redis) → Untouched (freed before_carrier facts request stopped s' r)
  unfolding freed
  stopped-Untouched s' r e = cc

  dial-Untouched :
      (carrier : Carrier) (r : Redis) → Untouched (dial before_carrier facts request carrier s r)
  unfolding dial freed
  dial-Untouched carrier r =
      let (go_on, s') = before_carrier s in
      if_both Untouched (str_eq facts.base_url "")
        (freed before_carrier facts request (refused no_base_url) s r)
        (if go_on
          then ask before_carrier facts request carrier s' r
          else freed before_carrier facts request stopped s' r)
        (λ e. refl)
        (if_both Untouched go_on (ask before_carrier facts request carrier s' r)
          (freed before_carrier facts request stopped s' r) (ask-Untouched carrier s' r)
          (stopped-Untouched s' r))

  admitted-Untouched :
      (carrier : Carrier) (check : DialCheck) (r : Redis)
      → Untouched (admitted before_carrier facts request carrier check s r)
  unfolding admitted freed
  admitted-Untouched carrier allowed r e =
      if_both Untouched facts.init_raises
        (freed before_carrier facts request (refused call_init_raised) s r)
        (dial before_carrier facts request carrier s r) (λ e. refl) (dial-Untouched carrier r) e
  admitted-Untouched carrier (full_live_calls max) r e = refl
  admitted-Untouched carrier (full_calls_per_second max wait) r e = refl

  unless-Untouched :
      (o : Option Fault) (carrier : Carrier) (r : Redis)
      → Untouched (unless before_carrier facts request o carrier s r)
  unfolding unless
  unless-Untouched (some early) carrier r e = refl
  unless-Untouched none carrier r e =
      let (check, r') =
        admit_outbound_call request.admission facts.limits request.project request.call
          (number_of facts.number) r in
      admitted-Untouched carrier check r' e

-- A dial that is refused, for whatever reason, has not run `before_carrier`: the caller's state is as it
-- was, so a campaign's target is not yet taken as being put to the carrier.
pub refused_before_carrier :
    {S : Type 0} (before_carrier : S → Bool × S) (facts : Facts) (request : Request)
    (carrier : Carrier) (fault : Fault) (s : S) (r : Redis)
    → (place_outbound_call before_carrier facts request carrier s r).0 ≡ refused fault
    → (place_outbound_call before_carrier facts request carrier s r).1 ≡ s
unfolding place_outbound_call
refused_before_carrier before_carrier facts request carrier fault s r e =
    unless-Untouched before_carrier facts request fault s
      (early_problem before_carrier facts request) carrier r e

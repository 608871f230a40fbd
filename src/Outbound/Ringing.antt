-- ===== src/Outbound/Ringing.antt =====
-- No phone rings unless `before_carrier` let the dial go on.
use turncall.Prelude.{◌≡◌, refl, Bool, true, false, Option, none, some, str_eq, if◌then◌else◌}
use turncall.Limits.{Redis, DialCheck, allowed, full_live_calls, full_calls_per_second}
use turncall.Outbound.{
  Fault, no_base_url, call_init_raised, Facts, Carrier, Outcome, refused, stopped, Request,
  admit_outbound_call, freed, ask, dial, admitted, number_of, unless, early_problem,
  place_outbound_call,
}
use turncall.Outbound.Slot.{is_ringing, if_both}

module _ {S : Type 0} (before_carrier : S → Bool × S) (facts : Facts) (request : Request)
    (s : S) where
  abbrev LetThrough : Outcome × S × Redis → Type 0
  LetThrough out = is_ringing out.0 ≡ true → (before_carrier s).0 ≡ true

  freed-quiet :
      (o : Outcome) (s' : S) (r : Redis)
      → is_ringing o ≡ false
      → LetThrough (freed before_carrier facts request o s' r)
  unfolding freed
  freed-quiet o s' r quiet e = cc

  gated :
      (go_on : Bool) (x y : Outcome × S × Redis)
      → is_ringing y.0 ≡ false
      → is_ringing (if go_on then x else y).0 ≡ true
      → go_on ≡ true
  gated true x y quiet e = refl
  gated false x y quiet e = cc

  stopped-quiet :
      (s' : S) (r : Redis) → is_ringing (freed before_carrier facts request stopped s' r).0 ≡ false
  unfolding freed
  stopped-quiet s' r = refl

  dial-LetThrough :
      (carrier : Carrier) (r : Redis) → LetThrough (dial before_carrier facts request carrier s r)
  unfolding dial
  dial-LetThrough carrier r =
      let (go_on, s') = before_carrier s in
      if_both LetThrough (str_eq facts.base_url "")
        (freed before_carrier facts request (refused no_base_url) s r)
        (if go_on
          then ask before_carrier facts request carrier s' r
          else freed before_carrier facts request stopped s' r)
        (freed-quiet (refused no_base_url) s r refl)
        (gated go_on (ask before_carrier facts request carrier s' r)
          (freed before_carrier facts request stopped s' r) (stopped-quiet s' r))

  admitted-LetThrough :
      (carrier : Carrier) (check : DialCheck) (r : Redis)
      → LetThrough (admitted before_carrier facts request carrier check s r)
  unfolding admitted
  admitted-LetThrough carrier allowed r e =
      if_both LetThrough facts.init_raises
        (freed before_carrier facts request (refused call_init_raised) s r)
        (dial before_carrier facts request carrier s r)
        (freed-quiet (refused call_init_raised) s r refl) (dial-LetThrough carrier r) e
  admitted-LetThrough carrier (full_live_calls max) r e = cc
  admitted-LetThrough carrier (full_calls_per_second max wait) r e = cc

  unless-LetThrough :
      (o : Option Fault) (carrier : Carrier) (r : Redis)
      → LetThrough (unless before_carrier facts request o carrier s r)
  unfolding unless
  unless-LetThrough (some early) carrier r e = cc
  unless-LetThrough none carrier r e =
      let (check, r') =
        admit_outbound_call request.admission facts.limits request.project request.call
          (number_of facts.number) r in
      admitted-LetThrough carrier check r' e

  pub ringing-LetThrough :
      (carrier : Carrier) (r : Redis)
      → LetThrough (place_outbound_call before_carrier facts request carrier s r)
  unfolding place_outbound_call
  ringing-LetThrough carrier r =
      unless-LetThrough (early_problem before_carrier facts request) carrier r

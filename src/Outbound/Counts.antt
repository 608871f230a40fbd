-- ===== src/Outbound/Counts.antt =====
-- Where the counts stand after a dial: as they were, as the admission left them, or with the slot given
-- back after it.
use turncall.Prelude.{String, Bool, Option, none, some, str_eq, if◌then◌else◌}
use turncall.Limits.{
  Redis, DialCheck, allowed, full_live_calls, full_calls_per_second, reserve_dial,
  release_live_call,
}
use turncall.Outbound.{
  Fault, no_base_url, call_init_raised, Facts, Carrier, rings, fails, Outcome, refused, stopped,
  Request, admit_outbound_call, freed, ask, dial, admitted, number_of, unless, early_problem,
  place_outbound_call,
}
use turncall.Outbound.Slot.{if_both}

module _ {S : Type 0} (before_carrier : S → Bool × S) (facts : Facts) (request : Request)
    (P : Redis → Type 0) where
  abbrev released : Redis → Redis
  released r = release_live_call request.release request.project request.call r

  abbrev Holds : Outcome × S × Redis → Type 0
  Holds out = P out.2

  freed-Holds :
      (o : Outcome) (s : S) (r : Redis)
      → P (released r)
      → Holds (freed before_carrier facts request o s r)
  unfolding freed
  freed-Holds o s r h = h

  ask-Holds :
      (carrier : Carrier) (s : S) (r : Redis)
      → P r
      → P (released r)
      → Holds (ask before_carrier facts request carrier s r)
  unfolding ask freed
  ask-Holds (rings sid is_recorded) s r h k = h
  ask-Holds (fails error) s r h k = k

  dial-Holds :
      (carrier : Carrier) (s : S) (r : Redis)
      → P r
      → P (released r)
      → Holds (dial before_carrier facts request carrier s r)
  unfolding dial
  dial-Holds carrier s r h k =
      let (go_on, s') = before_carrier s in
      if_both Holds (str_eq facts.base_url "")
        (freed before_carrier facts request (refused no_base_url) s r)
        (if go_on
          then ask before_carrier facts request carrier s' r
          else freed before_carrier facts request stopped s' r)
        (freed-Holds (refused no_base_url) s r k)
        (if_both Holds go_on (ask before_carrier facts request carrier s' r)
          (freed before_carrier facts request stopped s' r) (ask-Holds carrier s' r h k)
          (freed-Holds stopped s' r k))

  admitted-Holds :
      (carrier : Carrier) (check : DialCheck) (s : S) (r : Redis)
      → P r
      → P (released r)
      → Holds (admitted before_carrier facts request carrier check s r)
  unfolding admitted
  admitted-Holds carrier allowed s r h k =
      if_both Holds facts.init_raises
        (freed before_carrier facts request (refused call_init_raised) s r)
        (dial before_carrier facts request carrier s r)
        (freed-Holds (refused call_init_raised) s r k) (dial-Holds carrier s r h k)
  admitted-Holds carrier (full_live_calls max) s r h k = h
  admitted-Holds carrier (full_calls_per_second max wait) s r h k = h

  unless-Holds :
      (o : Option Fault) (carrier : Carrier) (s : S) (r : Redis)
      → P r
      → ((number : String)
          → P
              (reserve_dial request.admission facts.limits request.project request.call number 0
                r).1)
      → ((r' : Redis) → P r' → P (released r'))
      → Holds (unless before_carrier facts request o carrier s r)
  unfolding unless admit_outbound_call
  unless-Holds (some early) carrier s r h admits k = h
  unless-Holds none carrier s r h admits k =
      let (check, r') =
        reserve_dial request.admission facts.limits request.project request.call
          (number_of facts.number) 0 r in
      let a = admits (number_of facts.number) in admitted-Holds carrier check s r' a (k r' a)

  pub place_outbound_call-Holds :
      (carrier : Carrier) (s : S) (r : Redis)
      → P r
      → ((number : String)
          → P
              (reserve_dial request.admission facts.limits request.project request.call number 0
                r).1)
      → ((r' : Redis) → P r' → P (released r'))
      → P (place_outbound_call before_carrier facts request carrier s r).2
  unfolding place_outbound_call
  place_outbound_call-Holds carrier s r h admits k =
      unless-Holds (early_problem before_carrier facts request) carrier s r h admits k

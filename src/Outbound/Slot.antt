-- ===== src/Outbound/Slot.antt =====
-- What a dial that placed no call leaves behind.
use mathlib.Core.Path.{subst}
use turncall.Prelude.{
  ℕ, ◌≤◌, ◌≡◌, ◌≢◌, ◌∙◌, refl, sym, ap, String, Bool, true, false, Option, none, some, str_eq,
  if◌then◌else◌, arith,
}
use turncall.Limits.{
  Redis, Sent, up, has, purge, current, zrem, DialCheck, allowed, full_live_calls,
  full_calls_per_second, reserve_dial, release_live_call, live_call_lease_ms,
}
use turncall.Limits.Window.{WithinTtl}
use turncall.Limits.GivenBack.{IsGivenBack, give_back}
use turncall.Limits.Reserve.{IsUp, reserve_granted, refused_takes_nothing}
use turncall.Outbound.{
  Fault, no_base_url, call_init_raised, Facts, Carrier, rings, fails, Outcome, placed, not_recorded,
  refused, stopped, Request, admit_outbound_call, recorded, freed, ask, dial, admitted, number_of,
  unless, early_problem, place_outbound_call,
}

-- The phone rings: the call was placed, whether or not it could be written down.
abbrev pub is_ringing : Outcome → Bool
is_ringing (placed sid) = true
is_ringing (not_recorded sid) = true
is_ringing _ = false

pub if_both {ℓ} :
    {A : Type ℓ} (P : A → Type 0) (b : Bool) (x y : A) → P x → P y → P (if b then x else y)
if_both P true x y h k = h
if_both P false x y h k = k

module _ {S : Type 0} (before_carrier : S → Bool × S) (facts : Facts) (request : Request) where
  -- What the dial made of the counts: as the admission left them, the slot given back, or, for a dial
  -- refused early, as they were.
  abbrev released : Redis → Redis
  released r = release_live_call request.release request.project request.call r

  ask-released :
      (carrier : Carrier) (s : S) (r : Redis)
      → is_ringing (ask before_carrier facts request carrier s r).0 ≡ false
      → (ask before_carrier facts request carrier s r).2 ≡ released r
  unfolding ask recorded freed
  ask-released (rings sid true) s r e = cc
  ask-released (rings sid false) s r e = cc
  ask-released (fails error) s r e = refl

  dial-released :
      (carrier : Carrier) (s : S) (r : Redis)
      → is_ringing (dial before_carrier facts request carrier s r).0 ≡ false
      → (dial before_carrier facts request carrier s r).2 ≡ released r
  unfolding dial freed
  dial-released carrier s r =
      let (go_on, s') = before_carrier s in
      if_both IsGiven (str_eq facts.base_url "")
        (freed before_carrier facts request (refused no_base_url) s r)
        (if go_on
          then ask before_carrier facts request carrier s' r
          else freed before_carrier facts request stopped s' r)
        (λ e. refl)
        (if_both IsGiven go_on (ask before_carrier facts request carrier s' r)
          (freed before_carrier facts request stopped s' r) (ask-released carrier s' r) (λ e. refl))
    where
      IsGiven : Outcome × S × Redis → Type 0
      IsGiven out = is_ringing out.0 ≡ false → out.2 ≡ released r

  admitted-released :
      (carrier : Carrier) (s : S) (r : Redis)
      → is_ringing (admitted before_carrier facts request carrier allowed s r).0 ≡ false
      → (admitted before_carrier facts request carrier allowed s r).2 ≡ released r
  unfolding admitted freed
  admitted-released carrier s r =
      if_both (λ (out : Outcome × S × Redis). is_ringing out.0 ≡ false → out.2 ≡ released r)
        facts.init_raises (freed before_carrier facts request (refused call_init_raised) s r)
        (dial before_carrier facts request carrier s r) (λ e. refl) (dial-released carrier s r)

pub released_slot :
    (sent : Sent) (project call : ℕ) (r : Redis)
    → sent.link ≡ up
    → (release_live_call sent project call r).live_calls project ≡ record (r.live_calls project) {
      entries = zrem call (current sent.now (r.live_calls project));
    }
unfolding release_live_call
released_slot sent project call r is_up = ground arith

-- Every command of the dial arrives, in the clock's order, the call is new to the project's live calls,
-- and the sets are ones that admissions made.
pub record IsFresh (request : Request) (t : ℕ) (number : String) (r : Redis) : Type 0 where
  pub taken_up : IsUp request.admission
  pub release_up : request.release.link ≡ up
  pub slot_back :
      IsGivenBack request.admission.slot.now request.release.now t live_call_lease_ms
        (r.live_calls request.project)
  pub refusal_back :
      IsGivenBack request.admission.slot.now request.admission.giving_back.now t live_call_lease_ms
        (r.live_calls request.project)
  pub dials_covered : WithinTtl (r.dials number).expires (r.dials number).entries
  pub dials_before : request.admission.window.now ≤ t
  pub new_call :
      has request.call (purge request.admission.slot.now (r.live_calls request.project)) ≡ false

module _ {S : Type 0} (before_carrier : S → Bool × S) (facts : Facts) (request : Request) (t : ℕ)
    (number : String) (r : Redis) (fresh : IsFresh request t number r) where
  abbrev reservation : DialCheck × Redis
  reservation = reserve_dial request.admission facts.limits request.project request.call number 0 r

  abbrev Same : Redis → Type 0
  Same r' = purge t (r'.live_calls request.project) ≡ purge t (r.live_calls request.project)

  allowed-Same :
      reservation.0 ≡ allowed
      → Same (release_live_call request.release request.project request.call reservation.1)
  allowed-Same granted =
      let (a, b, live, dials) =
        reserve_granted request.admission facts.limits request.project request.call number 0 r
          fresh.taken_up granted in
      ap (purge t)
        (released_slot request.release request.project request.call reservation.1 fresh.release_up)
      ∙ ap (λ z. purge t (record z { entries = zrem request.call (current request.release.now z) }))
          live
      ∙ give_back request.admission.slot.now request.release.now t request.call
          facts.limits.live_calls live_call_lease_ms (r.live_calls request.project) fresh.slot_back
          fresh.new_call a

  refused-Same : reservation.0 ≢ allowed → Same reservation.1
  refused-Same no_dial =
      (refused_takes_nothing request.admission facts.limits request.project request.call number 0 r
        t fresh.taken_up fresh.refusal_back fresh.dials_covered fresh.dials_before fresh.new_call
        no_dial).0

  checked-Same :
      (carrier : Carrier) (s : S) (check : DialCheck)
      → reservation.0 ≡ check
      → is_ringing (admitted before_carrier facts request carrier check s reservation.1).0 ≡ false
      → Same (admitted before_carrier facts request carrier check s reservation.1).2
  unfolding admitted
  checked-Same carrier s allowed e quiet =
      subst Same
        (sym (admitted-released before_carrier facts request carrier s reservation.1 quiet))
        (allowed-Same e)
  checked-Same carrier s (full_live_calls max) e quiet =
      refused-Same (λ (h : reservation.0 ≡ allowed). full_is_refused max (sym e ∙ h))
    where
      full_is_refused : (max : ℕ) → full_live_calls max ≢ allowed
      full_is_refused max h = cc
  checked-Same carrier s (full_calls_per_second max wait) e quiet =
      refused-Same (λ (h : reservation.0 ≡ allowed). full_is_refused max wait (sym e ∙ h))
    where
      full_is_refused : (max wait : ℕ) → full_calls_per_second max wait ≢ allowed
      full_is_refused max wait h = cc

module _ {S : Type 0} (before_carrier : S → Bool × S) (facts : Facts) (request : Request) where
  unless-Same :
      (o : Option Fault) (carrier : Carrier) (s : S) (r : Redis) (t : ℕ)
      → IsFresh request t (number_of facts.number) r
      → is_ringing (unless before_carrier facts request o carrier s r).0 ≡ false
      → purge t ((unless before_carrier facts request o carrier s r).2.live_calls request.project)
        ≡ purge t (r.live_calls request.project)
  unfolding unless admit_outbound_call
  unless-Same (some fault) carrier s r t fresh quiet = refl
  unless-Same none carrier s r t fresh quiet =
      let (check, r') =
        reserve_dial request.admission facts.limits request.project request.call
          (number_of facts.number) 0 r in
      checked-Same before_carrier facts request t (number_of facts.number) r fresh carrier s check
        refl quiet

-- A dial that does not end with the phone ringing, whether it is refused, stopped before the carrier is
-- asked, or failed by the carrier, leaves the project's live calls as they were: what a later command
-- finds among them is what it would have found without the dial. The call is new, and every command
-- arrives.
pub quiet_dial_frees_slot :
    {S : Type 0} (before_carrier : S → Bool × S) (facts : Facts) (request : Request)
    (carrier : Carrier) (s : S) (r : Redis) (t : ℕ)
    → IsFresh request t (number_of facts.number) r
    → is_ringing (place_outbound_call before_carrier facts request carrier s r).0 ≡ false
    → purge t (
        (place_outbound_call before_carrier facts request carrier s r).2.live_calls request.project)
      ≡ purge t (r.live_calls request.project)
unfolding place_outbound_call
quiet_dial_frees_slot before_carrier facts request carrier s r t fresh quiet =
    unless-Same before_carrier facts request (early_problem before_carrier facts request) carrier s
      r t fresh quiet

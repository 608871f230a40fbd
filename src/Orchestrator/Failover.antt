-- ===== src/Orchestrator/Failover.antt =====
-- orchestrator/failover.py: the groups of backup providers that a live call moves to. pipecat's switcher
-- is a parameter.
pub mod Members
pub mod OneWay
pub mod Speech
pub mod Reply
pub mod Unheard
pub mod Spoken
mod Examples
use turncall.Prelude.{
  ℕ, zero, suc, ◌-◌, Bool, true, false, not, ◌||◌, ◌&&◌, List, [], ◌∷◌, ◌++◌, ltb, ◌==◌, any,
  length, if◌then◌else◌,
}

-- A `ServiceSwitcher` with its failover strategy, its members named by their places in the list.
pub record Switcher (S : Type 0) : Type 0 where
  pub active : S → ℕ
  pub usable : S → ℕ → Bool
  pub set_usable : ℕ → Bool → S → S
  -- `push_frame` of an `ErrorFrame`
  pub push_error : S → S

-- `failed`: the members that the call has given up on, the last one first.
pub record Group (S : Type 0) : Type 0 where
  pub switcher : S
  pub failed : List ℕ

-- The event `on_failover`, with the two members.
pub record Failover : Type 0 where
  pub from_member : ℕ
  pub to_member : ℕ

module _ {S : Type 0} (w : Switcher S) where
  unfoldable pub keep_failed_down : ℕ → Bool → Group S → Group S
  keep_failed_down service is_usable g =
      if is_usable && any (◌==◌ service) g.failed
      then record g { switcher = w.set_usable service false g.switcher }
      else g

  -- `FailoverGroup.push_frame` of an error: whether the call has moved, and where to.
  unfoldable pub push_error_frame : Group S → List Failover × Group S
  push_error_frame g =
      let before = w.active g.switcher in
      let switcher = w.push_error g.switcher in
      let after = w.active switcher in
      if after == before then ([], record g { switcher = switcher }) else (
        record { from_member = before; to_member = after } ∷ [],
        record { switcher = switcher; failed = before ∷ g.failed },
      )

  -- pipecat makes a member usable again, and calls its handler.
  unfoldable pub settings_changed : ℕ → Group S → Group S
  unfolding keep_failed_down
  settings_changed service g =
      keep_failed_down service true (record g { switcher = w.set_usable service true g.switcher })

-- What moves a group: an error that its active member pushes, or a change of a member's settings.
pub data Event : Type 0 where
  error_pushed : Event
  settings_of : (service : ℕ) → Event

module _ {S : Type 0} (w : Switcher S) where
  unfoldable pub happen : Event → Group S → List Failover × Group S
  unfolding push_error_frame settings_changed
  happen error_pushed g = push_error_frame w g
  happen (settings_of service) g = ([], settings_changed w service g)

  unfoldable pub run : List Event → Group S → List Failover × Group S
  unfolding happen
  run [] g = ([], g)
  run (x ∷ xs) g =
      let (first, g') = happen x g in let (rest, g'') = run xs g' in (first ++ rest, g'')

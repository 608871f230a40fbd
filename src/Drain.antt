-- ===== src/Drain.antt =====
-- services/drain.py: the live calls of a process, how long a drain waits for them, and the SIGTERM that is
-- taken over and handed back.
pub mod Waiting
pub mod Handover
mod Examples
use turncall.Prelude.{
  ℕ, zero, suc, ◌+◌, ◌-◌, Bool, true, false, not, ◌&&◌, Option, none, some, List, [], ◌∷◌, ◌++◌,
  filter, length, ltb, ◌==◌, if◌then◌else◌,
}

abbrev pub default_max_call_duration_seconds : ℕ
default_max_call_duration_seconds = 3600

abbrev pub guard_slack_seconds : ℕ
guard_slack_seconds = 30

abbrev pub post_call_grace_seconds : ℕ
post_call_grace_seconds = 60

-- `_live`: a call, and the time by which its guard has ended it.
pub record Live : Type 0 where
  pub call : ℕ
  pub deadline : ℕ

abbrev or_default : Option ℕ → ℕ
or_default none = default_max_call_duration_seconds
or_default (some n) = if n == 0 then default_max_call_duration_seconds else n

unfoldable pub pop : ℕ → List Live → List Live
pop call live = filter (λ l. not (l.call == call)) live

-- `live_call`, at its start and at its end
unfoldable pub enter : ℕ → Option ℕ → ℕ → List Live → List Live
unfolding pop
enter call max_duration now live =
    record { call = call; deadline = now + or_default max_duration + guard_slack_seconds }
    ∷ pop call live

unfoldable pub leave : ℕ → List Live → List Live
unfolding pop
leave call live = pop call live

unfoldable pub active_calls : List Live → ℕ
active_calls live = length live

-- `max(_live.values())`
unfoldable pub latest : Live → List Live → ℕ
latest l [] = l.deadline
latest l (m ∷ rest) =
    let later = latest m rest in if ltb later l.deadline then l.deadline else later

-- What a drain reads each time it looks: its clock, the live calls, and the tasks of finished ones.
pub record Look : Type 0 where
  pub now : ℕ
  pub live : List Live
  pub pending : ℕ

unfoldable pub calls_remain : ℕ → List Live → Bool
unfolding latest
calls_remain now [] = false
calls_remain now (l ∷ rest) = ltb now (latest l rest)

-- The first loop; the looks from the one that ends it on, none if they do not last.
unfoldable pub wait_for_calls : List Look → Option (Look × List Look)
unfolding calls_remain
wait_for_calls [] = none
wait_for_calls (look ∷ looks) =
    let later = wait_for_calls looks in
    if calls_remain look.now look.live then later else some (look, looks)

-- The second loop, up to the end of the grace.
unfoldable pub wait_for_work : ℕ → Look → List Look → Option Look
wait_for_work grace_ends look [] =
    if not (look.pending == 0) && ltb look.now grace_ends then none else some look
wait_for_work grace_ends look (next ∷ looks) =
    let later = wait_for_work grace_ends next looks in
    if not (look.pending == 0) && ltb look.now grace_ends then later else some look

abbrev grace : Option (Look × List Look) → Option Look
unfolding wait_for_work
grace none = none
grace (some (look, looks)) = wait_for_work (look.now + post_call_grace_seconds) look looks

-- `drain`
unfoldable pub drain : List Look → Option Look
unfolding wait_for_calls grace
drain looks = grace (wait_for_calls looks)

pub data Callback : Type 0 where
  start_drain hand_back : Callback

-- Who owns SIGTERM, what the loop has been asked to run, and the signals that were raised again.
pub record Signals : Type 0 where
  pub ours : Bool
  pub draining : Bool
  pub scheduled : List Callback
  pub drains : ℕ
  pub raised : ℕ

-- `install_sigterm_drain`
abbrev pub installed : Signals
installed = record { ours = true; draining = false; scheduled = []; drains = 0; raised = 0 }

-- `uninstall_sigterm_drain`, and `_hand_back`
unfoldable pub uninstall : Signals → Bool × Signals
uninstall s = (s.ours, record s { ours = false })

unfoldable pub handed_back : Signals → Signals
unfolding uninstall
handed_back s =
    let (was_ours, s') = uninstall s in
    if was_ours then record s' { raised = s'.raised + 1 } else s'

-- `on_sigterm`, while it is the handler
unfoldable pub on_sigterm : Signals → Signals
on_sigterm s =
    if not s.ours
    then s
    else if s.draining
    then record s { scheduled = s.scheduled ++ (hand_back ∷ []) }
    else record s { draining = true; scheduled = s.scheduled ++ (start_drain ∷ []) }

unfoldable pub run_callback : Callback → Signals → Signals
unfolding handed_back
run_callback start_drain s = record s { drains = s.drains + 1 }
run_callback hand_back s = handed_back s

abbrev pub next_callback : List Callback → Signals → Signals
unfolding run_callback
next_callback [] s = s
next_callback (c ∷ rest) s = run_callback c (record s { scheduled = rest })

pub data Event : Type 0 where
  sigterm callback_runs drain_ends uninstalled : Event

-- A drain that ends hands the signal back.
unfoldable pub happen : Event → Signals → Signals
unfolding on_sigterm next_callback handed_back uninstall
happen sigterm s = on_sigterm s
happen callback_runs s = next_callback s.scheduled s
happen drain_ends s = if s.drains == 0 then s else handed_back (record s { drains = s.drains - 1 })
happen uninstalled s = (uninstall s).1

unfoldable pub run : List Event → Signals → Signals
unfolding happen
run [] s = s
run (x ∷ xs) s = run xs (happen x s)

-- ===== src/Redaction/Engine.antt =====
-- services/redaction.py: the app's side of the redaction worker (`_Engine`), as the events that change
-- it: texts that are asked for, a load that ends, and a job that ends. The pool is there exactly while
-- a load is.
pub mod Bounded
use turncall.Prelude.{
  ℕ, zero, suc, ◌+◌, ◌-◌, Bool, true, false, ◌&&◌, List, [], ◌∷◌, Option, none, some, ltb, leb,
  ◌==◌, not, if◌then◌else◌,
}

-- In seconds of the process's clock.
abbrev pub retry_after_seconds : ℕ
retry_after_seconds = 300

abbrev pub max_pending : ℕ
max_pending = 256

-- `self._loaded`: no future, one not done, and one done.
pub data Loaded : Type 0 where
  unloaded loading ready failed : Loaded

-- `jobs` has the number of texts of each call that has not ended; the code keeps their sum.
pub record Engine : Type 0 where
  pub loaded : Loaded
  pub closed_until : ℕ
  pub pending : ℕ
  pub jobs : List ℕ

abbrev pub fresh : Engine
fresh = record { loaded = unloaded; closed_until = 0; pending = 0; jobs = [] }

unfoldable pub shutdown : Engine → Engine
shutdown e = record e { loaded = unloaded }

-- A load that failed is begun again when the back-off is over.
unfoldable pub begin_load : Loaded → Loaded
begin_load unloaded = loading
begin_load failed = loading
begin_load loading = loading
begin_load ready = ready

-- `warm`: whether there is a load to wait for.
unfoldable pub warm : ℕ → Engine → Bool × Engine
unfolding begin_load
warm now e =
    if ltb now e.closed_until then (false, e) else (true, record e { loaded = begin_load e.loaded })

-- `_on_loaded`: the load that was begun has ended, with success or not.
unfoldable pub on_loaded : ℕ → Bool → Engine → Engine
on_loaded now true e = record e { loaded = ready }
on_loaded now false e = record e { loaded = failed; closed_until = now + retry_after_seconds }

-- `_open`
unfoldable pub open_breaker : ℕ → Engine → Engine
unfolding shutdown
open_breaker now e = shutdown (record e { closed_until = now + retry_after_seconds })

-- The first part of `redact`, up to its wait: whether the texts are taken in, or withheld.
unfoldable pub ask : ℕ → ℕ → Engine → Bool × Engine
unfolding warm
ask now texts e =
    let (there, e') = warm now e in
    if not there
    then (false, e')
    else if ltb max_pending (e'.pending + texts) && ltb 0 e'.pending
    then (false, e')
    else (true, record e' { pending = e'.pending + texts; jobs = texts ∷ e'.jobs })

-- How a call's wait ends.
pub data Outcome : Type 0 where
  answered worker_died raised : Outcome

unfoldable pub without : ℕ → List ℕ → List ℕ
without i [] = []
without zero (n ∷ rest) = rest
without (suc i) (n ∷ rest) = n ∷ without i rest

unfoldable pub size_at : ℕ → List ℕ → ℕ
size_at i [] = 0
size_at zero (n ∷ rest) = n
size_at (suc i) (n ∷ rest) = size_at i rest

-- The `except` clauses, and then the `finally`.
unfoldable pub handled : ℕ → Outcome → Engine → Engine
unfolding open_breaker
handled now worker_died e = open_breaker now e
handled now answered e = e
handled now raised e = e

-- The `i`-th call in flight ends.
unfoldable pub ends : ℕ → ℕ → Outcome → Engine → Engine
unfolding handled without size_at
ends now i outcome e =
    let e' = handled now outcome e in
    record e' { pending = e'.pending - size_at i e'.jobs; jobs = without i e'.jobs }

pub data Event : Type 0 where
  asked : (now more : ℕ) → Event
  load_ended : (now : ℕ) (ok : Bool) → Event
  job_ended : (now i : ℕ) (outcome : Outcome) → Event

abbrev pub at_instant : Event → ℕ
at_instant (asked now more) = now
at_instant (load_ended now ok) = now
at_instant (job_ended now i outcome) = now

-- The engine is asked for one text at least.
unfoldable pub happen : Event → Engine → Engine
unfolding ask on_loaded ends
happen (asked now more) e = (ask now (suc more) e).1
happen (load_ended now ok) e = on_loaded now ok e
happen (job_ended now i outcome) e = ends now i outcome e

unfoldable pub run : List Event → Engine → Engine
run [] e = e
run (x ∷ xs) e = run xs (happen x e)

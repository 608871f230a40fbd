-- ===== src/Campaign/Lifecycle.antt =====
-- campaigns/lifecycle.py: a campaign starting, finishing and being cancelled, and the events that say
-- so. An announcement is one entry of a log; what dispatching it comes to is not modelled.
pub mod Announced
mod Examples
use turncall.Prelude.{ℕ, Bool, List, [], ◌∷◌, if◌then◌else◌}
use turncall.Campaign.{Db}
use turncall.Campaign.Repo.{start_campaign, complete_if_done}
use turncall.Campaign.Control.{cancel_campaign}
use turncall.Campaign.Worker.{Op, apply}

pub data Event : Type 0 where
  campaign_started campaign_completed campaign_cancelled : (campaign : ℕ) → Event

-- The rows, and the events announced, the latest first.
pub record Announcing : Type 0 where
  pub db : Db
  pub log : List Event

-- A move that is made is committed and announced; one that is not changes nothing here.
unfoldable pub announced : Event → Bool × Db → Announcing → Bool × Announcing
announced event (moved, db) a =
    (moved, if moved then record { db = db; log = event ∷ a.log } else a)

-- `start`, `finish_if_done` and `cancel`
unfoldable pub start : ℕ → ℕ → Announcing → Bool × Announcing
unfolding announced start_campaign
start campaign now a = announced (campaign_started campaign) (start_campaign campaign now a.db) a

unfoldable pub finish_if_done : ℕ → ℕ → Announcing → Bool × Announcing
unfolding announced complete_if_done
finish_if_done campaign now a =
    announced (campaign_completed campaign) (complete_if_done campaign now a.db) a

unfoldable pub cancel : ℕ → ℕ → Announcing → Bool × Announcing
unfolding announced cancel_campaign
cancel campaign stamp a =
    announced (campaign_cancelled campaign) (cancel_campaign campaign stamp a.db) a

-- Those three, and any move that announces nothing.
pub data Step : Type 0 where
  starts : (campaign now : ℕ) → Step
  finishes : (campaign now : ℕ) → Step
  cancels : (campaign stamp : ℕ) → Step
  quietly : Op → Step

unfoldable pub take : Step → Announcing → Announcing
unfolding start finish_if_done cancel apply
take (starts c now) a = (start c now a).1
take (finishes c now) a = (finish_if_done c now a).1
take (cancels c stamp) a = (cancel c stamp a).1
take (quietly op) a = record a { db = apply op a.db }

unfoldable pub take_all : List Step → Announcing → Announcing
take_all [] a = a
take_all (s ∷ rest) a = take_all rest (take s a)

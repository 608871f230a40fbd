-- ===== src/Campaign/Lifecycle/Examples.antt =====
-- A campaign that is started and cancelled, twice over.
use turncall.Prelude.{◌≤◌, List, [], ◌∷◌, arith}
use turncall.Campaign.Examples.{db}
use turncall.Campaign.Lifecycle.{Step, starts, finishes, cancels, quietly, take_all}
use turncall.Campaign.Lifecycle.Announced.{endings, ends_announced_once}
use turncall.Campaign.Worker.{pause, resume}

abbrev steps : List Step
steps =
    starts 1 10
    ∷ quietly (pause 1)
    ∷ cancels 1 20
    ∷ quietly (resume 1)
    ∷ finishes 1 30
    ∷ cancels 1 40
    ∷ []

ends_announced_once_example : endings 1 (take_all steps (record { db = db; log = [] })).log ≤ 1
ends_announced_once_example = ends_announced_once 1 steps db (omega arith)

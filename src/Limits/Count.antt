-- ===== src/Limits/Count.antt =====
-- The count that a limit keeps: over any sequence of admissions, whoever asks for them.
use turncall.Prelude.{ℕ, ◌+◌, ◌≤◌, ◌<◌, List, [], ◌∷◌, length, ltb, arith}
use turncall.Limits.{Entry, ZSet, empty, current, purge, is_full, admit}
use turncall.Limits.Window.{length-filter-le, length-zadd, times, times-zadd, times-filter-le}

-- One run of the admission script on a key.
pub record Request : Type 0 where
  pub now : ℕ
  pub member : ℕ
  pub limit : ℕ
  pub ttl : ℕ

abbrev pub serve : Request → ZSet → ZSet
serve q z = (admit q.now q.member q.limit q.ttl z).1

unfoldable pub run : List Request → ZSet → ZSet
run [] z = z
run (q ∷ qs) z = run qs (serve q z)

-- Every request carries a limit, of at most `bound`.
abbrev pub AllLimited : ℕ → List Request → Type 0
AllLimited bound [] = Unit
AllLimited bound (q ∷ qs) = (0 < q.limit) × (q.limit ≤ bound) × AllLimited bound qs

pub length-purge-le : (now : ℕ) (z : ZSet) → length (purge now z) ≤ length z.entries
unfolding purge current
length-purge-le now z = ground (arith, length-filter-le (λ (e : Entry). ltb now e.score) z.entries)

length-serve-le :
    (bound : ℕ) (q : Request) (z : ZSet)
    → 0 < q.limit
    → q.limit ≤ bound
    → length z.entries ≤ bound
    → length (serve q z).entries ≤ bound
unfolding admit is_full
length-serve-le bound q z pos le h =
    ground (arith, length-purge-le q.now z, length-zadd q.member (q.now + q.ttl) (purge q.now z))

length-run-le :
    (bound : ℕ) (qs : List Request) (z : ZSet)
    → AllLimited bound qs
    → length z.entries ≤ bound
    → length (run qs z).entries ≤ bound
unfolding run
length-run-le bound [] z all h = h
length-run-le bound (q ∷ qs) z all h =
    length-run-le bound qs (serve q z) all.2 (length-serve-le bound q z all.0 all.1 h)

-- Whatever requests are made, at whatever times and for whichever members, a set whose requests all
-- carry a limit of at most `bound` never holds more than `bound` members.
pub run_within_limit :
    (bound : ℕ) (qs : List Request) → AllLimited bound qs → length (run qs empty).entries ≤ bound
run_within_limit bound qs all = length-run-le bound qs empty all (omega arith)

times-purge-le : (now j : ℕ) (z : ZSet) → times j (purge now z) ≤ times j z.entries
unfolding purge current
times-purge-le now j z =
    ground (arith, times-filter-le (λ (e : Entry). ltb now e.score) j z.entries)

times-serve-le :
    (j : ℕ) (q : Request) (z : ZSet) → times j z.entries ≤ 1 → times j (serve q z).entries ≤ 1
unfolding admit
times-serve-le j q z h =
    ground (arith, times-purge-le q.now j z, times-zadd q.member (q.now + q.ttl) j (purge q.now z))

times-run-le :
    (j : ℕ) (qs : List Request) (z : ZSet) → times j z.entries ≤ 1 → times j (run qs z).entries ≤ 1
unfolding run
times-run-le j [] z h = h
times-run-le j (q ∷ qs) z h = times-run-le j qs (serve q z) (times-serve-le j q z h)

-- No member is ever counted twice, however often it is admitted again.
pub run_counts_once : (j : ℕ) (qs : List Request) → times j (run qs empty).entries ≤ 1
run_counts_once j qs = times-run-le j qs empty (omega arith)

-- ===== src/Redaction/Policy.antt =====
-- services/redaction.py: a project's redaction policy, read through a cache of one process.
pub mod Steps
pub mod Fresh
use turncall.Prelude.{
  ℕ, zero, suc, ◌+◌, ◌≤◌, ◌<◌, ◌-◌, String, Bool, true, false, ◌≡◌, refl, sym, ap, ◌∙◌, List, [],
  ◌∷◌, Option, none, some, arith, contains, filter, ltb, leb, ◌==◌, if◌then◌else◌, ◌⊎◌, inl, inr,
  Bool-cases, ==_iff,
}
use turncall.Limits.{at_number}

-- RedactionPolicy
pub record RedactionPolicy : Type 0 where
  pub entities : List String

abbrev pub default_entities : List String
default_entities = "PHONE_NUMBER" ∷ "EMAIL_ADDRESS" ∷ "CREDIT_CARD" ∷ "US_SSN" ∷ "IBAN_CODE" ∷ []

abbrev pub supported_entities : List String
supported_entities =
    "AGE" ∷ "CREDIT_CARD" ∷ "CRYPTO" ∷ "DATE_TIME" ∷ "EMAIL_ADDRESS" ∷ "IBAN_CODE" ∷ "IP_ADDRESS"
    ∷ "LOCATION" ∷ "MAC_ADDRESS" ∷ "MEDICAL_LICENSE" ∷ "NRP" ∷ "ORGANIZATION" ∷ "PERSON"
    ∷ "PHONE_NUMBER" ∷ "UK_NHS" ∷ "URL" ∷ "US_BANK_NUMBER" ∷ "US_DRIVER_LICENSE" ∷ "US_ITIN"
    ∷ "US_PASSPORT" ∷ "US_SSN" ∷ []

-- `known or DEFAULT_ENTITIES`
unfoldable pub or_default : List String → List String
or_default [] = default_entities
or_default (e ∷ rest) = e ∷ rest

abbrev pub or_none : Option (List String) → List String
or_none none = []
or_none (some es) = es

unfoldable pub policy_of : Bool → Option (List String) → Option RedactionPolicy
unfolding or_default
policy_of enabled entities =
    if enabled
    then some (record {
      entities = or_default (filter (λ e. contains e supported_entities) (or_none entities));
    })
    else none

-- Seconds, as are the instants of the process's clock.
abbrev pub policy_ttl_seconds : ℕ
policy_ttl_seconds = 30

-- _POLICIES: an instant up to which an entry is trusted, with a policy or none.
abbrev pub Cached : Type 0
Cached = Option (ℕ × Option RedactionPolicy)

abbrev pub Cache : Type 0
Cache = ℕ → Cached

unfoldable pub remember_policy : ℕ → ℕ → Option RedactionPolicy → Cache → Cache
remember_policy now project policy c = at_number c project (some (now + policy_ttl_seconds, policy))

unfoldable pub forget_policies : Cache → Cache
forget_policies c project = none

-- A project's row, none where there is no project.
pub record Redacting : Type 0 where
  pub redaction_enabled : Bool
  pub redaction_entities : Option (List String)

abbrev pub Projects : Type 0
Projects = ℕ → Option Redacting

-- `_read_policy`
unfoldable pub read_row : Option Redacting → Option RedactionPolicy
unfolding policy_of
read_row none = none
read_row (some row) = policy_of row.redaction_enabled row.redaction_entities

unfoldable pub read_policy : Projects → ℕ → Option RedactionPolicy
unfolding read_row
read_policy db project = read_row (db project)

unfoldable pub trusted : ℕ → Cached → Option (Option RedactionPolicy)
trusted now none = none
trusted now (some (until, policy)) = if ltb now until then some policy else none

-- What `policy_for_project` does before it waits for the database: it answers from the cache, or it asks
-- for the row.
pub data Reply : Type 0 where
  returned : (policy : Option RedactionPolicy) → Reply
  awaits_row : Reply

unfoldable pub policy_for_project : ℕ → ℕ → Cache → Reply
unfolding trusted
policy_for_project now project c = elim (trusted now (c project)) [
  | some policy ↦ returned policy
  | none ↦ awaits_row
]

-- What it does when the row has come, at a later instant: it remembers the policy and returns it.
unfoldable pub after_row : ℕ → ℕ → Option RedactionPolicy → Cache → Option RedactionPolicy × Cache
unfolding remember_policy
after_row now project policy c = (policy, remember_policy now project policy c)

abbrev pub drop_at {ℓ} : {A : Type ℓ} → ℕ → List A → List A
drop_at i [] = []
drop_at zero (x ∷ xs) = xs
drop_at (suc i) (x ∷ xs) = x ∷ drop_at i xs

abbrev pub item_at {ℓ} : {A : Type ℓ} → ℕ → List A → Option A
item_at i [] = none
item_at zero (x ∷ xs) = some x
item_at (suc i) (x ∷ xs) = item_at i xs

-- The rows, this process's cache, the projects whose row it has asked for, and the policies that are
-- on their way to it: read from a row, or just committed by its own PUT.
pub record Process : Type 0 where
  pub projects : Projects
  pub cache : Cache
  pub asked : List ℕ
  pub on_the_way : List (ℕ × Option RedactionPolicy)

-- `now` is this process's clock at the step: a read asks the cache; the database reads the i-th row asked
-- for, or fails; the i-th policy on its way arrives and is remembered; this process's PUT commits a row,
-- with its own policy to be remembered next; another replica's PUT commits a row.
pub data Use : Type 0 where
  asks : (now project : ℕ) → Use
  sees : (i : ℕ) → Use
  fails : (i : ℕ) → Use
  arrives : (now i : ℕ) → Use
  commits : (project : ℕ) (row : Redacting) → Use
  elsewhere : (project : ℕ) (row : Redacting) → Use

unfoldable pub asked_for : Reply → ℕ → Process → Process
asked_for (returned policy) project s = s
asked_for awaits_row project s = record s { asked = project ∷ s.asked }

unfoldable pub row_seen : Option ℕ → ℕ → Process → Process
unfolding read_policy
row_seen none i s = s
row_seen (some project) i s = record s {
  asked = drop_at i s.asked;
  on_the_way = (project, read_policy s.projects project) ∷ s.on_the_way;
}

unfoldable pub row_arrived : Option (ℕ × Option RedactionPolicy) → ℕ → ℕ → Process → Process
unfolding after_row
row_arrived none now i s = s
row_arrived (some (project, policy)) now i s = record s {
  cache = (after_row now project policy s.cache).1;
  on_the_way = drop_at i s.on_the_way;
}

unfoldable pub use_cache : Use → Process → Process
unfolding policy_for_project asked_for row_seen row_arrived read_row
use_cache (asks now project) s = asked_for (policy_for_project now project s.cache) project s
use_cache (sees i) s = row_seen (item_at i s.asked) i s
use_cache (fails i) s = record s { asked = drop_at i s.asked }
use_cache (arrives now i) s = row_arrived (item_at i s.on_the_way) now i s
use_cache (commits project row) s = record s {
  projects = at_number s.projects project (some row);
  on_the_way = (project, read_row (some row)) ∷ s.on_the_way;
}
use_cache (elsewhere project row) s = record s {
  projects = at_number s.projects project (some row);
}

unfoldable pub run : List Use → Process → Process
run [] s = s
run (x ∷ xs) s = run xs (use_cache x s)

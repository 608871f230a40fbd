-- ===== src/Limits.antt =====
-- services/limits.py: concurrency and rate limits, counted in Redis. The admission script runs on
-- one sorted set; the Python functions around it run on the sets of all projects and numbers.
pub mod Window
pub mod Count
pub mod Expiry
pub mod Retry
pub mod GivenBack
pub mod Reserve
pub mod Hold
pub mod Forget
pub mod Reserved
mod Examples
use Prim.Native.Nat.{max, min}
use turncall.Prelude.{
  ℕ, ◌+◌, ◌-◌, String, Bool, true, false, not, ◌&&◌, List, [], ◌∷◌, any, filter, length, ltb, leb,
  ◌==◌, str_eq, if◌then◌else◌, Option, none, some,
}

-- A member of a sorted set, with its score: the millisecond at which it expires.
pub record Entry : Type 0 where
  pub member : ℕ
  pub score : ℕ

-- A sorted set under one key; `expires` is the key's own time to live, set by PEXPIRE.
pub record ZSet : Type 0 where
  pub entries : List Entry
  pub expires : ℕ

abbrev pub empty : ZSet
empty = record { entries = []; expires = 0 }

abbrev pub has : ℕ → List Entry → Bool
has m = any (λ e. e.member == m)

-- ZADD: a member that is there gets the new score.
unfoldable pub zadd : ℕ → ℕ → List Entry → List Entry
zadd m s [] = record { member = m; score = s } ∷ []
zadd m s (e ∷ rest) =
    if e.member == m then record { member = m; score = s } ∷ rest else e ∷ zadd m s rest

-- ZREM
unfoldable pub zrem : ℕ → List Entry → List Entry
zrem m = filter (λ e. not (e.member == m))

-- The lowest score, `ZRANGE key 0 0 WITHSCORES`.
unfoldable pub first_score : Entry → List Entry → ℕ
first_score e [] = e.score
first_score e (d ∷ rest) = min e.score (first_score d rest)

-- What a command at `now` finds under the key: nothing once the key itself has expired.
unfoldable pub current : ℕ → ZSet → List Entry
current now z = if ltb z.expires now then [] else z.entries

-- ZREMRANGEBYSCORE key -inf now
unfoldable pub purge : ℕ → ZSet → List Entry
unfolding current
purge now z = filter (λ e. ltb now e.score) (current now z)

-- The milliseconds to wait for the oldest member; the script reads it from a full set, never empty.
unfoldable pub wait_for_oldest : ℕ → List Entry → ℕ
unfolding first_score
wait_for_oldest now [] = 1
wait_for_oldest now (e ∷ rest) = max 1 (first_score e rest - now)

unfoldable pub is_full : ℕ → ℕ → List Entry → Bool
is_full member limit kept = ltb 0 limit && not (has member kept) && leb limit (length kept)

-- _ADMIT, the Lua script; 0 when admitted.
unfoldable pub admit : ℕ → ℕ → ℕ → ℕ → ZSet → ℕ × ZSet
unfolding purge zadd wait_for_oldest is_full
admit now member limit ttl z =
    let kept = purge now z in
    if is_full member limit kept
    then (wait_for_oldest now kept, record z { entries = kept })
    else (0, record { entries = zadd member (now + ttl) kept; expires = now + ttl })

abbrev pub live_call_lease_ms : ℕ
live_call_lease_ms = 120000

abbrev pub dial_window_ms : ℕ
dial_window_ms = 1000

abbrev pub message_window_ms : ℕ
message_window_ms = 60000

-- The sets of every key the program uses. Projects, calls and conversations go by number.
pub record Redis : Type 0 where
  pub live_calls : ℕ → ZSet
  pub dials : String → ZSet
  pub messages : ℕ → ZSet

abbrev pub at_number {ℓ} : {A : Type ℓ} → (ℕ → A) → ℕ → A → ℕ → A
at_number f k v j = if k == j then v else f j

abbrev pub at_text {ℓ} : {A : Type ℓ} → (String → A) → String → A → String → A
at_text f k v j = if str_eq k j then v else f j

-- One command sent to Redis: its time on Redis's clock, and how it went. It may not arrive, or run
-- and lose its answer; both raise in the client.
pub data Link : Type 0 where
  up unreachable answer_lost : Link

pub record Sent : Type 0 where
  pub now : ℕ
  pub link : Link

-- `_admit`: what the caller sees of a run of the script. An exception admits.
unfoldable pub seen_wait : Link → ℕ → ℕ
seen_wait up wait = wait
seen_wait unreachable wait = 0
seen_wait answer_lost wait = 0

unfoldable pub stored : Link → ZSet → ZSet → ZSet
stored unreachable before after = before
stored up before after = after
stored answer_lost before after = after

unfoldable pub admit_sent : Sent → ℕ → ℕ → ℕ → ZSet → ℕ × ZSet
unfolding admit seen_wait stored
admit_sent sent member limit ttl z =
    let (wait, z') = admit sent.now member limit ttl z in
    (seen_wait sent.link wait, stored sent.link z z')

unfoldable pub claim_live_call : Sent → ℕ → ℕ → ℕ → Redis → Bool × Redis
unfolding admit_sent
claim_live_call sent project call limit r =
    let (wait, z) = admit_sent sent call limit live_call_lease_ms (r.live_calls project) in
    (wait == 0, record r { live_calls = at_number r.live_calls project z })

-- ZREM of one member, as a command that may not arrive; the exception is swallowed.
unfoldable pub zrem_sent : Sent → ℕ → ZSet → ZSet
unfolding zrem current stored
zrem_sent sent member z =
    stored sent.link z (record z { entries = zrem member (current sent.now z) })

unfoldable pub release_live_call : Sent → ℕ → ℕ → Redis → Redis
unfolding zrem_sent
release_live_call sent project call r = record r {
  live_calls = at_number r.live_calls project (zrem_sent sent call (r.live_calls project));
}

-- A project's own value where it set one, else the platform default; 0 means unlimited.
pub record ProjectLimits : Type 0 where
  pub live_calls : ℕ
  pub outbound_calls_per_second : ℕ
  pub messages_per_minute : ℕ

pub record ProjectRow : Type 0 where
  pub limit_live_calls : Option ℕ
  pub limit_outbound_calls_per_second : Option ℕ
  pub limit_messages_per_minute : Option ℕ

unfoldable pub pick : Option ℕ → ℕ → ℕ
pick none default = default
pick (some own) default = own

unfoldable pub limits_for_project : Option ProjectRow → ProjectLimits → ProjectLimits
unfolding pick
limits_for_project none defaults = defaults
limits_for_project (some row) defaults = record {
  live_calls = pick row.limit_live_calls defaults.live_calls;
  outbound_calls_per_second =
      pick row.limit_outbound_calls_per_second defaults.outbound_calls_per_second;
  messages_per_minute = pick row.limit_messages_per_minute defaults.messages_per_minute;
}

pub data DialCheck : Type 0 where
  allowed : DialCheck
  full_live_calls : (max : ℕ) → DialCheck
  full_calls_per_second : (max retry_after_ms : ℕ) → DialCheck

-- The times of the commands that one reservation sends: the slot, the window, and giving back.
pub record DialSent : Type 0 where
  pub slot : Sent
  pub window : Sent
  pub giving_back : Sent

-- `a or b` on numbers
unfoldable pub or_default : ℕ → ℕ → ℕ
or_default a b = if a == 0 then b else a

unfoldable pub reserve_window : DialSent → ℕ → ℕ → String → ℕ → Redis → DialCheck × Redis
unfolding admit_sent release_live_call
reserve_window sent project call from_number cps r =
    let (wait, z) = admit_sent sent.window call cps dial_window_ms (r.dials from_number) in
    let r' : Redis = record r { dials = at_text r.dials from_number z } in
    if wait == 0
    then (allowed, r')
    else (full_calls_per_second cps wait, release_live_call sent.giving_back project call r')

unfoldable pub reserve_dial :
    DialSent → ProjectLimits → ℕ → ℕ → String → ℕ → Redis → DialCheck × Redis
unfolding claim_live_call reserve_window or_default
reserve_dial sent limits project call from_number default_cps r =
    let (claimed, r') = claim_live_call sent.slot project call limits.live_calls r in
    if claimed
    then reserve_window sent project call from_number
        (or_default limits.outbound_calls_per_second default_cps) r'
    else (full_live_calls limits.live_calls, r')

unfoldable pub release_dial : Sent → Sent → ℕ → String → ℕ → Redis → Redis
unfolding release_live_call zrem_sent
release_dial slot window project from_number call r =
    let r' = release_live_call slot project call r in
    record r' {
      dials = at_text r'.dials from_number (zrem_sent window call (r'.dials from_number));
    }

-- `admit_message`; the answer is the wait, 0 when the message is counted.
unfoldable pub admit_message : Sent → ProjectLimits → ℕ → ℕ → Redis → ℕ × Redis
unfolding admit_sent
admit_message sent limits conversation message r =
    let (wait, z) =
      admit_sent sent message limits.messages_per_minute message_window_ms
        (r.messages conversation) in
    (wait, record r { messages = at_number r.messages conversation z })

-- `_renew` of `hold_live_call`, one turn of its loop: a claim with no limit, which re-adds a lease that
-- lapsed.
unfoldable pub renew_live_call : Sent → ℕ → ℕ → Redis → Redis
unfolding claim_live_call
renew_live_call sent project call r = (claim_live_call sent project call 0 r).1

-- `admit_live_call`: none, or the limit that the 429 names.
unfoldable pub admit_live_call : Sent → ProjectLimits → ℕ → ℕ → Redis → Option ℕ × Redis
unfolding claim_live_call
admit_live_call sent limits project call r =
    let (claimed, r') = claim_live_call sent project call limits.live_calls r in
    (if claimed then none else some limits.live_calls, r')

-- `admit_inbound_call`: whether the call is let in; if not, `call.rejected` goes out with the limit.
unfoldable pub admit_inbound_call : Sent → ProjectLimits → ℕ → ℕ → Redis → Bool × Redis
unfolding claim_live_call
admit_inbound_call sent limits project call r =
    claim_live_call sent project call limits.live_calls r

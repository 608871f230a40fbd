-- ===== src/Lib.antt =====
-- Verification of turncall's core: what a call's state, a limit, a guided procedure and a campaign
-- do.
--
-- The program is a Python service that answers and places phone calls with AI agents. The parts
-- modelled here decide; the parts around them talk to carriers, models and databases.
--
--   * CallState.antt: src/turncall/domain/call_state.py and the enumerations of domain/enums.py.
--     The transition table, the terminal and active states, and the reason for which a call ended.
--   * Limits.antt: src/turncall/services/limits.py. A sorted set of Redis is its members with their
--     expiries and the key's own expiry; `admit` is the Lua script _ADMIT, `reserve_dial`,
--     `release_dial` and `admit_message` are the functions of those names. A command carries its
--     time on Redis's clock and whether it arrived and was answered.
--   * Outbound.antt: src/turncall/services/outbound_dial.py, one outbound call, over any state that
--     the caller's `before_carrier` works on. It uses the limits as the source does.
--   * Routing.antt: src/turncall/services/weighted_routing.py. SHA-256 is a function that is given.
--   * Procedure.antt, Procedure/Problem.antt, Procedure/Search.antt, Procedure/Graph.antt,
--     Procedure/Replies.antt, Procedure/Runs.antt, Procedure/State.antt:
--     src/turncall/domain/procedures.py, procedure_graph.py, procedure_state.py and
--     procedure_window.py. The graph rule is `procedures_refusal` with one definition for each
--     check; `move` is the function of that name, with a definition for each stage of its branches.
--     Texts that the model or a caller reads are data, one constructor for each text.
--     `Procedure/Window.antt` has the steps that the model is shown ahead.
--   * Campaign.antt with its modules: the rows of src/turncall/storage/models.py; Campaign/Table,
--     Claims, Repo and Control are src/turncall/storage/repositories/campaign_repo.py, one
--     definition for each guarded UPDATE; Campaign/Worker has the histories, lists of such
--     committed moves in any order; Campaign/Schedule is src/turncall/campaigns/schedule.py;
--     Campaign/Dialer is src/turncall/campaigns/dialer.py, which uses the limits, the repository,
--     the schedule and Outbound.antt as the source does; Campaign/Settle is its `_settle` and
--     Campaign/Pass its `advance` and `run_pass`; Campaign/Lifecycle is
--     src/turncall/campaigns/lifecycle.py, with the announced events as a log.
--   * Json.antt: JSON as Python holds it. Secrets.antt, Secrets/Mapped and Secrets/Kept:
--     src/turncall/domain/config_secrets.py; a dict's keys are walked once, each treated as the
--     source treats it. Sealing.antt: src/turncall/storage/sealing.py, over those walks.
--   * Redaction.antt: src/turncall/services/redaction.py. Redaction/Shapes has its regular
--     expressions, Redaction/Payload its operations on payloads and free JSON, Redaction/Policy the
--     policy and its cache, with the reading of a row and the storing of its policy as two steps,
--     Redaction/Engine the backlog and the breaker.
--   * Orchestrator/Hangup: src/turncall/orchestrator/hangup.py, a machine over the frames.
--     Orchestrator/Failover: src/turncall/orchestrator/failover.py; Failover/Speech is its
--     FailoverSTT and Failover/Reply its FailoverTTS.
--   * Events.antt: src/turncall/events/webhook_delivery.py, and get_active_subscribers of
--     src/turncall/events/dispatcher.py. Evals.antt: src/turncall/evals/result_mapping.py.
--     Drain.antt: src/turncall/services/drain.py.
--
-- Numbers are unbounded. Ids (UUIDs in the source) are numbers, instants are seconds or
-- milliseconds since the epoch, a date is its ordinal day, a JSON object is an association list.
-- What Python raises is a value: `none`, or a constructor for the exception.
--
-- Loops are structural, but for the search of the graph rule's reachability check, which takes
-- fuel: one more than the number of moves of the graph, since a step is put on the stack only when
-- it is first reached, and that this is enough is a result below; and for the dials of `advance`,
-- which take a turn from a list that is given and say so when it is used up: the source goes on
-- until a limit is full or no target is due. The digits of a number take as many rounds as the
-- number, which a tenth in each round does not use up.
--
-- Parameters stand for code that is not the repository's: `Zone` for zoneinfo (a result names what
-- it asks of a zone), `Formats` for uuid.UUID and the pattern of E.164 numbers, and the digest of
-- SHA-256; `Fernet` for the cipher, with decryption of what was encrypted as its law, and `Unicode`
-- for the tables of digits and blanks; `Switcher` for pipecat's ServiceSwitcher. What a text
-- detector answers is any function of texts, what a subscriber answers any function of the
-- attempts. What the database and a carrier answer to a dial is given as `Facts` and `Carrier`.
--
-- Not modelled: HTTP handlers and schemas, carriers' adapters, the media pipeline, retention, the
-- running of evaluations, and the parsing of JSON by pydantic; in the modules above, the timer of
-- `hold_live_call` and the wait of `arm_when_quiet`, the database reads around the limits, the
-- wording of prompts, the reads that only list rows, and the detector of redaction and its process.
pub mod Prelude
pub mod CallState
pub mod Limits
pub mod Outbound
pub mod Routing
pub mod Procedure
pub mod Campaign
pub mod Json
pub mod Secrets
pub mod Sealing
pub mod Redaction
pub mod Orchestrator
pub mod Events
pub mod Evals
pub mod Drain

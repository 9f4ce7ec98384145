-- ===== src/Lib.antt =====
-- A model of overpass, a market for satellite passes between agents, with the theorems that its
-- parts keep their promises. The program is Go; paths are from the repository's root.
--
-- An operator's Ops agent asks a ground station for a quote of one pass, a flight authority signs
-- a mandate for it, the station books the pass against the mandate, and during the pass the station
-- relays the operator's signed commands to the spacecraft while both sides watch each other's
-- status tokens. The parts meet in signed objects and in the database of each agent.
--
-- Which file models which part:
--   * Errs (internal/errs/errs.go): the codes, errors, and results with their chain.
--   * Jose (internal/jose/jws.go): the checks of a compact JWS in their order: `split_token`,
--     `check_typ`, `parse_header`, the payload's decoder, low S, `find_key`, the signature.
--   * Schema (internal/schema/objects.go, decode.go, validate.go): the wire objects, their
--     validation, scopes, strict decoding, and `verify_object` and `peek_object`, which stand for
--     `VerifyMandate`, `PeekMandate` and the like.
--   * Store (internal/store/store.go): one agent's database. Each exported call is a function from
--     the tables to a result and the tables; `Store.Calls` runs any sequence of them.
--   * Chain (internal/chain/chain.go): the hash chain of commands, `append` and `walk`.
--   * Spacecraft (internal/spacecraft/spacecraft.go): `uplink` verifies a command, advances the
--     stored counter and applies the command.
--   * Keeper (internal/verify/token.go): the policy on status tokens and the keeper of the newest.
--   * Supplier (internal/supplieradapter): the MCP tools get_quote and book_flight: what a mandate
--     and its signature say, the quotes, the ten checks of a booking, and the endpoint's dispatch.
--   * A2a (internal/a2a/server.go, security.go, guards.go): from a request to the handler of a skill
--     and back; the schemes of a card; the rewriting of rejections.
--   * Llm (internal/llmplan/planner.go, sanitize.go): the turns of the language model's planner, the
--     proposals to the authority, and the plan that they make, or the fallback's.
--   * Card (internal/wellknown/card.go): `VerifyCard`, before and after the fetch of the trust card,
--     with `VerifyDetached` of internal/jose/jws.go in Jose.Detached.
--   * Origin (internal/verify/env.go): which addresses are on a transparency log.
--   * Peer (internal/verify/verify.go): the checks of a peer in their order, what is skipped, and
--     the verdict.
--   * Monitor (internal/session/monitor.go, internal/session/compromise.go): the watch on a peer
--     during a pass, and the demo switch that simulates a revocation.
--   * Station (internal/station/station.go): `get_pass_quote` and `book_pass`, with the prices of
--     internal/config/config.go.
--   * Rules (internal/config/config.go): the flight rules and their thresholds.
--   * Planner (internal/planner/planner.go, internal/passes/passes.go): `schedule`, the greedy loop
--     `pick_all`, and `replan`. A plan is made of `picks`, sorted by time.
--   * Authority (internal/authority/authority.go): the access tiers, `check_policy`, and
--     `issue_mandate`, which records the mandate and signs it; `propose` (internal/authority/proposer.go),
--     and the language model's planner with the authority behind it.
--   * Session (internal/session/station.go): one pass on the station's side: `relay` checks a
--     command, sends it, and records it in the chain; `evidence` is what the station can show.
--   * Auditor (internal/auditor/auditor.go): `audit`, whose calls of `add` are `findings`, and
--     `canary_report`.
--   * Bus (internal/bus/bus.go): `publish`, `subscribe`, `unsubscribe` and `close`. `Bus.Log` is the
--     append-only log that it implements.
--   * Prelude holds what they share: signed integers with the wrap-around of an int64, texts and
--     decimals, lists, Boolean tests. Toys holds the small instances that the tests run on.
--
-- What stands for code outside the repository is a parameter: `Jose.Library` has base64, the JSON
-- readers, JCS, thumbprints and the ECDSA check; `Peer.Answers` has what DNS, the transparency log,
-- TLS and DANE answer; the trust index, the peer verifier, the parser of ANS names and the order of
-- texts are arguments of the sections that use them; `Supplier.Platform` has float64 arithmetic, JSON,
-- base64, SHA-256 and go-jose for the supplier's tools; `Card.Reader` has the JSON readers, net/url
-- and SHA-256 for cards, and the fetch is a function; the language model is a function of the
-- conversation; `Codec` has the strict JSON decoder of one kind of
-- object and its JCS form; `Digest` has SHA-256 and JCS for the chain; SQLite's refusals, fetched
-- status tokens, clock readings and random identifiers are arguments of the calls. No theorem
-- assumes anything about them, but where its statement says so.
--
-- Every loop of the source that is modelled is a recursion on a list, a text or a number, so no
-- function takes fuel; the language model's loop recurs on the turns that are left.
-- Integers are unbounded, but the station's window and price arithmetic wraps around at 64 bits. A mutex makes a call one step, and the interleavings of calls are lists of
-- calls, ticks or tokens.
--
-- Not modelled: the detail text of errors and the events on the bus; signing, but for the guard of
-- the booking receipt; the building of agent cards; opening and migrating a database; the map of
-- sessions of the station's manager; the choice of a peer's configuration and the pinned HTTP client;
-- the HTTP layer, the configuration's validation, and the clients of network services; the
-- vendored trust discovery; commands, scripts and deployment.
pub mod Prelude
pub mod Errs
pub mod Jose
pub mod Schema
pub mod Store
pub mod Chain
pub mod Spacecraft
pub mod Keeper
pub mod Origin
pub mod Peer
pub mod Monitor
pub mod Station
pub mod Rules
pub mod Planner
pub mod Authority
pub mod Session
pub mod Auditor
pub mod Bus
pub mod Supplier
pub mod A2a
pub mod Llm
pub mod Card
pub mod Toys

-- ===== src/Lib.antt =====
-- xrouter: a local router in front of providers of language models. A client of the OpenAI or the
-- Anthropic protocol sends a request; the router resolves its `model` field to a tier or to one
-- endpoint, orders the candidates by health and weight, takes a key of the provider in turn, asks
-- the upstream, records the outcome, and translates the answer's stream where the protocols differ.
--
-- Files and the code they are about:
--   Core, Core/Endpoint, Core/Registry, Core/Free, Core/Bodies: crates/xrouter-core (lib.rs, tier.rs, free.rs).
--     Newtypes of `String` are `Text`, a list of code points.
--   Config: the records of crates/xrouter-config/src/lib.rs, with `finalize`, the
--     built-in configuration and `tier_registry`.
--   Providers, Providers/Cache: crates/xrouter-providers/src/cache.rs in memory.
--   Providers/Models: the parsing of model lists in crates/xrouter-providers/src/lib.rs.
--   Balancer/Health: `HealthRegistry` of crates/xrouter-balancer/src/lib.rs, one function for each
--     operation, from a registry to a registry. Health/History runs a list of timed calls.
--   Balancer/State, Balancer/Keys: `KeyRing`, the quota bans and `next_key` of the same file.
--   Balancer/Candidates: `candidates_ordered`: the read of the endpoints' health, the three groups,
--     the rotation to the default entry and the stable sort by weight.
--   Balancer/Weighted: `pick_weighted` of the same file. A weight is kept as what was added to it and
--     what was taken off, as an `i64` that stays far from its ends; the total is a `u32` and wraps.
--   Server/Resolve: crates/xrouter-server/src/resolve.rs. It uses Config, Core/Registry for tiers and
--     Providers/Cache for the models that providers list.
--   Server/OpenaiStream, Server/AnthropicStream: the two stream translators of
--     crates/xrouter-server/src/translate.rs; Server/Sse has the frames they write.
--   Server/Stream: `SseLineBuffer` and `StreamTranslator` of crates/xrouter-server/src/lib.rs, over
--     both translators.
--   Server/Admin: `handle_admin_create_tier` of the same file, the entries it makes and the live
--     configuration after it; the writing of the file is a parameter. Admin/Models, Admin/Listing:
--     `handle_admin_models`.
--   Server/Track, Server/Track/Codes: crates/xrouter-server/src/track.rs, the buffer of tracked
--     requests, its file of length-prefixed frames, and the codes of errors. `bincode` with `zstd` is
--     a pair of parameters `encode` and `decode`; the file is a list of bytes, and appends succeed.
--   Server/Images: the translation of images and `is_streaming` in
--     crates/xrouter-server/src/translate.rs.
--   Server/Metrics: the counters of crates/xrouter-server/src/metrics.rs.
--   Server/Responses: `responses_object` of crates/xrouter-server/src/translate.rs.
--   Server/Requests: the translation of whole requests in crates/xrouter-server/src/translate.rs:
--     Anthropic for `openai_to_anthropic`, Openai for `anthropic_to_openai`, Responses for the
--     Responses API and for the answers that crates/xrouter-server/src/lib.rs does not stream.
--   Server/ResponsesStream: `ResponsesStreamTranslator` of the same lib.rs.
--   Server/Failover: `route_openai_request` of the same lib.rs. Failover has the state of the
--     application that a request changes, the `World` that it meets, the choice of a key or an
--     account and the translated body; Attempt is one round of the loop over the candidates, Route
--     the loop, what precedes it and what follows. Steps gives the ways of a round as a relation, on
--     which the theorems go by cases. It uses Balancer, Auth, Server/Resolve, Server/Metrics,
--     Server/Track and Server/Requests.
--   Server/Replies: the bodies that the same function relays from an upstream to the client.
--   Auth: the kinds of device providers in crates/xrouter-auth/src/lib.rs; Auth/Store is its
--     `DeviceStore`, Auth/Refresh its `refresh_if_needed`.
--   Json: `serde_json::Value` with the reads that the translators use.
--   Common: tests on numbers, lists, texts, dictionaries and the functions of `str`.
-- The files below these hold lemmas and theorems, and the Tests files run the definitions.
--
-- How the code is modelled. An `Instant` is a number of nanoseconds; an operation reads the clock once
-- and takes that time as an argument. The jitter of a cooling window is a function `scale`, of which
-- the theorems that need it ask that it stays between nine and twelve tenths. The ratio of the
-- degraded check is compared exactly, as 7 * total < 10 * cooling. Counters of type `usize` wrap at
-- 2 ^ 64 and those of type `u32` at 2 ^ 32. `HashMap` and `DashMap` are association lists, whose order
-- stands for one order of iteration. Each operation of the balancer is one step: the interleaving of
-- threads inside an operation is not modelled, histories are sequences of whole operations. JSON
-- parsing is a parameter `parse`, and a network chunk is the text that `from_utf8_lossy` gives. Lower
-- case is that of ASCII letters. Loops are structural recursion, but for two on fuel: the
-- removal of a repeated prefix has the length of the text as fuel, and each removal shortens the text;
-- the reading of the tracker's file has the length of the file, and each round takes bytes of it.
--
-- A request is modelled alone: no other request changes the balancer between its steps. The `World` of
-- a request gives, for the candidate at each place of the list, the readings of the clock, the factor
-- of the backoff, what the token endpoint answers and what the upstream sends within its time limit.
-- The loop over the candidates is structural recursion on their list.
--
-- Not modelled: the handlers of crates/xrouter-server/src/lib.rs for the images and for the
-- administration, but for the creation of tiers and the list of models; the headers of replies; the
-- HTTP adapters of crates/xrouter-providers; the login flow of crates/xrouter-auth and the file of
-- its store; crates/xrouter-cli and crates/xrouter-wizard, which are network, files, templates and
-- the terminal; the configuration file and its watcher.
pub mod Common
pub mod Core
pub mod Config
pub mod Providers
pub mod Balancer
pub mod Auth
pub mod Json
pub mod Server

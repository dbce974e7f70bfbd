-- ===== src/Lib.antt =====
-- Models of fastapi-infra, the infrastructure kit for FastAPI services, and theorems on them.
--
-- The program is a set of plugins that a manager starts in the order of their dependencies, and the
-- services that they bring: queues and a worker for background tasks, a saga coordinator, rate
-- limiters, locks, caches, retry loops, payment providers, tokens and rights, an HTTP client, event
-- streams, webhooks, the configuration that they read, and middleware for the responses.
--
-- Plugins   infra/plugins/manager.py, infra/plugins/contract.py, infra/core/health.py and
--           infra/config/models.py. Plugins.Contract holds the values that plugin and manager
--           exchange, Plugins.Order the order (`_resolve_order`), Plugins.Manager.State the state of
--           `PluginManager`, Checks, Methods, Starting, Stopping and Lifecycle its methods under
--           their names. A plugin's hooks are functions on a world, which is also an argument; a
--           hook may raise an `Exception`, or another `BaseException`, such as a cancellation, which
--           `except Exception` lets pass.
-- Tasks     infra/plugins/tasks: Models, Memory (adapters/memory.py), Broker
--           (adapters/_broker.py), Worker with Worker.Run (worker.py). The clock, the fresh ids, the
--           handlers, the transport and `asyncio.gather` are arguments.
-- Saga      infra/plugins/transaction/coordinator.py
-- RateLimit infra/plugins/ratelimit/memory.py
-- Retry     infra/plugins/retry.py and infra/http/resilience.py
-- Lock      infra/plugins/lock/manager.py; Redis is an argument, what it documents a hypothesis
-- Cache     infra/cache/service.py
-- Payment   infra/plugins/payment: mock.py, store.py, registry.py, models.py; Payment.Service for
--           service.py
-- Middleware infra/middleware/middleware.py: CORS and security headers
-- Streams   infra/streaming/streams_manager.py: Message for what is read and written, Manager for the
--           producer and the end of a message, Consumer for the loop; the Redis client is an argument
-- Auth      infra/plugins/auth: Keys and Tokens for service.py, Dependencies for dependencies.py; the
--           cryptography, base64 and json are an argument, the toolbox
-- Http      infra/http/client.py: Models for policy, URLs and headers, Request for the loop of attempts
-- Config    infra/config/loader.py: Env for the env file, Settings for trees and
--           references
-- Webhooks  infra/plugins/webhooks, with Signature for `verify_webhook_signature` of
--           infra/plugins/payment/stripe.py
-- Storage   infra/plugins/storage: local.py and registry.py; the file system is an argument
-- Health    infra/core/health.py (the redaction) and infra/plugins/provider_health.py
-- Context   infra/core/context.py and infra/core/services.py
-- Common    lists, options, tests, dictionaries, integers, texts, JSON, results and actions
--
-- A method that changes an object and may raise is an `Action`: the state comes back beside the
-- exception as well. A dictionary is an association list in the order of insertion. Times are whole
-- ticks. Fuel: the visit of a plugin runs on one more than the number of plugins, which is enough
-- since the names on a path differ; the worker's loop and the wait for a lock run on fuel that the
-- caller gives, and theorems say how much is enough; the retry loops run on their attempts, and the
-- attempts of an HTTP request on as many as its policy allows. The consumer of a stream runs on
-- fuel without end, since its loop ends only when it is stopped.
--
-- Not modelled: vendor clients and brokers, the database, logging and instrumentation, which only
-- call libraries; scaffolding, command line and release checks, which write text; the sessions that
-- the HTTP client keeps per event loop; and the reading of files.
pub mod Auth
pub mod Cache
pub mod Common
pub mod Config
pub mod Context
pub mod Health
pub mod Http
pub mod Lock
pub mod Middleware
pub mod Payment
pub mod Plugins
pub mod RateLimit
pub mod Retry
pub mod Saga
pub mod Storage
pub mod Streams
pub mod Tasks
pub mod Webhooks

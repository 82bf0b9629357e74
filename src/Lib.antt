-- ===== src/Lib.antt =====
-- The payment middleware (module payment-middleware, in Go): a point of sale posts a payment request to it,
-- it forwards the request over Ably to the EDC device of the merchant and terminal, waits for the device's
-- response and answers with it. This library models its core and proves what makes it correct.
--
-- The parts and the files that model them:
--   * Models: the structs of internal/models.
--   * Redis: the commands that the program sends through go-redis, as a record of functions over a world,
--     with the laws of the server that the program relies on; Redis/Memory is a server in memory that meets
--     them.
--   * Store: the interface TransactionStore of internal/store/store.go and its contract. Store/RedisStore
--     models internal/store/redis_transaction_store.go: `store`, `load` and `update` with its optimistic
--     locking. Store/SyncMap models the SyncMapStore of store.go, which the program does not use: its pointers,
--     and in Locking the goroutines that run `Update`. Store/Connecting models RedisConfig and NewRedisClient
--     of internal/store/redis_client.go.
--   * Mapper: internal/mapper. Mapper/InMemory models mapper.go, Mapper/RedisMapper models redis_mapper.go,
--     and Mapper/Keys has the texts of their keys.
--   * Ably: internal/ably/publisher.go. Ably/Client has the making of the clients and the subscription,
--     Ably/Publishing the publishing with its retries, Ably/Subscribing the callback for the messages of the
--     devices.
--   * Handlers: internal/handlers. Handlers/Transaction models transaction.go, Handlers/Edc models
--     edc_response.go, Handlers/Hold models hold.go, Handlers/Health models health.go, Handlers/Middleware
--     models cors.go and the recovery from panics of errors.go, and Handlers/Admin models admin.go, with its
--     Migration and its lifetimes (Ttl). Handlers/Lifecycle is about transaction.go and edc_response.go
--     together: what they write, as a step relation on what a store holds. Http is the response writer and the
--     helpers of errors.go and transaction.go.
--   * Crypto: internal/crypto/aes.go, with base64 and hexadecimal digits.
--   * Config: internal/config/config.go.
--   * Main: main.go. `main` makes the parts of a configuration and wires them, up to the start of the server;
--     Main/Routing has the table of routes and the handlers behind them, Main/Shutdown the end of the process.
--
-- How the parts interact: handle_transaction resolves the device with a MidTidMapper, stores a pending
-- transaction in the TransactionStore, publishes with the AblyPublisher unless a hold is set, and then polls
-- the store. handle_edc_response updates the same store. Every operation takes the world, the state of all
-- that the program talks to, and returns the world that it leaves. Between two calls of a handler others act:
-- a Schedule says what they do, round by round (Turn), so a theorem about every schedule is one about every
-- interleaving of requests, responses and other instances of the program. What other clients of Redis do
-- inside an optimistic update is a field of RedisTransactionStore, and what they do between the commands of a
-- migration is in AdminHandler. The goroutines in Store/SyncMap/Locking take turns at every access to shared
-- data.
--
-- Bounds and fuel: the polling loop is by recursion on the rounds that it is given, and gives `waiting` where
-- they end before the handler answers; with a round that finds the context done it answers.
-- Handlers/Transaction/Timing makes the rounds of the moments of the loop, with the timeout and the ticker of
-- 500 ms. The retries of `update` (3), of publishing (4 tries) and of connecting (5) are by recursion on the
-- rounds left, the loop over blocks on the number of blocks. A time.Duration is a signed 64-bit number, with
-- its wrap-around. Timestamps are natural numbers, 0 for the zero time.
--
-- Parameters, with hypotheses on what they promise: the Redis server and go-redis (Redis.IsLawful, IsFair),
-- the JSON encoding of a transaction (CodecIsLawful), the Ably client, the JSON of a device's response, SHA-1
-- and the AES permutation of a block (Crypto.Ecb.IsLawful), the Ably SDK, gorilla/mux (which route it finds,
-- and its answer where it finds none), http.Server and the signals of the process, the environment, and the
-- JSON decoding of request bodies and of the configured mappings. strconv.Atoi, strings.TrimSpace,
-- strings.Split, base64 and hexadecimal digits are modelled as they are documented.
--
-- Not modelled: listening and answering connections, which is net/http; the Go memory model, so a goroutine
-- that reads a shared transaction of SyncMapStore without its lock; log lines.
pub mod Common
pub mod Models
pub mod Redis
pub mod Store
pub mod Mapper
pub mod Http
pub mod Ably
pub mod Handlers
pub mod Crypto
pub mod Config
pub mod Main
mod Tests

-- ===== src/Lib.antt =====
-- The global mail server: mails to all players of a game, published by an operator, kept in MySQL,
-- projected to Redis, announced over Kafka, and read, claimed and deleted by the players.
--
-- The parts and how they interact. The publisher (domain/globalmail/publisher.go) writes a mail, an
-- outbox event and an idempotency record in one transaction. The relay (domain/globalmail/outbox.go)
-- takes due events, loads the mail, writes it to Redis, advances the global version and announces the
-- change. A player server keeps a snapshot of the active mails (domain/globalmail/cache.go), which it
-- refreshes when a change is announced (app/playersrv/event_consumer.go), at the ticks of a poller
-- (app/playersrv/cache_poller.go) and before each call. The calls of a player
-- (app/playersrv/mail_service.go) read the snapshot, change the player's state in MySQL and have
-- rewards granted (app/playersrv/backpack_service.go). They come as commands: a queue with a lane for
-- each role (app/playersrv/request_queue.go) calls a dispatcher that remembers its answers here and in
-- Redis (app/playersrv/command_service.go), and that calls the handlers of the mails
-- (app/playersrv/mail_commands.go). A gateway (app/gatewaysrv) finds the player servers in etcd
-- (infra/etcd), sends a user to one by consistent hashing, and keeps the sessions of its users. The
-- account server (app/accountsrv) logs users in and keeps their tokens in Redis; the admin server
-- (app/adminsrv) is the operator's way to the publisher.
--
-- The files:
--   Prelude      lists, 64-bit integers, equality, maps, sorting, and calls that may fail
--   Json         what encoding/json makes of the raw messages
--   Types        domain/globalmail/types.go and domain/routing/types.go
--   Ports        domain/globalmail/ports.go
--   Cache        domain/globalmail/cache.go: Conditions, Snapshot and Refresh are its functions;
--                Singleflight is domain/globalmail/singleflight.go
--   PlayerMail   app/playersrv/mail_service.go: Service, States and Loots are its functions
--   Backpack     app/playersrv/backpack_service.go, and OnMysql, the tables behind it
--   Mysql        data/mysql: Models, Mapper, and the repository by table in Mails, States, Ledger
--                and Outbox
--   Publisher    domain/globalmail/publisher.go
--   Relay        domain/globalmail/outbox.go; Worker is app/mailrelaysrv/worker.go
--   Redis        data/redis: Client is what is taken of the client, Version and Repository are
--                repository.go, Routing is routing.go
--   Events       app/playersrv/event_consumer.go and cache_poller.go
--   RequestQueue app/playersrv/request_queue.go: Calls is Dispatch, Lanes the goroutines behind it
--   Commands     app/playersrv/command_service.go
--   MailCommands app/playersrv/mail_rpc.go, with its server in Server, and mail_commands.go in
--                Handlers; Serves says which call each command is
--   Gateway      app/gatewaysrv: Ring is router.go, Pool and Manager are connection.go, RouteService is
--                route_service.go, session.go and command_forwarder.go, Server is server.go
--   Etcd         infra/etcd/registry.go and discovery.go, and app/gatewaysrv/etcd_provider.go
--   Kafka        infra/kafka/consumer.go and producer.go
--   Accounts     app/playersrv/account_service.go
--   AccountServer  app/accountsrv: service.go, and server.go in Http
--   AdminServer  app/adminsrv/server.go
--   Config       config/config.go
--   Tests        the theorems at concrete inputs
--
-- How code becomes definitions. A method with effects is a function of a world: it returns a result or
-- an error, and the world it leaves, which stands after an error too. A reading of a clock is an
-- argument or a function of the world. An int or int64 is an integer, wrapped to 64 bits where the
-- code computes with it; a time is the number of nanoseconds since Go's zero time. A map is an
-- association list. An error is a constructor, without its text.
--
-- Goroutines. The request queue and the singleflight group are states with moves: a move is one
-- alternative of a select, or one stretch of code between two points where others can come in, and it
-- is there only where the code can take it. What is proved of them holds after every list of moves, in
-- every order. The bounds of the queue are the two sizes of its channels and the number of its
-- workers; the dispatcher's answer comes in with the move that returns it, and a timer is a move too.
--
-- Parameters. MySQL through gorm is a record of statements on a table with the laws that MySQL
-- documents (Mysql/Table.antt); a row comes back as its columns keep it, times rounded and JSON in
-- MySQL's form. Redis is the commands on its keys with the laws that Redis documents
-- (Redis/Client.antt), and two commands on the version's key (Redis/Version.antt). etcd is its calls
-- on a key (Etcd.antt), Kafka a reader and a writer. JSON and protobuf of the messages, YAML, SHA-256,
-- CRC-32, FNV and the random bytes of tokens are functions. That MySQL evaluates the assignments of one
-- statement from left to right, and that gorm writes them in the order of their names, stands in the
-- order of the columns in Mysql/States.antt. What other goroutines do to the
-- cache while one waits for the mutex is a function of its state. The ticks that a wait for the
-- rebuild of another process sees are a number that comes in with the call, so that every loop is
-- a recursion on its data and needs no fuel.
--
-- Not modelled: metrics and logging, which nothing reads; the constructors of the library clients and
-- the mains, which only wire the parts together; the routes and health checks of the HTTP servers;
-- the pool of gRPC clients; the stream of etcd's changes, which no part listens to; the statements that
-- create the tables; and generated code.
pub mod AccountServer
pub mod Accounts
pub mod AdminServer
pub mod Backpack
pub mod Cache
pub mod Commands
pub mod Config
pub mod Etcd
pub mod Events
pub mod Gateway
pub mod Json
pub mod Kafka
pub mod MailCommands
pub mod Mysql
pub mod PlayerMail
pub mod Ports
pub mod Prelude
pub mod Publisher
pub mod Redis
pub mod Relay
pub mod RequestQueue
pub mod Tests
pub mod Types

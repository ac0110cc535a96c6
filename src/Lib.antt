-- ===== src/Lib.antt =====
-- Pulsar Beam, a bridge between HTTP and Apache Pulsar.
--
-- The program is one process that serves, by its mode, an HTTP server, a webhook broker, or both.
-- The server keeps documents, each of which names a Pulsar topic and the webhooks that its messages
-- are pushed to, in one of three databases; it also takes messages for a topic, and hands them out
-- by polling and as a stream of events. The broker reads the documents from time to time, and runs
-- a consumer for each activated webhook. A request passes the rate limit, then the authentication of
-- its route, which puts the subjects of its token into a header, and then its handler, which asks
-- whether one of those subjects has the say over the document.
--
-- Which file models which part, with the paths of the repository:
--   Prelude, Strings    lists, results, maps and signed integers of the development; Go's `strings`
--                       functions on texts of code points, whose lengths are in bytes
--   Platform            SHA-1 and url.Parse, as parameters
--   Model/Topic         src/model/topic.go: documents, their keys, and the validation of webhooks
--   Model/Regex         regular expressions, for the pattern of a Pulsar URL, matched by derivatives
--   Model/Message       src/model/message.go: the messages of one poll
--   Util                src/util/util.go, src/util/main_control.go, and the lists of clusters and
--                       super roles of src/util/config.go
--   Util/Settings       the rest of src/util/config.go: the file, the environment, and the loop over
--                       the fields, which are a list
--   Util/Cache          src/util/ttlcache.go and src/util/cache-item.go: the map that expires
--   Util/Certs          src/util/cert-loader.go: the certificate that is shown, over the changes of its
--                       files in their order
--   Db                  src/db/interface.go: a driver as a record of operations over a state, and
--                       Db/Contract: what the two drivers below promise, by GetByKey alone
--   Db/InMemory         src/db/in-memory.go: the state is the map of documents
--   Db/PulsarDb         src/db/pulsardb.go: the state is the table in memory and the messages that the
--                       broker has confirmed; the listener is a function of the messages that it reads
--                       and of its restarts; Connect: how the handler is made and closed
--   Db/Mongo            src/db/mongo.go: the driver over a collection, which is a parameter, and
--                       Connect: how the handler is made and closed
--   Db/Factory          NewDb and NewDbWithPanic of src/db/interface.go
--   Driver              src/pulsardriver: the three caches, with the calls of the Pulsar library
--                       counted and answered by a parameter
--   Driver/Clients      src/pulsardriver/pulsar-client.go
--   Driver/Producers    src/pulsardriver/pulsar-producer.go, where an object that the cache shares is
--                       behind an address, and Driver/Sending: SendToPulsar with its retries
--   Driver/Consumers    src/pulsardriver/pulsar-consumer.go
--   Crypto              src/icrypto: Aes and Rsa over Go's ciphers as parameters, Base64 written out,
--                       RandomKeys, KeyFiles and Tokens
--   Middleware          src/middleware: the three authentication functions, the semaphore, and the
--                       rate limit as a step relation over all orders of requests
--   Broker/Poll         src/broker/sse-broker.go: a poll, with the calls of the client in order
--   Broker/Webhook      the registry of channels and the function run of src/broker/webhook.go
--   Broker/Cancel       run and cancelConsumer over the registry and the consumers of the driver
--   Broker/System       the same with the loops that run: starts, cancellations and the steps of the
--                       loops in any order, as a step relation
--   Broker/Replies      toPulsar: the reply of a webhook, sent through the driver
--   Broker/Consume      ConsumeLoop, pushAndAck and pushWebhook of src/broker/webhook.go
--   Route/Auth          src/route/handlers.go: ExtractEvalTenant, VerifySubject and
--                       VerifySubjectBasedOnTopic
--   Route/Http          requests, the response writer, and the JSON coder as a parameter
--   Route/Topics        GetTopicHandler, UpdateTopicHandler and DeleteTopicHandler, over any driver
--   Route/Consumers     PollHandler, SSEHandler, and the functions that read their parameters
--   Route/Receive       ReceiveHandler, over a body that comes in pieces
--   Route/Receive/Pool  the worker pool of src/route/handlers.go and the buffers that its messages
--                       share, as a step relation over any type of bytes
--   Route/Tokens        TokenSubjectHandler and StatusPage
--   Route/Tables        src/route/routes.go, and the choice by mode of src/route/router.go
--   Route/Router        NewRouter of src/route/router.go and Logger of src/route/logger.go
--   Server              src/main.go, with Init of src/broker/webhook.go and of src/route/handlers.go:
--                       what a process starts, by its environment and its files
--   Tests               runs of the definitions, and the theorems at concrete inputs
--
-- Names are those of the source in small letters with underscores, so UpdateTopicHandler is
-- update_topic_handler. An operation that changes state takes the state and returns it. An error is
-- its message; the value that stands beside a non-nil error in Go is dropped where no caller reads
-- it. The clock, random texts and what other code answers are arguments. A map is an association
-- list, whose order no theorem depends on.
--
-- Bounds: a number is printed with fuel for 20 digits, and a 64-bit one has at most 19; every other
-- loop is structural, over the list of what it reads. The receiver's buffer holds 5242881 bytes, and
-- the text of a request is shorter, since net/http limits the headers to 1 MB; a poll holds the
-- batch size that it is asked for. A consumer gives up after four errors in a row.
--
-- Parameters, since their code is not part of the repository: SHA-1, URL parsing, JSON, YAML, gzip,
-- the ciphers, random bytes, key parsers and JWT library, a MongoDB collection, the Pulsar library,
-- and the HTTP client of the webhooks. A theorem on the recovery of the Pulsar table takes that the
-- JSON coder decodes what it encodes, one on keys that the digest tells texts apart, and those on
-- MongoDB and on ciphers take the laws that their records name.
--
-- The number of calls of the Pulsar library makes its answers a function: the n-th call happens at a
-- time and has a result, both any. The producers of src/pulsardriver are kept in an expiring cache,
-- whose callback closes the object that leaves it. A retry of SendToPulsar uses up one of the retries
-- that are left, whose number is the fuel.
--
-- In Broker/System, a run of the timer is taken apart: each start of a loop and each call of
-- cancelConsumer is a step, and a loop subscribes in one step and enters its channel in a later one. A
-- call of cancelConsumer, which takes a lock twice, is one step. The steps leave out the schedules in
-- which a key is cancelled between the subscription of a loop with that key and the entry of its
-- channel; nothing in the code excludes them.
--
-- An error of a library does not say that nothing was done. The MongoDB collection may have written
-- before it fails; a send to Pulsar that comes back with an error may have been stored, and the model
-- counts acknowledgements and lists the messages that the broker has confirmed.
--
-- Not modelled: log lines, the number of threads, CORS, the TLS listener and
-- GetTokenRemainingValidity, which only a test calls. The router of gorilla/mux, the agent that debugs
-- the process, flag.Parse, time.ParseDuration and the MongoDB client are parameters. Operations of the
-- caches are taken one after the other, as their locks make them, but for Cache.Get, whose two halves
-- are apart. Operations of the databases are taken one after the other as well, although src/db does
-- not lock for requests: in-memory.go has no lock, and pulsardb.go takes its own only in dbListener.
pub mod Prelude
pub mod Strings
pub mod Platform
pub mod Model
pub mod Util
pub mod Db
pub mod Broker
pub mod Driver
pub mod Crypto
pub mod Middleware
pub mod Route
pub mod Server
pub mod Tests

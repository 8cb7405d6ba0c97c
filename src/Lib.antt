-- ===== src/Lib.antt =====
-- chitchat: a mock responder and spy for message brokers.
--
-- The program reads a YAML configuration (pkg/config), connects to a broker (pkg/broker) and runs
-- an engine (pkg/engine): each message that comes from a consumed queue is recorded in the spy's
-- ring buffer (pkg/spy), matched with the rules of the configuration, and answered by a rendered
-- payload for each rule that it matches. The engine is reloaded with a new configuration while it
-- runs.
--
-- Which file models what:
--   Base                 lists, texts, maps, integers and decimal numbers that the parts share
--   Value                the dynamic values (interface{}) with fmt.Sprint and reflect.DeepEqual
--   Libraries            gjson, encoding/json, text/template, net/url, strconv.Quote, the reading of
--                        durations and the case folding of package unicode, as one parameter
--   Config/Types         pkg/config/config.go: the structs
--   Config/Defaults      pkg/config/config.go: DefaultConfig, LoadConfig, ParseConfig,
--                        ApplyOverrides; the YAML decoder is a parameter
--   Config/Validate      pkg/config/validate.go: Validate; Config/Texts has the texts
--   Config/Warnings      pkg/config/validate.go: Warnings; with Routing (responseReachesQueue),
--                        Topic (topicMatches) and Dedupe (dedupe)
--   Broker               pkg/broker/driver.go: Message and the interface Driver, as a record of
--                        operations on a state
--   Spy/Ring             pkg/spy/server.go: RingBuffer; with Filter (Filter.matches) and Headers
--                        (normalizeHeaders)
--   Spy/Wait             pkg/spy/server.go: waitForMessages, in turns that other calls come between, and
--                        its timer, by the time of each event since the wait began
--   Spy/Params           pkg/spy/server.go: splitKV, parseFilter
--   Spy/Server           pkg/spy/server.go: the handlers, as functions from a request to an answer,
--                        and parseTimeout
--   Engine/Matcher       pkg/engine/matcher.go
--   Engine/Queues        pkg/engine/engine.go: desiredQueues
--   Engine/State         pkg/engine/engine.go: Engine, NewEngine, RuleStats
--   Engine/Lifecycle     pkg/engine/engine.go: Start, Reload, Stop
--   Engine/Handle        pkg/engine/engine.go: handleMessage, dispatch; Snapshot has handleMessage
--                        turn by turn, with calls of Reload between its turns
--   Engine/Workers       pkg/engine/engine.go: processLoop, the goroutines of dispatch and the callers
--                        of Start, Reload and Stop, in any order of their steps
--   Engine/Template      pkg/engine/template.go: the rewriting of templates, transformPayload,
--                        RenderPayload, ValidateTemplates, random_int and json
--   Broker/Mock          pkg/broker/mock_driver.go
--   Broker/RabbitMq      pkg/broker/rabbitmq.go; the AMQP client is a parameter. Consumer has the
--                        goroutine of StartConsuming, in steps
--   Logger               pkg/logger/logger.go: InitLogger
--   Spy/Listener         pkg/spy/server.go: NewServer, WithHost, the hooks, Start, Stop, the routes
--   Main/Check           cmd/chitchat/main.go: loadConfig, checkConfig, runValidate
--   Main/Reload          cmd/chitchat/main.go: reloadConfig
--   Main/Failures        the texts of the errors of loadConfig, checkConfig and reloadConfig
--   Main/Process         cmd/chitchat/main.go: the process while it serves: the engine's goroutines and
--                        the requests to the spy server, with the hooks that runChitchat sets
--   Main/Run             cmd/chitchat/main.go: runChitchat, from the result of loadConfig to its return
--   Main/Command         cmd/chitchat/main.go: main, the commands and the exit status
--   Main/Version         cmd/chitchat/main.go: init and the command version
--   Tests                runs on sample data, and an instance of each result
--
-- State is passed explicitly: an operation takes the state and returns the new one with its error.
-- A method that holds a lock during its whole run is one step; handleMessage is one step as well.
-- A goroutine that handleMessage starts is a `Job` of the engine's state. Texts are lists of code
-- points, a Go map is an association list in one of the orders in which Go may range over it, int is
-- an unbounded integer, but in random_int, where it wraps around at 64 bits like the counters (int64,
-- uint64) everywhere. The clock and the random source of templates are a number that is passed along.
--
-- Fuel: rewriteAction and the replacement of regular expressions take the length of the text as
-- fuel, and each turn uses up at least one character; itoa takes a number above the one it prints.
--
-- Not modelled: how cobra reads a command line, the log records but for warnings, the JSON of the spy
-- server's answers, and the functions of templates that read the clock or a source of uuids. In
-- Engine/Workers and Main/Process the engine's goroutines take turns at the grain of their calls:
-- handleMessage, dispatch and a request to the spy server are one step each; a request that waits for
-- messages takes its step when it looks at the buffer for the last time (its turns are in Spy/Wait).
-- Requests that come before runChitchat has set the hooks are left out.
pub mod Base
pub mod Value
pub mod Libraries
pub mod Config
pub mod Broker
pub mod Spy
pub mod Engine
pub mod Logger
pub mod Main
mod Tests

-- ===== src/Lib.antt =====
-- Verification library of chik, a framework for networks of IoT devices (Go). An application runs a
-- controller, which owns a publish and subscribe broker and a set of handlers; a remote connects a
-- controller to a peer over a byte stream; a server relays messages between peers by a router for
-- each connection.
--
-- Conventions. Numbers are native naturals; a machine integer keeps its bound as a hypothesis or
-- its wrap-around written out. A uuid is the number of its 16 bytes. A method of a handler is a
-- function from its state and a message to its new state, what it publishes, and whether it
-- returned an error or panicked. JSON is modelled by the value that a text denotes; number literals
-- are abstract (Json.Numbers), and so is the text of a command on the wire (Messaging.Codec, whose
-- laws are those of encoding/json: nil data of a command is written as null and read back as such).
-- Third-party brokers, buses and clocks are arguments.
--
-- Files and what they model:
-- - Prelude: shared types, tests, lists, integers, dictionaries (Go maps) and results.
-- - Json, Json/Struct: encoding/json on maps and structs, as the handlers use it.
-- - Types/Command: types/commands.go and types/commandtype_string.go; Names has the topic names,
--   Decoding the command structs.
-- - Types/Time: TimeIndication and its comparison, types/types.go. Calendar and Layouts are the
--   parts of Go's time package (of Go 1.20) that it uses, Parsing has the texts of times; Rereading
--   and Clocks are about texts that were written, Daily about the times of the day.
-- - Messaging: messaging.go (Message, ParseMessage, Bytes); Bytes has the big-endian numbers,
--   Framing the round trip, Progress the input that a read uses up.
-- - Controller: controller.go (Pub, Reply, topicsAsStrings, runHandler, executeHandler); Publishing
--   says which subscribers a publication reaches, Running and Restarts how a handler's methods are
--   called. The schedule of the select is the list of inputs; the list of starts is the number of
--   times that the handler is started, so both end and need no fuel. Shutdown has the goroutines of
--   all handlers and the wait group as steps; Runs and Ending are about the runs of a handler and
--   the return of Start.
-- - Remote: remote.go (send, receive); Delivery and Receiving. The receiver's rounds are the loop's
--   iterations before its context is cancelled; one round more than a 36th of the input is enough
--   for it to end by itself.
-- - Router: handlers/router/router.go; Registration is about the table of peers, Forwarding about
--   where messages go.
-- - StatusHolder: handler.go, the status of a handler and when it is published.
-- - Heartbeat, Version: the handlers of those names.
-- - Status: handlers/status/status.go; Subscribing is about the subscribers, Updating about the
--   updates.
-- - Actor: handlers/actor. Compare and Query have compare.go and query.go, over an evaluator of
--   expressions as an argument (the gval library); Language has the functions that they have
--   besides, and Durations the time.ParseDuration of Go 1.20; Decoding and Encoding the JSON forms;
--   Handler is actor.go. Comparing, Firing, Editing and Rewriting are about comparisons, the firing
--   of actions, their edits, and their JSON.
-- - Io: handlers/io. Bus is the interface with its contract, Soft the soft bus; Devices, Status,
--   Equality and Handler are io.go. Softly shows the contract for the soft bus; Remembering,
--   Keeping, Dispatching and Switching are about the memory of buses and the commands. Teardown has
--   the listeners that pass the changes of the buses on, as steps on the channel of the handler (of
--   5 places, as in the source), and what Deinitialize does to them; Counting and Waiting are about
--   the end of the wait. Typing says that the values of soft devices have the types of their kinds.
-- - Io/Platform: handlers/io/platform. A bus of any kind is a sum of the kinds; Choosing shows for
--   it what the handler relies on, Polling that the loops of the buses keep it, and Running is the
--   handler of a platform from its New on, as a relation of its steps.
-- - Io/Modbus: handlers/io/bus/modbus/modbus.go; Polling is the bus with its poll and its writes;
--   Registers is about the bits of a register, Grouping about the groups of a poll.
-- - Io/Mapped: buses that keep their devices in a map, with the methods of a device as a record;
--   Local shows the contract for any of them, and Io/Contract for the soft, Unipi, 1-wire and
--   Modbus buses.
-- - Decimal, Words: strconv.Itoa and ParseInt, strings.Split and Join, as the source uses them.
-- - Io/Unipi: handlers/io/bus/unipibus/unipibus.go; Fading is about the fades of a pwm output,
--   Files about what is written and read back, Onboard about the bus and its poll. A fade has as
--   many rounds as its ends lie apart.
-- - Io/Gpio, Io/W1: handlers/io/bus/gpiobus/gpiobus.go and handlers/io/bus/w1bus/w1bus.go; Levels
--   is about the pins, Sensing about the text of a thermometer.
-- - Io/Snapcast: handlers/io/bus/snapcast/snapcast.go; Addressing is about the identifiers of its
--   devices, Volumes about their methods, Clients about the loop that asks for the clients,
--   Requests about a request over a connection that may be lost (two tentatives, as in the source).
-- - Heating: handlers/heating/heating.go; Regulating is about its commands.
-- - Config: config/config.go; Keys is about Get and Set, Paths about the files. Config/Tls:
--   config/tls.go, over an argument for tokens, certificates, the authority and the file system;
--   Pairs is about the two files of a client.
-- - Snapcast: handlers/snapcast. Structs has structs.go, Requests the connection and the requests,
--   Events the commands and the notifications; Restoring and Streams are about a new connection and
--   a change of a stream.
-- - Telegram: handlers/telegram/telegram.go; Switching says who switches what.
-- - Badge: handlers/badge; Framing is about the frames of the reader. Its loop runs for a given
--   number of rounds, one for each frame.
-- - Datetime: handlers/datetime/datetime.go; Sun is about the date that the times of the sun belong
--   to.
-- - Systemd: handlers/systemd/systemd.go; Units is about the calls that a request leads to.
-- - Tests: test runs, and an instance of each theorem.
--
-- Not modelled: logging, deadlines of connections, the broker's buffers (a publication is delivered
-- or, if a buffer is full, dropped), the goroutines that only start another, two fades of one pwm
-- output at the same time, the set-up of a serial line and the worker of the Modbus bus beside its
-- handler, the generated D-Bus client of handlers/systemd, and when the ca library renews a
-- certificate.
pub mod Prelude
pub mod Json
pub mod Types
pub mod Messaging
pub mod Controller
pub mod Remote
pub mod Router
pub mod Tests
pub mod StatusHolder
pub mod Heartbeat
pub mod Version
pub mod Status
pub mod Actor
pub mod Io
pub mod Decimal
pub mod Words
pub mod Snapcast
pub mod Telegram
pub mod Badge
pub mod Datetime
pub mod Systemd
pub mod Heating
pub mod Config

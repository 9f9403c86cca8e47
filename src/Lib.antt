-- ===== src/Lib.antt =====
-- haigosmart replaces the cloud service of Aigo light bulbs: the bulbs connect to it over MQTT, it
-- keeps a registry of them, and a terminal and Home Assistant command them through one service. This
-- library models the core of the Go program as functions and proves what makes it correct. The parts
-- and their files, with the paths of the sources from the repository's root:
--
-- - Base: names shared by all parts: Boolean tests, lists, Go strings as byte lists with the functions
--   of package strings that the program calls, maps as association lists, Go's (value, error) as
--   Result, and Go's int.
-- - Protocol: internal/protocol. Wire (mqtt.go: ReadPacket, Encode, readVarint, appendVarint, readString,
--   appendString), Connect (DecodeConnect, EncodeConnect, CONNACK), Publish, Subscribe, and Alink
--   (alink.go, capabilities.go: identities, property reports, ChangedProps). A reader is the list of
--   the bytes that are still to come.
-- - Bulb: internal/bulb (bulb.go, state.go).
-- - Registry: internal/registry/registry.go. Registry has one function per method; Registry.Operation
--   has the methods as data, so that a history is a list, and the lifecycle of a status as a relation;
--   Registry.Resolve has List and Resolve. Registry.Persist is internal/registry/persist.go: Load and
--   the file that save writes; Persist.Store, where a step is what one of the concurrent calls of the
--   store does between two holds of a lock; Persist.Write, the system calls of the atomic write.
-- - Events: internal/events (bus.go, event.go). A subscriber's channel is a list with a capacity, and
--   each select of offer is a step. Events.Display has the texts of the terminal, Events.Record the
--   log record.
-- - Lights: internal/lights (service.go, errors.go). A driver's Apply is an argument.
-- - Control: internal/control (parse.go, execute.go, help.go): the terminal's commands.
-- - Settings: internal/config/config.go. Flags has the settings and their environment variables, Load is
--   Load, Checks is Validate and LogValue, Places how a flag writes through its pointer.
-- - Lamps: internal/config/lamps.go and declareLamps of cmd/haigosmartd/main.go.
-- - Daemon: cmd/haigosmartd/main.go: run from the settings to the listener, with the calls of Settings,
--   Registry.Persist and Lamps in its order, and run from what ends it to its error.
-- - Server: internal/server/server.go: takeovers, refusals, PSK suites.
-- - Listener: internal/server/server.go and tls.go: the accept loop, the goroutine of a connection and
--   the sniffing of TLS, which hand a connection to Session.Connection. Certificates has the server's
--   key and the certificates that it makes for the names that bulbs ask for.
-- - Session: internal/server/session.go. A step takes the server's shared state, the session and a
--   packet, and returns both with what was written, what was published and the error. It calls the
--   codec, Alink, the registry and the server. Session.Packets is handle and what it calls;
--   Session.Apply is the session as the driver that Lights calls: Apply and applyOne. Session.Serve is
--   serve from the registration on, over the bytes that the bulb sends, and Session.Connection serve as
--   a whole, with the handshake and a refusal.
-- - Mqtt: internal/mqtt/client.go, the client of the household's broker. It writes and reads with the
--   codec. Topic has the filters, Session a connection from its CONNECT to its end, Loop the read loop,
--   Backoff the waits of Run.
-- - Hass: internal/hass (topics.go, convert.go, command.go, capabilities.go, state.go, discovery.go,
--   bridge.go). The bridge takes events and the registry, publishes through the client, and applies
--   the commands that come back through Lights.
-- - TestBroker: internal/mqtt/mqtttest/broker.go: the broker that the tests of the client run against.
-- - TestBulb: internal/bulb/fakebulb/fakebulb.go: how the bulb that tests start opens a connection.
-- - Tui: internal/tui: the feed of lines (feed.go) and the recall of commands (model.go); Tui.Model has
--   every message and key of model.go, with the commands that run beside the loop.
-- - Examples: runs on concrete inputs.
--
-- Conventions. A byte is a number, and every reduction to a width of the source is written out as a
-- remainder. A time or a duration is a number of nanoseconds, and times do not run backwards; the zero
-- time is 0. A driver, which the source compares by identity, is a number. A range over a map runs in
-- the order of the list. Letters and white space are those of ASCII, while package strings knows
-- Unicode. An error is a constructor with its values in place of its text.
-- What the packages flag, crypto/tls, crypto/x509, crypto/rsa and net do is a record of functions that
-- the definitions take. What other connections do to the shared state between two packets of one
-- connection is an argument, `meanwhile`; the accept loop serves its connections one after another.
--
-- Loops. The variable-length integer is read in the source's four rounds; it is written by recursion
-- on the accessibility of <. DecodeSubscribe recurs on fuel, the length of the body, which is enough
-- because each round takes at least three bytes. The client's read loop and the loop of serve recur on
-- fuel, one more than the bytes there are, which is enough because a packet takes a byte at least. All
-- other loops are structural.
--
-- Not modelled: what encoding/json makes of a payload is an argument of the functions that use it;
-- sockets, deadlines and goroutines, so that a method under its mutex is one step; the texts of list,
-- info and replies; dialling, keep-alive timing and the goroutines of the broker client and the bridge,
-- whose operations are steps; the rendering of the terminal (internal/tui) and the editing of its
-- prompt, which a library does; logging, apart from the destination that the daemon chooses and the
-- record of an event; and the commands that the bulb of the tests obeys.
pub mod Base
pub mod Bulb
pub mod Control
pub mod Daemon
pub mod Events
pub mod Examples
pub mod Hass
pub mod Lamps
pub mod Lights
pub mod Listener
pub mod Mqtt
pub mod Protocol
pub mod Registry
pub mod Server
pub mod Session
pub mod Settings
pub mod TestBroker
pub mod TestBulb
pub mod Tui

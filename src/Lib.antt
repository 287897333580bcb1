-- ===== src/Lib.antt =====
-- The Go stack of the ST-8508 RFID reader: the Reader18 protocol, the SDK client that runs the
-- inventory, the ERP bot that turns tags into submitted drafts, and the terminal program that an
-- operator runs the reader with.
--
-- A reader sends a byte stream. The protocol (internal/protocol/reader18) cuts it into frames and
-- reads tags from them; the SDK (sdk) keeps the stream's unread end, the counters and the next
-- command; the bot (internal/gobot) normalises the EPCs of the tags, looks them up in its cache of
-- drafts and submits the hits to the ERP through a queue and workers. The terminal program
-- (internal/tui) finds and connects to a reader, runs an inventory of its own, and tells the bot
-- when it starts and stops and which EPCs are new.
--
-- * Reader18/ models internal/protocol/reader18/protocol.go. A byte is a natural number; where a
--   proof needs it to be below 256 it says so with All IsByte. crc16MCRF4XX is modelled bit by
--   bit (Reader18/Crc), BuildCommand with the wrap-around of its length byte (Reader18/Commands),
--   ParseFrames as rounds of its loop (Reader18/Frames), and the readers of inventory responses
--   with their errors as constructors (Reader18/Tags).
-- * Sdk/ models sdk/types.go and sdk/client.go: the inventory configuration (Sdk/Config), the events
--   and errors (Sdk/Events), and the client's state with one function per method that changes it
--   (Sdk/Client, Sdk/Receive, Sdk/Transmit, Sdk/Antenna, Sdk/Connect). The transport, the discovery
--   of readers and the clock are inputs: whether the transport is connected, what a send answered,
--   and which candidates a scan found. StartInventory and StopInventory give up the client's lock
--   on the way; what the other goroutines make of the client there is an input of theirs
--   (Meanwhile), and so is all that happens while StopInventory waits for the end of a run.
-- * Discovery models the scores, the probes and the host lists of internal/discovery/scanner.go, with
--   what a connection answers as an input.
-- * Gobot/Config models internal/gobot/config/config.go and dotenv.go, Gobot/Cache models
--   internal/gobot/cache/store.go, Gobot/Erp models internal/gobot/erp/client.go, and Gobot/Service
--   models internal/gobot/service/service.go.
--   Each method is one step on the state; what the ERP answers, the time and the order in which
--   Go walks a map are inputs. A set or a map is a list of keys. Gobot/Servers models the handlers of
--   internal/gobot/httpapi/server.go (Gobot/Servers/Http) and internal/gobot/ipc/server.go
--   (Gobot/Servers/Ipc): what the JSON decoder makes of a body and what the scanner answers are
--   inputs, a reply is a constructor or a record in place of its JSON. Gobot/Reader models the
--   manager of internal/gobot/reader/manager.go as steps of its callers and goroutines; the cancel
--   function that Stop calls behind its critical section is a step of its own.
-- * Tui/ models internal/tui: the state of types.go and model.go (Tui/Model), the functions on
--   texts of commands.go (Tui/Texts), and update.go: the connection plan (Tui/Plan),
--   connections and retries (Tui/Connect), what becomes of a scan and a connection
--   (Tui/Outcomes), the reader's frames (Tui/Frames), the tune screen (Tui/Tune), the actions
--   and keys of the screens (Tui/Actions, Tui/Keys) and Update itself (Tui/Update). The flat
--   struct of the source is grouped into records. A command that bubbletea runs is a value
--   that Update returns, its answer a later message; a call of the bot is put on a list.
--   Tui/Regions models internal/regions/regions.go. Parameters are the type of the bot's
--   counters, what the input field of bubbles makes of a key, and whether the transport is
--   connected.
-- * Prelude/ holds what the parts share: tests, lists, results, integers, texts, bits, key lists.
--
-- Loops without a bound in the source run on fuel: ParseFrames gets the length of the stream,
-- which is enough because each round takes at least one byte off; hostsFromPrefix gets the number of
-- the network's addresses; and the attempts of processSubmit are counted down as in the source.
-- Counters that are uint64 in Go are reduced modulo 2 ^ 64; int counters that only grow are natural
-- numbers.
--
-- Not modelled: sockets, HTTP, JSON, Telegram, how the terminal screens are drawn, the log lines of
-- the bot and waiting times, which are input and output or code of libraries; a lock is modelled by
-- taking the code under it as one step.
pub mod Prelude
pub mod Reader18
pub mod Sdk
pub mod Discovery
pub mod Tui
pub mod Gobot

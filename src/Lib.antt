-- ===== src/Lib.antt =====
-- Vikasa demo: a model of the simulator of roadside cabinets, of the sinks that load its events, and of
-- the generator, the checks and the tour of its deployment, with the theorems that make them correct.
--
-- A cabinet (cmd/cabinet-sim) ticks a fixed set of devices on one clock. The devices share one model
-- of the traffic and hand their events to an emitter, which publishes them to a local stream; a sink
-- reads such a stream and loads its events into tables, batch by batch. The file of a fleet is turned
-- into the files of its deployment; a tour of the running deployment reads that file again for the ports
-- of the simulators, runs scenarios there, and asks the database for their effects.
--
-- Base.antt and its children hold what the modules share: Boolean tests, maps as association lists,
-- lists, results with an error, texts split and joined at their dots, and the catch-up loop
-- `for !now.Before(next)` of the periodic device activities with its laws (Base/Every).
--
-- Sim.antt, internal/sim:
--   Sim/Emitter: emitter.go. Times are nanoseconds since the Unix epoch, Go's zero time is `none`,
--     and a device returns its new state with the list of events sent so far.
--   Sim/Runtime: the floats, the random generator and the order in which Go visits a map, which the
--     program takes from Go and the model takes as a parameter.
--   Sim/Demand: traffic.go, one step for each method; the mutex makes each of them one step.
--   Sim/Asc: asc.go. `sense` and `cycle` are the two halves of `Tick`, `advance_at` is advanceState by
--     its state, `catch_up` and `arrivals` are its loops. They take fuel: a phase lasts two seconds or
--     more, and where every headway is positive an arrival is at least one nanosecond after the last,
--     so that one unit of fuel for each nanosecond to catch up is enough.
--   Sim/Camera, Sim/Lidar: camera.go and lidar.go; Sim/Perception is what both have. The loop of
--     poissonDraw takes 2^32 units of fuel, one for each draw that its uint32 can count.
--   Sim/Incidents: the cameras and the lidar of a cabinet with the demand that they share.
--   Sim/Scenario: scenario.go. What time.AfterFunc runs later is a value, run by `clear_scenario`.
--   Sim/Publisher: publisher.go, the emitter that the devices have in a cabinet. The client of the
--     local stream is a parameter, which may change by itself and fail what it has taken over later;
--     what the stream keeps of it is not modelled.
--   Sim/Dms, Sim/Gateway, Sim/Reversible: dms.go, gateway.go and reversible.go.
--
-- Events.antt, internal/events:
--   Events/Subject: subject.go, the subjects of the events, written and read.
--   Events/Envelope: envelope.go, the envelope, its headers and its message. `message` is how a
--     publisher sends an envelope.
--   Events/Wire: what the two take from elsewhere (protocol buffers, SHA-256, Go's time format, the
--     headers of the message client), with the laws that they rely on. Events/Paper is an instance.
--
-- Sink.antt, internal/sink:
--   Sink/Decoder, Sink/Handlers, Sink/Registry: handlers.go over the getters of the generated protocol
--     buffers, a parameter.
--   Sink/Rows: registry.go. `Inserter` is the Go interface of this name, as a step on a database.
--   Sink/Batch, Sink/Loop, Sink/Bind: consumer.go. `process_batch` is processBatch, `turn` one turn of
--     the loop of runWithConn after its fetch, `run` a prefix of that loop for any sequence of fetches,
--     which is where a cancelled context leaves it. `bind_from` counts the attempts that bindStream has
--     left, from 60. `Storage` (Sink/Batch/Durability) is what the sink relies on of the database.
--   Sink/Shelf is a decoder and a database in memory, for the tests.
--
-- Fleet.antt, the fleet and its deployment:
--   Fleet/Size: internal/fleetsize. The environment is a function from names to values.
--   Fleet/Artifacts, Fleet/Cabinets, Fleet/Names, Fleet/Confs, Fleet/Seed, Fleet/Compose, Fleet/Output:
--     tools/gen-compose/main.go, from a fleet that is read and parsed to the files that are written.
--     `Format` (Fleet/Artifacts) is what it takes from Go: numbers in text, upper case, file names,
--     JSON and the execution of the template of the compose file; `Disk` (Fleet/Output) is the file
--     system, and `Readable` (Fleet/Output/Written) what is relied on of it. The small templates are
--     written out.
--   Fleet/Tour: internal/tour/fleet.go, the ports that the tour derives from the same file.
--   Fleet/Ports: the host ports, described once (`assign`), and their theorems; Fleet/Consistency has
--     what the compose file mounts and exports, as its template says it.
--
-- Verify.antt, internal/verify/checks.go:
--   Verify/Answers: the answers of ClickHouse as numbers, with Go's TrimSpace, Split and ParseInt.
--   Verify/Network: the HTTP round trip over a `Network`, which is a parameter, and code that talks to
--     it and ends with a value or with an error (`Live`).
--   Verify/Queries, Verify/Checks: the queries, the checks and their two runs. An error is told apart by
--     where it is made, without its whole text.
--
-- Tour.antt, internal/tour:
--   Tour/Queries, Tour/Stage, Tour/Phase, Tour/Phases, Tour/Table: queries.go, sim.go, exec.go and
--     phases.go, with the actions and assertions of the phases and their table. `Stage` is what a phase
--     reaches: the network, democtl, the clock and the context. Times to settle are in seconds, and a
--     text in quotes (`%q`) is not escaped.
--   Tour/Runs: runVerify and runPaced of tour.go. The standard input is the list of its lines.
--   Tour/Filter: FilterPhases of tour.go.
--
-- Cmd.antt, the programs:
--   Sim/Cabinet: cmd/cabinet-sim/main.go, the devices of a cabinet ticked one after the other
--     (`tick_all`) and the handler of /inject (`inject`).
--   Tour/Only: splitOnlyNames of cmd/democtl/main.go; Tour/Ai: internal/tour/ai.go.
--   Cmd/Cut: cut and restore of cmd/democtl/main.go, over a docker command that is a parameter, and
--     `Daemon` (Cmd/Cut/Undo) what is relied on of it; Verify/Docker: internal/verify/docker.go.
--   Cmd/Democtl: the other commands of cmd/democtl/main.go with their exit codes.
--
-- Ai.antt, the segment of the assistant, internal/ai:
--   Ai/Macros, Ai/Panels, Ai/Dashboard: verify.go, the macros of a query, the queries of the panels and
--     the check of a take. The loops over a query take as fuel its length, and each turn shortens it. `Bench` is
--     ClickHouse, JSON, the regular expressions and the escaping of URLs.
--   Ai/Grafana, Ai/Setup: client.go and setup.go over `Grafana`, the requests and the JSON of their
--     answers.
--
-- Not modelled: logs and what is printed for a presenter, dialling, flags and configuration, the time
-- that a flush takes, and the ClickHouse client (internal/sink/batcher.go), of which the sink only uses
-- that an insert stores its rows or fails. The programs of the sinks (cmd/central-sink and
-- cmd/federation-sink) read their environment and connect.
pub mod Ai
pub mod Base
pub mod Cmd
pub mod Events
pub mod Fleet
pub mod Sim
pub mod Sink
pub mod Tour
pub mod Verify

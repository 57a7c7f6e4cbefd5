-- ===== src/Lib.antt =====
-- OrcMesh: a monitor for Meshtastic LoRa networks, in Python and Qt. This library models the parts of
-- it that carry its own logic, and proves what they promise.
--
-- A radio delivers packets as dicts. The ingestor (src/meshchat/services/packet_ingestor.py) drops the
-- ones that it has seen, normalizes the others, keeps a snapshot per node, a list of recent packets and
-- rolling rates (src/meshchat/analytics/rolling_rates.py), queues rows on the store and announces each
-- change by a signal. The store (src/meshchat/services/monitor_store.py) takes these rows on a bounded
-- queue, from which one thread writes them to SQLite in batches; its schema is brought up to date when
-- it opens (src/meshchat/database/schema.py). The connection supervisor (src/meshchat/services/connection_supervisor.py) brings
-- a lost connection back. The map asks a tile server for tiles that it renders from packs and caches
-- (src/meshchat/services/orcmaps.py). A receiver's samples are recorded to a file and read back
-- (src/meshchat/services/iq_recorder.py), and the spectrum page marks the slots of a band plan
-- (src/meshchat/analytics/lora_bands.py, lora_airtime.py).
--
-- Files:
--   Prelude         names of the libraries, lists, dicts, texts and integers that the parts share
--   Model           the dataclasses of src/meshchat/models
--   Analytics       Rates, Hops and Classifier: the modules of src/meshchat/analytics of these names;
--                   Intel: the loop of packet_intel.analyse_packets
--   Ingest          Raw: the dicts that arrive; Dedup: _is_duplicate and _prune_dedup; Normalize:
--                   _coerce_portnum, _dedup_key, _normalize; Nodes: _update_node and
--                   _merge_telemetry_into_node; Samples: _handle_position and _handle_telemetry;
--                   Pipeline: ingest_raw and, in Pipeline/Seed, the seeding of the snapshots
--   Supervisor      ConnectionSupervisor; Settings, Retries and Outage hold its theorems
--   Capture         Recorder: IqRecorder.write; Replay: iter_capture_chunks
--   Radio           Bands and Plans: lora_bands.py; Airtime: lora_airtime.py
--   Store           Tables and Nodes: the statements that write a row; Items: what is queued, with its
--                   retries; Writer: the queue, _flush and the loop of the writer thread, and below it
--                   Log, Fates, Runs, Replay and Drain on whole runs; Reads: rows read back;
--                   Schema: schema.py
--   Tiles           Cache: TileCache; Pack: which packs serve a tile; Ppm: _parse_ppm_p6 and
--                   is_empty_render; Server: TileServer.render and the PNG encoder;
--                   Handler: do_GET of the request handler
--   Examples        the theorems at concrete inputs
--
-- Conventions. A method that changes an object is a function from the state before to the state after,
-- with what it returns; signals and writes to the store are a list of effects, in order. A call happens
-- at one reading of each clock. Monotonic times are milliseconds, wall times microseconds, coordinates
-- 10⁻⁷ degrees, frequencies Hz; the code has floats there. A dict entry that may be missing is a `Cell`:
-- absent, None, or a value. A value of a type that the code does not expect is told apart only where
-- the code tests for it; a `decoded` or `user` entry is a dict, None or missing. Loops follow their list; reading a capture back, and the header of an image,
-- are on fuel, and more fuel than there are bytes is enough. The retries of a write are on fuel 4, one
-- more than the retries allowed, and it never runs out. The writer thread is a step per turn of its
-- loop; a run interleaves turns with the calls of other threads in any order, and each turn brings the
-- failures of its statements with it. A table is a list in the order of its rowid, or a dict by its
-- primary key; a time is stored as its ISO text, and texts compare by code points.
--
-- Parameters: the PortNum table of the meshtastic package, SHA-256, the UTF-8 decoder, the parser
-- and the printer of ISO dates, the edges of a map tile in degrees, the tool that draws a tile, and
-- zlib's compress and crc32. No theorem assumes more of them than is written
-- among its hypotheses.
--
-- Not modelled: the user interface, the radio's library and its threads (the ingestor's locks guard
-- state that one thread changes), SQLite itself (of its files only the tables' contents are seen),
-- ordered reads of the store, subprocesses, files and the network, and floating-point
-- statistics.
pub mod Prelude
pub mod Model
pub mod Analytics
pub mod Capture
pub mod Ingest
pub mod Supervisor
pub mod Radio
pub mod Store
pub mod Tiles
pub mod Examples

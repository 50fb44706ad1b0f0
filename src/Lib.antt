-- ===== src/Lib.antt =====
-- satel_integra is an asynchronous client of the integration protocol of SATEL INTEGRA alarm panels,
-- over the ETHM-1 Plus (TCP, plain or encrypted) or INT-RS (serial) modules. The client sends requests
-- to an actor, the communication worker, that alone owns the connection: it frames the requests by the
-- codec, waits for each answer, and hands what the panel sends by itself to the state worker, which
-- parses it and updates a shared cache, telling subscribers what changed.
--
-- The files, and the source that each models:
--   Common         numbers, lists and options, Boolean tests with their lemmas, tests over ranges, maps
--                  as association lists, and steps that may panic
--   Error          src/error.rs: SatelError and results; ? is the operator >>=
--   Command        src/command.rs: SatelCommand and SatelResult with their bytes
--   Codec          src/codec.rs: calculate_crc, SatelCodec::encode and SatelCodec::decode
--   Parsers        src/parsers: parse_bit_states and the mask parsers built on it, the temperature
--                  answer, the two version answers, the report on the push configuration, the clock;
--                  Parsers/Names is src/parsers/names.rs; what encoding_rs makes of a name is a parameter
--   Catalog        src/zone_catalog.rs, src/output_catalog.rs, src/partition_catalog.rs and
--                  src/trouble_catalog.rs: the codes of reactions, functions and types with their tables,
--                  OutputFunction::control, PartitionOptions, AutoArmDeferTimer and DependentPartitions,
--                  the keys and addresses of troubles with their table
--   Config         src/config.rs: Config, its defaults, Config::validate and its queries
--   State, Event   src/state.rs and src/event.rs: the cached zones, partitions and outputs, events
--   Troubles       src/parsers/system.rs: Troubles/Rules is get_rules, Troubles/Custom the decoders that it
--                  names, Troubles/Decode decode_troubles, Troubles/Frames process_troubles_frame with
--                  its twelve parsers, Troubles/Types and Troubles/Parts their data from src/state.rs
--   Cache          src/client_internal.rs: the seventeen update_..._internal functions that write a
--                  mask of flags to the cache, with update_items over a slot as their common loop;
--                  Cache/Status the status and the versions, Cache/Troubles update_troubles_internal
--   Telemetry      src/state.rs: ConnectionTelemetry, its statistics and its reset
--   Worker         src/worker.rs: SatelCommunicationWorker. Worker/Exchange is
--                  satel_connection_worker_exchange, Worker/Connect the functions of an attempt to
--                  connect, Worker/PushMask the push configuration, Worker/Backoff the wait between
--                  attempts, Worker/Loop the branches of run_loop, Worker/Steps the relation that
--                  orders them; the other files of Worker hold proofs
--   PushHandler    src/auto_requester.rs: SatelAutoRequester::handle_auto_frame, which joins the parsers
--                  to the updates of the cache; the arms for masks and result codes are in the file
--                  itself, the others in PushHandler/Frames
--   Temperature    src/client.rs and src/client_internal.rs: get_zone_temperature and what it does to a
--                  probe; the file itself has the changes of one zone, Temperature/Calls the calls, and
--                  Temperature/Probes what a probe is meant to do, told apart from the cache
--   Encryption     src/encryption.rs: derive_aes_key, SatelAesCipher, encrypt_data and decrypt_data;
--                  Encryption/Stream is EncryptedStream. AES-192 is the crate aes: its block functions
--                  are a parameter, and where a theorem needs it, that decrypting a block undoes
--                  encrypting it is a hypothesis
--
-- How the code is read. A function that changes the shared state takes it and returns it. Bytes are
-- numbers, and their bounds are hypotheses where a theorem needs them; wrap-around of counters is
-- written out. A lock that is taken and released within a function is left out. The outside world is
-- an argument: for an exchange, what the write and each read came to; for an attempt to connect,
-- whether the line was opened; for every handler, one reading of the clock, in nanoseconds. So each
-- list of reads is one behaviour of the panel and of the timeouts, and the theorems hold for all of
-- them. Messages to the state worker and written frames are lists that grow at the end. A panic of an
-- index out of range is the result none.
--
-- The decoder's loop runs on fuel, the length of its buffer and one more; each round drops at least a
-- byte, and it is proved that the fuel does not run out. The loop over encrypted packets runs on two
-- units more than the raw buffer has bytes, which is proved to be enough likewise. All other loops are
-- structural: reading ends where the list of reads ends, which is where read_timeout has passed.
--
-- Not modelled: the other messages of src/auto_requester.rs, the other calls of src/client.rs, the
-- caches of names and parameters, and the polling worker. The transports, tokio's channels and timers,
-- and logging are I/O and stay outside.
pub mod Common
pub mod Catalog
pub mod Codec
pub mod Command
pub mod Error
pub mod Parsers
pub mod Config
pub mod State
pub mod Troubles
pub mod Event
pub mod Cache
pub mod Telemetry
pub mod Worker
pub mod Encryption
pub mod PushHandler
pub mod Temperature

-- ===== src/Lib.antt =====
-- VantaCore Engine: memory forensics for dumps of DRAM, ELF64 core files and images of network
-- appliances. This library models its core, in vantacore_engine/ of the repository: a dump is
-- read through a translation backend, extractors run over it in the order of their dependencies,
-- and addresses go to worker processes through a ring buffer in shared memory.
--
-- Conventions. Bytes, addresses and sizes are the native natural numbers, and a field of w bytes
-- is below 256 ^ w where the bytes of the dump are (`IsBytes`); no address in the modelled code
-- is negative, since each is unpacked as unsigned or counted up from one that is. A mask is
-- written as a remainder and a quotient by a power of two. A Python exception is the `raise` of
-- `Prelude.Result`; `None` is the `none` of `Option`. A read of the dump after a seek is a slice
-- of its bytes. Log messages are left out.
--
-- The files, each with the code that it models:
--
-- - Prelude (and Prelude/): numbers, lists, counts of occurrences, options, exceptions.
-- - Bytes: byte strings of Python, `find`, `startswith`, slices and `struct.unpack_from`.
--   Bytes/Laws and Bytes/Fields have their laws.
-- - Ring: core/scanner/ring_buffer.py, `SharedMemoryRingBuffer`. The shared segments are
--   `Segment`, what a process has of its own is `Handle`; `create` and `attach` are the two
--   sides of `__init__`, `enqueue` and `dequeue` the parts of `put` and `get` under the lock;
--   these are single steps only among processes that take one lock, `lock` of the handle, which
--   the source does not see to. Ring/Inv has the invariant, Ring/Queue the specification,
--   Ring/Refine the refinement, Ring/Trace the executions of any number of processes.
-- - Paging: core/backends/x86_64.py, `X86_64TranslationBackend`. `walk_pml4` and
--   `walk_directory` are `_walk_pml4`, `read_phys_u64` is `_read_phys_u64`, `scan_kaslr_base`
--   and `scan_pages` are `_scan_kaslr_base`, `read_pages` is the loop of `read_virtual`;
--   Paging/Namespace is the parsing of the namespace identifier. Paging/Walk has the relation of
--   the page tables, Paging/Page the addresses of one page, Paging/Reference virtual memory byte
--   by byte, Paging/Read the reading, Paging/Kaslr the scan for the kernel base. The scan has a
--   round for each page below its limit, and the loop of `read_virtual` a round for each byte at
--   most.
-- - FlatImage: core/backends/flat_image.py, `FlatImageBackend`.
-- - Architecture: core/backends/detector.py, `ArchitectureDetector`, and the two backends as one
--   type.
-- - Dag: extractors/base.py, `ExtractorDAGExecutor.__init__` and `_resolve_dag`. Names are
--   numbers, a dictionary over the names of the extractors is a function. `keys_from` gives the
--   keys in order of insertion, `add_extractors` fills `in_degree` and `dependents`, `kahn` is
--   the `while` loop, with a round for each key, and `select` maps the names back. Dag/Edges,
--   Dag/Degrees, Dag/Rounds, Dag/Keys and Dag/Waiting lead to the theorems of Dag/Order.
-- - Executor: extractors/base.py, `ExtractorDAGExecutor.execute`, over a parameter for what the
--   extractors do. Executor/Status says where each extractor is entered, Executor/Isolation whom
--   a failure reaches.
-- - Appliances: core/backends/appliances/. Appliances/Pattern is the method `_scan_bytes` that
--   three classes hold word for word (`scan_loop` is its loop, with a round for each byte and
--   one more: a round moves on by a byte at least), Appliances/CiscoIos, CiscoIosXe and CiscoAsa
--   are the detectors of these files, Appliances/Registry is registry.py with generic_flat.py. A
--   score of 0.65 is 65. Appliances/Chunks has the search in chunks, Appliances/Threshold what
--   the detectors claim, Appliances/Best the choice of the registry.* Worker:
--   core/scanner/worker.py. `process_address` is `_process_address`, `round` is a round of the
--   first loop of `scanner_worker_main`, `drain` the second. Worker/Main is that function as a
--   whole, with the addresses that another process offers between its rounds; the drain has a
--   round for each slot and one more, and the ring holds fewer addresses than slots.
--   Worker/Service has the worker from its start to its end. Worker/Candidates has the numbers
--   that an address gives, Worker/Drain the emptying of the ring.
-- - Coordinator: core/scanner/coordinator.py, `ScannerCoordinator`, with a definition for each
--   method; `launch` and `put_to` are parts of `start` and `submit`. Coordinator/Inv and
--   Coordinator/Limit have one check of the workers, Coordinator/Trace any sequence of calls,
--   Coordinator/Pipeline the way from `submit` to the results.
-- - Table and Db: core/db.py, `SQLiteWALStateManager`, a definition for each method; `connect`
--   is `__init__`; `tables` is what the connection sees and `committed` what the file holds, and
--   a close loses the rest. Table has the rows of a table of SQLite with INSERT OR REPLACE and
--   INSERT OR IGNORE, Db/Refine the database as four maps, Db/Session what a later session
--   finds.
-- - Audit: core/audit.py, `ForensicAuditTrail`; `open_trail` is `__init__` and `add_record` is
--   `record`. Audit/Chain has the chain of signatures, Audit/Collisions what two logs with one
--   last signature have in common.
-- - Hooks: core/hooks.py, `HookFramework`. Hooks/Laws has what an event reaches.
-- - Progress: core/progress.py, `ProgressEventBus`. Progress/Rate has its limit.
-- - Validation: utils/validation.py, `InputValidator`; `hash_chunks` is the loop of
--   `compute_sha256`, with a round for each byte at most and one for the end. Validation/Laws
--   and Validation/Hashing have the theorems.
-- - Entropy: core/entropy.py, `EncryptedMemoryDetector`; `sample_pages` is the loop over 64
--   places, `read_msrs` the loop over a note, with a round for each byte at most.
--   Entropy/Sampling has the verdict.
-- - Extractors: extractors/generic/keys.py, extractors/linux/network.py and
--   extractors/linux/process.py: `run` of each, with `scan_windows`, `scan_sockets` and
--   `carve_places` for the inner loops and `walk_list` for the walk of the task list, whose fuel
--   is its cap of 500,000 and one. Extractors/Chunked is the loop over chunks that they share,
--   with a round for each byte at most and one more. Extractors/Keys/Flat has the scan without
--   chunks, Extractors/Network/Sound what is reported, Extractors/Process/Carving the rest of
--   process.py, Extractors/Process/Walking its walk, Process/Fuel that it does not hang on its
--   fuel, Process/Tally and Dkom its report. Extractors/Modules is linux/modules.py, with its
--   cap of 500,000 as fuel, Modules/Fields the fields of a module, Modules/Names the names that
--   its walk keeps, Modules/Hidden and Carving its report.
-- - Cli: cli.py, `_cmd_detect` up to its result; `detect_dump` is what it does with the file.
--   Cli/Commands has what it says of a dump.
-- - Cisco: extractors/cisco/, each with `run` and the loop over the chunks of 64 KB.
--   Extractors/Patterns is the search loop that all of them have, with a round for each byte of
--   the chunk at most and one more; its children say what a search keeps, and that what stands
--   in a chunk stands in the dump. Extractors/Text has what they use of Python's strings,
--   Text/Addresses what an address is, Extractors/Keyed their sets of keys. Cisco/Secrets is
--   what Cisco/Snmp and Cisco/Vpn share, common/snmp_config.py and asa/vpn_sessions.py.
--   Cisco/History is common/cli_history.py: History/Matches has the commands that are found,
--   Sorting and Clusters what becomes of them. Cisco/Lina is asa/lina_process.py, whose notes
--   are those that elftools finds, Cisco/Processes is ios/ios_processes.py, Cisco/Config
--   ios/running_config.py, Cisco/Routes ios/routing_table.py, with its texts and masks in
--   Routes/Texts and Mask, Cisco/Connections asa/conn_table.py, Cisco/Acl asa/acl_rules.py, with
--   the words of a rule in Acl/Rules, and Cisco/Firmware the version that the ASA extractors
--   report.
--
-- Not modelled: _cmd_verify and _cmd_scan of cli.py, which put the parts together, and its
-- console output and argument parsing; core/logging_config.py (calls of the logging library);
-- utils/decompression.py (calls of the compression libraries, and one function that only
-- raises); extractors/generic/strings.py (runs a program); scripts/ (a check of licences); the
-- discovery of classes by importing modules (import machinery). The hashing library, elftools
-- and the entropy of a page in floating point are parameters.
pub mod Prelude
pub mod Bytes
pub mod Paging
pub mod FlatImage
pub mod Architecture
pub mod Dag
pub mod Executor
pub mod Appliances
pub mod Worker
pub mod Coordinator
pub mod Table
pub mod Db
pub mod Audit
pub mod Hooks
pub mod Progress
pub mod Validation
pub mod Entropy
pub mod Extractors
pub mod Cli
pub mod Ring

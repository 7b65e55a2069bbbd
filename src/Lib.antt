-- ===== src/Lib.antt =====
-- Verification of the workload collocation agent (wca), a Python daemon that measures
-- collocated tasks, lets an allocator plugin decide on resources, and applies the decision
-- through cgroups and the resctrl filesystem.
--
-- Parts and files. Each part is a module; its children hold the proofs.
-- * Rdt/Schemata models _parse_schemata_file_row of wca/resctrl_allocations.py.
-- * Rdt/Mask models check_cbm_mask and _count_enabled_bits of the same file, Rdt/Domains
--   _validate_domains and validate_l3_string, Rdt/Bandwidth normalize_mb_string and
--   _normalize_mb_value.
-- * Rdt/Allocation models RDTAllocationValue and RDTGroups with validation, Rdt/Changeset
--   calculate_changeset and _is_rdt_suballocation_changed, Rdt/Perform perform_allocations
--   and the dictionaries of wca/allocations.py that iterate over the tasks.
-- * Allocations models AllocationsDict.calculate_changeset and BoxedNumeric of
--   wca/allocations.py, over an interface of values that a dictionary implements again.
-- * Numa models NUMAAllocator of wca/extra/numa_allocator.py: Numa the scores of the nodes,
--   Numa/Choose the analysis that chooses a task and a node, Numa/Allocate the allocations
--   made of it.
-- * Scheduler/Filter models BaseAlgorithm.filter of wca/scheduler/algorithms/base.py, and
--   Scheduler/Hierbar the second pass of HierBAR, with the merging of shapes and, in
--   Scheduler/Hierbar/Capacities, the variance of a class, in
--   wca/scheduler/algorithms/hierbar.py.
-- * Scheduler/Resources models the resource arithmetic of that base.py, and Scheduler/Fit
--   the functions app_fits and Fit.app_fit_node of wca/scheduler/algorithms/fit.py.
-- * Resctrl models the groups of wca/resctrl.py and the default rows, which Rdt validates.
-- * Static models wca/extra/static_allocator.py.
-- * Runner models the decision of AllocationRunner._iterate_body in
--   wca/runners/allocation.py.
-- * Cgroups models set_shares, set_quota and build_cpu_to_socket_mapping of wca/cgroups.py,
--   and _migrate_pages of wca/cgroups_allocations.py.
-- * Listformat models decode_listformat and encode_listformat of wca/platforms.py, and
--   Listformat/Values the list-format values of wca/cgroups_allocations.py, which implement
--   the interface of Allocations.
-- * Scheduler/Simulator models the tasks, the nodes and the assignments of
--   wca/scheduler/cluster_simulator.py, and Scheduler/Simulator/Iterate one iteration over
--   the interface of a scheduling algorithm.
-- * Metrics models wca/metrics.py: Metrics/Names the enumerations, Metrics/Table the table
--   METRICS_METADATA in parts, Metrics/Tree the measurements, Metrics/Merge
--   merge_measurements, Metrics/Derived the generator of derived metrics and the operations
--   on leveled dictionaries, Metrics/Export the export of measurements as metrics.
-- * Perf models the derived metrics of wca/perf.py and wca/perf_uncore.py, as the functions
--   that Metrics/Derived takes.
-- * Containers models ContainerManager.sync_containers_state of wca/containers.py, whose
--   actions on the system may each raise, and Containers/Measured the measurements of the
--   containers, which it merges with Metrics/Merge.
-- * Measurement models parts of wca/runners/measurement.py: Measurement/Uncore the uncore
--   events of the configuration, Measurement/TasksData the labels and the data of the
--   tasks.
-- * Wss models the working set size measurement of wca/wss.py as a state machine, which
--   raises where the interval is 0 and a rate is to be logged.
-- * Base holds what the parts share: tests on numbers, lists, texts as lists of code
--   points, dictionaries as association lists in insertion order, the errors of the Python
--   code as values, integers, and numbers as exact fractions.
--
-- State and errors. An object that the code mutates, such as RDTGroups, is a record that
-- the operations take and return. A raised exception is the result err of Outcome; calls of
-- the operating system are recorded as values in the order of the code.
--
-- Bounds. Python integers are unbounded and so are the numbers of the model. The quotient
-- under math.ceil is taken as exact, which floats satisfy below 2^53. Scores and thresholds
-- that the code computes in floating point are functions given to the model, or exact
-- fractions. Every loop of the source runs over a finite list and is structural recursion;
-- the recursion over the levels of a metric runs on their number, counted down. The set of
-- metric names in merge_measurements is taken in the order of first appearance.
--
-- Not modelled: the packing of an uncore event into its config field, requested resources
-- that are texts, file access and system calls, the reading of perf counters, metrics
-- storage, Mesos and Kubernetes clients, logging, configuration loading.
pub mod Allocations
pub mod Base
pub mod Cgroups
pub mod Containers
pub mod Listformat
pub mod Measurement
pub mod Metrics
pub mod Numa
pub mod Perf
pub mod Rdt
pub mod Resctrl
pub mod Runner
pub mod Scheduler
pub mod Static
pub mod Wss

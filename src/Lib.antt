-- ===== src/Lib.antt =====
-- The Python tools of the repository: they deploy a geo-distributed database, run benchmarks
-- on it and watch it. The development models the tools' own logic; what Kubernetes, Helm, AWS,
-- MinIO, the prompts and the file system answer comes in as values or as functions.
--
-- The parts, and the file that models each:
-- - tools/experiment.py runs one benchmark for each combination of the parameters of an
--   experiment file. `Experiment/Values` has the parameter values (`to_named_value`, Python's
--   `==` and `str` on them), `Experiment/Replace` the rules that rewrite a combination
--   (`replace_values`), `Experiment/Combine` the combinations, and `Experiment/Jobs` the
--   generator `benchmark_args`: the jobs that it yields, and the error that it ends with.
--   `Experiment/Progress` is `class Progress`: a record that a method returns is an object of the
--   list that the caller changes, so it is named by its index. `Experiment/Run` is the loop of
--   `main`: one function for each part of the body (`reload`, `prepare`, `execute`, `attempt`,
--   `settle`, `step`), on a state that holds the progress, the reload counter and the calls of
--   `benchmark.main`. `Experiment/Main` is `main` around the loop, with a second run in
--   `Experiment/Main/Again`, and `Experiment/Cluster` is the loop over tools/benchmark.py.
--   `Experiment/Collector` is `ResultCollector`, as a step relation of the main thread and the pool.
-- - tools/utils.py has what the tools share. `Config` models `get_main_config`, `get_namespaces`
--   and `Kube.get_context`; `Shell` models `run_subprocess`: a command that runs is recorded, and
--   a function of the commands before it says whether it exits with status 0.
--   `Logs` models `print_logs`, as a step relation of its threads, and `get_pods`.
-- - tools/benchmark.py renders a Helm chart and applies it in each region. `Benchmark` models
--   `run_benchmark`, `Benchmark/Operation` the operations as the tasks that they start,
--   `Benchmark/Main` the choice of the operation and the runs of its tasks, and `Benchmark/Logs`
--   the jobs that are watched, `get_job_logs` and the sums of the rates.
-- - tools/monitor.py and tools/kubectl.py: `Monitor` models the choice of the namespaces, the
--   status that is shown for a pod, and `kubectl` in each namespace; `Monitor/Data` and
--   `Monitor/Tables` what the status command shows, and `Monitor/LogsCommand` which logs are found.
-- - tools/neonclone.py: `NeonClone` models the copy of a `.neon` directory and the edits of its
--   addresses, ports and ids, on directories and files as values.
-- - tools/neonctl.py: `NeonControl` models the binaries, and the create, start, stop and destroy
--   commands on the directories of the regions. A program that is run is an event; a function of
--   the events so far says whether it succeeds and what it leaves in its directory.
-- - tools/deploy.py: `Deployment` models the stages, one file for each of them, `try_with_timeout`
--   and `main`. What the Kubernetes API, AWS, the DNS and the clock answer are functions.
-- - tools/eks.py: `Eks` models the files, the creation and the deletion of the clusters.
-- `Base` has the names that all modules share, dicts in insertion order, results, and Python's
-- `str`, `int`, `split`, `strip` and `join`.
--
-- How they interact: the loop of `Experiment/Run` calls `benchmark.main`, which is a function of
-- the calls so far there; `Benchmark/Main` models that function itself, up to the logs, and
-- `Experiment/Cluster` puts it in its place. The tasks of a thread pool run one after the other, in
-- the order in which they are submitted, and what they raise is dropped where the source does not
-- look at the futures.
--
-- Bounds and fuel: numbers of the source that are not negative are natural numbers, the others
-- integers; Python's numbers have no bound. Every loop is a structural recursion over the list
-- that it reads, but for four. `str` of a number runs on fuel: `n + 1` rounds are enough, since
-- each one divides by ten. `try_with_timeout` runs on one round more than its ticks, which is
-- enough where every round takes a tick. The attempts at creating a namespace run on fuel that is
-- given; one round more than Kubernetes answers that the namespace is being deleted is enough. So
-- does the loop of `get_job_logs` that waits for a pod, which the source bounds by nothing.
--
-- Not modelled: the Rust server (xactserver); the order of the queue of the pool of
-- `ResultCollector`, of whose tasks any one may be taken next; the screen of the monitor; argument
-- parsers, loggers and the calls of the Kubernetes client; Helm charts and experiment files, which
-- are data. Python's floats, the pattern of the benchmark's logs and the csv module are parameters.
-- In `neonctl` and `eks` whether a program is there at all is not modelled.
pub mod Base
pub mod Config
pub mod Shell
pub mod Logs
pub mod Benchmark
pub mod Experiment
pub mod NeonClone
pub mod Monitor
pub mod NeonControl
pub mod Deployment
pub mod Eks

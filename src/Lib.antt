-- ===== src/Lib.antt =====
-- Verification of bitsocial-cli, the command line interface that runs a bitsocial daemon.
--
-- The daemon runs kubo, an IPFS node, and serves an RPC of pkc-js. `bitsocial reachability` edits
-- kubo's config so that browsers can dial the node, and the running daemon keeps the announced
-- addresses right. `bitsocial update install` replaces the program under running daemons, which it
-- finds by their state files and of which some belong to systemd. Challenge and page-sort packages
-- plug into registries of pkc-js. `bitsocial logs` reads what the daemon wrote.
--
-- Parts and files:
--
-- Common holds the shared helpers: Boolean tests, lists over the native numbers, texts, and split and
-- join. Json models the values of JSON.parse with the order of an object's properties; Json.Laws has
-- the laws of reading and writing a property.
--
-- Reachability.KuboConfig is src/reachability/kubo-config.ts. Defs has its definitions, with the
-- record of the edits and the undoing in Defs.Undoing: planKuboConfig is plan_kubo_config,
-- undoListEdits is undo_list_edits, restoreShape is restore_shape, and so on, each on the ordered
-- properties of a config; a step that throws a TypeError in the source gives none. Lists, Undo,
-- Baseline, Filters, AutoTls and Managed have the lemmas on the parts of the config, RoundTrip the
-- theorems on sequences of applies (the relation Applied).
--
-- Reachability.Runtime is src/reachability/runtime.ts. Runtime itself has isSameCertificateName of
-- src/reachability/state.ts; Node's `net` is a parameter (Net), with what is relied on in IsNet.
-- IpChange has planIpChange; Backoff has backOffIssuance and addressesWorthTrying with the families'
-- waits; Names has announcedNames, isNameHealthy and judgeName; Check has the loop of checkNames, with
-- the config, the statuses by name and the times of the last warnings as its state; Conservation has
-- the theorem on it and Dropping the one on the checks of a name over time; Derive has
-- derivePublicIps; CaddyWatch has watchCaddyOnce as a function from what a watch finds to the state
-- after it; Moving has handleIpChange on the Caddyfile and the two configs, and the decision of
-- runChecksOnce that calls it, with which certificates are issued as an argument; Moving.Outcomes has
-- the theorem on the addresses that are held, Moving.Readings the one on two checks in a row. Times
-- are milliseconds, also where the source keeps an ISO text. One check reads the clock once.
--
-- Reachability.Store keeps the two files that reachability edits, its own config and kubo's:
-- applyKuboConfig of src/reachability/setup.ts, saveAndApply of src/reachability/runtime.ts and
-- disableReachability of src/reachability/lifecycle.ts, over planKuboConfig. Store.Refinement shows
-- that they implement the state that an operator thinks of. JSON.stringify is a parameter that
-- compares two configs.
--
-- Reachability.Discovery is src/reachability/discovery.ts on addresses and ports; Checks is
-- src/reachability/checks.ts (Evaluate has evaluateChecks, with its facts and the checks of ports in
-- Evaluate.Facts and Evaluate.Ports, Verdicts the theorems on it); Unmanaged is
-- src/reachability/unmanaged.ts; Hostnames and Caddyfile are isValidDomain, generateCaddyfile and
-- caddyfileServesDomain of src/reachability/caddy.ts. Node's `net`, the multiaddr package, regular
-- expressions on addresses and on the output of commands, and the texts of
-- src/reachability/guidance.ts are parameters.
--
-- Daemon.Kubo is the supervision of kubo in src/cli/commands/daemon.ts with the spawn phase of
-- src/ipfs/startIpfs.ts. Each of keepKuboUpOnce, killKuboProcess and shutdownDaemon is cut where it
-- awaits; what ends a wait is an Event, and a run is a list of events in any order. keep_kubo_up is
-- keepKuboUp, on_spawn the callback of the spawn, start_resolved and start_rejected what follows it,
-- on_kubo_exit the listener on exit, interrupt, finish_kill and sweep the parts of killKuboProcess,
-- exit_handler the synchronous handler of the process. A process is its pid, which the operating
-- system gives to one living process at a time. The deletion of the state file that shutdownDaemon
-- awaits first is part of its first step. Safety has the invariant, Recovery the restart after an
-- exit, Shutdown the course of the end, Ended what is left then. Daemon.KuboRepo is what
-- src/ipfs/startIpfs.ts writes to the config of kubo before the spawn: ensureIpnsPubsubEnabled and
-- ensureKuboRoutingConfigMatchesHttpRouters (KuboRepo.Settled has the theorem on both), and in
-- KuboRepo.Defaults mergeCliDefaultsIntoIpfsConfig. Daemon.Watchdog is runKeepKuboUpTick,
-- Daemon.RepoGc src/ipfs/repoGc.ts. Daemon.Endpoints is what src/util.ts makes of the addresses in the
-- config of kubo: the URL that is dialled and describeKuboEndpointMismatch, with the multiaddr package
-- and URL as parameters; Endpoints.Agreement has the theorem that the two agree, with what is relied
-- on in IsUrl.
--
-- The rest of Daemon is src/common-utils/daemon-state.ts: Supervisor has detectSelfSupervisor and
-- resolveDaemonSupervisor, Cgroup parseSystemdUnitFromCgroup over code points, States the directory of
-- state files with its reading, writing and pruning. What the system answers about processes and units
-- is a parameter.
--
-- Update.Semver is src/update/semver.ts; Number is a parameter that reads a segment as a natural
-- number or as NaN. Update.Restart is src/update/restart-orchestration.ts: the effects are actions in
-- a trace, any of which may fail. Update.Install is the run of src/cli/commands/update/install.ts:
-- Install has the definitions, Flow and Outcomes the lemmas on its branches, Ending the theorems on
-- how it ends. A World says which effects succeed. Update.Fast is src/update/fast-update.ts on the
-- install root, the staging and the backup directory: swap is the two renames, after_swap what follows
-- them, roll_back the catch; Fast.Swap has the theorems on what is left at the root.
--
-- Packages is src/common-utils/package-registry.ts: Names has the validation of package names, Loader
-- has loadPackagesIntoPKC, Loader.Shadowing its invariant, Loader.Reload the theorems, Installing
-- installPackage and removePackage on the packages by name. Importing a package is a parameter, and
-- which steps of npm and of the file system succeed is a PackageWorld.
--
-- Logs is src/cli/commands/logs.ts without the follow mode: the parsing of entries, the filters, the
-- tail and the dump. Date is a parameter.
--
-- Merge is mergeDeep and replaceNullWithUndefined of src/util.ts, with which `community edit` builds
-- its update: Lookup has the theorem on objects, Again the one on repetition, Arrays the one on dense
-- arrays. Arrays with holes, which only indexed flags make, are not modelled.
--
-- Tests has a witness of each theorem on a concrete input.
--
-- Bounds and fuel: loops are structural recursion, but for two uses of fuel. The decimal numeral of a
-- number is computed for at most 20 digits, which covers ports and process ids. The transitivity of
-- the version comparison is proved by induction on a bound of the number of segments, which the sum of
-- their lengths meets. Numbers that the source holds as floats are natural numbers; texts are
-- sequences of code points.
--
-- Not modelled: files, processes, sockets, DNS and the registries of npm, which are parameters where a
-- modelled part uses them; the questions of the setup of reachability and the issuance of
-- certificates, the downloads of a fast update, the community commands and the web server.
pub mod Common
pub mod Json
pub mod Reachability
pub mod Daemon
pub mod Update
pub mod Packages
pub mod Logs
pub mod Merge
pub mod Tests

-- ===== src/Lib.antt =====
-- Podscape is a desktop client for Kubernetes: an Electron main process starts a Go sidecar and
-- forwards requests to it, and a React renderer keeps what it shows in one Zustand store that is put
-- together from slices. This library models the logic of the TypeScript code in src/main and
-- src/renderer and proves what makes it correct.
--
-- How the parts meet. The renderer calls the main process over IPC (src/preload), the main process
-- calls the sidecar over HTTP with retries (Main.Api). A switch of the cluster (Store.Cluster) resets
-- the store, stops the port forwards (Store.Forwards), closes the terminals (Store.Exec) and loads
-- the section that is shown (Store.Resources); the security panel reads what is loaded (Security),
-- the detail panel of a pod shows its timeline (Timeline), and the log panels show a bounded buffer
-- of lines (Logs).
--
-- Files and sources, whose paths start at the root of the repository:
--   Common               Boolean tests, arrays, strings, substrings, slices, splits, trim and the
--                        stable sort of JavaScript; a reader of CSV text (RFC 4180), which is not code
--                        of the program but what its exports are read with.
--   Store.Exec           src/renderer/store/slices/operationSlice.ts, the terminal tabs: openExec,
--                        setPtyId, closeExecTab, setActiveExecId, closeExec.
--   Store.Forwards       the same file, startPortForward, stopPortForward, stopAllPortForwards with the
--                        listeners of src/preload/index.ts and the events that reach them.
--   Store.Cluster        src/renderer/store/slices/clusterSlice.ts, selectContext, cut at its awaits;
--                        Cluster.Switch has the segments and the calls that are under way together.
--                        Cluster.Probes has canVerb, toggleHotbarContext, probePrometheus,
--                        fetchAllowedVerbs and fetchProviders (of providersSlice.ts).
--   Store.Resources      src/renderer/store/slices/resourceSlice.ts, selectResource (History) and
--                        loadSection for the sections of SECTION_CONFIG with refresh (Sections).
--   Store.Dashboard      the same file, loadDashboard and its grouping into apps.
--   Main.Api             src/main/sidecar/api.ts, sidecarFetch and checkedSidecarFetch.
--   Main.Updater         src/main/system/updater.ts, the queue of events before the window is ready.
--   Main.Env             src/main/system/env.ts, getAugmentedEnv.
--   Main.Sidecar         src/main/sidecar/sidecar.ts, startSidecar, stopSidecar and the listeners of the
--                        processes, with the state of src/main/sidecar/runtime.ts.
--   Main.Settings        src/main/settings/settings_storage.ts, the settings file and its queue of
--                        writes, and the handlers of src/main/ipc/settings.ts that change it.
--   Main.Audit           src/main/ipc/audit.ts, the entries and their export as CSV.
--   Main.Scan            src/main/ipc/kubectl.ts, handleScanResponse, the stream of a scan.
--   Main.Tunnels         the same file, portForward, stopPortForward and their alive polls.
--   Security.Kube        the part of src/renderer/types/k8s.ts that is scanned.
--   Security.Rules       src/renderer/utils/scanner/bestPracticeRules.ts.
--   Security.Engine      src/renderer/utils/scanner/engine.ts.
--   Security.Images      src/renderer/utils/security/extractImages.ts.
--   Security.Unified     src/renderer/utils/security/buildUnifiedResults.ts.
--   Security.Scope       src/renderer/store/slices/analysisSlice.ts, the workloads of scanSecurity, and
--                        filterTrivyByScope of src/renderer/store/resourceConfig.ts.
--   Security.Run         the rest of scanSecurity of analysisSlice.ts: its start, its progress lines and
--                        its ends, with the resets of selectContext of clusterSlice.ts.
--   Security.Hub         src/renderer/components/advanced/SecurityHub.tsx, the scanned workloads, the
--                        counts and the filters.
--   Security.Download    the same file, the CSV download of the images and their findings.
--   Panels.Connectivity  src/renderer/components/advanced/ConnectivityTester.tsx, the parsing of the
--                        answers of a probe, runSteps and the network policies that can block it.
--   Logs                 src/renderer/hooks/useLogBuffer.ts.
--   Timeline             src/renderer/utils/buildTimelineItems.ts.
-- A module named Tests holds concrete runs; other child modules are named for what they prove.
--
-- State and time. A slice is a record, an action a function from state to state. An async function
-- is cut at its awaits, and an interleaving is a list of steps, each of which gives the promise that
-- ends and its result; so theorems on steps hold for every order of results. Clocks, identifiers,
-- locale order, file contents, answers of the sidecar and the decoder that turns each chunk of an
-- answer into text are parameters or arguments. A call of another process is a record of the call.
--
-- Bounds. The retry loop of sidecarFetch runs on the 20 attempts that the code allows and the health
-- check of the sidecar on its 180, so each has all the fuel that it can use; every other loop is over
-- a list. Numbers are natural numbers: counts, delays, milliseconds and exit codes, which the code
-- only adds and compares. Letters are folded in ASCII, and trim removes the white space of ASCII.
--
-- Not modelled: the Go sidecar (go-core), the rendering of the React components, the registration of
-- IPC handlers, and calls that only pass their arguments on (scaling, deleting, YAML, Helm, Krew). The
-- panels that load several lists, the search preload, the navigation and the streams of logs and
-- terminals are not modelled either.
pub mod Common
pub mod Logs
pub mod Main
pub mod Panels
pub mod Security
pub mod Store
pub mod Timeline

-- ===== src/Lib.antt =====
-- The deployer of unicore. Its core is the controller that keeps the pods of an App, a stateful
-- application of named pods, at the number and the revision that its spec asks for.
--
-- One pass of the controller reads the pods, sorts them into slots by ordinal, makes the pods that
-- are missing, waits for those that are not available, deletes those past the replica count, and
-- updates one pod at a time to a new revision. The duration after which to look again goes through
-- the store of requeue durations. Two scheduler plugins place the pods: one holds resources of a
-- node for pods to come, one places the pods of a gang together. A daemon on each node pulls the
-- images that the ImageList of the node names, some of them every day, and retries what failed.
--
-- Modules, and the code that they model:
-- Prelude: text as lists of bytes, association lists, integers over the native numbers, lists.
-- Api: the App resource, deployer/api/deployer/v1/app_types.go and inplace/types.go, and the
--   fields of the Kubernetes objects that the code reads or writes.
-- Strings: the functions of Go's strings and strconv that are used.
-- RequeueDuration: deployer/internal/controller/requeue_duration/duration.go.
-- App: deployer/internal/controller/app.
--   App/Identity, App/Readiness: utils.go, and the conditions and gates of inplace_update.go.
--   App/Status: replica_status.go and the status functions of state_controller.go.
--   App/Platform: what the code uses and does not implement, in one record of functions: the API
--     server's answers, the listers, pods from templates, selectors, revisions applied to an app,
--     and client-go's RetryOnConflict, whose documented behaviour is the hypothesis
--     RetriesAsDocumented. The World holds the calls that change the cluster, in order, and the
--     store of durations.
--   App/PodControl: pod_controller.go. An action returns an optional failure and the new World.
--   App/Versions: newAppPod, newVersionedPodForApp and the default rolling update. An expression
--     that may panic (a nil pointer, an index out of range) is an Outcome.
--   App/Update: applyUpdate of state_controller.go, one module for each phase: Slots, Replicas,
--     ScaleDown, Rolling. Its in-place operations are the record InPlace.
--   App/InPlaceUpdate: inplace_update.go. Images finds the images to change in the JSON patch
--     between two revisions, Start is InPlaceUpdatePod, and the module itself has
--     IsInPlaceUpdateDone and CleanUpInPlaceUpdate. JSON and JSON patches are the record Json.
--     A hypothesis on it is about the data of the app's own revisions only: a predicate Held that
--     they satisfy. A removal carries no text, and the JSON null is a template that is none.
--     in_place_operations fills the interface InPlace.
--   App/Revisions: UpdateApp, updateAppStatus and truncateHistory of state_controller.go. The
--     history package of Kubernetes is the record History.
-- Reconciler: deployer/internal/controller/app_controller.go, from the lister's app to the request
--   to be called again. What claims pods and adopts revisions is the record Owners.
-- Scheduler: the plugins of deployer/schedule_plugin/pkg/plugin. Scheduler/Reserve is
--   reserve/reserve.go: its table, the config map behind it as a record of functions (Store), and
--   the data that was sent. Scheduler/Gang is gang/gang.go: its maps and what the waiting pods are
--   told, and a relation (Step) of everything that changes them. int64 sums of resources wrap
--   around (Scheduler/Word).
-- Regexp: regular expressions as Go's regexp matches them, by derivatives.
-- Daemon: the image daemon, deployer/pkg/daemon/daemon.go: PullImages, the switch of Start, and one
--   round of each of its two loops, run to its end. Start stands there without the two goroutines
--   that it launches (start_without_loops). A round of loopAlwaysPull has one reading of the
--   clock.
--   Daemon/Containerd: containerd.go. What containerd answers, and the order in which the pulls of
--     one call end, are the record Answers.
--   Daemon/Threads: the watch, the loops and the pulls under way as a relation (Step) in which they
--     take turns in any order.
-- Examples: the theorems at a concrete app, a concrete cluster and a concrete node.
--
-- Every loop of the code runs over a list and is structural recursion; emit of Strings has as many
-- rounds as the number it prints. Ordinals and replica counts are below 2 ^ 63, the range of a Go
-- int, where a theorem needs it. The counters of replica_status.go are int32: they are numbers
-- below 2 ^ 32 that wrap around, and the counts in an AppStatus are wrapped to the signed range. Times are whole nanoseconds; one pass has one reading of the
-- clock. A Go map is an association list in the order of insertion.
--
-- Not modelled: logs and recorded events, generated code, the HTTP handlers of the control plane,
-- the entry points of the processes, JSON and merge patches, the making of the daemon's clients and
-- its sleep between rounds. The seconds left of a grace period are an exact division, where the code
-- divides as float64.
pub mod Prelude
pub mod Api
pub mod Strings
pub mod Regexp
pub mod RequeueDuration
pub mod App
pub mod Reconciler
pub mod Scheduler
pub mod Daemon
pub mod Examples

-- ===== src/Lib.antt =====
-- Verification of the core of jaas, a Kubernetes operator that renders Jsonnet snippets and
-- publishes the output as tarballs for Flux.
--
-- The operator renders a snippet, publishes the output under a content-addressed revision in a
-- store, records the revision in the status, and lets the store evict old revisions.
--
-- Prelude            lists, byte strings, results, Go's string functions, sort.Strings, an Action: a
--                    stateful call that ends with a value or an error and the state it leaves, and
--                    an Attempt: a call after which the caller goes on or ends
-- Storage/Key        internal/storage/key.go, and the name checks of internal/storage/store.go:
--                    RevisionFilename, ValidDigest, looksLikeOurArtifactFilename,
--                    validNoTraversal, validTarEntryPath
-- Storage/Prune      the selection of internal/storage/store.go, shared by the two backends:
--                    buildPruneKeepSet, selectPruneVictims, earliestNewerMtime
-- Storage/FileSystem the file system interface of internal/storage/fs.go as a record of
--                    operations and a record of laws, with a file system in memory
-- Storage/Archive    writeTarGz and writeTarEntry of internal/storage/store.go
-- Storage/Sweep      Sweep and sweepKey of internal/storage/store.go
-- Storage/Store      Put, Open, Delete and Prune of internal/storage/store.go
-- Operator/Revisions buildKeepRevisions, historyRevisions and updateRevisionHistory of
--                    internal/operator/reconciler.go
-- Operator/Objects   api/v1: the fields of the resources that the modelled code reads
-- Operator/Cycle     detectSourceRefCycle of internal/operator/cycle.go: the breadth-first walk over
--                    snippets and libraries, and the path that it reconstructs. Graph has the edges
--                    and cycles that it is about
-- Operator/CycleCache
--                    cycleCache of internal/operator/cycle.go: Lookup, Store, Forget
-- Operator/CycleVerdict
--                    cycleVerdict of internal/operator/reconciler.go: cache, walk, store, and again
-- Operator/Webhook   internal/operator/webhook.go: validate, ValidateUpdate and the warnings
-- Operator/SpecChecks
--                    the checks of the spec in internal/operator/reconciler.go
-- Operator/Publisher Publish and PruneStored of internal/operator/publisher.go, over Storage/Store
-- Operator/Reconcile reconcileSpec of internal/operator/reconciler.go, from the suspend check to the
--                    publish, and failReady; what it calls is the record World
-- Operator/OpState   internal/opstate/opstate.go: State and its methods
-- Sources/Capped     cappedReader of internal/sources/sources.go, over any reader
-- Sources/Digest     verifyExpectedDigest and parseDigest of the same file
-- Eval/Semaphore     internal/eval/semaphore.go: the counters, and each caller as a sequence of atomic
--                    operations; Step lets any caller go next
-- Eval/Importer      internal/eval/importer.go: Import, resolve, record and locationOf
-- Sources/Clean      path.Clean of the standard library, for relative paths
-- Sources/Entry      normaliseEntry and SafeEntryName of internal/sources/sources.go
-- Sources/Extract    extractTarballWithLimits of the same file, on a stream of tar entries
--
-- A text is its list of bytes. Times are natural numbers, 0 the zero time. The file system, the tar
-- and gzip writers and SHA-256 are parameters; FileSystemLaws states what the store relies on: a
-- call on one path leaves the other paths alone, a write appends, a rename that succeeds moves the
-- contents. They are meant for paths as the store writes them: clean ones, of files; a rename of a
-- directory, or another spelling of a path, is outside them. So are the Gets of the Kubernetes client in Cycle and Webhook, of which it is asked that
-- an object that is got has the name that was asked for, and reflect.DeepEqual.
--
-- Two loops take fuel: the one over the queue in detectSourceRefCycle, for which one turn more than
-- there are snippets is enough, and the climb of reconstructCyclePath, which has one turn more than
-- the parent map has entries. Every other loop is structural recursion.
--
-- A call on the store is one step: it runs under the mutex of its (namespace, name). Sweep takes that
-- mutex key by key, and is modelled as a walk that nothing interrupts. A walk of the cycle detector
-- reads one state of the cluster; what others do to the verdict cache during a walk is explicit, and
-- so are the steps of callers of the semaphore. Error texts are constructors.
--
-- Not modelled: the S3 backend, the download of sources and the guard of their URLs, the evaluation
-- itself, the deletion path and the watch handlers of the reconciler, the token and client caches, the
-- write of the ExternalArtifact, HTTP, MCP, flags and certificates: network and API calls and glue,
-- or parts that later work may add.
pub mod Prelude
pub mod Storage
pub mod Operator
pub mod Eval
pub mod Sources

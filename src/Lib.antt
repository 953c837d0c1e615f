-- ===== src/Lib.antt =====
-- kube-image-keeper (kuik): a Kubernetes operator that keeps images available. A mutating webhook rewrites
-- the images of new pods to an alternative that can be pulled; controllers copy the images of pods to
-- mirrors, delete them when they are unused, and monitor which images their registries still serve.
--
-- The parts, with the files of the repository that they are about:
--   Text, Errors, Effects, Pods, References: byte strings and path.Join, Go errors, actions that pass a
--     world on and may fail, what is read of pods, internal/internal.go.
--   Filters: internal/filter. Include/exclude filters of texts and label selectors of pods.
--   Selection: api/kuik/v1alpha1/filter_types.go. Which pods and images a resource selects.
--   Resources: api/kuik/v1alpha1. The custom resources; Resources.Prefixes is about the choice of secrets.
--   Parallel: internal/parallel/parallel.go. FirstSuccessful; a run is a list of results in the order
--     in which the channel gives them.
--   Sorting: slices.SortStableFunc as insertion sort, with the laws of a stable sort.
--   Webhook: internal/webhook/core/v1/pod_webhook.go. Alternatives and Candidates are
--     buildAlternativesList, Best is findBestAlternative, Admission the choice of containers and
--     resources, Rewrite the secrets, Defaulting defaultPod itself, StaleStatus the cached check of an
--     image and the clearing of stale mirror statuses.
--   Mirroring: internal/controller/kuik/mirror_reconciler.go. Names and Merge are the status that the
--     pods ask for, Clock the durations, Images mirrorImage and cleanupMirror, Loops the loops of
--     reconcile, Reconcile the whole of it, the deletion of an object and enqueueForPod; Remote puts the
--     registry client in the place of the calls that the others take as parameters.
--   Registry: internal/registry. Client is Execute and DeleteImage, Platforms the filter of CopyImage,
--     Copy the rest of it and GetDescriptor, Probe CheckImageAvailability.
--   Availability: internal/controller/kuik/clusterimagesetavailability_controller.go and
--     backfill_original.go. Sync is syncImageList, Candidates the next image of each registry, Check the
--     checks, Reconcile the whole, Mapper the resources that a pod wakes, Backfill the second file.
--   SecretOwner: internal/controller/kuik/secretowner_controller.go.
--   Reporting: internal/controller/status.go; Collectors is collector.go.
--   Histogram, Configuration: internal/config/histogram.go, the types and the default of config.go.
--   Setup: what the webhook and the reconcilers take from the configuration when they are set up; Loading
--     is the reading of the configuration in config.go, Startup is cmd/main.go.
--   Examples: the theorems at concrete inputs.
--
-- How they interact: Selection compiles filters for Webhook, Mirroring and Availability. The webhook
-- records original images in an annotation that Mirroring.Names reads, for the mirrors and for the
-- monitoring. Webhook.Best runs its checks through Parallel; Availability checks through Registry.
--
-- Parameters stand for code outside the repository: regexp.Compile, labels.Parse, the parser of
-- references (its result is split at the first slash), encoding/json, xxhash, the API server, registries,
-- caches and clock as fields of records over a world W (Cluster, Kube, Monitor, Remote, OwnerApi,
-- Backfiller, Koanf, Manager), and the order in which a map is iterated. Strings are lists of bytes. Times are
-- nanoseconds after Go's zero time; a duration is a 64-bit integer, cut off by time.Since and wrapped
-- around by subtraction. A panic is an error value where the code can reach one. The only fuel is that of
-- `advance`, which counts the results that are left.
--
-- Not modelled: the parsing of flags, the servers and the loggers of main, the build information, the keyring
-- copied from Kubernetes, generated code, events and logs, time limits, the rate limiter of the work queue, calls
-- that singleflight shares, the race of the checks for the shared slice of pull secrets (each check sees the
-- secrets of the pod and its own), and the content of the answer to a write, which is taken to be what was
-- written. syncImageList reads the clock once. A secret without an owner is injected as it is; the code does
-- not reach that case. The goroutines that clear stale statuses are steps that take and give back the places
-- of their semaphore. The floating-point numbers of a configuration are a parameter.
pub mod Prelude
pub mod Text
pub mod Errors
pub mod Effects
pub mod Pods
pub mod References
pub mod Filters
pub mod Selection
pub mod Parallel
pub mod Resources
pub mod Sorting
pub mod Webhook
pub mod Mirroring
pub mod Registry
pub mod Availability
pub mod SecretOwner
pub mod Reporting
pub mod Histogram
pub mod Configuration
pub mod Setup
pub mod Examples

-- ===== src/Lib.antt =====
-- The poll operator: a Kubernetes operator for polls. A Poll holds questions and a closing time, a
-- PollResponse holds answers and names its Poll. This library models the operator's own logic and
-- proves it correct against descriptions that are independent of its loops and maps.
--
-- Parts, and how they interact
--   api/v1/poll_types.go, api/v1/pollresponse_types.go: Api. Structs are records and named string
--     types are texts, so that values outside the constants are possible. Optional pointers are
--     Options.
--   api/v1/zz_generated.deepcopy.go: DeepCopy, over a heap with pointers and slices. DeepCopyInto is
--     choice_into, poll_into and so on, DeepCopy is deep_copy_poll and so on, and DeepCopyObject is
--     deep_copy_poll_object and so on. DeepCopy/Reading says which value of Api stands at an address,
--     and DeepCopy/Assigning has the lines of the controllers between two statuses and a patch.
--   internal/webhook/v1/poll_webhook.go, internal/webhook/v1/pollresponse_webhook.go: Webhook. The
--     API server asks these validators before it stores an object. Field errors are data
--     (Webhook/FieldError); ValidateCreate, ValidateUpdate and ValidateDelete are validate_create,
--     validate_update, validate_delete and validate_response_create, validate_response_update,
--     validate_response_delete.
--   internal/controller/poll_controller.go: PollController. computePhase is PollController/Phase,
--     aggregateResults is PollController/Aggregate, setReadyCondition is PollController/Ready,
--     statusEqual and its helpers are PollController/StatusEqual, and Reconcile,
--     SetupWithManager and mapResponseToPoll are PollController/Reconcile.
--   internal/controller/pollresponse_controller.go: ResponseController. validateResponse and
--     validateAnswer are ResponseController/Validate, the statuses of accept and reject and
--     responseStatusEqual are ResponseController/Status, and Reconcile, ensureOwnerReference, accept,
--     reject, SetupWithManager and mapPollToResponses are ResponseController/Reconcile.
--   internal/ui: Ui. buildAnswers is Ui/Answers; the views of handlePollDetail are Ui/Views; maxVotes
--     and barWidth of templates.go are Ui/Charts; the flash cookie is Ui/Flash; the rows of the index
--     page and their order are Ui/Listing; the handlers are Ui/Pages, and routes is Ui/Routes;
--     server.go is Ui/Server, where Start and its goroutine are a step relation.
--   cmd/main.go: Main, the options that the flags give and the calls that start the manager.
--   System: the parts together: a vote from the form to the results; the results that a run
--     publishes (System/Publishing) once runs have judged each response (System/Settling, with the
--     runs in System/Settling/Runs), and once they are judged again after the closing time; bounds
--     on results from what admission checks; and in System/Cluster all that happens to a Poll and
--     its responses, in any order, where a run reads the Poll and the responses apart, each as it is
--     stored or older, and its patch carries what differs from what was read.
--   The web interface writes through the API server only: a vote becomes a PollResponse, which the
--   webhook admits or not and the controller judges. A response that becomes Accepted makes its Poll
--   be reconciled (poll_requests, map_response_to_poll), which counts it; a changed Poll makes all its
--   responses be validated again (response_requests, map_poll_to_responses).
--
-- What is taken as given
--   Kube is the interface to controller-runtime's client, controllerutil and meta.SetStatusCondition,
--   over an unknown store; its operations are parameters, and every error that they return is
--   possible. Kube/Lawful states what some theorems assume of it: SetStatusCondition sets the
--   condition of a type and leaves the others alone, an object is read under its own key, and a status
--   that was patched is read back with its times cut to whole seconds. Kube/Responses states the same
--   of responses and their owner references. Tests/Memory is a store in memory that has these laws.
--   DeepCopy/Copies takes the deep copies of Kubernetes' own types as a parameter (Machinery), and
--   IsLawful in DeepCopy/Polls says that they are deep copies; Tests/Machinery implements them.
--   Kube/Format stands for the formatting verbs of messages. The clock is a function from the number
--   of the reading to the time, with no assumption that it moves on.
--
-- Choices
--   An int32 wraps (int32 and inc32 in Base/Int). Times are nanoseconds since Go's zero time, and
--   durations saturate as time.Until does. A Go map is a function from keys, built by the loops that
--   fill it; the pointers that aggregateResults keeps in its two maps are positions in the slice of
--   results, and writes through them are modify_at. A text's length is len, the number of its bytes.
--   Loops are structural recursion over the list that they range over, so no fuel is needed. Log
--   lines are left out.
--   Outside DeepCopy objects are values: a deep copy is the value itself, and the base of a patch is
--   the old value. DeepCopy has the memory: a struct is an array of one element, a slice is an address
--   with a start and a size, a capacity is not kept. A copy takes an address first and fills it once
--   its parts are copied, since nothing reads it before.
--   Of the standard library, strings.TrimSpace, strings.Compare, the cookie functions and the patterns
--   of http.ServeMux are written out as far as the code uses them. slices.SortFunc is an insertion
--   sort: its algorithm is open, which is of no account where rows are of different objects. A page is
--   the data of its template, and a form is a function from keys to lists of values. Start is a
--   relation between states, so it has no fuel.
--
-- Not modelled
--   The rendering of templates, HTTP headers and the sockets of the web interface, which are I/O; the
--   parsing of flags and the registration of webhooks with the manager, which are calls of libraries;
--   the registration of types; tests; and the manifests under config.
--
-- Files
--   Base: Boolean tests, integers, lists, maps. Api, Kube, DeepCopy, Webhook, PollController,
--   ResponseController, Ui and Main: definitions in the file of a part, theorems in the files below
--   it. System: theorems on several parts. Tests: concrete objects and runs.
pub mod Base
pub mod Api
pub mod Kube
pub mod PollController
pub mod ResponseController
pub mod DeepCopy
pub mod Webhook
pub mod Ui
pub mod Main
pub mod System
mod Tests

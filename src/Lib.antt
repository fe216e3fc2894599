-- ===== src/Lib.antt =====
-- Tailpost tails logs (a file, the log of a container, the event logs of Windows or macOS), collects
-- the lines in batches and posts the batches to a server.
--
-- The agent (cmd/agent) loads a configuration, makes a reader, a sender and a health server of it, and
-- copies lines from the reader's channel to the sender. The sender's goroutines post the batches,
-- which a server such as those of test/mock turns back into lines. On a signal the agent stops its
-- parts one after another. cmd/agent.go is an older form of the agent, in one file.
--
-- The operator (cmd/operator, pkg/k8s) keeps a ConfigMap, a StatefulSet and a Service for each custom resource, and
-- writes its conditions: `Reconcile` goes through the steps, each of which may fail.
--
-- The files, and what they model:
--   Config, Config/Load            pkg/config/config.go: the types, `LoadConfig`
--   Security/Auth                  pkg/security/auth.go: the providers, a constructor for each
--   Security/Encryption            pkg/security/encryption.go
--   Security/Tls                   pkg/security/tls.go
--   Security/Base64, Hex, Text     what these use of Go's base64, hex and strings
--   Http, Http/Headers             what the program uses of net/http
--   Flags                          what the programs use of Go's flag: `Parse`, on their arguments
--   Reader/File                    pkg/reader/file_reader.go: `Start`, `readLine`, `reopen`, `tailFile`
--   Reader/LogLine                 pkg/reader/container_reader.go: `LogLineReader`, its loop
--   Reader/Stopping                the goroutines of both readers, the channel and `Stop`
--   Reader/Factory                 pkg/reader/reader_factory.go
--   Reader/Container               pkg/reader/container_reader.go: `tailContainer`, `Start`, `Stop`
--   Reader/Windows                 pkg/reader/windows_event_reader.go: the events, `readEvents`
--   Reader/MacOs                   pkg/reader/macos_log_reader.go: the command, `readLogs`
--   Reader/Session                 `Start` and `Stop` of these two
--   Sender                         pkg/sender/http_sender.go: batching, the flush loop, `Stop`
--   Sender/Post                    the same file: `sendBatchWithContext`
--   Sender/Secure                  the same file: `NewSecureHTTPSender`
--   MockServer                     test/mock/decrypt/mock_server.go: its key, the handler of /logs
--   MockServer/Plain               test/mock/mock_server.go: its handlers
--   Health                         pkg/http/health.go
--   Health/Lifecycle               the same file: `Start`, `Stop`, the goroutine of the listener
--   Telemetry                      pkg/telemetry/telemetry.go, pkg/observability/telemetry.go
--   Agent                          cmd/agent/main.go: what it makes of a configuration
--   Agent/Setup                    cmd/agent/main.go and cmd/agent.go: telemetry, the reader
--   Agent/Pipeline                 the same files: the goroutines, from the start to the shutdown
--   Agent/Posts                    pkg/sender/http_sender.go: the goroutines that post, beside those
--   Agent/Arguments                cmd/agent/main.go and cmd/agent.go: the flags
--   Agent/Startup                  the same files: from the configuration to the running parts
--   Kubernetes                     pkg/utils/k8s_utils.go
--   Operator                       pkg/k8s/operator/controller.go with pkg/k8s/api/v1alpha1/types.go:
--                                  the defaults, the conditions and the status of the resource
--   Operator/Resources             pkg/k8s/resources/resources.go: names, labels, the ConfigMap
--   Operator/StatefulSets          the same file: the StatefulSet
--   Operator/Services              the same file: the Service
--   Operator/Reconcile             pkg/k8s/operator/controller.go: their reconciliation
--   Operator/Cluster               the same file: `Reconcile`, over what the cluster stores
--   Operator/Copies                pkg/k8s/api/v1alpha1/types.go: the deep copies
--   Operator/Decoded, Pods         the ConfigMap of the operator, as the agent in a pod reads it
--   Operator/Variables             cmd/operator/main.go: the flags, parsed twice
--   Operator/Startup               the same file: telemetry, the manager with its checks, the exits
--   Base                           shared names and lemmas, signed integers, results
--   Examples                       the theorems at concrete inputs
-- The rest of a folder of the same name holds the theorems on a file, in a file for each subject.
--
-- An operation is a function on the record of its component's fields, and an error is a constructor of
-- the component's error type. Text that is walked, or that comes from outside, is a list of bytes;
-- text that is only compared is a string. Locks make the operations on a reader, a sender or a
-- server single steps, so that an interleaving is a list of events (Sender) or a path of a step
-- relation (Reader/File/Appends, Reader/Stopping, Reader/Windows, Reader/MacOs, Agent/Pipeline,
-- Agent/Posts). There,
-- a field that is called a history is not of the program: it keeps what has happened for a theorem.
--
-- What is not under the repository's control is a parameter: the file system, the environment, the
-- parsers of YAML and JSON, the AEAD ciphers, certificates, the token source of OAuth2, the network,
-- the answers of an `io.Reader`, the API of Kubernetes and controller-runtime with the calls that
-- fail, the flags of imported packages, the SDK of OpenTelemetry, the command `log`. Where a theorem relies on one, it says so in a hypothesis.
--
-- The loop over a container's stream runs on fuel, and one round more than the stream has bytes is
-- proved enough. The rounds of the file reader are counted, and as many as there are bytes left are
-- proved enough. A number has at most as many digits as the fuel of `decimal`, the number plus one.
-- All other functions recur on their data. Sizes and intervals are unbounded integers, which the
-- program does not add to; the record number of a Windows event wraps as an `int64` does.
--
-- Not modelled: a `read` of a file that fails, the metadata of the custom resource and of a list of it, the
-- watches of controller-runtime, the metrics besides the counter of the lines, log output, spans, and
-- the listeners of HTTP.
pub mod Base
pub mod Http
pub mod Flags
pub mod Config
pub mod Security
pub mod Sender
pub mod MockServer
pub mod Reader
pub mod Health
pub mod Telemetry
pub mod Agent
pub mod Kubernetes
pub mod Operator
pub mod Examples

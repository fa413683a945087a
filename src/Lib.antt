-- ===== src/Lib.antt =====
-- Cocos runs a computation of several parties inside a confidential virtual machine. An agent in
-- the machine takes a manifest, the algorithm and the datasets that the manifest declares, runs
-- the algorithm once everything is there, and hands out the result. A manager on the host starts
-- and removes machines.
--
-- StateMachine: agent/statemachine/state.go. A `Machine` is the table with its actions; `Loop`
-- is what the goroutine of Start is doing. The channels made by NewStateMachine and Reset are
-- numbered, and a send succeeds only when the loop waits on the present ones. `LoopStep` is what
-- Start may do; `start_loop` is Start on the events that arrive one after another, and consumes
-- one at a time.
--
-- Agent: agent/service.go, agent/computations.go, agent/algorithm/algorithm.go. Agent/State has
-- the service's fields, its goroutines (`tasks`), the events sent to the event service
-- (`published`) and the files. A method that returns an error is a definition in the monad of
-- Common/Exec, so that what was written before the early return stays. Agent/Manifest is New,
-- InitComputation and StopComputation, Agent/Inputs is Algo and Data, Agent/Running is
-- runComputation and Result. Agent/World puts them together: `Reach` is every agent that calls,
-- moves of the loop and goroutines lead to in an orderly use. A method is one step there, in the
-- state that it read before it took the mutex. runComputation is two steps, split at the call of
-- the algorithm. A StopComputation in `Reach` meets no run at work and a loop that handles no
-- event. Agent/Properties and Agent/Stopping have what a StopComputation does to a run
-- otherwise, Agent/Races an InitComputation that acts on a state read long before. The sleeps of
-- New and StopComputation are taken to be long enough for the loop to come to wait and to handle
-- Start.
--
-- Cvms: agent/cvms/api/grpc/client.go, agent/cvms/api/grpc/server.go, agent/cvms/server/cvm.go
-- and agent/cvms/api/grpc/storage/storage.go. Cvms/Manifests is sendRunReqInChunks of the
-- server, on fuel: a round takes a byte at least, so that fuel above the manifest's length is
-- enough. Cvms/RunRequests is the client's runRequestManager with the time as an argument:
-- before a chunk is added, every timer that has run out removes its request. Cvms/Arrival puts
-- the two together. Cvms/RunReq is the computation that executeRun makes of a request;
-- Cvms/Incoming has the handlers of the server's messages over a `Guest`, which is the agent,
-- the server for the parties, the queue of messages and the goroutines that were started;
-- Cvms/Execution is about what they lead to. Cvms/Storage is the storage of pending messages,
-- Cvms/Outgoing their sending.
--
-- Stream: agent/api/grpc/server.go and pkg/progressbar/progressbar.go. Stream/Sending is
-- streamFileData, Stream/Receiving is receiveStreamingData, receiveAlgoData and validateNonce.
-- Stream/Progress is the client's progress bar, Stream/Upload its SendData and SendAlgorithm,
-- Stream/RoundTrip these up to the server's receiving, Stream/Download its receiveStream and
-- ReceiveIMAMeasurements, and the server's streamDualBuffers. A file is its bytes. A loop over a
-- file is on fuel, of which more than the file's length is enough.
--
-- Auth: agent/auth/auth.go and agent/api/grpc/interceptors.go. The authenticator that New makes
-- of a manifest lets callers in by their role, and gives a consumer the index that the agent's
-- Result reads.
--
-- Attestation: pkg/attestation/attestation.go, pkg/attestation/vtpm/vtpm.go,
-- pkg/attestation/quoteprovider/sev.go and cli/attestation_policy.go. Attestation/Hex is the
-- text of bytes and numbers, where a string of Go is its bytes. Attestation/Pcrs is
-- checkExpectedPCRValues, Attestation/Extend the agent's ExtendPCR and the loop of the command
-- line's extendWithManifest, Attestation/Policy a policy's file and the commands that change it,
-- Attestation/Changes what they do to it. Attestation/Reports verifies a SEV-SNP report,
-- Attestation/Quotes a vTPM's attestation, and Attestation/Binding is Attest and how the two are
-- bound to each other. Attestation/Flags is how the command line reads and checks the flags of
-- cli/attestation_snp.go, Attestation/Checked what it lets through. Attestation/Azure is
-- pkg/attestation/azure/snp.go, Attestation/Tdx pkg/attestation/tdx/tdx.go.
--
-- Tls: pkg/atls, pkg/clients and pkg/server. Tls/Platforms has the platforms, their object
-- identifiers and the nonce in a server's name, Tls/Provider the certificate that GetCertificate
-- makes, Tls/Verifier VerifyPeerCertificate over the verifiers of the platforms, and Tls/Wiring
-- these verifiers as platformVerifier makes them of the models in Attestation. Tls/Clients is
-- how a client's connection is configured, where the path of the policy is the state,
-- Tls/Plaintext when it is not secured, Tls/Handshake and Tls/Connected what a client and a
-- server do together. Tls/Servers is the TLS configuration, the start and the stop of a gRPC
-- server, Tls/Starting and Tls/Lifecycle are about these.
--
-- Api: agent/api/grpc. Api/Endpoints has the requests, their checks, the endpoints and the
-- decoders, Api/Server the handlers and the methods of the gRPC service, which act on the agent
-- of Agent. Api/Uploads follows a dataset from the client's file to the agent's, Api/Results a
-- result the other way.
--
-- Algorithms: agent/algorithm. Algorithms/Processes has Run and Stop of a binary, of python and
-- of wasm, where a process has not started, runs, exited or was ended by a signal;
-- Algorithms/Containers has those of docker, where the state is what Docker holds; what it makes
-- of a file and the order in which it lists its images are arguments. Algorithms/Endings puts
-- Stop and StopComputation together.
--
-- Logging: internal/logger/protohandler.go. Logging/Pieces is Handle over the bytes of a
-- message.
--
-- Manager: manager/service.go, manager/ttl.go, manager/vm/state.go and pkg/manager.
-- Manager/Service has CreateVM as its critical sections in sequence (`admit`, `register`,
-- `mark_running`) and what lies between them, so that Manager/Capacity can interleave the
-- sections of several calls. Manager/Ports is decodeRange and getFreePort, whose goroutines
-- check the ports in an order that is an argument. A timer of Manager/Ttl is a number. A
-- duration is a natural number. Manager/Persistence is manager/qemu/persistence.go, a directory
-- with a file for each machine's state, and Manager/Refinement compares it with a map.
-- Manager/Qemu is the command line of QEMU in manager/qemu/config.go and the start of a machine
-- in manager/qemu/vm.go, Manager/Devices is about the devices that it names.
--
-- Parameters and arguments. SHA3 (`sha3`), encoding/json (`Codec`, `json`), proto.Unmarshal
-- (`unmarshal`), the formats of a policy (`Formats`), go-sev-guest (`SevGuest`), go-tpm and
-- go-tpm-tools (`TpmTools`, `Hardware`), go-tdx-guest (`TdxGuest`), the Azure libraries (`Maa`,
-- `Tokens`), crypto/x509 (`X509`), go-kit (`Kit`), the other hash functions and the signature
-- schemes (`Crypto`) are functions of which nothing is assumed but what a theorem names. What
-- the operating system and other packages answer to a call is an argument: the records whose
-- names end in Io have a field for each call, `none` for success. The texts of the progress bar
-- enter by their length. Log lines are left out.
--
-- Not modelled: the HTTP servers and clients, the reconnection of the server's client, the
-- output of the algorithms, the end of a QEMU process, the download of certificates, the rest
-- of the command line and the SDK.
pub mod Common
pub mod StateMachine
pub mod Agent
pub mod Attestation
pub mod Cvms
pub mod Manager
pub mod Stream
pub mod Auth
pub mod Logging
pub mod Tls
pub mod Api
pub mod Algorithms

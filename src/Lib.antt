-- ===== src/Lib.antt =====
-- A worker that takes Celery tasks from an Amazon SQS FIFO queue and runs them on a pool of Python
-- processes: a model of its Go code, with theorems on what it does.
--
-- The program's parts and how they interact. The worker asks the broker for messages, decodes
-- each into a task and starts a goroutine for it, which gives the task to the process pool, records the
-- outcome and acknowledges the message. The broker sorts the messages of SQS by message group, hands
-- out one of each group and queues the others. The pool hands a task to an idle process, or to a
-- new one, recycles processes that are worn out, and keeps counters; a process writes the task to
-- its standard input and reads lines until it finds the result. The main program builds them from
-- its flags, starts them, waits for a signal and stops them.
--
-- Which file models which part:
--   Prelude            names of the libraries; Go's maps, integers, errors and results.
--   Base64             package encoding/base64 as the broker and the protocol use it.
--   Broker/Message     internal/broker/broker.go, `Message`.
--   Broker/Config      internal/broker/broker.go, `Config`; internal/broker/sqs/fifo.go,
--                      `SQSFIFOBroker` and `NewSQSFIFOBroker`.
--   Broker/Groups      internal/broker/sqs/fifo.go, `activeGroups` and the functions that hold its
--                      mutex: `getMessagesFromInternalQueues`, `addMessagesToGroup`,
--                      `markGroupAsProcessing`, `markGroupAsAvailable`, and the sections of
--                      `getAvailableGroups`. Groups/Stuck puts them in any order, as a step relation.
--   Broker/Client      what the broker uses of the AWS SDK, the clock and the runtime: parameters.
--   Broker/Convert     the conversion of SQS messages in internal/broker/sqs/fifo.go.
--   Broker/Receive     `ReceiveMessages` and what it calls.
--   Broker/Requests    `Connect`, `Close`, `AcknowledgeMessage`, `PublishMessage`,
--                      `ExtendVisibilityTimeout`.
--   Protocol/Payload   internal/protocol/protocol.go: the payloads, and the part of `Protocol` that
--                      the pool calls, as an interface.
--   Protocol/Message   internal/protocol/message/message.go.
--   Protocol/Celery    internal/protocol/celery/json.go, which fills that interface; encoding/json is
--                      the parameter `Json`. Celery/Parse has `ParseMessage` of
--                      internal/protocol/message/message.go.
--   Pool/Types         internal/pool/pool.go.
--   Pool/Process       internal/pool/python/process.go; the operating system is the parameter `Os`.
--                      Process/State has the state, Pool/Process the methods.
--   Pool/Config        internal/pool/python/pool.go, `ProcessPool` and `NewProcessPool`.
--   Pool/Manager       internal/pool/python/pool.go, the worker and monitor goroutines and what they
--                      call, `Start` and `Stop`. Manager/State has the changes of the state that no
--                      process takes part in.
--   Pool/Execute       internal/pool/python/pool.go, `ExecuteTask` and `Stats`.
--   Pool/Goroutines    the same goroutines, interleaved between their critical sections: `Pc` says
--                      where one is, `Move` what it does there, `Step` picks one of them.
--   Worker/Types       internal/worker/worker.go, and `DefaultWorker` of internal/worker/factory.go.
--   Worker/Tasks       internal/worker/factory.go, the methods of `DefaultWorker`.
--                      Tasks/Accounting has its goroutines in any order, as a step relation, and
--                      Tasks/Draining their end.
--   Service            the worker on the broker: the polling loop with the sections of
--                      `ReceiveMessages`, and the goroutines of the tasks with those of
--                      `AcknowledgeMessage`, in any order, as a step relation. Service/Poll puts the
--                      code of `processTasks` together; Service/Gives and Broker/Receive/InService
--                      follow `ReceiveMessages` through that relation.
--   Observability      internal/observability: logging, tracing and metrics.
--   Main/Flags         cmd/worker/main.go, `Config` and `parseFlags`.
--   Main/Setup         cmd/worker/main.go, `setupBroker`, `setupProcessPool`, `setupWorker`.
--   Main/Life          cmd/worker/main.go, `setupObservability` and `main`: what it does before it
--                      waits for its signal, and after.
-- Files named Samples hold test data, files named Examples the theorems at concrete data.
--
-- How the code is rendered. A function that changes state takes the state and gives it back. A Go
-- map is a finite map, and the order of `range` an argument. `int`, `int64` and durations are
-- integers without a bound, and `int32(x)` keeps the low 32 bits; a time is a number of nanoseconds.
-- An error is a value, and a panic a third kind of result. The outside world is a state that the
-- parameters pass on, so that whatever SQS, the processes and the clock answer is covered.
--
-- Fuel. `getIdleProcess` calls itself, so it runs on fuel; it needs no more than the length of the
-- idle list and two rounds, and with that much it returns. All other loops recurse on a list or a
-- number.
--
-- What is not modelled. What the parts write to the log is left out. Of internal/observability the
-- functions that only pass a call on to the current span are left out. The Go interfaces have no
-- counterpart where one type fills them. `Start` of the worker only starts its loop: `Reachable` of
-- Worker/Tasks/Accounting and of Service begin there. In Service what SQS may answer is a
-- parameter, as a predicate on the state and the messages, and no other consumer of the queue is
-- there. In Pool/Manager one goroutine works on the pool at a time, with
-- the whole code; in Pool/Goroutines they interleave, and what the operating system does to a
-- process is any change of it; `Stop` only closes the channel there.
-- In Pool/Process a task's reader has the standard output to itself: `handleStdout`, which reads the
-- same pipe with a scanner that reads ahead, is left out, and so is `handleStderr`. SQS is taken to
-- set the identifier, the body and the receipt handle of every message, as it documents, so these
-- pointers are not nil, and memory to have no end, so that `make` panics on no capacity but a
-- negative one.
pub mod Prelude
pub mod Base64
pub mod Broker
pub mod Protocol
pub mod Pool
pub mod Worker
pub mod Service
pub mod Observability
pub mod Main

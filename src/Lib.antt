-- ===== src/Lib.antt =====
-- A verification library for neudc, a runtime that runs a pipeline of nodes which exchange messages.
--
-- The program's parts. A pipeline's YAML file is validated (neudc/core/utils/config_schema.py) and
-- names nodes and their edges, from which a pipeline (core/base/base_pipeline.py) builds, starts, watches
-- and stops the nodes. Every node owns a mailbox (core/communication/mailbox/zmq_mailbox.py)
-- with a bounded inbound queue that a receiver thread fills, and one PUSH socket
-- (core/communication/zero_queue/zero_pub.py) per target node; the mailbox is pickled into the process
-- of its node. A node calls its `process` through an error policy (core/policy/error_policy.py),
-- which retries, drops or stops, and records lost messages in a dead-letter file
-- (core/policy/dead_letter.py). A node may have several replicas, whose number follows the depth of
-- their queues (core/utils/autoscaler.py), and a service manages the pipeline processes
-- (neudc/service/pipeline_manager.py). The nodes of the voice assistant form one such pipeline: the
-- voice activity filter (core/node/filters/mixins/vad_mixin.py, with the echo canceller of aec.py)
-- opens turns and cancels them over the control channel, and the nodes for speech recognition, chat,
-- tools, speech synthesis and playing pass a reply on piece by piece, each keeping a buffer between
-- its messages, which the error policy may hand to it again. Image pipelines tile a large image, detect in
-- every tile and merge the detections (nn/models/det/sahi.py over nn/models/op.py), choose the frames
-- worth annotating (core/node/model/mixins/active_learning_mixin.py), mark near duplicates
-- (core/node/filters/mixins/hash_mixin.py), hand messages over a queue with
-- replies (core/communication/zero_queue/queue_transfer.py), and have their labels reviewed by way of
-- the service (neudc/service/api/labels.py).
--
-- The files. All paths are below neudc/.
--   Policy/Config       ErrorPolicyConfig: defaults, constraints, `_check_consistency`
--   Policy/DeadLetter   DeadLetterSink: `record_failure` is `record`, over the parameter `Disk`
--   Policy/Execute      ErrorPolicy: `execute`, with the drain of a generator (`drain`), `give_up`,
--                       `backoff_delay`; Runs, Accounting, Delivery and Backoff hold its laws
--   Mailbox/Inbound     the queue of ZMQMailbox: one definition for each queue call of the three
--                       `_enqueue_*` methods, `receive`, `stop`, and `Step`, the interleavings of the
--                       receiver thread with the node's thread
--   Mailbox/Outbound    ZeroQueuePub and the publishers of a mailbox, by target
--   Mailbox/Snapshot    `__getstate__`, `__setstate__` and the control channel of cancelled turns
--   Service/Autoscaler  AutoscaleConfig and ReplicaAutoscaler
--   Service/Manager     PipelineServiceManager
--   Routing/Schema      `validate_pipeline_config` and its checks
--   Routing/Wiring      RoutingFactory of core/communication/messaging/routing_factory.py
--   Routing/Factory     NodeFactory of core/node/node_factory.py
--   Routing/Pipeline    `run` of core/base/base_pipeline.py
--   Codec               `dumps` and `loads` of core/communication/messaging/codec.py, with the
--                       shared-memory segments as a dictionary of their bytes
--   Node                `_handle`, `_send_item`, `_should_send` and `_run` of
--                       core/base/base_node.py, over `execute`
--   Node/Process        the loop of core/base/base_process.py, with its time stamps
--   Node/Health         `_health_monitor`, beside the events of the loop
--   Voice/Messages      what the nodes exchange, and how a generator is run to its end
--   Voice/Vad, Echo     VadFilterMixin; ReferenceBuffer and AdaptiveEchoCanceller
--   Voice/Asr, Llm, Tts the mixins of core/node/model/mixins
--   Voice/Tools         AgentToolMixin, with the outbox of AgentToolNode and the range of a timer;
--                       Files holds the file tools
--   Voice/Player        AudioPlayerNode
--   Detect/Slices, Nms  `calculate_slices_coordinates`; `compute_iou`, `apply_nms` and the decoding of
--                       nn/models/op.py
--   Detect/Sahi         SAHIDetector of nn/models/det/sahi.py, over those two, with the stacking of the
--                       crops of nn/models/det/yolo.py
--   Frames/Learning     `active_select` of ActiveLearningMixin
--   Frames/Collection   `process` of the same mixin, which collects the frames
--   Frames/Hash         HashFilterMixin of core/node/filters/mixins/hash_mixin.py
--   Transfer            ZeroQueueProducer of queue_transfer.py, with ZeroQueueConsumer in Consumer
--   Service/Labels      service/api/labels.py: boxes and the review manifest, over the ids and
--                       guarded paths of Resolve
--   Base                exceptions as values (`Outcome`, `Act`), dictionaries, lists, numbers
-- Every Examples module runs the laws at small inputs.
--
-- How code is rendered. A call that may raise returns an `Outcome`; a call that reads or changes the
-- outside threads a world `W`, which keeps what was done before a raise. Floats are used through the
-- record `FloatOps`, text is String. A generator is a well-founded tree of yields and effects, whose
-- closing does nothing; one that never ends has no such tree. The attempts
-- recurse on the number that are left, the loops on the lists they go through, and `run_rounds`,
-- `run_receiver`, `run_loop`, `process_loop` and `watch` take the number of rounds that a statement is about.
-- The player's loop alone has fuel, one round for each sample, which is enough since no block is
-- empty; the suppression of boxes has one round for each box, since a round takes one away, and the
-- batches of the tiled detector one for each image; `put_loop` has fuel that a statement is about, and
-- a law says how much is enough. A row index into detections is the row itself. A path of the label
-- review is the list of its parts, and a file is found by its resolved path. Times are ticks of a clock that does not go back; the least duration of an utterance is in
-- milliseconds and compared without rounding; a text of the voice nodes is the list of its code points.
--
-- What is assumed. A law of the backoff names what it needs of the floating point operations, for
-- numbers that are not negative (`FloatLaws`), and that the power does not overflow; delivery by one
-- attempt names what may not touch the log (`OnlyDeliveries`); the dead-letter sink's silence names
-- which errors the disk raises (`FailsAsDocumented`); the codec's round trip takes pickle's own and
-- unused names for new segments, and that no empty buffer is shared; the backends, the sound device,
-- the tools and what Python's `re` and `json` find are parameters, of which a law says how they end.
-- Resampling and the sending of a control message may raise, and a law about them says of which
-- exceptions. The greedy choice takes that the scores are numbers in an order (`IsOrdered`,
-- `IsNumber`), the tiled detector that OpenCV gives images of the sizes asked for (`IsShaped`), the
-- label review that printed boxes and manifests are read back (`Works`), and the queue with replies
-- that a partner replies after a number of tries that is known (`Answers`).
--
-- What is not modelled: logging, the latency histogram and the Prometheus counters other than those
-- that go with `ErrorStats` and with the drops of a queue; pydantic's reading of the YAML values; what
-- ZeroMQ does with a message; the start and the join of a process node; the capture of sound and the
-- network tool; the letterbox of an image and the other nodes for images; the neural network
-- backends, which call libraries over tensors; the HTTP routes and the frontend.
pub mod Base
pub mod Policy
pub mod Mailbox
pub mod Service
pub mod Routing
pub mod Codec
pub mod Node
pub mod Voice
pub mod Detect
pub mod Frames
pub mod Transfer

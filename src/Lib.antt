-- ===== src/Lib.antt =====
-- Verification library for BEC, the Beamline Experiment Control: its scan server, its scan bundler, its
-- file writer, and the event handling and the storages of its client library.
--
-- A client sends a scan request. The scan guard checks it and forwards it; the scan queue makes a queue
-- item of it, whose request blocks hold the generators of instructions; the scan worker iterates over
-- the items, hands each instruction to the devices, waits for their answers, and reports the status of
-- the scan. The scan bundler collects what the devices read and emits each point when it is complete;
-- the file writer stores the points and writes a file when all of a closed scan are there.
-- Alarms and callbacks bring the outcome to the user of the client library.
--
-- Files and sources:
-- ScanServer/Messages: the messages and the scan objects, as far as the other files read them
--   (bec_lib/bec_lib/core/BECMessage.py).
-- ScanServer/Guard: ScanGuard (scan_server/scan_server/scan_guard.py); Guard/Verdicts has its proofs.
-- ScanServer/Queue: scan_server/scan_server/scan_queue.py. Status has its enumerations, Block is
--   RequestBlock and RequestBlockQueue, Item is InstructionQueueItem, Numbering is RequestBlock.scanIDs_head
--   and scan_number, Line is ScanQueue, Rounds is ScanQueue.__next__ round by round, and Manager is
--   QueueManager. Items are objects in a store, and the queue, the history and the active item are
--   references to them, since the code shares and changes them.
-- ScanServer/Worker: ScanWorker (scan_server/scan_server/scan_worker.py). State has its fields and
--   _check_for_interruption, Waiting the wait groups and the waits, Devices the instructions for devices,
--   Scans the opening and closing of scans and _instruction_step, Loop _process_instructions and run.
-- ScanServer/Scans: the scans (scan_server/scan_server/scans.py). Effects is what a generator of
--   instructions does, Stubs is ScanStubs (scan_server/scan_server/scan_stubs.py), Base is RequestBase and
--   the preparation of ScanBase, Core its other steps, Positions the functions that compute positions,
--   Kinds the step scans and run, Flyers the fly scans and those that follow a motor, Requests the
--   moves, time scans, acquisitions and interactive scans, Classes all of them by their class, and
--   Classes/Registry ScanManager and ScanAssembler (scan_manager.py and scan_assembler.py beside it). Hoare
--   has the rules for runs; Numbering, Points, Limits, Offset and Classes/FirstCome have the proofs.
-- ScanBundler: ScanBundler (scan_bundler/scan_bundler/scan_bundler.py). Storage has its fields and
--   cleanup_storage, Status handle_scan_status_message, Readings _add_device_to_storage and what it calls.
-- ScanBundler/Emitter: EmitterBase (scan_bundler/scan_bundler/emitter.py).
-- BecLib/Alarms: AlarmHandler (bec_lib/bec_lib/alarm_handler.py).
-- BecLib/Callbacks: CallbackHandler, CallbackEntry and CallbackRegister (bec_lib/bec_lib/callback_handler.py).
-- BecLib/Requests: RequestItem and RequestStorage (bec_lib/bec_lib/request_items.py).
-- BecLib/QueueItems: QueueItem and QueueStorage (bec_lib/bec_lib/queue_items.py); QueueItems/Lookups has
--   the proofs on its searches.
-- BecLib/ScanItems: ScanItem and ScanStorage (bec_lib/bec_lib/scan_items.py); ScanItems/Arrivals has the
--   proofs on the scans of a queue message.
-- Prelude: lists, dictionaries as association lists, and deques with a maximal length.
-- FileWriter: FileWriterManager (file_writer/file_writer/file_writer_manager.py). Storage is its
--   ScanStorage and what is read from Redis into it, Manager the handling of statuses and segments,
--   Complete the proofs.
-- Tests: samples, and the theorems at concrete runs.
--
-- State is passed from one call to the next, exceptions are values, and what other threads do is an
-- argument: the states that the polls of a restart find, the messages that the bundler's polls for a
-- scan find, and the schedule of statuses and device replies of the worker, which blocks when the
-- schedule is used up. Time is the number of polls: a restart polls 101 times, which is how often 0.1
-- goes into its ten seconds. Bounds of deques are those of the code: 100 items of history, 10 scans of
-- the bundler, 100 alarms, 50 requests, queue items and scans of a client, and 1000 pending events of a
-- callback. The loops over a generator are recursions on what is left of it; drain and the other
-- iterations to the end take a number of calls, and the theorems on them say which number is enough.
--
-- A scan's generator is a function from the scan object to its outcome, which holds what was yielded;
-- what Redis answers to its polls is part of the object, and a run waits when that is used up. Its
-- loops recurse on the answers or on the positions. Floats and numpy are interfaces with the operations
-- that the code uses; the laws of numpy that a theorem needs are its hypothesis.
--
-- For the scan queue the scan classes, the assembler with the class of its exceptions, uuid4 and redis
-- are parameters. Not modelled are the services around these parts, pre-scan macros, the path
-- optimizer, the device server, the HDF5 files, data processing, SciHub, and the command line client.
-- In the worker the queue item is given by the list of its instructions, and attributes of a scan that
-- are only copied into the scan info are left out. In the bundler the motors of a scan are taken to be
-- known to the device manager, and every stored scan to be marked as initialized.
pub mod Prelude
pub mod ScanServer
pub mod ScanBundler
pub mod BecLib
pub mod FileWriter
mod Tests

-- ===== src/Lib.antt =====
-- A verification library for simgadget: the library that drives iOS simulators over idb's companion
-- (packages/simgadget) and the server that offers it to agents (packages/simgadget-mcp).
--
-- How the program goes together. A host makes a handle on a simulator (packages/simgadget/src/
-- lifecycle.ts), which boots it and waits until it serves its accessibility tree. The handle
-- (simulator.ts) reads that tree, finds elements in it, and taps, types and takes screenshots. The
-- trees come raw from the companion; the pure functions that make sense of them stand in ax/. A
-- bridge that is wedged is restarted under the reads, and all handles of a process share what they
-- know of a simulator in a registry (internal/registry.ts). The server keeps a handle per session
-- (packages/simgadget-mcp/src/sessions.ts) and deletes what it created itself when it goes.
--
-- Which file models which part.
--   Prelude            lists, integers, texts, forests, dictionaries and runs of code
--   Ax.Element         RawAXElement, AXElement, Frame and isDegenerateTree (ax/tree.ts)
--   Ax.Canonical       canonicalise, reconcileType (ax/tree.ts)
--   Ax.Prune           isInteresting, pruneTree (ax/tree.ts)
--   Ax.Remote          translateRemoteSubtrees (ax/tree.ts)
--   Ax.Geometry        frameContains, distanceOutsideFrame, isRemotelyHosted, centreOf (ax/tree.ts)
--   Ax.Locate          locateInTree (ax/tree.ts)
--   Ax.Match           normaliseForMatch, matchInTree, best, sameElement, isToggle (ax/tree.ts)
--   Ax.Probe           collectProbeCandidates, uniquelyLabelled (ax/tree.ts)
--   Ax.Orientation     ax/orientation.ts
--   Ax.Input           ax/input.ts
--   Ax.Tap             ax/tap.ts
--   Ax.Recovery        ax/recovery.ts
--   Registry           internal/registry.ts
--   Simulator.Recovery recoverWedgedAccessibility, as many handles run it at once (simulator.ts)
--   Simulator.Reading  withAccessibilityRecovery, as one handle runs it (simulator.ts)
--   Simulator.Tapping  tap, activateToggle, sendTouch (simulator.ts)
--   Simulator.Describing  describeScreen, diagnoseEmptyTree, readScreenTree, screenFrom (simulator.ts)
--   Simulator.Sizing   screenSize, portraitPointDimensions, portraitResizeDimensions,
--                      captureOrientation (simulator.ts)
--   Simulator.Ladder  describeAll (simulator.ts)
--   Simulator.Finding  findByLabel, findByMarker (simulator.ts)
--   Simulator.Orienting  noteRootFrame, portraitTransform, probeOrientation (simulator.ts)
--   Simulator.Pointing describePoint, readPoint (simulator.ts)
--   Simulator.Calls    runSimctl, mapSimctlError, withClient of the handle (simulator.ts), findDevice
--   Simulator.Verbs    state, boot, showWindow, waitReady, shutdown, delete, installApp, launchApp,
--                      restartBridge, releaseCompanion (simulator.ts)
--   Simulator.Inputs   rotate, typeText with its gate, swipe, pressButton (simulator.ts)
--   Simulator.Using    calls of these verbs one after the other
--   Simulator.Recording  startRecording, stopRecording (simulator.ts) and the process (capture.ts)
--   Capture.Args       the argument builders (capture.ts)
--   Capture.Pipeline   captureScreenshot (capture.ts)
--   Lifecycle.Devices  parseDevices, findDevice, pickDeviceType, pickLatestRuntime (lifecycle.ts)
--   Lifecycle.Boot     waitUntilDriveable (lifecycle.ts)
--   Lifecycle.BootStatus  waitForBootStatus (lifecycle.ts)
--   Lifecycle.Printed  parseLaunchPid, deriveDeviceName, isAlreadyBootedError (lifecycle.ts)
--   Lifecycle.Making   createSimulatorWith, attachSimulatorWith (lifecycle.ts)
--   Idb.Binary         where the companion comes from (idb/companionBinary.ts)
--   Idb.Fetching       fetchToFile, by its requests (idb/companionBinary.ts)
--   Idb.Keymap         idb/keymap.ts
--   Idb.Typing         typeText (idb/client.ts)
--   Idb.Companions     CompanionManager, in segments between waits (idb/companionManager.ts)
--   Idb.Exclusive      exclusively (idb/companionManager.ts)
--   Idb.Calling        withClient, isDeadChannel (idb/companionManager.ts)
--   Idb.Output         what is read of stdout and stderr (idb/companionManager.ts)
--   Mcp.Sessions       sessions.ts of the server
--   Mcp.Env            env.ts of the server, and the library's reader
--   Mcp.Transport      parseArgs, resolveConfig, allowedHostHeaders, runHttp's routing (transport.ts)
--   Mcp.Paths          paths.ts of the server
--   Tests              examples
--
-- How the source is read. A text is the list of its UTF-16 units, and for typing that of its code
-- points. A coordinate is an integer in sixths of a point, so that halves and the thirds of a scale
-- are exact; a duration is in milliseconds. A JavaScript value of unknown type is `Value`. A tree of
-- elements is a `Forest`, whose nodes have their keys and their children. A `Map` is an association
-- list. What processes, the companion, the clock and files answer is a parameter. An asynchronous
-- method is cut where it waits, into the functions that run between two waits, and whatever
-- happens in between is a list of events, in any order.
--
-- Loops. The walk for a secure field runs on fuel, one more than there are elements. The probes
-- after a restart run on a fuel of 20, the number of seconds of their window, since each waits one
-- second. The boot loop runs on a fuel of its budget in intervals of two seconds and two more. The
-- walk for a build of the companion runs on as much fuel as its path has characters, and one more.
-- That these are enough is part of the theorems on them. The resolver of the companion can run for
-- ever, and the theorems on it say on what fuel it does not. Every other loop is structural.
--
-- Not modelled: gRPC and the generated client, processes and streams, the SDK's transport, the
-- prose of errors, logs, and tool registration. Of the handle, what a screenshot does with the
-- orientation and the dimensions it has read is not modelled either.
pub mod Prelude
pub mod Ax
pub mod Capture
pub mod Idb
pub mod Lifecycle
pub mod Registry
pub mod Simulator
pub mod Mcp
pub mod Tests

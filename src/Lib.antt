-- ===== src/Lib.antt =====
-- Verification library of the Michi Music Stream receiver firmware.
--
-- The receiver takes one audio session at a time: a controller negotiates it over HTTP, the audio
-- engine receives its RTP packets over UDP, and a jitter buffer, a volume stage and an output
-- pipeline play them. Around the session stand a device state machine, an operations gate that says
-- whether playback and firmware writes are permitted, and a boot health gate that judges a fresh
-- image and publishes the gate's state.
--
-- Parts, with the C functions that they translate; paths are from the repository's root:
--
-- - Prelude: shared tests, lists, integers, and the status codes of `esp_err_t`.
-- - Rtp (firmware/components/michi_audio): `Distance` is the 16-bit sequence distance, `Guard` the
--   header parse and the verdict of rtp_guard.c, `Loss` its loss count, `BufferPolicy` the prefill
--   and recovery policy of michi_audio_buffer.c.
-- - JitterBuffer (michi_audio/michi_jb.c): the array of entries, the payload pool and every function
--   on them. A pointer into the array is an index together with the entry it points to.
-- - OpsGate (michi_product_profile/ops_gate.c): the transition test, set, recover and the two
--   permissions. `Race` is the compare-and-swap loop of `michi_ops_set` with the writes of other
--   tasks in between as an explicit list of rounds.
-- - Boot (michi_ota/michi_ota_logic.c, firmware/main/app_main.c, michi_ota/michi_ota.c): the
--   classification of the running image, the boot decision, the state that app_main publishes, one
--   round of its supervision loop, and the guard that an update puts around the gate. A round reads
--   the gate once and the call that changes it reads it again: the two values are two arguments, as
--   another task may move the gate in between.
-- - StateMachine (michi_state/michi_state.c): the transition table, the event map, posting,
--   requests, dispatch, the last-error slot and the observers. The queue is a list of bounded
--   length; a dispatch returns the calls of observers it makes.
-- - Session (michi_session/michi_session.c): negotiation, start, stop, abort, patch, heartbeat,
--   queries, now-playing metadata, the lease watchdog and the session task. The statics are the
--   record `Statics`. The engine, timer, clock, gate, state machine, display, volume and random
--   source are the record `Devices` of operations over a joint state `W`; the theorems hold for any
--   `Devices`, so that no law of them is assumed. Each call holds the session's mutex from its first
--   read to its last write and is one step; `Trace` runs sequences of them, with the devices in a
--   fresh condition at each call.
-- - Volume (michi_volume/michi_volume.c): the configured level, the gain ramp and the scaling of
--   samples.
-- - Engine (michi_audio/michi_audio.c): the session task. `Clock` is the extended RTP clock and the
--   jitter estimator of michi_rtp_clock.h and michi_rtp_jitter.h, `Policy` is stream_policy, `Recv`
--   is session_recv from the answer of the socket on, `Playback` the fill, the silence and the drain,
--   and `Task` the loop of session_task with its start and its exit. What the task calls is the
--   record `World` of operations over a joint state `W`: the socket, the flags that other tasks set,
--   the pipeline's writes and the clock; each may change `W`, so that the theorems cover every
--   interleaving with the controlling task.
-- - Output (michi_audio_output/michi_audio_output.c): `Ring` is the PCM ring, `Ring.Queue` the queue
--   that it implements, `Config` the checks and the geometry of init, `Control` the critical sections
--   of the control commands on both sides, and `Control.Quiesce` a whole QUIESCE with the writes of
--   producers in every gap as explicit lists. `Lifecycle` has the critical sections of init, start,
--   stop and deinit, and `Lifecycle.Steps` their interleavings with producers, control callers and
--   the worker as lists of events. The event `work` runs the worker's handling of a
--   command as one step, although the C does it in several sections with the driver's blocking write
--   between them, which `Control.Quiesce` takes apart for a QUIESCE. A section that only writes the
--   barrier is taken together with its neighbour, and a task that is inside is counted by the counter of its kind, so below 2^32 of
--   them. The answers of the driver, the allocator and the scheduler are arguments.
-- - Semver (michi_ota/semver.c, michi_ota/michi_ota_logic.c): parsing and comparing versions, and the
--   latch that guards an update. `Newer` says what it means for a version to be above another. Numeric suffixes are read into 32 bits, as on the target.
-- - Identity (michi_identity/michi_identity.c): base64url both ways and the id of a device. `Crypto` is
--   the record of the third-party digest and signature functions.
-- - Home (michi_home/michi_home.c): the home's credentials, the bytes that memberships, device proofs
--   and revocations sign, their verification, and the list of revocations. `Payload` is what the
--   bytes are put together from. The flash store's answer is an argument.
-- - Auth (michi_home/michi_auth.c): `Requests` hands out challenges, `Handlers` opens sessions and
--   checks tokens, `Histories` runs the calls, and those of Home that change what they read, in any
--   order. A verification holds the lock twice, so that it is two calls of a history; its checks read
--   the home at the first. Random bytes, the clock and the server's id are arguments.
-- - Tests: runs at concrete inputs and an instance of each theorem listed below.
--
-- How the C is read: an unsigned w-bit counter wraps by `% 2 ^ w`; a signed value is an integer of
-- Prelude.Int; a time is the natural number of microseconds since boot; a C string is the list of
-- its bytes before the NUL, and a pointer that may be NULL an Option. `sscanf`, `strlcpy`, `snprintf`
-- and `strcmp` are translated as far as the code uses them. Log lines are left out. Loops
-- are over a list or a fixed count, with three exceptions: `silence_rounds` has as many turns as there
-- are samples, which is enough since each turn but the last sends one at least; the turns of a fill
-- before its deadline are the list of what they see; and `run_task` takes at most a given number of
-- turns, the task itself running until it is stopped.
--
-- Not modelled: drivers, sockets, HTTP routing, flash storage, Wi-Fi, the display and the
-- third-party cryptographic code. Of the audio engine the start and the stop of its task, of the
-- output pipeline the worker's playing loop and the write with its deadline, of the home the loading
-- from flash, its stored device membership and the factory configuration, and discovery are left for
-- later.
pub mod Prelude
pub mod Rtp
pub mod JitterBuffer
pub mod OpsGate
pub mod Boot
pub mod StateMachine
pub mod Session
pub mod Volume
pub mod Semver
pub mod Engine
pub mod Output
pub mod Identity
pub mod Home
pub mod Auth
pub mod Tests

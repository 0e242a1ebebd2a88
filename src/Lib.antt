-- ===== src/Lib.antt =====
-- The Go side of a network video recorder, with the writer of its ring buffer in C++.
--
-- The program: a C++ process, a worker, captures cameras and writes their frames to a ring buffer in
-- shared memory, one channel for each stream (cpp_engine/memory). Go starts the workers, tells them by
-- lines on a pipe which streams to capture and reads their messages (nvr_core/process), reads the
-- frames of each channel (nvr_core/shm) and hands them to a hub, which sends them to its subscribers
-- (nvr_core/stream); nvr_core/transmux packs such packets into an MPEG transport stream. Finished files
-- come back as messages, wait in the ingester for the database, are searched as timelines and
-- playlists, exported by ffmpeg, and evicted when the disk is full (nvr_core/service). Licenses limit
-- the cameras (nvr_core/license); requests pass an authentication before a handler (nvr_core/apiserver).
--
-- Base: shared helpers. Base/Tests has Boolean tests on the native numbers, Base/Lists lists over them,
--   Base/Int the int64 of Go with its wrap-around, Base/Assoc maps as association lists.
-- Shm: nvr_core/shm/frame.meta.go and shm.go, cpp_engine/memory/SharedMemory.h and
--   SharedMemoryLinux.cpp. Meta is the 64-byte header in both languages; Ring is `RingBuffer`, its
--   `ReadFrame` with the sums of uint32 and the panics of slices, and `GetMetrics`; Writer is
--   `WriteFrame`. Fifo, Append, Wrap and Room relate a channel to the queue of its unread frames,
--   Safety is about channels with any bytes, Overrun about the writer's collision check, Stale
--   about headers of an earlier lap; Line is the queue as Process/Relay uses it.
-- Transmux: nvr_core/transmux/clock.go and ts.muxer.go, nvr_core/stream/codec.go. The calls of the
--   go-astits muxer are the output of a session, and whether a write succeeds is an input.
-- Stream: nvr_core/stream/hub.go and packet.go. `Run` serves one event at a time, and so does `step`;
--   a subscriber is a cell of a heap, its channel a list with a room. Hub/Delivery is about one
--   packet and one subscriber, Hub/Broadcast about all of them, Hub/Invariant about every event,
--   Hub/Joiner about those who wait for a keyframe.
-- Segment: nvr_core/db/models/segment.go, one recorded file.
-- Process: nvr_core/process and nvr_core/shm/shm.reader.go. Camera is camera.go with the heap of
--   the cameras, which the manager and the workers share by pointer; Reader is shm.reader.go
--   without its polling loop, which is Relay; Relay/Order composes it with the writer of Shm;
--   Worker is worker.go, the commands, and Worker/Response the handlers of messages;
--   Worker/Recover is the life of the process; Worker/Restart, Worker/Frame, Worker/Handlers and
--   Worker/Faults are about these; Manager is manager.go, with Manager/Assign, Manager/Sound and
--   Manager/Runs about it. A call is one step, so calls do not interleave; of the manager's calls
--   only RemoveCamera takes the mutex, for a part; the restart that a goroutine makes after a
--   sleep is a step of its own, `fire_restart`.
-- Service: nvr_core/service and nvr_core/utils/m3u8. Timeline is `segmentsToTimeline` with
--   `sort.Slice` as a parameter, Sessions is mem.userstatus.go, Ingest is ingest.go with
--   `BulkInsert` as a parameter, Playlist is playlist.go and builder.go, where a line of a
--   playlist is a tag. Retention is system.retention.go with `PruneOldest`; Retention/Eviction is
--   about its loop. Export is export.task.manager.go, and its children are export.go: Concat the
--   list of files, Codec the arguments of ffmpeg, Progress its output, Watermark the places,
--   Placed the image with its text, Ffmpeg the export as a whole with the goroutine of its
--   handler; Clips and Lives are about these. Auth is auth.go over Sessions and the table of
--   refresh tokens, with Auth/Cases, Auth/Tokens, Auth/Revoked and Auth/Deactivated about it;
--   Users is user.manage.go over the table of users.
-- Logger: nvr_core/logger/buffer.go.
-- License: nvr_core/license/manager.go with `LoadToken` and `LoadClaims`. The mutex is a field of the
--   state, and a goroutine that waits for itself is a result, `deadlock`. Sums, Ledger and Runs are about
--   the number of cameras, Faults and Blank about expired licenses.
-- Api: nvr_core/apiserver. Middleware is middleware/auth.go, Users the handlers of user.manage.go that
--   change users, composed of Service/Users and Service/Auth; Users/Guards, Users/Lockout and Users/Faults
--   are about them.
-- Each Tests module has concrete runs and the theorems at concrete inputs.
--
-- Bounds. Every loop is structural recursion on a list or a number, but for the pruning loop of
-- Retention, which has as much fuel as the table has rows and one more: each round that goes on takes a
-- row away. A quotient of floating-point numbers (the use of the disk, the progress of an export) is an
-- exact fraction, without the rounding. uint32 and
-- int64 sums wrap, and a theorem that needs them exact says how far from the limits its numbers are;
-- counts of restarts and ids are exact. Ids of cameras and workers are natural numbers, as row ids and
-- indices are; channel ids may be -1. A panic of Go is `none` in a result of type Option.
--
-- Not modelled: starting and stopping the pool of workers, the estimation worker; maintenance,
-- playback and the services of cameras and layouts; the HTTP handlers but for those above, SQL but
-- for the queries above, ONVIF, network and hardware probing, cryptography, logging, configuration
-- and the rest of the C++ engine, which are I/O, library calls or another language.
pub mod Base
pub mod Shm
pub mod Transmux
pub mod Stream
pub mod Segment
pub mod Process
pub mod Service
pub mod Logger
pub mod License
pub mod Api

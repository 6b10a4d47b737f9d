-- ===== src/Lib.antt =====
-- wei, the connected-performance daemon of a gateway: it receives link-quality samples of the
-- attached Wi-Fi clients, scores each client every 5 s, flags degraded clients, and publishes a
-- report when a client's verdict changes.
--
-- The parts, and the modules that model them (paths from the repository's root):
--   source/weid_wire.c, include/weid_receiver.h   Wire: a datagram (`weid_on_datagram` is
--       `on_datagram`) is parsed and each of its entries staged into the engine.
--   source/wei_infer.c, include/wei_infer.h       Infer: the engine. `Infer.Types` has its data,
--       `Infer.Windows` the sliding windows and bands of a client, `Infer.Score` the score and the
--       attribution, `Infer.Flags` the three flags, `Infer.Ledger` the ring of episodes, and
--       `Infer.Engine` the membership map, `stage_record`, and `tick` with its sweep and reaps.
--   source/wei_conn_scorer.c                      Scorer: the scoring kernel that the engine calls.
--   source/wei_track.c, include/wei_track.h       Track: the excursion ledger of each client, which
--       the instability flag ticks and collects.
--   source/wei_perfreport.c                       Perfreport: the report of a scored tick, behind
--       the gate of the pillar, the warm-up and the change of verdict. A `Report` has what the
--       members are made of, and which of them cJSON has added.
--   source/wei_poll.c, include/wei_poll.h         Poll: the loop that drains the socket, ticks and
--       revives its endpoint. A pass of the loop is given what the system calls return.
--   source/weid_wire.c with the loop              System: the callbacks of the daemon on the state
--       of the engine and of the publisher.
--   source/weid_rfc.c                             Rfc: the enable of the pillar and its file.
--   source/wei_connperf_dml.c                     Dml: the properties and the event of the data
--       model, and their registration.
--   source/weid_bus.c                             Bus: the one handle, over the registration.
--   source/wei_report_publish.c                   Report: a record per client and interval, behind
--       the enable and the handle.
--   source/weid_daemon.c                          Daemon: `main` over Rfc, Bus, Wire and Poll.
--   source/wei_util.c                             Log: the capped debug log.
--   source/wei_platform_cap.c                     Platform: the table of the tiers.
--   tools/wei_sockdump.c                          Sockdump: the tool that prints datagrams.
--   source/wei_life.c, include/wei_life.h         Life: the roster of attached stations and the
--       detectors of each interval, over the same tracker and kernel. `Life.Walk` is the interval's
--       loop by slots, with what other threads do while the guard is free; `Life.Sinks` has the
--       slots of its callbacks.
--   the clock of the loop, the engine and the roster   Clock: `now_ms`.
--   include/wei_conn_metric.h                     Metric: the record that all of them pass on.
-- `Rbus` has what the sources use of the bus headers. `Slots` is the scan of a fixed table of client
-- slots that the tracker, the engine, the report and the roster share. `Base` has lists as arrays,
-- ring buffers of eight places, signed integers and hardware addresses. `Double` is the C type `double` and the functions of <math.h>: a record of operations,
-- which every definition over it takes as an argument, and the laws of IEEE 754 and libm that the
-- bounds use, NaN and the infinities included; `Double.Fixed` is an instance of them in thousandths, and
-- `Double.Special` one with NaN, the infinities and overflow; the examples run on both.
--
-- A pointer into a table is an index and NULL is `none`; a table is the list of its 64 entries; the
-- parallel arrays of the engine are one list of rows. The clock, the allocator, cJSON, the bus and
-- the layout of `stats_arg_t` are arguments. Machine integers keep their wrap-around where the code
-- can reach it, written `% 2 ^ w`, and their saturation where the code saturates. The one loop on
-- fuel is the growing buffer of `Perfreport.print_from`: it starts at 512, 1024 or 2048 bytes and
-- doubles up to 2048, so its three turns are enough, and what runs out of them would be
-- `looping` (`Perfreport.Buffer.print_from-Ends`).
--
-- The system calls of the loop are the fields of `Poll.Pass`: what the sources make of a result is
-- modelled, what the kernel does is not. The open descriptors and the handles and elements that the
-- bus holds are kept beside the state of the code, so that what is left open can be stated.
--
-- Where two threads meet, in the roster, each section under the guard is one step; the report that
-- follows a section is put into the same step, since it reads only what the section copied.
--
-- Not modelled: NULL arguments that no caller passes, the text that the caller's format gives a log
-- line, the bytes that a failed `snprintf` leaves, `wei_infer_destroy`, which frees the engine, and
-- the signals and the malloc tuning of `main`.
pub mod Base
pub mod Slots
pub mod Track
pub mod Metric
pub mod Double
pub mod Scorer
pub mod Infer
pub mod Rbus
pub mod Platform
pub mod Clock
pub mod Rfc
pub mod Dml
pub mod Bus
pub mod Report
pub mod Poll
pub mod System
pub mod Daemon
pub mod Log
pub mod Sockdump
pub mod Perfreport
pub mod Wire
pub mod Life

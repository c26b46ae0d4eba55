-- ===== src/Lib.antt =====
-- The kernel module `trigger6`, which drives the JCD543 USB display adapter: its policies, its JPEG
-- encoder and NV12 converter, and the driver's transport, queues, senders, worker, probe and disconnect.
--
-- Parts of the program and the files that model them:
--   * Policy/Match models kernel/trigger6_match.h, Policy/Query kernel/trigger6_query.h, Policy/Quiesce
--     kernel/trigger6_quiesce.h and Policy/Refresh kernel/trigger6_refresh.h. The driver asks these pure
--     tests before it binds, before a control request of a read-only run, before the last request of an
--     unbinding device and before a timed refresh. Their C structures are records, and a string that
--     says why something is skipped is a constructor.
--   * Codec models kernel/trigger6_codec.c. Codec/Writer is the bit writer (`struct t6_jpeg_ctx` is
--     `JpegCtx`; a writer takes a context to the next one and says if it succeeded), Codec/Huffman and
--     Codec/Quant build the tables of Codec/Tables, Codec/Sample reads the blocks of a frame, Codec/Block
--     codes one block, Codec/Headers writes the markers, and Codec/Encode composes them as
--     `t6_jpeg_encode_xrgb8888` does. Codec/Nv12 is `t6_convert_xrgb8888_to_nv12`. Codec/Decode is a JPEG
--     decoder written from the standard: Codec/Decode/Symbols reads one Huffman code bit by bit from the counts
--     and values in the file, Codec/Decode/Block a block and Codec/Decode/Scan the macroblocks. It has fuel for the
--     63 AC coefficients of a block, and each symbol takes one at least. A writer that `Sends` a value adds bits which
--     the reader takes back, whatever comes behind them.
--   * Driver models kernel/trigger6_drv.c with the types of kernel/trigger6.h. Driver/Device has the state
--     (`struct t6_device` and `struct t6_head`; a head is got and put back by its index) and the metrics,
--     Driver/Addressing the layout of the adapter's memory, Driver/Queue the pending frames, the turns of
--     the two heads and the pacing, Driver/Usb control requests and bulk writes, Driver/Damage the rows
--     that changed since the last frame, and Driver/Packet the headers on the wire. Three senders use them:
--     Driver/Raw (`t6_send_frame_raw`), Driver/Jpeg (`t6_send_jpeg_blob` and the calls of the encoder) and
--     Driver/Nv12. Driver/Frame is the worker `t6_frame_work`, which takes a frame out of the queue,
--     encodes and sends it; Driver/Keepalive has the timers that wake it, and Driver/Fault
--     `t6_trip_transport_fault`, the cancelling of all work, suspend and resume.
--   * Driver/Probe is `t6_probe_head` with the check of the EDID, Driver/Timing the query of the timings,
--     Driver/Chip
--     the buffers of the heads and `t6_chip_init` with the requests of Driver/Requests; Driver/Bind composes them as `t6_usb_probe`, and
--     Driver/Unbind is `t6_usb_disconnect` with the last monitor-off. Driver/Modeset has the callbacks of
--     the CRTC and the plane and kernel/trigger6_connector.c's detection, Driver/Misc the write of an image by a program, the
--     check of a plane and the connector's modes, Driver/Export the read of a frame by a program and the poll, Driver/Report
--     the text of the sysfs attribute, and Driver/Settings the checked module parameters and the connector's initialisation. Driver/Events relates a device to the one after each of these events.
--   * The modules below one of these (Codec/Writer/Stream below Codec/Writer, and so on), Codec/Bounds and Codec/Enough
--     hold what is proved about it, with the notions that the statements need.
--   * Prelude has what the others share: lists, tests and integers over the native numbers, machine words
--     with their wrap-around written out, the kernel's macros and error codes. Examples has concrete inputs.
--
-- Bytes are natural numbers and a C integer of w bits is a natural number with its `% 2 ^ w` written out;
-- a signed one is an integer. A handler that changes the device takes it and gives it back, with the return
-- value, negative for an error. Locks and work queues do not appear: each operation is one step, and a
-- scheduled work item or an armed timer is a field. The worker has two clocks, one of the time before the frame
-- is prepared and one, `later`, of the time behind it. The USB core, the allocator, the power state and the
-- clock are the parameter `Bus` or `Clock`, the display core's answers to a probe are `Core`, and what it
-- decides elsewhere (`drm_mode_equal`, `drm_edid_is_valid`, the heads that a shutdown disables) are arguments; `Device.wire`
-- records every transfer handed to the USB core. The encoder's Huffman tables, which live
-- in the codec, are an argument of the worker.
--
-- Fuel: the loop of `t6_jpeg_put_bits` has the number of buffered bits, of which each round takes eight; the
-- loop of `t6_bulk_write` has one more than the bytes, of which each round takes one at least; the
-- loop over the four EDID descriptors has five rounds. The
-- other loops are recursion over the range that the C loop counts through.
--
-- Not modelled: the glue of the display core (registration, tables of callbacks, the objects of a head), the
-- sleep and the copy of a read (what rouses the reader is a list), the characters that a line of text becomes (they are parameters), and the scripts of control,
-- tools and packaging, which have little logic of the driver's own.
pub mod Prelude
pub mod Policy
pub mod Codec
pub mod Driver
pub mod Examples

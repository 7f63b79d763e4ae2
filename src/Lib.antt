-- ===== src/Lib.antt =====
-- zstreamer: the core of a streaming library in C, in which elements of a pipeline pass buffers
-- on.
--
-- Buffers come from pools, wait in queues between the threads of the elements, and are paced by
-- their timestamps before a sink presents them; a WebRTC sender adapts its bitrate to feedback.
-- Nine parts are modelled; the elements use each on its own, the first three meet in the buffers
-- and in the result codes, and pads negotiate with capabilities.
--
-- Types: the result codes of include/zst_types.h and arithmetic modulo 2^32 and 2^64.
--
-- Pacer: src/zst_timestamp_pacer.c and .h. The structure is the record Pacer, with one function
-- for each C function. The loop of zst_timestamp_pacer_wait is wait_loop: each turn reads the
-- clock, calls round, which decides, and sleeps for what it says. The clock is a parameter
-- (ClockEnv), with laws on its readings (ClockLaws). The loop runs on fuel, one unit for each
-- turn; the theorem on it gives the amount that is enough. Pacer/Invariant, Pacer/Schedule and
-- Pacer/Counts hold the proofs. The mutex of the pacer is released during the sleep; what other
-- threads may do then is not modelled.
--
-- BufferPool: src/zst_buffer_pool.c and the creation of buffers in src/zst_buffer.c. A function
-- of the model is what one critical section of the C function does; BufferPool/System
-- interleaves those of any number of threads. A buffer is known by its address; the heap of the
-- model says which creations are served, and lists the freed addresses. The flag has_allocator
-- says whether pool->allocator is set. BufferPool/Config has the configurations, Bounds the
-- invariant, Loops and Operations its preservation and Reuse what a caller gets.
-- A function acquire is one round of zst_buffer_pool_acquire; acquire_call is all of it, with a list
-- that says how each wait ends and in which state of the pool, and BufferPool/Calls is about it. The reference counts of buffers
-- in use, their destroy hook and the reuse of freed addresses are not modelled, nor the order in
-- which destroy frees the idle buffers.
--
-- Queue: src/zst_queue.c, a ring with a sequence number in each slot. The functions of Queue are
-- the actions between which other threads may run: a look at a slot, the compare-and-swap of
-- head or tail, and the stores to a claimed slot, which no other thread reads before the
-- sequence number is released, and which therefore count as one action. Queue/Threads
-- interleaves them; memory is sequentially consistent. The positions stay below 2^63 - 2^33,
-- where the sequence numbers do not wrap. Queue/Capacity is the rounding to a power of two;
-- max_buffers is at most 2^31 where it says so. Queue/Slots, Stores, Preserve, Claims and Runs
-- prove the invariant of Queue/Invariant, and Queue/Order and Looks draw the conclusions.
-- Queue/Calls is a whole push and pop by a thread that is alone, with the limits on buffers,
-- bytes and duration, and flush, on fuel; Calls/Alone, Calls/Flushes and Calls/Pushes compare
-- them with a list, and Calls/Limits is about the limits on
-- buffers and bytes; nothing is shown of the limit on the duration. Mutex, condition variables and
-- deadlines only let threads sleep: a thread that wakes looks again. A buffer's size is assumed
-- not to change in the queue.
--
-- Twcc: src/zst_webrtc_twcc.c. A message is the list of its bytes. Twcc is the sending side,
-- process_outgoing with its history; Twcc/Feedback is the parser twcc_parse_ccfb, where an
-- offset into the message is the list of the bytes left, so that its loops are structural;
-- Twcc/Estimator has the estimators. The C type float is a parameter (Floats), with no laws, so
-- what is proved holds for any rounding. The structure zst_webrtc_twcc is split into Sender,
-- Reference and Estimator, by who writes what; the lock, the log and the allocation of the
-- message that libdatachannel sends are not modelled, nor the editing of session descriptions
-- (zst_webrtc_twcc_parse_offer and _inject_answer). Twcc/Injection, History, Feedback/Chunks,
-- Feedback/Counts and Estimator/Bitrates hold the proofs.
--
-- PadEvent: src/zst_pad_event.c, the events that travel between pads: one function for each
-- constructor, and the reference count, with its life in PadEvent/Life. Capabilities are known
-- by their address here.
--
-- Redundancy: src/st2110_redundancy_demux.c, and the push of src/st2110_redundancy_mux.c, which
-- sends a stream over two links. The record Demux is st2110_redundancy_demux_t; push is
-- st2110_redundancy_demux_push, in which admit looks the sequence number up in the history and
-- switch decides which link is followed. The loop that clears flags, clear_from, has fuel 4096:
-- it runs only for a packet less than 4096 ahead. Every reading of the clock comes with the
-- buffer. failover_detection_ms is the 64-bit number that the int is converted to. Reference is
-- an independent description on positions in the stream, Window, Steps, Merge and Delivery
-- compare the element with it, and Links and Silence are about failover.
--
-- Caps: src/zst_caps.c, the capabilities that pads negotiate about. A C string is the list of its
-- bytes (Common/Texts), an int or a double the number that its bits make. Caps has the data, the
-- fields and the creation of structures, Caps/Settings one function for each zst_caps_set_* and
-- zst_caps_get_*, and Caps/Negotiation zst_caps_intersect, zst_caps_is_fixed and zst_caps_fixate.
-- The list of structures is the linked list; that allocations fail and that memory is freed is
-- not modelled. Negotiation/Meaning says which formats capabilities admit, Merging, Keeping,
-- Meeting and Intersecting relate the intersection to it where no generic fields clash, and Fixing
-- and Fixed the fixation. Streams has formats with values under generic keys; Generic, Started,
-- Clashes, Structures and Accepting are about the intersection with all its fields.
--
-- Pads: src/zst_pad.c, as far as it links pads. The record Pads has the fields of all pads by
-- address, and a function of Pads is what a C function does in one critical section: link is
-- zst_pad_link with the result of the negotiation, and zst_pad_unlink is unlink_look, unlink_pair
-- and unlink_unrefs. Pads/System interleaves them; a call works on pads to which a reference is
-- held. Reference counts stay below 2^31. The sticky events that a link replays, the marks for the
-- sizes of pools, the condition variable for threads that wait for a link, and what else a pad
-- frees are not modelled. References, Linking and Preserve keep the state sound step by step.
-- Pads/Negotiation is zst_pad_negotiate with the capabilities of Caps; what an element offers is a
-- field of PadCaps. Its Agreement uses Caps/Negotiation/Sane, on texts and frame rates.
--
-- Rtp: src/rtp_payloader.c and src/rtp_depayloader.c, two elements that stand behind each other,
-- with a network between them in general. What is linked behind an element is a function that
-- takes what it pushes and has a state of its own (Downstream); the theorems on a way through both
-- put the depayloader there (Expects.behind). Rtp/StartCodes is zst_find_start_code of
-- src/zst_media_utils.h; Rtp/Payloader has the state, make_packet and the sending of a NAL unit,
-- with the loop over fragments as send_fragments for H.264 and H.265 alike, or as send_short where
-- the limit, a signed int of Common/Integers, is below 0, and Payloader/Access
-- the packetizers and rtp_payloader_pad_push (payloader_push). Rtp/Depayloader has the state, the
-- parser and the access unit, and Depayloader/Codecs the function of each codec and
-- rtp_depayloader_pad_push (depayloader_push). A loop has as many rounds as there are bytes to
-- send; none says that it had not ended by then. Bytes are numbers, and a mask or a shift of a byte
-- is a remainder or a quotient. Which allocations the depayloader is served is a parameter
-- (serves); the payloader's are served, and so is the creation of a frame. The text properties,
-- the caps, the creation of the elements, the log and the payloader's use of a pool are not
-- modelled. Header, Expects, Collect, Fragments, Rounds, Units, Cuts, Nals, AnnexB and Buffers lead
-- to RoundTrip, Samples and Pieces to Pcm and Aac; Progress is about the end of loops, Preserve,
-- Loss and Capacity about what every packet keeps.
--
-- Pointers that may be NULL are not modelled where the function returns at once for NULL.
-- The other elements and the elements' common part, the data flow through pads, pipelines, the bus
-- and the scheduler, and all codecs, devices and other protocols are not modelled.
--
-- Common has shared names and lemmas, Common/Lists lists over native numbers, Common/Bits masks
-- and powers of two, Common/Integers the signed int. The Tests modules run the models on small inputs.
pub mod Common
pub mod Types
pub mod Pacer
pub mod BufferPool
pub mod Queue
pub mod Twcc
pub mod PadEvent
pub mod Redundancy
pub mod Caps
pub mod Pads
pub mod Rtp

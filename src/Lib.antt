-- ===== src/Lib.antt =====
-- A model of iridium-sniffer, a receiver for Iridium satellite bursts: the detection of bursts, the
-- decoders of frames, and what becomes of the decoded frames.
--
-- The program takes samples from a radio, a file or a VITA-49 stream. `burst_detector_feed` keeps
-- them in a ring buffer and follows the bursts on the air from FFT frame to FFT frame; the samples of
-- each burst that ends are cut out, brought to the base band and cut at their unique word by
-- `burst_downmix_process`, and demodulated to a frame of bits. The output thread takes the
-- frames: `frame_decode` recognises ring alert and broadcast frames, which go to the map, the cache
-- of ground beams and the Doppler positioning. `ida_decode` reads the bursts of data frames; three
-- contexts of `ida_reassemble` put their messages together, for GSMTAP, for the short burst data of
-- `sbd_extract`, and for the positions of terminals on the map. A message of short burst data may be
-- one of ACARS: its fields and the position in its text go to the map and, as lines of BaseStation,
-- to tracking tools.
--
-- Files and the code they model:
--   Detector      burst_detect.c: `burst_detector_create` with `blackman_window` (window_func.c), the
--                 ring buffer (Ring), the scalar kernels of simd_generic.c (Kernels), the noise floor
--                 (Noise), the bursts on the air (Sweep, Track), and both feed functions on the CPU
--                 and in batches on the GPU (Feed)
--   Filter        simd_generic.c, rotator.h: the kernels of the filters and the rotator; fir_filter.c:
--                 the taps of the filters (Taps)
--   Downmix       burst_downmix.c: `burst_downmix_process` with its steps (Steps), and
--                 `burst_downmix_create` (Create)
--   Circular      the circular arrays of doppler_pos.c and web_map.c
--   Bch           frame_decode.c and ida_decode.c: bits and words, `gf2_remainder`, the syndrome
--                 tables and the correction of a word (`correct_word` stands for code that the
--                 decoders have inline, each with its polynomial and its table)
--   Deinterleave  the de-interleavers of both
--   Demod         `demod_frame_t` (qpsk_demod.h, burst_downmix.h)
--   Block, Frame  frame_decode.c: blocks with BCH(31,21) and parity, the fields of the frames, and
--                 `frame_decode`
--   Ida           ida_decode.c: `chase_bch_da`, `descramble_payload`, `decode_lcw`,
--                 `format_lcw_header`, `crc_ccitt`, `ida_decode`, `ida_reassemble` and its flush
--   Vita          vita49.c: `vrl_strip`, `vrt_parse_header`, `vrt_handle_context`, and what
--                 `vita49_thread` does with a datagram
--   Sbd           sbd_acars.c: `sbd_extract`, `sbd_expire`, `sbd_process` up to its choice;
--                 `crc16_kermit` (Crc)
--   Symbols       qpsk_demod.c: `check_sync_word`, `decode_dqpsk`, `map_symbols_to_bits`
--   Doppler       doppler_pos.c: `doppler_pos_add_measurement` with the table of satellites, and
--                 `estimate_channel_freq` and `estimate_velocity` (Estimate)
--   WebMap        web_map.c: the state of the map and the functions that update it (Update, Aircraft,
--                 Position); Reachable is any sequence of them, in the order in which they get the lock
--   Gsmtap        gsmtap.c: `gsmtap_send`, with `gsmtap_ida_cb` of main.c
--   BeamCache     main.c: the cache of ground beams
--   AircraftDb    aircraft_db.c: `aircraft_db_load` from its lines, and `aircraft_db_lookup`
--   WaypointDb    waypoint_db.c: `waypoint_db_load` from its lines, and `waypoint_db_lookup`
--   BaseStation   basestation.c: `bs_derive_track` and `basestation_send_position`
--   Acars         sbd_acars.c, as built without libacars: `acars_parse_fallback` with its checks and
--                 fields, the positions in a text (Position), and what becomes of a message (Deliver)
--   Output        main.c: what `output_thread_fn` does with one item, with all state behind it
--   Base, Bits    shared helpers: tests, lists, words of C, and the laws of `^` and `|`
--   Tests         concrete inputs
--
-- An array with its length is a list, a pointer into one the list from there on, a word of C a
-- number with its wrap-around written out, an `int` that is never negative a number, and an `int`
-- that is incremented without a bound (counters, `beam_cache_head`) its 32 bits. Where the program
-- may write outside of an array, for aircraft and cached beams, the state has a field `intact`,
-- which the write sets to false. A function that stores through pointers returns what it stores,
-- and a negative or zero return that reports failure is `none`. The contexts (slots, settings,
-- counters) are passed in and returned, and the callback is the message returned. `double` and
-- `float` are one parameter, the record Doubles, of which nothing is assumed except where a
-- theorem says so; texts are lists of characters. The FFT, cabsf, cexpf, `qsort`, `bsearch`,
-- `strtod`, `atof`, the clock, the GPU plugin, and the sockets that `write` fails on are
-- parameters too.
--
-- Loops over a fixed range are recursion on the rounds left. The loops over the remaining blocks of
-- a frame run on fuel, the size of their buffer: each round adds 42 bits to it. The loops over the
-- frames of a buffer run on fuel, the sample count: each round takes the samples of one frame, at
-- least one. The loops that remove bursts run as many rounds as there are bursts: each round removes
-- one or goes on to the next. The loop over the tokens of a text runs on its length: each round takes
-- at least one character. The loop over the clients runs as many rounds as there are clients. The
-- loops that double a size run on the number that bounds it: each round adds at least 1.
--
-- Not modelled: the demodulator's loops on floating point samples, the least squares of
-- `doppler_pos_solve`, JSON and HTTP, the texts of ACARS and of BaseStation, the path through
-- libacars, the download of a database, the SIMD variants of the kernels, the options, sockets, files
-- and threads, the texts that are printed, and the copies of other projects (cJSON, vkFFT, queue,
-- lock, barrier).
pub mod Base
pub mod Bits
pub mod Bch
pub mod Deinterleave
pub mod Demod
pub mod Block
pub mod Frame
pub mod Ida
pub mod Vita
pub mod Sbd
pub mod Symbols
pub mod Circular
pub mod Detector
pub mod Doppler
pub mod WebMap
pub mod Gsmtap
pub mod BeamCache
pub mod AircraftDb
pub mod WaypointDb
pub mod BaseStation
pub mod Acars
pub mod Filter
pub mod Downmix
pub mod Output
pub mod Tests

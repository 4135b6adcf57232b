-- ===== src/Lib.antt =====
-- A model of the O3YV codec of minidecoder/src/lib.rs, and of four parts of the AV1 encoder: the
-- range coder, the order of frames, the places of tiles and the quantiser; and what holds of them.
--
-- The codec decodes streams of side-by-side stereo pictures, two eyes of 400 by 240 pixels, in
-- software and without checks of its accesses, on input that it does not trust. A stream is a
-- file header and frames. A key frame holds the planes of both eyes; a P frame holds two tiles,
-- one for each eye, of fragments, whose mode streams say for each macroblock of 16 by 16 pixels
-- where to copy it from in the reference picture and what to add to it.
--
-- The range coder is the last stage of the AV1 encoder. A generic writer turns symbols, bits and
-- numbers into tokens and stores these in one of three ways: a counter counts bits, a recorder
-- keeps the tokens for a replay, and an encoder makes bytes. The search for the best coding
-- compares what the writers tell of their costs, and goes back to checkpoints.
--
-- The encoder codes frames in another order than they come in: in groups of four behind a key
-- frame, the last first, then the middle one, then the others. A frame that was coded early is
-- kept in one of eight slots, and is shown later by a packet that names the slot. Each frame is
-- split into tiles, which threads then code at the same time. The transform coefficients of a
-- block are divided by a quantiser, with a multiplication in place of the division, and the levels
-- that remain are what the range coder writes.
--
-- Which file models which part of minidecoder/src/lib.rs:
--   Prelude           lists, Boolean tests, integers, loops, powers, the monad of stateful code
--   O3yv/Format       the constants;  O3yv/Bytes: put_u32, load_u32_le, ...;  O3yv/Reader: Reader
--   O3yv/Frame        EyeFrame, SbsFrame, DecoderState, Mv
--   O3yv/Pixels       load_at, store_at, copy_at, fill_at and their kin
--   O3yv/Motion       copy_shifted_row_fixed, motion_copy_plane_fixed, copy_rect
--   O3yv/Blocks       prefill_eye, copy_mb_from_reference and the runs of macroblocks
--   O3yv/Parts        copy_vbs_from_reference, write_raw_mb, read_raw_mb
--   O3yv/Residual     add_dc_block, the table of clipped sums, i32 arithmetic
--   O3yv/Transform    idct_1d, add_idct_block
--   O3yv/Coeffs       apply_block, apply_mb_residual
--   O3yv/Modes        validate_fragment_header, validate_segment_map, the passes over modes
--   O3yv/Fragment     decode_one_mb, decode_fragment;  O3yv/Tile: decode_tile
--   O3yv/Reuse        p_payload_reuses_reference and what it calls
--   O3yv/Stream       parse_file_header, decode_next_frame, decode_stream, StreamDecoder
--   O3yv/Write        write_file_header, write_key_raw_frame, write_p_frame, write_tile, ...
-- Which file models which part of src/ec.rs:
--   Ec/Format         the constants, and words that wrap
--   Ec/Base           WriterBase, WriterCheckpoint, StorageBackend, lr_compute, frac_compute
--   Ec/Counter, Ec/Recorder, Ec/Encoder   the three storages; replay; done
--   Ec/Symbol         symbol, bool, bit, literal, and the codes of numbers made of bits
--   Ec/Tell           tell, tell_frac, symbol_bits, add_bits_frac
--   Ec/Cdf            cdf_to_pdf, update_cdf
--   Ec/ContextLog     symbol_with_update, and CDFContextLog of src/context/cdf_context.rs
-- Which file models which other part of the encoder:
--   Gop/Config        InterConfig of src/api/internal.rs, pos_to_lvl, RefType
--   Gop/Inter         new_key_frame, new_inter_frame, update_rec_buffer of src/encoder.rs
--   Gop/Shown         which input frames the packets of encode_normal_packet show
--   Tiling/Info       src/tiling/tiler.rs: TilingInfo and the iterator over tiles
--   Quantize/Division divu_gen, divu_pair of src/quantize/mod.rs
--   Quantize/Context  QuantizationContext::update;  Quantize/Coefficients: quantize, dequantize
-- The order of frames has a group of pictures as its state: a buffer of eight slots, which each
-- frame gets from the coded frame before it. The next key frame may be at any input frame.
-- Ec/Encoder/Exact is the coder with a number of any size that the encoder refines, and Ec/Decode
-- a decoder of whole numbers, which searches symbols as the Reader of the tests of src/ec.rs does.
-- A child of a module holds proofs about it; O3yv/Eye holds the invariant of a picture, and
-- the modules Examples the theorems at concrete inputs.
--
-- Code that changes state is a function from a state to an outcome (Prelude/Effect): a state and
-- a value, a state and one of the program's errors, or a fault. A fault stands for an access
-- outside a slice, which the source leaves unchecked, for a failed assertion, and for a loop that
-- is out of fuel; a theorem that excludes faults excludes all three. After an error the state is
-- the one reached, as behind a `&mut`. Each operation runs on the part of the state that it
-- borrows, by `zoom`. The loads through a
-- pointer fault where they are not wholly inside their slice (O3yv/Bytes, O3yv/Reader). An `i32`
-- wraps, as in a release build; `usize` has 64 bits, sums of positions in a slice do not reach
-- 2 ^ 64, and the places of tiles wrap (Tiling/Small has the bounds where they do not). The text of an error message is not modelled. A
-- storage of the range coder cannot fail, so its operations are plain functions of the writer.
-- The debug assertions of src/ec.rs on the words of a distribution are hypotheses (IsCdf).
--
-- Fuel: the loop over frames has one round for each byte of the stream, and a frame takes 28
-- bytes; the loops over macroblocks one for each macroblock of the fragment, and a round
-- describes one at least; the loops over the bits of a mask one for each unit of its value,
-- and a round clears a bit. The loops of the subexponential code have 32 rounds, and the
-- exponent grows with each; the loop of `done` has two, since at most 9 bits are left for it. The
-- loop of `tile_log2` has 64 rounds, since a shift by 64 makes the source stop.
--
-- Code outside the repository is a parameter: the alignments of the crate v_frame (Align), with
-- what they are for as laws. So are the tables of quantisers and of scan orders, which may be any,
-- and the number of tiles that the frame rate asks for, which the source computes with floats. An
-- assertion or an unwrap that fails in from_target_tiles, quantize or InterConfig::new is `none`.
--
-- Not modelled: the conversions between a packed picture and two eyes (SbsFrame::from_yuv420_sbs
-- and write_yuv420_sbs_into), StreamDecoder::write_current_yuv420p_into, and the decoding into a
-- state that the caller gives; of src/ec.rs BCodeWriter, which writes to the bitstream_io
-- crate, and the encoder's state after `done`; the command line programs; the queues of
-- ContextInner, which decide where key frames are; select_dc_qi and select_ac_qi; the views of
-- planes that a tile has; and the rest of the AV1 encoder, of whose contexts only the log is here.
pub mod Prelude
pub mod O3yv
pub mod Ec
pub mod Gop
pub mod Tiling
pub mod Quantize

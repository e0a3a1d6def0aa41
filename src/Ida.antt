-- ===== src/Ida.antt =====
-- ida_decode.c: the payload and its Chase decoding, the link control word, the CRC, the decoder of one
-- burst, and the reassembly of messages.
pub mod Chase
pub mod Payload
pub mod Lcw
pub mod Crc
pub mod Decode
pub mod Reassembly

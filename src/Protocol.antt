-- ===== src/Protocol.antt =====
-- C_chat_lib/common/include/protocol.h and C_chat_lib/common/src/protocol.c: the frame format, the
-- writer `frame_message`, and the incremental parser `parse_stream`.
--
-- A message type is the number that the C enumeration stores. A pointer that may be NULL is an
-- `Option`; a buffer is the list of its bytes.
pub mod Wire
pub mod Framing
pub mod Parser

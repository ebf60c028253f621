-- ===== src/Imap.antt =====
-- include/mailxx/imap: the strings of a command (types.hpp), the untagged responses (types.hpp),
-- and mailbox names in modified UTF-7 (utf7.hpp).
pub mod Utf7
pub mod Astring
pub mod Append
pub mod Responses
mod Tests

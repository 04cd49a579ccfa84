-- ===== src/Fizzy.antt =====
-- What the daemon reads of a card: src/fizzy-normalize.js, and the text methods that it calls.
pub mod Text
pub mod Card

-- ===== src/Reader.antt =====
-- src/reader: the classification of code points, the tokens and the lexer.
pub mod UnicodeLetters
pub mod Token
pub mod Cursor
pub mod Number
pub mod Strings
pub mod Symbols
pub mod Lexes
pub mod Lexer
pub mod Forms
pub mod SyntaxQuote
pub mod Parts
pub mod Reads

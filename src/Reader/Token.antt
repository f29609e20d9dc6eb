-- ===== src/Reader/Token.antt =====
-- src/reader/Token.h: the lexer's output, and `tokenKindName` of src/reader/Lexer.cpp.
use proto_clojure.Base.{ℕ, Bool, true, false, Bytes, codes, ℤ, pos}

pub data TokenKind : Type 0 where
  integer float ratio string char symbol keyword nil true_kind false_kind : TokenKind
  l_paren r_paren l_bracket r_bracket l_brace r_brace hash_l_brace hash_l_paren regex : TokenKind
  quote backtick tilde tilde_at hash_underscore hash_apostrophe caret at : TokenKind
  end_of_file error : TokenKind

abbrev pub is_end : TokenKind → Bool
is_end end_of_file = true
is_end _ = false

-- A double, named by the call of the standard library that gives it. The lexer stores doubles and
-- computes nothing with them.
pub data Double : Type 0 where
  zero_double infinity negative_infinity quiet_nan : Double
  strtod : Bytes → Double

pub record Token : Type 0 where
  pub kind : TokenKind
  pub text : Bytes
  pub int_value : ℤ
  pub fits_long : Bool
  pub double_value : Double
  pub line : ℕ
  pub column : ℕ

-- A token with the default values of the fields that only numbers set.
abbrev pub token_at : TokenKind → Bytes → ℕ → ℕ → Token
token_at kind text line column = record {
  kind = kind;
  text = text;
  int_value = pos 0;
  fits_long = true;
  double_value = zero_double;
  line = line;
  column = column;
}

unfoldable pub token_kind_name : TokenKind → Bytes
token_kind_name integer = codes "Integer"
token_kind_name float = codes "Float"
token_kind_name ratio = codes "Ratio"
token_kind_name string = codes "String"
token_kind_name char = codes "Char"
token_kind_name symbol = codes "Symbol"
token_kind_name keyword = codes "Keyword"
token_kind_name nil = codes "Nil"
token_kind_name true_kind = codes "True"
token_kind_name false_kind = codes "False"
token_kind_name l_paren = codes "LParen"
token_kind_name r_paren = codes "RParen"
token_kind_name l_bracket = codes "LBracket"
token_kind_name r_bracket = codes "RBracket"
token_kind_name l_brace = codes "LBrace"
token_kind_name r_brace = codes "RBrace"
token_kind_name hash_l_brace = codes "HashLBrace"
token_kind_name hash_l_paren = codes "HashLParen"
token_kind_name regex = codes "Regex"
token_kind_name quote = codes "Quote"
token_kind_name backtick = codes "Backtick"
token_kind_name tilde = codes "Tilde"
token_kind_name tilde_at = codes "TildeAt"
token_kind_name hash_underscore = codes "HashUnderscore"
token_kind_name hash_apostrophe = codes "HashApostrophe"
token_kind_name caret = codes "Caret"
token_kind_name at = codes "At"
token_kind_name end_of_file = codes "EOF"
token_kind_name error = codes "Error"

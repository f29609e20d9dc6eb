-- ===== src/Reader/Forms.antt =====
-- src/reader/Reader.h: the forms that the reader makes, its state and its errors.
use proto_clojure.Base.{ℕ, Bool, Option, List, ◌++◌, Bytes, codes, decimal, ℤ}
use proto_clojure.Reader.Lexer.{Lexer, next}
use proto_clojure.Reader.Token.{Double, Token}

-- `named` is a symbol or, with its colon, a keyword; `large` is the exact integer that
-- `fromString` makes of the digits. The keys and values of a map alternate; they and the elements
-- of a set stand in the order in which syntax-quote takes them.
mutual
  pub data Form : Type 0 where
    nil_form : Form
    boolean : Bool → Form
    long : ℤ → Form
    large : Bytes → Form
    double : Double → Form
    text : Bytes → Form
    named : Bytes → Form
    list vector hash_map hash_set : Forms → Form
    pattern_form : Bytes → Form

  pub data Forms : Type 0 where
    end : Forms
    item : Form → Forms → Forms

-- What the reader asks of the runtime: the order in which the keys and values of a map (with a
-- SourceInfo the source order, without one the map's walk) and the elements of a set are taken,
-- the equality of keys, the resolver of symbols, the message of a pattern that is rejected, and
-- the text of an integer beyond 64 bits.
pub record Environment : Type 0 where
  pub map_order : Forms → Forms
  pub set_order : Forms → Forms
  pub key_equals : Form → Form → Bool
  pub resolver : Option (Bytes → Bytes)
  pub pattern_error : Bytes → Option Bytes
  pub integer_string : Bytes → Bytes

-- The parameters of the `#(...)` that is read: those of `%N` by N, and that of `%&`.
pub record FnLiteral : Type 0 where
  pub params : List (Option Bytes)
  pub rest_param : Option Bytes

-- `gensym` is the number that `nextGensymId` gives next, where no other thread asks for one.
pub record ReaderState : Type 0 where
  pub lexer : Lexer
  pub gensym : ℕ
  pub fn_literal : Option FnLiteral

pub record ReaderError : Type 0 where
  pub message : Bytes
  pub line : ℕ
  pub column : ℕ

pub data Read (A : Type 0) : Type 0 where
  done : A → ReaderState → Read A
  failed : ReaderError → Read A
  out_of_fuel : Read A

infixl 5 ◌>>=◌
unfoldable pub ◌>>=◌ : {A B : Type 0} → Read A → (A → ReaderState → Read B) → Read B
done a st >>= f = f a st
failed e >>= f = failed e
out_of_fuel >>= f = out_of_fuel

abbrev pub error_at : {A : Type 0} → Bytes → ℕ → ℕ → Read A
error_at message line column = failed (record { message = message; line = line; column = column })

abbrev pub error_on : {A : Type 0} → Bytes → Token → Read A
error_on message tok = error_at message tok.line tok.column

-- `lexer_.next()`
unfoldable pub next_token : ReaderState → Token × ReaderState
next_token st = let (tok, l) = next st.lexer in (tok, record st { lexer = l })

-- `stem__N` and an ending, with the next number.
abbrev pub generated : Bytes → ℕ → Bytes → Bytes
generated stem id ending = stem ++ (codes "__" ++ (decimal id ++ ending))

abbrev pub pair_list : Form → Form → Form
pair_list a b = list (item a (item b end))

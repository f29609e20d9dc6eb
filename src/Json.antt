-- ===== src/Json.antt =====
-- src/runtime/Json.cpp: the values that JSON is read into and written from, and what the parser
-- and the writer ask of the runtime.
pub mod Source
pub mod Numbers
pub mod Texts
pub mod Parser
pub mod Fuel
pub mod Read
pub mod Strings
pub mod Writer
pub mod RoundTrip
pub mod Documents
pub mod Refusals
pub mod Escapes
pub mod Ascii
pub mod Places
mod Tests
use proto_clojure.Base.{Bool, Option, List, Bytes, ℤ}
use proto_clojure.Reader.Token.{Double}

-- A value of the runtime as the parser makes it and the writer tells it apart. `named` is a
-- keyword or a symbol with its spelling, a keyword's with the colon; `large` is the exact integer
-- that `fromString` makes of a decimal text beyond 64 bits; `other` is any value that JSON cannot
-- write, with the name of its type. The entries of an `object` and the elements of a `set` stand
-- in the order of the walk over them; a `seq` is a list or a lazy sequence.
mutual
  pub data Value : Type 0 where
    null : Value
    boolean : Bool → Value
    integer : ℤ → Value
    large : Bytes → Value
    double : Double → Value
    text : Bytes → Value
    named : Bytes → Value
    vector seq set : Items → Value
    object : Entries → Value
    other : Bytes → Value

  pub data Items : Type 0 where
    nil : Items
    cons : Value → Items → Items

  pub data Entries : Type 0 where
    end : Entries
    entry : Value → Value → Entries → Entries

pub data Flavor : Type 0 where
  cheshire data_json : Flavor

pub data DoubleKind : Type 0 where
  finite not_a_number positive_infinite negative_infinite : DoubleKind

-- What other parts of the runtime do: the entries of the map that `mapAssocPairs` makes of
-- pairs, in the order in which `mapForEach` walks them; `mapGet` with a keyword; the texts of
-- doubles, of large integers, of printed values and of the types of values; the call of a
-- function, whether a function is `clojure.core/keyword`, and whether two values are one object.
pub record Runtime : Type 0 where
  pub assoc_pairs : Entries → Entries
  pub double_kind : Double → DoubleKind
  pub format_double : Double → Bytes
  pub integer_string : Bytes → Bytes
  pub print_value : Value → Bytes
  pub map_get : Entries → Bytes → Option Value
  pub type_name : Value → Bytes
  pub invoke : Value → List Value → Value
  pub is_keyword_fn : Value → Bool
  pub same : Value → Value → Bool

-- What a primitive answers or throws: an exception's class and message. The parser's fuel, which
-- is enough (Json.Fuel), has no answer of the code.
pub data Answer (A : Type 0) : Type 0 where
  answer : A → Answer A
  thrown : Bytes → Bytes → Answer A
  no_answer : Answer A

infixl 5 ◌then_with◌
unfoldable pub ◌then_with◌ : {A B : Type 0} → Answer A → (A → Answer B) → Answer B
answer a then_with f = f a
thrown c m then_with f = thrown c m
no_answer then_with f = no_answer

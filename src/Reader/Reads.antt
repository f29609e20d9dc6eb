-- ===== src/Reader/Reads.antt =====
-- src/reader/Reader.cpp: `readFromToken`, `readList`, `readNextForm` and the drivers. The nesting
-- that the native stack bounds is not bounded here.
pub mod Within
pub mod Ends
pub mod AsCode
pub mod Edn
pub mod Literals
pub mod Expansions
pub mod Made
pub mod Formed
mod Tests
use proto_clojure.Base.{
  ℕ, zero, suc, ◌+◌, ◌*◌, Bool, true, false, Option, none, some, List, [], ◌∷◌, ◌++◌, if◌then◌else◌,
  length, Bytes, codes,
}
use proto_clojure.Reader.Forms.{
  Form, nil_form, long, large, double, text, list, Forms, end, item, Environment, ReaderState, Read,
  done, out_of_fuel, ◌>>=◌, error_on, error_at, next_token,
}
use proto_clojure.Reader.Lexer.{make_lexer}
use proto_clojure.Reader.Parts.{
  symbol_value, read_fn_literal, map_form, set_form, vector_form, list_form, wrap, pattern_value,
  quote_form,
}
use proto_clojure.Reader.Token.{TokenKind, is_end, Token, token_kind_name}

-- What EDN mode refuses.
unfoldable pub edn_error : TokenKind → Bytes → Option Bytes
edn_error TokenKind.hash_l_paren s = some (codes "No dispatch macro for: (")
edn_error TokenKind.regex s = some (codes "No dispatch macro for: \"")
edn_error TokenKind.quote s = some (codes "EDN does not support the reader macro " ++ s)
edn_error TokenKind.backtick s = some (codes "EDN does not support the reader macro " ++ s)
edn_error TokenKind.tilde s = some (codes "EDN does not support the reader macro " ++ s)
edn_error TokenKind.tilde_at s = some (codes "EDN does not support the reader macro " ++ s)
edn_error TokenKind.at s = some (codes "EDN does not support the reader macro " ++ s)
edn_error _ s = none

unfoldable pub integer_form : Bool → Token → Form
integer_form true tok = long tok.int_value
integer_form false tok = large tok.text

abbrev pub is_close : TokenKind → Bool
is_close TokenKind.r_paren = true
is_close TokenKind.r_bracket = true
is_close TokenKind.r_brace = true
is_close _ = false

-- The brackets that close forms.
pub data Close : Type 0 where
  paren bracket brace : Close

abbrev pub closes : Close → TokenKind → Bool
closes paren TokenKind.r_paren = true
closes bracket TokenKind.r_bracket = true
closes brace TokenKind.r_brace = true
closes _ _ = false

-- "unterminated X — missing `C`", in UTF-8.
abbrev pub missing : Bytes → Bytes → Bytes
missing what close =
    codes "unterminated "
    ++ (what ++ (codes " " ++ 0xE2 ∷ 0x80 ∷ 0x94 ∷ (codes " missing `" ++ (close ++ codes "`"))))

unfoldable pub unterminated : Close → Bytes
unterminated paren = missing (codes "list") (codes ")")
unterminated bracket = missing (codes "vector") (codes "]")
unterminated brace = missing (codes "map") (codes "}")

abbrev pub unterminated_set : Bytes
unterminated_set = missing (codes "set") (codes "}")

-- The dropped form, whose state is kept.
abbrev pub then_drop : {A : Type 0} → Read Form → (ReaderState → Read A) → Read A
then_drop r f = r >>= λ _ st. f st

-- The switch of `readFromToken`; `next` reads the form after a reader macro, `body` the forms up
-- to a closing bracket.
unfoldable pub form_of :
    Environment
    → (Token → ReaderState → Read Form)
    → (Close → Bytes → Token → ReaderState → Read Forms)
    → TokenKind
    → Token
    → ReaderState
    → Read Form
unfolding integer_form symbol_value read_fn_literal map_form set_form pattern_value unterminated
form_of env next body TokenKind.hash_underscore tok st = then_drop (next tok st) (next tok)
form_of env next body TokenKind.integer tok st = done (integer_form tok.fits_long tok) st
form_of env next body TokenKind.float tok st = done (double tok.double_value) st
form_of env next body TokenKind.string tok st = done (text tok.text) st
form_of env next body TokenKind.symbol tok st = symbol_value tok.text st
form_of env next body TokenKind.hash_l_paren tok st =
    read_fn_literal (body paren (unterminated paren) tok) tok st
form_of env next body TokenKind.l_paren tok st =
    body paren (unterminated paren) tok st >>= list_form
form_of env next body TokenKind.at tok st = next tok st >>= wrap (codes "clojure.core/deref")
form_of env next body TokenKind.quote tok st = next tok st >>= wrap (codes "quote")
form_of env next body TokenKind.tilde tok st = next tok st >>= wrap (codes "clojure.core/unquote")
form_of env next body TokenKind.tilde_at tok st =
    next tok st >>= wrap (codes "clojure.core/unquote-splicing")
form_of env next body TokenKind.backtick tok st = next tok st >>= quote_form env tok
form_of env next body TokenKind.l_bracket tok st =
    body bracket (unterminated bracket) tok st >>= vector_form
form_of env next body TokenKind.l_brace tok st =
    body brace (unterminated brace) tok st >>= map_form env tok
form_of env next body TokenKind.regex tok st = pattern_value tok (env.pattern_error tok.text) st
form_of env next body TokenKind.hash_l_brace tok st =
    body brace unterminated_set tok st >>= set_form env tok
form_of env next body TokenKind.error tok st = error_on tok.text tok
form_of env next body TokenKind.r_paren tok st = error_on (codes "unexpected )") tok
form_of env next body TokenKind.end_of_file tok st = error_on (codes "unexpected end of file") tok
form_of env next body kind tok st =
    error_on (codes "unsupported token: " ++ token_kind_name kind) tok

-- The tests of EDN mode in front of the switch.
unfoldable pub checked_form : Bool → Option Bytes → Token → Read Form → Read Form
checked_form true (some message) tok r = error_on message tok
checked_form _ _ tok r = r

abbrev pub put_form : Form → Forms → ReaderState → Read Forms
put_form f fs st = done (item f fs) st

abbrev pub is_discard : TokenKind → Bool
is_discard TokenKind.hash_underscore = true
is_discard _ = false

-- One token of a list: its end, its closing bracket, a discarded form, a wrong bracket or a form.
unfoldable pub list_step :
    (Token → ReaderState → Read Form)
    → (Token → ReaderState → Read Form)
    → (ReaderState → Read Forms)
    → Close
    → Bytes
    → Token
    → Token
    → ReaderState
    → Read Forms
list_step next form more close what opening tok st =
    if is_end tok.kind
    then error_on what opening
    else if closes close tok.kind
    then done end st
    else if is_discard tok.kind
    then then_drop (next tok st) more
    else if is_close tok.kind
    then error_on (codes "mismatched " ++ token_kind_name tok.kind) tok
    else form tok st >>= λ f after. (more after >>= put_form f)

unfoldable pub next_step :
    (Token → ReaderState → Read Form) → Token → Token → ReaderState → Read Form
next_step form macro tok st =
    if is_end tok.kind
    then error_on
        (codes "EOF while reading: " ++ (macro.text ++ codes " must be followed by a form")) macro
    else form tok st

-- The form that a driver has read, and where it starts.
pub record Placed : Type 0 where
  pub form : Form
  pub line : ℕ
  pub column : ℕ

module _ (env : Environment) (edn : Bool) where
  unfoldable mutual
    unfolding form_of checked_form edn_error list_step next_step

    pub read_from_token : ℕ → Token → ReaderState → Read Form
    read_from_token zero tok st = out_of_fuel
    read_from_token (suc fuel) tok st =
        checked_form edn (edn_error tok.kind tok.text) tok
          (form_of env (read_next_form fuel) (read_list fuel) tok.kind tok st)

    pub read_next_form : ℕ → Token → ReaderState → Read Form
    read_next_form zero macro st = out_of_fuel
    read_next_form (suc fuel) macro st =
        let (tok, after) = next_token st in next_step (read_from_token fuel) macro tok after

    pub read_list : ℕ → Close → Bytes → Token → ReaderState → Read Forms
    read_list zero close what opening st = out_of_fuel
    read_list (suc fuel) close what opening st =
        let (tok, after) = next_token st in
        list_step (read_next_form fuel) (read_from_token fuel) (read_list fuel close what opening)
          close what opening tok after

  abbrev pub placed_form : Token → Form → ReaderState → Read (Option Placed)
  placed_form tok f st = done (some (record { form = f; line = tok.line; column = tok.column })) st

  -- One token of `readOne`; `more` goes on behind a discarded form.
  unfoldable pub one_step :
      (Token → ReaderState → Read Form)
      → (Token → ReaderState → Read Form)
      → (ReaderState → Read (Option Placed))
      → Token
      → ReaderState
      → Read (Option Placed)
  one_step next form more tok st =
      if is_discard tok.kind
      then then_drop (next tok st) more
      else if is_end tok.kind
      then done none st
      else form tok st >>= placed_form tok

  -- `readOne`, with a fuel for the forms and one for the discarded forms in front.
  unfoldable pub read_one : ℕ → ℕ → ReaderState → Read (Option Placed)
  unfolding one_step
  read_one zero fuel st = out_of_fuel
  read_one (suc rounds) fuel st =
      let (tok, after) = next_token st in
      one_step (read_next_form fuel) (read_from_token fuel) (read_one rounds fuel) tok after

  -- One token of `readAll`.
  unfoldable pub all_step :
      (Token → ReaderState → Read Form)
      → (Token → ReaderState → Read Form)
      → (ReaderState → Read Forms)
      → Token
      → ReaderState
      → Read Forms
  all_step next form more tok st =
      if is_end tok.kind
      then done end st
      else if is_discard tok.kind
      then then_drop (next tok st) more
      else form tok st >>= λ f after. (more after >>= put_form f)

  unfoldable pub read_all : ℕ → ℕ → ReaderState → Read Forms
  unfolding all_step
  read_all zero fuel st = out_of_fuel
  read_all (suc rounds) fuel st =
      let (tok, after) = next_token st in
      all_step (read_next_form fuel) (read_from_token fuel) (read_all rounds fuel) tok after

-- A reader on a source, with the fuel that its bytes give (Reader.Reads.Ends).
abbrev pub make_reader : Bytes → ℕ → ReaderState
make_reader source id = record { lexer = make_lexer source; gensym = id; fn_literal = none }

abbrev pub form_fuel : Bytes → ℕ
form_fuel source = suc (suc (2 * length source))

abbrev pub read_source : Environment → Bool → Bytes → ℕ → Read Forms
read_source env edn source id =
    read_all env edn (suc (length source)) (form_fuel source) (make_reader source id)

-- ===== src/Reader/Parts.antt =====
-- src/reader/Reader.cpp: what the reader makes of one token and of the forms inside brackets.
pub mod Keeps
use proto_clojure.Base.{
  ℕ, zero, suc, ◌+◌, ◌-◌, ◌*◌, ◌%◌, Bool, true, false, not, ◌&&◌, ◌||◌, Option, none, some, List,
  [], ◌∷◌, ◌++◌, ltb, leb, ◌==◌, if◌then◌else◌, length, replicate, set, Bytes, codes, equal,
  decimal, ℤ, pos, negsuc,
}
use proto_clojure.Reader.Forms.{
  Form, nil_form, boolean, long, large, double, text, named, list, vector, hash_map, hash_set,
  pattern_form, Forms, end, item, Environment, FnLiteral, ReaderState, ReaderError, Read, done,
  failed, out_of_fuel, ◌>>=◌, error_at, error_on, next_token, generated, pair_list,
}
use proto_clojure.Reader.SyntaxQuote.{Quoted, quoted, refused, Names, syntax_quote}
use proto_clojure.Reader.Token.{TokenKind, is_end, Token, token_kind_name}

-- The index of `%`, `%N`: none for another symbol, or an error.
pub data ArgIndex : Type 0 where
  no_arg zero_arg too_large : ArgIndex
  index : ℕ → ArgIndex

unfoldable pub arg_digits : ℕ → Bytes → ArgIndex
arg_digits n [] = if n == 0 then zero_arg else index n
arg_digits n (b ∷ bs) =
    let more = arg_digits (n * 10 + (b - b'0')) bs in
    if ltb b b'0' || ltb b'9' b
    then no_arg
    else if ltb 20 (n * 10 + (b - b'0'))
    then too_large
    else more

-- The bytes behind the percent sign.
unfoldable pub arg_index : Bytes → ArgIndex
unfolding arg_digits
arg_index [] = index 1
arg_index bs = arg_digits 0 bs

-- `params.resize`, where there are too few.
abbrev pub resize : ℕ → List (Option Bytes) → List (Option Bytes)
resize n ps = ps ++ replicate (n - length ps) none

abbrev pub param_at : ℕ → List (Option Bytes) → Option Bytes
param_at i [] = none
param_at zero (p ∷ ps) = p
param_at (suc i) (p ∷ ps) = param_at i ps

unfoldable pub positional : ℕ → FnLiteral → ReaderState → Option Bytes → Read Form
positional n lit st (some s) = done (named s) (record st { fn_literal = some lit })
positional n lit st none =
    let s = generated (b'p' ∷ decimal n) st.gensym (b'#' ∷ []) in
    done (named s) (record st {
      gensym = st.gensym + 1;
      fn_literal = some (record lit { params = set lit.params (n - 1) (some s) });
    })

unfoldable pub rest_arg : FnLiteral → ReaderState → Option Bytes → Read Form
rest_arg lit st (some s) = done (named s) st
rest_arg lit st none =
    let s = generated (codes "rest") st.gensym (b'#' ∷ []) in
    done (named s)
      (record st { gensym = st.gensym + 1; fn_literal = some (record lit { rest_param = some s }) })

-- `fnLiteralArg` on an index; another symbol is itself.
unfoldable pub arg_form : FnLiteral → Bytes → ReaderState → ArgIndex → Read Form
unfolding positional
arg_form lit s st no_arg = done (named s) st
arg_form lit s st zero_arg = error_at (codes "Arg literal must be %, %& or %integer") 0 0
arg_form lit s st too_large =
    error_at (codes "Arg literal must be %, %& or %integer (at most %20)") 0 0
arg_form lit s st (index n) =
    let grown = record lit { params = resize n lit.params } in
    positional n grown st (param_at (n - 1) grown.params)

unfoldable pub percent_form : FnLiteral → Bytes → Bytes → ReaderState → Read Form
unfolding arg_form arg_index rest_arg
percent_form lit s bs st =
    if equal bs (b'&' ∷ [])
    then rest_arg lit st lit.rest_param
    else arg_form lit s st (arg_index bs)

-- A symbol that is no nil, true or false.
unfoldable pub symbol_form : Bytes → Option FnLiteral → ReaderState → Read Form
unfolding percent_form
symbol_form s none st = done (named s) st
symbol_form [] (some lit) st = done (named []) st
symbol_form (b ∷ bs) (some lit) st =
    if b == b'%' then percent_form lit (b ∷ bs) bs st else done (named (b ∷ bs)) st

unfoldable pub symbol_value : Bytes → ReaderState → Read Form
unfolding symbol_form
symbol_value s st =
    if equal s (codes "nil")
    then done nil_form st
    else if equal s (codes "true")
    then done (boolean true) st
    else if equal s (codes "false")
    then done (boolean false) st
    else symbol_form s st.fn_literal st

abbrev pub empty_literal : FnLiteral
empty_literal = record { params = []; rest_param = none }

abbrev pub literal_of : Option FnLiteral → FnLiteral
literal_of none = empty_literal
literal_of (some lit) = lit

abbrev pub rest_forms : Option Bytes → Forms
rest_forms none = end
rest_forms (some s) = item (named (b'&' ∷ [])) (item (named s) end)

-- The parameters, those that the body does not name generated now, and the next number.
unfoldable pub fill_params : ℕ → ℕ → List (Option Bytes) → Forms → Forms × ℕ
fill_params i id [] behind = (behind, id)
fill_params i id (some s ∷ ps) behind =
    let (fs, n) = fill_params (i + 1) id ps behind in (item (named s) fs, n)
fill_params i id (none ∷ ps) behind =
    let (fs, n) = fill_params (i + 1) (id + 1) ps behind in
    (item (named (generated (b'p' ∷ decimal (i + 1)) id (b'#' ∷ []))) fs, n)

-- `(fn* [params] (body))`
unfoldable pub fn_form : Forms → ReaderState → Read Form
unfolding fill_params
fn_form body st =
    let lit = literal_of st.fn_literal in
    let (params, id) = fill_params 0 st.gensym lit.params (rest_forms lit.rest_param) in
    done (list (item (named (codes "fn*")) (item (vector params) (item (list body) end))))
      (record st { gensym = id; fn_literal = none })

abbrev pub is_some : {A : Type 0} → Option A → Bool
is_some none = false
is_some (some a) = true

unfoldable pub read_fn_literal : (ReaderState → Read Forms) → Token → ReaderState → Read Form
unfolding fn_form
read_fn_literal body tok st =
    if is_some st.fn_literal
    then error_on (codes "Nested #()s are not allowed") tok
    else body (record st { fn_literal = some empty_literal }) >>= fn_form

abbrev pub count : Forms → ℕ
count end = 0
count (item f fs) = suc (count fs)

unfoldable pub describe_key : Environment → Form → Bytes
describe_key env nil_form = codes "nil"
describe_key env (boolean b) = if b then codes "true" else codes "false"
describe_key env (named s) = s
describe_key env (text s) = b'"' ∷ (s ++ b'"' ∷ [])
describe_key env (long (pos n)) = decimal n
describe_key env (long (negsuc n)) = b'-' ∷ decimal (suc n)
describe_key env (large s) = env.integer_string s
describe_key env _ = codes "a repeated form"

-- The keys of pairs.
abbrev pub keys_of : Forms → List Form
keys_of end = []
keys_of (item k end) = []
keys_of (item k (item v fs)) = k ∷ keys_of fs

abbrev pub elements_of : Forms → List Form
elements_of end = []
elements_of (item f fs) = f ∷ elements_of fs

-- An equal key before it.
abbrev pub occurs : Environment → List Form → Form → Bool
occurs env [] k = false
occurs env (j ∷ seen) k = env.key_equals j k || occurs env seen k

-- The first key that an earlier one equals.
unfoldable pub repeated : Environment → List Form → List Form → Option Form
repeated env seen [] = none
repeated env seen (k ∷ ks) =
    let more = repeated env (k ∷ seen) ks in if occurs env seen k then some k else more

unfoldable pub distinct_or : Environment → Option Form → Form → Token → ReaderState → Read Form
unfolding describe_key
distinct_or env none form tok st = done form st
distinct_or env (some k) form tok st = error_on (codes "Duplicate key: " ++ describe_key env k) tok

unfoldable pub map_form : Environment → Token → Forms → ReaderState → Read Form
unfolding distinct_or repeated
map_form env tok fs st =
    if count fs % 2 == 0
    then distinct_or env (repeated env [] (keys_of fs)) (hash_map (env.map_order fs)) tok st
    else error_on (codes "Map literal must contain an even number of forms") tok

unfoldable pub set_form : Environment → Token → Forms → ReaderState → Read Form
unfolding distinct_or repeated
set_form env tok fs st =
    distinct_or env (repeated env [] (elements_of fs)) (hash_set (env.set_order fs)) tok st

abbrev pub vector_form : Forms → ReaderState → Read Form
vector_form fs st = done (vector fs) st

abbrev pub list_form : Forms → ReaderState → Read Form
list_form fs st = done (list fs) st

-- `(head form)`
abbrev pub wrap : Bytes → Form → ReaderState → Read Form
wrap head form st = done (pair_list (named head) form) st

unfoldable pub pattern_value : Token → Option Bytes → ReaderState → Read Form
pattern_value tok none st = done (pattern_form tok.text) st
pattern_value tok (some message) st = error_on (codes "PatternSyntaxException: " ++ message) tok

unfoldable pub quote_result : Token → ReaderState → Quoted Form → Read Form
quote_result tok st (quoted form names) = done form (record st { gensym = names.gensym })
quote_result tok st (refused message) = error_on message tok

abbrev pub quote_form : Environment → Token → Form → ReaderState → Read Form
quote_form env tok form st =
    quote_result tok st (syntax_quote env form (record { table = []; gensym = st.gensym }))

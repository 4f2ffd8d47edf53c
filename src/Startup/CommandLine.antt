-- ===== src/Startup/CommandLine.antt =====
-- cmd/main.go: `flag.Parse` on the words of the command line, as `(*FlagSet).parseOne` of package
-- flag splits them into names and values.
use Prim.Native.Char.{Char, code}
use cillion.Base.{
  ℕ, String, ◌==◌, string_eq, nat_eq, if◌then◌else◌, Bool, true, false, ◌||◌, Option, none, some,
  List, [], ◌∷◌,
}
use cillion.Startup.Flags.{Argument, ParseResult, parsed, exits, parse}

-- A word that is no flag ends the flags, and so does "--".
pub data Word : Type 0 where
  no_flag bad_syntax : Word
  flag : String → Option String → Word

abbrev pub is_char : ℕ → Char → Bool
is_char n c = code c == n

-- Cut at the first '='.
unfoldable pub split_value : String → String × Option String
split_value String.[] = ("", none)
split_value (String.◌∷◌ c s) =
    let (n, v) = split_value s in if is_char b'=' c then ("", some s) else (String.◌∷◌ c n, v)

-- The name begins neither with '-' nor with '='.
unfoldable pub read_name : String → Word
unfolding split_value
read_name String.[] = bad_syntax
read_name (String.◌∷◌ c s) =
    let (n, v) = split_value s in
    if is_char b'-' c || is_char b'=' c then bad_syntax else flag (String.◌∷◌ c n) v

abbrev behind_dashes : String → Word
behind_dashes String.[] = no_flag
behind_dashes s = read_name s

unfoldable pub read_word : String → Word
unfolding read_name
read_word (String.◌∷◌ c (String.◌∷◌ d s)) =
    if is_char b'-' c
    then if is_char b'-' d then behind_dashes s else read_name (String.◌∷◌ d s)
    else no_flag
read_word s = no_flag

abbrev pub add : Argument → List Argument × Bool → List Argument × Bool
add a (args, fine) = (a ∷ args, fine)

-- `IsBoolFlag`; `other` for the flags that zap and controller-runtime define.
abbrev pub is_bool_flag : (String → Bool) → String → Bool
is_bool_flag other name =
    name == "leader-elect" || name == "metrics-secure" || name == "enable-http2" || other name

-- What the last word says.
abbrev pub last_word : Word → List Argument × Bool
last_word no_flag = ([], true)
last_word bad_syntax = ([], false)
last_word (flag n v) = ((n, v) ∷ [], true)

-- What a word says with others behind it: the next one, what is read from that on, and from behind
-- it. A flag that is not Boolean takes the next word if it has no value.
abbrev pub first_word :
    (String → Bool)
    → Word
    → String
    → List Argument × Bool
    → List Argument × Bool
    → List Argument × Bool
first_word is_bool no_flag w rest behind = ([], true)
first_word is_bool bad_syntax w rest behind = ([], false)
first_word is_bool (flag n (some v)) w rest behind = add (n, some v) rest
first_word is_bool (flag n none) w rest behind =
    if is_bool n then add (n, none) rest else add (n, some w) behind

-- The arguments up to the first word that is no flag, and whether there was none with a bad syntax.
unfoldable pub read_arguments : (String → Bool) → List String → List Argument × Bool
unfolding read_word
read_arguments is_bool [] = ([], true)
read_arguments is_bool (s ∷ []) = last_word (read_word s)
read_arguments is_bool (s ∷ w ∷ words) =
    first_word is_bool (read_word s) w (read_arguments is_bool (w ∷ words))
      (read_arguments is_bool words)

abbrev pub unless_bad : Bool → ParseResult → ParseResult
unless_bad fine (exits c) = exits c
unless_bad fine (parsed flags) = if fine then parsed flags else exits 2

-- An error in an earlier argument comes first.
unfoldable pub parse_words : (Argument → Bool) → (String → Bool) → List String → ParseResult
unfolding read_arguments
parse_words other other_bool words =
    let (args, fine) = read_arguments (is_bool_flag other_bool) words in
    unless_bad fine (parse other args)

-- ===== src/Libraries.antt =====
-- The code outside the repository that the components call, as one parameter.
use chitchat.Base.{ℕ, Str, Bool, Option, List, Result}
use chitchat.Base.Int.{ℤ}
use chitchat.Value.{Value}

-- A gjson.Result that exists: what its methods Value and String return.
pub record GjsonResult : Type 0 where
  pub value : Value
  pub string : Str

-- The parts of a url.URL that the program reads: the scheme, the user information with the name of
-- the user and the password if there is one, and all the rest.
pub record Url : Type 0 where
  pub scheme : Str
  pub user : Option (Str × Option Str)
  pub rest : Str

pub record Libraries : Type 0 where
  -- github.com/tidwall/gjson: GetBytes; `none` when the result does not exist
  pub gjson : List ℕ → Str → Option GjsonResult
  -- encoding/json: Unmarshal into an interface{}; `none` is an error
  pub unmarshal : List ℕ → Option Value
  -- the conversion string(bytes), which decodes UTF-8
  pub to_text : List ℕ → Str
  -- package fmt: the verb %v for floats and for composite values
  pub format : Value → Str
  -- package strconv: Quote, the verb %q
  pub quote : Str → Str
  -- net/url: Parse; `none` is an error
  pub parse_url : Str → Option Url
  -- net/url: the method String
  pub url_text : Url → Str
  -- package unicode: a character that stands for all that are equal to this one when case is folded
  pub fold : ℕ → ℕ
  -- encoding/json: Marshal, and Valid
  pub marshal : Value → Result Str (List ℕ)
  pub valid : List ℕ → Bool
  -- the conversion []byte(string), which encodes UTF-8
  pub to_bytes : Str → List ℕ
  -- text/template: Parse with the functions of TemplateFuncs; the result is its error
  pub parse_template : Str → Option Str
  -- text/template: Execute of a template that parses. The number is the state of the clock and of
  -- the random source, which the functions uuid, random_int and now read.
  pub execute_template : Str → Value → ℕ → Result Str Str × ℕ
  -- time.ParseDuration in nanoseconds, and strconv.ParseFloat with the conversion of that number of
  -- seconds; `none` is an error
  pub parse_duration : Str → Option ℤ
  pub parse_seconds : Str → Option ℤ
  -- time.Now().UTC().Format(time.RFC3339)
  pub utc_now : ℕ → Str

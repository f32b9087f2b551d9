-- ===== src/Sdk/Request.antt =====
-- What the services of sdk/services share: the interface Doer of their transport, and the queries.
use socialpublish.Prelude.{
  ℤ, pos, ltb_ℤ, String, Option, none, some, Bytes, Result, str_eq, if◌then◌else◌,
}
use socialpublish.GoText.Print.{strconv_itoa}
use socialpublish.Store.Types.{Time}
pub use socialpublish.Sdk.Builder.{StringMap, set_key}

pub data Method : Type 0 where
  get : Method
  post : Method
  patch : Method
  delete : Method

-- DoJSON of a method, a path, a query and a body, with what the answer is read into; the result is
-- what it holds then, or the error.
abbrev pub Doer : Type 0 → Type 0 → Type 0 → Type 0
Doer E B Out = Method → Bytes → Option StringMap → Option B → Out → Result E Out

-- if limit > 0 { query.Set("limit", …) }
unfoldable pub set_limit : ℤ → StringMap → StringMap
unfolding strconv_itoa set_key
set_limit limit query =
    if ltb_ℤ (pos 0) limit then set_key "limit" (strconv_itoa limit) query else query

-- if value != "" { query.Set(key, value) }
unfoldable pub set_text : (key value : String) → StringMap → StringMap
unfolding set_key
set_text key value query = if str_eq value "" then query else set_key key value query

-- if t != nil { query.Set(key, t.Format(…)) }
unfoldable pub set_time :
    (format : Time → String) → (key : String) → Option Time → StringMap → StringMap
unfolding set_key
set_time format key none query = query
set_time format key (some t) query = set_key key (format t) query

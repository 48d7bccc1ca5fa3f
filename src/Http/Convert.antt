-- ===== src/Http/Convert.antt =====
-- How the language turns a JSON value into a text, as `String(x)` and template literals do, and into
-- a Boolean, as a condition does.
use helpdesk_go.Base.{
  ℕ, zero, suc, ◌/◌, ◌%◌, ltb, true, false, String, ◌<>◌, Option, none, some, if◌then◌else◌, eqb,
  ◌≡◌, refl, Bool, nonempty,
}
use helpdesk_go.Http.{Json, null, bool, num, str, arr, obj, Items, nil, item}

abbrev digit : ℕ → String
digit n =
    if eqb n 0
    then "0"
    else if eqb n 1
    then "1"
    else if eqb n 2
    then "2"
    else if eqb n 3
    then "3"
    else if eqb n 4
    then "4"
    else if eqb n 5
    then "5"
    else if eqb n 6
    then "6"
    else if eqb n 7
    then "7"
    else if eqb n 8
    then "8"
    else "9"

-- A number has at most as many digits as it counts, so `n + 1` rounds are enough.
digits : ℕ → ℕ → String
digits zero n = ""
digits (suc k) n =
    let rest = digits k (n / 10) in if ltb n 10 then digit n else rest <> digit (n % 10)

unfoldable pub decimal : ℕ → String
unfolding digits
decimal n = digits (suc n) n

unfoldable mutual
  js_string : Json → String
  js_string null = "null"
  js_string (bool true) = "true"
  js_string (bool false) = "false"
  js_string (num n) = decimal n
  js_string (str s) = s
  js_string (arr xs) = join xs
  js_string (obj fs) = "[object Object]"

  -- The elements of an array, `null` as the empty text, with commas between them.
  join : Items → String
  join nil = ""
  join (item j rest) = js_element j <> join_rest rest

  join_rest : Items → String
  join_rest nil = ""
  join_rest (item j rest) = "," <> (js_element j <> join_rest rest)

  js_element : Json → String
  js_element null = ""
  js_element (bool true) = "true"
  js_element (bool false) = "false"
  js_element (num n) = decimal n
  js_element (str s) = s
  js_element (arr xs) = join xs
  js_element (obj fs) = "[object Object]"

-- `String(x)`, where an absent property is `undefined`.
unfoldable pub text_of : Option Json → String
unfolding js_string
text_of none = "undefined"
text_of (some j) = js_string j

-- A value that a condition takes for true.
abbrev pub is_truthy : Option Json → Bool
is_truthy none = false
is_truthy (some null) = false
is_truthy (some (bool b)) = b
is_truthy (some (num n)) = ltb 0 n
is_truthy (some (str s)) = nonempty s
is_truthy (some (arr xs)) = true
is_truthy (some (obj fs)) = true

texts :
    (text_of (some (num 1024)) ≡ "1024")
    × (text_of (some (arr (item (num 7) (item (str "a") nil)))) ≡ "7,a")
unfolding text_of js_string join decimal digits
texts = (refl, refl)

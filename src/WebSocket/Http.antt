-- ===== src/WebSocket/Http.antt =====
-- src/websocket.c: the request line and the headers that open a connection.
--
-- A string is the bytes before its NUL. `input` is what stands between `in_head` and `in_tail`, and
-- `beyond` what stands behind it in the buffer's block; `none` is a read behind the block. Every
-- allocation succeeds. `strtol` is a parameter, with the bits that an `int` keeps of its answer.
pub mod Line
pub mod Request
pub mod Headers
pub mod Names
pub mod Loop
pub mod Total
use ios_webkit_debug_proxy.Prelude.{
  ℕ, zero, suc, ◌+◌, ◌-◌, Bool, true, false, ◌&&◌, ◌||◌, Option, some, none, List, [], ◌∷◌, ◌++◌,
  length, take, drop, ◌==◌, if◌then◌else◌, codes, ◌>>=◌,
}
use ios_webkit_debug_proxy.Prelude.Status.{Status, success, error}
use ios_webkit_debug_proxy.Iwdp.Frontend.{begins_with, behind_last}
use ios_webkit_debug_proxy.PortConfig.{to_lower, equal_ignoring_case}

-- The fields of `struct ws_private` that the headers fill.
pub record Http : Type 0 where
  pub method : Option (List ℕ)
  pub resource : Option (List ℕ)
  pub http_version : Option (List ℕ)
  pub req_host : Option (List ℕ)
  pub protocol : Option (List ℕ)
  pub version : ℕ
  pub sec_key : Option (List ℕ)
  pub is_websocket : Bool

abbrev pub crlf : List ℕ
crlf = codes "\r\n"

-- The text before the place where `strnstr` finds "\r\n"; a NUL ends the search.
unfoldable pub find_line : List ℕ → Option (List ℕ)
unfolding begins_with
find_line [] = none
find_line (c ∷ s) =
    let rest = find_line s in
    if c == 0
    then none
    else (if begins_with crlf (c ∷ s)
        then some []
        else elim rest [ none ↦ none | some line ↦ some (c ∷ line) ])

unfoldable pub skip_spaces : List ℕ → List ℕ
skip_spaces [] = []
skip_spaces (c ∷ s) = let rest = skip_spaces s in if c == b' ' then rest else c ∷ s

-- The text up to the character `sep`.
unfoldable pub before_char : ℕ → List ℕ → List ℕ
before_char sep [] = []
before_char sep (c ∷ s) = let rest = before_char sep s in if c == sep then [] else c ∷ rest

-- The text from there on.
unfoldable pub from_char : ℕ → List ℕ → List ℕ
from_char sep [] = []
from_char sep (c ∷ s) = let rest = from_char sep s in if c == sep then c ∷ s else rest

-- An element of `trio`: a copy of a word that is not empty.
unfoldable pub copied : List ℕ → Option (List ℕ)
copied [] = none
copied (c ∷ s) = some (c ∷ s)

-- One round of the loop: the word, and the text behind it.
unfoldable pub next_word : List ℕ → Option (List ℕ) × List ℕ
unfolding skip_spaces before_char from_char copied
next_word line =
    let rest = skip_spaces line in (copied (before_char b' ' rest), from_char b' ' rest)

-- The status, the new state and the input that is left.
unfoldable pub read_http_request : Http → List ℕ → Status × Http × List ℕ
read_http_request my input = elim (find_line input) [
  | none ↦ (error, my, input)
  | some line ↦
      let (method, behind_method) = next_word line in
      let (resource, behind_resource) = next_word behind_method in
      let (http_version, _) = next_word behind_resource in
      (
        elim http_version [ none ↦ error | some version ↦ success ],
        record my { method = method; resource = resource; http_version = http_version },
        drop (length line) input,
      )
]

-- The loop that moves `v_end` back.
unfoldable pub drop_last_spaces : List ℕ → List ℕ
drop_last_spaces [] = []
drop_last_spaces (c ∷ s) =
    let rest = drop_last_spaces s in
    elim rest [ [] ↦ if c == b' ' then [] else c ∷ [] | d ∷ t ↦ c ∷ d ∷ t ]

-- The text up to its NUL.
unfoldable pub to_nul : List ℕ → Option (List ℕ)
to_nul [] = none
to_nul (c ∷ s) =
    let rest = to_nul s in
    if c == 0 then some [] else elim rest [ none ↦ none | some t ↦ some (c ∷ t) ]

-- The value, given the text from the ':' on. If there is no ':', `v_end - v_start` is -1, which
-- is the largest `size_t`: `strndup` copies from the "\n" on, which is `behind`.
unfoldable pub header_value : List ℕ → List ℕ → Option (List ℕ)
unfolding skip_spaces drop_last_spaces to_nul
header_value [] behind = to_nul behind
header_value (colon ∷ v) behind = some (drop_last_spaces (skip_spaces v))

-- The status, the key and the value, if there is a header, and the input that is left. The first
-- character of a key is not looked at.
unfoldable pub read_http_header :
    List ℕ → List ℕ → Option (Status × Option (List ℕ × List ℕ) × List ℕ)
read_http_header beyond input = elim (find_line input) [
  | none ↦ some (error, none, input)
  | some [] ↦ some (success, none, drop 2 input)
  | some (c ∷ line) ↦
      let val = header_value (from_char b':' line) (drop (2 + length line) input ++ beyond) in
      if c == b' ' then some (error, none, input) else elim val [
        | none ↦ none
        | some v ↦ some (success, some (c ∷ before_char b':' line, v), drop (3 + length line) input)
      ]
]

unfoldable pub begins_ignoring_case : List ℕ → List ℕ → Bool
begins_ignoring_case [] s = true
begins_ignoring_case (p ∷ ps) [] = false
begins_ignoring_case (p ∷ ps) (c ∷ s) = to_lower p == to_lower c && begins_ignoring_case ps s

-- Whether `strcasestr` finds the text.
unfoldable pub contains_ignoring_case : List ℕ → List ℕ → Bool
unfolding begins_ignoring_case
contains_ignoring_case [] text = begins_ignoring_case text []
contains_ignoring_case (c ∷ s) text =
    begins_ignoring_case text (c ∷ s) || contains_ignoring_case s text

-- What is left of a host when `strrchr` has found the ':'.
unfoldable pub without_port : List ℕ → List ℕ
unfolding behind_last
without_port val = elim (behind_last b':' val) [
  | none ↦ val
  | some port ↦ take (length val - suc (length port)) val
]

-- The state of the loop, with its two variables.
pub record Reading : Type 0 where
  pub is_connection : Bool
  pub is_upgrade : Bool
  pub my : Http

module _ (strtol : List ℕ → ℕ) where
  -- The body of the loop.
  unfoldable pub on_header : List ℕ → List ℕ → Reading → Reading
  unfolding equal_ignoring_case contains_ignoring_case without_port
  on_header key val r =
      if equal_ignoring_case key (codes "Connection")
      then record r { is_connection = contains_ignoring_case val (codes "Upgrade") }
      else (if equal_ignoring_case key (codes "Upgrade")
          then record r { is_upgrade = equal_ignoring_case val (codes "WebSocket") }
          else (if equal_ignoring_case key (codes "Sec-WebSocket-Protocol")
              then record r { my = record r.my { protocol = some val } }
              else (if equal_ignoring_case key (codes "Sec-WebSocket-Version")
                  then record r { my = record r.my { version = strtol val } }
                  else (if equal_ignoring_case key (codes "Sec-WebSocket-Key")
                      then record r { my = record r.my { sec_key = some val } }
                      else (if equal_ignoring_case key (codes "Host")
                          then record r { my = record r.my { req_host = some (without_port val) } }
                          else r)))))

  -- What is set after the loop.
  unfoldable pub conclude : Reading → Http
  conclude r = record r.my {
    is_websocket =
        r.is_connection && (r.is_upgrade && (elim r.my.sec_key [ none ↦ false | some key ↦ true ]));
  }

  -- The loop. It ends at an error as at the empty line.
  unfoldable pub read_headers_loop : ℕ → List ℕ → Reading → List ℕ → Option (Status × Http × List ℕ)
  unfolding conclude
  read_headers_loop zero beyond r input = none
  read_headers_loop (suc fuel) beyond r input = elim (read_http_header beyond input) [
    | none ↦ none
    | some (error, _, input') ↦ some (success, conclude r, input')
    | some (success, none, input') ↦ some (success, conclude r, input')
    | some (success, some (key, val), input') ↦
        read_headers_loop fuel beyond (on_header key val r) input'
  ]

  -- A header takes two bytes or more, so that one round more than there are bytes is enough.
  unfoldable pub read_headers : List ℕ → Http → List ℕ → Option (Status × Http × List ℕ)
  unfolding read_headers_loop
  read_headers beyond my input =
      let r : Reading = record { is_connection = false; is_upgrade = false; my = my } in
      read_headers_loop (suc (length input)) beyond r input

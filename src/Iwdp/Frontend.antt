-- ===== src/Iwdp/Frontend.antt =====
-- src/ios_webkit_debug_proxy.c: the file of the frontend that a request names.
--
-- A string is the bytes before its NUL, and NULL is `none`. Every allocation succeeds, and
-- `to_path` is never NULL; an error leaves NULL there, which is `none`.
pub mod Laws
use ios_webkit_debug_proxy.Prelude.{
  ℕ, zero, suc, ◌+◌, ◌-◌, ◌%◌, ◌^◌, Bool, true, false, ◌&&◌, ◌||◌, Option, some, none, List, [],
  ◌∷◌, ◌++◌, length, take, drop, ltb, leb, ◌==◌, if◌then◌else◌, codes,
}
use ios_webkit_debug_proxy.HashTable.Keys.{equal_strings}
use ios_webkit_debug_proxy.PortConfig.{equal_ignoring_case}

-- `strrchr` for the character `sep`: the text behind its last place.
unfoldable pub behind_last : ℕ → List ℕ → Option (List ℕ)
behind_last sep [] = none
behind_last sep (c ∷ s) = elim (behind_last sep s) [
  | some t ↦ some t
  | none ↦ if c == sep then some s else none
]

-- What `strncmp` compares `resource` with.
abbrev pub devtools : List ℕ
devtools = codes "/devtools/"

unfoldable pub begins_with : List ℕ → List ℕ → Bool
begins_with [] s = true
begins_with (p ∷ ps) [] = false
begins_with (p ∷ ps) (c ∷ s) = p == c && begins_with ps s

-- `fe_path_len`: with the last '/'.
unfoldable pub path_length : List ℕ → ℕ
unfolding behind_last
path_length fe_path = elim (behind_last b'/' fe_path) [
  | none ↦ 0
  | some fe_file ↦ length fe_path - length fe_file
]

abbrev pub is_safe : ℕ → Bool
is_safe ch =
    (leb b'a' ch && leb ch b'z')
    || ((leb b'A' ch && leb ch b'Z')
        || ((leb b'0' ch && leb ch b'9')
            || (ch == b'-' || (ch == b'.' || (ch == b'/' || ch == b'_')))))

-- The first loop over `res_tail`: the number of leading '/'.
unfoldable pub count_slashes : List ℕ → ℕ
count_slashes [] = 0
count_slashes (c ∷ s) = let rest = count_slashes s in if c == b'/' then suc rest else 0

-- The second.
unfoldable pub count_safe : List ℕ → ℕ
count_safe [] = 0
count_safe (c ∷ s) = let rest = count_safe s in if is_safe c then suc rest else 0

-- Whether `strnstr` finds ".." in the text.
unfoldable pub has_dots : List ℕ → Bool
unfolding begins_with
has_dots [] = false
has_dots (c ∷ s) = begins_with (codes "..") (c ∷ s) || has_dots s

-- `%.*s`: a precision that is negative as an `int` counts for none.
unfoldable pub with_precision : ℕ → List ℕ → List ℕ
with_precision n s = if ltb (n % 2 ^ 32) (2 ^ 31) then take (n % 2 ^ 32) s else s

-- `res_len`
unfoldable pub res_length : List ℕ → ℕ
unfolding count_slashes count_safe
res_length res =
    let slashes = count_slashes res in let safe = count_safe (drop slashes res) in slashes + safe

unfoldable pub joined : List ℕ → List ℕ → ℕ → List ℕ
unfolding path_length with_precision
joined fe_path res res_len =
    with_precision (path_length fe_path) fe_path ++ with_precision res_len res

-- The trimmed resource behind the directory, or the frontend's own file if nothing is left of it.
unfoldable pub joined_or_file : List ℕ → List ℕ → ℕ → List ℕ
unfolding behind_last joined
joined_or_file fe_path res res_len = elim (behind_last b'/' fe_path) [
  | none ↦ joined fe_path res res_len
  | some fe_file ↦
      if res_len == 0 then joined fe_path fe_file (length fe_file) else joined fe_path res res_len
]

unfoldable pub get_frontend_path : Option (List ℕ) → Option (List ℕ) → Option (List ℕ)
unfolding begins_with res_length has_dots joined_or_file
get_frontend_path none resource = none
get_frontend_path (some fe_path) none = none
get_frontend_path (some fe_path) (some resource) =
    let res = drop 10 resource in
    let res_len = res_length res in
    if begins_with devtools resource
    then (if has_dots (take res_len res) then none else some (joined_or_file fe_path res res_len))
    else none

-- `EXT_TO_MIME`
abbrev pub ext_to_mime : List (List ℕ × List ℕ)
ext_to_mime =
    (codes "css", codes "text/css")
    ∷ (codes "gif", codes "image/gif; charset=binary")
    ∷ (codes "html", codes "text/html; charset=UTF-8")
    ∷ (codes "ico", codes "image/x-icon")
    ∷ (codes "js", codes "application/javascript")
    ∷ (codes "json", codes "application/json; charset=UTF-8")
    ∷ (codes "png", codes "image/png; charset=binary")
    ∷ (codes "txt", codes "text/plain")
    ∷ []

unfoldable pub find_mime : List ℕ → List (List ℕ × List ℕ) → Option (List ℕ)
find_mime fext [] = none
find_mime fext ((ext, mime) ∷ rest) =
    if equal_ignoring_case fext ext then some mime else find_mime fext rest

-- `magic` is what libmagic says of a local file, if the program is built with it.
unfoldable pub get_content_type : (List ℕ → Option (List ℕ)) → List ℕ → Bool → Option (List ℕ)
unfolding behind_last find_mime
get_content_type magic path is_local =
    let guessed : Option (List ℕ) = if is_local then magic path else none in
    elim guessed [
      | some mime ↦ some mime
      | none ↦ elim (behind_last b'.' path) [ none ↦ none | some fext ↦ find_mime fext ext_to_mime ]
    ]

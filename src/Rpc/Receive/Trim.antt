-- ===== src/Rpc/Receive/Trim.antt =====
-- src/rpc.c: what `rpc_args_to_xml` cuts from the XML of a property list.
--
-- The XML is its bytes before the NUL. Characters are numbers, and an index stands for a pointer.
pub mod Laws
use ios_webkit_debug_proxy.Prelude.{
  ℕ, zero, suc, ◌-◌, Bool, true, false, ◌&&◌, ◌||◌, Option, some, none, List, [], ◌∷◌, take, drop,
  length, get_or, leb, ◌==◌, if◌then◌else◌,
}
use ios_webkit_debug_proxy.HashTable.Keys.{equal_strings}

-- "<plist" and "</plist>"
abbrev pub start_tag : List ℕ
start_tag = 60 ∷ 112 ∷ 108 ∷ 105 ∷ 115 ∷ 116 ∷ []

abbrev pub end_tag : List ℕ
end_tag = 60 ∷ 47 ∷ 112 ∷ 108 ∷ 105 ∷ 115 ∷ 116 ∷ 62 ∷ []

-- `strstr` for `start_tag`: the text from its first place on.
unfoldable pub find_start : List ℕ → Option (List ℕ)
unfolding equal_strings
find_start [] = none
find_start (c ∷ s) =
    let rest = find_start s in
    if equal_strings (take 6 (c ∷ s)) start_tag then some (c ∷ s) else rest

-- `strchr` for '>': the text behind it.
unfoldable pub behind_bracket : List ℕ → Option (List ℕ)
behind_bracket [] = none
behind_bracket (c ∷ s) = let rest = behind_bracket s in if c == 62 then some s else rest

unfoldable pub skip_newlines : List ℕ → List ℕ
skip_newlines [] = []
skip_newlines (c ∷ s) = let rest = skip_newlines s in if c == 10 then rest else c ∷ s

-- `tail - head`, where `tail` goes back over NUL and newlines.
unfoldable pub tail_of : ℕ → List ℕ → ℕ
tail_of zero s = 0
tail_of (suc n) s =
    let rest = tail_of n s in
    if get_or s (suc n) 0 == 0 || get_or s (suc n) 0 == 10 then rest else suc n

-- The text between the tags, without the character before the end tag.
unfoldable pub cut : List ℕ → Option (List ℕ)
unfolding tail_of equal_strings
cut s =
    let tail = tail_of (length s) s in
    if leb 8 tail && equal_strings (take 8 (drop (tail - 7) s)) end_tag
    then some (take (tail - 8) s)
    else none

unfoldable pub trim : List ℕ → List ℕ
unfolding find_start behind_bracket skip_newlines cut
trim xml = elim (find_start xml) [
  | none ↦ xml
  | some s ↦ elim (behind_bracket s) [
    | none ↦ xml
    | some t ↦ elim (cut (skip_newlines t)) [ none ↦ xml | some new_xml ↦ new_xml ]
  ]
]

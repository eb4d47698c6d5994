-- ===== src/Tests/Toy.antt =====
-- A property list library of two dictionary keys, for which the laws of Plist.antt hold.
use Prim.Native.Nat.{Ordering}
use Prim.Native.String.{String, compare}
use text.Mathlib.TextEquality.{path_by_compare}
use text.Mathlib.TextPositions.{compare_refl}
use ios_webkit_debug_proxy.Prelude.{
  ℕ, zero, suc, ◌≡◌, refl, inl, inr, Bool, true, false, Bool-cases, Option, some, none, List, [],
  ◌∷◌, if◌then◌else◌, arith,
}
use ios_webkit_debug_proxy.Plist.{PlistApi, PlistLaws}
use ios_webkit_debug_proxy.WebInspector.Session.{final_key, partial_key}
use ios_webkit_debug_proxy.WebInspector.Session.Send.{PartsFit}

pub data Toy : Type 0 where
  data_node : List ℕ → Toy
  item : String → Toy → Toy

abbrev same : String → String → Bool
same j k = elim (compare j k) [ Ordering.eq ↦ true | _ ↦ false ]

unfoldable pub print : Toy → Option (List ℕ)
print (data_node b) = some (0 ∷ b)
print (item k (data_node b)) =
    if same k final_key then some (1 ∷ b) else (if same k partial_key then some (2 ∷ b) else none)
print (item k (item j v)) = none

unfoldable pub parse : List ℕ → Option Toy
parse [] = none
parse (zero ∷ b) = some (data_node b)
parse (suc zero ∷ b) = some (item final_key (data_node b))
parse (suc (suc n) ∷ b) = some (item partial_key (data_node b))

unfoldable pub item_of : Toy → String → Option Toy
item_of (data_node b) j = none
item_of (item k v) j = if same j k then some v else none

unfoldable pub text_of : Toy → Option (List ℕ)
text_of (data_node b) = some b
text_of (item k v) = none

abbrev pub toy : PlistApi
toy = record {
  Plist = Toy;
  from_bin = parse;
  to_bin = print;
  new_data = data_node;
  get_data_val = text_of;
  new_dict_item = item;
  dict_get_item = item_of;
}

same→eq : (j k : String) → same j k ≡ true → j ≡ k
same→eq j k h = path_by_compare j k (ground (arith, h))

same_refl : (k : String) → same k k ≡ true
same_refl k = rw (compare_refl k, same)

parse-print : (p : Toy) (bytes : List ℕ) → print p ≡ some bytes → parse bytes ≡ some p
unfolding parse print
parse-print (data_node b) bytes h = let e : 0 ∷ b ≡ bytes = cc h in rw (← e) refl
parse-print (item k (data_node b)) bytes h = elim (Bool-cases (same k final_key)) [
  | inl f ↦ let e : 1 ∷ b ≡ bytes = cc (rw f at h) in rw (← e, same→eq k final_key f) refl
  | inr n ↦ elim (Bool-cases (same k partial_key)) [
    | inl f ↦ let e : 2 ∷ b ≡ bytes = cc (rw (n, f) at h) in rw (← e, same→eq k partial_key f) refl
    | inr m ↦ cc (rw (n, m) at h)
  ]
]
parse-print (item k (item j v)) bytes h = cc h

pub toy_laws : PlistLaws toy
unfolding item_of text_of
toy_laws = record {
  parse-print = parse-print;
  data_val = λ bytes. refl;
  item_self = λ k v. rw (same_refl k);
  item_other = λ j k v ne. elim (Bool-cases (same j k)) [
    | inl y ↦ absurd (ne (same→eq j k y))
    | inr n ↦ rw n
  ];
}

pub toy_fit : PartsFit toy
unfolding print
toy_fit k part (inl e) small = (1 ∷ part, rw e refl, omega (arith, small))
toy_fit k part (inr e) small = (2 ∷ part, rw e refl, omega (arith, small))

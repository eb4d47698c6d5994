-- ===== src/Iwdp/Frontend/Laws.antt =====
-- src/ios_webkit_debug_proxy.c: which paths a request can name.
use ios_webkit_debug_proxy.Prelude.{
  ℕ, suc, ◌+◌, ◌^◌, ◌<◌, ◌≤◌, ◌≡◌, ◌⊎◌, inl, inr, refl, ap, subst, ◌∙◌, true, false, some, none,
  List, [], ◌∷◌, ◌++◌, length, take, drop, arith, Bool-cases, Option-cases, length-drop,
  length-append, take-length, ◌==◌, ◌%◌, lt→ltb, take-length-append,
}
use ios_webkit_debug_proxy.Iwdp.Frontend.{
  behind_last, devtools, begins_with, path_length, is_safe, count_slashes, count_safe, has_dots,
  with_precision, res_length, joined, joined_or_file, get_frontend_path,
}

-- Every character is a letter, a digit, or one of "-./_".
pub data AllSafe : List ℕ → Type 0 where
  empty : AllSafe []
  cons : {c : ℕ} {s : List ℕ} → is_safe c ≡ true → AllSafe s → AllSafe (c ∷ s)

-- The part of the frontend's path up to its last '/'.
abbrev pub directory : List ℕ → List ℕ
directory fe_path = take (path_length fe_path) fe_path

-- A path made of the directory and of safe characters without "..".
pub record IsInside (fe_path path : List ℕ) : Type 0 where
  pub res : List ℕ
  pub is_path : path ≡ directory fe_path ++ res
  pub all_safe : AllSafe res
  pub no_dots : has_dots res ≡ false

-- The first loop over the resource changes nothing.
res_length_lem : (s : List ℕ) → res_length s ≡ count_safe s
unfolding res_length count_slashes count_safe
res_length_lem [] = refl
res_length_lem (c ∷ s) = ground (arith, res_length_lem s)

take-count_safe : (s : List ℕ) → AllSafe (take (count_safe s) s)
unfolding count_safe
take-count_safe [] = empty
take-count_safe (c ∷ s) = elim (Bool-cases (is_safe c)) [
  | inl e ↦ rw e (cons e (take-count_safe s))
  | inr e ↦ rw e empty
]

count_safe-le : (s : List ℕ) → count_safe s ≤ length s
unfolding count_safe
count_safe-le [] = omega arith
count_safe-le (c ∷ s) = ground (arith, count_safe-le s)

with_precision_lem :
    (n : ℕ) (s : List ℕ) → n ≤ length s → length s < 2 ^ 31 → with_precision n s ≡ take n s
unfolding with_precision
with_precision_lem n s le lt =
    let small : n % 2 ^ 32 ≡ n = omega arith in rw small (rw (lt→ltb n (2 ^ 31) (omega arith)) refl)

behind_last-split :
    (sep : ℕ) (s t : List ℕ) → behind_last sep s ≡ some t → (u : List ℕ) × (s ≡ u ++ t)
unfolding behind_last
behind_last-split sep [] t h = cc h
behind_last-split sep (c ∷ s) t h = elim (Option-cases (behind_last sep s)) [
  | inl e ↦ (c ∷ [], ap (λ l. c ∷ l) (ground (arith, h, e)))
  | inr (v, e) ↦
      let (u, split) = behind_last-split sep s v e in
      let same : v ≡ t = ground (arith, h, e) in
      (c ∷ u, ap (λ l. c ∷ l) (split ∙ ap (λ l. u ++ l) same))
]

-- The directory and the file behind it are the frontend's path.
directory-append :
    (fe_path fe_file : List ℕ)
    → behind_last b'/' fe_path ≡ some fe_file
    → (directory fe_path ++ fe_file ≡ fe_path) × (length fe_file ≤ length fe_path)
unfolding path_length
directory-append fe_path fe_file found =
    let (u, split) = behind_last-split b'/' fe_path fe_file found in
    let sized : length fe_path ≡ length u + length fe_file =
      ap length split ∙ length-append u fe_file in
    let at : path_length fe_path ≡ length u = rw (found, path_length) (omega (arith, sized)) in
    (rw at (rw split (rw (take-length-append u fe_file) refl)), omega (arith, sized))

path_length-le : (fe_path : List ℕ) → path_length fe_path ≤ length fe_path
unfolding path_length
path_length-le fe_path = elim (Option-cases (behind_last b'/' fe_path)) [
  | inl e ↦ rw (e, path_length) (omega arith)
  | inr (t, e) ↦ rw (e, path_length) (omega arith)
]

joined_lem :
    (fe_path res : List ℕ) (n : ℕ)
    → n ≤ length res
    → length fe_path < 2 ^ 31
    → length res < 2 ^ 31
    → joined fe_path res n ≡ directory fe_path ++ take n res
unfolding joined
joined_lem fe_path res n le small_path small_res =
    rw
      (
        with_precision_lem (path_length fe_path) fe_path (path_length-le fe_path) small_path,
        with_precision_lem n res le small_res,
      )
      refl

-- The path of a resource that is behind "/devtools/" and has no "..".
inside :
    (fe_path res : List ℕ)
    → length fe_path < 2 ^ 31
    → length res < 2 ^ 31
    → has_dots (take (res_length res) res) ≡ false
    → (joined_or_file fe_path res (res_length res) ≡ fe_path)
      ⊎ IsInside fe_path (joined_or_file fe_path res (res_length res))
unfolding joined_or_file
inside fe_path res small_path small_res no_dots =
    let le : res_length res ≤ length res = rw (res_length_lem res) (count_safe-le res) in
    let path = joined_lem fe_path res (res_length res) le small_path small_res in
    let safe : AllSafe (take (res_length res) res) =
      rw (res_length_lem res) (take-count_safe res) in
    let in_directory : IsInside fe_path (joined fe_path res (res_length res)) = record {
      res = take (res_length res) res;
      is_path = path;
      all_safe = safe;
      no_dots = no_dots;
    } in
    elim (Option-cases (behind_last b'/' fe_path)) [
      | inl e ↦ rw (e, joined_or_file) (inr in_directory)
      | inr (fe_file, e) ↦ elim (Bool-cases (res_length res == 0)) [
        | inr some_res ↦ rw (e, some_res, joined_or_file) (inr in_directory)
        | inl no_res ↦
            let (whole, shorter) = directory-append fe_path fe_file e in
            rw (e, no_res, joined_or_file)
              (inl (
                joined_lem fe_path fe_file (length fe_file) (omega arith) small_path
                  (omega (arith, shorter))
                ∙ rw (take-length fe_file) whole))
      ]
    ]

-- For a frontend and a resource of fewer than 2 ^ 31 characters, the path that
-- iwdp_get_frontend_path answers is the frontend itself, or the frontend's directory followed by
-- letters, digits and "-./_" without "..".
pub get_frontend_path-IsInside :
    (fe_path resource path : List ℕ)
    → length fe_path < 2 ^ 31
    → length resource < 2 ^ 31
    → get_frontend_path (some fe_path) (some resource) ≡ some path
    → (path ≡ fe_path) ⊎ IsInside fe_path path
unfolding get_frontend_path
get_frontend_path-IsInside fe_path resource path small_path small h =
    let res = drop 10 resource in
    let small_res : length res < 2 ^ 31 = omega (arith, length-drop 10 resource) in
    elim (Bool-cases (begins_with devtools resource)) [
      | inr e ↦ ground (arith, h, e)
      | inl e ↦ elim (Bool-cases (has_dots (take (res_length res) res))) [
        | inl d ↦ ground (arith, h, e, d)
        | inr d ↦
            let same : joined_or_file fe_path res (res_length res) ≡ path =
              ground (arith, h, e, d) in
            subst (λ p. (p ≡ fe_path) ⊎ IsInside fe_path p) same
              (inside fe_path res small_path small_res d)
      ]
    ]

count_safe-AllSafe : {r : List ℕ} → AllSafe r → count_safe r ≡ length r
unfolding count_safe
count_safe-AllSafe empty = refl
count_safe-AllSafe (cons h s) = rw h (ap suc (count_safe-AllSafe s))

-- For a frontend that is a file without a directory, and a resource of fewer than 2 ^ 31 letters,
-- digits and "-./_" without "..", the resource behind "/devtools//" is answered as an absolute path.
pub get_frontend_path-root :
    (fe_path res : List ℕ)
    → length fe_path < 2 ^ 31
    → length res + 1 < 2 ^ 31
    → behind_last b'/' fe_path ≡ none
    → AllSafe res
    → has_dots res ≡ false
    → get_frontend_path (some fe_path) (some (devtools ++ (b'/' ∷ res))) ≡ some (b'/' ∷ res)
unfolding get_frontend_path joined_or_file
get_frontend_path-root fe_path res small_path small no_slash safe no_dots =
    let sized : res_length (b'/' ∷ res) ≡ length (b'/' ∷ res) =
      res_length_lem (b'/' ∷ res) ∙ count_safe-AllSafe (cons {c = b'/'} refl safe) in
    let no_directory : directory fe_path ≡ [] = rw (no_slash, path_length) refl in
    let path : joined_or_file fe_path (b'/' ∷ res) (length (b'/' ∷ res)) ≡ b'/' ∷ res =
      rw (no_slash, joined_or_file)
        (joined_lem fe_path (b'/' ∷ res) (length (b'/' ∷ res)) (omega arith) small_path
            (omega arith)
          ∙ rw (no_directory, take-length (b'/' ∷ res)) refl) in
    rw sized (rw (take-length res) (rw no_dots (ap some path)))

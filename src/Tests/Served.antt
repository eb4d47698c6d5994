-- ===== src/Tests/Served.antt =====
-- src/ios_webkit_debug_proxy.c: paths and strings at concrete texts.
use ios_webkit_debug_proxy.Prelude.{◌≡◌, ◌⊎◌, refl, some, none, arith, false, codes}
use ios_webkit_debug_proxy.Iwdp.Frontend.{
  behind_last, has_dots, get_frontend_path, get_content_type,
}
use ios_webkit_debug_proxy.Iwdp.Frontend.Laws.{
  empty, cons, IsInside, get_frontend_path-IsInside, get_frontend_path-root,
}
use ios_webkit_debug_proxy.PortConfig.{equal_ignoring_case}
use ios_webkit_debug_proxy.Iwdp.Escape.{escape_json_string_val}

get_frontend_path-IsInside_example :
    (codes "/q/a.js" ≡ codes "/q/i.html") ⊎ IsInside (codes "/q/i.html") (codes "/q/a.js")
unfolding get_frontend_path
get_frontend_path-IsInside_example =
    get_frontend_path-IsInside (codes "/q/i.html") (codes "/devtools/a.js?x") (codes "/q/a.js")
      (omega arith) (omega arith) refl

get_frontend_path-root_example :
    get_frontend_path (some (codes "i.html")) (some (codes "/devtools//etc")) ≡ some (codes "/etc")
unfolding behind_last has_dots
get_frontend_path-root_example =
    get_frontend_path-root (codes "i.html") (codes "etc") (omega arith) (omega arith) refl
      (cons refl (cons refl (cons refl empty))) refl

-- A tab stands as the character 9, and a newline as the character 16.
escaped_newline : escape_json_string_val (codes "\n") ≡ codes "\\u0010"
unfolding escape_json_string_val
escaped_newline = refl

served_script :
    get_content_type (λ path. none) (codes "/q/a.JS") false ≡ some (codes "application/javascript")
unfolding get_content_type equal_ignoring_case
served_script = refl

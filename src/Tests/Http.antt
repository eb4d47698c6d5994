-- ===== src/Tests/Http.antt =====
-- src/websocket.c: the request line and the headers at concrete texts.
use ios_webkit_debug_proxy.Prelude.{
  ℕ, ◌≡◌, refl, some, none, List, [], ◌∷◌, ◌++◌, any, false, true, codes,
}
use ios_webkit_debug_proxy.Prelude.Status.{success}
use ios_webkit_debug_proxy.Iwdp.Frontend.{behind_last}
use ios_webkit_debug_proxy.PortConfig.{equal_ignoring_case}
use ios_webkit_debug_proxy.WebSocket.Http.{
  Http, skip_spaces, drop_last_spaces, read_http_request, read_http_header, contains_ignoring_case,
  without_port, conclude, read_headers,
}
use ios_webkit_debug_proxy.WebSocket.Http.Line.{end_line, is_break, is_space, is_sep}
use ios_webkit_debug_proxy.WebSocket.Http.Request.{read_http_request-line}
use ios_webkit_debug_proxy.WebSocket.Http.Headers.{IsHeader, read_http_header-no_colon}
use ios_webkit_debug_proxy.WebSocket.Http.Loop.{
  Header, empty, cons, header_lines, described, read_headers-header_lines,
}
use ios_webkit_debug_proxy.WebSocket.Http.Total.{read_headers_total}

abbrev blank : Http
blank = record {
  method = none;
  resource = none;
  http_version = none;
  req_host = none;
  protocol = none;
  version = 0;
  sec_key = none;
  is_websocket = false;
}

read_http_request-line_example :
    read_http_request blank (codes "GET /devtools/page/1 HTTP/1.1" ++ end_line []) ≡ (
      success,
      record blank {
        method = some (codes "GET");
        resource = some (codes "/devtools/page/1");
        http_version = some (codes "HTTP/1.1");
      },
      end_line [],
    )
read_http_request-line_example =
    read_http_request-line blank (codes "GET") (codes "/devtools/page/1") (codes "HTTP/1.1") []
      (record { not_empty = λ e. absurd (cc e); no_break = refl; no_space = refl })
      (record { not_empty = λ e. absurd (cc e); no_break = refl; no_space = refl })
      (record { not_empty = λ e. absurd (cc e); no_break = refl; no_space = refl })

-- Of `strtol` the examples take one value.
abbrev thirteen : List ℕ → ℕ
thirteen s = 13

abbrev upgrade : List Header
upgrade =
    record { first = b'H'; name = codes "ost"; val = codes "localhost:9222" }
    ∷ record { first = b'C'; name = codes "onnection"; val = codes "keep-alive, Upgrade" }
    ∷ record { first = b'U'; name = codes "pgrade"; val = codes "websocket" }
    ∷ record { first = b'S'; name = codes "ec-WebSocket-Key"; val = codes "dGhl" }
    ∷ []

plain :
    (first : ℕ) (name val : List ℕ)
    → any is_break (first ∷ name) ≡ false
    → any is_break val ≡ false
    → is_space first ≡ false
    → any (is_sep b':') name ≡ false
    → drop_last_spaces (skip_spaces val) ≡ val
    → IsHeader first name val
plain first name val in_name in_val no_space no_colon is_trimmed = record {
  no_break_in_name = in_name;
  no_break_in_val = in_val;
  no_space = no_space;
  no_colon = no_colon;
  is_trimmed = is_trimmed;
}

read_headers-header_lines_example :
    read_headers thirteen [] blank (header_lines upgrade [])
    ≡ some (
      success,
      conclude thirteen (
          described thirteen upgrade
            (record { is_connection = false; is_upgrade = false; my = blank })),
      [],
    )
unfolding skip_spaces drop_last_spaces
read_headers-header_lines_example = read_headers-header_lines thirteen [] blank upgrade [] (
    cons (plain b'H' (codes "ost") (codes "localhost:9222") refl refl refl refl refl) (
      cons (plain b'C' (codes "onnection") (codes "keep-alive, Upgrade") refl refl refl refl refl) (
        cons (plain b'U' (codes "pgrade") (codes "websocket") refl refl refl refl refl) (
          cons (plain b'S' (codes "ec-WebSocket-Key") (codes "dGhl") refl refl refl refl refl)
            empty))))

-- These headers open a web socket, for a host without its port.
upgraded :
    conclude thirteen (
      described thirteen upgrade (record { is_connection = false; is_upgrade = false; my = blank }))
    ≡ record blank {
      req_host = some (codes "localhost");
      sec_key = some (codes "dGhl");
      is_websocket = true;
    }
unfolding conclude equal_ignoring_case contains_ignoring_case without_port behind_last
upgraded = refl

read_headers_total_example :
    (my' : Http) × (input' : List ℕ) × (read_headers thirteen
        (0 ∷ [])
        blank
        (codes "Host" ++ end_line (end_line []))
      ≡ some (success, my', input'))
read_headers_total_example =
    read_headers_total thirteen (0 ∷ []) blank (codes "Host" ++ end_line (end_line [])) refl

read_http_header-no_colon_example :
    read_http_header [] (codes "Host" ++ end_line (end_line [])) ≡ none
read_http_header-no_colon_example =
    read_http_header-no_colon [] b'H' (codes "ost") (end_line []) refl refl refl refl

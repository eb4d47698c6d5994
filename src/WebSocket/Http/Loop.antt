-- ===== src/WebSocket/Http/Loop.antt =====
-- src/websocket.c: the headers together.
use ios_webkit_debug_proxy.Prelude.{
  ℕ, zero, suc, ◌<◌, false, some, none, List, [], ◌∷◌, ◌++◌, ◌≡◌, refl, length, codes,
  if◌then◌else◌, arith, length-append,
}
use ios_webkit_debug_proxy.Prelude.Status.{success}
use ios_webkit_debug_proxy.Iwdp.Frontend.{begins_with}
use ios_webkit_debug_proxy.PortConfig.{equal_ignoring_case}
use ios_webkit_debug_proxy.WebSocket.Http.Names.{set_fields, on_header_lem}
use ios_webkit_debug_proxy.WebSocket.Http.{
  Http, Reading, contains_ignoring_case, without_port, conclude, read_http_header,
  read_headers_loop, read_headers, find_line,
}
use ios_webkit_debug_proxy.WebSocket.Http.Line.{end_line}
use ios_webkit_debug_proxy.WebSocket.Http.Headers.{IsHeader, header_tail, read_http_header-header}

-- A header, with the first character of its name apart.
pub record Header : Type 0 where
  pub first : ℕ
  pub name : List ℕ
  pub val : List ℕ

pub data AreHeaders : List Header → Type 0 where
  empty : AreHeaders []
  cons :
      {h : Header} {hs : List Header}
      → IsHeader h.first h.name h.val
      → AreHeaders hs
      → AreHeaders (h ∷ hs)

-- The headers in lines, an empty line, and what follows.
abbrev pub header_lines : List Header → List ℕ → List ℕ
header_lines [] rest = end_line rest
header_lines (h ∷ hs) rest = h.first ∷ (header_tail h.name h.val ++ end_line (header_lines hs rest))

-- The latest value that a header of this name has, whatever the case of its letters.
abbrev pub latest {ℓ} : {X : Type ℓ} → List ℕ → (List ℕ → X) → List Header → X → X
latest name of_val [] x = x
latest name of_val (h ∷ hs) x =
    latest name of_val hs (if equal_ignoring_case (h.first ∷ h.name) name then of_val h.val else x)

read_http_header-end :
    (beyond rest : List ℕ) → read_http_header beyond (end_line rest) ≡ some (success, none, rest)
unfolding read_http_header find_line begins_with
read_http_header-end beyond rest = refl

module _ (strtol : List ℕ → ℕ) where
  -- What the headers ask for, each field by itself.
  abbrev pub described : List Header → Reading → Reading
  described hs r = record {
    is_connection =
        latest (codes "Connection") (λ v. contains_ignoring_case v (codes "Upgrade")) hs
          r.is_connection;
    is_upgrade =
        latest (codes "Upgrade") (λ v. equal_ignoring_case v (codes "WebSocket")) hs r.is_upgrade;
    my = record r.my {
      protocol = latest (codes "Sec-WebSocket-Protocol") some hs r.my.protocol;
      version = latest (codes "Sec-WebSocket-Version") strtol hs r.my.version;
      sec_key = latest (codes "Sec-WebSocket-Key") some hs r.my.sec_key;
      req_host = latest (codes "Host") (λ v. some (without_port v)) hs r.my.req_host;
    };
  }

  loop_lem :
      (fuel : ℕ) (beyond : List ℕ) (hs : List Header) (rest : List ℕ) (r : Reading)
      → AreHeaders hs
      → length hs < fuel
      → read_headers_loop strtol fuel beyond r (header_lines hs rest)
        ≡ some (success, conclude strtol (described hs r), rest)
  unfolding read_headers_loop
  loop_lem zero beyond hs rest r good lt = absurd (omega (arith, lt))
  loop_lem (suc fuel) beyond [] rest r good lt =
      rw (read_http_header-end beyond rest, read_headers_loop) refl
  loop_lem (suc fuel) beyond (h ∷ hs) rest r (cons is_header good) lt =
      let key = h.first ∷ h.name in
      let read =
        read_http_header-header beyond h.first h.name h.val (header_lines hs rest) is_header in
      rw (read, read_headers_loop)
        (rw (on_header_lem strtol key h.val r)
          (loop_lem fuel beyond hs rest (set_fields strtol key h.val r) good (omega (arith, lt))))

  header_lines_bound :
      (hs : List Header) (rest : List ℕ) → length hs < length (header_lines hs rest)
  header_lines_bound [] rest = omega arith
  header_lines_bound (h ∷ hs) rest =
      let later = header_lines_bound hs rest in
      let more = length-append (header_tail h.name h.val) (end_line (header_lines hs rest)) in
      omega (arith, later, more)

  -- Headers in lines, an empty line behind them: ws_read_headers succeeds and leaves what follows, and
  -- each field has what the latest header of its name says (the host without its port), or, if there
  -- is none, what it had; the connection is a web socket if "Connection" and "Upgrade" ask for it and
  -- there is a key. No name has a ':' behind its first character or begins with a space, no value
  -- begins or ends with one, and there is no NUL and no "\r" in them.
  pub read_headers-header_lines :
      (beyond : List ℕ) (my : Http) (hs : List Header) (rest : List ℕ)
      → AreHeaders hs
      → read_headers strtol beyond my (header_lines hs rest)
        ≡ some (
          success,
          conclude strtol
              (described hs (record { is_connection = false; is_upgrade = false; my = my })),
          rest,
        )
  unfolding read_headers
  read_headers-header_lines beyond my hs rest good =
      let r : Reading = record { is_connection = false; is_upgrade = false; my = my } in
      let bound = header_lines_bound hs rest in
      loop_lem (suc (length (header_lines hs rest))) beyond hs rest r good (omega (arith, bound))

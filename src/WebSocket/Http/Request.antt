-- ===== src/WebSocket/Http/Request.antt =====
-- src/websocket.c: the request line.
use ios_webkit_debug_proxy.Prelude.{
  ℕ, false, some, List, [], ◌∷◌, ◌++◌, ◌≡◌, ◌≢◌, refl, ◌∙◌, any, arith, any-append,
  drop-length-append,
}
use ios_webkit_debug_proxy.Prelude.Status.{success}
use ios_webkit_debug_proxy.WebSocket.Http.{Http, read_http_request}
use ios_webkit_debug_proxy.WebSocket.Http.Line.{
  is_break, is_space, end_line, find_line-append, next_word-append, next_word_lem, next_word-space,
}

-- A text without spaces and line ends, and not empty.
pub record IsWord (s : List ℕ) : Type 0 where
  pub not_empty : s ≢ []
  pub no_break : any is_break s ≡ false
  pub no_space : any is_space s ≡ false

abbrev pub request_line : List ℕ → List ℕ → List ℕ → List ℕ
request_line method resource version = method ++ (b' ' ∷ (resource ++ (b' ' ∷ version)))

request_line-breaks :
    (method resource version : List ℕ)
    → IsWord method
    → IsWord resource
    → IsWord version
    → any is_break (request_line method resource version) ≡ false
request_line-breaks method resource version m r v =
    rw (any-append is_break method (b' ' ∷ (resource ++ (b' ' ∷ version)))) (
      rw (any-append is_break resource (b' ' ∷ version))
        (ground (arith, m.no_break, r.no_break, v.no_break)))

-- From a line of three words with a space between them ws_read_http_request gets the method, the
-- resource and the version back, and leaves the end of the line and what follows.
pub read_http_request-line :
    (my : Http) (method resource version rest : List ℕ)
    → IsWord method
    → IsWord resource
    → IsWord version
    → read_http_request my (request_line method resource version ++ end_line rest) ≡ (
      success,
      record my { method = some method; resource = some resource; http_version = some version },
      end_line rest,
    )
unfolding read_http_request
read_http_request-line my method resource version rest m r v =
    let line = request_line method resource version in
    let no_break = request_line-breaks method resource version m r v in
    let last = next_word-space version ∙ next_word_lem version v.not_empty v.no_space in
    let second =
      next_word-space (resource ++ (b' ' ∷ version))
      ∙ next_word-append resource version r.not_empty r.no_space in
    let first = next_word-append method (resource ++ (b' ' ∷ version)) m.not_empty m.no_space in
    rw (find_line-append line rest no_break, read_http_request)
      (rw first (rw second (rw last (rw (drop-length-append line (end_line rest)) refl))))

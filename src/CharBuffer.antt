-- ===== src/CharBuffer.antt =====
-- src/char_buffer.c: the byte buffer that every reader of a socket keeps its unread bytes in.
--
-- `begin`, `head`, `tail` and `end` are pointers into one block: here `begin` says whether it is
-- not NULL, the others are offsets from it, and `live` holds the bytes from `head` up to `tail`
-- (the program reads no other byte of the block). `in_head` and `in_tail` are the `Input`.
pub mod Capacity
pub mod Stream
use ios_webkit_debug_proxy.Prelude.{
  ℕ, ◌+◌, ◌-◌, ◌*◌, ◌/◌, ◌%◌, ◌^◌, Bool, true, false, not, ◌||◌, Option, none, some, List, [], ◌++◌,
  length, ltb, leb, ◌==◌, if◌then◌else◌,
}
use ios_webkit_debug_proxy.Prelude.Status.{Status, success, error}

-- `in_head` and `in_tail`: NULL, inside the caller's bytes, or inside the block. In each case the
-- list holds the bytes between the two; in the last the number is the offset of `in_tail`.
pub data Input : Type 0 where
  null : Input
  caller : List ℕ → Input
  own : List ℕ → ℕ → Input

pub record CharBuffer : Type 0 where
  pub begin : Bool
  pub head : ℕ
  pub tail : ℕ
  pub end : ℕ
  pub live : List ℕ
  pub input : Input

-- `size_t` is 64 bits wide.
abbrev pub size_mod : ℕ
size_mod = 2 ^ 64

abbrev pub min_length : ℕ
min_length = 1024

unfoldable pub new : CharBuffer
new = record { begin = false; head = 0; tail = 0; end = 0; live = []; input = null }

unfoldable pub clear : CharBuffer → CharBuffer
clear c = record c { head = 0; tail = 0; live = [] }

-- The bytes from `in_head` up to `in_tail`.
abbrev pub unread : CharBuffer → List ℕ
unread c = elim c.input [ null ↦ [] | caller u ↦ u | own u t ↦ u ]

-- `in_head` is moved so that `u` is what is left up to `in_tail`.
abbrev pub with_unread : CharBuffer → List ℕ → CharBuffer
with_unread c u = record c {
  input = elim c.input [ null ↦ null | caller _ ↦ caller u | own _ t ↦ own u t ];
}

-- `memcpy(self->tail, bytes, n); self->tail += n;`, or `none` if that overruns the block.
unfoldable pub append : CharBuffer → List ℕ → Option CharBuffer
append c bytes =
    if leb (c.tail + length bytes) c.end
    then some (record c { tail = c.tail + length bytes; live = c.live ++ bytes })
    else none

-- `malloc` and `realloc` give a block of `n` bytes if `alloc n`.
module _ (alloc : ℕ → Bool) where
  -- `1.5 * length` in `double` is exact for the lengths below 2 ^ 52; its cast drops the half.
  grown_length : ℕ → ℕ → ℕ
  grown_length length wanted =
      let new_length = wanted % size_mod in
      if ltb (2 * new_length) (3 * length) then length + length / 2 else new_length

  -- The second `if (needed > avail)`: the live bytes start at `begin`.
  resize : CharBuffer → ℕ → Status × CharBuffer
  unfolding grown_length
  resize c needed =
      let used = c.tail - c.head in
      let new_length = grown_length c.end (used + needed) in
      if alloc new_length
      then (success, record c { head = 0; tail = used; end = new_length })
      else (error, c)

  -- The first `if (needed > avail)`.
  make_room : CharBuffer → ℕ → Status × CharBuffer
  unfolding resize
  make_room c needed =
      let used = c.tail - c.head in
      let avail = c.end - c.tail in
      let moved = if c.head == 0 then c else record c { head = 0; tail = used } in
      if ltb avail needed
      then if ltb (avail + c.head) needed then resize moved needed else (success, moved)
      else (success, c)

  first_block : CharBuffer → ℕ → Status × CharBuffer
  first_block c needed =
      let length = if ltb min_length needed then needed else min_length in
      if alloc length
      then (success, record c { begin = true; head = 0; tail = 0; end = length })
      else (error, c)

  unfoldable pub ensure_capacity : CharBuffer → ℕ → Status × CharBuffer
  unfolding make_room first_block
  ensure_capacity c needed =
      if not c.begin
      then first_block c needed
      else make_room (if c.tail == c.head then record c { head = 0; tail = 0 } else c) needed

  -- What a call returns, or `none` where it writes outside its block.
  append_ensured : CharBuffer → List ℕ → Option (Status × CharBuffer)
  append_ensured c bytes =
      let (status, c') = ensure_capacity c (length bytes) in
      elim status [
        | error ↦ some (error, c')
        | success ↦ elim (append c' bytes) [ none ↦ none | some d ↦ some (success, d) ]
      ]

  -- `none` for `buf` is a NULL pointer or a negative length.
  unfoldable pub begin_input : CharBuffer → Option (List ℕ) → Option (Status × CharBuffer)
  unfolding append_ensured
  begin_input c none = some (error, c)
  begin_input c (some buf) =
      if not c.begin || c.tail == c.head
      then some (success, record c { input = caller buf })
      else elim (append_ensured c buf) [
        | none ↦ none
        | some (error, d) ↦ some (error, d)
        | some (success, d) ↦ some (success, record d { input = own d.live d.tail })
      ]

  -- `!self->begin || self->in_tail != self->tail`
  did_share : CharBuffer → Bool
  did_share c =
      not c.begin || elim c.input [ null ↦ true | caller u ↦ true | own u t ↦ not (t == c.tail) ]

  -- `self->head += self->in_head - self->head`: `in_head` stands `length u` bytes before `tail`.
  keep_rest : CharBuffer → CharBuffer
  keep_rest c = record c { head = c.tail - length (unread c); live = unread c; input = null }

  unfoldable pub end_input : CharBuffer → Option (Status × CharBuffer)
  unfolding append_ensured did_share keep_rest
  end_input c =
      if did_share c
      then if ltb 0 (length (unread c))
        then elim (append_ensured c (unread c)) [
          | none ↦ none
          | some (error, d) ↦ some (error, d)
          | some (success, d) ↦ some (success, record d { input = null })
        ]
        else some (success, record c { input = null })
      else some (success, keep_rest c)

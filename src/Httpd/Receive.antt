-- ===== src/Httpd/Receive.antt =====
-- `httpdRecvCb` of httpd/httpd.c for the connection that it finds.
pub mod Segments
pub mod Post
pub mod Wire
pub mod Frame
use ems_esp_link.Prelude.{
  ℕ, zero, suc, ◌+◌, ◌-◌, ◌%◌, ◌^◌, take, Bool, true, false, ◌||◌, Option, none, some, List, [],
  ◌∷◌, ◌++◌, ltb, ◌==◌, if◌then◌else◌, length,
}
use ems_esp_link.Prelude.Text.{Bytes, codes, c_string, strstr}
use ems_esp_link.Prelude.Words.{slt, add32}
use ems_esp_link.Httpd.Conn.{Conn, PostData}
use ems_esp_link.Httpd.Dispatch.{Output, BuiltInUrl, Handlers, process_request}
use ems_esp_link.Httpd.Request.{parse_lines}

-- MAX_HEAD_LEN
abbrev pub max_head_len : ℕ
max_head_len = 1024

-- A byte of the head, with the length as `headPos`.
unfoldable pub store_byte : Bytes → ℕ → Bytes
store_byte head c = if length head == max_head_len then head else head ++ (c ∷ [])

-- `headPos` after `head[headPos] = 0`. Behind the 1024 bytes of `head` lies `headPos` itself, so that the
-- terminator of a full head is written over its low byte.
unfoldable pub terminate : ℕ → ℕ
terminate head_pos = if head_pos == max_head_len then head_pos - head_pos % 2 ^ 8 else head_pos

-- A byte of the head and the terminator.
unfoldable pub push_head : Bytes → ℕ → Bytes
push_head head c = let stored = store_byte head c in take (terminate (length stored)) stored

-- The test for the empty line that ends the head.
unfoldable pub ends_head : Bytes → ℕ → Bool
ends_head head c = elim (c == b'\n') [
  | false ↦ false
  | true ↦ elim (strstr (c_string head) (codes "\r\n\r\n")) [ none ↦ false | some _ ↦ true ]
]

-- The head is complete: its lines are parsed.
unfoldable pub parse_head : Conn → Conn
parse_head c =
    let start = record c { url = none; body = record c.body { len = 0 } } in
    let (head, c') = parse_lines (length c.head) c.head start in record c' { head = head }

-- A byte of the body.
unfoldable pub push_body : PostData → ℕ → PostData
push_body p c = elim p.buff [
  | none ↦ p
  | some buff ↦ record p { buff = some (buff ++ (c ∷ [])); received = add32 p.received 1 }
]

-- `buffLen`
abbrev pub buff_len : PostData → ℕ
buff_len p = elim p.buff [ none ↦ 0 | some buff ↦ length buff ]

-- The test for a chunk: the buffer is full, or all has been received.
unfoldable pub is_chunk : PostData → Bool
is_chunk p = if slt (buff_len p) p.buff_size then p.received == p.len else true

-- `buffLen = 0`
unfoldable pub empty_buff : Conn → Conn
empty_buff c = record c {
  body = record c.body { buff = (elim c.body.buff [ none ↦ none | some _ ↦ some [] ]) };
}

module _ {W : Type 0} (handlers : Handlers W) (table : List BuiltInUrl) where
  -- A byte while the head is received.
  unfoldable pub head_byte : W → Conn → ℕ → List Output × W × Conn
  unfolding push_head ends_head parse_head
  head_byte w c x =
      let c1 = record c { head = push_head c.head x } in
      let c2 = parse_head c1 in
      if ends_head c1.head x
      then if c2.body.len == 0 then process_request handlers table w c2 else ([], w, c2)
      else ([], w, c1)

  -- A byte of the body.
  unfoldable pub body_byte : W → Conn → ℕ → List Output × W × Conn
  unfolding push_body is_chunk empty_buff
  body_byte w c x =
      let c1 = record c { body = push_body c.body x } in
      let (out, w', c2) = process_request handlers table w c1 in
      if is_chunk c1.body then (out, w', empty_buff c2) else ([], w, c1)

  -- One round of the loop.
  unfoldable pub recv_byte : W → Conn → ℕ → List Output × W × Conn
  unfolding head_byte body_byte
  recv_byte w c x =
      if slt c.body.len 0
      then head_byte w c x
      else if c.body.len == 0
      then ([], w, c)
      else body_byte w c x

  unfoldable pub recv_bytes : W → Conn → Bytes → List Output × W × Conn
  unfolding recv_byte
  recv_bytes w c [] = ([], w, c)
  recv_bytes w c (x ∷ xs) =
      let (out, w1, c1) = recv_byte w c x in
      let (more, w2, c2) = recv_bytes w1 c1 xs in (out ++ more, w2, c2)

  -- The body of `httpdRecvCb`, with the send buffer of the call.
  unfoldable pub recv_data : W → Conn → Bytes → List Output × W × Conn
  unfolding recv_bytes
  recv_data w c text = recv_bytes w (record c { send_buff = [] }) text

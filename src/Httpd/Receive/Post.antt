-- ===== src/Httpd/Receive/Post.antt =====
-- What is kept of the head, and the buffer for the body, which is never overrun.
use ems_esp_link.Prelude.{
  ℕ, ◌≤◌, ◌<◌, ◌≡◌, ◌≢◌, refl, ap, sym, subst, ◌∙◌, inl, inr, false, none, some, List, [], ◌∷◌,
  ◌++◌, ◌==◌, take, length, length-append, arith, Bool-cases, Option-cases,
}
use ems_esp_link.Prelude.Text.{Bytes, atoi_lt}
use ems_esp_link.Prelude.Words.{slt}
use ems_esp_link.Httpd.Conn.{Conn, PostData}
use ems_esp_link.Httpd.Dispatch.{BuiltInUrl, Handlers, process_request}
use ems_esp_link.Httpd.Dispatch.Frame.{IsFramed, process_request_frame}
use ems_esp_link.Httpd.Request.{max_post, skip_blanks, set_length}
use ems_esp_link.Httpd.Request.Keeps.{IsKept, parse_lines_lem}
use ems_esp_link.Httpd.Request.Length.{parse_lines-length}
use ems_esp_link.Httpd.Receive.{
  max_head_len, store_byte, terminate, push_head, ends_head, head_byte, body_byte, push_body,
  buff_len, is_chunk, parse_head, empty_buff, recv_byte, recv_bytes, recv_data,
}

-- A buffer is allocated, of `buff_size` bytes and one more, and the next byte has room in it.
abbrev pub HasRoom : PostData → Type 0
HasRoom p = (p.buff ≢ none) × (buff_len p < p.buff_size) × (p.buff_size ≤ max_post)

-- If the body is being received, it has room.
abbrev pub IsReady : PostData → Type 0
IsReady p = slt p.len 0 ≡ false → p.len ≢ 0 → HasRoom p

pub record IsSafe (c : Conn) : Type 0 where
  pub head_fits : length c.head ≤ max_head_len
  pub body_ready : IsReady c.body

set_length-IsReady : (s : Bytes) (p : PostData) → IsReady (set_length s p)
unfolding set_length
set_length-IsReady s p h ne = ground (arith, atoi_lt (skip_blanks s))

BodyReady-IsKept : IsKept (λ c. IsReady c.body)
BodyReady-IsKept = record {
  by_url = λ c method url args k. k;
  by_length = λ c s k. set_length-IsReady s c.body;
  by_boundary = λ c b k. k;
}

-- The terminator of a full head leaves `headPos`.
terminate_lem : (head_pos : ℕ) → terminate head_pos ≡ head_pos
unfolding terminate
terminate_lem head_pos = ground arith

take_all : (s : Bytes) → take (length s) s ≡ s
take_all [] = refl
take_all (c ∷ s) = ap (λ r. c ∷ r) (take_all s)

push_head-store_byte : (h : Bytes) (x : ℕ) → push_head h x ≡ store_byte h x
unfolding push_head
push_head-store_byte h x =
    ap (λ n. take n (store_byte h x)) (terminate_lem (length (store_byte h x)))
    ∙ take_all (store_byte h x)

store_byte-length :
    (h : Bytes) (x : ℕ) → length h ≤ max_head_len → length (store_byte h x) ≤ max_head_len
unfolding store_byte
store_byte-length h x l = ground (arith, length-append h (x ∷ []))

push_head-length :
    (h : Bytes) (x : ℕ) → length h ≤ max_head_len → length (push_head h x) ≤ max_head_len
push_head-length h x l =
    subst (λ s. length s ≤ max_head_len) (sym (push_head-store_byte h x)) (store_byte-length h x l)

parse_head-IsSafe : (c : Conn) → length c.head ≤ max_head_len → IsSafe (parse_head c)
unfolding parse_head
parse_head-IsSafe c l =
    let start = record c { url = none; body = record c.body { len = 0 } } in
    record {
      head_fits = omega (arith, parse_lines-length (length c.head) c.head start);
      body_ready =
          parse_lines_lem (λ k. IsReady k.body) BodyReady-IsKept (length c.head) c.head start
            (λ h ne. absurd (ne refl));
    }

-- What a handler may not touch: the head and the body.
abbrev pub Same : Conn → Conn → Type 0
Same c c' = (c'.head ≡ c.head) × (c'.body ≡ c.body)

module _ {W : Type 0} (handlers : Handlers W)
    (leaves : (k : ℕ) (w : W) (c : Conn) → Same c (handlers k w c).2) where
  Same-IsFramed : (c0 : Conn) → IsFramed handlers (Same c0)
  Same-IsFramed c0 = record {
    by_cgi = λ c cgi d a s. s;
    by_send = λ c text s. s;
    by_handler = λ k w c s. let l = leaves k w c in (l.0 ∙ s.0, l.1 ∙ s.1);
  }

  module _ (table : List BuiltInUrl) where
    process_request-Same : (w : W) (c : Conn) → Same c (process_request handlers table w c).2
    process_request-Same w c =
        process_request_frame handlers (Same c) (Same-IsFramed c) table w c (refl, refl)

    process_request-IsSafe :
        (w : W) (c : Conn) → IsSafe c → IsSafe (process_request handlers table w c).2
    process_request-IsSafe w c s =
        let same = process_request-Same w c in
        record {
          head_fits = subst (λ h. length h ≤ max_head_len) (sym same.0) s.head_fits;
          body_ready = subst IsReady (sym same.1) s.body_ready;
        }

    chunk-IsSafe :
        (w : W) (c : Conn) (b : Bytes)
        → length c.head ≤ max_head_len
        → c.body.buff ≡ some b
        → length b ≤ c.body.buff_size
        → 0 < c.body.buff_size
        → c.body.buff_size ≤ max_post
        → IsSafe (empty_buff (process_request handlers table w c).2)
    unfolding empty_buff
    chunk-IsSafe w c b l e full pos small =
        let same = process_request-Same w c in
        let c' = (process_request handlers table w c).2 in
        let buff_lem : c'.body.buff ≡ some b = ap (λ p. p.buff) same.1 ∙ e in
        let size_lem : c'.body.buff_size ≡ c.body.buff_size = ap (λ p. p.buff_size) same.1 in
        record {
          head_fits = subst (λ h. length h ≤ max_head_len) (sym same.0) l;
          body_ready = λ h ne. ground arith;
        }

    head_byte-IsSafe :
        (w : W) (c : Conn) (x : ℕ) → IsSafe c → IsSafe (head_byte handlers table w c x).2
    unfolding head_byte
    head_byte-IsSafe w c x s =
        let l = push_head-length c.head x s.head_fits in
        let c1 = record c { head = push_head c.head x } in
        let parsed = parse_head-IsSafe c1 l in
        elim (Bool-cases (ends_head c1.head x)) [
          | inr e ↦ rw (e, head_byte) record { head_fits = l; body_ready = s.body_ready }
          | inl e ↦ elim (Bool-cases ((parse_head c1).body.len == 0)) [
            | inl z ↦ rw (e, z, head_byte) (process_request-IsSafe w (parse_head c1) parsed)
            | inr z ↦ rw (e, z, head_byte) parsed
          ]
        ]

    body_byte-IsSafe :
        (w : W) (c : Conn) (x : ℕ)
        → length c.head ≤ max_head_len
        → HasRoom c.body
        → IsSafe (body_byte handlers table w c x).2
    unfolding body_byte
    body_byte-IsSafe w c x l (there, room, small) = elim (Option-cases c.body.buff) [
      | inl e ↦ absurd (there e)
      | inr (b, e) ↦
          let c1 = record c { body = push_body c.body x } in
          let longer = length-append b (x ∷ []) in
          let pushed : c1.body.buff ≡ some (b ++ (x ∷ [])) = ground arith in
          let size_lem : c1.body.buff_size ≡ c.body.buff_size = ground arith in
          let fits : length (b ++ (x ∷ [])) ≤ c.body.buff_size = ground arith in
          elim (Bool-cases (is_chunk c1.body)) [
            | inl z ↦
                rw (z, body_byte)
                  (chunk-IsSafe w c1 (b ++ (x ∷ [])) l pushed (omega arith) (omega arith)
                    (omega arith))
            | inr z ↦ rw (z, body_byte) record { head_fits = l; body_ready = λ h ne. ground arith }
          ]
    ]

    recv_byte-IsSafe :
        (w : W) (c : Conn) (x : ℕ) → IsSafe c → IsSafe (recv_byte handlers table w c x).2
    unfolding recv_byte
    recv_byte-IsSafe w c x s = elim (Bool-cases (slt c.body.len 0)) [
      | inl e ↦ rw (e, recv_byte) (head_byte-IsSafe w c x s)
      | inr e ↦ elim (Bool-cases (c.body.len == 0)) [
        | inl z ↦ rw (e, z, recv_byte) s
        | inr z ↦
            rw (e, z, recv_byte)
              (body_byte-IsSafe w c x s.head_fits (s.body_ready e (λ q. ground arith)))
      ]
    ]

    recv_bytes-IsSafe :
        (xs : Bytes) (w : W) (c : Conn) → IsSafe c → IsSafe (recv_bytes handlers table w c xs).2
    unfolding recv_bytes
    recv_bytes-IsSafe [] w c s = s
    recv_bytes-IsSafe (x ∷ xs) w c s =
        let r = recv_byte handlers table w c x in
        recv_bytes-IsSafe xs r.1 r.2 (recv_byte-IsSafe w c x s)

    -- Whatever a client sends, split in whatever way, at most 1024 bytes are kept of the head, although the
    -- terminator of a full head is written over `headPos`; and while the body is received its buffer is
    -- allocated with more room than the bytes in it: if this holds before the data it holds after it. The
    -- handlers leave the head and the body alone.
    pub recv_data-IsSafe :
        (w : W) (c : Conn) (text : Bytes) → IsSafe c → IsSafe (recv_data handlers table w c text).2
    unfolding recv_data
    recv_data-IsSafe w c text s =
        recv_bytes-IsSafe text w (record c { send_buff = [] })
          (record { head_fits = s.head_fits; body_ready = s.body_ready })

-- ===== src/Httpd/Pool.antt =====
-- The connection pool of httpd/httpd.c and its callbacks. A connection of the network stack is known
-- by the port and the address of its peer, which the stack keeps: they are parameters. The start
-- time of a connection, which only a message shows, is left out.
pub mod Tracked
pub mod Kept
pub mod Steps
use ems_esp_link.Prelude.{
  ℕ, zero, suc, ◌+◌, ◌-◌, ◌^◌, Bool, true, false, ◌&&◌, Option, none, some, List, [], ◌∷◌, ◌++◌,
  ◌==◌, if◌then◌else◌, length, get_or, set,
}
use ems_esp_link.Prelude.Text.{Bytes, str_eq}
use ems_esp_link.Httpd.Conn.{Conn, PostData, Code, more, done, not_found, authenticated, unset}
use ems_esp_link.Httpd.Dispatch.{Output, disconnect, BuiltInUrl, Handlers, transmit}
use ems_esp_link.Httpd.Receive.{recv_data}

-- MAX_CONN
abbrev pub max_conn : ℕ
max_conn = 6

-- An entry as it is at power-up.
abbrev pub vacant : Conn
vacant = record {
  conn = none;
  remote_port = 0;
  remote_ip = 0 ∷ 0 ∷ 0 ∷ 0 ∷ [];
  request_type = unset;
  url = none;
  get_args = none;
  cgi_arg = 0;
  cgi_data = none;
  cgi = none;
  head = [];
  send_buff = [];
  body = record { len = 0; buff_size = 0; buff = none; received = 0; multipart_boundary = none };
}

-- The peer of a connection: `proto.tcp->remote_port` and `remote_ip`.
pub record Peers : Type 0 where
  pub port : ℕ → ℕ
  pub ip : ℕ → Bytes

-- The entry is that of the peer of `h`.
abbrev pub is_peer : Peers → ℕ → Conn → Bool
is_peer peers h c = c.remote_port == peers.port h && str_eq c.remote_ip (peers.ip h)

-- The loop of `httpdFindConnData`.
unfoldable pub find_index : Peers → ℕ → List Conn → Option ℕ
find_index peers h [] = none
find_index peers h (c ∷ cs) =
    if is_peer peers h c
    then some 0
    else (elim (find_index peers h cs) [ none ↦ none | some i ↦ some (suc i) ])

-- `conn` is not the `espconn` of the callback: it is replaced.
abbrev pub adopt : ℕ → Conn → Conn
adopt h c = record c { conn = some h }

-- The search for an empty entry: its index, or MAX_CONN.
unfoldable pub free_entry : List Conn → ℕ
free_entry [] = 0
free_entry (c ∷ cs) = elim c.conn [ none ↦ 0 | some _ ↦ suc (free_entry cs) ]

-- An entry as `httpdConnectCb` sets it. The length of the body is -1.
unfoldable pub opened : Peers → ℕ → Conn → Conn
opened peers h c = record c {
  conn = some h;
  remote_port = peers.port h;
  remote_ip = peers.ip h;
  head = [];
  body = record c.body { buff = none; received = 0; len = 2 ^ 32 - 1 };
}

-- The pool and the rest of the firmware.
pub record Server (W : Type 0) : Type 0 where
  pub world : W
  pub conn_data : List Conn

module _ {W : Type 0} where
  abbrev pub entry : Server W → ℕ → Conn
  entry s i = get_or s.conn_data i vacant

  abbrev pub put_entry : Server W → ℕ → W → Conn → Server W
  put_entry s i w c = record { world = w; conn_data = set s.conn_data i c }

  -- `httpdConnectCb`
  unfoldable pub connect_cb : Peers → Server W → ℕ → Server W × List Output
  unfolding free_entry opened
  connect_cb peers s h =
      let i = free_entry s.conn_data in
      if i == length s.conn_data
      then (s, disconnect (some h) ∷ [])
      else (put_entry s i s.world (opened peers h (entry s i)), [])

  -- A callback on the entry that `httpdFindConnData` gives, if any.
  abbrev pub on_entry :
      Peers → (W → Conn → List Output × W × Conn) → Server W → ℕ → Server W × List Output
  on_entry peers act s h = elim (find_index peers h s.conn_data) [
    | none ↦ (s, [])
    | some i ↦ let (out, w, c) = act s.world (adopt h (entry s i)) in (put_entry s i w c, out)
  ]

module _ {W : Type 0} (handlers : Handlers W) where
  -- The handler is called with no connection, to free its memory.
  abbrev pub clean_up : W → Conn → W × Conn
  clean_up w c = elim c.cgi [
    | none ↦ (w, c)
    | some k ↦ let (_, w', c') = handlers k w c in (w', c')
  ]

  -- `httpdRetireConn`
  unfoldable pub retire_conn : W → Conn → List Output × W × Conn
  retire_conn w c =
      let (w', c') = clean_up w (record c { conn = none }) in
      (
        [],
        w',
        record c' {
          cgi = none;
          body = record c'.body { buff = none };
          remote_port = 0;
          remote_ip = set c'.remote_ip 0 0;
        },
      )

  -- What follows the handler in `httpdSentCb`.
  unfoldable pub after_chunk : Code → W → Conn → List Output × W × Conn
  after_chunk r w c = elim r [
    | more ↦ let (out, c') = transmit c in (out, w, c')
    | _ ↦ let (out, c') = transmit (record c { cgi = none }) in (out, w, c')
  ]

  -- The body of `httpdSentCb`.
  unfoldable pub next_chunk : W → Conn → List Output × W × Conn
  unfolding after_chunk
  next_chunk w c =
      let c1 = record c { send_buff = [] } in
      elim c.cgi [
        | none ↦ (disconnect c.conn ∷ [], w, c1)
        | some k ↦ let (r, w', c') = handlers k w c1 in after_chunk r w' c'
      ]

  -- `httpdDisconCb`, `httpdReconCb`
  unfoldable pub discon_cb : Peers → Server W → ℕ → Server W × List Output
  unfolding find_index retire_conn
  discon_cb peers s h = on_entry peers retire_conn s h

  -- `httpdSentCb`
  unfoldable pub sent_cb : Peers → Server W → ℕ → Server W × List Output
  unfolding find_index next_chunk
  sent_cb peers s h = on_entry peers next_chunk s h

  -- `httpdRecvCb`
  unfoldable pub recv_cb : List BuiltInUrl → Peers → Server W → ℕ → Bytes → Server W × List Output
  unfolding find_index recv_data
  recv_cb table peers s h text = on_entry peers (λ w c. recv_data handlers table w c text) s h

-- The loop of `httpdInit`.
unfoldable pub clear_each : List Conn → List Conn
clear_each [] = []
clear_each (c ∷ cs) = record c { conn = none } ∷ clear_each cs

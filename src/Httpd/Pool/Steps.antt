-- ===== src/Httpd/Pool/Steps.antt =====
-- The callbacks of the server in any order.
use ems_esp_link.Prelude.{
  ℕ, zero, suc, ◌<◌, ◌≡◌, ◌≢◌, refl, sym, ◌∙◌, inl, inr, none, some, List, [], ◌∷◌, ◌==◌, arith,
  length, get_or, Bool-cases,
}
use ems_esp_link.Prelude.Text.{Bytes}
use ems_esp_link.Httpd.Conn.{Conn}
use ems_esp_link.Httpd.Dispatch.{BuiltInUrl, Handlers}
use ems_esp_link.Httpd.Receive.{recv_data}
use ems_esp_link.Httpd.Receive.Frame.{recv_data_frame}
use ems_esp_link.Httpd.Pool.{
  Peers, Server, vacant, entry, find_index, adopt, free_entry, opened, connect_cb, retire_conn,
  next_chunk, discon_cb, sent_cb, recv_cb,
}
use ems_esp_link.Httpd.Pool.Tracked.{HasPeer, IsTracked, put-IsTracked, find_index_complete}
use ems_esp_link.Httpd.Pool.Kept.{
  SamePeer, SamePeer-Outcome, SamePeer-IsApart, next_chunk-SamePeer, retire_conn-closed,
  on_entry-IsTracked,
}

module _ {W : Type 0} (handlers : Handlers W)
    (leaves : (k : ℕ) (w : W) (c : Conn) → SamePeer c (handlers k w c).2) where
  -- What the network stack does to the server. A new connection is one whose peer no entry has.
  pub data Step (table : List BuiltInUrl) (peers : Peers) : Server W → Server W → Type 0 where
    connected :
        (s : Server W) (h : ℕ)
        → ((j : ℕ) → ¬ HasPeer peers h (entry s j))
        → Step table peers s (connect_cb peers s h).0
    received :
        (s : Server W) (h : ℕ) (text : Bytes)
        → Step table peers s (recv_cb handlers table peers s h text).0
    acknowledged : (s : Server W) (h : ℕ) → Step table peers s (sent_cb handlers peers s h).0
    closed : (s : Server W) (h : ℕ) → Step table peers s (discon_cb handlers peers s h).0

  pub data Reach (table : List BuiltInUrl) (peers : Peers) (s : Server W) : Server W → Type 0 where
    here : Reach table peers s s
    next : {t u : Server W} → Reach table peers s t → Step table peers t u → Reach table peers s u

  connect-IsTracked :
      (peers : Peers) (s : Server W) (h : ℕ)
      → ((j : ℕ) → ¬ HasPeer peers h (entry s j))
      → IsTracked peers s
      → IsTracked peers (connect_cb peers s h).0
  unfolding connect_cb
  connect-IsTracked peers s h fresh t =
      elim (Bool-cases (free_entry s.conn_data == length s.conn_data)) [
        | inl full ↦ rw (full, connect_cb) t
        | inr room ↦
            rw (room, connect_cb)
              (put-IsTracked peers s (free_entry s.conn_data) h s.world
                (opened peers h (entry s (free_entry s.conn_data))) (inl ((refl, refl), refl))
                (λ j p n. absurd (fresh j p)) t)
      ]

  Step-IsTracked :
      {table : List BuiltInUrl} {peers : Peers} {s t : Server W}
      → Step table peers s t
      → IsTracked peers s
      → IsTracked peers t
  unfolding recv_cb sent_cb discon_cb
  Step-IsTracked {table} {peers} (connected s h fresh) t = connect-IsTracked peers s h fresh t
  Step-IsTracked {table} {peers} (received s h text) t =
      on_entry-IsTracked handlers leaves peers (λ w c. recv_data handlers table w c text)
        (λ k w c p. SamePeer-Outcome peers k c (recv_data handlers table w (adopt k c) text).2 p (
          recv_data_frame handlers (SamePeer (adopt k c))
            (SamePeer-IsApart handlers leaves (adopt k c)) table w (adopt k c) text
            (refl, refl, refl)))
        s h t
  Step-IsTracked {table} {peers} (acknowledged s h) t =
      on_entry-IsTracked handlers leaves peers (next_chunk handlers)
        (λ k w c p.
          SamePeer-Outcome peers k c (next_chunk handlers w (adopt k c)).2 p
            (next_chunk-SamePeer handlers leaves w (adopt k c)))
        s h t
  Step-IsTracked {table} {peers} (closed s h) t =
      on_entry-IsTracked handlers leaves peers (retire_conn handlers)
        (λ k w c p. inr (retire_conn-closed handlers leaves w (adopt k c))) s h t

  Reach-IsTracked :
      {table : List BuiltInUrl} {peers : Peers} {s t : Server W}
      → Reach table peers s t
      → IsTracked peers s
      → IsTracked peers t
  Reach-IsTracked here t = t
  Reach-IsTracked (next r st) t = Step-IsTracked st (Reach-IsTracked r t)

open_inside : (cs : List Conn) (i h : ℕ) → (get_or cs i vacant).conn ≡ some h → i < length cs
open_inside [] i h e = cc
open_inside (c ∷ cs) zero h e = omega arith
open_inside (c ∷ cs) (suc i) h e = omega (arith, open_inside cs i h e)

-- Whatever the network does, in any order: each open entry is found again by the peer of its
-- connection, and a closed entry has no port. This holds from any pool in which it holds of the
-- entries and no two of them have the same peer, if a new connection is always one whose peer no
-- entry has, ports are not zero, and the handlers leave the connection of the entry alone.
pub Reach-find_index :
    {W : Type 0} (handlers : Handlers W)
    (leaves : (k : ℕ) (w : W) (c : Conn) → SamePeer c (handlers k w c).2) (table : List BuiltInUrl)
    (peers : Peers) {s t : Server W}
    → ((h : ℕ) → peers.port h ≢ 0)
    → IsTracked peers s
    → Reach handlers leaves table peers s t
    → ((i h : ℕ) → (entry t i).conn ≡ some h → find_index peers h t.conn_data ≡ some i)
      × ((i : ℕ) → (entry t i).conn ≡ none → (entry t i).remote_port ≡ 0)
Reach-find_index handlers leaves table peers {t = t} ports start r =
    let v = Reach-IsTracked handlers leaves r start in
    (
      λ i h e.
          let p = v.linked i h e in
          find_index_complete peers h t.conn_data i (open_inside t.conn_data i h e) p (λ j before q.
            let same =
              v.distinct j i (λ z. ports h (sym q.0 ∙ z)) (q.0 ∙ sym p.0) (q.1 ∙ sym p.1) in
            omega arith),
      v.closed,
    )

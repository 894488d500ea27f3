-- ===== src/Httpd/Pool/Kept.antt =====
-- What the callbacks make of the entry that they find.
use ems_esp_link.Prelude.{ℕ, ◌≡◌, refl, sym, ◌∙◌, inl, Option, none, some, List, [], ◌∷◌}
use ems_esp_link.Httpd.Conn.{Conn, Code, more, done, not_found, authenticated}
use ems_esp_link.Httpd.Dispatch.{Output, disconnect, Handlers}
use ems_esp_link.Httpd.Dispatch.Frame.{IsFramed, transmit_frame}
use ems_esp_link.Httpd.Receive.Frame.{IsApart}
use ems_esp_link.Httpd.Pool.{
  Peers, Server, entry, put_entry, find_index, adopt, on_entry, retire_conn, after_chunk,
  next_chunk,
}
use ems_esp_link.Httpd.Pool.Tracked.{
  HasPeer, IsTracked, IsOutcome, IsAlone, put-IsTracked, find_index_sound,
}

-- The connection of `c'` is that of `c`.
abbrev pub SamePeer : Conn → Conn → Type 0
SamePeer c c' = (c'.conn ≡ c.conn) × (c'.remote_port ≡ c.remote_port) × (c'.remote_ip ≡ c.remote_ip)

pub SamePeer-Outcome :
    (peers : Peers) (h : ℕ) (c c' : Conn)
    → HasPeer peers h c
    → SamePeer (adopt h c) c'
    → IsOutcome peers h c'
SamePeer-Outcome peers h c c' p s = inl ((s.1 ∙ p.0, s.2 ∙ p.1), s.0)

alone :
    {W : Type 0} (peers : Peers) (s : Server W) (i h : ℕ)
    → IsTracked peers s
    → HasPeer peers h (entry s i)
    → IsAlone peers s h i
alone peers s i h t p j q n = t.distinct j i (λ z. n (sym q.0 ∙ z)) (q.0 ∙ sym p.0) (q.1 ∙ sym p.1)

module _ {W : Type 0} (handlers : Handlers W)
    (leaves : (k : ℕ) (w : W) (c : Conn) → SamePeer c (handlers k w c).2) where
  SamePeer-IsFramed : (c0 : Conn) → IsFramed handlers (SamePeer c0)
  SamePeer-IsFramed c0 = record {
    by_cgi = λ c cgi d a s. s;
    by_send = λ c text s. s;
    by_handler = λ k w c s. let l = leaves k w c in (l.0 ∙ s.0, l.1 ∙ s.1, l.2 ∙ s.2);
  }

  pub SamePeer-IsApart : (c0 : Conn) → IsApart handlers (SamePeer c0)
  SamePeer-IsApart c0 = record { framed = SamePeer-IsFramed c0; by_request = λ c m s. s }

  after_chunk-SamePeer :
      (c0 : Conn) (r : Code) (w : W) (c : Conn)
      → SamePeer c0 c
      → SamePeer c0 (after_chunk handlers r w c).2
  unfolding after_chunk
  after_chunk-SamePeer c0 more w c s =
      transmit_frame handlers (SamePeer c0) (SamePeer-IsFramed c0) c s
  after_chunk-SamePeer c0 done w c s =
      transmit_frame handlers (SamePeer c0) (SamePeer-IsFramed c0) (record c { cgi = none }) s
  after_chunk-SamePeer c0 not_found w c s =
      transmit_frame handlers (SamePeer c0) (SamePeer-IsFramed c0) (record c { cgi = none }) s
  after_chunk-SamePeer c0 authenticated w c s =
      transmit_frame handlers (SamePeer c0) (SamePeer-IsFramed c0) (record c { cgi = none }) s

  pub next_chunk-SamePeer : (w : W) (c : Conn) → SamePeer c (next_chunk handlers w c).2
  unfolding next_chunk
  next_chunk-SamePeer w c = go c.cgi
    where
      c1 : Conn
      c1 = record c { send_buff = [] }

      go :
          (o : Option ℕ)
          → SamePeer c
              (elim o as (λ _. List Output × W × Conn) [
                | none ↦ (disconnect c.conn ∷ [], w, c1)
                | some k ↦
                    after_chunk handlers (handlers k w c1).0 (handlers k w c1).1 (handlers k w c1).2
              ]).2
      go none = (refl, refl, refl)
      go (some k) = let h = handlers k w c1 in after_chunk-SamePeer c h.0 h.1 h.2 (leaves k w c1)

  pub retire_conn-closed :
      (w : W) (c : Conn)
      → ((retire_conn handlers w c).2.remote_port ≡ 0) × ((retire_conn handlers w c).2.conn ≡ none)
  unfolding retire_conn
  retire_conn-closed w c = (refl, go c.cgi)
    where
      c1 : Conn
      c1 = record c { conn = none }

      go :
          (o : Option ℕ)
          → (elim o as (λ _. W × Conn) [
            | none ↦ (w, c1)
            | some k ↦ ((handlers k w c1).1, (handlers k w c1).2)
          ]).1.conn
            ≡ none
      go none = refl
      go (some k) = (leaves k w c1).0

  -- A callback that finds an entry, and makes an outcome of it.
  pub on_entry-IsTracked :
      (peers : Peers) (act : W → Conn → List Output × W × Conn)
      → ((h : ℕ) (w : W) (c : Conn) → HasPeer peers h c → IsOutcome peers h (act w (adopt h c)).2)
      → (s : Server W) (h : ℕ) → IsTracked peers s
      → IsTracked peers (on_entry peers act s h).0
  on_entry-IsTracked peers act outcome s h t = go (find_index peers h s.conn_data) refl
    where
      go :
          (o : Option ℕ)
          → find_index peers h s.conn_data ≡ o
          → IsTracked peers
              (elim o as (λ _. Server W × List Output) [
                | none ↦ (s, [])
                | some i ↦ (
                  put_entry s i
                      (act s.world (adopt h (entry s i))).1
                      (act s.world (adopt h (entry s i))).2,
                  (act s.world (adopt h (entry s i))).0,
                )
              ]).0
      go none e = t
      go (some i) e =
          let p = find_index_sound peers h s.conn_data i e in
          put-IsTracked peers s i h _ _ (outcome h s.world (entry s i) p) (alone peers s i h t p) t

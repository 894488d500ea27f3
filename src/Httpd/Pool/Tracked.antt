-- ===== src/Httpd/Pool/Tracked.antt =====
-- The pool finds the entry of each connection again.
use ems_esp_link.Prelude.{
  ℕ, zero, suc, ◌<◌, ◌≡◌, ◌≢◌, ap, sym, subst, ◌∙◌, ◌⊎◌, inl, inr, true, none, some, List, [], ◌∷◌,
  arith, length, get_or, set, get_or-set, Bool-cases,
}
use ems_esp_link.Prelude.Text.{str_eq_refl, str_eq_sound}
use ems_esp_link.Httpd.Conn.{Conn}
use ems_esp_link.Httpd.Pool.{Peers, Server, vacant, entry, put_entry, is_peer, find_index}

-- The entry has the peer of `h`.
abbrev pub HasPeer : Peers → ℕ → Conn → Type 0
HasPeer peers h c = (c.remote_port ≡ peers.port h) × (c.remote_ip ≡ peers.ip h)

pub record IsTracked {W : Type 0} (peers : Peers) (s : Server W) : Type 0 where
  pub linked : (i h : ℕ) → (entry s i).conn ≡ some h → HasPeer peers h (entry s i)
  pub closed : (i : ℕ) → (entry s i).conn ≡ none → (entry s i).remote_port ≡ 0
  pub distinct :
      (i j : ℕ)
      → (entry s i).remote_port ≢ 0
      → (entry s i).remote_port ≡ (entry s j).remote_port
      → (entry s i).remote_ip ≡ (entry s j).remote_ip
      → i ≡ j

is_peer_iff : (peers : Peers) (h : ℕ) (c : Conn) → is_peer peers h c ≡ true → HasPeer peers h c
is_peer_iff peers h c e = ground (arith, str_eq_sound c.remote_ip (peers.ip h))

is_peer_intro : (peers : Peers) (h : ℕ) (c : Conn) → HasPeer peers h c → is_peer peers h c ≡ true
is_peer_intro peers h c (p, q) = rw (p, q) (ground (arith, str_eq_refl (peers.ip h)))

pub find_index_sound :
    (peers : Peers) (h : ℕ) (cs : List Conn) (i : ℕ)
    → find_index peers h cs ≡ some i
    → HasPeer peers h (get_or cs i vacant)
unfolding find_index
find_index_sound peers h [] i e = cc
find_index_sound peers h (c ∷ cs) zero e = elim (Bool-cases (is_peer peers h c)) [
  | inl m ↦ is_peer_iff peers h c m
  | inr m ↦ ground arith
]
find_index_sound peers h (c ∷ cs) (suc i) e = elim (Bool-cases (is_peer peers h c)) [
  | inl m ↦ ground arith
  | inr m ↦ find_index_sound peers h cs i (ground arith)
]

pub find_index_complete :
    (peers : Peers) (h : ℕ) (cs : List Conn) (i : ℕ)
    → i < length cs
    → HasPeer peers h (get_or cs i vacant)
    → ((j : ℕ) → j < i → ¬ HasPeer peers h (get_or cs j vacant))
    → find_index peers h cs ≡ some i
unfolding find_index
find_index_complete peers h [] i l p before = absurd (omega arith)
find_index_complete peers h (c ∷ cs) zero l p before = rw (is_peer_intro peers h c p)
find_index_complete peers h (c ∷ cs) (suc i) l p before = elim (Bool-cases (is_peer peers h c)) [
  | inl m ↦ absurd (before 0 (omega arith) (is_peer_iff peers h c m))
  | inr m ↦
      let ih =
        find_index_complete peers h cs i (omega arith) p (λ j k. before (suc j) (omega arith)) in
      ground arith
]

-- What an operation may make of an entry with the peer of `h`: it is open for `h`, or it is closed
-- and has no port.
abbrev pub IsOutcome : Peers → ℕ → Conn → Type 0
IsOutcome peers h c =
    (HasPeer peers h c × (c.conn ≡ some h)) ⊎ ((c.remote_port ≡ 0) × (c.conn ≡ none))

-- No other entry has the peer of `h`, if its port is not zero.
abbrev pub IsAlone : {W : Type 0} → Peers → Server W → ℕ → ℕ → Type 0
IsAlone peers s h i = (j : ℕ) → HasPeer peers h (entry s j) → peers.port h ≢ 0 → j ≡ i

Outcome-linked :
    (peers : Peers) (h h' : ℕ) (c : Conn)
    → IsOutcome peers h c
    → c.conn ≡ some h'
    → HasPeer peers h' c
Outcome-linked peers h h' c (inl (p, e)) e' =
    let same : h ≡ h' = ground arith in subst (λ k. HasPeer peers k c) same p
Outcome-linked peers h h' c (inr (z, e)) e' = absurd (ground arith)

Outcome-closed :
    (peers : Peers) (h : ℕ) (c : Conn) → IsOutcome peers h c → c.conn ≡ none → c.remote_port ≡ 0
Outcome-closed peers h c (inl (p, e)) e' = absurd (ground arith)
Outcome-closed peers h c (inr (z, e)) e' = z

Outcome-peer :
    (peers : Peers) (h : ℕ) (c d : Conn)
    → IsOutcome peers h c
    → c.remote_port ≢ 0
    → c.remote_port ≡ d.remote_port
    → c.remote_ip ≡ d.remote_ip
    → HasPeer peers h d × (peers.port h ≢ 0)
Outcome-peer peers h c d (inl (p, e)) n a b = ((sym a ∙ p.0, sym b ∙ p.1), λ z. n (p.0 ∙ z))
Outcome-peer peers h c d (inr (z, e)) n a b = absurd (n z)

pub put-IsTracked :
    {W : Type 0} (peers : Peers) (s : Server W) (i h : ℕ) (w : W) (c : Conn)
    → IsOutcome peers h c
    → IsAlone peers s h i
    → IsTracked peers s
    → IsTracked peers (put_entry s i w c)
put-IsTracked peers s i h w c o alone t = record {
  linked = λ j k e. elim (get_or-set s.conn_data i j c vacant) [
    | inl (same, now) ↦
        subst (HasPeer peers k) (sym now)
          (Outcome-linked peers h k c o (ap (λ d. d.conn) (sym now) ∙ e))
    | inr now ↦ subst (HasPeer peers k) (sym now) (t.linked j k (ap (λ d. d.conn) (sym now) ∙ e))
  ];
  closed = λ j e. elim (get_or-set s.conn_data i j c vacant) [
    | inl (same, now) ↦
        ap (λ d. d.remote_port) now ∙ Outcome-closed peers h c o (ap (λ d. d.conn) (sym now) ∙ e)
    | inr now ↦ ap (λ d. d.remote_port) now ∙ t.closed j (ap (λ d. d.conn) (sym now) ∙ e)
  ];
  distinct = λ j k n a b.
      put-distinct j k n a b (get_or-set s.conn_data i j c vacant)
        (get_or-set s.conn_data i k c vacant);
}
  where
    now_at : ℕ → Conn
    now_at j = get_or (set s.conn_data i c) j vacant

    put-distinct :
        (j k : ℕ)
        → (now_at j).remote_port ≢ 0
        → (now_at j).remote_port ≡ (now_at k).remote_port
        → (now_at j).remote_ip ≡ (now_at k).remote_ip
        → ((j ≡ i) × (now_at j ≡ c)) ⊎ (now_at j ≡ get_or s.conn_data j vacant)
        → ((k ≡ i) × (now_at k ≡ c)) ⊎ (now_at k ≡ get_or s.conn_data k vacant)
        → j ≡ k
    put-distinct j k n a b (inl (p, e)) (inl (q, f)) = p ∙ sym q
    put-distinct j k n a b (inl (p, e)) (inr f) =
        let other =
          Outcome-peer peers h c (get_or s.conn_data k vacant) o
            (λ z. n (ap (λ d. d.remote_port) e ∙ z))
            (ap (λ d. d.remote_port) (sym e) ∙ a ∙ ap (λ d. d.remote_port) f)
            (ap (λ d. d.remote_ip) (sym e) ∙ b ∙ ap (λ d. d.remote_ip) f) in
        p ∙ sym (alone k other.0 other.1)
    put-distinct j k n a b (inr e) (inl (q, f)) =
        let other =
          Outcome-peer peers h c (get_or s.conn_data j vacant) o
            (λ z. n (a ∙ ap (λ d. d.remote_port) f ∙ z))
            (ap (λ d. d.remote_port) (sym f) ∙ sym a ∙ ap (λ d. d.remote_port) e)
            (ap (λ d. d.remote_ip) (sym f) ∙ sym b ∙ ap (λ d. d.remote_ip) e) in
        alone j other.0 other.1 ∙ sym q
    put-distinct j k n a b (inr e) (inr f) =
        t.distinct j k (λ z. n (ap (λ d. d.remote_port) e ∙ z))
          (ap (λ d. d.remote_port) (sym e) ∙ a ∙ ap (λ d. d.remote_port) f)
          (ap (λ d. d.remote_ip) (sym e) ∙ b ∙ ap (λ d. d.remote_ip) f)

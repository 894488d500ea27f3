-- ===== src/SerBridge/Pool/Accept.antt =====
-- Accepting a connection: it gets the first empty entry, or is refused when there is none.
use ems_esp_link.Prelude.{
  ℕ, suc, ◌<◌, ◌≡◌, ◌≢◌, refl, ap, ◌∙◌, inl, inr, true, false, none, some, List, [], ◌∷◌, ◌==◌,
  arith, length, get_or, get_or-set_self, get_or-set_ne, Option-cases,
}
use ems_esp_link.SerBridge.Effect.{disconnect}
use ems_esp_link.SerBridge.Slot.{ConnData}
use ems_esp_link.SerBridge.Pool.{
  Bridge, vacant, entry, opened, find_conn_data, free_entry, connect_cb,
}

free_entry_first : (s : ConnData) (ss : List ConnData) → s.conn ≡ none → free_entry (s ∷ ss) ≡ 0
unfolding free_entry
free_entry_first s ss e = ground arith

free_entry_later :
    (s : ConnData) (ss : List ConnData) (h : ℕ)
    → s.conn ≡ some h
    → free_entry (s ∷ ss) ≡ suc (free_entry ss)
unfolding free_entry
free_entry_later s ss h e = ground arith

-- The entry found is closed, and all before it are open.
free_entry_closed :
    (ss : List ConnData)
    → free_entry ss < length ss
    → (get_or ss (free_entry ss) vacant).conn ≡ none
free_entry_closed [] l = refl
free_entry_closed (s ∷ ss) l = elim (Option-cases s.conn) [
  | inl e ↦ ap (λ i. (get_or (s ∷ ss) i vacant).conn) (free_entry_first s ss e) ∙ e
  | inr (h, e) ↦
      ap (λ i. (get_or (s ∷ ss) i vacant).conn) (free_entry_later s ss h e)
      ∙ free_entry_closed ss (omega (arith, free_entry_later s ss h e))
]

-- Each entry is open.
abbrev pub AllOpen : List ConnData → Type 0
AllOpen [] = Unit
AllOpen (s ∷ ss) = ((h : ℕ) × (s.conn ≡ some h)) × AllOpen ss

free_entry_full : (ss : List ConnData) → AllOpen ss → free_entry ss ≡ length ss
free_entry_full [] o = unfold free_entry in refl
free_entry_full (s ∷ ss) o = free_entry_later s ss o.0.0 o.0.1 ∙ ap suc (free_entry_full ss o.1)

-- A new connection gets an entry that was closed, fresh and found again by the connection, with the
-- other entries unchanged, if there is a closed one. If all are open it is disconnected, and
-- nothing changes.
pub connect_cb_accepts :
    (b : Bridge) (h : ℕ)
    → let i = free_entry b.conn_data in
      let (b', done) = connect_cb b h in
      (i < length b.conn_data
        → ((entry b i).conn ≡ none)
          × (find_conn_data b' (some h) ≡ some i)
          × (entry b' i ≡ opened h)
          × ((j : ℕ) → i ≢ j → entry b' j ≡ entry b j))
      × (AllOpen b.conn_data → (b' ≡ b) × (done ≡ disconnect h ∷ []))
unfolding connect_cb find_conn_data
connect_cb_accepts b h = (λ l. accepted l, λ o. refused (free_entry_full b.conn_data o))
  where
    i : ℕ
    i = free_entry b.conn_data

    accepted :
        i < length b.conn_data
        → ((entry b i).conn ≡ none)
          × (find_conn_data (connect_cb b h).0 (some h) ≡ some i)
          × (entry (connect_cb b h).0 i ≡ opened h)
          × ((j : ℕ) → i ≢ j → entry (connect_cb b h).0 j ≡ entry b j)
    accepted l =
        let room : (i == length b.conn_data) ≡ false = ground arith in
        (
          free_entry_closed b.conn_data l,
          rw (room, connect_cb) (ground arith),
          rw (room, connect_cb) (get_or-set_self b.conn_data i (opened h) vacant l),
          λ j ne. rw (room, connect_cb) (get_or-set_ne b.conn_data i j (opened h) vacant ne),
        )

    refused :
        i ≡ length b.conn_data → ((connect_cb b h).0 ≡ b) × ((connect_cb b h).1 ≡ disconnect h ∷ [])
    refused e =
        let full : (i == length b.conn_data) ≡ true = ground arith in
        (rw (full, connect_cb), rw (full, connect_cb))

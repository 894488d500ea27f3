-- ===== src/SerBridge/Pool/Linked.antt =====
-- The pool keeps track of its connections: each open entry is the one that its connection's
-- `reverse` pointer names, and no transmit buffer is overrun.
use ems_esp_link.Prelude.{
  ℕ, zero, suc, ◌≤◌, ◌≡◌, ◌≢◌, ap, sym, ◌∙◌, inl, inr, Option, none, some, List, [], ◌∷◌, ltb, ◌==◌,
  if◌then◌else◌, Bool-cases, arith, length, get_or, get_or-set, Option-cases,
}
use ems_esp_link.Prelude.Text.{Bytes}
use ems_esp_link.SerBridge.Slot.{ConnData, max_txbuffer, espbuffsend, sent_cb}
use ems_esp_link.SerBridge.Slot.Pacing.{espbuffsend_bounds}
use ems_esp_link.SerBridge.Telnet.{Pins}
use ems_esp_link.SerBridge.Pool.{
  gets_data, Bridge, vacant, entry, put_entry, opened, find_conn_data, dispatch, deliver, recv_cb,
  bridge_sent_cb, push_each, push, recon_cb, discon_cb, free_entry, connect_cb,
}

-- An entry can take the place of another: it is closed or has the same connection, and its buffer
-- is in bounds.
pub record IsUpdate (s s' : ConnData) : Type 0 where
  pub same_conn : (h : ℕ) → s'.conn ≡ some h → s.conn ≡ some h
  pub fits : length s.txbuffer ≤ max_txbuffer → length s'.txbuffer ≤ max_txbuffer

pub record IsLinked (b : Bridge) : Type 0 where
  pub linked : (i h : ℕ) → (entry b i).conn ≡ some h → b.reverse h ≡ some i
  pub fits : (i : ℕ) → length (entry b i).txbuffer ≤ max_txbuffer

put-IsLinked :
    (b : Bridge) (i : ℕ) (s : ConnData)
    → IsUpdate (entry b i) s
    → IsLinked b
    → IsLinked (put_entry b i s)
put-IsLinked b i s u v = record {
  linked = λ j h e. elim (get_or-set b.conn_data i j s vacant) [
    | inl (same, now) ↦
        v.linked i h (u.same_conn h (ap (λ t. t.conn) (sym now) ∙ e)) ∙ ap some (sym same)
    | inr now ↦ v.linked j h (ap (λ t. t.conn) (sym now) ∙ e)
  ];
  fits = λ j. elim (get_or-set b.conn_data i j s vacant) [
    | inl (same, now) ↦ rw now (u.fits (v.fits i))
    | inr now ↦ rw now (v.fits j)
  ];
}

dispatch-IsUpdate :
    (pins : Pins) (s : ConnData) (text : Bytes) → IsUpdate s (deliver pins (dispatch s text) text).0
unfolding deliver dispatch
dispatch-IsUpdate pins s text =
    let conn_lem : (deliver pins (dispatch s text) text).0.conn ≡ s.conn = ground arith in
    let tx_lem : (deliver pins (dispatch s text) text).0.txbuffer ≡ s.txbuffer = ground arith in
    record { same_conn = λ h e. sym conn_lem ∙ e; fits = λ l. rw tx_lem l }

espbuffsend-IsUpdate :
    (status : ℕ) (s : ConnData) (text : Bytes) → IsUpdate s (espbuffsend status s text).1
unfolding espbuffsend
espbuffsend-IsUpdate status s text =
    let conn_lem : (espbuffsend status s text).1.conn ≡ s.conn = ground arith in
    record {
      same_conn = λ h e. sym conn_lem ∙ e;
      fits = λ l. (espbuffsend_bounds s text status l).0;
    }

sent_cb-IsUpdate : (status : ℕ) (s : ConnData) → IsUpdate s (sent_cb status s).0
unfolding sent_cb
sent_cb-IsUpdate status s =
    let conn_lem : (sent_cb status s).0.conn ≡ s.conn = ground arith in
    record { same_conn = λ h e. sym conn_lem ∙ e; fits = λ l. ground arith }

closed-IsUpdate : (s : ConnData) → IsUpdate s (record s { conn = none })
closed-IsUpdate s = record { same_conn = λ h e. cc; fits = λ l. l }

same-IsUpdate : (s : ConnData) → IsUpdate s s
same-IsUpdate s = record { same_conn = λ h e. e; fits = λ l. l }

push_each-IsUpdate :
    (status : ℕ) (ss : List ConnData) (text : Bytes) (j : ℕ)
    → IsUpdate (get_or ss j vacant) (get_or (push_each status ss text).0 j vacant)
unfolding push_each
push_each-IsUpdate status [] text j = same-IsUpdate vacant
push_each-IsUpdate status (s ∷ ss) text zero = elim (Bool-cases (gets_data s)) [
  | inl e ↦ rw (e, push_each) (espbuffsend-IsUpdate status s text)
  | inr e ↦ rw (e, push_each) (same-IsUpdate s)
]
push_each-IsUpdate status (s ∷ ss) text (suc j) = elim (Bool-cases (gets_data s)) [
  | inl e ↦ rw (e, push_each) (push_each-IsUpdate status ss text j)
  | inr e ↦ rw (e, push_each) (push_each-IsUpdate status ss text j)
]

-- An update of every entry.
map-IsLinked :
    (b : Bridge) (ss : List ConnData)
    → ((j : ℕ) → IsUpdate (entry b j) (get_or ss j vacant))
    → IsLinked b
    → IsLinked (record b { conn_data = ss })
map-IsLinked b ss u v = record {
  linked = λ j h e. v.linked j h ((u j).same_conn h e);
  fits = λ j. (u j).fits (v.fits j);
}

-- The `reverse` pointers after a connection is accepted.
abbrev relinked : Bridge → ℕ → ℕ → ℕ → Option ℕ
relinked b h i k = if k == h then some i else b.reverse k

opened_reverse :
    (b : Bridge) (h k j : ℕ) {i : ℕ} → j ≡ i → some h ≡ some k → relinked b h i k ≡ some j
opened_reverse b h k j same e = ground arith

other_reverse :
    (b : Bridge) (h k j i : ℕ)
    → (entry b j).conn ≢ some h
    → (entry b j).conn ≡ some k
    → b.reverse k ≡ some j
    → relinked b h i k ≡ some j
other_reverse b h k j i ne e l = ground arith

connect-IsLinked :
    (b : Bridge) (h : ℕ)
    → ((i : ℕ) → (entry b i).conn ≢ some h)
    → IsLinked b
    → IsLinked (connect_cb b h).0
unfolding connect_cb
connect-IsLinked b h fresh v = elim (Bool-cases (free_entry b.conn_data == length b.conn_data)) [
  | inl full ↦ rw (full, connect_cb) v
  | inr room ↦
      rw (room, connect_cb)
        record {
          linked = λ j k e.
              elim (get_or-set b.conn_data (free_entry b.conn_data) j (opened h) vacant) [
                | inl (same, now) ↦ opened_reverse b h k j same (ap (λ t. t.conn) (sym now) ∙ e)
                | inr now ↦
                    let e' : (entry b j).conn ≡ some k = ap (λ t. t.conn) (sym now) ∙ e in
                    other_reverse b h k j (free_entry b.conn_data) (fresh j) e' (v.linked j k e')
              ];
          fits = λ j. elim (get_or-set b.conn_data (free_entry b.conn_data) j (opened h) vacant) [
            | inl (same, now) ↦ rw now (omega arith)
            | inr now ↦ rw now (v.fits j)
          ];
        }
]

-- What the network stack and the UART do to the bridge. A new connection is one that no entry
-- holds.
pub data Step (pins : Pins) : Bridge → Bridge → Type 0 where
  connected :
      (b : Bridge) (h : ℕ) → ((i : ℕ) → (entry b i).conn ≢ some h) → Step pins b (connect_cb b h).0
  received : (b : Bridge) (arg : Option ℕ) (text : Bytes) → Step pins b (recv_cb pins b arg text).0
  acknowledged :
      (b : Bridge) (arg : Option ℕ) (status : ℕ) → Step pins b (bridge_sent_cb status b arg).0
  telegram : (b : Bridge) (text : Bytes) (status : ℕ) → Step pins b (push status b text).0
  broken : (b : Bridge) (arg : Option ℕ) → Step pins b (recon_cb b arg).0
  disconnected : (b : Bridge) (arg : Option ℕ) → Step pins b (discon_cb pins b arg).0

pub data Reach (pins : Pins) (s : Bridge) : Bridge → Type 0 where
  here : Reach pins s s
  next : {b c : Bridge} → Reach pins s b → Step pins b c → Reach pins s c

recv-IsLinked :
    (pins : Pins) (b : Bridge) (arg : Option ℕ) (text : Bytes)
    → IsLinked b
    → IsLinked (recv_cb pins b arg text).0
unfolding recv_cb
recv-IsLinked pins b arg text v = elim (Option-cases (find_conn_data b arg)) [
  | inl e ↦ rw (e, recv_cb) v
  | inr (i, e) ↦ rw (e, recv_cb) (put-IsLinked b i _ (dispatch-IsUpdate pins (entry b i) text) v)
]

sent-IsLinked :
    (status : ℕ) (b : Bridge) (arg : Option ℕ)
    → IsLinked b
    → IsLinked (bridge_sent_cb status b arg).0
unfolding bridge_sent_cb
sent-IsLinked status b arg v = elim (Option-cases (find_conn_data b arg)) [
  | inl e ↦ rw (e, bridge_sent_cb) v
  | inr (i, e) ↦ rw (e, bridge_sent_cb) (put-IsLinked b i _ (sent_cb-IsUpdate status (entry b i)) v)
]

push-IsLinked :
    (status : ℕ) (b : Bridge) (text : Bytes) → IsLinked b → IsLinked (push status b text).0
unfolding push
push-IsLinked status b text v = elim (Bool-cases (ltb 0 (length text))) [
  | inl e ↦ rw (e, push) (map-IsLinked b _ (push_each-IsUpdate status b.conn_data text) v)
  | inr e ↦ rw (e, push) v
]

recon-IsLinked : (b : Bridge) (arg : Option ℕ) → IsLinked b → IsLinked (recon_cb b arg).0
unfolding recon_cb
recon-IsLinked b arg v = elim (Option-cases (find_conn_data b arg)) [
  | inl e ↦ rw (e, recon_cb) v
  | inr (i, e) ↦ rw (e, recon_cb) (put-IsLinked b i _ (closed-IsUpdate (entry b i)) v)
]

discon-IsLinked :
    (pins : Pins) (b : Bridge) (arg : Option ℕ) → IsLinked b → IsLinked (discon_cb pins b arg).0
unfolding discon_cb
discon-IsLinked pins b arg v = elim (Option-cases (find_conn_data b arg)) [
  | inl e ↦ rw (e, discon_cb) v
  | inr (i, e) ↦ rw (e, discon_cb) (put-IsLinked b i _ (closed-IsUpdate (entry b i)) v)
]

Step-IsLinked : {pins : Pins} {b c : Bridge} → Step pins b c → IsLinked b → IsLinked c
Step-IsLinked (connected b h fresh) v = connect-IsLinked b h fresh v
Step-IsLinked {pins} (received b arg text) v = recv-IsLinked pins b arg text v
Step-IsLinked (acknowledged b arg status) v = sent-IsLinked status b arg v
Step-IsLinked (telegram b text status) v = push-IsLinked status b text v
Step-IsLinked (broken b arg) v = recon-IsLinked b arg v
Step-IsLinked {pins} (disconnected b arg) v = discon-IsLinked pins b arg v

-- Whatever the network and the UART do, in any order, from a bridge whose open entries are those
-- that the `reverse` pointers of their connections name and whose transmit buffers are in bounds:
-- both stay so. A new connection is always one that no entry holds.
pub Reach-IsLinked : {pins : Pins} {s b : Bridge} → Reach pins s b → IsLinked s → IsLinked b
Reach-IsLinked here v = v
Reach-IsLinked (next r st) v = Step-IsLinked st (Reach-IsLinked r v)

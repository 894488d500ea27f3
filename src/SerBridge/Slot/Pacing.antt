-- ===== src/SerBridge/Slot/Pacing.antt =====
-- The sending over one connection: its buffer is never overrun, no byte is lost or repeated, and
-- `espconn_sent` is only called again when the stack has reported the data before as sent.
use ems_esp_link.Prelude.{
  ℕ, ◌+◌, ◌≤◌, ◌<◌, ◌≡◌, ap, ◌∙◌, Bool, true, false, not, some, List, [], ◌∷◌, ◌++◌, append_assoc,
  append-nil, arith, length, length-append, ltb, if◌then◌else◌, subst, ◌⊎◌, inl, inr,
}
use ems_esp_link.Prelude.Text.{Bytes}
use ems_esp_link.SerBridge.Effect.{Effect, sent}
use ems_esp_link.SerBridge.Slot.{
  ConnData, max_txbuffer, espconn_ok, buffer_full, sendtxbuffer, espbuffsend, sent_cb,
}

-- What happens to an open connection: data to send, and the report that data was sent, each with
-- what `espconn_sent` returns if it is called.
pub data Event : Type 0 where
  data_in : Bytes → ℕ → Event
  acked : ℕ → Event

-- The connection's line, as the stack sees it.
pub data Line : Type 0 where
  send : Effect → Line
  ack : Line

abbrev sends : List Effect → List Line → List Line
sends [] l = l
sends (e ∷ es) l = send e ∷ sends es l

pub run : ConnData → List Event → ConnData × List Line
run s [] = (s, [])
run s (data_in text status ∷ es) =
    let (_, s', done) = espbuffsend status s text in
    let (last, l) = run s' es in (last, sends done l)
run s (acked status ∷ es) =
    let (s', done) = sent_cb status s in let (last, l) = run s' es in (last, ack ∷ sends done l)

-- No send while one is pending.
abbrev pub IsPaced : Bool → List Line → Type 0
IsPaced pending [] = Unit
IsPaced pending (send e ∷ l) = (pending ≡ false) × IsPaced true l
IsPaced pending (ack ∷ l) = IsPaced false l

-- The data that `espbuffsend` takes: all, or nothing where the buffer would overflow.
abbrev pub accepted : ConnData → Bytes → Bytes
accepted s text = if ltb max_txbuffer (length s.txbuffer + length text) then [] else text

-- A step of an open connection from `s` to `s'`, over which `buffered` was to be sent: nothing is
-- handed to the stack, or all of it is, which `ready` must allow.
abbrev Steps : ℕ → Bool → Bytes → ConnData → List Effect → Type 0
Steps h ready buffered s' done =
    ((done ≡ []) × (s'.readytosend ≡ ready) × (s'.conn ≡ some h) × (s'.txbuffer ≡ buffered))
    ⊎ ((done ≡ sent h buffered ∷ [])
        × (ready ≡ true)
        × (s'.readytosend ≡ false)
        × (s'.conn ≡ some h)
        × (s'.txbuffer ≡ []))

handed :
    (h : ℕ) (s : ConnData) (status : ℕ)
    → s.conn ≡ some h
    → s.readytosend ≡ true
    → let (_, s', done) = sendtxbuffer status s in Steps h true s.txbuffer s' done
unfolding sendtxbuffer
handed h s status e r = ground arith

espbuffsend-Steps :
    (h : ℕ) (s : ConnData) (text : Bytes) (status : ℕ)
    → s.conn ≡ some h
    → let (_, s', done) = espbuffsend status s text in
      Steps h s.readytosend (s.txbuffer ++ accepted s text) s' done
unfolding espbuffsend
espbuffsend-Steps h s text status e = ground (arith, append-nil s.txbuffer)

sent_cb-Steps :
    (h : ℕ) (s : ConnData) (status : ℕ)
    → s.conn ≡ some h
    → let (s', done) = sent_cb status s in Steps h true s.txbuffer s' done
unfolding sent_cb
sent_cb-Steps h s status e = ground arith

-- The bytes that the stack is given.
abbrev pub given : List Line → Bytes
given [] = []
given (send (sent h text) ∷ l) = text ++ given l
given (_ ∷ l) = given l

-- The bytes that `espbuffsend` takes in a run.
pub taken : ConnData → List Event → Bytes
taken s [] = []
taken s (data_in text status ∷ es) = accepted s text ++ taken (espbuffsend status s text).1 es
taken s (acked status ∷ es) = taken (sent_cb status s).0 es

module _ (h : ℕ) where
  IsPaced-step :
      (ready : Bool) (buffered : Bytes) (s' : ConnData) (done : List Effect) (l : List Line)
      → Steps h ready buffered s' done
      → IsPaced (not s'.readytosend) l
      → IsPaced (not ready) (sends done l)
  IsPaced-step ready buffered s' done l (inl (d, r, _, _)) p =
      rw d (subst (λ b. IsPaced (not b) l) r p)
  IsPaced-step ready buffered s' done l (inr (d, r, b, _, _)) p =
      rw d (ap not r, subst (λ b. IsPaced (not b) l) b p)

  conn-step :
      (ready : Bool) (buffered : Bytes) (s' : ConnData) (done : List Effect)
      → Steps h ready buffered s' done
      → s'.conn ≡ some h
  conn-step ready buffered s' done (inl (_, _, c, _)) = c
  conn-step ready buffered s' done (inr (_, _, _, c, _)) = c

  -- If the bytes given later are those of `s'` and the ones taken later, then those given from now
  -- on are the bytes buffered and the ones taken later.
  stream-step :
      (ready : Bool) (buffered later rest : Bytes) (s' : ConnData) (done : List Effect)
      (l : List Line)
      → Steps h ready buffered s' done
      → given l ++ rest ≡ s'.txbuffer ++ later
      → given (sends done l) ++ rest ≡ buffered ++ later
  stream-step ready buffered later rest s' done l (inl (d, _, _, t)) e = rw (d, e, t)
  stream-step ready buffered later rest s' done l (inr (d, _, _, _, t)) e =
      let e' : given l ++ rest ≡ later = e ∙ ap (λ b. b ++ later) t in
      rw (d, append_assoc buffered (given l) rest, e')

  -- `espconn_sent` is never called on an open connection between a call and the report that its
  -- data was sent, if at the start `readytosend` tells whether data is pending.
  pub run-IsPaced :
      (es : List Event) (s : ConnData) → s.conn ≡ some h → IsPaced (not s.readytosend) (run s es).1
  unfolding run
  run-IsPaced [] s c = tt
  run-IsPaced (data_in text status ∷ es) s c =
      let st = espbuffsend-Steps h s text status c in
      let s' = (espbuffsend status s text).1 in
      IsPaced-step s.readytosend _ s' _ _ st (run-IsPaced es s' (conn-step _ _ s' _ st))
  run-IsPaced (acked status ∷ es) s c =
      let st = sent_cb-Steps h s status c in
      let s' = (sent_cb status s).0 in
      IsPaced-step true _ s' _ _ st (run-IsPaced es s' (conn-step _ _ s' _ st))

  -- No byte is lost, repeated or put out of order on the way through the buffer of an open
  -- connection: the bytes given to the stack and then those still buffered are the bytes buffered
  -- at the start and then those taken.
  pub run-given :
      (es : List Event) (s : ConnData)
      → s.conn ≡ some h
      → given (run s es).1 ++ (run s es).0.txbuffer ≡ s.txbuffer ++ taken s es
  unfolding run taken
  run-given [] s c = rw append-nil
  run-given (data_in text status ∷ es) s c =
      let st = espbuffsend-Steps h s text status c in
      let s' = (espbuffsend status s text).1 in
      stream-step s.readytosend _ _ _ s' _ _ st (run-given es s' (conn-step _ _ s' _ st))
      ∙ append_assoc s.txbuffer (accepted s text) (taken s' es)
  run-given (acked status ∷ es) s c =
      let st = sent_cb-Steps h s status c in
      let s' = (sent_cb status s).0 in
      stream-step true _ _ _ s' _ _ st (run-given es s' (conn-step _ _ s' _ st))

-- `espbuffsend` keeps within MAX_TXBUFFER, refuses exactly what does not fit, with -128 and the
-- connection unchanged, and otherwise returns what `espconn_sent` returned, or ESPCONN_OK if there
-- was nothing to call it for.
pub espbuffsend_bounds :
    (s : ConnData) (text : Bytes) (status : ℕ)
    → length s.txbuffer ≤ max_txbuffer
    → let (r, s', done) = espbuffsend status s text in
      (length s'.txbuffer ≤ max_txbuffer)
      × (max_txbuffer < length s.txbuffer + length text
          → (r ≡ buffer_full) × (s' ≡ s) × (done ≡ []))
      × (length s.txbuffer + length text ≤ max_txbuffer → (r ≡ espconn_ok) ⊎ (r ≡ status))
unfolding espbuffsend
espbuffsend_bounds s text status h = ground (arith, length-append s.txbuffer text)

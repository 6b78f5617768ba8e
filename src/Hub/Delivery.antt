-- ===== src/Hub/Delivery.antt =====
-- `writePump` of internal/wsserver/client.go: what a client's queue becomes on the connection. The
-- connection is an argument: whether it takes a frame.
use mathlib.Core.Option.{some-injective}
use frontend_router_mcp.Base.{
  ℕ, zero, suc, ◌≡◌, refl, ap, arith, String, Bool, true, false, if◌then◌else◌, List, [], ◌∷◌, ◌++◌,
  Option, none, some, length, map, sym, subst, ◌∙◌, ◌<◌, Bool-cases, inl, inr,
}
use frontend_router_mcp.Channel.{Chan, done, sent, make_chan, try_send, close, receive}
use frontend_router_mcp.Messaging.{Message}

pub data Frame : Type 0 where
  text_message : String → Frame
  close_message ping_message : Frame

-- A round of the loop: the frame written, the channel after it, and whether the loop goes on.
pub record Round : Type 0 where
  pub frame : Frame
  pub channel : Chan Message
  pub goes_on : Bool

frame_for : (Frame → Bool) → Chan Message → Option (Message × Chan Message) → Option Round
frame_for takes c (some (m, rest)) =
    let frame = text_message m.payload in
    some (record { frame = frame; channel = rest; goes_on = takes frame })
frame_for takes c none =
    if c.is_open
    then none
    else some (record { frame = close_message; channel = c; goes_on = false })

-- `case message, ok := <-c.send`; `none` while the channel is open and empty.
unfoldable pub write_received : (Frame → Bool) → Chan Message → Option Round
unfolding frame_for
write_received takes c = frame_for takes c (receive c)

-- `case <-ticker.C`
unfoldable pub write_ping : (Frame → Bool) → Chan Message → Round
write_ping takes c = record { frame = ping_message; channel = c; goes_on = takes ping_message }

-- What has happened to a client: the frames that its `writePump` handed to the connection, the messages
-- that its queue accepted from the hub, and whether the loop still runs.
pub data History (takes : Frame → Bool)
    : Chan Message → List Frame → List Message → Bool → Type 0 where
  made : History takes (make_chan 256) [] [] true
  accepted :
      {c c' : Chan Message} {fs : List Frame} {ms : List Message} {runs : Bool}
      → History takes c fs ms runs
      → (m : Message) → try_send c m ≡ sent c'
      → History takes c' fs (ms ++ m ∷ []) runs
  closed :
      {c c' : Chan Message} {fs : List Frame} {ms : List Message} {runs : Bool}
      → History takes c fs ms runs
      → close c ≡ done c'
      → History takes c' fs ms runs
  written :
      {c : Chan Message} {fs : List Frame} {ms : List Message}
      → History takes c fs ms true
      → (r : Round) → write_received takes c ≡ some r
      → History takes r.channel (fs ++ r.frame ∷ []) ms r.goes_on
  pinged :
      {c : Chan Message} {fs : List Frame} {ms : List Message}
      → History takes c fs ms true
      → History takes
          (write_ping takes c).channel
          (fs ++ (write_ping takes c).frame ∷ [])
          ms
          (write_ping takes c).goes_on

abbrev pub payloads : List Message → List String
payloads ms = map (λ m. m.payload) ms

abbrev pub texts : List Frame → List String
texts [] = []
texts (text_message s ∷ fs) = s ∷ texts fs
texts (close_message ∷ fs) = texts fs
texts (ping_message ∷ fs) = texts fs

-- The frames of the next rounds, each with a message or the end of the queue.
unfoldable pub pump : (Frame → Bool) → ℕ → Chan Message → List Frame
pump takes zero c = []
pump takes (suc n) c = elim (write_received takes c) [
  | none ↦ []
  | some r ↦ let rest = pump takes n r.channel in r.frame ∷ (if r.goes_on then rest else [])
]

texts-append : (fs gs : List Frame) → texts (fs ++ gs) ≡ texts fs ++ texts gs
texts-append [] gs = refl
texts-append (text_message s ∷ fs) gs = ap (λ xs. s ∷ xs) (texts-append fs gs)
texts-append (close_message ∷ fs) gs = texts-append fs gs
texts-append (ping_message ∷ fs) gs = texts-append fs gs

payloads-append : (ms ns : List Message) → payloads (ms ++ ns) ≡ payloads ms ++ payloads ns
payloads-append [] ns = refl
payloads-append (m ∷ ms) ns = ap (λ xs. m.payload ∷ xs) (payloads-append ms ns)

append_assoc : {A : Type 0} (xs ys zs : List A) → (xs ++ ys) ++ zs ≡ xs ++ (ys ++ zs)
append_assoc [] ys zs = refl
append_assoc (x ∷ xs) ys zs = ap (λ l. x ∷ l) (append_assoc xs ys zs)

append-nil : {A : Type 0} (xs : List A) → xs ++ [] ≡ xs
append-nil [] = refl
append-nil (x ∷ xs) = ap (λ l. x ∷ l) (append-nil xs)

-- A round takes the first message of the queue, if there is one, and writes it.
try_send-buffer :
    (c c' : Chan Message) (m : Message) → try_send c m ≡ sent c' → c'.buffer ≡ c.buffer ++ m ∷ []
unfolding try_send
try_send-buffer c c' m h = ground arith

close-buffer : (c c' : Chan Message) → close c ≡ done c' → c'.buffer ≡ c.buffer
unfolding close
close-buffer c c' h = ground arith

write_received-closed :
    (takes : Frame → Bool) (c : Chan Message)
    → c.buffer ≡ []
    → write_received takes c ≡ (
        if c.is_open
        then none
        else some (record { frame = close_message; channel = c; goes_on = false }))
unfolding write_received receive
write_received-closed takes c e = rw (e, write_received, receive) refl

write_received-message :
    (takes : Frame → Bool) (c : Chan Message) (m : Message) (rest : List Message)
    → c.buffer ≡ m ∷ rest
    → write_received takes c
      ≡ some (record {
        frame = text_message m.payload;
        channel = record c { buffer = rest };
        goes_on = takes (text_message m.payload);
      })
unfolding write_received receive
write_received-message takes c m rest e = rw (e, write_received, receive) refl

abbrev Reads : Chan Message → Round → Type 0
Reads c r = texts (r.frame ∷ []) ++ payloads r.channel.buffer ≡ payloads c.buffer

write_received-Reads :
    (takes : Frame → Bool) (c : Chan Message) (b : List Message) (r : Round)
    → c.buffer ≡ b
    → write_received takes c ≡ some r
    → Reads c r
write_received-Reads takes c [] r e h = elim (Bool-cases c.is_open) [
  | inl o ↦
      let q : write_received takes c ≡ none = write_received-closed takes c e ∙ rw o refl in cc
  | inr o ↦
      let round : Round = record { frame = close_message; channel = c; goes_on = false } in
      let q : write_received takes c ≡ some round = write_received-closed takes c e ∙ rw o refl in
      subst (Reads c) (some-injective round r (sym q ∙ h)) refl
]
write_received-Reads takes c (m ∷ rest) r e h =
    subst (Reads c) (some-injective _ r (sym (write_received-message takes c m rest e) ∙ h))
      (sym (ap payloads e))

in_order :
    {takes : Frame → Bool} {c : Chan Message} {fs : List Frame} {ms : List Message} {runs : Bool}
    → History takes c fs ms runs
    → texts fs ++ payloads c.buffer ≡ payloads ms
unfolding make_chan write_ping
in_order made = refl
in_order (accepted {c} {c'} {fs} {ms} h m s) =
    rw
      (
        try_send-buffer c c' m s,
        payloads-append c.buffer (m ∷ []),
        payloads-append ms (m ∷ []),
        ← in_order h,
      )
      (sym (append_assoc (texts fs) (payloads c.buffer) (m.payload ∷ [])))
in_order (closed {c} {c'} h s) = rw (close-buffer c c' s) (in_order h)
in_order {takes} (written {c} {fs} {ms} h r s) =
    rw
      (
        texts-append fs (r.frame ∷ []),
        append_assoc (texts fs) (texts (r.frame ∷ [])),
        write_received-Reads takes c c.buffer r refl s,
      )
      (in_order h)
in_order (pinged {c} {fs} h) =
    rw (texts-append fs (ping_message ∷ []), append-nil (texts fs)) (in_order h)

abbrev pub sent_all : List Message → List Frame
sent_all [] = close_message ∷ []
sent_all (m ∷ ms) = text_message m.payload ∷ sent_all ms

texts-sent_all : (ms : List Message) → texts (sent_all ms) ≡ payloads ms
texts-sent_all [] = refl
texts-sent_all (m ∷ ms) = ap (λ xs. m.payload ∷ xs) (texts-sent_all ms)

pump_closed :
    (takes : Frame → Bool) (n : ℕ) (c : Chan Message) (b : List Message)
    → c.buffer ≡ b
    → length b < n
    → c.is_open ≡ false
    → ((f : Frame) → takes f ≡ true)
    → pump takes n c ≡ sent_all b
unfolding pump
pump_closed takes zero c b e p o t = absurd (omega arith)
pump_closed takes (suc n) c [] e p o t = rw (write_received-closed takes c e, o, pump) refl
pump_closed takes (suc n) c (m ∷ rest) e p o t =
    rw (write_received-message takes c m rest e, t (text_message m.payload), pump)
      (ap (λ fs. text_message m.payload ∷ fs)
        (pump_closed takes n (record c { buffer = rest }) rest refl (omega arith) o t))

-- Once the hub has closed a client's queue, and if the connection takes every frame, `writePump` ends
-- after as many rounds that take from the queue as there are messages left, and one: it writes them and
-- a close message, and more rounds than that change nothing. With what it wrote before, the client is sent the payloads of
-- exactly the messages that its queue has accepted, in their order.
pub pump-delivered :
    (takes : Frame → Bool) (c : Chan Message) (fs : List Frame) (ms : List Message) (n : ℕ)
    → History takes c fs ms true
    → c.is_open ≡ false
    → ((f : Frame) → takes f ≡ true)
    → length c.buffer < n
    → (pump takes n c ≡ sent_all c.buffer) × (texts (fs ++ pump takes n c) ≡ payloads ms)
pump-delivered takes c fs ms n h o t enough =
    let all = pump_closed takes n c c.buffer refl enough o t in
    (all, rw (all, texts-append fs (sent_all c.buffer), texts-sent_all c.buffer) (in_order h))

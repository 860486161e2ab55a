-- ===== src/Agent/Dispatch/Framing.antt =====
-- The loop of `agent_task` over the messages in its buffer.
use bpfabric.Prelude.{ℕ, zero, suc, ◌+◌, ◌*◌, ◌≤◌, ◌<◌, ◌≡◌, arith, refl, sym, ap, ◌∙◌}
use bpfabric.Prelude.{
  false, Option, none, some, List, [], ◌∷◌, ◌++◌, leb, leb→le, le→leb, drop, length, length-append,
  length-drop, Bool-cases, inl, inr,
}
use mathlib.Core.Path.{subst}
use mathlib.Core.List.{append_assoc}
use bpfabric.Prelude.Bytes.{read_at, read_at-append, drop-append}
use bpfabric.Ebpf.{Inst}
use bpfabric.Maps.Ght.{Ght}
use bpfabric.Maps.Registry.{Call, done, crash}
use bpfabric.Agent.Dispatch.Frames.{Frame, IsFrame, AreFrames, wire}
use bpfabric.Agent.Dispatch.{
  Header, Protobuf, Agent, Around, handle, handle_unpacked, call_handler, with_size, advance,
  receive_one, receive,
}

module _ (g : Ght) {Fn : Type 0} (translate : List Inst → Call (Option Fn)) (pb : Protobuf)
    (around : ℕ → Around g) where
  advance-le :
      (offset next : ℕ) (c : Call (ℕ × Agent g Fn)) (a' : Agent g Fn)
      → advance g translate pb around offset c ≡ done (some next, a')
      → offset ≤ next
  unfolding advance
  advance-le offset next crash a' e = absurd (cc)
  advance-le offset next (done (size, a)) a' e = let same : offset + size ≡ next = cc in omega arith

  receive_one-le :
      (buf : List ℕ) (offset next : ℕ) (o : Option Header) (a a' : Agent g Fn)
      → receive_one g translate pb around buf offset o a ≡ done (some next, a')
      → offset + 10 ≤ next
  unfolding receive_one
  receive_one-le buf offset next none a a' e = absurd (cc)
  receive_one-le buf offset next (some h) a a' e = advance-le (offset + 10) next _ a' e

  -- What the loop is from a message on that passes the test of its length.
  abbrev after_one : ℕ → List ℕ → ℕ → Call (Option ℕ × Agent g Fn) → Option (Call (Agent g Fn))
  after_one fuel buf len crash = some crash
  after_one fuel buf len (done (none, a)) = some (done a)
  after_one fuel buf len (done (some next, a)) = receive g translate pb around fuel buf len next a

  first_header : List ℕ → ℕ → Option Header
  first_header buf offset = pb.header__unpack (read_at offset 10 buf)

  receive-after_one :
      (fuel : ℕ) (buf : List ℕ) (len offset : ℕ) (a : Agent g Fn) (c : Call (Option ℕ × Agent g Fn))
      → offset + 10 ≤ len
      → receive_one g translate pb around buf offset (pb.header__unpack (read_at offset 10 buf)) a
        ≡ c
      → receive g translate pb around (suc fuel) buf len offset a ≡ after_one fuel buf len c
  unfolding receive
  receive-after_one fuel buf len offset a crash h e = rw (le→leb (offset + 10) len h, e) refl
  receive-after_one fuel buf len offset a (done (none, a')) h e =
      rw (le→leb (offset + 10) len h, e) refl
  receive-after_one fuel buf len offset a (done (some next, a')) h e =
      rw (le→leb (offset + 10) len h, e) refl

  receive-short :
      (fuel : ℕ) (buf : List ℕ) (len offset : ℕ) (a : Agent g Fn)
      → len < offset + 10
      → receive g translate pb around (suc fuel) buf len offset a ≡ some (done a)
  unfolding receive
  receive-short fuel buf len offset a h =
      let short : leb (offset + 10) len ≡ false = ground arith in rw short refl

  -- Of a loop, that it ends.
  abbrev Returns : Option (Call (Agent g Fn)) → Type 0
  Returns o = (r : Call (Agent g Fn)) × (o ≡ some r)

  after_one-Returns :
      (fuel : ℕ) (buf : List ℕ) (len offset : ℕ) (c : Call (Option ℕ × Agent g Fn))
      → ((next : ℕ) (a : Agent g Fn) → c ≡ done (some next, a) → offset + 10 ≤ next)
      → ((next : ℕ) (a : Agent g Fn)
          → offset + 10 ≤ next
          → Returns (receive g translate pb around fuel buf len next a))
      → Returns (after_one fuel buf len c)
  after_one-Returns fuel buf len offset crash le rest = (crash, refl)
  after_one-Returns fuel buf len offset (done (none, a)) le rest = (done a, refl)
  after_one-Returns fuel buf len offset (done (some next, a)) le rest = rest next a (le next a refl)

  -- The loop over the messages ends: every round takes at least the 10 bytes of a header, so that a
  -- tenth of the received length in rounds is enough, whatever the buffer holds.
  pub receive-Returns :
      (fuel : ℕ) (buf : List ℕ) (len offset : ℕ) (a : Agent g Fn)
      → len < offset + 10 * fuel + 10
      → (r : Call (Agent g Fn)) × (receive g translate pb around (suc fuel) buf len offset a
          ≡ some r)
  receive-Returns zero buf len offset a h = (done a, receive-short 0 buf len offset a (omega arith))
  receive-Returns (suc fuel) buf len offset a h = elim (Bool-cases (leb (offset + 10) len)) [
    | inl e ↦
        let o = pb.header__unpack (read_at offset 10 buf) in
        let (r, step) =
          after_one-Returns (suc fuel) buf len offset
            (receive_one g translate pb around buf offset o a)
            (λ next a' q. receive_one-le buf offset next o a a' q)
            (λ next a' q. receive-Returns fuel buf len next a' (omega arith)) in
        (r, receive-after_one (suc fuel) buf len offset a _ (leb→le _ _ e) refl ∙ step)
    | inr e ↦ (done a, receive-short (suc fuel) buf len offset a (ground arith))
  ]

  -- The messages handled one after the other, the first at an offset.
  abbrev pub handle_all : ℕ → List Frame → Call (Agent g Fn) → Call (Agent g Fn)
  handle_all offset fs crash = crash
  handle_all offset [] (done a) = done a
  handle_all offset (f ∷ fs) (done a) =
      handle_all (offset + 10 + length f.body) fs
        (handle g translate (around (offset + 10)) f.message a)

  receive_one-frame :
      (buf rest : List ℕ) (offset : ℕ) (f : Frame) (a : Agent g Fn)
      → IsFrame pb f
      → drop offset buf ≡ f.head ++ (f.body ++ rest)
      → receive_one g translate pb around buf offset (pb.header__unpack (read_at offset 10 buf)) a
        ≡ advance g translate pb around (offset + 10) (
            with_size g translate pb around
              (length f.body)
              (handle g translate (around (offset + 10)) f.message a))
  unfolding receive_one call_handler handle_unpacked
  receive_one-frame buf rest offset f a i at =
      let first : read_at offset 10 buf ≡ f.head =
        ap (λ n. read_at offset n buf) (sym i.head_size)
        ∙ read_at-append offset f.head (f.body ++ rest) buf at in
      let later : drop (offset + 10) buf ≡ f.body ++ rest =
        ap (λ n. drop (offset + n) buf) (sym i.head_size)
        ∙ drop-append offset f.head (f.body ++ rest) buf at in
      let second : read_at (offset + 10) (length f.body) buf ≡ f.body =
        read_at-append (offset + 10) f.body rest buf later in
      let inside : offset + 10 + length f.body ≤ length buf = omega (
        arith,
        length-drop offset buf,
        ap length at,
        length-append f.head (f.body ++ rest),
        length-append f.body rest,
        i.head_size,
      ) in
      rw
        (
          first,
          i.head_unpacked,
          i.handled,
          i.body_size,
          le→leb (offset + 10 + length f.body) (length buf) inside,
          second,
          i.body_unpacked,
          i.packed_size,
        )
        refl

  wire-append :
      (f : Frame) (fs : List Frame) (rest : List ℕ)
      → wire (f ∷ fs) ++ rest ≡ f.head ++ (f.body ++ (wire fs ++ rest))
  wire-append f fs rest =
      append_assoc f.head (f.body ++ wire fs) rest
      ∙ ap (λ t. f.head ++ t) (append_assoc f.body (wire fs) rest)

  -- What the loop returns after a message that has been handled.
  receive-frame :
      (fuel : ℕ) (buf : List ℕ) (len offset size : ℕ) (fs : List Frame) (c : Call (Agent g Fn))
      → ((a : Agent g Fn)
          → receive g translate pb around fuel buf len (offset + 10 + size) a
            ≡ some (handle_all (offset + 10 + size) fs (done a)))
      → after_one fuel buf len
          (advance g translate pb around (offset + 10) (with_size g translate pb around size c))
        ≡ some (handle_all (offset + 10 + size) fs c)
  unfolding advance with_size
  receive-frame fuel buf len offset size fs crash rest = refl
  receive-frame fuel buf len offset size fs (done a) rest = rest a

  -- A buffer in which whole messages stand from an offset on is handled message by message, in their
  -- order, each from the state that the one before it has left; fewer than 10 bytes that have been
  -- received after the last message are dropped.
  pub receive-handle_all :
      (fs : List Frame) (fuel : ℕ) (buf rest : List ℕ) (offset partial : ℕ) (a : Agent g Fn)
      → AreFrames pb fs
      → drop offset buf ≡ wire fs ++ rest
      → partial < 10
      → length fs ≤ fuel
      → receive g translate pb around (suc fuel) buf (offset + length (wire fs) + partial) offset a
        ≡ some (handle_all offset fs (done a))
  receive-handle_all [] fuel buf rest offset partial a are at short enough =
      receive-short fuel buf _ offset a (omega arith)
  receive-handle_all (f ∷ fs) zero buf rest offset partial a are at short enough =
      absurd (omega arith)
  receive-handle_all (f ∷ fs) (suc fuel) buf rest offset partial a are at short enough =
      let body = length f.body in
      let at' : drop offset buf ≡ f.head ++ (f.body ++ (wire fs ++ rest)) =
        at ∙ wire-append f fs rest in
      let size = length-append f.head (f.body ++ wire fs) in
      let size' = length-append f.body (wire fs) in
      let later : drop (offset + 10) buf ≡ f.body ++ (wire fs ++ rest) =
        ap (λ n. drop (offset + n) buf) (sym are.0.head_size)
        ∙ drop-append offset f.head (f.body ++ (wire fs ++ rest)) buf at' in
      let next = drop-append (offset + 10) f.body (wire fs ++ rest) buf later in
      let len = offset + length (wire (f ∷ fs)) + partial in
      let len_left : offset + 10 + body + length (wire fs) + partial ≡ len =
        omega (arith, size, size', are.0.head_size) in
      receive-after_one (suc fuel) buf len offset a _ (omega (arith, size, are.0.head_size))
        (receive_one-frame buf (wire fs ++ rest) offset f a are.0 at')
      ∙ receive-frame (suc fuel) buf len offset body fs
          (handle g translate (around (offset + 10)) f.message a)
          λ a'.
            subst
              (λ n.
                receive g translate pb around (suc fuel) buf n (offset + 10 + body) a'
                ≡ some (handle_all (offset + 10 + body) fs (done a')))
              len_left
              (receive-handle_all fs fuel buf rest (offset + 10 + body) partial a' are.1 next short
                (omega arith))

-- ===== src/Agent/Dispatch/Frames.antt =====
-- The messages on the wire.
use bpfabric.Prelude.{ℕ, ◌≡◌, some, List, [], ◌∷◌, ◌++◌, length}
use bpfabric.Agent.Dispatch.{Kind, handler_at, Message, Header, Protobuf}

-- A message on the wire: a header of 10 bytes and the body. The header names the message's handler
-- and the size of the body; the body is unpacked to the message, whose packed size is its size.
pub record Frame : Type 0 where
  pub kind : Kind
  pub message : Message kind
  pub head : List ℕ
  pub body : List ℕ

abbrev pub wire : List Frame → List ℕ
wire [] = []
wire (f ∷ fs) = f.head ++ (f.body ++ wire fs)

module _ (pb : Protobuf) where
  pub record IsFrame (f : Frame) : Type 0 where
    pub header : Header
    pub head_size : length f.head ≡ 10
    pub head_unpacked : pb.header__unpack f.head ≡ some header
    pub handled : handler_at header.type ≡ some f.kind
    pub body_size : header.length ≡ length f.body
    pub body_unpacked : pb.unpack f.kind (length f.body) f.body ≡ some f.message
    pub packed_size : pb.get_packed_size f.kind f.message ≡ length f.body

  abbrev pub AreFrames : List Frame → Type 0
  AreFrames [] = Unit
  AreFrames (f ∷ fs) = IsFrame f × AreFrames fs

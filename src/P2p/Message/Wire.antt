-- ===== src/P2p/Message/Wire.antt =====
-- Frames of crates/p2p/src/message.rs on the wire.
use tron_rs.Prelude.{length, Bytes, ok, ℕ, ◌≤◌, ◌≡◌, refl, ◌↔◌, some, [], ◌∷◌, arith}
use tron_rs.P2p.Message.{
  Frame, MessageType, trx, block, trxs, blocks, block_headers, inventory, fetch_inv_data,
  sync_block_chain, block_chain_inventory, fetch_block_headers, block_inventory, trx_inventory,
  pbft_commit, p2p_hello, p2p_disconnect, p2p_ping, p2p_pong, to_u8, from_u8, max_message_size,
  encode, decode,
}

from_u8-to_u8 : (kind : MessageType) → from_u8 (to_u8 kind) ≡ some kind
unfolding from_u8 to_u8
from_u8-to_u8 trx = refl
from_u8-to_u8 block = refl
from_u8-to_u8 trxs = refl
from_u8-to_u8 blocks = refl
from_u8-to_u8 block_headers = refl
from_u8-to_u8 inventory = refl
from_u8-to_u8 fetch_inv_data = refl
from_u8-to_u8 sync_block_chain = refl
from_u8-to_u8 block_chain_inventory = refl
from_u8-to_u8 fetch_block_headers = refl
from_u8-to_u8 block_inventory = refl
from_u8-to_u8 trx_inventory = refl
from_u8-to_u8 pbft_commit = refl
from_u8-to_u8 p2p_hello = refl
from_u8-to_u8 p2p_disconnect = refl
from_u8-to_u8 p2p_ping = refl
from_u8-to_u8 p2p_pong = refl

to_u8-from_u8 : (b : ℕ) (kind : MessageType) → from_u8 b ≡ some kind → to_u8 kind ≡ b
unfolding from_u8 to_u8
to_u8-from_u8 b kind e = ground arith

-- A frame whose payload is within the limit is read back from its bytes, and bytes that are read are
-- those of the frame: the two directions of the wire format agree.
pub decode_iff-encode :
    (bytes : Bytes) (frame : Frame)
    → (decode bytes ≡ ok frame)
      ↔ ((encode frame ≡ bytes) × (length frame.payload ≤ max_message_size))
unfolding decode encode
decode_iff-encode [] frame = ground arith
decode_iff-encode (first ∷ rest) frame =
    ground (arith, from_u8-to_u8 frame.kind, to_u8-from_u8 first frame.kind)

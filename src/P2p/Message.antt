-- ===== src/P2p/Message.antt =====
-- crates/p2p/src/message.rs: the frames on a channel, a type byte and a payload.
pub mod Wire
use tron_rs.Prelude.{
  ltb, ◌==◌, if◌then◌else◌, length, Bytes, Result, ok, err, ◌>>=◌, ◌>>◌, fail_if, ok_or, ℕ, ◌*◌,
  Option, none, some, [], ◌∷◌,
}

pub data MessageType : Type 0 where
  trx block trxs blocks block_headers inventory fetch_inv_data sync_block_chain : MessageType
  block_chain_inventory fetch_block_headers block_inventory trx_inventory pbft_commit : MessageType
  p2p_hello p2p_disconnect p2p_ping p2p_pong : MessageType

-- `kind as u8`
unfoldable pub to_u8 : MessageType → ℕ
to_u8 trx = 0x01
to_u8 block = 0x02
to_u8 trxs = 0x03
to_u8 blocks = 0x04
to_u8 block_headers = 0x05
to_u8 inventory = 0x06
to_u8 fetch_inv_data = 0x07
to_u8 sync_block_chain = 0x08
to_u8 block_chain_inventory = 0x09
to_u8 fetch_block_headers = 0x11
to_u8 block_inventory = 0x12
to_u8 trx_inventory = 0x13
to_u8 pbft_commit = 0x14
to_u8 p2p_hello = 0x20
to_u8 p2p_disconnect = 0x21
to_u8 p2p_ping = 0x22
to_u8 p2p_pong = 0x23

unfoldable pub from_u8 : ℕ → Option MessageType
from_u8 b =
    if b == 0x01
    then some trx
    else if b == 0x02
    then some block
    else if b == 0x03
    then some trxs
    else if b == 0x04
    then some blocks
    else if b == 0x05
    then some block_headers
    else if b == 0x06
    then some inventory
    else if b == 0x07
    then some fetch_inv_data
    else if b == 0x08
    then some sync_block_chain
    else if b == 0x09
    then some block_chain_inventory
    else if b == 0x11
    then some fetch_block_headers
    else if b == 0x12
    then some block_inventory
    else if b == 0x13
    then some trx_inventory
    else if b == 0x14
    then some pbft_commit
    else if b == 0x20
    then some p2p_hello
    else if b == 0x21
    then some p2p_disconnect
    else if b == 0x22
    then some p2p_ping
    else if b == 0x23
    then some p2p_pong
    else none

pub record Frame : Type 0 where
  pub kind : MessageType
  pub payload : Bytes

abbrev pub max_message_size : ℕ
max_message_size = 5 * 1024 * 1024

pub data FrameError : Type 0 where
  empty : FrameError
  unknown_type : ℕ → FrameError
  too_large : ℕ → FrameError

unfoldable pub encode : Frame → Bytes
unfolding to_u8
encode frame = to_u8 frame.kind ∷ frame.payload

unfoldable pub decode : Bytes → Result FrameError Frame
unfolding from_u8
decode [] = err empty
decode (first ∷ rest) = do
  fail_if (ltb max_message_size (length rest)) (too_large (length rest))
  kind ← ok_or (from_u8 first) (unknown_type first)
  ok (record { kind = kind; payload = rest })

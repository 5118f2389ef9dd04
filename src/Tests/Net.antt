-- ===== src/Tests/Net.antt =====
-- Frames of crates/p2p and costs of crates/vm at concrete inputs.
use tron_rs.Prelude.{length, ok, ◌-◌, ◌^◌, ◌≤◌, ◌≡◌, ◌↔◌, [], ◌∷◌, arith}
use tron_rs.P2p.Message.{Frame, p2p_ping, max_message_size, encode, decode}
use tron_rs.P2p.Message.Wire.{decode_iff-encode}
use tron_rs.Vm.Energy.{vote_witness_cost, vote_witness, extent, vote_witness_mem_needed}
use tron_rs.Vm.Energy.Overflow.{vote_witness_cost-overflow}
use tron_rs.Vm.Memory.{Memory}

abbrev ping : Frame
ping = record { kind = p2p_ping; payload = 7 ∷ [] }

decode_iff-encode_example :
    (decode (0x22 ∷ 7 ∷ []) ≡ ok ping)
    ↔ ((encode ping ≡ 0x22 ∷ 7 ∷ []) × (length ping.payload ≤ max_message_size))
decode_iff-encode_example = decode_iff-encode (0x22 ∷ 7 ∷ []) ping

vote_witness_cost-overflow_example : vote_witness_cost 0 (2 ^ 64 - 1) 0 0 0 ≡ vote_witness
unfolding vote_witness_mem_needed extent
vote_witness_cost-overflow_example = vote_witness_cost-overflow 0 (2 ^ 64 - 1) 0 0 0 (omega arith)

abbrev blank : Memory
blank = record { bytes = [] }

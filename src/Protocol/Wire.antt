-- ===== src/Protocol/Wire.antt =====
-- crates/terratranslate-wine-protocol/src/lib.rs: messages on the wire.
use terra_translate.Base.{
  ℕ, ◌≤◌, Option, some, ok, ok_or, length, ◌≡◌, arith, >>=-eq-ok, ok_or-eq-ok,
}
use terra_translate.Model.{Bytes}
use terra_translate.Protocol.{encode, decode, max_wire_message_bytes, WireError}

module _ {T : Type 0} (to_vec_named : T → Option Bytes) (from_slice : Bytes → Option T) where
  -- A message that is encoded is within the limit of the wire, and is decoded as itself by a reader
  -- whose own limit it does not exceed, if rmp_serde reads back what it wrote.
  pub decode-encode :
      ((m : T) (b : Bytes) → to_vec_named m ≡ some b → from_slice b ≡ some m)
      → (message : T) (bytes : Bytes) (maximum : ℕ)
      → encode to_vec_named from_slice message ≡ ok bytes
      → length bytes ≤ maximum
      → (length bytes ≤ max_wire_message_bytes)
        × (decode to_vec_named from_slice bytes maximum ≡ ok message)
  unfolding encode decode
  decode-encode reads message bytes maximum h n =
      let (encoded, e, rest) = >>=-eq-ok (ok_or (to_vec_named message) WireError.encoding) _ h in
      let written = ok_or-eq-ok (to_vec_named message) WireError.encoding e in
      ground (arith, reads message encoded written)

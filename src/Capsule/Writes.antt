-- ===== src/Capsule/Writes.antt =====
-- What `WritePacket` and `WriteControl` put on the stream.
use malon.Base.{ℕ, ◌%◌, ◌^◌, ◌<◌, ◌≡◌, ap, ◌∙◌, [], ◌++◌, Bytes, length, append_assoc, none, String}
use native.Mathlib.Nat.{mod-eq_of_lt}
use malon.Io.{Writer, out-two_writes}
use malon.Capsule.{
  append_varint, write_capsule, write_packet, write_control, capsule_type_ip_packet,
  capsule_type_control,
}
use malon.Capsule.Varint.{append_varint-append}
use malon.Capsule.Rounds.{capsule_bytes, ip_packet}

module _ {W : Type 0} ⦃wr : Writer W⦄ where
  -- What a write of a capsule that returns no error has written is the capsule.
  out-write_capsule :
      (header_text payload_text : String) (kind : ℕ) (w : W) (p : Bytes)
      → length p < 2 ^ 64
      → (write_capsule header_text payload_text kind w p).1 ≡ none
      → wr.out (write_capsule header_text payload_text kind w p).0
        ≡ wr.out w ++ capsule_bytes (record { kind = kind; payload = p })
  unfolding write_capsule
  out-write_capsule header_text payload_text kind w p fits h =
      let hdr = append_varint (append_varint [] kind) (length p % 2 ^ 64) in
      out-two_writes header_text payload_text w hdr p h
      ∙ ap (λ (x : Bytes). wr.out w ++ x)
          (ap (λ (x : Bytes). x ++ p)
              (append_varint-append (append_varint [] kind) (length p % 2 ^ 64)
                ∙ ap (λ (n : ℕ). append_varint [] kind ++ append_varint [] n) (mod-eq_of_lt fits))
            ∙ append_assoc (append_varint [] kind) (append_varint [] (length p)) p)

  pub out-write_packet :
      (w : W) (p : Bytes)
      → length p < 2 ^ 64
      → (write_packet w p).1 ≡ none
      → wr.out (write_packet w p).0 ≡ wr.out w ++ capsule_bytes (ip_packet p)
  unfolding write_packet
  out-write_packet w p fits h = out-write_capsule _ _ capsule_type_ip_packet w p fits h

  pub out-write_control :
      (w : W) (p : Bytes)
      → length p < 2 ^ 64
      → (write_control w p).1 ≡ none
      → wr.out (write_control w p).0
        ≡ wr.out w ++ capsule_bytes (record { kind = capsule_type_control; payload = p })
  unfolding write_control
  out-write_control w p fits h = out-write_capsule _ _ capsule_type_control w p fits h

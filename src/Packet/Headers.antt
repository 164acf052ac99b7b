-- ===== src/Packet/Headers.antt =====
-- The header of a packet as a record, and what the setters do to it.
use platform_system_connecti.Base.{ℕ, ◌+◌, ◌%◌, ◌^◌, ◌≤◌, ◌≡◌, ◌∙◌, length, write_at, arith}
use platform_system_connecti.Wire.{
  Bytes, le_bytes, le_value, read_le, read_le_before, read_le_behind, read_le_written,
}
use platform_system_connecti.Packet.{
  headers, get_message_length, get_message_type, get_flags, get_message_sequence, get_port_id,
  get_command, set_message_length, set_message_type, set_flags, set_message_sequence, set_port_id,
  set_command,
}

pub record Header : Type 0 where
  pub message_length : ℕ
  pub message_type : ℕ
  pub flags : ℕ
  pub sequence : ℕ
  pub port_id : ℕ
  pub command : ℕ

abbrev pub header_of : Bytes → Header
header_of d = record {
  message_length = get_message_length d;
  message_type = get_message_type d;
  flags = get_flags d;
  sequence = get_message_sequence d;
  port_id = get_port_id d;
  command = get_command d;
}

pub header_ext :
    {g h : Header}
    → g.message_length ≡ h.message_length
    → g.message_type ≡ h.message_type
    → g.flags ≡ h.flags
    → g.sequence ≡ h.sequence
    → g.port_id ≡ h.port_id
    → g.command ≡ h.command
    → g ≡ h
header_ext a b c d e f = λ i. record {
  message_length = a i;
  message_type = b i;
  flags = c i;
  sequence = d i;
  port_id = e i;
  command = f i;
}

-- The getters, opened together.
unfoldable pub fields : Unit {0}
unfolding get_message_length get_message_type get_flags get_message_sequence get_port_id get_command
fields = tt

-- Each setter writes its field, cut to the field's width, and leaves the others as they were.
module _ (d : Bytes) (long : headers ≤ length d) where
  written :
      (w off n : ℕ)
      → off + w ≤ headers
      → read_le w off (write_at off (le_bytes w n) d) ≡ le_value (le_bytes w n)
  written w off n h = read_le_written w off n d (omega arith)

  pub set_message_length_lem :
      (n : ℕ)
      → header_of (set_message_length d n)
        ≡ (let h = header_of d in record h { message_length = n % 2 ^ 32 })
  unfolding set_message_length fields
  set_message_length_lem n =
      header_ext (written 4 0 n (omega arith) ∙ omega arith)
        (read_le_behind 2 4 0 (le_bytes 4 n) d (omega arith))
        (read_le_behind 2 6 0 (le_bytes 4 n) d (omega arith))
        (read_le_behind 4 8 0 (le_bytes 4 n) d (omega arith))
        (read_le_behind 4 12 0 (le_bytes 4 n) d (omega arith))
        (read_le_behind 1 16 0 (le_bytes 4 n) d (omega arith))

  pub set_message_type_lem :
      (n : ℕ)
      → header_of (set_message_type d n)
        ≡ (let h = header_of d in record h { message_type = n % 2 ^ 16 })
  unfolding set_message_type fields
  set_message_type_lem n =
      header_ext (read_le_before 4 0 4 (le_bytes 2 n) d (omega arith))
        (written 2 4 n (omega arith) ∙ omega arith)
        (read_le_behind 2 6 4 (le_bytes 2 n) d (omega arith))
        (read_le_behind 4 8 4 (le_bytes 2 n) d (omega arith))
        (read_le_behind 4 12 4 (le_bytes 2 n) d (omega arith))
        (read_le_behind 1 16 4 (le_bytes 2 n) d (omega arith))

  pub set_flags_lem :
      (n : ℕ) → header_of (set_flags d n) ≡ (let h = header_of d in record h { flags = n % 2 ^ 16 })
  unfolding set_flags fields
  set_flags_lem n =
      header_ext (read_le_before 4 0 6 (le_bytes 2 n) d (omega arith))
        (read_le_before 2 4 6 (le_bytes 2 n) d (omega arith))
        (written 2 6 n (omega arith) ∙ omega arith)
        (read_le_behind 4 8 6 (le_bytes 2 n) d (omega arith))
        (read_le_behind 4 12 6 (le_bytes 2 n) d (omega arith))
        (read_le_behind 1 16 6 (le_bytes 2 n) d (omega arith))

  pub set_message_sequence_lem :
      (n : ℕ)
      → header_of (set_message_sequence d n)
        ≡ (let h = header_of d in record h { sequence = n % 2 ^ 32 })
  unfolding set_message_sequence fields
  set_message_sequence_lem n =
      header_ext (read_le_before 4 0 8 (le_bytes 4 n) d (omega arith))
        (read_le_before 2 4 8 (le_bytes 4 n) d (omega arith))
        (read_le_before 2 6 8 (le_bytes 4 n) d (omega arith))
        (written 4 8 n (omega arith) ∙ omega arith)
        (read_le_behind 4 12 8 (le_bytes 4 n) d (omega arith))
        (read_le_behind 1 16 8 (le_bytes 4 n) d (omega arith))

  pub set_port_id_lem :
      (n : ℕ)
      → header_of (set_port_id d n) ≡ (let h = header_of d in record h { port_id = n % 2 ^ 32 })
  unfolding set_port_id fields
  set_port_id_lem n =
      header_ext (read_le_before 4 0 12 (le_bytes 4 n) d (omega arith))
        (read_le_before 2 4 12 (le_bytes 4 n) d (omega arith))
        (read_le_before 2 6 12 (le_bytes 4 n) d (omega arith))
        (read_le_before 4 8 12 (le_bytes 4 n) d (omega arith))
        (written 4 12 n (omega arith) ∙ omega arith)
        (read_le_behind 1 16 12 (le_bytes 4 n) d (omega arith))

  pub set_command_lem :
      (n : ℕ)
      → header_of (set_command d n) ≡ (let h = header_of d in record h { command = n % 2 ^ 8 })
  unfolding set_command fields
  set_command_lem n =
      header_ext (read_le_before 4 0 16 (le_bytes 1 n) d (omega arith))
        (read_le_before 2 4 16 (le_bytes 1 n) d (omega arith))
        (read_le_before 2 6 16 (le_bytes 1 n) d (omega arith))
        (read_le_before 4 8 16 (le_bytes 1 n) d (omega arith))
        (read_le_before 4 12 16 (le_bytes 1 n) d (omega arith))
        (written 1 16 n (omega arith) ∙ omega arith)

-- ===== src/Parser.antt =====
-- The per-cable MIDI parser of firmware/midi_parser.c: `struct port_parser` and what `parse_byte`
-- does to it. A call of `emit` is the packet that the branch returns beside the new state;
-- `RxPump` writes it into the device->host ring.
pub mod Shape
pub mod Messages
pub mod Roundtrip
pub mod Payload
pub mod Realtime
use midex_class_firmware.Base.{
  ℕ, ◌+◌, ◌/◌, ◌%◌, Bool, true, false, ◌&&◌, ◌||◌, Option, none, some, ltb, leb, ◌==◌,
  if◌then◌else◌, List, [], ◌∷◌, ◌++◌,
}

-- Per-cable parser state; `sx[3]` is the three fields `sx0`, `sx1`, `sx2`.
pub record PortParser : Type 0 where
  pub status : ℕ
  pub cin : ℕ
  pub need : ℕ
  pub have : ℕ
  pub d0 : ℕ
  pub in_sysex : Bool
  pub sxn : ℕ
  pub sx0 : ℕ
  pub sx1 : ℕ
  pub sx2 : ℕ

-- The arguments of `emit` behind the cable number.
pub record Packet : Type 0 where
  pub cin : ℕ
  pub b0 : ℕ
  pub b1 : ℕ
  pub b2 : ℕ

abbrev pub packet : ℕ → ℕ → ℕ → ℕ → Packet
packet cin b0 b1 b2 = record { cin = cin; b0 = b0; b1 = b1; b2 = b2 }

-- What a branch of `parse_byte` leaves: the state, and the packet if it emits one.
abbrev pub Result : Type 0
Result = PortParser × Option Packet

-- One cable's part of `midi_parser_reset`; the other fields keep what they hold.
unfoldable pub reset : PortParser → PortParser
reset ps = record ps { status = 0; have = 0; in_sysex = false; sxn = 0 }

-- `ps->sx[ps->sxn++] = b`. An index past the array would be a stray write; `Parser.Shape` shows
-- that there is none.
push_sx : PortParser → ℕ → PortParser
push_sx ps b = record ps {
  sxn = (ps.sxn + 1) % 256;
  sx0 = if ps.sxn == 0 then b else ps.sx0;
  sx1 = if ps.sxn == 1 then b else ps.sx1;
  sx2 = if ps.sxn == 2 then b else ps.sx2;
}

-- `b == 0xF0`
sysex_start : PortParser → Result
sysex_start ps = (record ps { status = 0; have = 0; in_sysex = true; sx0 = 0xF0; sxn = 1 }, none)

-- `b == 0xF7` within a SysEx: `F7` is appended and the chunk is flushed.
sysex_flush : PortParser → Result
unfolding push_sx
sysex_flush ps =
    let qs = push_sx ps 0xF7 in
    (
      record qs { in_sysex = false; sxn = 0; status = 0 },
      some (
          packet ((0x04 + qs.sxn) % 256) qs.sx0 (if ltb 1 qs.sxn then qs.sx1 else 0)
            (if ltb 2 qs.sxn then qs.sx2 else 0)),
    )

-- `b == 0xF7`
sysex_end : PortParser → Result
unfolding sysex_flush
sysex_end ps =
    if ps.in_sysex then sysex_flush ps else (record ps { status = 0 }, some (packet 0x05 0xF7 0 0))

-- A channel voice status, 0x80-0xEF.
voice_status : ℕ → PortParser → Result
voice_status b ps =
    let cin = b / 16 in
    (
      record ps { status = b; cin = cin; need = if (cin == 0x0C) || (cin == 0x0D) then 1 else 2 },
      none,
    )

-- The `switch` on 0xF1-0xF6.
common_status : ℕ → PortParser → Result
common_status b ps =
    if (b == 0xF1) || (b == 0xF3)
    then (record ps { status = b; cin = 0x02; need = 1 }, none)
    else if b == 0xF2
    then (record ps { status = b; cin = 0x03; need = 2 }, none)
    else (record ps { status = 0 }, some (packet 0x05 b 0 0))

-- Any other status aborts a SysEx in progress.
status_byte : ℕ → PortParser → Result
unfolding sysex_start sysex_end voice_status common_status
status_byte b ps =
    let qs = record ps { in_sysex = false; sxn = 0; have = 0 } in
    if b == 0xF0
    then sysex_start ps
    else if b == 0xF7
    then sysex_end ps
    else if ltb b 0xF0
    then voice_status b qs
    else common_status b qs

-- A data byte within a SysEx: the third of a chunk sends it.
sysex_data : ℕ → PortParser → Result
unfolding push_sx
sysex_data b ps =
    let qs = push_sx ps b in
    if qs.sxn == 3
    then (record qs { sxn = 0 }, some (packet 0x04 qs.sx0 qs.sx1 qs.sx2))
    else (qs, none)

-- The message is complete.
complete : ℕ → PortParser → Result
complete b ps = (
  record ps { have = 0; status = if leb 0xF0 ps.status then 0 else ps.status },
  some (if ps.need == 1 then packet ps.cin ps.status b 0 else packet ps.cin ps.status ps.d0 b),
)

-- A data byte, 0x00-0x7F.
data_byte : ℕ → PortParser → Result
unfolding sysex_data complete
data_byte b ps =
    if ps.in_sysex
    then sysex_data b ps
    else if ps.status == 0
    then (ps, none)
    else if (ps.need == 2) && (ps.have == 0)
    then (record ps { d0 = b; have = 1 }, none)
    else complete b ps

-- `parse_byte`, on the state of its cable.
unfoldable pub parse_byte : ℕ → PortParser → Result
unfolding status_byte data_byte
parse_byte b ps =
    if leb 0xF8 b
    then (ps, some (packet 0x0F b 0 0))
    else if leb 0x80 b
    then status_byte b ps
    else data_byte b ps

abbrev pub packets_of : Option Packet → List Packet
packets_of none = []
packets_of (some p) = p ∷ []

-- A cable's bytes in order: the state that they leave, and the packets emitted on the way.
unfoldable pub feed : PortParser → List ℕ → PortParser × List Packet
feed ps [] = (ps, [])
feed ps (b ∷ bs) =
    let (qs, out) = parse_byte b ps in let (rs, more) = feed qs bs in (rs, packets_of out ++ more)

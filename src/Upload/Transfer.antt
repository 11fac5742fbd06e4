-- ===== src/Upload/Transfer.antt =====
-- host/midex-fw-upload.c: the control transfers of `main`, between the two writes of CPUCS. What libusb
-- answers to a transfer, after those before it, is a parameter.
pub mod Cells
pub mod Taken
pub mod Chunks
pub mod Order
use midex_class_firmware.Base.{
  ℕ, zero, suc, ◌+◌, ◌-◌, ◌*◌, ◌%◌, ◌^◌, Bool, true, false, ◌||◌, ltb, ◌==◌, if◌then◌else◌, List,
  [], ◌∷◌, ◌++◌, length, take, drop, min,
}
use midex_class_firmware.Upload.{FwRecord}

-- A write of some bytes to an address of the 8051, by the vendor request 0xA0.
pub record Transfer : Type 0 where
  pub addr : ℕ
  pub payload : List ℕ

-- What libusb_control_transfer returns: the number of bytes moved, or an error.
pub data Reply : Type 0 where
  moved : ℕ → Reply
  no_device other_error : Reply

-- CPUCS_ADDR and MAX_CHUNK
abbrev pub cpucs_addr : ℕ
cpucs_addr = 0x7F92

abbrev pub max_chunk : ℕ
max_chunk = 64

-- The result of `anchor_write` is 0.
abbrev pub is_zero : ℕ → Reply → Bool
is_zero len (moved n) = (n == len) || (n == 0)
is_zero len _ = false

-- It is LIBUSB_ERROR_NO_DEVICE.
abbrev pub is_no_device : Reply → Bool
is_no_device no_device = true
is_no_device _ = false

module _ (reply : List Transfer → Transfer → Reply) where
  -- `anchor_write`: what it is answered, and all transfers so far, oldest first.
  unfoldable pub anchor_write : ℕ → List ℕ → List Transfer → Reply × List Transfer
  anchor_write addr bytes log =
      let t : Transfer = record { addr = addr; payload = bytes } in (reply log t, log ++ (t ∷ []))

  -- The `while` over the chunks of a record, on fuel: false is `goto out_close`.
  unfoldable pub write_chunks : ℕ → FwRecord → ℕ → List Transfer → Bool × List Transfer
  write_chunks zero r off log = (true, log)
  write_chunks (suc fuel) r off log = elim (ltb off r.len) [
    | false ↦ (true, log)
    | true ↦
        let chunk = min (r.len - off) max_chunk in
        let done = anchor_write ((r.addr + off) % 2 ^ 16) (take chunk (drop off r.bytes)) log in
        elim (is_zero chunk done.0) [
          | false ↦ (false, done.1)
          | true ↦ write_chunks fuel r (off + chunk) done.1
        ]
  ]

  -- Four chunks hold 255 bytes.
  unfoldable pub write_records : List FwRecord → List Transfer → Bool × List Transfer
  write_records [] log = (true, log)
  write_records (r ∷ rs) log =
      let done = write_chunks 5 r 0 log in
      elim done.0 [ false ↦ (false, done.1) | true ↦ write_records rs done.1 ]

  -- `cpucs(h, 0)` and the test of its result.
  unfoldable pub let_go : List Transfer → Bool × List Transfer
  let_go log =
      let done = anchor_write cpucs_addr (0 ∷ []) log in
      (is_zero 1 done.0 || is_no_device done.0, done.1)

  -- `main` from `cpucs(h, 1)` on; true is the exit code 0.
  unfoldable pub upload : List FwRecord → Bool × List Transfer
  upload rs =
      let held = anchor_write cpucs_addr (1 ∷ []) [] in
      elim (is_zero 1 held.0) [
        | false ↦ (false, held.1)
        | true ↦
            let written = write_records rs held.1 in
            elim written.0 [ false ↦ (false, written.1) | true ↦ let_go written.1 ]
      ]
